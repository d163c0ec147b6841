-- ===== src/Lib.antt =====
-- Decisionproof: runs, budgets, and how they end.
--
-- The program sells runs of decision packs. A payment, confirmed by the provider's webhook, grants
-- an entitlement: an active plan and a balance. A tenant's token lets it submit runs under that
-- plan. A run is a row of the table `runs`; its money is a balance and a reservation in Redis. The
-- API reserves the maximum cost of a run; a worker takes the run under a lease, executes it, and
-- finalizes it: it claims the row, settles the reservation in Redis, and commits the final state.
-- The reaper ends runs whose lease has run out, and the reconcile loop ends runs that were claimed
-- and then left. All three write through the same repository, whose updates are guarded by a
-- version, and through the same Lua scripts.
--
-- Files, with the code that they model, by its path from the root of the repository:
--   Budget: dpp/apps/api/dpp_api/budget/redis_scripts.py, the Lua scripts (`reserve_lua`,
--   `settle_reservation`, `refund_full`) and `BudgetScripts` around them. Budget/Scripts and
--   Budget/Settling have the conservation of money for each script, Budget/Trace for any sequence
--   of calls, Budget/Receipts the settlement, Budget/Reserving the reservation and its end.
--   Money: dpp/apps/api/dpp_api/utils/money.py.
--   Runs: `Run` of dpp/apps/api/dpp_api/db/models.py and `RunRepository` of db/repo_runs.py; the
--   definitions stand in Runs/Defs. Runs/Locking has one update, Runs/History sequences of updates,
--   Runs/Scans the scan for expired leases and the idempotency constraint, Runs/Keys the row of a
--   key over time.
--   Metering: dpp/apps/api/dpp_api/metering/usage_tracker.py.
--   World: the tables and Redis together, and actions on them that may raise.
--   Finalize: dpp/apps/worker/dpp_worker/finalize/optimistic_commit.py. Finalize/Claim and
--   Finalize/Commit have its two phases, Finalize/Once a whole finalize by any of the three
--   finalizers of Finalize/Finalizers, Finalize/Race two of them, Finalize/Frame the other runs.
--   Manager: `BudgetManager` of dpp/apps/api/dpp_api/budget/manager.py; `settle` and `refund` are
--   one definition, `settle_as`, at the money state that they write.
--   Reaper: dpp/apps/reaper/dpp_reaper/loops/reaper_loop.py. Reaper/Wins has one run, Reaper/Sweep
--   an iteration.
--   Reconcile: dpp/apps/reaper/dpp_reaper/loops/reconcile_loop.py. Reconcile/Recover has the paths,
--   Reconcile/Outcome how they end, Reconcile/Once what cannot happen twice, Reconcile/Crash the
--   crashed worker, Reconcile/Reread rows that the session reads again, Reconcile/Stale rows that
--   have changed since the scan.
--   Worker: dpp/apps/worker/dpp_worker/loops/sqs_loop.py (`_process_message`) and heartbeat.py
--   beside its folder. Worker/Heartbeat has the heartbeat, Worker/Verdicts and Worker/Deletes the
--   deletion of messages, Worker/Completes a run that goes well.
--   Plans: dpp/apps/api/dpp_api/enforce/plan_enforcer.py and db/repo_plans.py. Plans/Guards has the
--   checks, Plans/Window the rate limit.
--   Webhooks: dpp/apps/api/dpp_api/billing/webhook_dedup.py.
--   Checkout: dpp/apps/api/dpp_api/db/repo_checkout.py. Checkout/Sessions has the steps and what
--   they cannot undo, Checkout/FirstWriter the one open session.
--   Submit: dpp/apps/api/dpp_api/routers/runs.py, `create_run`, and in Submit/Polls `get_run`.
--   Submit/Rows and Submit/Outcome have a submission from its row on, Submit/Idempotent the whole
--   request and its repetition, Submit/Completes the way to the result, Submit/Late a queue that
--   fails too late, Submit/Fee the minimum fee, Submit/Reads what a tenant can see.
--   Pricing: dpp/apps/api/dpp_api/pricing (enforcement.py, metering.py, and the lookups of
--   models.py). Pricing/Charging has the metering, Pricing/Limits the checks.
--   Tokens: dpp/apps/api/dpp_api/routers/tokens.py and auth/token_auth.py. Tokens/Counts and
--   Tokens/Keeps have one request, Tokens/Quota sequences of requests, Tokens/Rotation and
--   Tokens/Revoking the two ends of a token.
--   Entitlements: the tables of payments in dpp/apps/api/dpp_api/db/models.py, `_grant_entitlement`
--   and `_revoke_entitlement` of routers/webhooks.py; Entitlements/Activates has the plan that they
--   leave.
--   Payments: the two webhooks of dpp/apps/api/dpp_api/routers/webhooks.py, and in Payments/Router
--   the PayPal orders and captures of routers/billing.py. Payments/Proof has what a grant needs,
--   Payments/Customers what no customer's request does, Payments/Retries the second delivery of a
--   failed event, Payments/Races the webhook in the middle of a capture.
--   KillSwitch: dpp/apps/api/dpp_api/config/kill_switch.py. KillSwitch/Gate has
--   middleware/kill_switch.py and middleware/maintenance.py, KillSwitch/Audit
--   audit/kill_switch_audit.py and audit/sinks.py, KillSwitch/Admin the requests of
--   routers/admin.py, KillSwitch/Changes one request for a change, KillSwitch/Holds sequences of
--   requests.
--   Demo: dpp/apps/api/dpp_api/routers/demo_runs.py. Demo/Polls has the polls, Demo/Keeps what
--   requests leave of a run, Demo/Expiry what becomes of a run that was submitted.
--   Base: shared types, integers and tables. Examples: rows and a store for the tests.
--
-- State and steps. The database is tables as association lists, each statement with its commit one
-- step; a Lua script is one step on Redis. Identifiers, tokens, hashes and free text that is only
-- compared are numbers. An instant is a number of seconds, in Redis of milliseconds, given to each
-- operation, and a second one where the source reads the clock again after a write of a record or a
-- result; a fresh UUID is an argument too. A request of the API that reads and then writes, such as
-- the count and the insert of a new token, is one step: two of them at once are not modelled, nor
-- is the server's dropping of expired reservations. A caller's assignments are a function on rows.
-- A row that a loop holds is the object of its session, which a commit of the session makes it read
-- again (`reload`). An exception is an `err`, and what was written before it stays. Actions of
-- different processes interleave as sequences of these steps; where a theorem speaks of two
-- finalizes, of a crash, or of writes in between, the steps are explicit in its statement.
--
-- Bounds. Amounts are integers: `validate_usd_micros` admits up to 10^10, far below the 10^14 up to
-- which Lua prints a number with all its digits, the 2^53 that it holds exactly, and the 2^63 of a
-- BIGINT; a balance, which the code does not bound, is taken as exact. No definition uses fuel: all
-- recursion is on lists. The endless loops of the reaper and the reconcile loop are modelled by one
-- iteration.
--
-- Not modelled: HTTP, logging, sleeping and signals; SQS, whose answer is an input of the
-- submission; the object store, which is a parameter of the reconcile loop (`Storage`); errors of
-- the database and of Redis themselves; the executors of packs; the answers of the payment
-- providers, their signatures and the HMAC of tokens, which are inputs or parameters; sessions and
-- sign-up, the audit of the budget and the retention job, the feedback of mail, and the scripts of
-- operations.
pub mod Base
pub mod Budget
pub mod Runs
pub mod Money
pub mod Metering
pub mod World
mod Examples
pub mod Finalize
pub mod KillSwitch
pub mod Demo
pub mod Manager
pub mod Reaper
pub mod Reconcile
pub mod Worker
pub mod Plans
pub mod Webhooks
pub mod Checkout
pub mod Submit
pub mod Pricing
pub mod Tokens
pub mod Entitlements
pub mod Payments
