-- ===== src/Submit.antt =====
-- POST /v1/runs, with what GET /v1/runs/{run_id} shares (dpp/apps/api/dpp_api/routers/runs.py). An
-- amount of the request is a `Decimal`, which the schema admits only with digits; an amount of a reply
-- is the `Decimal` that is printed with four places. The queue is a parameter: what `enqueue_run`
-- raises, if anything. The URL of a result is not modelled, only that there is a result.
pub mod Fee
pub mod Idempotent
pub mod Rows
pub mod Outcome
pub mod Completes
pub mod Polls
pub mod Reads
pub mod Late
mod Tests
use Prim.Native.String.{String, len}
use decisionproof.Base.{
  ℕ, ◌+◌, ◌-◌, ◌/◌, ℤ, pos, pos_part, ltb_ℤ, min_ℤ, max_ℤ, Bool, true, false, not, ◌&&◌, ◌||◌,
  Option, none, some, List, [], ltb, eqb, or_default, if◌then◌else◌, Dict,
}
use decisionproof.Money.{Decimal, Checked, usd_micros_to_decimal, decimal_to_usd_micros}
use decisionproof.Budget.{get_balance, refund_full}
use decisionproof.Runs.{
  Status, MoneyState, Stage, Run, is_status, get_by_id, get_by_idempotency_key, CreateError,
  primary_key, uq_runs_tenant_idempotency, Created, created, rejected, create,
}
use decisionproof.World.{World, Result, ok, err, update_run}
use decisionproof.Manager.{
  BudgetError, insufficient_budget, Summary, refund_run, reserve_budget, get_budget_summary,
}
use decisionproof.Plans.{
  Plan, TenantPlan, Violation, no_active_plan, Counter, check_rate_limit, get_active_plan, Enforced,
  enforced, violated, enforce,
}

pub record Meta : Type 0 where
  pub trace_id : Option ℕ
  pub profile_version : ℕ

-- `RunCreateRequest` with the header Idempotency-Key, which is a number here beside its length, and
-- the hash of the payload.
pub record Request : Type 0 where
  pub idempotency_key : ℕ
  pub key_length : ℕ
  pub payload_hash : ℕ
  pub pack_type : ℕ
  pub inputs : ℕ
  pub max_cost_usd : Decimal
  pub timebox_sec : ℕ
  pub meta : Option Meta

-- The tables and the Redis keys that the handlers use. A rate counter is one per tenant.
pub record Api : Type 0 where
  pub world : World
  pub mappings : List TenantPlan
  pub plans : Dict ℕ Plan
  pub post_keys : ℕ → Option Counter
  pub poll_keys : ℕ → Option Counter

abbrev pub set_key : ℕ → Option Counter → (ℕ → Option Counter) → ℕ → Option Counter
set_key tenant key keys t = if eqb t tenant then key else keys t

-- `RunReceipt` with the cost headers.
pub record Receipt : Type 0 where
  pub run_id : ℕ
  pub status : Status
  pub max_cost_usd : Decimal
  pub minimum_fee : Decimal
  pub actual_cost : Option Decimal
  pub trace_id : Option ℕ
  pub profile_version : ℕ
  pub created_at : ℕ

pub data Reply (A : Type 0) : Type 0 where
  replied : A → Reply A
  http_error : ℕ → Reply A
  plan_violation : Violation → Reply A

abbrev pub to_decimal : Option ℤ → Option Decimal
to_decimal none = none
to_decimal (some micros) = some (usd_micros_to_decimal micros)

abbrev pub build_receipt : ℕ → Run → Receipt
build_receipt run_id run = record {
  run_id = run_id;
  status = run.status;
  max_cost_usd = usd_micros_to_decimal run.reservation_max_cost_usd_micros;
  minimum_fee = usd_micros_to_decimal run.minimum_fee_usd_micros;
  actual_cost = to_decimal run.actual_cost_usd_micros;
  trace_id = run.trace_id;
  profile_version = run.profile_version;
  created_at = run.created_at;
}

-- `len(idempotency_key) < 8 or len(idempotency_key) > 64`; an empty key is shorter than 8.
abbrev pub is_bad_key : ℕ → Bool
is_bad_key length = ltb length 8 || ltb 64 length

-- `int(max_cost_usd_micros * 0.02)` is `max_cost_usd_micros // 50` for the amounts that the parser
-- lets through: the float product is exact to much less than a fiftieth.
unfoldable pub minimum_fee_of : ℤ → ℤ
minimum_fee_of cost = min_ℤ (min_ℤ (max_ℤ (pos 5000) (pos (pos_part cost / 50))) cost) (pos 100000)

-- The profile "v0.4.2.2".
abbrev pub default_profile_version : ℕ
default_profile_version = 0

abbrev pub profile_of : Option Meta → ℕ
profile_of none = default_profile_version
profile_of (some m) = m.profile_version

abbrev pub trace_of : Option Meta → Option ℕ
trace_of none = none
trace_of (some m) = m.trace_id

-- 30 days.
abbrev pub retention_seconds : ℕ
retention_seconds = 2592000

unfoldable pub new_run : ℕ → Request → ℤ → ℕ → Run
new_run tenant q cost now = record {
  tenant_id = tenant;
  pack_type = q.pack_type;
  profile_version = profile_of q.meta;
  status = Status.queued;
  money_state = MoneyState.unreserved;
  idempotency_key = some q.idempotency_key;
  payload_hash = q.payload_hash;
  version = 0;
  reservation_max_cost_usd_micros = cost;
  actual_cost_usd_micros = none;
  minimum_fee_usd_micros = minimum_fee_of cost;
  timebox_sec = some q.timebox_sec;
  inputs_json = some q.inputs;
  result_bucket = none;
  result_key = none;
  result_sha256 = none;
  retention_until = now + retention_seconds;
  lease_token = none;
  lease_expires_at = none;
  finalize_token = none;
  finalize_stage = Stage.null;
  finalize_claimed_at = none;
  completed_at = none;
  last_error_reason_code = none;
  last_error_detail = none;
  trace_id = trace_of q.meta;
  created_at = now;
  updated_at = now;
}

abbrev pub fail_updates : String → String → Run → Run
fail_updates code detail run = record run {
  status = Status.failed;
  money_state = MoneyState.refunded;
  last_error_reason_code = some code;
  last_error_detail = some detail;
}

-- `repo.update_with_version_check`, whose result is not read.
abbrev pub mark_failed : ℕ → ℕ → ℕ → String → String → ℕ → World → World
mark_failed run_id tenant expected code detail now w =
    (update_run {E = BudgetError} run_id tenant expected (fail_updates code detail) [] now w).1

-- `_build_receipt(run)`: the attributes are read again after a commit.
abbrev pub receipt_or_error : ℕ → Option Run → Reply Receipt
receipt_or_error run_id none = http_error 500
receipt_or_error run_id (some run) = replied (build_receipt run_id run)

-- The run under the key, if its payload is the same.
abbrev pub by_hash : ℕ → ℕ × Run → Reply Receipt
by_hash hash (run_id, run) =
    if eqb run.payload_hash hash then replied (build_receipt run_id run) else http_error 409

-- What one request draws or meets: a UUID, instants, what the queue raises, the texts of exceptions.
-- `none` in `detail` is the version conflict.
pub record Draw : Type 0 where
  pub run_id : ℕ
  pub now : ℕ
  pub enqueue_error : Option String
  pub detail : Option BudgetError → String

-- P0-5: the refund and the update, if the queue raises. Nothing but the queue's own exception can
-- end the refund.
unfoldable pub roll_back : ℕ → Draw → String → World → World
roll_back tenant d e w =
    mark_failed d.run_id tenant 1 "QUEUE_ENQUEUE_FAILED" e d.now
      (record w { redis = (refund_full tenant d.run_id w.redis).1 })

abbrev pub enqueue : ℕ → Draw → Option String → World → Reply Receipt × World
enqueue tenant d none w = (receipt_or_error d.run_id (get_by_id d.run_id tenant w.runs), w)
enqueue tenant d (some e) w = (http_error 500, roll_back tenant d e w)

-- `"insufficient" in str(e).lower()`: only the message of `InsufficientBudgetError` has the word.
abbrev pub reserve_status : Option BudgetError → ℕ
reserve_status (some insufficient_budget) = 402
reserve_status _ = 500

abbrev pub reserve_failed : ℕ → Draw → Option BudgetError → World → Reply Receipt × World
reserve_failed tenant d e w = (
  http_error (reserve_status e),
  mark_failed d.run_id tenant 0 "BUDGET_RESERVE_FAILED" (d.detail e) d.now w,
)

abbrev pub after_reserve : ℕ → Draw → Result BudgetError Bool × World → Reply Receipt × World
after_reserve tenant d (ok true, w) = enqueue tenant d d.enqueue_error w
after_reserve tenant d (ok false, w) = reserve_failed tenant d none w
after_reserve tenant d (err e, w) = reserve_failed tenant d (some e) w

-- The race for a key: the winner's row is read again.
abbrev pub lost_race : ℕ → Option (ℕ × Run) → Reply Receipt
lost_race hash none = http_error 409
lost_race hash (some found) = by_hash hash found

abbrev pub after_create : ℕ → Request → Draw → ℤ → Created → World → Reply Receipt × World
after_create tenant q d cost (created runs') w =
    after_reserve tenant d (reserve_budget d.run_id tenant 0 cost d.now (record w { runs = runs' }))
after_create tenant q d cost (rejected CreateError.uq_runs_tenant_idempotency) w =
    (lost_race q.payload_hash (get_by_idempotency_key tenant q.idempotency_key w.runs), w)
after_create tenant q d cost (rejected CreateError.primary_key) w = (http_error 500, w)

-- From the creation of the row on.
unfoldable pub submit : ℕ → Request → Draw → ℤ → World → Reply Receipt × World
submit tenant q d cost w =
    after_create tenant q d cost (create d.run_id (new_run tenant q cost d.now) w.runs) w

abbrev pub put_world : Api → Reply Receipt × World → Reply Receipt × Api
put_world a (reply, w) = (reply, record a { world = w })

abbrev pub after_enforce :
    ℕ → Request → Draw → ℤ → Enforced × Option Counter → Api → Reply Receipt × Api
after_enforce tenant q d cost (violated v, key) a =
    (plan_violation v, record a { post_keys = set_key tenant key a.post_keys })
after_enforce tenant q d cost (enforced plan, key) a =
    put_world (record a { post_keys = set_key tenant key a.post_keys })
      (submit tenant q d cost a.world)

-- A `MoneyError` is caught by no one: 500.
abbrev pub after_parse : ℕ → Request → Draw → Checked ℤ → Api → Reply Receipt × Api
after_parse tenant q d (Checked.err _) a = (http_error 500, a)
after_parse tenant q d (Checked.ok cost) a =
    after_enforce tenant q d cost
      (enforce tenant q.pack_type cost d.now a.mappings a.plans (a.post_keys tenant)) a

abbrev pub after_lookup : ℕ → Request → Draw → Option (ℕ × Run) → Api → Reply Receipt × Api
after_lookup tenant q d (some found) a = (by_hash q.payload_hash found, a)
after_lookup tenant q d none a = after_parse tenant q d (decimal_to_usd_micros q.max_cost_usd) a

unfoldable pub create_run : ℕ → Request → Draw → Api → Reply Receipt × Api
create_run tenant q d a =
    if is_bad_key q.key_length
    then (http_error 400, a)
    else after_lookup tenant q d (get_by_idempotency_key tenant q.idempotency_key a.world.runs) a
