-- ===== src/Submit/Reads.antt =====
-- What a tenant learns from GET /v1/runs/{run_id}.
use decisionproof.Base.{ℕ, ◌≡◌, ◌≢◌, refl, Option, none, some, arith, eqb_iff, lookup, nat_eq}
use decisionproof.Runs.{Run, Runs, get_by_id}
use decisionproof.Plans.{Plan, Violation, Counter, get_active_plan, check_rate_limit}
use decisionproof.Submit.{Api}
use decisionproof.Submit.Polls.{after_active_plan, after_poll, get_run}

-- The same database with other runs.
abbrev pub with_runs : Runs → Api → Api
with_runs runs' a = record a { world = record a.world { runs = runs' } }

hidden :
    (run_id tenant : ℕ) (run : Run) (runs : Runs)
    → lookup run_id runs ≡ some run
    → run.tenant_id ≢ tenant
    → get_by_id run_id tenant runs ≡ none
unfolding get_by_id
hidden run_id tenant run runs e apart =
    rw (e, get_by_id) (ground (arith, eqb_iff run.tenant_id tenant, apart))

missing :
    (run_id tenant : ℕ) (runs : Runs)
    → lookup run_id runs ≡ none
    → get_by_id run_id tenant runs ≡ none
unfolding get_by_id
missing run_id tenant runs e = rw (e, get_by_id) refl

module _ (run_id tenant now : ℕ) (a : Api) (runs' : Runs)
    (unseen : get_by_id run_id tenant a.world.runs ≡ none)
    (unseen' : get_by_id run_id tenant runs' ≡ none) where
  same_poll :
      (x : Option Violation × Option Counter)
      → (after_poll run_id tenant now x a).0
        ≡ (after_poll run_id tenant now x (with_runs runs' a)).0
  same_poll (some v, key) = refl
  same_poll (none, key) = rw (unseen, unseen') refl

  same_plan :
      (plan : Option Plan)
      → (after_active_plan run_id tenant now plan a).0
        ≡ (after_active_plan run_id tenant now plan (with_runs runs' a)).0
  same_plan none = refl
  same_plan (some plan) =
      same_poll (check_rate_limit plan.rate_limit_poll_per_min now (a.poll_keys tenant))

  same_reply : (get_run run_id tenant now a).0 ≡ (get_run run_id tenant now (with_runs runs' a)).0
  unfolding get_run
  same_reply = same_plan (get_active_plan tenant now a.mappings a.plans)

after_poll-world :
    (run_id tenant now : ℕ) (a : Api) (x : Option Violation × Option Counter)
    → (after_poll run_id tenant now x a).1.world ≡ a.world
after_poll-world run_id tenant now a (some v, key) = refl
after_poll-world run_id tenant now a (none, key) = refl

after_active_plan-world :
    (run_id tenant now : ℕ) (a : Api) (plan : Option Plan)
    → (after_active_plan run_id tenant now plan a).1.world ≡ a.world
after_active_plan-world run_id tenant now a none = refl
after_active_plan-world run_id tenant now a (some plan) =
    after_poll-world run_id tenant now a
      (check_rate_limit plan.rate_limit_poll_per_min now (a.poll_keys tenant))

get_run-world : (run_id tenant now : ℕ) (a : Api) → (get_run run_id tenant now a).1.world ≡ a.world
unfolding get_run
get_run-world run_id tenant now a =
    after_active_plan-world run_id tenant now a (get_active_plan tenant now a.mappings a.plans)

-- The stealth 404. The reply to a tenant who asks for another tenant's run is the reply that it would
-- get if there were no such run, whatever that run holds and whatever the other rows are; and the
-- question changes no run and no money.
pub get_run_hides :
    (run_id tenant now : ℕ) (run : Run) (a : Api) (runs' : Runs)
    → lookup run_id a.world.runs ≡ some run
    → run.tenant_id ≢ tenant
    → lookup run_id runs' ≡ none
    → ((get_run run_id tenant now a).0 ≡ (get_run run_id tenant now (with_runs runs' a)).0)
      × ((get_run run_id tenant now a).1.world ≡ a.world)
get_run_hides run_id tenant now run a runs' e apart gone = (
  same_reply run_id tenant now a runs' (hidden run_id tenant run a.world.runs e apart)
      (missing run_id tenant runs' gone),
  get_run-world run_id tenant now a,
)
