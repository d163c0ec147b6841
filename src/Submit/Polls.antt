-- ===== src/Submit/Polls.antt =====
-- GET /v1/runs/{run_id}: `get_run` of dpp/apps/api/dpp_api/routers/runs.py.
use Prim.Native.String.{String, len}
use decisionproof.Base.{
  ℕ, ℤ, pos, Bool, false, not, ◌&&◌, Option, none, some, ltb, eqb, if◌then◌else◌,
}
use decisionproof.Money.{Decimal, usd_micros_to_decimal}
use decisionproof.Budget.{get_balance}
use decisionproof.Runs.{Status, MoneyState, Run, is_status, get_by_id}
use decisionproof.World.{World}
use decisionproof.Plans.{
  Plan, Violation, no_active_plan, Counter, check_rate_limit, get_active_plan,
}
use decisionproof.Submit.{Api, Reply, set_key, replied, http_error, plan_violation}

-- `RunStatusResponse` with the cost headers. `result` is the hash of a result that can be fetched.
pub record Report : Type 0 where
  pub run_id : ℕ
  pub status : Status
  pub money_state : MoneyState
  pub reserved_usd : Decimal
  pub used_usd : Decimal
  pub minimum_fee_usd : Decimal
  pub budget_remaining_usd : Decimal
  pub result : Option (Option ℕ)
  pub error : Option (String × String)
  pub trace_id : Option ℕ
  pub profile_version : ℕ
  pub created_at : ℕ
  pub updated_at : ℕ

-- `x or default`: None and the empty string give the default.
abbrev pub text_or : String → Option String → String
text_or default none = default
text_or default (some s) = if eqb (len s) 0 then default else s

abbrev pub has_text : Option String → Bool
has_text none = false
has_text (some s) = not (eqb (len s) 0)

abbrev pub result_info : Run → Option (Option ℕ)
result_info run =
    if is_status run.status Status.completed && has_text run.result_key
    then some run.result_sha256
    else none

abbrev pub error_info : Run → Option (String × String)
error_info run =
    if is_status run.status Status.failed
    then some
        (text_or "UNKNOWN" run.last_error_reason_code, text_or "Run failed" run.last_error_detail)
    else none

abbrev pub or_zero : Option ℤ → ℤ
or_zero none = pos 0
or_zero (some a) = a

abbrev pub report : ℕ → ℕ → Run → World → Report
report tenant run_id run w = record {
  run_id = run_id;
  status = run.status;
  money_state = run.money_state;
  reserved_usd = usd_micros_to_decimal run.reservation_max_cost_usd_micros;
  used_usd = usd_micros_to_decimal (or_zero run.actual_cost_usd_micros);
  minimum_fee_usd = usd_micros_to_decimal run.minimum_fee_usd_micros;
  budget_remaining_usd = usd_micros_to_decimal (get_balance tenant w.redis);
  result = result_info run;
  error = error_info run;
  trace_id = run.trace_id;
  profile_version = run.profile_version;
  created_at = run.created_at;
  updated_at = run.updated_at;
}

-- Stealth 404, then the retention.
abbrev pub by_retention : ℕ → ℕ → ℕ → Option Run → World → Reply Report
by_retention run_id tenant now none w = http_error 404
by_retention run_id tenant now (some run) w =
    if ltb run.retention_until now then http_error 410 else replied (report tenant run_id run w)

abbrev pub after_poll : ℕ → ℕ → ℕ → Option Violation × Option Counter → Api → Reply Report × Api
after_poll run_id tenant now (some v, key) a =
    (plan_violation v, record a { poll_keys = set_key tenant key a.poll_keys })
after_poll run_id tenant now (none, key) a = (
  by_retention run_id tenant now (get_by_id run_id tenant a.world.runs) a.world,
  record a { poll_keys = set_key tenant key a.poll_keys },
)

abbrev pub after_active_plan : ℕ → ℕ → ℕ → Option Plan → Api → Reply Report × Api
after_active_plan run_id tenant now none a = (plan_violation no_active_plan, a)
after_active_plan run_id tenant now (some plan) a =
    after_poll run_id tenant now
      (check_rate_limit plan.rate_limit_poll_per_min now (a.poll_keys tenant)) a

-- The budget summary that it computes is not read.
unfoldable pub get_run : ℕ → ℕ → ℕ → Api → Reply Report × Api
get_run run_id tenant now a =
    after_active_plan run_id tenant now (get_active_plan tenant now a.mappings a.plans) a
