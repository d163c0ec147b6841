-- ===== src/Metering.antt =====
-- Metering of finished runs into `tenant_usage_daily`
-- (dpp/apps/api/dpp_api/metering/usage_tracker.py). A row stands under (tenant, day); the day of an
-- instant is its seconds divided by those of a day.
pub mod Totals
mod Tests
use decisionproof.Base.{
  ℕ, ◌+◌, ◌/◌, ℤ, pos, ◌+ℤ◌, Bool, true, false, Option, none, some, [], ◌∷◌, or_default,
  if◌then◌else◌, Dict, lookup, insert, pair_eq, eqb_pair,
}
use decisionproof.Runs.{Run, Status, is_status}

pub record UsageRow : Type 0 where
  pub runs_count : ℕ
  pub success_count : ℕ
  pub fail_count : ℕ
  pub cost_usd_micros_sum : ℤ
  pub reserved_usd_micros_sum : ℤ
  pub created_at : ℕ
  pub updated_at : ℕ

abbrev pub Usage : Type 0
Usage = Dict (ℕ × ℕ) UsageRow

-- `run.created_at.date()`; the column is never NULL.
abbrev pub usage_date : Run → ℕ
usage_date run = run.created_at / 86400

abbrev pub success_of : Run → ℕ
success_of run = if is_status run.status Status.completed then 1 else 0

abbrev pub fail_of : Run → ℕ
fail_of run = if is_status run.status Status.completed then 0 else 1

-- `run.actual_cost_usd_micros or 0`
abbrev pub cost_of : Run → ℤ
cost_of run = or_default run.actual_cost_usd_micros (pos 0)

abbrev pub new_usage : Run → ℕ → UsageRow
new_usage run now = record {
  runs_count = 1;
  success_count = success_of run;
  fail_count = fail_of run;
  cost_usd_micros_sum = cost_of run;
  reserved_usd_micros_sum = run.reservation_max_cost_usd_micros;
  created_at = now;
  updated_at = now;
}

abbrev pub add_usage : Run → ℕ → UsageRow → UsageRow
add_usage run now row = record row {
  runs_count = row.runs_count + 1;
  success_count = row.success_count + success_of run;
  fail_count = row.fail_count + fail_of run;
  cost_usd_micros_sum = row.cost_usd_micros_sum +ℤ cost_of run;
  reserved_usd_micros_sum = row.reserved_usd_micros_sum +ℤ run.reservation_max_cost_usd_micros;
  updated_at = now;
}

-- The SQLite branch: a SELECT, then an UPDATE or an INSERT.
unfoldable pub record_select_then_write : Run → ℕ → Usage → Usage
record_select_then_write run now usage =
    let key : ℕ × ℕ = (run.tenant_id, usage_date run) in
    elim (lookup key usage) [
      | some existing ↦ insert key (add_usage run now existing) usage
      | none ↦ insert key (new_usage run now) usage
    ]

-- The PostgreSQL branch, INSERT … ON CONFLICT DO UPDATE: one pass to the conflicting row, or to the
-- end of the table.
unfoldable pub record_upsert : Run → ℕ → Usage → Usage
record_upsert run now [] = ((run.tenant_id, usage_date run), new_usage run now) ∷ []
record_upsert run now ((k, row) ∷ usage) =
    if eqb_pair k (run.tenant_id, usage_date run)
    then (k, add_usage run now row) ∷ usage
    else (k, row) ∷ record_upsert run now usage

-- `record_run_completion`, by the dialect of the database.
unfoldable pub record_run_completion : (is_sqlite : Bool) → Run → ℕ → Usage → Usage
unfolding record_select_then_write record_upsert
record_run_completion true run now usage = record_select_then_write run now usage
record_run_completion false run now usage = record_upsert run now usage
