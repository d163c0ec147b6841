-- ===== src/Pricing/Tests.antt =====
-- A tier with a quota of 100, and a grace of at most one percent.
use decisionproof.Base.{ℕ, pos, ◌+ℤ◌, ◌≡◌, true, some, [], ◌∷◌, arith, Dict, pair_eq}
use decisionproof.Plans.{Counter}
use decisionproof.Pricing.{TierLimits, Ssot, is_billable, current_usage, UsageEvent}
use decisionproof.Pricing.Charging.{no_keys, meter_all, meter_all-sums}

abbrev ssot : Ssot
ssot = record {
  applies_to_fields = λ f. true;
  idempotency_retention_days = 45;
  grace_enabled = true;
  max_grace_percent = 1;
  max_grace_dc = 100;
  billable_success = some true;
  billable_422 = some true;
  non_billable = λ s. some true;
  non_billable_5xx = some true;
}

abbrev limits : TierLimits
limits = record {
  rate_limit_rpm = 3;
  rate_limit_window_seconds = 60;
  monthly_quota_dc = 100;
  hard_overage_dc_cap = 50;
}

abbrev event : ℕ → ℕ → UsageEvent
event run_id status = record {
  workspace_id = 1;
  run_id = run_id;
  dc_amount = pos 30;
  http_status = status;
  month = 650;
  at = 1000;
}

-- A run that fails first, and is then repeated with success, is never charged.
meter_all-sums_example :
    current_usage 1 650 2000
      (meter_all ssot (event 5 200 ∷ event 5 200 ∷ event 6 500 ∷ event 6 200 ∷ []) no_keys)
    ≡ pos 30
unfolding is_billable ◌+ℤ◌
meter_all-sums_example =
    meter_all-sums ssot 1000 (event 5 200 ∷ event 5 200 ∷ event 6 500 ∷ event 6 200 ∷ []) 1 650 2000
      (omega arith)
      (
        omega arith,
        omega arith,
        (omega arith, omega arith, (omega arith, omega arith, (omega arith, omega arith, tt))),
      )
      (omega arith)

abbrev two_requests : Dict (ℕ × ℕ) Counter
two_requests = ((1, 16), record { count = 2; expires_at = some 1020 }) ∷ []
