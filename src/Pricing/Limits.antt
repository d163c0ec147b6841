-- ===== src/Pricing/Limits.antt =====
-- What the checks of the enforcement engine mean for what is charged after them.
use decisionproof.Base.{
  ℕ, ◌+◌, ◌-◌, ◌*◌, ◌/◌, ◌≤◌, ◌<◌, ℤ, pos, ◌+ℤ◌, ◌-ℤ◌, ◌≤ℤ◌, ltb_ℤ, int_laws, ◌≡◌, refl, inl, inr,
  ◌↔◌, Bool, true, false, Option, none, some, arith, ltb, leb, if◌then◌else◌, Dict, lookup,
  lookup-insert_self, pair_eq, Bool-cases,
}
use decisionproof.Plans.{Counter, incr}
use decisionproof.Pricing.{
  LimitField, TierLimits, Ssot, is_zero_unlimited, is_billable, Keys, live_amount, current_usage,
  get_remaining_dc, UsageEvent, is_live, meter_event, record_usage, Violated,
  check_monthly_dc_quota, calculate_grace_overage, check_hard_overage_cap, expire_first,
  check_rpm_limit,
}

abbrev cell_usage : UsageEvent → Keys → ℤ
cell_usage e keys = current_usage e.workspace_id e.month e.at keys

-- An event adds its amount to the usage of its month, or nothing.
usage-meter_event :
    (ssot : Ssot) (e : UsageEvent) (keys : Keys)
    → pos 0 ≤ℤ e.dc_amount
    → (cell_usage e (meter_event ssot e keys) ≤ℤ cell_usage e keys +ℤ e.dc_amount)
unfolding meter_event current_usage
usage-meter_event ssot e keys p =
    elim (Bool-cases (is_live e.at (lookup (e.workspace_id, e.run_id) keys.seen))) [
      | inl live ↦ rw live (grows (cell_usage e keys) e.dc_amount p)
      | inr new ↦ elim (Bool-cases (is_billable ssot e.http_status)) [
        | inr free ↦ rw (new, free) (grows (cell_usage e keys) e.dc_amount p)
        | inl billable ↦
            let late : leb (e.at + 90 * 86400) e.at ≡ false = ground arith in
            rw
              (
                new,
                billable,
                lookup-insert_self {K = ℕ × ℕ} (e.workspace_id, e.month)
                    (record {
                      amount =
                          live_amount e.at (lookup (e.workspace_id, e.month) keys.usage)
                          +ℤ e.dc_amount;
                      expires_at = e.at + 90 * 86400;
                    })
                    keys.usage,
              )
              (rw late (same (cell_usage e keys +ℤ e.dc_amount)))
      ]
    ]
  where
    grows : (a b : ℤ) → pos 0 ≤ℤ b → a ≤ℤ a +ℤ b
    grows a b h = omega int_laws

    same : (a : ℤ) → a ≤ℤ a
    same a = omega int_laws

-- A check with its recording right after it. If the quota check lets an event through, the tier's quota is not
-- unlimited, and the amount is not negative, then after the event has been recorded the usage of the
-- month is at most the quota, and the reply's remaining amount is exactly the rest.
pub quota_kept :
    (ssot : Ssot) (limits : TierLimits) (e : UsageEvent) (keys : Keys)
    → pos 0 ≤ℤ e.dc_amount
    → is_zero_unlimited ssot limits.monthly_quota_dc LimitField.monthly_quota_dc ≡ false
    → check_monthly_dc_quota ssot limits e keys ≡ none
    → let (result, keys') = record_usage ssot e limits.monthly_quota_dc keys in
      (current_usage e.workspace_id e.month e.at keys' ≤ℤ pos limits.monthly_quota_dc)
      × (result.workspace_remaining_dc
          ≡ pos limits.monthly_quota_dc -ℤ current_usage e.workspace_id e.month e.at keys')
unfolding record_usage get_remaining_dc check_monthly_dc_quota
quota_kept ssot limits e keys p limited ok =
    let grown = usage-meter_event ssot e keys p in
    let room = within ok in
    let small =
      through (cell_usage e (meter_event ssot e keys)) (cell_usage e keys +ℤ e.dc_amount)
        (pos limits.monthly_quota_dc) grown room in
    (small, rest (pos limits.monthly_quota_dc) (cell_usage e (meter_event ssot e keys)) small)
  where
    through : (a b c : ℤ) → a ≤ℤ b → b ≤ℤ c → a ≤ℤ c
    through a b c h k = omega int_laws

    clamped : (x : ℤ) → pos 0 ≤ℤ x → (if ltb_ℤ (pos 0) x then x else pos 0) ≡ x
    clamped x h = ground (arith, h)

    rest : (q u : ℤ) → u ≤ℤ q → (if ltb_ℤ (pos 0) (q -ℤ u) then q -ℤ u else pos 0) ≡ q -ℤ u
    rest q u h = clamped (q -ℤ u) (omega int_laws)

    none_some : {v : Violated} → ◌≡◌ {A = Option Violated} (some v) none → ⊥
    none_some h = cc

    within :
        check_monthly_dc_quota ssot limits e keys ≡ none
        → cell_usage e keys +ℤ e.dc_amount ≤ℤ pos limits.monthly_quota_dc
    within h =
        elim (Bool-cases (ltb_ℤ (pos limits.monthly_quota_dc) (cell_usage e keys +ℤ e.dc_amount))) [
          | inl over ↦ absurd (none_some (rw (limited, over) at h))
          | inr room ↦ ground (arith, room)
        ]

grace_bounds :
    (ssot : Ssot) (limits : TierLimits)
    → (calculate_grace_overage ssot limits ≤ ssot.max_grace_dc)
      × (calculate_grace_overage ssot limits * 100
          ≤ limits.hard_overage_dc_cap * ssot.max_grace_percent)
unfolding calculate_grace_overage
grace_bounds ssot limits =
    bounds ssot.grace_enabled (limits.hard_overage_dc_cap * ssot.max_grace_percent)
      ssot.max_grace_dc
  where
    bounds :
        (b : Bool) (x most : ℕ)
        → let grace = if b then (if leb (x / 100) most then x / 100 else most) else 0 in
          (grace ≤ most) × (grace * 100 ≤ x)
    bounds b x most = (ground arith, ground arith)

-- The hard cap. Where a cap of 0 does not mean that there is none, an event is let through exactly
-- when the usage with its amount is at most the quota, the cap and the grace together; the grace is at
-- most `max_grace_dc` and, in percent of the cap, at most `max_grace_percent`.
pub check_hard_overage_cap_lem :
    (ssot : Ssot) (limits : TierLimits) (e : UsageEvent) (keys : Keys)
    → is_zero_unlimited ssot limits.hard_overage_dc_cap LimitField.hard_overage_dc_cap ≡ false
    → let grace = calculate_grace_overage ssot limits in
      ((check_hard_overage_cap ssot limits e keys ≡ none) ↔ (
        current_usage e.workspace_id e.month e.at keys +ℤ e.dc_amount
        ≤ℤ pos (limits.monthly_quota_dc + limits.hard_overage_dc_cap + grace)))
      × (grace ≤ ssot.max_grace_dc)
      × (grace * 100 ≤ limits.hard_overage_dc_cap * ssot.max_grace_percent)
unfolding check_hard_overage_cap
check_hard_overage_cap_lem ssot limits e keys limited =
    let (small, part) = grace_bounds ssot limits in
    (
      rw limited (
          by_test
            (record {
              limit = limits.monthly_quota_dc + limits.hard_overage_dc_cap;
              current = cell_usage e keys;
              window_seconds = none;
            })
            (cell_usage e keys +ℤ e.dc_amount)
            (pos (
              limits.monthly_quota_dc
              + limits.hard_overage_dc_cap
              + calculate_grace_overage ssot limits))),
      small,
      part,
    )
  where
    some_none : {v : Violated} → ◌≡◌ {A = Option Violated} (some v) none → ⊥
    some_none h = cc

    by_test :
        (v : Violated) (used bound : ℤ)
        → (◌≡◌ {A = Option Violated} (if ltb_ℤ bound used then some v else none) none)
          ↔ (used ≤ℤ bound)
    by_test v used bound = elim (Bool-cases (ltb_ℤ bound used)) [
      | inl over ↦ rw over (λ h. absurd (some_none h), λ h. ground (arith, over, h))
      | inr room ↦ rw room (λ h. ground (arith, room), λ h. refl)
    ]

-- The rate limit counts the requests that it lets through. With a counter that lives and has not
-- passed the limit, a request is let through exactly when the counter is below the limit; then it goes
-- up by one, and else it stays as it is. So it never passes the limit.
pub check_rpm_limit_lem :
    (ssot : Ssot) (limits : TierLimits) (workspace now t : ℕ) (counters : Dict (ℕ × ℕ) Counter)
    (count : ℕ)
    → is_zero_unlimited ssot limits.rate_limit_rpm LimitField.rate_limit_rpm ≡ false
    → lookup (workspace, now / limits.rate_limit_window_seconds) counters
      ≡ some (record { count = count; expires_at = some t })
    → now < t
    → 1 ≤ count
    → count ≤ limits.rate_limit_rpm
    → let (verdict, counters') = check_rpm_limit ssot limits workspace now counters in
      ((verdict ≡ none) ↔ (count < limits.rate_limit_rpm))
      × (lookup (workspace, now / limits.rate_limit_window_seconds) counters'
          ≡ some (record {
            count = if ltb count limits.rate_limit_rpm then count + 1 else count;
            expires_at = some t;
          }))
unfolding check_rpm_limit
check_rpm_limit_lem ssot limits workspace now t counters count limited found lives one within =
    let key : ℕ × ℕ = (workspace, now / limits.rate_limit_window_seconds) in
    let c : Counter = record { count = count + 1; expires_at = some t } in
    let stepped : expire_first limits.rate_limit_window_seconds now
          (incr now (some (record { count = count; expires_at = some t })))
        ≡ c =
      ground arith in
    rw (limited, found)
      (rw stepped (elim (Bool-cases (ltb limits.rate_limit_rpm (count + 1))) [
        | inl full ↦
            let at_limit : ltb count limits.rate_limit_rpm ≡ false = ground (arith, full) in
            let back : count + 1 - 1 ≡ count = omega arith in
            rw (full, at_limit, back)
              (
                (λ h. absurd (some_none h), λ h. ground (arith, full, h)),
                lookup-insert_self {K = ℕ × ℕ} key _ counters,
              )
        | inr room ↦
            let below : ltb count limits.rate_limit_rpm ≡ true = ground (arith, room) in
            rw (room, below)
              (
                (λ h. ground (arith, room), λ h. refl),
                lookup-insert_self {K = ℕ × ℕ} key _ counters,
              )
      ]))
  where
    some_none : {v : Violated} → ◌≡◌ {A = Option Violated} (some v) none → ⊥
    some_none h = cc
