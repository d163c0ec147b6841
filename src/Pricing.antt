-- ===== src/Pricing.antt =====
-- The pricing policy (dpp/apps/api/dpp_api/pricing): enforcement.py, metering.py, and the two lookups of
-- models.py. The keys `rpm:…`, `idempotency:…` and `usage:…` of Redis are tables; a key that has run
-- out is as good as none. The month of an event is given with it, and a percentage is a whole number.
pub mod Charging
pub mod Limits
mod Tests
use decisionproof.Base.{
  ℕ, ◌+◌, ◌-◌, ◌*◌, ◌/◌, ℤ, pos, ◌+ℤ◌, ◌-ℤ◌, ltb_ℤ, max_ℤ, Bool, true, false, not, ◌&&◌, Option,
  none, some, List, [], ◌∷◌, ltb, leb, eqb, or_default, if◌then◌else◌, Dict, lookup, insert,
  pair_eq,
}
use decisionproof.Plans.{mem, Counter, incr}

pub data LimitField : Type 0 where
  rate_limit_rpm monthly_quota_dc hard_overage_dc_cap : LimitField

pub record TierLimits : Type 0 where
  pub rate_limit_rpm : ℕ
  pub rate_limit_window_seconds : ℕ
  pub monthly_quota_dc : ℕ
  pub hard_overage_dc_cap : ℕ

-- The parts of `PricingSSoTModel` that the code below reads: a missing entry of the two dictionaries
-- of the billing rules is `none`.
pub record Ssot : Type 0 where
  pub applies_to_fields : LimitField → Bool
  pub idempotency_retention_days : ℕ
  pub grace_enabled : Bool
  pub max_grace_percent : ℕ
  pub max_grace_dc : ℕ
  pub billable_success : Option Bool
  pub billable_422 : Option Bool
  pub non_billable : ℕ → Option Bool
  pub non_billable_5xx : Option Bool

pub record TierModel : Type 0 where
  pub tier : ℕ
  pub limits : TierLimits

unfoldable pub get_tier : ℕ → List TierModel → Option TierModel
get_tier name [] = none
get_tier name (t ∷ tiers) =
    let rest = get_tier name tiers in if eqb t.tier name then some t else rest

unfoldable pub is_zero_unlimited : Ssot → ℕ → LimitField → Bool
is_zero_unlimited ssot value field = if eqb value 0 then ssot.applies_to_fields field else false

-- `MeteringService._is_billable`
abbrev pub non_billable_statuses : List ℕ
non_billable_statuses = 400 ∷ 401 ∷ 403 ∷ 404 ∷ 409 ∷ 412 ∷ 413 ∷ 415 ∷ 429 ∷ []

unfoldable pub is_billable : Ssot → ℕ → Bool
is_billable ssot status =
    if leb 200 status && ltb status 300
    then or_default ssot.billable_success true
    else if eqb status 422
    then or_default ssot.billable_422 true
    else if mem status non_billable_statuses
    then not (or_default (ssot.non_billable status) true)
    else if leb 500 status && ltb status 600
    then not (or_default ssot.non_billable_5xx true)
    else false

-- A number under `usage:{workspace}:{month}`.
pub record Amount : Type 0 where
  pub amount : ℤ
  pub expires_at : ℕ

pub record Keys : Type 0 where
  pub seen : Dict (ℕ × ℕ) ℕ
  pub usage : Dict (ℕ × ℕ) Amount

-- `GET`, where no key is 0.
abbrev pub live_amount : ℕ → Option Amount → ℤ
live_amount now none = pos 0
live_amount now (some a) = if leb a.expires_at now then pos 0 else a.amount

unfoldable pub current_usage : ℕ → ℕ → ℕ → Keys → ℤ
current_usage workspace month now keys = live_amount now (lookup (workspace, month) keys.usage)

-- `MeteringService._get_remaining_dc`
unfoldable pub get_remaining_dc : ℕ → ℕ → ℕ → ℕ → Keys → ℤ
unfolding current_usage
get_remaining_dc workspace month quota now keys =
    max_ℤ (pos 0) (pos quota -ℤ current_usage workspace month now keys)

pub record UsageEvent : Type 0 where
  pub workspace_id : ℕ
  pub run_id : ℕ
  pub dc_amount : ℤ
  pub http_status : ℕ
  pub month : ℕ
  pub at : ℕ

pub record MeteringResult : Type 0 where
  pub is_new : Bool
  pub dc_charged : ℤ
  pub workspace_remaining_dc : ℤ

abbrev pub is_live : ℕ → Option ℕ → Bool
is_live now none = false
is_live now (some expires) = not (leb expires now)

-- INCRBY and EXPIRE.
abbrev pub charge : UsageEvent → Keys → Keys
charge e keys = record keys {
  usage =
      insert (e.workspace_id, e.month)
        (record {
          amount = live_amount e.at (lookup (e.workspace_id, e.month) keys.usage) +ℤ e.dc_amount;
          expires_at = e.at + 90 * 86400;
        })
        keys.usage;
}

-- SET NX EX went through.
abbrev pub mark_seen : Ssot → UsageEvent → Keys → Keys
mark_seen ssot e keys = record keys {
  seen =
      insert (e.workspace_id, e.run_id) (e.at + ssot.idempotency_retention_days * 86400) keys.seen;
}

abbrev pub charge_if : Bool → UsageEvent → Keys → Keys
charge_if true e keys = charge e keys
charge_if false e keys = keys

-- What `record_usage` does to the keys.
unfoldable pub meter_event : Ssot → UsageEvent → Keys → Keys
meter_event ssot e keys =
    if is_live e.at (lookup (e.workspace_id, e.run_id) keys.seen)
    then keys
    else charge_if (is_billable ssot e.http_status) e (mark_seen ssot e keys)

abbrev pub charged : Ssot → UsageEvent → Keys → ℤ
charged ssot e keys =
    if is_live e.at (lookup (e.workspace_id, e.run_id) keys.seen)
    then pos 0
    else if is_billable ssot e.http_status
    then e.dc_amount
    else pos 0

-- `MeteringService.record_usage`
unfoldable pub record_usage : Ssot → UsageEvent → ℕ → Keys → MeteringResult × Keys
record_usage ssot e quota keys = (
  record {
    is_new = not (is_live e.at (lookup (e.workspace_id, e.run_id) keys.seen));
    dc_charged = charged ssot e keys;
    workspace_remaining_dc =
        get_remaining_dc e.workspace_id e.month quota e.at (meter_event ssot e keys);
  },
  meter_event ssot e keys,
)

-- The violated policy of a 429, by its numbers.
pub record Violated : Type 0 where
  pub limit : ℕ
  pub current : ℤ
  pub window_seconds : Option ℕ

-- `EnforcementEngine.check_monthly_dc_quota`
unfoldable pub check_monthly_dc_quota : Ssot → TierLimits → UsageEvent → Keys → Option Violated
check_monthly_dc_quota ssot limits e keys =
    let usage = current_usage e.workspace_id e.month e.at keys in
    if is_zero_unlimited ssot limits.monthly_quota_dc LimitField.monthly_quota_dc
    then none
    else if ltb_ℤ (pos limits.monthly_quota_dc) (usage +ℤ e.dc_amount)
    then some (record { limit = limits.monthly_quota_dc; current = usage; window_seconds = none })
    else none

abbrev pub smaller_of : ℕ → ℕ → ℕ
smaller_of a b = if leb a b then a else b

-- `EnforcementEngine._calculate_grace_overage`
unfoldable pub calculate_grace_overage : Ssot → TierLimits → ℕ
calculate_grace_overage ssot limits =
    if ssot.grace_enabled
    then smaller_of (limits.hard_overage_dc_cap * ssot.max_grace_percent / 100) ssot.max_grace_dc
    else 0

-- `EnforcementEngine.check_hard_overage_cap`
unfoldable pub check_hard_overage_cap : Ssot → TierLimits → UsageEvent → Keys → Option Violated
check_hard_overage_cap ssot limits e keys =
    let usage = current_usage e.workspace_id e.month e.at keys in
    let total_cap = limits.monthly_quota_dc + limits.hard_overage_dc_cap in
    if is_zero_unlimited ssot limits.hard_overage_dc_cap LimitField.hard_overage_dc_cap
    then none
    else if ltb_ℤ (pos (total_cap + calculate_grace_overage ssot limits)) (usage +ℤ e.dc_amount)
    then some (record { limit = total_cap; current = usage; window_seconds = none })
    else none

abbrev pub expire_first : ℕ → ℕ → Counter → Counter
expire_first window now c =
    if eqb c.count 1 then record c { expires_at = some (now + window) } else c

-- The check behind INCR and EXPIRE, with DECR on a refusal. The time to live that the code reads
-- for Retry-After is not used.
abbrev pub by_rpm : TierLimits → Counter → Option Violated × Counter
by_rpm limits c =
    if ltb limits.rate_limit_rpm c.count
    then (
      some (record {
        limit = limits.rate_limit_rpm;
        current = pos (c.count - 1);
        window_seconds = some limits.rate_limit_window_seconds;
      }),
      record c { count = c.count - 1 },
    )
    else (none, c)

abbrev pub put_counter :
    ℕ × ℕ
    → Option Violated × Counter
    → Dict (ℕ × ℕ) Counter
    → Option Violated × Dict (ℕ × ℕ) Counter
put_counter key (v, c) counters = (v, insert key c counters)

-- `EnforcementEngine.check_rpm_limit`, on the counters by workspace and window.
unfoldable pub check_rpm_limit :
    Ssot → TierLimits → ℕ → ℕ → Dict (ℕ × ℕ) Counter → Option Violated × Dict (ℕ × ℕ) Counter
check_rpm_limit ssot limits workspace now counters =
    let key : ℕ × ℕ = (workspace, now / limits.rate_limit_window_seconds) in
    if is_zero_unlimited ssot limits.rate_limit_rpm LimitField.rate_limit_rpm
    then (none, counters)
    else put_counter key
        (by_rpm limits
          (expire_first limits.rate_limit_window_seconds now (incr now (lookup key counters))))
        counters
