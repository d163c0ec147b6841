-- ===== src/Plans.antt =====
-- The checks of POST /runs against the limits of the tenant's subscription
-- (dpp/apps/api/dpp_api/enforce/plan_enforcer.py), and which subscription is active
-- (dpp/apps/api/dpp_api/db/repo_plans.py). The JSON columns are read as the code reads them: a missing
-- `features_json` is no pack type, a missing limit is no limit. A rate counter is one Redis key, as
-- long as it lives; its INCR, EXPIRE, DECR and TTL happen at one instant, in seconds.
pub mod Window
pub mod Guards
mod Tests
use decisionproof.Base.{
  ℕ, suc, ◌+◌, ◌-◌, ℤ, pos, ltb_ℤ, Bool, true, false, not, ◌&&◌, ◌||◌, Option, none, some, List, [],
  ◌∷◌, ltb, leb, eqb, or_default, if◌then◌else◌, Dict, lookup, nat_eq,
}

pub record Plan : Type 0 where
  pub plan_id : ℕ
  pub allowed_pack_types : List ℕ
  pub max_cost_limits : Dict ℕ ℤ
  pub rate_limit_post_per_min : Option ℕ
  pub rate_limit_poll_per_min : Option ℕ

pub record TenantPlan : Type 0 where
  pub tenant_id : ℕ
  pub plan_id : ℕ
  pub is_active : Bool
  pub effective_from : ℕ
  pub effective_to : Option ℕ

abbrev pub is_open : ℕ → Option ℕ → Bool
is_open now none = true
is_open now (some t) = ltb now t

abbrev pub is_effective : ℕ → ℕ → TenantPlan → Bool
is_effective tenant now p =
    eqb p.tenant_id tenant
    && (p.is_active && (leb p.effective_from now && is_open now p.effective_to))

-- `ORDER BY effective_from DESC LIMIT 1`
abbrev pub later : TenantPlan → Option TenantPlan → TenantPlan
later p none = p
later p (some q) = if ltb p.effective_from q.effective_from then q else p

unfoldable pub latest : ℕ → ℕ → List TenantPlan → Option TenantPlan
latest tenant now [] = none
latest tenant now (p ∷ ps) =
    let rest = latest tenant now ps in
    if is_effective tenant now p then some (later p rest) else rest

abbrev pub plan_of : Dict ℕ Plan → Option TenantPlan → Option Plan
plan_of plans none = none
plan_of plans (some p) = lookup p.plan_id plans

-- `TenantPlanRepository.get_active_plan`
unfoldable pub get_active_plan : ℕ → ℕ → List TenantPlan → Dict ℕ Plan → Option Plan
get_active_plan tenant now mappings plans = plan_of plans (latest tenant now mappings)

-- `PlanViolationError`, by its type.
pub data Violation : Type 0 where
  no_active_plan : Violation
  pack_type_not_allowed : Violation
  max_cost_too_low : Violation
  max_cost_exceeded : Violation
  rate_limit_exceeded : (retry_after : ℕ) → Violation

abbrev pub status_code : Violation → ℕ
status_code no_active_plan = 400
status_code pack_type_not_allowed = 400
status_code max_cost_too_low = 400
status_code max_cost_exceeded = 402
status_code (rate_limit_exceeded _) = 429

abbrev pub mem : ℕ → List ℕ → Bool
mem a [] = false
mem a (b ∷ bs) = eqb a b || mem a bs

abbrev pub check_allowed_pack_type : Plan → ℕ → Option Violation
check_allowed_pack_type plan pack_type =
    if mem pack_type plan.allowed_pack_types then none else some pack_type_not_allowed

abbrev pub minimum_max_cost_usd_micros : ℤ
minimum_max_cost_usd_micros = pos 5000

abbrev pub exceeds : ℤ → Option ℤ → Bool
exceeds cost none = false
exceeds cost (some limit) = ltb_ℤ limit cost

abbrev pub check_pack_type_max_cost : Plan → ℕ → ℤ → Option Violation
check_pack_type_max_cost plan pack_type cost =
    if ltb_ℤ cost minimum_max_cost_usd_micros
    then some max_cost_too_low
    else if exceeds cost (lookup pack_type plan.max_cost_limits)
    then some max_cost_exceeded
    else none

-- A key with a count; `none` is no time to live.
pub record Counter : Type 0 where
  pub count : ℕ
  pub expires_at : Option ℕ

abbrev pub has_run_out : ℕ → Option ℕ → Bool
has_run_out now none = false
has_run_out now (some t) = leb t now

-- INCR, on the key as far as it lives.
abbrev pub incr : ℕ → Option Counter → Counter
incr now none = record { count = 1; expires_at = none }
incr now (some c) =
    if has_run_out now c.expires_at
    then record { count = 1; expires_at = none }
    else record c { count = c.count + 1 }

-- "If this is the first request, set TTL".
abbrev pub set_window : ℕ → Counter → Counter
set_window now c = if eqb c.count 1 then record c { expires_at = some (now + 60) } else c

-- `max(1, ttl) if ttl > 0 else 60`; Redis answers -1 for no time to live.
abbrev pub retry_after : ℕ → Option ℕ → ℕ
retry_after now none = 60
retry_after now (some t) = if ltb now t then t - now else 60

-- The check behind INCR and EXPIRE, with DECR on a refusal.
abbrev pub count_request : ℕ → ℕ → Counter → Option Violation × Option Counter
count_request limit now c =
    if ltb limit c.count
    then (
      some (rate_limit_exceeded (retry_after now c.expires_at)),
      some (record c { count = c.count - 1 }),
    )
    else (none, some c)

-- `check_rate_limit_post` and `check_rate_limit_poll`, on the tenant's key.
unfoldable pub check_rate_limit : Option ℕ → ℕ → Option Counter → Option Violation × Option Counter
check_rate_limit none now key = (none, key)
check_rate_limit (some limit) now key = count_request limit now (set_window now (incr now key))

-- A check that raises ends the request.
pub data Enforced : Type 0 where
  enforced : Plan → Enforced
  violated : Violation → Enforced

abbrev pub after_rate : Plan → Option Violation × Option Counter → Enforced × Option Counter
after_rate plan (none, key) = (enforced plan, key)
after_rate plan (some v, key) = (violated v, key)

abbrev pub after_cost : Plan → ℕ → Option Counter → Option Violation → Enforced × Option Counter
after_cost plan now key (some v) = (violated v, key)
after_cost plan now key none =
    after_rate plan (check_rate_limit plan.rate_limit_post_per_min now key)

abbrev pub after_pack :
    Plan → ℕ → ℤ → ℕ → Option Counter → Option Violation → Enforced × Option Counter
after_pack plan pack_type cost now key (some v) = (violated v, key)
after_pack plan pack_type cost now key none =
    after_cost plan now key (check_pack_type_max_cost plan pack_type cost)

abbrev pub after_plan : Option Plan → ℕ → ℤ → ℕ → Option Counter → Enforced × Option Counter
after_plan none pack_type cost now key = (violated no_active_plan, key)
after_plan (some plan) pack_type cost now key =
    after_pack plan pack_type cost now key (check_allowed_pack_type plan pack_type)

-- `PlanEnforcer.enforce`, with the tenant's counter.
unfoldable pub enforce :
    ℕ → ℕ → ℤ → ℕ → List TenantPlan → Dict ℕ Plan → Option Counter → Enforced × Option Counter
enforce tenant pack_type cost now mappings plans key =
    after_plan (get_active_plan tenant now mappings plans) pack_type cost now key
