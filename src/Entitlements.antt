-- ===== src/Entitlements.antt =====
-- What payments buy: the tables `billing_orders`, `billing_events`, `entitlements`, `tenant_plans` and
-- `api_keys` of dpp/apps/api/dpp_api/db/models.py, and the granting and revoking of entitlements
-- (`_grant_entitlement` and `_revoke_entitlement` of routers/webhooks.py). Entitlements are found by
-- tenant and plan. The amount of an order is the number that its text stands for.
pub mod Activates
mod Tests
use decisionproof.Base.{
  ℕ, ◌+◌, ◌*◌, ◌/◌, ◌^◌, ℤ, pos, pos_part, eq_ℤ, Bool, true, false, not, ◌&&◌, Option, none, some,
  List, [], ◌∷◌, eqb, eqb_option, is_some, if◌then◌else◌, Dict, lookup, insert, nat_eq, pair_eq,
}
use decisionproof.Money.{Decimal}
use decisionproof.Budget.{Redis, set_balance, set_initial_balance}
use decisionproof.Plans.{TenantPlan}
use decisionproof.Checkout.{SessionStore, mark_paid_verified, apply_transition}
use decisionproof.Webhooks.{Events, try_acquire_dedup, mark_dedup_done, mark_dedup_failed}

pub data Provider : Type 0 where
  paypal toss : Provider

abbrev pub is_provider : Provider → Provider → Bool
is_provider Provider.paypal Provider.paypal = true
is_provider Provider.toss Provider.toss = true
is_provider _ _ = false

-- The first component of a key that the providers share.
abbrev pub provider_id : Provider → ℕ
provider_id Provider.paypal = 0
provider_id Provider.toss = 1

pub data OrderStatus : Type 0 where
  pending capture_submitted paid_verified paid refunded partial_refunded failed : OrderStatus

pub record Order : Type 0 where
  pub tenant_id : ℕ
  pub provider : Provider
  pub provider_order_id : ℕ
  pub provider_capture_id : Option ℕ
  pub provider_payment_key : Option ℕ
  pub plan_id : ℕ
  pub is_usd : Bool
  pub amount : Decimal
  pub status : OrderStatus
  pub checkout_session_id : Option ℕ

pub data EntitlementStatus : Type 0 where
  free active suspended : EntitlementStatus

pub record Entitlement : Type 0 where
  pub status : EntitlementStatus
  pub order_id : Option ℕ
  pub valid_from : ℕ
  pub valid_until : Option ℕ

pub record ApiKey : Type 0 where
  pub tenant_id : ℕ
  pub is_active : Bool

pub data AuditEvent : Type 0 where
  entitlement_activated entitlement_revoked : (tenant order_id : ℕ) → AuditEvent
  dispute_detected : AuditEvent

pub record Billing : Type 0 where
  pub checkout : SessionStore
  pub orders : Dict ℕ Order
  pub entitlements : Dict (ℕ × ℕ) Entitlement
  pub tenant_plans : List TenantPlan
  pub api_keys : List ApiKey
  pub billing_events : List (ℕ × ℕ)
  pub dedup : Events
  pub audits : List AuditEvent
  pub redis : Redis

-- A query with `.first()`.
unfoldable pub find_order : (Order → Bool) → Dict ℕ Order → Option (ℕ × Order)
find_order test [] = none
find_order test ((id, o) ∷ orders) =
    let rest = find_order test orders in if test o then some (id, o) else rest

abbrev pub has_order_id : Provider → ℕ → Order → Bool
has_order_id p order_id o = is_provider o.provider p && eqb o.provider_order_id order_id

-- `filter_by(…=None)` is IS NULL.
abbrev pub has_capture_id : Option ℕ → Order → Bool
has_capture_id capture_id o =
    is_provider o.provider Provider.paypal && eqb_option o.provider_capture_id capture_id

abbrev pub is_current : ℕ → ℕ → TenantPlan → Bool
is_current tenant plan p = eqb p.tenant_id tenant && (eqb p.plan_id plan && p.is_active)

unfoldable pub has_current : ℕ → ℕ → List TenantPlan → Bool
has_current tenant plan [] = false
has_current tenant plan (p ∷ ps) =
    let rest = has_current tenant plan ps in if is_current tenant plan p then true else rest

-- The validity of the first ACTIVE row of the tenant and plan.
unfoldable pub renew : (tenant plan now until : ℕ) → List TenantPlan → List TenantPlan
renew tenant plan now until [] = []
renew tenant plan now until (p ∷ ps) =
    let rest = renew tenant plan now until ps in
    if is_current tenant plan p
    then record p { effective_from = now; effective_to = some until } ∷ ps
    else p ∷ rest

abbrev pub expire_row : ℕ → ℕ → TenantPlan → TenantPlan
expire_row tenant now p =
    if eqb p.tenant_id tenant && p.is_active
    then record p { is_active = false; effective_to = some now }
    else p

abbrev pub expire_rows : ℕ → ℕ → List TenantPlan → List TenantPlan
expire_rows tenant now [] = []
expire_rows tenant now (p ∷ ps) = expire_row tenant now p ∷ expire_rows tenant now ps

unfoldable pub upsert_plan : (tenant plan now until : ℕ) → List TenantPlan → List TenantPlan
upsert_plan tenant plan now until ps =
    if has_current tenant plan ps
    then renew tenant plan now until ps
    else record {
      tenant_id = tenant;
      plan_id = plan;
      is_active = true;
      effective_from = now;
      effective_to = some until;
    }
      ∷ expire_rows tenant now ps

-- `int(Decimal(amount) * 1_000_000)` of an amount that is not negative.
unfoldable pub order_micros : Decimal → ℤ
order_micros d = pos (pos_part d.coefficient * 1000000 / 10 ^ d.places)

abbrev pub fund : Order → Redis → Redis
fund o r =
    if o.is_usd
    then set_initial_balance o.tenant_id (order_micros o.amount)
        (set_balance o.tenant_id (order_micros o.amount) r)
    else r

unfoldable pub grant_entitlement : (validity_days order_id : ℕ) → Order → ℕ → Billing → Billing
grant_entitlement validity_days order_id o now b =
    let until = now + validity_days * 86400 in
    record b {
      entitlements =
          insert (o.tenant_id, o.plan_id)
            (record {
              status = EntitlementStatus.active;
              order_id = some order_id;
              valid_from = now;
              valid_until = some until;
            })
            b.entitlements;
      tenant_plans = upsert_plan o.tenant_id o.plan_id now until b.tenant_plans;
      redis = fund o b.redis;
      audits = entitlement_activated o.tenant_id order_id ∷ b.audits;
    }

abbrev pub revoke_keys : ℕ → List ApiKey → List ApiKey
revoke_keys tenant [] = []
revoke_keys tenant (k ∷ ks) =
    (if eqb k.tenant_id tenant then record k { is_active = false } else k) ∷ revoke_keys tenant ks

abbrev pub revoke_found : ℕ → Order → Option Entitlement → Billing → Billing
revoke_found order_id o none b = b
revoke_found order_id o (some e) b = record b {
  entitlements =
      insert (o.tenant_id, o.plan_id) (record e { status = EntitlementStatus.free }) b.entitlements;
  api_keys = revoke_keys o.tenant_id b.api_keys;
  audits = entitlement_revoked o.tenant_id order_id ∷ b.audits;
}

unfoldable pub revoke_entitlement : ℕ → Order → Billing → Billing
revoke_entitlement order_id o b =
    revoke_found order_id o (lookup (o.tenant_id, o.plan_id) b.entitlements) b

abbrev pub put_order : ℕ → Order → Billing → Billing
put_order id o b = record b { orders = insert id o b.orders }
