-- ===== src/Entitlements/Tests.antt =====
-- The order of the examples, granted for 30 days.
use decisionproof.Base.{◌≡◌, some, [], ◌∷◌, arith, lookup, nat_eq, pair_eq}
use decisionproof.Plans.{get_active_plan}
use decisionproof.Entitlements.{EntitlementStatus, grant_entitlement, revoke_entitlement}
use decisionproof.Entitlements.Activates.{grant_activates_plan, revoked_plan_stays}
use decisionproof.Examples.{basic, order, billing}

grant_activates_plan_example :
    get_active_plan 1 2000
      (grant_entitlement 30 11 order 100 billing).tenant_plans
      ((3, basic) ∷ [])
    ≡ some basic
grant_activates_plan_example =
    grant_activates_plan 30 11 order 100 2000 billing ((3, basic) ∷ []) (λ h. omega arith, tt)
      (omega arith) (omega arith)

revoked_plan_stays_example :
    let granted = grant_entitlement 30 11 order 100 billing in
    let revoked = revoke_entitlement 11 order granted in
    (lookup (1, 3) revoked.entitlements
      ≡ some (record {
        status = EntitlementStatus.free;
        order_id = some 11;
        valid_from = 100;
        valid_until = some 2592100;
      }))
    × (get_active_plan 1 2000 revoked.tenant_plans ((3, basic) ∷ []) ≡ some basic)
    × (revoked.redis ≡ granted.redis)
revoked_plan_stays_example =
    revoked_plan_stays 30 11 order 100 2000 billing ((3, basic) ∷ []) (λ h. omega arith, tt)
      (omega arith) (omega arith)
