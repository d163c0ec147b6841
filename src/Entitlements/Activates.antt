-- ===== src/Entitlements/Activates.antt =====
-- A grant and the plan that it makes active.
use decisionproof.Base.{
  ℕ, ◌+◌, ◌*◌, ◌≤◌, ◌<◌, ◌≡◌, refl, inl, inr, true, false, ◌&&◌, Option, none, some, List, [], ◌∷◌,
  arith, ltb, eqb, eqb_iff, Dict, lookup, lookup-insert_self, nat_eq, pair_eq, Bool-cases,
  Option-cases,
}
use decisionproof.Plans.{Plan, TenantPlan, is_effective, latest, get_active_plan}
use decisionproof.Entitlements.{
  Order, EntitlementStatus, Entitlement, Billing, revoke_entitlement, is_current, has_current,
  renew, expire_rows, upsert_plan, grant_entitlement,
}

-- No ACTIVE row of the tenant has begun at `now` or later.
abbrev pub AllOlder : ℕ → ℕ → List TenantPlan → Type 0
AllOlder tenant now [] = Unit
AllOlder tenant now (p ∷ ps) =
    (eqb p.tenant_id tenant && p.is_active ≡ true → p.effective_from < now) × AllOlder tenant now ps

module _ (tenant plan now until at : ℕ) (from : now ≤ at) (to : at < until) where
  -- The row that decides.
  record IsLatest (rows : List TenantPlan) : Type 0 where
    row : TenantPlan
    chosen : latest tenant at rows ≡ some row
    bought : row.plan_id ≡ plan
    begun : row.effective_from ≡ now

  latest-expire_rows : (ps : List TenantPlan) → latest tenant at (expire_rows tenant now ps) ≡ none
  unfolding latest
  latest-expire_rows [] = refl
  latest-expire_rows (p ∷ ps) = ground (arith, latest-expire_rows ps)

  latest-AllOlder :
      (ps : List TenantPlan) (q : TenantPlan)
      → AllOlder tenant now ps
      → latest tenant at ps ≡ some q
      → q.effective_from < now
  unfolding latest
  latest-AllOlder [] q h e = absurd (none_some e)
    where
      none_some : {x : TenantPlan} → ◌≡◌ {A = Option TenantPlan} none (some x) → ⊥
      none_some p = cc
  latest-AllOlder (p ∷ ps) q h e = elim (Option-cases (latest tenant at ps)) [
    | inl f ↦ ground (arith, e, f, h.0)
    | inr (r, f) ↦ ground (arith, e, f, h.0, latest-AllOlder ps r h.1 f)
  ]

  renew-IsLatest :
      (ps : List TenantPlan)
      → AllOlder tenant now ps
      → has_current tenant plan ps ≡ true
      → IsLatest (renew tenant plan now until ps)
  unfolding latest renew has_current
  renew-IsLatest [] h e = absurd (clash e)
    where
      clash : false ≡ true → ⊥
      clash p = cc
  renew-IsLatest (p ∷ ps) h e = elim (Bool-cases (is_current tenant plan p)) [
    | inl here ↦
        let row : TenantPlan = record p { effective_from = now; effective_to = some until } in
        let effective : is_effective tenant at row ≡ true = ground (arith, here) in
        let same : p.plan_id ≡ plan = ground (arith, here, eqb_iff p.plan_id plan) in
        rw here (elim (Option-cases (latest tenant at ps)) [
          | inl f ↦ record {
            row = row;
            chosen = rw (effective, f) refl;
            bought = same;
            begun = refl;
          }
          | inr (r, f) ↦
              let old : ltb now r.effective_from ≡ false =
                ground (arith, latest-AllOlder ps r h.1 f) in
              record {
                row = row;
                chosen = rw (effective, f) (rw old refl);
                bought = same;
                begun = refl;
              }
        ])
    | inr there ↦
        let s = renew-IsLatest ps h.1 (rw there at e) in
        rw there (elim (Bool-cases (is_effective tenant at p)) [
          | inr idle ↦ record {
            row = s.row;
            chosen = rw idle s.chosen;
            bought = s.bought;
            begun = s.begun;
          }
          | inl live ↦
              let old : ltb p.effective_from s.row.effective_from ≡ true =
                ground (arith, live, h.0, s.begun) in
              record {
                row = s.row;
                chosen = rw (live, s.chosen) (rw old refl);
                bought = s.bought;
                begun = s.begun;
              }
        ])
  ]

  upsert_plan-IsLatest :
      (ps : List TenantPlan)
      → AllOlder tenant now ps
      → IsLatest (upsert_plan tenant plan now until ps)
  unfolding upsert_plan latest
  upsert_plan-IsLatest ps h = elim (Bool-cases (has_current tenant plan ps)) [
    | inl current ↦ rw current (renew-IsLatest ps h current)
    | inr missing ↦ rw missing (first ps)
  ]
    where
      new_row : TenantPlan
      new_row = record {
        tenant_id = tenant;
        plan_id = plan;
        is_active = true;
        effective_from = now;
        effective_to = some until;
      }

      first : (ps : List TenantPlan) → IsLatest (new_row ∷ expire_rows tenant now ps)
      first ps =
          let effective : is_effective tenant at new_row ≡ true =
            ground (arith, eqb_iff tenant tenant) in
          record {
            row = new_row;
            chosen = rw (effective, latest-expire_rows ps) refl;
            bought = refl;
            begun = refl;
          }

-- A grant makes the bought plan the active one. If no ACTIVE row of the tenant began at the instant of
-- the grant or later, then from that instant until the validity ends, the plan enforcer finds
-- exactly the plan of the order for the tenant, whatever plans it had before: a renewal, a change and
-- a first purchase alike.
pub grant_activates_plan :
    (days order_id : ℕ) (o : Order) (now at : ℕ) (b : Billing) (plans : Dict ℕ Plan)
    → AllOlder o.tenant_id now b.tenant_plans
    → now ≤ at
    → at < now + days * 86400
    → get_active_plan o.tenant_id at (grant_entitlement days order_id o now b).tenant_plans plans
      ≡ lookup o.plan_id plans
unfolding get_active_plan grant_entitlement
grant_activates_plan days order_id o now at b plans h from to =
    let s =
      upsert_plan-IsLatest o.tenant_id o.plan_id now (now + days * 86400) at from to b.tenant_plans
        h in
    rw s.chosen (rw s.bought refl)

granted-at :
    (days order_id : ℕ) (o : Order) (now : ℕ) (b : Billing)
    → lookup (o.tenant_id, o.plan_id) (grant_entitlement days order_id o now b).entitlements
      ≡ some (record {
        status = EntitlementStatus.active;
        order_id = some order_id;
        valid_from = now;
        valid_until = some (now + days * 86400);
      })
unfolding grant_entitlement
granted-at days order_id o now b =
    lookup-insert_self {K = ℕ × ℕ} (o.tenant_id, o.plan_id) _ b.entitlements

-- A refund does not end the plan. After a grant and then the revocation for the same order, the
-- entitlement is FREE, but the plan enforcer finds the plan of the order as before, and the balance in
-- Redis is the one that the grant has set.
pub revoked_plan_stays :
    (days order_id : ℕ) (o : Order) (now at : ℕ) (b : Billing) (plans : Dict ℕ Plan)
    → AllOlder o.tenant_id now b.tenant_plans
    → now ≤ at
    → at < now + days * 86400
    → let granted = grant_entitlement days order_id o now b in
      let revoked = revoke_entitlement order_id o granted in
      (lookup (o.tenant_id, o.plan_id) revoked.entitlements
        ≡ some (record {
          status = EntitlementStatus.free;
          order_id = some order_id;
          valid_from = now;
          valid_until = some (now + days * 86400);
        }))
      × (get_active_plan o.tenant_id at revoked.tenant_plans plans ≡ lookup o.plan_id plans)
      × (revoked.redis ≡ granted.redis)
unfolding revoke_entitlement
revoked_plan_stays days order_id o now at b plans h from to =
    let e : Entitlement = record {
      status = EntitlementStatus.active;
      order_id = some order_id;
      valid_from = now;
      valid_until = some (now + days * 86400);
    } in
    let key : ℕ × ℕ = (o.tenant_id, o.plan_id) in
    let granted = grant_entitlement days order_id o now b in
    let there : lookup key granted.entitlements ≡ some e = granted-at days order_id o now b in
    rw there (
      lookup-insert_self {K = ℕ × ℕ} key (record e { status = EntitlementStatus.free })
          granted.entitlements,
      grant_activates_plan days order_id o now at b plans h from to,
      refl,
    )
