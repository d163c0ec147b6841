-- ===== src/Plans/Guards.antt =====
-- What a request must meet to be let through.
use decisionproof.Base.{
  ℕ, ℤ, pos, ◌≤ℤ◌, ltb_ℤ, ◌≡◌, ◌≢◌, refl, sym, ◌∙◌, ap, ◌⊎◌, inl, inr, ◌↔◌, true, false, Option,
  none, some, List, arith, ltb, lookup, Dict, nat_eq, Bool-cases, Option-cases,
}
use decisionproof.Plans.{
  Plan, TenantPlan, get_active_plan, Violation, no_active_plan, pack_type_not_allowed,
  max_cost_too_low, max_cost_exceeded, rate_limit_exceeded, mem, minimum_max_cost_usd_micros,
  exceeds, Counter, count_request, incr, set_window, retry_after, check_rate_limit, Enforced,
  enforced, violated, after_rate, enforce,
}

-- Everything that a request must meet.
pub record IsAllowed (tenant pack_type : ℕ) (cost : ℤ) (now : ℕ) (mappings : List TenantPlan)
    (plans : Dict ℕ Plan) (key : Option Counter) (plan : Plan) : Type 0 where
  pub active : get_active_plan tenant now mappings plans ≡ some plan
  pub pack_allowed : mem pack_type plan.allowed_pack_types ≡ true
  pub not_too_low : pos 5000 ≤ℤ cost
  pub not_too_high : exceeds cost (lookup pack_type plan.max_cost_limits) ≡ false
  pub not_too_many : (check_rate_limit plan.rate_limit_post_per_min now key).0 ≡ none

module _ (tenant pack_type : ℕ) (cost : ℤ) (now : ℕ) (mappings : List TenantPlan)
    (plans : Dict ℕ Plan) (key : Option Counter) where
  abbrev whole : Enforced × Option Counter
  whole = enforce tenant pack_type cost now mappings plans key

  enforce-allowed :
      (plan : Plan)
      → IsAllowed tenant pack_type cost now mappings plans key plan
      → whole ≡ (enforced plan, (check_rate_limit plan.rate_limit_post_per_min now key).1)
  unfolding enforce
  enforce-allowed plan p =
      let low : ltb_ℤ cost minimum_max_cost_usd_micros ≡ false = ground (arith, p.not_too_low) in
      rw (p.active, p.pack_allowed, low, p.not_too_high)
        (through (check_rate_limit plan.rate_limit_post_per_min now key) p.not_too_many)
    where
      through :
          (x : Option Violation × Option Counter)
          → x.0 ≡ none
          → after_rate plan x ≡ (enforced plan, x.1)
      through (none, k) e = refl
      through (some v, k) e = cc

  -- The rate check raises nothing but its own violation.
  rate_limit_only :
      (limit : Option ℕ) (v : Violation) (k : Option Counter)
      → check_rate_limit limit now key ≡ (some v, k)
      → (seconds : ℕ) × (v ≡ rate_limit_exceeded seconds)
  unfolding check_rate_limit
  rate_limit_only none v k e = absurd (no (ap (λ (x : Option Violation × Option Counter). x.0) e))
    where
      no : ◌≡◌ {A = Option Violation} none (some v) → ⊥
      no p = cc
  rate_limit_only (some limit) v k e =
      counted limit (set_window now (incr now key))
        (ap (λ (x : Option Violation × Option Counter). x.0) e)
    where
      counted :
          (limit : ℕ) (c : Counter)
          → (count_request limit now c).0 ≡ some v
          → (seconds : ℕ) × (v ≡ rate_limit_exceeded seconds)
      counted limit c h = elim (Bool-cases (ltb limit c.count)) [
        | inl full ↦ (retry_after now c.expires_at, some_eq (sym (rw full refl) ∙ h))
        | inr room ↦ absurd (none_some (sym (rw room refl) ∙ h))
      ]
        where
          some_eq : {a b : Violation} → ◌≡◌ {A = Option Violation} (some a) (some b) → b ≡ a
          some_eq p = cc

          none_some : ◌≡◌ {A = Option Violation} none (some v) → ⊥
          none_some p = cc

  enforce-inv :
      ((plan : Plan) × IsAllowed tenant pack_type cost now mappings plans key plan)
      ⊎ ((v : Violation) × (k : Option Counter) × (whole ≡ (violated v, k))
          × ((k ≡ key) ⊎ ((seconds : ℕ) × (v ≡ rate_limit_exceeded seconds))))
  unfolding enforce
  enforce-inv = elim (Option-cases (get_active_plan tenant now mappings plans)) [
    | inl missing ↦ inr (no_active_plan, key, rw missing, inl refl)
    | inr (plan, active) ↦ elim (Bool-cases (mem pack_type plan.allowed_pack_types)) [
      | inr foreign ↦ inr (pack_type_not_allowed, key, rw (active, foreign), inl refl)
      | inl allowed ↦ elim (Bool-cases (ltb_ℤ cost minimum_max_cost_usd_micros)) [
        | inl low ↦ inr (max_cost_too_low, key, rw (active, allowed, low), inl refl)
        | inr enough ↦ elim (Bool-cases (exceeds cost (lookup pack_type plan.max_cost_limits))) [
          | inl high ↦ inr (max_cost_exceeded, key, rw (active, allowed, enough, high), inl refl)
          | inr within ↦
              by_rate plan active allowed enough within
                (check_rate_limit plan.rate_limit_post_per_min now key) refl
        ]
      ]
    ]
  ]
    where
      by_rate :
          (plan : Plan)
          → get_active_plan tenant now mappings plans ≡ some plan
          → mem pack_type plan.allowed_pack_types ≡ true
          → ltb_ℤ cost minimum_max_cost_usd_micros ≡ false
          → exceeds cost (lookup pack_type plan.max_cost_limits) ≡ false
          → (x : Option Violation × Option Counter)
          → check_rate_limit plan.rate_limit_post_per_min now key ≡ x
          → ((plan : Plan) × IsAllowed tenant pack_type cost now mappings plans key plan)
            ⊎ ((v : Violation) × (k : Option Counter) × (whole ≡ (violated v, k))
                × ((k ≡ key) ⊎ ((seconds : ℕ) × (v ≡ rate_limit_exceeded seconds))))
      by_rate plan active allowed enough within (none, k) e = inl (
        plan,
        record {
          active = active;
          pack_allowed = allowed;
          not_too_low = ground (arith, enough);
          not_too_high = within;
          not_too_many = ap (λ (x : Option Violation × Option Counter). x.0) e;
        },
      )
      by_rate plan active allowed enough within (some v, k) e = inr (
        v,
        k,
        rw (active, allowed, enough, within, e),
        inr (rate_limit_only plan.rate_limit_post_per_min v k e),
      )

-- A request is let through, under a plan, exactly when that is the tenant's active plan, allows the
-- pack type, has no lower limit than the requested maximum cost, which is at least 5000 micros, and
-- the rate limit has room. A request refused for another reason than the rate limit does not touch
-- the counter.
pub enforce_lem :
    (tenant pack_type : ℕ) (cost : ℤ) (now : ℕ) (mappings : List TenantPlan) (plans : Dict ℕ Plan)
    (key : Option Counter) (plan : Plan)
    → let (result, key') = enforce tenant pack_type cost now mappings plans key in
      ((result ≡ enforced plan) ↔ IsAllowed tenant pack_type cost now mappings plans key plan)
      × ((v : Violation)
          → result ≡ violated v
          → ((seconds : ℕ) → v ≢ rate_limit_exceeded seconds)
          → key' ≡ key)
enforce_lem tenant pack_type cost now mappings plans key plan =
    elim (enforce-inv tenant pack_type cost now mappings plans key) [
      | inl (plan', p) ↦
          let won = enforce-allowed tenant pack_type cost now mappings plans key plan' p in
          (
            (
              λ e. rw (same_plan (sym (ap (λ (x : Enforced × Option Counter). x.0) won) ∙ e)) p,
              λ q.
                  ap (λ (x : Enforced × Option Counter). x.0)
                    (enforce-allowed tenant pack_type cost now mappings plans key plan q),
            ),
            λ v e other. absurd (clash (sym (ap (λ (x : Enforced × Option Counter). x.0) won) ∙ e)),
          )
      | inr (v, k, lost, untouched) ↦ (
        (
          λ e. absurd (clash (sym e ∙ ap (λ (x : Enforced × Option Counter). x.0) lost)),
          λ q. absurd (
              clash (
                sym (
                  ap (λ (x : Enforced × Option Counter). x.0)
                    (enforce-allowed tenant pack_type cost now mappings plans key plan q))
                ∙ ap (λ (x : Enforced × Option Counter). x.0) lost)),
        ),
        λ v' e other. elim untouched [
          | inl same ↦ ap (λ (x : Enforced × Option Counter). x.1) lost ∙ same
          | inr (seconds, rate) ↦ absurd (
              other seconds
                (same_violation (sym e ∙ ap (λ (x : Enforced × Option Counter). x.0) lost) ∙ rate))
        ],
      )
    ]
  where
    same_plan : {a b : Plan} → enforced a ≡ enforced b → b ≡ a
    same_plan e = cc

    clash : {a : Plan} {b : Violation} → enforced a ≡ violated b → ⊥
    clash e = cc

    same_violation : {a b : Violation} → violated a ≡ violated b → a ≡ b
    same_violation e = cc
