-- ===== src/Checkout/FirstWriter.antt =====
-- One open session for a tenant and plan.
use decisionproof.Base.{
  ℕ, ◌≡◌, refl, sym, ◌∙◌, ap, ◌⊎◌, inl, inr, true, false, Option, none, some, List, [], ◌∷◌, arith,
  eqb, eqb_iff, Dict, lookup, insert, lookup-insert, nat_eq, Bool-cases,
}
use decisionproof.Checkout.{
  is_terminal, Session, SessionStore, is_open_for, find_open, Transition, mark_expired,
  mark_order_created, mark_capture_submitted, mark_paid_verified, mark_failed,
}
use decisionproof.Checkout.Sessions.{
  moved, transition-inv, find_open-none, create_session-inv, Step, creates, moves, act, act_all,
}

-- At most one session for a tenant and plan is not terminal.
pub record HasOneOpen (db : SessionStore) : Type 0 where
  pub one_open :
      (tenant plan id id' : ℕ) (s s' : Session)
      → lookup id db.sessions ≡ some s
      → lookup id' db.sessions ≡ some s'
      → is_open_for tenant plan s ≡ true
      → is_open_for tenant plan s' ≡ true
      → id ≡ id'

moved-open :
    (tr : Transition) (now tenant plan : ℕ) (s : Session)
    → is_terminal s.status ≡ false
    → is_open_for tenant plan (moved tr now s) ≡ true
    → is_open_for tenant plan s ≡ true
moved-open mark_expired now tenant plan s going h = ground arith
moved-open (mark_order_created order) now tenant plan s going h = ground arith
moved-open mark_capture_submitted now tenant plan s going h = ground arith
moved-open mark_paid_verified now tenant plan s going h = ground arith
moved-open (mark_failed reason) now tenant plan s going h = ground arith

-- A changed row that is open was open before.
row_after :
    (tr : Transition) (now tenant plan j id : ℕ) (old s : Session) (d : Dict ℕ Session)
    → lookup j d ≡ some old
    → is_terminal old.status ≡ false
    → lookup id (insert j (moved tr now old) d) ≡ some s
    → is_open_for tenant plan s ≡ true
    → (before : Session) × (lookup id d ≡ some before) × (is_open_for tenant plan before ≡ true)
row_after tr now tenant plan j id old s d at going e h = elim (Bool-cases (eqb j id)) [
  | inr there ↦ (s, sym (rw (lookup-insert, there) refl) ∙ e, h)
  | inl here ↦
      let new : moved tr now old ≡ s = some_eq (sym (rw (lookup-insert, here) refl) ∙ e) in
      (
        old,
        ap (λ (k : ℕ). lookup k d) (sym ((eqb_iff j id).0 here)) ∙ at,
        moved-open tr now tenant plan old going (rw new h),
      )
]
  where
    some_eq : {a b : Session} → ◌≡◌ {A = Option Session} (some a) (some b) → a ≡ b
    some_eq p = cc

insert-row :
    (j id : ℕ) (new s : Session) (d : Dict ℕ Session)
    → lookup id (insert j new d) ≡ some s
    → ((j ≡ id) × (new ≡ s)) ⊎ (lookup id d ≡ some s)
insert-row j id new s d e = elim (Bool-cases (eqb j id)) [
  | inl here ↦ inl ((eqb_iff j id).0 here, some_eq (sym (rw (lookup-insert, here) refl) ∙ e))
  | inr there ↦ inr (sym (rw (lookup-insert, there) refl) ∙ e)
]
  where
    some_eq : {a b : Session} → ◌≡◌ {A = Option Session} (some a) (some b) → a ≡ b
    some_eq p = cc

-- A new session for a tenant and plan that has no open one.
module _ (j tenant plan : ℕ) (new : Session) (d : Dict ℕ Session)
    (none_open : find_open (is_open_for tenant plan) d ≡ none)
    (tenant_same : new.tenant_id ≡ tenant) (plan_same : new.plan_id ≡ plan) where
  no_other :
      (t p id : ℕ) (s : Session)
      → lookup id d ≡ some s
      → is_open_for t p s ≡ true
      → is_open_for t p new ≡ true
      → ⊥
  no_other t p id s e h h' =
      let closed = find_open-none (is_open_for tenant plan) d id s none_open e in
      ground (
        arith,
        closed,
        h,
        h',
        tenant_same,
        plan_same,
        eqb_iff s.tenant_id t,
        eqb_iff s.plan_id p,
        eqb_iff new.tenant_id t,
        eqb_iff new.plan_id p,
        eqb_iff s.tenant_id tenant,
        eqb_iff s.plan_id plan,
      )

  create-one :
      (t p id id' : ℕ) (s s' : Session)
      → ((i i' : ℕ) (u u' : Session)
          → lookup i d ≡ some u
          → lookup i' d ≡ some u'
          → is_open_for t p u ≡ true
          → is_open_for t p u' ≡ true
          → i ≡ i')
      → lookup id (insert j new d) ≡ some s
      → lookup id' (insert j new d) ≡ some s'
      → is_open_for t p s ≡ true
      → is_open_for t p s' ≡ true
      → id ≡ id'
  create-one t p id id' s s' before e e' h h' = elim (insert-row j id new s d e) [
    | inl (here, same) ↦ elim (insert-row j id' new s' d e') [
      | inl (here', same') ↦ sym here ∙ here'
      | inr old' ↦ absurd (no_other t p id' s' old' h' (rw same h))
    ]
    | inr old ↦ elim (insert-row j id' new s' d e') [
      | inl (here', same') ↦ absurd (no_other t p id s old h (rw same' h'))
      | inr old' ↦ before id id' s s' old old' h h'
    ]
  ]

act-HasOneOpen : (step : Step) (db : SessionStore) → HasOneOpen db → HasOneOpen (act step db)
act-HasOneOpen (creates j user tenant plan amount ttl now) db one =
    elim (create_session-inv j user tenant plan amount ttl now db) [
      | inr same ↦ rw same one
      | inl (new, fresh, none_open, made, t, p) ↦ record {
        one_open = λ tenant' plan' id id' s s' e e' h h'.
            create-one j tenant plan new db.sessions none_open t p tenant' plan' id id' s s'
              (λ i i' u u'. one.one_open tenant' plan' i i' u u')
              (ap (λ (d : Dict ℕ Session). lookup id d) (sym made) ∙ e)
              (ap (λ (d : Dict ℕ Session). lookup id' d) (sym made) ∙ e') h h';
      }
    ]
act-HasOneOpen (moves tr j now) db one = elim (transition-inv tr j now db) [
  | inr same ↦ record {
    one_open = λ tenant plan id id' s s' e e' h h'.
        one.one_open tenant plan id id' s s'
          (ap (λ (d : Dict ℕ Session). lookup id d) (sym same) ∙ e)
          (ap (λ (d : Dict ℕ Session). lookup id' d) (sym same) ∙ e') h h';
  }
  | inl (old, at, going, made) ↦ record {
    one_open = λ tenant plan id id' s s' e e' h h'.
        let (u, f, g) =
          row_after tr now tenant plan j id old s db.sessions at going
            (ap (λ (d : Dict ℕ Session). lookup id d) (sym made) ∙ e) h in
        let (u', f', g') =
          row_after tr now tenant plan j id' old s' db.sessions at going
            (ap (λ (d : Dict ℕ Session). lookup id' d) (sym made) ∙ e') h' in
        one.one_open tenant plan id id' u u' f f' g g';
  }
]

-- The first writer wins, for good: from a store with at most one open session for each tenant and
-- plan, any steps lead to such a store. No transition reopens a session.
pub act_all-HasOneOpen :
    (steps : List Step) (db : SessionStore) → HasOneOpen db → HasOneOpen (act_all steps db)
act_all-HasOneOpen [] db one = one
act_all-HasOneOpen (step ∷ steps) db one =
    act_all-HasOneOpen steps (act step db) (act-HasOneOpen step db one)
