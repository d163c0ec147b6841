-- ===== src/Checkout/Sessions.antt =====
-- What no sequence of steps can undo.
use decisionproof.Base.{
  ℕ, ◌+◌, ◌*◌, ◌≡◌, refl, sym, ◌∙◌, ap, ◌⊎◌, inl, inr, Bool, true, false, Option, none, some, List,
  [], ◌∷◌, arith, eqb, eqb_iff, Dict, lookup, insert, lookup-insert, nat_eq, Bool-cases,
  Option-cases,
}
use decisionproof.Checkout.{
  SessionStatus, is_terminal, Session, EventType, SessionStore, is_open_for, find_open, new_session,
  create_session, transition_status, log_if, Transition, mark_expired, mark_order_created,
  mark_capture_submitted, mark_paid_verified, mark_failed, apply_transition,
}

-- What a transition writes.
abbrev pub target : Transition → SessionStatus
target mark_expired = SessionStatus.expired
target (mark_order_created _) = SessionStatus.order_created
target mark_capture_submitted = SessionStatus.capture_submitted
target mark_paid_verified = SessionStatus.paid_verified
target (mark_failed _) = SessionStatus.failed

abbrev pub assigns : Transition → Session → Session
assigns (mark_order_created order) s = record s { paypal_order_id = some order }
assigns (mark_failed reason) s = record s { failed_reason = some reason }
assigns mark_expired s = s
assigns mark_capture_submitted s = s
assigns mark_paid_verified s = s

log_if-sessions :
    (id : ℕ) (event : EventType) (x : Bool × SessionStore)
    → (log_if id event x).1.sessions ≡ x.1.sessions
log_if-sessions id event (true, db) = refl
log_if-sessions id event (false, db) = refl

apply_transition-sessions :
    (tr : Transition) (id now : ℕ) (db : SessionStore)
    → (apply_transition tr id now db).1.sessions
      ≡ (transition_status id (target tr) (assigns tr) now db).1.sessions
unfolding apply_transition
apply_transition-sessions mark_expired id now db = log_if-sessions id EventType.cs_expired _
apply_transition-sessions (mark_order_created order) id now db = refl
apply_transition-sessions mark_capture_submitted id now db = refl
apply_transition-sessions mark_paid_verified id now db =
    log_if-sessions id EventType.cs_paid_verified _
apply_transition-sessions (mark_failed reason) id now db = log_if-sessions id EventType.cs_failed _

-- The row that a transition leaves.
abbrev pub moved : Transition → ℕ → Session → Session
moved tr now s = assigns tr (record s { status = target tr; updated_at = now })

pub transition-inv :
    (tr : Transition) (id now : ℕ) (db : SessionStore)
    → ((s : Session) × (lookup id db.sessions ≡ some s)
        × (is_terminal s.status ≡ false)
        × ((apply_transition tr id now db).1.sessions ≡ insert id (moved tr now s) db.sessions))
      ⊎ ((apply_transition tr id now db).1.sessions ≡ db.sessions)
unfolding transition_status
transition-inv tr id now db =
    let same = apply_transition-sessions tr id now db in
    elim (Option-cases (lookup id db.sessions)) [
      | inl missing ↦ inr (same ∙ rw (missing, transition_status) refl)
      | inr (s, e) ↦ elim (Bool-cases (is_terminal s.status)) [
        | inl over ↦ inr (same ∙ rw (e, transition_status) (rw over refl))
        | inr going ↦ inl (s, e, going, same ∙ rw (e, transition_status) (rw going refl))
      ]
    ]

pub find_open-none :
    (test : Session → Bool) (d : Dict ℕ Session) (id : ℕ) (s : Session)
    → find_open test d ≡ none
    → lookup id d ≡ some s
    → test s ≡ false
find_open-none test [] id s h e = cc
find_open-none test ((j, v) ∷ d) id s h e = elim (Bool-cases (test v)) [
  | inl hit ↦ absurd (some_none {x = (j, v)} (sym (rw hit refl) ∙ h))
  | inr miss ↦ elim (Bool-cases (eqb j id)) [
    | inl here ↦ ap test (some_eq (sym e ∙ rw here refl)) ∙ miss
    | inr there ↦ find_open-none test d id s (sym (rw miss refl) ∙ h) (sym (rw there refl) ∙ e)
  ]
]
  where
    some_none : {x : ℕ × Session} → ◌≡◌ {A = Option (ℕ × Session)} (some x) none → ⊥
    some_none p = cc

    some_eq : {a b : Session} → ◌≡◌ {A = Option Session} (some a) (some b) → a ≡ b
    some_eq p = cc

pub create_session-inv :
    (id user tenant plan amount ttl now : ℕ) (db : SessionStore)
    → ((s : Session) × (lookup id db.sessions ≡ none)
        × (find_open (is_open_for tenant plan) db.sessions ≡ none)
        × ((create_session id user tenant plan amount ttl now db).1.sessions
            ≡ insert id s db.sessions)
        × (s.tenant_id ≡ tenant)
        × (s.plan_id ≡ plan))
      ⊎ ((create_session id user tenant plan amount ttl now db).1 ≡ db)
unfolding create_session
create_session-inv id user tenant plan amount ttl now db =
    elim (Option-cases (lookup id db.sessions)) [
      | inr (old, e) ↦ inr (rw e refl)
      | inl fresh ↦ elim (Option-cases (find_open (is_open_for tenant plan) db.sessions)) [
        | inr (row, e) ↦ inr (rw (fresh, e) refl)
        | inl none_open ↦ inl (
          new_session user tenant plan amount (now + ttl * 60) now,
          fresh,
          none_open,
          rw (fresh, none_open) refl,
          refl,
          refl,
        )
      ]
    ]

-- The steps of the API and the webhooks on sessions, in the order of their commits.
pub data Step : Type 0 where
  creates : (id user tenant plan amount ttl now : ℕ) → Step
  moves : Transition → (id now : ℕ) → Step

abbrev pub act : Step → SessionStore → SessionStore
act (creates id user tenant plan amount ttl now) db =
    (create_session id user tenant plan amount ttl now db).1
act (moves tr id now) db = (apply_transition tr id now db).1

abbrev pub act_all : List Step → SessionStore → SessionStore
act_all [] db = db
act_all (step ∷ steps) db = act_all steps (act step db)

act-terminal :
    (step : Step) (id : ℕ) (s : Session) (db : SessionStore)
    → lookup id db.sessions ≡ some s
    → is_terminal s.status ≡ true
    → lookup id (act step db).sessions ≡ some s
act-terminal (creates j user tenant plan amount ttl now) id s db e over =
    elim (create_session-inv j user tenant plan amount ttl now db) [
      | inr same ↦ ap (λ (u : SessionStore). lookup id u.sessions) same ∙ e
      | inl (new, fresh, _, made, _, _) ↦
          ap (λ (d : Dict ℕ Session). lookup id d) made
          ∙ ground (arith, e, fresh, lookup-insert j id new db.sessions)
    ]
act-terminal (moves tr j now) id s db e over = elim (transition-inv tr j now db) [
  | inr same ↦ ap (λ (d : Dict ℕ Session). lookup id d) same ∙ e
  | inl (old, at, going, made) ↦
      ap (λ (d : Dict ℕ Session). lookup id d) made ∙ elim (Bool-cases (eqb j id)) [
        | inl here ↦ absurd (same_row old at going ((eqb_iff j id).0 here))
        | inr there ↦ rw (lookup-insert, there) e
      ]
]
  where
    some_eq : {a b : Session} → ◌≡◌ {A = Option Session} (some a) (some b) → a ≡ b
    some_eq p = cc

    clash : true ≡ false → ⊥
    clash p = cc

    same_row :
        (old : Session)
        → lookup j db.sessions ≡ some old
        → is_terminal old.status ≡ false
        → j ≡ id
        → ⊥
    same_row old at going p = clash (
        sym over
        ∙ ap (λ (x : Session). is_terminal x.status)
            (some_eq (sym e ∙ ap (λ (k : ℕ). lookup k db.sessions) (sym p) ∙ at))
        ∙ going)

-- A terminal session is never changed again. Whatever steps follow, creations of sessions and
-- transitions of any session in any order, the row of a session that is PAID_VERIFIED, CANCELED,
-- EXPIRED or FAILED stays exactly as it is: a late capture does not take back a verified payment.
pub terminal_forever :
    (steps : List Step) (id : ℕ) (s : Session) (db : SessionStore)
    → lookup id db.sessions ≡ some s
    → is_terminal s.status ≡ true
    → lookup id (act_all steps db).sessions ≡ some s
terminal_forever [] id s db e over = e
terminal_forever (step ∷ steps) id s db e over =
    terminal_forever steps id s (act step db) (act-terminal step id s db e over) over
