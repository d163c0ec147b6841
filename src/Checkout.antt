-- ===== src/Checkout.antt =====
-- Checkout sessions (dpp/apps/api/dpp_api/db/repo_checkout.py, and `CheckoutSession` of db/models.py).
-- The partial unique index `uq_cs_tenant_plan_active` of the database admits one session of a tenant
-- and plan in a status that is not terminal. A method works on the row of the session that it is given,
-- by its id. The UUIDs and the nonce of a session, which are only handed on, are left out, and so is
-- the event log but for its entries' kinds.
pub mod Sessions
pub mod FirstWriter
mod Tests
use Prim.Native.String.{String}
use decisionproof.Base.{
  ℕ, ◌+◌, ◌*◌, Bool, true, false, not, ◌&&◌, Option, none, some, List, [], ◌∷◌, ltb, eqb,
  if◌then◌else◌, Dict, lookup, insert, nat_eq, is_some,
}

-- The statuses of the session's state machine.
pub data SessionStatus : Type 0 where
  created order_created approved capture_submitted paid_verified canceled expired failed :
      SessionStatus

-- CHECKOUT_SESSION_TERMINAL_STATUSES
abbrev pub is_terminal : SessionStatus → Bool
is_terminal SessionStatus.paid_verified = true
is_terminal SessionStatus.canceled = true
is_terminal SessionStatus.expired = true
is_terminal SessionStatus.failed = true
is_terminal _ = false

pub record Session : Type 0 where
  pub user_id : ℕ
  pub tenant_id : ℕ
  pub plan_id : ℕ
  pub amount_usd_cents : ℕ
  pub status : SessionStatus
  pub paypal_order_id : Option ℕ
  pub expires_at : ℕ
  pub failed_reason : Option String
  pub updated_at : ℕ

-- `event_type` of an entry, with the session that it is for.
pub data EventType : Type 0 where
  cs_created cs_expired cs_paid_verified cs_failed : EventType

pub record SessionStore : Type 0 where
  pub sessions : Dict ℕ Session
  pub events : List (ℕ × EventType)

abbrev pub add_event : ℕ → EventType → SessionStore → SessionStore
add_event id event db = record db { events = (id, event) ∷ db.events }

-- The row that the unique index would run into.
abbrev pub is_open_for : ℕ → ℕ → Session → Bool
is_open_for tenant plan s =
    eqb s.tenant_id tenant && (eqb s.plan_id plan && not (is_terminal s.status))

abbrev pub find_open : (Session → Bool) → Dict ℕ Session → Option (ℕ × Session)
find_open test [] = none
find_open test ((id, s) ∷ d) = if test s then some (id, s) else find_open test d

unfoldable pub get_active_session_for_tenant_plan :
    ℕ → ℕ → ℕ → Dict ℕ Session → Option (ℕ × Session)
get_active_session_for_tenant_plan tenant plan now =
    find_open (λ s. is_open_for tenant plan s && ltb now s.expires_at)

-- The result of `create_session`: a session and whether it is new, or the `IntegrityError`.
pub data CreatedSession : Type 0 where
  session_for : ℕ → Bool → CreatedSession
  integrity_error : CreatedSession

abbrev pub or_existing : Option (ℕ × Session) → CreatedSession
or_existing none = integrity_error
or_existing (some (id, _)) = session_for id false

abbrev pub new_session : (user tenant plan amount expires_at now : ℕ) → Session
new_session user tenant plan amount expires_at now = record {
  user_id = user;
  tenant_id = tenant;
  plan_id = plan;
  amount_usd_cents = amount;
  status = SessionStatus.created;
  paypal_order_id = none;
  expires_at = expires_at;
  failed_reason = none;
  updated_at = now;
}

-- The insert fails on the primary key or on the index; then the existing session is looked up.
unfoldable pub create_session :
    (id user tenant plan amount ttl_minutes now : ℕ) → SessionStore → CreatedSession × SessionStore
create_session id user tenant plan amount ttl_minutes now db =
    if is_some (lookup id db.sessions)
    then (or_existing (get_active_session_for_tenant_plan tenant plan now db.sessions), db)
    else if is_some (find_open (is_open_for tenant plan) db.sessions)
    then (or_existing (get_active_session_for_tenant_plan tenant plan now db.sessions), db)
    else (
      session_for id true,
      add_event id EventType.cs_created (record db {
        sessions =
            insert id (new_session user tenant plan amount (now + ttl_minutes * 60) now)
              db.sessions;
      }),
    )

-- `transition_status`, by what the caller assigns beside the status. `extra_updates` come last.
unfoldable pub transition_status :
    ℕ → SessionStatus → (Session → Session) → ℕ → SessionStore → Bool × SessionStore
transition_status id status extra now db = elim (lookup id db.sessions) [
  | none ↦ (false, db)
  | some s ↦ if is_terminal s.status then (false, db) else (
    true,
    record db {
      sessions = insert id (extra (record s { status = status; updated_at = now })) db.sessions;
    },
  )
]

abbrev pub log_if : ℕ → EventType → Bool × SessionStore → Bool × SessionStore
log_if id event (true, db) = (true, add_event id event db)
log_if id event (false, db) = (false, db)

-- The transitions, by what they are for.
pub data Transition : Type 0 where
  mark_expired : Transition
  mark_order_created : ℕ → Transition
  mark_capture_submitted : Transition
  mark_paid_verified : Transition
  mark_failed : String → Transition

unfoldable pub apply_transition : Transition → ℕ → ℕ → SessionStore → Bool × SessionStore
unfolding transition_status
apply_transition mark_expired id now db =
    log_if id EventType.cs_expired (transition_status id SessionStatus.expired (λ s. s) now db)
apply_transition (mark_order_created order) id now db =
    transition_status id SessionStatus.order_created
      (λ s. record s { paypal_order_id = some order }) now db
apply_transition mark_capture_submitted id now db =
    transition_status id SessionStatus.capture_submitted (λ s. s) now db
apply_transition mark_paid_verified id now db =
    log_if id EventType.cs_paid_verified
      (transition_status id SessionStatus.paid_verified (λ s. s) now db)
apply_transition (mark_failed reason) id now db = log_if id EventType.cs_failed (
    transition_status id SessionStatus.failed (λ s. record s { failed_reason = some reason }) now
      db)
