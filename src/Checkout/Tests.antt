-- ===== src/Checkout/Tests.antt =====
-- A session that is paid, and a late capture.
use decisionproof.Base.{◌≡◌, refl, some, [], ◌∷◌, lookup, nat_eq}
use decisionproof.Checkout.{
  SessionStatus, Session, SessionStore, new_session, mark_capture_submitted, mark_order_created,
}
use decisionproof.Checkout.Sessions.{creates, moves, act_all, terminal_forever}
use decisionproof.Checkout.FirstWriter.{HasOneOpen, act_all-HasOneOpen}

abbrev paid : Session
paid = record (new_session 2 1 3 2900 1800 5) { status = SessionStatus.paid_verified }

abbrev paid_store : SessionStore
paid_store = record { sessions = (7, paid) ∷ []; events = [] }

terminal_forever_example :
    lookup 7
      (act_all
        (moves mark_capture_submitted 7 60 ∷ creates 8 2 1 3 2900 30 61 ∷ [])
        paid_store).sessions
    ≡ some paid
terminal_forever_example =
    terminal_forever (moves mark_capture_submitted 7 60 ∷ creates 8 2 1 3 2900 30 61 ∷ []) 7 paid
      paid_store refl refl

abbrev empty_store : SessionStore
empty_store = record { sessions = []; events = [] }

empty-HasOneOpen : HasOneOpen empty_store
empty-HasOneOpen = record { one_open = λ tenant plan id id' s s' e e' h h'. cc }

act_all-HasOneOpen_example :
    HasOneOpen
      (act_all (creates 8 2 1 3 2900 30 61 ∷ moves (mark_order_created 4) 8 70 ∷ []) empty_store)
act_all-HasOneOpen_example =
    act_all-HasOneOpen (creates 8 2 1 3 2900 30 61 ∷ moves (mark_order_created 4) 8 70 ∷ [])
      empty_store empty-HasOneOpen
