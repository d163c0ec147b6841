-- ===== src/Payments/Races.antt =====
-- The webhook between the two steps of a capture.
use mathlib.Core.Path.{subst}
use decisionproof.Base.{
  ℕ, ◌≡◌, refl, sym, ap, ◌∙◌, Bool, true, false, Option, none, some, [], ◌∷◌, arith, eqb_iff, Dict,
  lookup, insert, lookup-insert_self, Distinct, nat_eq,
}
use decisionproof.Checkout.{
  SessionStatus, is_terminal, Session, SessionStore, mark_paid_verified, mark_capture_submitted,
  transition_status, apply_transition,
}
use decisionproof.Entitlements.{
  Provider, OrderStatus, Order, Billing, find_order, has_order_id, put_order, grant_entitlement,
}
use decisionproof.Payments.{
  OrderDetails, completed, capture_completed, verified_order, verify_session, complete_order,
  process_paypal_event,
}
use decisionproof.Payments.Router.{captured, is_of_session, finish_capture}

-- An order that is written again, and still meets the test, is still found.
find_order-again :
    (test : Order → Bool) (id : ℕ) (old o : Order) (orders : Dict ℕ Order)
    → Distinct orders
    → find_order test orders ≡ some (id, old)
    → test o ≡ true
    → find_order test (insert id o orders) ≡ some (id, o)
unfolding find_order
find_order-again test id old o [] d e hit = absurd (none_some e)
  where
    none_some : {x : ℕ × Order} → ◌≡◌ {A = Option (ℕ × Order)} none (some x) → ⊥
    none_some p = cc
find_order-again test id old o ((j, u) ∷ orders) d e hit =
    ground (arith, eqb_iff j id, find_order-again test id old o orders d.1)

-- A session that is not over becomes PAID_VERIFIED.
verified_session :
    (id now : ℕ) (s : Session) (c : SessionStore)
    → lookup id c.sessions ≡ some s
    → is_terminal s.status ≡ false
    → lookup id (apply_transition mark_paid_verified id now c).1.sessions
      ≡ some (record s { status = SessionStatus.paid_verified; updated_at = now })
unfolding apply_transition
verified_session id now s c found live =
    rw (found, live, transition_status)
      (lookup-insert_self id (record s { status = SessionStatus.paid_verified; updated_at = now })
        c.sessions)

-- A session that is over stays as it is.
kept_session :
    (id now : ℕ) (s : Session) (c : SessionStore)
    → lookup id c.sessions ≡ some s
    → is_terminal s.status ≡ true
    → (apply_transition mark_capture_submitted id now c).1 ≡ c
unfolding apply_transition
kept_session id now s c found over = rw (found, over, transition_status) refl

verify_session-orders :
    (session_id : Option ℕ) (now : ℕ) (b : Billing)
    → (verify_session session_id now b).orders ≡ b.orders
verify_session-orders none now b = refl
verify_session-orders (some id) now b = refl

-- The order of a session, which waits for its capture.
pub record IsAwaited (session_id order_id id : ℕ) (o : Order) (s : Session) (b : Billing)
    : Type 0 where
  pub distinct : Distinct b.orders
  pub by_order : find_order (has_order_id Provider.paypal order_id) b.orders ≡ some (id, o)
  pub by_session : find_order (is_of_session session_id) b.orders ≡ some (id, o)
  pub linked : o.checkout_session_id ≡ some session_id
  pub there : lookup session_id b.checkout.sessions ≡ some s
  pub live : is_terminal s.status ≡ false

-- The session is paid for and so is the entitlement, but the order says that it waits for the webhook.
pub record IsDowngraded (session_id id : ℕ) (b1 b2 : Billing) : Type 0 where
  pub before : Order
  pub order : Order
  pub session : Session
  pub was_at : lookup id b1.orders ≡ some before
  pub was : before.status ≡ OrderStatus.paid_verified
  pub at : lookup id b2.orders ≡ some order
  pub downgraded : order.status ≡ OrderStatus.capture_submitted
  pub session_at : lookup session_id b2.checkout.sessions ≡ some session
  pub session_kept : session.status ≡ SessionStatus.paid_verified
  pub entitlements_kept : b2.entitlements ≡ b1.entitlements

downgraded :
    (now' session_id id capture_id : ℕ) (o : Order) (s : Session) (b1 : Billing)
    → find_order (is_of_session session_id) b1.orders ≡ some (id, o)
    → lookup id b1.orders ≡ some o
    → o.status ≡ OrderStatus.paid_verified
    → lookup session_id b1.checkout.sessions ≡ some s
    → s.status ≡ SessionStatus.paid_verified
    → IsDowngraded session_id id b1
        (finish_capture session_id (captured (some capture_id)) now' b1).1
unfolding finish_capture
downgraded now' session_id id capture_id o s b1 found at was there paid =
    let o2 : Order = record o {
      status = OrderStatus.capture_submitted;
      provider_capture_id = some capture_id;
    } in
    let kept = kept_session session_id now' s b1.checkout there (ap is_terminal paid) in
    rw (found, kept)
      (record {
        before = o;
        order = o2;
        session = s;
        was_at = at;
        was = was;
        at = lookup-insert_self id o2 b1.orders;
        downgraded = refl;
        session_at = there;
        session_kept = paid;
        entitlements_kept = refl;
      })

after_webhook :
    (days now now' session_id order_id id capture_id : ℕ) (first : Option ℕ) (o : Order)
    (s : Session) (b : Billing)
    → IsAwaited session_id order_id id o s b
    → let b1 = complete_order days first now (some (id, o)) b in
      IsDowngraded session_id id b1
        (finish_capture session_id (captured (some capture_id)) now' b1).1
unfolding grant_entitlement
after_webhook days now now' session_id order_id id capture_id first o s b p =
    let o1 = verified_order first o in
    let placed = put_order id o1 b in
    let b1 = complete_order days first now (some (id, o)) b in
    let s1 : Session = record s { status = SessionStatus.paid_verified; updated_at = now } in
    let orders : b1.orders ≡ insert id o1 b.orders =
      verify_session-orders o.checkout_session_id now placed in
    let again : find_order (is_of_session session_id) b1.orders ≡ some (id, o1) =
      ap (find_order (is_of_session session_id)) orders
      ∙ find_order-again (is_of_session session_id) id o o1 b.orders p.distinct p.by_session
          (rw p.linked ((eqb_iff session_id session_id).1 refl)) in
    let verified : lookup session_id b1.checkout.sessions ≡ some s1 =
      ap (λ (x : Option ℕ). lookup session_id (verify_session x now placed).checkout.sessions)
        p.linked
      ∙ verified_session session_id now s b.checkout p.there p.live in
    downgraded now' session_id id capture_id o1 s1 b1 again
      (ap (lookup id) orders ∙ lookup-insert_self id o1 b.orders) refl verified refl

-- A capture that returns late takes the payment's mark away. Let PayPal be called to capture an order,
-- and let the webhook for the completed capture come before the call's answer is handled. The webhook
-- makes order and session PAID_VERIFIED; then the answer, with its capture id, sets the order back to
-- CAPTURE_SUBMITTED, while the session, whose update is guarded, keeps its status.
pub late_capture_downgrades :
    (days now now' session_id order_id id capture_id : ℕ) (first : Option ℕ) (o : Order)
    (s : Session) (api : ℕ → OrderDetails) (b b1 : Billing)
    → IsAwaited session_id order_id id o s b
    → api order_id ≡ completed
    → process_paypal_event days (capture_completed first (some order_id)) api now b ≡ some b1
    → IsDowngraded session_id id b1
        (finish_capture session_id (captured (some capture_id)) now' b1).1
unfolding process_paypal_event
late_capture_downgrades days now now' session_id order_id id capture_id first o s api b b1 p paid
      e =
    let same : complete_order days first now (some (id, o)) b ≡ b1 =
      some_same (sym (rw (paid, p.by_order) refl) ∙ e) in
    subst
      (λ (x : Billing).
        IsDowngraded session_id id x
          (finish_capture session_id (captured (some capture_id)) now' x).1)
      same (after_webhook days now now' session_id order_id id capture_id first o s b p)
  where
    some_same : {x y : Billing} → ◌≡◌ {A = Option Billing} (some x) (some y) → x ≡ y
    some_same h = cc
