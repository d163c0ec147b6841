-- ===== src/Payments/Proof.antt =====
-- What an entitlement needs to become active.
use decisionproof.Base.{
  ℕ, ◌+◌, ◌*◌, ◌∷◌, insert, ◌≡◌, refl, sym, ap, ◌∙◌, ◌⊎◌, inl, inr, Bool, true, false, not, ◌&&◌,
  Option, none, some, eqb_pair, eqb_pair_iff, if◌then◌else◌, Dict, lookup, lookup-insert, pair_eq,
  Bool-cases,
}
use decisionproof.Webhooks.{Events, try_acquire_dedup}
use decisionproof.Entitlements.{
  dispute_detected, Provider, provider_id, OrderStatus, Order, EntitlementStatus, Entitlement,
  Billing, find_order, has_order_id, has_capture_id, grant_entitlement, revoke_found,
  revoke_entitlement, put_order,
}
use decisionproof.Payments.{
  OrderDetails, completed, not_completed, api_error, PaypalEvent, capture_completed,
  capture_refunded, capture_denied, dispute, other_event, verify_session, verified_order,
  complete_order, handle_completed, refund_order, fail_order, process_paypal_event, HookReply,
  mem_pair, add_billing_event, finish, process_event, if_acquired, deduplicated, Verification,
  success, not_success, misconfigured, upstream_failed, PaypalDelivery, if_verified, paypal_webhook,
}

abbrev is_active_status : EntitlementStatus → Bool
is_active_status EntitlementStatus.active = true
is_active_status _ = false

abbrev is_active_in : Option Entitlement → Bool
is_active_in none = false
is_active_in (some e) = is_active_status e.status

-- The entitlement of a tenant to a plan is ACTIVE.
abbrev pub is_active_at : ℕ × ℕ → Dict (ℕ × ℕ) Entitlement → Bool
is_active_at key entitlements = is_active_in (lookup key entitlements)

-- PayPal says that the order is paid for, and the order is for this tenant and plan.
pub record IsPaid (event : PaypalEvent) (api : ℕ → OrderDetails) (orders : Dict ℕ Order)
    (key : ℕ × ℕ) : Type 0 where
  pub capture_id : Option ℕ
  pub order_id : ℕ
  pub asked : event ≡ capture_completed capture_id (some order_id)
  pub paid : api order_id ≡ completed
  pub id : ℕ
  pub order : Order
  pub found : find_order (has_order_id Provider.paypal order_id) orders ≡ some (id, order)
  pub bought : (order.tenant_id, order.plan_id) ≡ key

-- Active before, or paid for.
abbrev Explained :
    PaypalEvent → (ℕ → OrderDetails) → Billing → ℕ × ℕ → Dict (ℕ × ℕ) Entitlement → Type 0
Explained event api b key entitlements' =
    is_active_at key entitlements' ≡ true
    → (is_active_at key b.entitlements ≡ true) ⊎ IsPaid event api b.orders key

-- The handler's result is what it says.
move :
    (event : PaypalEvent) (api : ℕ → OrderDetails) (b x b' : Billing) (key : ℕ × ℕ)
    → ◌≡◌ {A = Option Billing} (some x) (some b')
    → Explained event api b key x.entitlements
    → Explained event api b key b'.entitlements
move event api b x b' key e h active =
    let same : x ≡ b' = cc in
    h (ap (λ (y : Billing). is_active_at key y.entitlements) same ∙ active)

active-insert_other :
    (key k : ℕ × ℕ) (e : Entitlement) (d : Dict (ℕ × ℕ) Entitlement)
    → eqb_pair k key ≡ false
    → is_active_at key (insert k e d) ≡ is_active_at key d
active-insert_other key k e d there = ap is_active_in (lookup-insert k key e d ∙ rw there refl)

verify_session-entitlements :
    (session_id : Option ℕ) (now : ℕ) (b : Billing)
    → (verify_session session_id now b).entitlements ≡ b.entitlements
verify_session-entitlements none now b = refl
verify_session-entitlements (some id) now b = refl

refund-Explained :
    (event : PaypalEvent) (api : ℕ → OrderDetails) (status : OrderStatus)
    (found : Option (ℕ × Order)) (b : Billing) (key : ℕ × ℕ)
    → Explained event api b key (refund_order status found b).entitlements
unfolding revoke_entitlement
refund-Explained event api status none b key h = inl h
refund-Explained event api status (some (id, o)) b key h =
    by_row (lookup (o.tenant_id, o.plan_id) b.entitlements) h
  where
    by_row :
        (e : Option Entitlement)
        → is_active_at key
            (revoke_found id
              (record o { status = status })
              e
              (put_order id (record o { status = status }) b)).entitlements
          ≡ true
        → (is_active_at key b.entitlements ≡ true) ⊎ IsPaid event api b.orders key
    by_row none h = inl h
    by_row (some e) h = elim (Bool-cases (eqb_pair (o.tenant_id, o.plan_id) key)) [
      | inl here ↦ absurd (
          clash (
            rw
              (
                lookup-insert (o.tenant_id, o.plan_id) key
                    (record e { status = EntitlementStatus.free }) b.entitlements,
                here,
              )
              at h))
      | inr there ↦ inl (
          rw
            (
              lookup-insert (o.tenant_id, o.plan_id) key
                  (record e { status = EntitlementStatus.free }) b.entitlements,
              there,
            )
            at h)
    ]
      where
        clash : false ≡ true → ⊥
        clash p = cc

module _ (days : ℕ) (event : PaypalEvent) (api : ℕ → OrderDetails) (now : ℕ) (b : Billing)
    (key : ℕ × ℕ) where
  completed-Explained :
      (capture_id : Option ℕ) (order_id : ℕ)
      → event ≡ capture_completed capture_id (some order_id)
      → api order_id ≡ completed
      → (x : Option (ℕ × Order)) → find_order (has_order_id Provider.paypal order_id) b.orders ≡ x
      → Explained event api b key (complete_order days capture_id now x b).entitlements
  unfolding grant_entitlement
  completed-Explained capture_id order_id asked paid none e h = inl h
  completed-Explained capture_id order_id asked paid (some (id, o)) e h =
      let placed = put_order id (verified_order capture_id o) b in
      elim (Bool-cases (eqb_pair (o.tenant_id, o.plan_id) key)) [
        | inl here ↦ inr (record {
          capture_id = capture_id;
          order_id = order_id;
          asked = asked;
          paid = paid;
          id = id;
          order = o;
          found = e;
          bought = (eqb_pair_iff (o.tenant_id, o.plan_id) key).0 here;
        })
        | inr there ↦ inl (
            sym (
              active-insert_other key (o.tenant_id, o.plan_id)
                (record {
                  status = EntitlementStatus.active;
                  order_id = some id;
                  valid_from = now;
                  valid_until = some (now + days * 86400);
                })
                (verify_session o.checkout_session_id now placed).entitlements there
              ∙ ap (is_active_at key)
                  (verify_session-entitlements o.checkout_session_id now placed))
            ∙ h)
      ]

  handle_completed-Explained :
      (capture_id : Option ℕ) (order_id : ℕ)
      → event ≡ capture_completed capture_id (some order_id)
      → (x : OrderDetails) → api order_id ≡ x
      → (b' : Billing) → handle_completed days capture_id order_id x now b ≡ some b'
      → Explained event api b key b'.entitlements
  handle_completed-Explained capture_id order_id asked api_error e b' f = absurd cc
  handle_completed-Explained capture_id order_id asked not_completed e b' f =
      move event api b b b' key f inl
  handle_completed-Explained capture_id order_id asked completed e b' f =
      move event api b _ b' key f (
        completed-Explained capture_id order_id asked e
          (find_order (has_order_id Provider.paypal order_id) b.orders) refl)

  process-Explained :
      (b' : Billing)
      → (x : PaypalEvent) → event ≡ x
      → process_paypal_event days x api now b ≡ some b'
      → Explained event api b key b'.entitlements
  unfolding process_paypal_event
  process-Explained b' (capture_completed capture_id none) e f = move event api b b b' key f inl
  process-Explained b' (capture_completed capture_id (some order_id)) e f =
      handle_completed-Explained capture_id order_id e (api order_id) refl b' f
  process-Explained b' (capture_refunded capture_id) e f = move event api b _ b' key f (
      refund-Explained event api OrderStatus.refunded
        (find_order (has_capture_id capture_id) b.orders) b key)
  process-Explained b' (capture_denied capture_id) e f =
      move event api b _ b' key f (denied (find_order (has_capture_id capture_id) b.orders))
    where
      denied : (x : Option (ℕ × Order)) → Explained event api b key (fail_order x b).entitlements
      denied none = inl
      denied (some _) = inl
  process-Explained b' dispute e f =
      move event api b (record b { audits = dispute_detected ∷ b.audits }) b' key f inl
  process-Explained b' other_event e f = move event api b b b' key f inl

module _ (days : ℕ) (skip : Bool) (d : PaypalDelivery) (api : ℕ → OrderDetails) (now : ℕ)
    (b : Billing) (key : ℕ × ℕ) where
  abbrev Result : HookReply × Billing → Type 0
  Result x = Explained d.event api b key x.1.entitlements

  process_event-Explained :
      (events : Events)
      → Result (
          process_event Provider.paypal d.event_id d.event_id now
            (process_paypal_event days d.event api now)
            (record b { dedup = events }))
  unfolding process_event
  process_event-Explained events =
      elim (Bool-cases (mem_pair (provider_id Provider.paypal, d.event_id) b.billing_events)) [
        | inl known ↦ rw known inl
        | inr new ↦ rw new (by_result (process_paypal_event days d.event api now added) refl)
      ]
    where
      added : Billing
      added = add_billing_event Provider.paypal d.event_id (record b { dedup = events })

      by_result :
          (x : Option Billing)
          → process_paypal_event days d.event api now added ≡ x
          → Result (finish Provider.paypal d.event_id now added x)
      by_result none e = inl
      by_result (some b') e = process-Explained days d.event api now added key b' d.event refl e

  by_acquired-Explained :
      (x : Bool × Events)
      → Result (
          if_acquired Provider.paypal d.event_id d.event_id now
            (process_paypal_event days d.event api now)
            b
            x)
  by_acquired-Explained (false, events) = inl
  by_acquired-Explained (true, events) = process_event-Explained events

  -- The reply is a problem, or the signature was found good.
  webhook-Explained :
      is_active_at key (paypal_webhook days skip d api now b).1.entitlements ≡ true
      → (is_active_at key b.entitlements ≡ true)
        ⊎ (((if skip then success else d.verification) ≡ success) × IsPaid d.event api b.orders key)
  unfolding paypal_webhook deduplicated
  webhook-Explained = elim (Bool-cases d.is_json) [
    | inr e ↦ rw e inl
    | inl e ↦ elim (Bool-cases (not d.has_headers && not skip)) [
      | inl f ↦ rw (e, f) inl
      | inr f ↦ elim (Bool-cases d.has_fields) [
        | inr g ↦ rw (e, f, g) inl
        | inl g ↦ elim (Bool-cases d.is_configured) [
          | inr h ↦ rw (e, f, g, h) inl
          | inl h ↦
              rw (e, f, g, h) (by_verification (if skip then success else d.verification) refl)
        ]
      ]
    ]
  ]
    where
      with_proof :
          (v : Verification)
          → v ≡ success
          → (is_active_at key b.entitlements ≡ true) ⊎ IsPaid d.event api b.orders key
          → (is_active_at key b.entitlements ≡ true)
            ⊎ ((v ≡ success) × IsPaid d.event api b.orders key)
      with_proof v e (inl before) = inl before
      with_proof v e (inr paid) = inr (e, paid)

      by_verification :
          (v : Verification)
          → (if skip then success else d.verification) ≡ v
          → is_active_at key
              (if_verified v
                (deduplicated Provider.paypal d.event_id d.event_id now d.payload_hash
                  (process_paypal_event days d.event api now))
                b).1.entitlements
            ≡ true
          → (is_active_at key b.entitlements ≡ true)
            ⊎ (((if skip then success else d.verification) ≡ success)
                × IsPaid d.event api b.orders key)
      by_verification success e h = with_proof (if skip then success else d.verification) e (
          by_acquired-Explained
            (try_acquire_dedup (provider_id Provider.paypal) d.event_id now d.payload_hash b.dedup)
            h)
      by_verification not_success e h = inl h
      by_verification misconfigured e h = inl h
      by_verification upstream_failed e h = inl h

-- No entitlement without a verified payment. If a PayPal delivery makes the entitlement of a tenant to a
-- plan ACTIVE that was not, then its signature was found good (or the check is switched off), the
-- event is PAYMENT.CAPTURE.COMPLETED with an order id, PayPal says itself that this order is
-- COMPLETED, and the order is in the table `billing_orders`, for this tenant and this plan.
pub activation_needs_payment :
    (days : ℕ) (skip : Bool) (d : PaypalDelivery) (api : ℕ → OrderDetails) (now : ℕ) (b : Billing)
    (key : ℕ × ℕ)
    → is_active_at key b.entitlements ≡ false
    → is_active_at key (paypal_webhook days skip d api now b).1.entitlements ≡ true
    → ((if skip then success else d.verification) ≡ success) × IsPaid d.event api b.orders key
activation_needs_payment days skip d api now b key before after =
    elim (webhook-Explained days skip d api now b key after) [
      | inl already ↦ absurd (clash (sym before ∙ already))
      | inr proven ↦ proven
    ]
  where
    clash : false ≡ true → ⊥
    clash p = cc
