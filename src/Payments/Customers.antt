-- ===== src/Payments/Customers.antt =====
-- What the requests of customers cannot do.
use decisionproof.Base.{
  ℕ, ◌≡◌, refl, ◌∙◌, inl, inr, ◌&&◌, ◌||◌, Option, none, some, List, [], ◌∷◌, leb, eqb, is_some,
  nat_eq, Bool-cases,
}
use decisionproof.Checkout.{is_terminal, Session}
use decisionproof.Entitlements.{Provider, Order, Billing, find_order, has_order_id}
use decisionproof.Payments.Router.{
  Creation, order_made, creation_failed, no_order_id, no_approval_url, by_creation, is_created,
  is_capture_submitted, is_order_created, order_for, get_by_id_for_tenant, create_paypal_order,
  Gate, ends, call_paypal, gate_for, capture_gate, Capture, captured, capture_error, is_of_session,
  submit_order, finish_capture, after_gate, capture_paypal_order,
}

-- What a payment buys is as it was.
pub record IsUnbought (b b' : Billing) : Type 0 where
  pub entitlements : b'.entitlements ≡ b.entitlements
  pub tenant_plans : b'.tenant_plans ≡ b.tenant_plans
  pub redis : b'.redis ≡ b.redis

-- A request of a customer.
pub data RouterCall : Type 0 where
  create_order : (row_id tenant session_id : ℕ) → Creation → RouterCall
  capture : (tenant session_id : ℕ) → Capture → RouterCall

unfoldable pub call : RouterCall → ℕ → Billing → Billing
unfolding create_paypal_order capture_paypal_order
call (create_order row_id tenant id paypal) now b =
    (create_paypal_order row_id tenant id paypal now b).1
call (capture tenant id paypal) now b = (capture_paypal_order tenant id paypal now b).1

unfoldable pub call_all : List (RouterCall × ℕ) → Billing → Billing
call_all [] b = b
call_all ((c, now) ∷ cs) b = call_all cs (call c now b)

unbought : (b : Billing) → IsUnbought b b
unbought b = record { entitlements = refl; tenant_plans = refl; redis = refl }

by_creation-IsUnbought :
    (row_id id : ℕ) (s : Session) (now : ℕ) (paypal : Creation) (b : Billing)
    → IsUnbought b (by_creation row_id id s now paypal b).1
by_creation-IsUnbought row_id id s now creation_failed b = unbought b
by_creation-IsUnbought row_id id s now no_order_id b = unbought b
by_creation-IsUnbought row_id id s now no_approval_url b = unbought b
by_creation-IsUnbought row_id id s now (order_made order_id) b =
    elim (Bool-cases (is_some (find_order (has_order_id Provider.paypal order_id) b.orders))) [
      | inl taken ↦ rw taken (unbought b)
      | inr new ↦ rw new (record { entitlements = refl; tenant_plans = refl; redis = refl })
    ]

order_for-IsUnbought :
    (row_id id : ℕ) (s : Option Session) (paypal : Creation) (now : ℕ) (b : Billing)
    → IsUnbought b (order_for row_id id s paypal now b).1
order_for-IsUnbought row_id id none paypal now b = unbought b
order_for-IsUnbought row_id id (some s) paypal now b = elim (Bool-cases (leb s.expires_at now)) [
  | inl e ↦ rw e (record { entitlements = refl; tenant_plans = refl; redis = refl })
  | inr e ↦ elim (Bool-cases (is_terminal s.status)) [
    | inl f ↦ rw (e, f) (unbought b)
    | inr f ↦ elim (Bool-cases (is_some s.paypal_order_id)) [
      | inl g ↦ rw (e, f, g) (unbought b)
      | inr g ↦ elim (Bool-cases (is_created s.status)) [
        | inl h ↦ rw (e, f, g, h) (by_creation-IsUnbought row_id id s now paypal b)
        | inr h ↦ rw (e, f, g, h) (unbought b)
      ]
    ]
  ]
]

gate_for-IsUnbought :
    (id : ℕ) (s : Option Session) (now : ℕ) (b : Billing) → IsUnbought b (gate_for id s now b).1
gate_for-IsUnbought id none now b = unbought b
gate_for-IsUnbought id (some s) now b = elim (Bool-cases (leb s.expires_at now)) [
  | inl e ↦ rw e (record { entitlements = refl; tenant_plans = refl; redis = refl })
  | inr e ↦ elim (Bool-cases (is_capture_submitted s.status)) [
    | inl f ↦ rw (e, f) (unbought b)
    | inr f ↦ elim (Bool-cases (is_terminal s.status)) [
      | inl g ↦ rw (e, f, g) (unbought b)
      | inr g ↦ elim (Bool-cases (is_some s.paypal_order_id && is_order_created s.status)) [
        | inl h ↦ rw (e, f, g, h) (unbought b)
        | inr h ↦ rw (e, f, g, h) (unbought b)
      ]
    ]
  ]
]

submit_order-IsUnbought :
    (capture_id : Option ℕ) (x : Option (ℕ × Order)) (b : Billing)
    → IsUnbought b (submit_order capture_id x b)
submit_order-IsUnbought none x b = unbought b
submit_order-IsUnbought (some capture_id) none b = unbought b
submit_order-IsUnbought (some capture_id) (some (id, o)) b = record {
  entitlements = refl;
  tenant_plans = refl;
  redis = refl;
}

finish_capture-IsUnbought :
    (id : ℕ) (paypal : Capture) (now : ℕ) (b : Billing)
    → IsUnbought b (finish_capture id paypal now b).1
unfolding finish_capture
finish_capture-IsUnbought id (captured capture_id) now b =
    let s = submit_order-IsUnbought capture_id (find_order (is_of_session id) b.orders) b in
    record { entitlements = s.entitlements; tenant_plans = s.tenant_plans; redis = s.redis }
finish_capture-IsUnbought id (capture_error code) now b =
    elim (Bool-cases (eqb code 400 || eqb code 422)) [
      | inl e ↦ rw e (record { entitlements = refl; tenant_plans = refl; redis = refl })
      | inr e ↦ rw e (unbought b)
    ]

trans : (a b c : Billing) → IsUnbought a b → IsUnbought b c → IsUnbought a c
trans a b c p q = record {
  entitlements = q.entitlements ∙ p.entitlements;
  tenant_plans = q.tenant_plans ∙ p.tenant_plans;
  redis = q.redis ∙ p.redis;
}

after_gate-IsUnbought :
    (id : ℕ) (paypal : Capture) (now : ℕ) (b : Billing) (x : Gate × Billing)
    → IsUnbought b x.1
    → IsUnbought b (after_gate id paypal now x).1
after_gate-IsUnbought id paypal now b (ends code, b') p = p
after_gate-IsUnbought id paypal now b (call_paypal, b') p =
    trans b b' (finish_capture id paypal now b').1 p (finish_capture-IsUnbought id paypal now b')

call-IsUnbought : (c : RouterCall) (now : ℕ) (b : Billing) → IsUnbought b (call c now b)
unfolding call create_paypal_order capture_paypal_order capture_gate
call-IsUnbought (create_order row_id tenant id paypal) now b =
    order_for-IsUnbought row_id id (get_by_id_for_tenant id tenant b) paypal now b
call-IsUnbought (capture tenant id paypal) now b =
    after_gate-IsUnbought id paypal now b (gate_for id (get_by_id_for_tenant id tenant b) now b)
      (gate_for-IsUnbought id (get_by_id_for_tenant id tenant b) now b)

-- Only the webhook grants. Whatever orders and captures customers ask for, in any number and order, and
-- whatever PayPal answers to them, no entitlement, no plan and no balance changes.
pub router_grants_nothing :
    (cs : List (RouterCall × ℕ)) (b : Billing)
    → let b' = call_all cs b in
      (b'.entitlements ≡ b.entitlements) × (b'.tenant_plans ≡ b.tenant_plans) × (b'.redis ≡ b.redis)
unfolding call_all
router_grants_nothing cs b = let p = all cs b in (p.entitlements, p.tenant_plans, p.redis)
  where
    all : (cs : List (RouterCall × ℕ)) (b : Billing) → IsUnbought b (call_all cs b)
    all [] b = unbought b
    all ((c, now) ∷ cs) b =
        trans b (call c now b) (call_all cs (call c now b)) (call-IsUnbought c now b)
          (all cs (call c now b))
