-- ===== src/Payments/Router.antt =====
-- The PayPal orders and captures of dpp/apps/api/dpp_api/routers/billing.py. What PayPal answers is an
-- input. A handler's result is the status code of its reply. The capture is two steps, before and after
-- the call of PayPal, since the webhook may come in between.
use Prim.Native.String.{String}
use decisionproof.Base.{
  ℕ, pos, Bool, true, false, ◌&&◌, Option, none, some, leb, eqb, eqb_option, ◌||◌, is_some,
  if◌then◌else◌, lookup, nat_eq,
}
use decisionproof.Checkout.{
  SessionStatus, is_terminal, Session, mark_expired, mark_order_created, mark_capture_submitted,
  mark_failed, apply_transition,
}
use decisionproof.Entitlements.{
  Provider, OrderStatus, Order, Billing, find_order, has_order_id, put_order,
}

abbrev pub owned_session : ℕ → Option Session → Option Session
owned_session tenant none = none
owned_session tenant (some s) = if eqb s.tenant_id tenant then some s else none

-- `repo.get_by_id_for_tenant`
abbrev pub get_by_id_for_tenant : ℕ → ℕ → Billing → Option Session
get_by_id_for_tenant id tenant b = owned_session tenant (lookup id b.checkout.sessions)

abbrev pub expire_session : ℕ → ℕ → Billing → Billing
expire_session id now b = record b {
  checkout = (apply_transition mark_expired id now b.checkout).1;
}

pub data Creation : Type 0 where
  order_made : ℕ → Creation
  creation_failed no_order_id no_approval_url : Creation

-- `repo.create_billing_order`; the sessions are in US dollars.
abbrev pub new_order : ℕ → Session → ℕ → Order
new_order session_id s paypal_order_id = record {
  tenant_id = s.tenant_id;
  provider = Provider.paypal;
  provider_order_id = paypal_order_id;
  provider_capture_id = none;
  provider_payment_key = none;
  plan_id = s.plan_id;
  is_usd = true;
  amount = record { coefficient = pos s.amount_usd_cents; places = 2 };
  status = OrderStatus.pending;
  checkout_session_id = some session_id;
}

-- The insert may run into `uq_billing_orders_provider_order`: nobody catches that.
abbrev pub by_creation : (row_id session_id : ℕ) → Session → ℕ → Creation → Billing → ℕ × Billing
by_creation row_id session_id s now (order_made order_id) b =
    if is_some (find_order (has_order_id Provider.paypal order_id) b.orders) then (500, b) else (
      201,
      put_order row_id (new_order session_id s order_id) (record b {
        checkout = (apply_transition (mark_order_created order_id) session_id now b.checkout).1;
      }),
    )
by_creation row_id session_id s now creation_failed b = (502, b)
by_creation row_id session_id s now no_order_id b = (502, b)
by_creation row_id session_id s now no_approval_url b = (502, b)

abbrev pub is_created : SessionStatus → Bool
is_created SessionStatus.created = true
is_created _ = false

abbrev pub is_order_created : SessionStatus → Bool
is_order_created SessionStatus.order_created = true
is_order_created _ = false

abbrev pub is_capture_submitted : SessionStatus → Bool
is_capture_submitted SessionStatus.capture_submitted = true
is_capture_submitted _ = false

abbrev pub order_for : (row_id id : ℕ) → Option Session → Creation → ℕ → Billing → ℕ × Billing
order_for row_id id none paypal now b = (404, b)
order_for row_id id (some s) paypal now b =
    if leb s.expires_at now
    then (410, expire_session id now b)
    else if is_terminal s.status
    then (409, b)
    else if is_some s.paypal_order_id
    then (200, b)
    else if is_created s.status
    then by_creation row_id id s now paypal b
    else (409, b)

unfoldable pub create_paypal_order : (row_id tenant id : ℕ) → Creation → ℕ → Billing → ℕ × Billing
create_paypal_order row_id tenant id paypal now b =
    order_for row_id id (get_by_id_for_tenant id tenant b) paypal now b

-- The guards end the request, or let it call PayPal.
pub data Gate : Type 0 where
  ends : ℕ → Gate
  call_paypal : Gate

abbrev pub gate_for : ℕ → Option Session → ℕ → Billing → Gate × Billing
gate_for id none now b = (ends 404, b)
gate_for id (some s) now b =
    if leb s.expires_at now
    then (ends 410, expire_session id now b)
    else if is_capture_submitted s.status
    then (ends 200, b)
    else if is_terminal s.status
    then (ends 409, b)
    else if is_some s.paypal_order_id && is_order_created s.status
    then (call_paypal, b)
    else (ends 409, b)

unfoldable pub capture_gate : (tenant id : ℕ) → ℕ → Billing → Gate × Billing
capture_gate tenant id now b = gate_for id (get_by_id_for_tenant id tenant b) now b

-- `HTTPStatusError` by its status code, or the response with its capture id.
pub data Capture : Type 0 where
  captured : Option ℕ → Capture
  capture_error : ℕ → Capture

-- `get_billing_order_by_session`
abbrev pub is_of_session : ℕ → Order → Bool
is_of_session session_id o = eqb_option o.checkout_session_id (some session_id)

abbrev pub submit_order : Option ℕ → Option (ℕ × Order) → Billing → Billing
submit_order (some capture_id) (some (id, o)) b =
    put_order id
      (record o { status = OrderStatus.capture_submitted; provider_capture_id = some capture_id }) b
submit_order _ _ b = b

abbrev pub submit_session : ℕ → ℕ → Billing → Billing
submit_session id now b = record b {
  checkout = (apply_transition mark_capture_submitted id now b.checkout).1;
}

abbrev pub failed_reason : ℕ → String
failed_reason code = if eqb code 400 then "paypal_capture_http_400" else "paypal_capture_http_422"

unfoldable pub finish_capture : ℕ → Capture → ℕ → Billing → ℕ × Billing
finish_capture id (captured capture_id) now b = (
  202,
  submit_session id now (submit_order capture_id (find_order (is_of_session id) b.orders) b),
)
finish_capture id (capture_error code) now b =
    if eqb code 400 || eqb code 422
    then (
      502,
      record b {
        checkout = (apply_transition (mark_failed (failed_reason code)) id now b.checkout).1;
      },
    )
    else (502, b)

abbrev pub after_gate : ℕ → Capture → ℕ → Gate × Billing → ℕ × Billing
after_gate id paypal now (ends code, b) = (code, b)
after_gate id paypal now (call_paypal, b) = finish_capture id paypal now b

-- No one else in between.
unfoldable pub capture_paypal_order : (tenant id : ℕ) → Capture → ℕ → Billing → ℕ × Billing
capture_paypal_order tenant id paypal now b =
    after_gate id paypal now (capture_gate tenant id now b)
