-- ===== src/Payments.antt =====
-- The handlers of the payment providers' events (dpp/apps/api/dpp_api/routers/webhooks.py). What a
-- provider's API answers, and the checks of signatures, headers and JSON, are inputs. A handler that
-- raises has its database writes rolled back; none writes to Redis before it can raise.
pub mod Router
pub mod Proof
pub mod Retries
pub mod Customers
pub mod Races
mod Tests
use decisionproof.Base.{
  ℕ, ◌+◌, ◌*◌, ◌/◌, ◌^◌, ℤ, pos, pos_part, eq_ℤ, Bool, true, false, not, ◌&&◌, Option, none, some,
  List, [], ◌∷◌, eqb, eqb_option, is_some, if◌then◌else◌, Dict, lookup, insert, nat_eq, pair_eq,
}
use decisionproof.Money.{Decimal}
use decisionproof.Budget.{Redis, set_balance, set_initial_balance}
use decisionproof.Plans.{TenantPlan}
use decisionproof.Checkout.{SessionStore, mark_paid_verified, apply_transition}
use decisionproof.Webhooks.{Events, try_acquire_dedup, mark_dedup_done, mark_dedup_failed}
use decisionproof.Entitlements.{
  Provider, is_provider, provider_id, OrderStatus, Order, EntitlementStatus, Entitlement, ApiKey,
  AuditEvent, dispute_detected, Billing, find_order, has_order_id, has_capture_id, is_current,
  has_current, renew, expire_row, expire_rows, upsert_plan, order_micros, fund, grant_entitlement,
  revoke_keys, revoke_found, revoke_entitlement, put_order,
}

-- What the provider's API tells about an order, or that the call raises.
pub data OrderDetails : Type 0 where
  completed not_completed api_error : OrderDetails

pub data PaypalEvent : Type 0 where
  capture_completed : (capture_id order_id : Option ℕ) → PaypalEvent
  capture_refunded capture_denied : (capture_id : Option ℕ) → PaypalEvent
  dispute other_event : PaypalEvent

abbrev pub verify_session : Option ℕ → ℕ → Billing → Billing
verify_session none now b = b
verify_session (some id) now b = record b {
  checkout = (apply_transition mark_paid_verified id now b.checkout).1;
}

abbrev pub verified_order : Option ℕ → Order → Order
verified_order capture_id o = record o {
  status = OrderStatus.paid_verified;
  provider_capture_id = capture_id;
}

abbrev pub complete_order : ℕ → Option ℕ → ℕ → Option (ℕ × Order) → Billing → Billing
complete_order days capture_id now none b = b
complete_order days capture_id now (some (id, o)) b =
    grant_entitlement days id (verified_order capture_id o) now
      (verify_session o.checkout_session_id now (put_order id (verified_order capture_id o) b))

-- `none`: the handler raises.
abbrev pub handle_completed : ℕ → Option ℕ → ℕ → OrderDetails → ℕ → Billing → Option Billing
handle_completed days capture_id order_id api_error now b = none
handle_completed days capture_id order_id not_completed now b = some b
handle_completed days capture_id order_id completed now b = some (
    complete_order days capture_id now (find_order (has_order_id Provider.paypal order_id) b.orders)
      b)

abbrev pub refund_order : OrderStatus → Option (ℕ × Order) → Billing → Billing
refund_order status none b = b
refund_order status (some (id, o)) b =
    revoke_entitlement id o (put_order id (record o { status = status }) b)

abbrev pub fail_order : Option (ℕ × Order) → Billing → Billing
fail_order none b = b
fail_order (some (id, o)) b = put_order id (record o { status = OrderStatus.failed }) b

unfoldable pub process_paypal_event :
    ℕ → PaypalEvent → (ℕ → OrderDetails) → ℕ → Billing → Option Billing
process_paypal_event days (capture_completed capture_id none) api now b = some b
process_paypal_event days (capture_completed capture_id (some order_id)) api now b =
    handle_completed days capture_id order_id (api order_id) now b
process_paypal_event days (capture_refunded capture_id) api now b =
    some (refund_order OrderStatus.refunded (find_order (has_capture_id capture_id) b.orders) b)
process_paypal_event days (capture_denied capture_id) api now b =
    some (fail_order (find_order (has_capture_id capture_id) b.orders) b)
process_paypal_event days dispute api now b =
    some (record b { audits = dispute_detected ∷ b.audits })
process_paypal_event days other_event api now b = some b

pub data TossStatus : Type 0 where
  done canceled partial_canceled aborted expired waiting_for_deposit other_status : TossStatus

pub data TossEventType : Type 0 where
  payment_status_changed deposit_callback other_type : TossEventType

pub record PaymentDetails : Type 0 where
  pub status : TossStatus
  pub order_id : ℕ
  pub payment_key : Option ℕ
  pub total_amount : ℤ

-- `int(float(amount))` of an amount that is not negative.
abbrev pub whole_amount : Decimal → ℤ
whole_amount d = pos (pos_part d.coefficient / 10 ^ d.places)

abbrev pub pay_order : ℕ → PaymentDetails → ℕ → Option (ℕ × Order) → Billing → Billing
pay_order days p now none b = b
pay_order days p now (some (id, o)) b =
    let o' = record o { status = OrderStatus.paid; provider_payment_key = p.payment_key } in
    if eq_ℤ (whole_amount o.amount) p.total_amount
    then grant_entitlement days id o' now (put_order id o' b)
    else b

abbrev pub toss_order : PaymentDetails → Billing → Option (ℕ × Order)
toss_order p b = find_order (has_order_id Provider.toss p.order_id) b.orders

abbrev pub by_toss_status : ℕ → TossStatus → PaymentDetails → ℕ → Billing → Billing
by_toss_status days TossStatus.done p now b = pay_order days p now (toss_order p b) b
by_toss_status days TossStatus.canceled p now b =
    refund_order OrderStatus.refunded (toss_order p b) b
by_toss_status days TossStatus.partial_canceled p now b =
    refund_order OrderStatus.partial_refunded (toss_order p b) b
by_toss_status days TossStatus.aborted p now b = fail_order (toss_order p b) b
by_toss_status days TossStatus.expired p now b = fail_order (toss_order p b) b
by_toss_status days _ p now b = b

abbrev pub by_deposit : ℕ → TossStatus → PaymentDetails → ℕ → Billing → Billing
by_deposit days TossStatus.done p now b = pay_order days p now (toss_order p b) b
by_deposit days _ p now b = b

unfoldable pub process_toss_event : ℕ → TossEventType → PaymentDetails → ℕ → Billing → Billing
process_toss_event days payment_status_changed p now b = by_toss_status days p.status p now b
process_toss_event days deposit_callback p now b = by_deposit days p.status p now b
process_toss_event days other_type p now b = b

pub data HookReply : Type 0 where
  processed already_processed : HookReply
  problem : ℕ → HookReply

abbrev pub mem_pair : ℕ × ℕ → List (ℕ × ℕ) → Bool
mem_pair k [] = false
mem_pair k (j ∷ ks) = if eqb j.0 k.0 && eqb j.1 k.1 then true else mem_pair k ks

abbrev pub finish_failed : Provider → ℕ → ℕ → Billing → HookReply × Billing
finish_failed p dedup_key now b =
    (problem 500, record b { dedup = mark_dedup_failed (provider_id p) dedup_key now b.dedup })

abbrev pub finish : Provider → ℕ → ℕ → Billing → Option Billing → HookReply × Billing
finish p dedup_key now b none = finish_failed p dedup_key now b
finish p dedup_key now b (some b') =
    (processed, record b' { dedup = mark_dedup_done (provider_id p) dedup_key now b'.dedup })

abbrev pub add_billing_event : Provider → ℕ → Billing → Billing
add_billing_event p event_id b = record b {
  billing_events = (provider_id p, event_id) ∷ b.billing_events;
}

-- Step 7. The event is inserted and committed before it is processed; `uq_billing_events_provider_event`
-- makes the insert raise if it is there.
unfoldable pub process_event :
    Provider
    → (event_id dedup_key now : ℕ) → (Billing → Option Billing)
    → Billing
    → HookReply × Billing
process_event p event_id dedup_key now process b =
    if mem_pair (provider_id p, event_id) b.billing_events
    then finish_failed p dedup_key now b
    else finish p dedup_key now (add_billing_event p event_id b)
        (process (add_billing_event p event_id b))

abbrev pub if_acquired :
    Provider
    → (event_id dedup_key now : ℕ) → (Billing → Option Billing)
    → Billing
    → Bool × Events
    → HookReply × Billing
if_acquired p event_id dedup_key now process b (false, events) =
    (already_processed, record b { dedup = events })
if_acquired p event_id dedup_key now process b (true, events) =
    process_event p event_id dedup_key now process (record b { dedup = events })

-- Step 6.
unfoldable pub deduplicated :
    Provider
    → (event_id dedup_key now : ℕ) → Option ℕ
    → (Billing → Option Billing)
    → Billing
    → HookReply × Billing
deduplicated p event_id dedup_key now hash process b =
    if_acquired p event_id dedup_key now process b
      (try_acquire_dedup (provider_id p) dedup_key now hash b.dedup)

pub data Verification : Type 0 where
  success not_success misconfigured upstream_failed : Verification

-- A delivery, with what the handler finds: a key that was derived stands for its event.
pub record PaypalDelivery : Type 0 where
  pub is_json : Bool
  pub has_headers : Bool
  pub has_fields : Bool
  pub is_configured : Bool
  pub verification : Verification
  pub event_id : ℕ
  pub payload_hash : Option ℕ
  pub event : PaypalEvent

abbrev pub if_verified :
    Verification → (Billing → HookReply × Billing) → Billing → HookReply × Billing
if_verified success k b = k b
if_verified not_success k b = (problem 401, b)
if_verified misconfigured k b = (problem 500, b)
if_verified upstream_failed k b = (problem 500, b)

-- `paypal_webhook`; `skip` is `_SKIP_SIG_VERIFY`.
unfoldable pub paypal_webhook :
    ℕ → Bool → PaypalDelivery → (ℕ → OrderDetails) → ℕ → Billing → HookReply × Billing
paypal_webhook days skip d api now b =
    if not d.is_json
    then (problem 400, b)
    else if not d.has_headers && not skip
    then (problem 400, b)
    else if not d.has_fields
    then (problem 400, b)
    else if not d.is_configured
    then (problem 500, b)
    else if_verified (if skip then success else d.verification)
        (deduplicated Provider.paypal d.event_id d.event_id now d.payload_hash
          (process_paypal_event days d.event api now))
        b

-- What `get_toss_client` and `get_payment` answer.
pub data TossApi : Type 0 where
  payment : PaymentDetails → TossApi
  toss_misconfigured network_error : TossApi
  toss_http_error : ℕ → TossApi

pub record TossDelivery : Type 0 where
  pub is_json : Bool
  pub has_secret : Bool
  pub has_signature : Bool
  pub is_signed : Bool
  pub has_fields : Bool
  pub dedup_key : ℕ
  pub payload_hash : Option ℕ
  pub event_type : TossEventType

abbrev pub fail_with : ℕ → ℕ → ℕ → Billing → HookReply × Billing
fail_with code dedup_key now b = (
  problem code,
  record b { dedup = mark_dedup_failed (provider_id Provider.toss) dedup_key now b.dedup },
)

abbrev pub by_toss_api : ℕ → TossDelivery → TossApi → ℕ → Billing → HookReply × Billing
by_toss_api days d toss_misconfigured now b = fail_with 500 d.dedup_key now b
by_toss_api days d network_error now b = fail_with 500 d.dedup_key now b
by_toss_api days d (toss_http_error status) now b =
    if eqb status 404 then fail_with 400 d.dedup_key now b else fail_with 500 d.dedup_key now b
by_toss_api days d (payment p) now b =
    process_event Provider.toss d.dedup_key d.dedup_key now
      (λ b'. some (process_toss_event days d.event_type p now b')) b

abbrev pub if_toss_acquired :
    ℕ → TossDelivery → TossApi → ℕ → Billing → Bool × Events → HookReply × Billing
if_toss_acquired days d api now b (false, events) = (already_processed, record b { dedup = events })
if_toss_acquired days d api now b (true, events) =
    by_toss_api days d api now (record b { dedup = events })

unfoldable pub tosspayments_webhook : ℕ → TossDelivery → TossApi → ℕ → Billing → HookReply × Billing
tosspayments_webhook days d api now b =
    if not d.is_json
    then (problem 400, b)
    else if d.has_secret && not d.has_signature
    then (problem 400, b)
    else if d.has_secret && not d.is_signed
    then (problem 401, b)
    else if not d.has_fields
    then (problem 400, b)
    else if_toss_acquired days d api now b
        (try_acquire_dedup (provider_id Provider.toss) d.dedup_key now d.payload_hash b.dedup)
