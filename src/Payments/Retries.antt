-- ===== src/Payments/Retries.antt =====
-- An event whose processing failed, delivered again.
use decisionproof.Base.{
  ℕ, ◌≡◌, ◌≢◌, refl, ap, ◌∙◌, inl, inr, Bool, true, false, not, ◌&&◌, Option, none, some, eqb_iff,
  if◌then◌else◌, Bool-cases,
}
use decisionproof.Webhooks.{Events, try_acquire_dedup}
use decisionproof.Entitlements.{Provider, provider_id, Billing}
use decisionproof.Payments.{
  OrderDetails, api_error, capture_completed, process_paypal_event, HookReply, processed, problem,
  mem_pair, process_event, if_acquired, deduplicated, Verification, success, not_success,
  misconfigured, upstream_failed, PaypalDelivery, if_verified, paypal_webhook,
}

-- A delivery that gets to the dedup gate.
pub record IsAccepted (skip : Bool) (d : PaypalDelivery) : Type 0 where
  pub json : d.is_json ≡ true
  pub headers : d.has_headers ≡ true
  pub fields : d.has_fields ≡ true
  pub configured : d.is_configured ≡ true
  pub verified : (if skip then success else d.verification) ≡ success

-- The handler has not processed the event: it says so, and nothing that money buys has changed.
pub record IsUnprocessed (b : Billing) (result : HookReply × Billing) : Type 0 where
  pub said : result.0 ≢ processed
  pub entitlements : result.1.entitlements ≡ b.entitlements
  pub tenant_plans : result.1.tenant_plans ≡ b.tenant_plans
  pub orders : result.1.orders ≡ b.orders
  pub redis : result.1.redis ≡ b.redis

refused_with : (code : ℕ) (b : Billing) → IsUnprocessed b (problem code, b)
refused_with code b = record {
  said = λ h. cc;
  entitlements = refl;
  tenant_plans = refl;
  orders = refl;
  redis = refl;
}

module _ (days : ℕ) (skip : Bool) (d : PaypalDelivery) (api : ℕ → OrderDetails) (now : ℕ)
    (b : Billing) where
  abbrev process : Billing → Option Billing
  process = process_paypal_event days d.event api now

  -- An event that is in the table is never processed again.
  known-IsUnprocessed :
      mem_pair (provider_id Provider.paypal, d.event_id) b.billing_events ≡ true
      → IsUnprocessed b (paypal_webhook days skip d api now b)
  unfolding paypal_webhook process_event deduplicated
  known-IsUnprocessed known = elim (Bool-cases d.is_json) [
    | inr e ↦ rw e (refused_with 400 b)
    | inl e ↦ elim (Bool-cases (not d.has_headers && not skip)) [
      | inl f ↦ rw (e, f) (refused_with 400 b)
      | inr f ↦ elim (Bool-cases d.has_fields) [
        | inr g ↦ rw (e, f, g) (refused_with 400 b)
        | inl g ↦ elim (Bool-cases d.is_configured) [
          | inr h ↦ rw (e, f, g, h) (refused_with 500 b)
          | inl h ↦ rw (e, f, g, h) (by_verification (if skip then success else d.verification))
        ]
      ]
    ]
  ]
    where
      by_acquired :
          (x : Bool × Events)
          → IsUnprocessed b (if_acquired Provider.paypal d.event_id d.event_id now process b x)
      by_acquired (false, events) = record {
        said = λ h. cc;
        entitlements = refl;
        tenant_plans = refl;
        orders = refl;
        redis = refl;
      }
      by_acquired (true, events) = rw known (record {
        said = λ h. cc;
        entitlements = refl;
        tenant_plans = refl;
        orders = refl;
        redis = refl;
      })

      by_verification :
          (v : Verification)
          → IsUnprocessed b (
              if_verified v
                (deduplicated Provider.paypal d.event_id d.event_id now d.payload_hash process)
                b)
      by_verification success =
          by_acquired
            (try_acquire_dedup (provider_id Provider.paypal) d.event_id now d.payload_hash b.dedup)
      by_verification not_success = refused_with 401 b
      by_verification misconfigured = refused_with 500 b
      by_verification upstream_failed = refused_with 500 b

  -- The first delivery, whose processing raises.
  raised-IsUnprocessed :
      (capture_id : Option ℕ) (order_id : ℕ)
      → IsAccepted skip d
      → d.event ≡ capture_completed capture_id (some order_id)
      → api order_id ≡ api_error
      → mem_pair (provider_id Provider.paypal, d.event_id) b.billing_events ≡ false
      → (try_acquire_dedup (provider_id Provider.paypal) d.event_id now d.payload_hash b.dedup).0
        ≡ true
      → IsUnprocessed b (paypal_webhook days skip d api now b)
        × ((paypal_webhook days skip d api now b).0 ≡ problem 500)
        × (mem_pair
              (provider_id Provider.paypal, d.event_id)
              (paypal_webhook days skip d api now b).1.billing_events
            ≡ true)
  unfolding paypal_webhook deduplicated process_paypal_event process_event
  raised-IsUnprocessed capture_id order_id p asked fails new first =
      rw (p.json, p.headers, p.fields, p.configured, p.verified)
        (by_acquired
          (try_acquire_dedup (provider_id Provider.paypal) d.event_id now d.payload_hash b.dedup)
          first)
    where
      raises : (b' : Billing) → process b' ≡ none
      raises b' = rw asked (rw fails refl)

      by_acquired :
          (x : Bool × Events)
          → x.0 ≡ true
          → let result = if_acquired Provider.paypal d.event_id d.event_id now process b x in
            IsUnprocessed b result
            × (result.0 ≡ problem 500)
            × (mem_pair (provider_id Provider.paypal, d.event_id) result.1.billing_events ≡ true)
      by_acquired (false, events) e = absurd cc
      by_acquired (true, events) e = rw new (
          rw raises (
            record {
              said = λ h. cc;
              entitlements = refl;
              tenant_plans = refl;
              orders = refl;
              redis = refl;
            },
            refl,
            rw ((eqb_iff d.event_id d.event_id).1 refl) refl,
          ))

-- A failed payment event is lost. Let the first delivery of a verified event PAYMENT.CAPTURE.COMPLETED
-- raise while the order is looked up at PayPal; its reply is 500. Then no delivery of the same event
-- that comes next is ever processed, whatever PayPal answers now: the first attempt has committed its
-- row of `billing_events`, which is unique. No entitlement, plan, order or balance changes.
pub retry_never_processes :
    (days : ℕ) (skip : Bool) (d d' : PaypalDelivery) (api api' : ℕ → OrderDetails) (now now' : ℕ)
    (b : Billing) (capture_id : Option ℕ) (order_id : ℕ)
    → IsAccepted skip d
    → d.event ≡ capture_completed capture_id (some order_id)
    → api order_id ≡ api_error
    → mem_pair (provider_id Provider.paypal, d.event_id) b.billing_events ≡ false
    → (try_acquire_dedup (provider_id Provider.paypal) d.event_id now d.payload_hash b.dedup).0
      ≡ true
    → d'.event_id ≡ d.event_id
    → let (reply, b') = paypal_webhook days skip d api now b in
      (reply ≡ problem 500) × IsUnprocessed b (paypal_webhook days skip d' api' now' b')
retry_never_processes days skip d d' api api' now now' b capture_id order_id p asked fails new first
      same =
    let b' = (paypal_webhook days skip d api now b).1 in
    let (once, says, known) =
      raised-IsUnprocessed days skip d api now b capture_id order_id p asked fails new first in
    let again =
      known-IsUnprocessed days skip d' api' now' b' (
        ap (λ (e : ℕ). mem_pair (provider_id Provider.paypal, e) b'.billing_events) same ∙ known) in
    (
      says,
      record {
        said = again.said;
        entitlements = again.entitlements ∙ once.entitlements;
        tenant_plans = again.tenant_plans ∙ once.tenant_plans;
        orders = again.orders ∙ once.orders;
        redis = again.redis ∙ once.redis;
      },
    )
