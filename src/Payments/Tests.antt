-- ===== src/Payments/Tests.antt =====
-- Deliveries for the order of the examples.
use decisionproof.Base.{ℕ, ◌≡◌, refl, true, false, some, none, [], ◌∷◌, nat_eq, pair_eq, List}
use decisionproof.Webhooks.{try_acquire_dedup}
use decisionproof.Entitlements.{Billing, find_order, grant_entitlement}
use decisionproof.Payments.{
  OrderDetails, completed, api_error, capture_completed, problem, success, PaypalDelivery,
  paypal_webhook, process_paypal_event, deduplicated, process_event, complete_order,
}
use decisionproof.Payments.Router.{captured, creation_failed, finish_capture}
use decisionproof.Payments.Customers.{
  RouterCall, create_order, capture, call_all, router_grants_nothing,
}
use decisionproof.Payments.Retries.{IsAccepted, IsUnprocessed, retry_never_processes}
use decisionproof.Payments.Proof.{IsPaid, is_active_at, activation_needs_payment}
use decisionproof.Payments.Races.{IsAwaited, IsDowngraded, late_capture_downgrades}
use decisionproof.Examples.{order, session, billing}

abbrev delivery : PaypalDelivery
delivery = record {
  is_json = true;
  has_headers = true;
  has_fields = true;
  is_configured = true;
  verification = success;
  event_id = 900;
  payload_hash = none;
  event = capture_completed (some 70) (some 60);
}

abbrev api_down : ℕ → OrderDetails
api_down id = api_error

abbrev api_up : ℕ → OrderDetails
api_up id = completed

accepted : IsAccepted false delivery
accepted = record { json = refl; headers = refl; fields = refl; configured = refl; verified = refl }

retry_never_processes_example :
    let (reply, b') = paypal_webhook 30 false delivery api_down 100 billing in
    (reply ≡ problem 500) × IsUnprocessed billing (paypal_webhook 30 false delivery api_up 200 b')
unfolding try_acquire_dedup
retry_never_processes_example =
    retry_never_processes 30 false delivery delivery api_down api_up 100 200 billing (some 70) 60
      accepted refl refl refl refl refl

made_active :
    is_active_at (1, 3) (paypal_webhook 30 false delivery api_up 100 billing).1.entitlements ≡ true
unfolding paypal_webhook deduplicated try_acquire_dedup process_event process_paypal_event
    find_order grant_entitlement
made_active = refl

activation_needs_payment_example :
    (success ≡ success) × IsPaid delivery.event api_up billing.orders (1, 3)
activation_needs_payment_example =
    activation_needs_payment 30 false delivery api_up 100 billing (1, 3) refl made_active

abbrev calls : List (RouterCall × ℕ)
calls = (create_order 12 1 5 creation_failed, 100) ∷ (capture 1 5 (captured (some 70)), 110) ∷ []

router_grants_nothing_example :
    let b' = call_all calls billing in
    (b'.entitlements ≡ billing.entitlements)
    × (b'.tenant_plans ≡ billing.tenant_plans)
    × (b'.redis ≡ billing.redis)
router_grants_nothing_example = router_grants_nothing calls billing

awaited : IsAwaited 5 60 11 order session billing
unfolding find_order
awaited = record {
  distinct = (refl, tt);
  by_order = refl;
  by_session = refl;
  linked = refl;
  there = refl;
  live = refl;
}

abbrev paid : Billing
paid = complete_order 30 (some 70) 100 (some (11, order)) billing

webhook_done :
    process_paypal_event 30 (capture_completed (some 70) (some 60)) api_up 100 billing ≡ some paid
unfolding process_paypal_event find_order
webhook_done = refl

late_capture_downgrades_example :
    IsDowngraded 5 11 paid (finish_capture 5 (captured (some 70)) 105 paid).1
late_capture_downgrades_example =
    late_capture_downgrades 30 100 105 5 60 11 70 (some 70) order session api_up billing paid
      awaited refl webhook_done
