-- ===== src/Examples.antt =====
-- Rows and a store for the tests.
use decisionproof.Base.{pos, none, some, [], ◌∷◌, arith, true}
use decisionproof.Budget.{Reservation, Redis}
use decisionproof.Budget.Scripts.{IsValid}
use decisionproof.Runs.{Run, Runs, Status, MoneyState, Stage}
use decisionproof.World.{World}
use decisionproof.Plans.{Plan, TenantPlan}
use decisionproof.Checkout.{Session, SessionStatus}
use decisionproof.Entitlements.{Provider, OrderStatus, Order, Billing}

-- In the hands of a worker with the lease 77.
abbrev pub running : Run
running = record {
  tenant_id = 1;
  pack_type = 4;
  profile_version = 1;
  status = Status.processing;
  money_state = MoneyState.reserved;
  idempotency_key = some 31;
  payload_hash = 99;
  version = 3;
  reservation_max_cost_usd_micros = pos 300;
  actual_cost_usd_micros = none;
  minimum_fee_usd_micros = pos 20;
  timebox_sec = none;
  inputs_json = none;
  result_bucket = none;
  result_key = none;
  result_sha256 = none;
  retention_until = 9000;
  lease_token = some 77;
  lease_expires_at = some 120;
  finalize_token = none;
  finalize_stage = Stage.null;
  finalize_claimed_at = none;
  completed_at = none;
  last_error_reason_code = none;
  last_error_detail = none;
  trace_id = none;
  created_at = 5;
  updated_at = 6;
}

-- Another run of the tenant, before its reservation.
abbrev pub waiting : Run
waiting = record running {
  status = Status.queued;
  money_state = MoneyState.unreserved;
  idempotency_key = some 32;
  version = 0;
  lease_token = none;
  lease_expires_at = none;
}

abbrev pub held_run : Reservation
held_run = record {
  tenant_id = 1;
  reserved_usd_micros = pos 300;
  created_at_ms = 5;
  expires_at_ms = some 3600005;
}

-- Tenant 1 has 700 free and 300 reserved for run 8.
abbrev pub store : Redis
store = record {
  balances = (1, pos 700) ∷ (2, pos 50) ∷ [];
  initial_balances = [];
  reserves = ((1, 8), held_run) ∷ [];
  receipts = [];
}

pub store-IsValid : IsValid store
store-IsValid = record { funds = λ t. ground arith; reservations = ground arith }

abbrev pub table : Runs
table = (8, running) ∷ (9, waiting) ∷ []

abbrev pub world : World
world = record { runs = table; redis = store; usage = []; is_sqlite = true }

-- Run 8 before a worker takes it.
abbrev pub ready : Run
ready = record running {
  status = Status.queued;
  version = 1;
  lease_token = none;
  lease_expires_at = none;
}

abbrev pub ready_world : World
ready_world = record world { runs = (8, ready) ∷ (9, waiting) ∷ [] }

-- A plan with two requests a minute.
abbrev pub basic : Plan
basic = record {
  plan_id = 3;
  allowed_pack_types = 4 ∷ [];
  max_cost_limits = (4, pos 100000) ∷ [];
  rate_limit_post_per_min = some 2;
  rate_limit_poll_per_min = none;
}

abbrev pub mapping : TenantPlan
mapping = record {
  tenant_id = 1;
  plan_id = 3;
  is_active = true;
  effective_from = 5;
  effective_to = none;
}

-- Tenant 1 has ordered plan 3 for 29 dollars, order 60 at PayPal, from session 5.
abbrev pub order : Order
order = record {
  tenant_id = 1;
  provider = Provider.paypal;
  provider_order_id = 60;
  provider_capture_id = none;
  provider_payment_key = none;
  plan_id = 3;
  is_usd = true;
  amount = record { coefficient = pos 2900; places = 2 };
  status = OrderStatus.pending;
  checkout_session_id = some 5;
}

abbrev pub session : Session
session = record {
  user_id = 7;
  tenant_id = 1;
  plan_id = 3;
  amount_usd_cents = 2900;
  status = SessionStatus.order_created;
  paypal_order_id = some 60;
  expires_at = 5000;
  failed_reason = none;
  updated_at = 20;
}

-- The plan of the tenant so far began at 5.
abbrev pub billing : Billing
billing = record {
  checkout = record { sessions = (5, session) ∷ []; events = [] };
  orders = (11, order) ∷ [];
  entitlements = [];
  tenant_plans = mapping ∷ [];
  api_keys = [];
  billing_events = [];
  dedup = [];
  audits = [];
  redis = store;
}
