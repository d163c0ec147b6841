-- ===== src/Submit/Tests.antt =====
-- A tenant with 50000 micros asks for a run of at most 0.0060 dollars.
use decisionproof.Base.{
  ℕ, pos, ◌≤ℤ◌, ◌≡◌, ◌≢◌, refl, none, some, List, [], ◌∷◌, arith, nat_eq, pair_eq, true,
}
use decisionproof.Money.{validate_usd_micros, decimal_to_usd_micros}
use decisionproof.Budget.{Redis, reserve}
use decisionproof.Budget.Scripts.{IsValid}
use decisionproof.Runs.{
  Run, Status, Stage, get_by_idempotency_key, create, get_by_id, update_with_version_check,
}
use decisionproof.Runs.History.{Write}
use decisionproof.Runs.Keys.{RowChange, updated, inserted, apply_all}
use decisionproof.World.{World}
use decisionproof.Manager.{reserve_budget}
use decisionproof.Plans.{get_active_plan, latest, check_rate_limit, enforce}
use decisionproof.Worker.{delete_message, begin_run, process_message}
use decisionproof.Worker.Completes.{IsCompleted}
use decisionproof.Worker.Tests.{job, stub_executor, ready-IsReady}
use decisionproof.Examples.{
  waiting, running, ready, held_run, store-IsValid, world, ready_world, basic, mapping,
}
use decisionproof.Submit.{
  Request, Draw, Api, Receipt, replied, http_error, build_receipt, minimum_fee_of, new_run, submit,
  create_run, roll_back,
}
use decisionproof.Submit.Polls.{get_run}
use decisionproof.Submit.Rows.{IsFresh, Submits, queued_row}
use decisionproof.Submit.Fee.{minimum_fee_bounds}
use decisionproof.Submit.Outcome.{submit_lem}
use decisionproof.Submit.Idempotent.{IsAdmitted, create_run_twice}
use decisionproof.Submit.Completes.{create_run_completes}
use decisionproof.Submit.Reads.{with_runs, get_run_hides}
use decisionproof.Submit.Late.{IsUnpaid, late_roll_back}

abbrev request : Request
request = record {
  idempotency_key = 40;
  key_length = 16;
  payload_hash = 7;
  pack_type = 4;
  inputs = 3;
  max_cost_usd = record { coefficient = pos 60; places = 4 };
  timebox_sec = 90;
  meta = none;
}

abbrev draw : Draw
draw = record { run_id = 8; now = 10; enqueue_error = none; detail = λ e. "reserve failed" }

abbrev rich_store : Redis
rich_store = record {
  balances = (1, pos 50000) ∷ [];
  initial_balances = [];
  reserves = [];
  receipts = [];
}

rich_store-IsValid : IsValid rich_store
rich_store-IsValid = record { funds = λ t. ground arith; reservations = ground arith }

abbrev rich_world : World
rich_world = record { runs = []; redis = rich_store; usage = []; is_sqlite = true }

abbrev api : Api
api = record {
  world = rich_world;
  mappings = mapping ∷ [];
  plans = (3, basic) ∷ [];
  post_keys = λ t. none;
  poll_keys = λ t. none;
}

request-IsFresh : IsFresh 1 request draw rich_world
unfolding get_by_idempotency_key
request-IsFresh = record { no_row = refl; no_reservation = refl; no_key = refl }

admitted : IsAdmitted 1 request draw (pos 6000) basic api
unfolding decimal_to_usd_micros enforce get_active_plan latest check_rate_limit
admitted = record {
  good_key = refl;
  parses = refl;
  let_through = refl;
  fresh = request-IsFresh;
  valid = rich_store-IsValid;
}

minimum_fee_bounds_example :
    (pos 0 ≤ℤ minimum_fee_of (pos 6000))
    × (minimum_fee_of (pos 6000) ≤ℤ pos 6000)
    × (minimum_fee_of (pos 6000) ≤ℤ pos 100000)
    × (pos 5000 ≤ℤ pos 6000 → pos 5000 ≤ℤ minimum_fee_of (pos 6000))
    × (pos 250000 ≤ℤ pos 6000 → pos 6000 ≤ℤ pos 5000000 → minimum_fee_of (pos 6000) ≡ pos 120)
minimum_fee_bounds_example = minimum_fee_bounds (pos 6000) (omega arith)

submit_lem_example :
    Submits 1 request draw (pos 6000) rich_world (submit 1 request draw (pos 6000) rich_world)
submit_lem_example =
    submit_lem 1 request draw (pos 6000) rich_world rich_store-IsValid request-IsFresh

-- The run is completed, and another one made, before the request is sent again.
abbrev completion : Write
completion = record {
  run_id = 8;
  tenant = 1;
  expected = 1;
  updates = λ r. record r { status = Status.completed; finalize_stage = Stage.committed };
  conditions = [];
  now = 60;
}

abbrev meanwhile : List RowChange
meanwhile = updated completion ∷ inserted 9 waiting ∷ []

abbrev later : Api
later = record api {
  world = record rich_world {
    runs = apply_all meanwhile (create_run 1 request draw api).1.world.runs;
  };
}

create_run_twice_example :
    let (reply, a') = create_run 1 request draw later in
    (a' ≡ later)
    × (◌≡◌ {A = ℕ} 7 7
        → (row : Run) × (get_by_idempotency_key 1 40 later.world.runs ≡ some (8, row))
          × (reply ≡ replied (build_receipt 8 row)))
    × (◌≢◌ {A = ℕ} 7 7 → reply ≡ http_error 409)
create_run_twice_example =
    create_run_twice 1 request request draw draw (pos 6000) basic api later meanwhile admitted refl
      (λ r. record { tenant = refl; key = refl; hash = refl }, tt) refl refl

abbrev receipt : Receipt
receipt = build_receipt 8 (queued_row 1 request draw (pos 6000))

got_receipt : (create_run 1 request draw api).0 ≡ replied receipt
unfolding create_run decimal_to_usd_micros enforce get_active_plan latest check_rate_limit submit
    create new_run reserve_budget get_by_idempotency_key validate_usd_micros get_by_id reserve
    update_with_version_check
got_receipt = refl

create_run_completes_example :
    let (verdict, w) =
      process_message job stub_executor true (create_run 1 request draw api).1.world in
    (verdict ≡ delete_message) × IsCompleted job (pos 120) 5 w
create_run_completes_example =
    create_run_completes 1 request draw (pos 6000) basic api job stub_executor (pos 120) 5 receipt
      admitted got_receipt refl refl refl (omega arith)

abbrev stranger_api : Api
stranger_api = record api { world = world }

get_run_hides_example :
    ((get_run 8 2 50 stranger_api).0 ≡ (get_run 8 2 50 (with_runs [] stranger_api)).0)
    × ((get_run 8 2 50 stranger_api).1.world ≡ world)
get_run_hides_example =
    get_run_hides 8 2 50 running stranger_api [] refl (λ h. omega (arith, h)) refl

late_roll_back_example :
    IsUnpaid job held_run ready_world (roll_back 1 draw "timeout" (begin_run job ready_world).1)
late_roll_back_example =
    late_roll_back job stub_executor (pos 120) 5 ready held_run ready_world draw "timeout"
      ready-IsReady store-IsValid refl refl
