-- ===== src/Reconcile/Tests.antt =====
-- Crashed workers on the example world.
use decisionproof.Base.{
  ◌∷◌, pos, ◌+ℤ◌, ◌-ℤ◌, ◌≡◌, refl, ap, inl, Bool, true, false, some, none, [], arith, nat_eq,
  pair_eq,
}
use decisionproof.Budget.{Receipt, get_settlement_receipt, settle}
use decisionproof.Runs.{Run, Status, Stage, get_by_id, update_with_version_check}
use decisionproof.World.{World, ok}
use decisionproof.Finalize.{claim_finalize, settle_phase}
use decisionproof.Finalize.Claim.{claimed_world, claim-won}
use decisionproof.Finalize.Commit.{settled_world, settle_phase-ok}
use decisionproof.Reconcile.{
  Storage, check_s3_result_exists, receipt_status, reconcile_stuck_run, roll_back_stuck_run,
  settle_stuck, commit_stuck, reconcile_stuck_claimed_run,
}
use decisionproof.Reconcile.Outcome.{IsRecovered}
use decisionproof.Reconcile.Once.{reconcile_recovers, reconcile_once}
use decisionproof.Reconcile.Stale.{reconcile_spares_committed}
use decisionproof.Runs.History.{Write, write_all}
use decisionproof.Reconcile.Crash.{IsEnded, crash_after_settle, crash_after_claim}
use decisionproof.Examples.{waiting, running, held_run, store, store-IsValid, world}

-- An object store that has nothing.
abbrev empty_storage : Storage
empty_storage = record {
  object_exists = λ bucket key. some false;
  actual_cost = λ bucket key. none;
}

abbrev claimed_run_world : World
claimed_run_world = claimed_world 8 1 [] 500 50 world running

abbrev claimed_run : Run
claimed_run = record running {
  finalize_stage = Stage.claimed;
  finalize_token = some 500;
  finalize_claimed_at = some 50;
  version = 4;
  updated_at = 50;
}

claimed : claim_finalize 8 1 [] 500 50 world ≡ (ok (500, 4), claimed_run_world)
claimed =
    claim-won 8 1 [] 500 50 world running refl
      (record { owned = refl; running = refl; funded = refl; unclaimed = refl; allowed = refl })

abbrev settled_run_world : World
settled_run_world = settled_world 8 1 (pos 120) 51 claimed_run_world

settles : settle_phase 8 1 (pos 120) 51 claimed_run_world ≡ (ok (pos 120), settled_run_world)
unfolding get_by_id settle ◌+ℤ◌ ◌-ℤ◌
settles = settle_phase-ok 8 1 (pos 120) 51 claimed_run_world (record {
  run = claimed_run;
  reservation = held_run;
  balance = pos 880;
  found = refl;
  within = refl;
  held = refl;
  replied = refl;
})

crash_after_settle_example :
    let (won, w3) = reconcile_stuck_claimed_run empty_storage 8 claimed_run 400 settled_run_world in
    (won ≡ true)
    × IsEnded 8 (receipt_status (check_s3_result_exists empty_storage claimed_run)) (pos 120) w3
    × (w3.redis ≡ settled_run_world.redis)
crash_after_settle_example =
    crash_after_settle empty_storage 8 1 [] 500 50 51 400 (pos 120) (pos 120) (500, 4) world
      claimed_run_world settled_run_world claimed_run store-IsValid (λ v e. ground (arith, e))
      claimed settles refl

-- The run is FAILED for its minimum fee.
failed_for_fee :
    IsEnded 8 Status.failed
      (pos 20)
      (reconcile_stuck_claimed_run empty_storage 8 claimed_run 400 claimed_run_world).1
unfolding check_s3_result_exists
failed_for_fee =
    (crash_after_claim empty_storage 8 1 [] 500 50 400 (500, 4) world claimed_run_world claimed_run
        held_run store-IsValid refl claimed refl).2
      refl

abbrev after : World
after = (reconcile_stuck_claimed_run empty_storage 8 claimed_run 400 claimed_run_world).1

recovered :
    reconcile_stuck_claimed_run empty_storage 8 claimed_run 400 claimed_run_world ≡ (true, after)
recovered =
    ap (λ (b : Bool). (b, after))
      (crash_after_claim empty_storage 8 1 [] 500 50 400 (500, 4) world claimed_run_world
        claimed_run held_run store-IsValid refl claimed refl).0

reconcile_recovers_example : IsRecovered 8 claimed_run claimed_run_world after
reconcile_recovers_example =
    reconcile_recovers empty_storage 8 claimed_run 400 claimed_run_world after store-IsValid
      recovered

-- The row that is there after it, and the receipt of its settlement.
abbrev recovery : IsRecovered 8 claimed_run claimed_run_world after
recovery =
    reconcile_recovers empty_storage 8 claimed_run 400 claimed_run_world after store-IsValid
      recovered

paid : (v : Receipt) × (get_settlement_receipt 1 8 after.redis ≡ some v)
unfolding reconcile_stuck_claimed_run reconcile_stuck_run roll_back_stuck_run settle_stuck
    commit_stuck settle update_with_version_check check_s3_result_exists get_by_id
paid = (_, refl)

reconcile_once_example :
    reconcile_stuck_claimed_run empty_storage 8 recovery.row 460 after ≡ (false, after)
reconcile_once_example =
    reconcile_once empty_storage empty_storage 8 claimed_run recovery.row true 400 460
      claimed_run_world after store-IsValid recovered recovery.at (λ e. paid)

-- The run is scanned, then committed by its worker.
abbrev commit_write : Write
commit_write = record {
  run_id = 8;
  tenant = 1;
  expected = 4;
  updates = λ r. record r { status = Status.completed; finalize_stage = Stage.committed };
  conditions = [];
  now = 60;
}

abbrev committed_run : Run
committed_run = record claimed_run {
  status = Status.completed;
  finalize_stage = Stage.committed;
  version = 5;
  updated_at = 60;
}

abbrev committed_world : World
committed_world = record claimed_run_world {
  runs = (8, committed_run) ∷ (9, waiting) ∷ [];
  redis = store;
}

written : committed_world.runs ≡ write_all (commit_write ∷ []) claimed_run_world.runs
unfolding update_with_version_check
written = refl

reconcile_spares_committed_example :
    (reconcile_stuck_claimed_run empty_storage 8 committed_run 400 committed_world).0 ≡ false
reconcile_spares_committed_example =
    (reconcile_spares_committed empty_storage 8 400 claimed_run committed_run committed_run true
      claimed_run_world.runs (commit_write ∷ []) committed_world store-IsValid refl refl written
      refl refl refl (λ e. inl (held_run, refl))).0

-- The same, with nothing in Redis.
abbrev unproved_world : World
unproved_world = record committed_world { redis = record store { reserves = [] } }
