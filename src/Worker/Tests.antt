-- ===== src/Worker/Tests.antt =====
-- One message, handled.
use decisionproof.Base.{
  ℕ, ℤ, pos, ◌≡◌, refl, ap, Option, some, [], ◌∷◌, arith, nat_eq, pair_eq, true,
}
use decisionproof.Runs.{Run}
use decisionproof.World.{World}
use decisionproof.Worker.{Verdict, delete_message, Job, process_message}
use decisionproof.Worker.Verdicts.{IsOver, final}
use decisionproof.Worker.Deletes.{deleted-IsOver}
use decisionproof.Worker.Completes.{IsReady, process_message_completes}
use decisionproof.Examples.{ready, ready_world, held_run}

abbrev pub job : Job
job = record {
  run_id = 8;
  tenant_id = 1;
  lease_token = 77;
  lease_ttl_sec = 120;
  finalize_token = 500;
  failure_token = 501;
  started_at = 10;
  ticks = 40 ∷ 70 ∷ [];
  finalized_at = 90;
  result_bucket = "results";
  s3_key = "dpp/1/8";
  error_detail = "";
}

abbrev pub stub_executor : Run → Option (ℤ × ℕ)
stub_executor run = some (pos 120, 5)

pub ready-IsReady : IsReady job stub_executor (pos 120) 5 ready held_run ready_world
ready-IsReady = record {
  at = refl;
  owned = refl;
  queued = refl;
  funded = refl;
  unclaimed = refl;
  held = refl;
  executes = refl;
  within = omega arith;
}

abbrev after : World
after = (process_message job stub_executor true ready_world).1

deleted : process_message job stub_executor true ready_world ≡ (delete_message, after)
deleted =
    ap (λ (v : Verdict). (v, after))
      (process_message_completes job stub_executor (pos 120) 5 ready held_run ready_world
        ready-IsReady).0

deleted-IsOver_example : IsOver (final job after)
deleted-IsOver_example = deleted-IsOver job stub_executor true ready_world after deleted
