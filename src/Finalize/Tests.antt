-- ===== src/Finalize/Tests.antt =====
-- A run finalized by its worker, and the theorems applied to it.
use decisionproof.Base.{ℕ, ℤ, pos, ◌+ℤ◌, ◌≡◌, refl, some, [], arith, lookup, nat_eq, pair_eq}
use decisionproof.Budget.Ledger.{total, share}
use decisionproof.Budget.Scripts.{IsValid}
use decisionproof.Runs.{Run, Status, get_by_id}
use decisionproof.World.{World, ok, err}
use decisionproof.Finalize.{
  FinalizeError, finalize_error, claim_finalize, settle_phase, commit_finalize,
}
use decisionproof.Finalize.Claim.{IsClaimable, claimed_world, claim-won}
use decisionproof.Finalize.Once.{finalize_succeeds}
use decisionproof.Finalize.Finalizers.{Finalizer, success, timeout, run_finalizer, conditions}
use decisionproof.Finalize.Race.{finalize_once, finalize_takes_cost}
use decisionproof.Examples.{running, held_run, store, store-IsValid, world}

abbrev worker : Finalizer
worker = success 77 (pos 120) "results" "dpp/1/8" 5

abbrev reaper : Finalizer
reaper = timeout (pos 20)

worker-IsClaimable : IsClaimable 1 (conditions worker) running
worker-IsClaimable = record {
  owned = refl;
  running = refl;
  funded = refl;
  unclaimed = refl;
  allowed = refl;
}

any-IsClaimable : IsClaimable 1 [] running
any-IsClaimable = record {
  owned = refl;
  running = refl;
  funded = refl;
  unclaimed = refl;
  allowed = refl;
}

abbrev finished : (w' : World) × (run_finalizer worker 8 1 500 50 world ≡ (ok tt, w'))
finished =
    finalize_succeeds worker 8 1 500 50 world running held_run refl worker-IsClaimable refl
      (omega arith)

finalize_once_example :
    (e : FinalizeError) × (run_finalizer reaper 8 1 501 130 finished.0 ≡ (err e, finished.0))
finalize_once_example = finalize_once worker reaper 8 1 1 500 501 50 130 world finished.0 finished.1

finalize_takes_cost_example :
    IsValid finished.0.redis
    × (cost : ℤ) × (row : Run) × (lookup 8 finished.0.runs ≡ some row)
    × (row.actual_cost_usd_micros ≡ some cost)
    × ((t : ℕ) → total t finished.0.redis +ℤ share t 1 cost ≡ total t store)
finalize_takes_cost_example =
    finalize_takes_cost worker 8 1 500 50 world finished.0 store-IsValid finished.1

abbrev claimed :
    claim_finalize 8 1 [] 500 50 world ≡ (ok (500, 4), claimed_world 8 1 [] 500 50 world running)
claimed = claim-won 8 1 [] 500 50 world running refl any-IsClaimable

-- A commit without a claim: the charge is above the maximum.
too_much :
    commit_finalize 8 1 500 4 (pos 301) Status.completed (λ r. r) 50 world
    ≡ (err finalize_error, world)
unfolding commit_finalize settle_phase get_by_id
too_much = refl
