-- ===== src/Worker/Completes.antt =====
-- A run that goes well.
use decisionproof.Base.{
  ℕ, ◌+◌, ℤ, ◌≤ℤ◌, ◌≡◌, refl, ◌∙◌, ap, true, Option, some, List, [], ◌∷◌, length, arith, lookup,
  insert, lookup-insert_self, nat_eq, eqb_option_iff, pair_eq,
}
use decisionproof.Budget.{Reservation, get_reservation, clamp_charge}
use decisionproof.Runs.{Run, Status, MoneyState, Stage, Condition, lease_token_is, bump}
use decisionproof.Runs.Locking.{get_by_id-found}
use decisionproof.World.{World, ok}
use decisionproof.Finalize.{
  claim_finalize, commit_finalize, do_2phase_finalize, finalize_success, result_updates,
}
use decisionproof.Finalize.Claim.{IsClaimable, claimed_world, claim-won}
use decisionproof.Finalize.Once.{final_row, finalize_returns, finalize_succeeds}
use decisionproof.Finalize.Finalizers.{Finalizer, success, run_finalizer}
use decisionproof.Worker.{
  delete_message, Job, start_updates, started, by_status, status_verdict, begin_run,
  send_heartbeats, process_message,
}
use decisionproof.Worker.Heartbeat.{IsExtended, extended_row, heartbeats_extend}
use decisionproof.Worker.Deletes.{take_run-started}

-- A QUEUED run of the job's tenant, with its money reserved, which executes to a cost and a hash.
pub record IsReady (job : Job) (execute : Run → Option (ℤ × ℕ)) (cost : ℤ) (sha256 : ℕ) (run : Run)
    (v : Reservation) (w : World) : Type 0 where
  pub at : lookup job.run_id w.runs ≡ some run
  pub owned : run.tenant_id ≡ job.tenant_id
  pub queued : run.status ≡ Status.queued
  pub funded : run.money_state ≡ MoneyState.reserved
  pub unclaimed : run.finalize_stage ≡ Stage.null
  pub held : get_reservation job.tenant_id job.run_id w.redis ≡ some v
  pub executes : execute run ≡ some (cost, sha256)
  pub within : cost ≤ℤ run.reservation_max_cost_usd_micros

-- What the customer gets: the run COMPLETED, with its result and its cost.
pub record IsCompleted (job : Job) (cost : ℤ) (sha256 : ℕ) (w' : World) : Type 0 where
  pub row : Run
  pub at : lookup job.run_id w'.runs ≡ some row
  pub completed : row.status ≡ Status.completed
  pub paid : row.money_state ≡ MoneyState.settled
  pub committed : row.finalize_stage ≡ Stage.committed
  pub cost_written : row.actual_cost_usd_micros ≡ some cost
  pub bucket : row.result_bucket ≡ some job.result_bucket
  pub key : row.result_key ≡ some job.s3_key
  pub sha : row.result_sha256 ≡ some sha256

module _ (job : Job) (execute : Run → Option (ℤ × ℕ)) (cost : ℤ) (sha256 : ℕ) (run : Run)
    (v : Reservation) (w : World) (p : IsReady job execute cost sha256 run v w) where
  abbrev pub started_row : Run
  started_row = bump run.version job.started_at (start_updates job) run

  abbrev pub started_world : World
  started_world = record w { runs = insert job.run_id started_row w.runs }

  pub begin_run-started : begin_run job w ≡ (started run, started_world)
  unfolding begin_run
  begin_run-started = rw (get_by_id-found job.run_id job.tenant_id run w.runs p.at p.owned) (
      ap (λ (s : Status). by_status job run (status_verdict s) w) p.queued
      ∙ take_run-started job run w p.at p.owned p.queued)

  abbrev beaten_world : World
  beaten_world = (send_heartbeats job job.ticks (started_row.version, started_world)).1

  extended :
      IsExtended job
        (length job.ticks)
        started_row
        started_world
        (send_heartbeats job job.ticks (started_row.version, started_world))
  extended =
      heartbeats_extend job job.ticks started_row started_world
        (lookup-insert_self job.run_id started_row w.runs)
        (record { owned = p.owned; running = refl; leased = refl })

  abbrev worker : Finalizer
  worker = success job.lease_token cost job.result_bucket job.s3_key sha256

  abbrev lease : List Condition
  lease = lease_token_is (some job.lease_token) ∷ []

  abbrev beaten_row : Run
  beaten_row = extended_row (length job.ticks) extended.expires extended.updated started_row

  claimable : IsClaimable job.tenant_id lease beaten_row
  claimable = record {
    owned = p.owned;
    running = refl;
    funded = p.funded;
    unclaimed = p.unclaimed;
    allowed = rw ((eqb_option_iff (some job.lease_token) (some job.lease_token)).1 refl) refl;
  }

  claimed :
      claim_finalize job.run_id job.tenant_id lease job.finalize_token job.finalized_at beaten_world
      ≡ (
        ok (job.finalize_token, beaten_row.version + 1),
        claimed_world job.run_id job.tenant_id lease job.finalize_token job.finalized_at
            beaten_world beaten_row,
      )
  claimed =
      claim-won job.run_id job.tenant_id lease job.finalize_token job.finalized_at beaten_world
        beaten_row extended.at claimable

  finished :
      (w' : World) × (run_finalizer worker job.run_id job.tenant_id job.finalize_token
          job.finalized_at beaten_world
        ≡ (ok tt, w'))
  finished =
      finalize_succeeds worker job.run_id job.tenant_id job.finalize_token job.finalized_at
        beaten_world beaten_row v extended.at claimable (rw extended.money p.held) p.within

  committed :
      commit_finalize job.run_id job.tenant_id job.finalize_token
        (beaten_row.version + 1)
        cost
        Status.completed
        (result_updates job.result_bucket job.s3_key sha256)
        job.finalized_at
        (claimed_world job.run_id job.tenant_id lease job.finalize_token job.finalized_at
          beaten_world beaten_row)
      ≡ (ok tt, finished.0)
  unfolding finalize_success do_2phase_finalize
  committed = rw claimed at finished.1

  processed : process_message job execute true w ≡ (delete_message, finished.0)
  unfolding process_message
  processed = rw (begin_run-started, p.executes, claimed, committed)

  completed : IsCompleted job (clamp_charge cost v.reserved_usd_micros) sha256 finished.0
  completed =
      let (row, v', at, c, held, win) =
        finalize_returns worker job.run_id job.tenant_id job.finalize_token job.finalized_at
          beaten_world finished.0 finished.1 in
      let same : v' ≡ v = ground (arith, held, p.held, extended.money) in
      record {
        row =
            final_row worker job.run_id job.tenant_id job.finalize_token job.finalized_at
              beaten_world win.cost row;
        at = win.row;
        completed = refl;
        paid = refl;
        committed = refl;
        cost_written = ap some (
            win.charged_cost
            ∙ ap (λ (u : Reservation). clamp_charge cost u.reserved_usd_micros) same);
        bucket = refl;
        key = refl;
        sha = refl;
      }

-- A run that is ready is completed. If it is QUEUED and funded, executes to a cost within its maximum,
-- and the upload goes through, then after any number of heartbeats the handler has the message
-- deleted, and the run is COMPLETED, SETTLED and COMMITTED, with the place and the hash of its result,
-- for its cost as far as the reservation goes. No one else writes in between.
pub process_message_completes :
    (job : Job) (execute : Run → Option (ℤ × ℕ)) (cost : ℤ) (sha256 : ℕ) (run : Run)
    (v : Reservation) (w : World)
    → IsReady job execute cost sha256 run v w
    → ((process_message job execute true w).0 ≡ delete_message)
      × IsCompleted job
          (clamp_charge cost v.reserved_usd_micros)
          sha256
          (process_message job execute true w).1
process_message_completes job execute cost sha256 run v w p =
    rw (processed job execute cost sha256 run v w p)
      (refl, completed job execute cost sha256 run v w p)
