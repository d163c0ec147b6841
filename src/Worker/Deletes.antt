-- ===== src/Worker/Deletes.antt =====
-- A deleted message belongs to a run that is over.
use decisionproof.Base.{
  ℕ, ◌+◌, ℤ, ◌≡◌, ◌≢◌, refl, sym, ◌∙◌, ap, inl, inr, Bool, true, false, Option, none, some, [], ◌∷◌,
  arith, lookup, insert, nat_eq, Option-cases,
}
use decisionproof.Runs.{Run, Status, status_is, lease_token_is, bump}
use decisionproof.Runs.Locking.{update-Matched, get_by_id-inv}
use decisionproof.World.{World, Result, ok, err}
use decisionproof.Finalize.{
  FinalizeError, claim_error, finalize_error, claim_finalize, commit_finalize, result_updates,
}
use decisionproof.Worker.{
  Verdict, delete_message, Job, start_updates, status_verdict, Begun, stopped, started, take_run,
  by_status, begin_run, by_commit, by_claim, by_execution, by_start, process_message,
  send_heartbeats,
}
use decisionproof.Worker.Verdicts.{
  IsOver, final, same_world, same_verdict, after_loss-IsOver, commit_finalize-IsOver,
  fail_run-IsOver,
}

-- The transition of a QUEUED run succeeds.
pub take_run-started :
    (job : Job) (run : Run) (w : World)
    → lookup job.run_id w.runs ≡ some run
    → run.tenant_id ≡ job.tenant_id
    → run.status ≡ Status.queued
    → take_run job run w ≡ (
      started run,
      record w {
        runs = insert job.run_id (bump run.version job.started_at (start_updates job) run) w.runs;
      },
    )
take_run-started job run w at owned e = rw (
    update-Matched job.run_id job.tenant_id run.version (start_updates job)
      (status_is Status.queued ∷ []) job.started_at w.runs run (at, owned, refl, ground (arith, e)))

module _ (job : Job) where
  by_claim-IsOver :
      (run : Run) (cost : ℤ) (sha256 : ℕ) (upload : Bool) (x : Result FinalizeError (ℕ × ℕ) × World)
      (w' : World)
      → by_claim job run (cost, sha256) upload x ≡ (delete_message, w')
      → IsOver (final job w')
  by_claim-IsOver run cost sha256 upload (err claim_error, w) w' h = after_loss-IsOver job w w' h
  by_claim-IsOver run cost sha256 upload (err finalize_error, w) w' h =
      fail_run-IsOver job run w w' h
  by_claim-IsOver run cost sha256 false (ok claim, w) w' h = fail_run-IsOver job run w w' h
  by_claim-IsOver run cost sha256 true (ok claim, w) w' h =
      go
        (commit_finalize job.run_id job.tenant_id claim.0 claim.1 cost Status.completed
          (result_updates job.result_bucket job.s3_key sha256) job.finalized_at w)
        refl h
    where
      go :
          (x : Result FinalizeError Unit × World)
          → commit_finalize job.run_id job.tenant_id claim.0 claim.1 cost Status.completed
              (result_updates job.result_bucket job.s3_key sha256)
              job.finalized_at
              w
            ≡ x
          → by_commit job run x ≡ (delete_message, w')
          → IsOver (final job w')
      go (err e, w1) e' h' = fail_run-IsOver job run w1 w' h'
      go (ok tt, w1) e' h' = rw (← same_world job h') (
          commit_finalize-IsOver job claim.0 claim.1 job.finalized_at cost
            (result_updates job.result_bucket job.s3_key sha256) w w1 (λ r. refl) (λ r. refl) e')

  by_execution-IsOver :
      (run : Run) (result : Option (ℤ × ℕ)) (upload : Bool) (w w' : World)
      → by_execution job run result upload w ≡ (delete_message, w')
      → IsOver (final job w')
  by_execution-IsOver run none upload w w' h = fail_run-IsOver job run w w' h
  by_execution-IsOver run (some (cost, sha256)) upload w w' h =
      by_claim-IsOver run cost sha256 upload
        (claim_finalize job.run_id job.tenant_id (lease_token_is (some job.lease_token) ∷ [])
          job.finalize_token job.finalized_at w)
        w' h

  -- A message that the start deletes.
  begin_run-IsOver :
      (w w1 : World) → begin_run job w ≡ (stopped delete_message, w1) → IsOver (final job w1)
  unfolding begin_run
  begin_run-IsOver w w1 h = elim (Option-cases (final job w)) [
    | inl missing ↦ rw (← ap (λ (y : Begun × World). y.1) (rw missing at h), missing) tt
    | inr (run, found) ↦ by_row_status run run.status found refl (rw found at h)
  ]
    where
      deleted_row :
          (run : Run) (s : Status)
          → final job w ≡ some run
          → run.status ≡ s
          → s ≢ Status.queued
          → s ≢ Status.processing
          → ◌≡◌ {A = Begun × World} (stopped delete_message, w) (stopped delete_message, w1)
          → IsOver (final job w1)
      deleted_row run s found e p q h' =
          rw (← ap (λ (y : Begun × World). y.1) h', found)
            (inr (λ e'. p (sym e ∙ e'), λ e'. q (sym e ∙ e')))

      go_on :
          {u v : World} {run : Run}
          → ◌≡◌ {A = Begun × World} (started run, u) (stopped delete_message, v)
          → ⊥
      go_on p = cc (ap (λ (y : Begun × World). y.0) p)

      by_row_status :
          (run : Run) (s : Status)
          → final job w ≡ some run
          → run.status ≡ s
          → by_status job run (status_verdict s) w ≡ (stopped delete_message, w1)
          → IsOver (final job w1)
      by_row_status run Status.queued found e h' =
          let (at, owned) = get_by_id-inv job.run_id job.tenant_id run w.runs found in
          absurd (go_on (sym (take_run-started job run w at owned e) ∙ h'))
      by_row_status run Status.processing found e h' = cc (ap (λ (y : Begun × World). y.0) h')
      by_row_status run Status.completed found e h' =
          deleted_row run Status.completed found e (λ p. cc) (λ p. cc) h'
      by_row_status run Status.failed found e h' =
          deleted_row run Status.failed found e (λ p. cc) (λ p. cc) h'
      by_row_status run Status.timed_out found e h' =
          deleted_row run Status.timed_out found e (λ p. cc) (λ p. cc) h'
      by_row_status run Status.cancelled found e h' =
          deleted_row run Status.cancelled found e (λ p. cc) (λ p. cc) h'
      by_row_status run Status.other found e h' =
          deleted_row run Status.other found e (λ p. cc) (λ p. cc) h'

-- No message is lost. When the handler has a message deleted, its run needs no worker any more: it is
-- missing, or COMMITTED, or neither QUEUED nor PROCESSING; whatever the execution and the upload gave,
-- and wherever the handler stopped. No one else writes while the handler works, except its heartbeat.
pub deleted-IsOver :
    (job : Job) (execute : Run → Option (ℤ × ℕ)) (upload : Bool) (w w' : World)
    → process_message job execute upload w ≡ (delete_message, w')
    → IsOver (final job w')
unfolding process_message
deleted-IsOver job execute upload w w' h = go (begin_run job w) refl h
  where
    go :
        (x : Begun × World)
        → begin_run job w ≡ x
        → by_start job execute upload x ≡ (delete_message, w')
        → IsOver (final job w')
    go (started run, w1) e h' =
        by_execution-IsOver job run (execute run) upload
          (send_heartbeats job job.ticks (run.version + 1, w1)).1 w' h'
    go (stopped v, w1) e h' = rw (← same_world job h') (
        begin_run-IsOver job w w1 (e ∙ ap (λ (u : Verdict). (stopped u, w1)) (same_verdict job h')))
