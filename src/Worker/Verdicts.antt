-- ===== src/Worker/Verdicts.antt =====
-- When the worker deletes a message.
use decisionproof.Base.{
  ℕ, ℤ, ◌≡◌, ◌≢◌, refl, sym, ◌∙◌, ap, ◌⊎◌, inl, inr, ◌↔◌, true, ◌||◌, Option, none, some, arith,
  insert, lookup-insert_self, nat_eq, Bool-cases,
}
use decisionproof.Budget.{clamp_charge}
use decisionproof.Runs.{Run, Status, Stage, bump, is_status, is_stage, get_by_id}
use decisionproof.Runs.Locking.{get_by_id-found}
use decisionproof.World.{World, Result, ok, err}
use decisionproof.Finalize.{
  FinalizeError, claim_error, finalize_error, commit_updates, commit_finalize, finalize_failure,
}
use decisionproof.Finalize.Commit.{
  settle_phase-inv, settle_phase-ok, settled_world, commit_finalize-after, commit_finalize-stops,
  commit_phase-inv, IsClaimed, committed_world,
}
use decisionproof.Finalize.Once.{final_row, finalize_returns}
use decisionproof.Finalize.Finalizers.{failure}
use decisionproof.Worker.{
  Verdict, delete_message, keep_message, raised, Job, is_finalized, loser_verdict, after_loss,
  by_failure, fail_run,
}

-- A run that no worker has to come back to: missing, COMMITTED, or neither QUEUED nor PROCESSING.
abbrev pub IsOver : Option Run → Type 0
IsOver none = Unit
IsOver (some run) =
    (run.finalize_stage ≡ Stage.committed)
    ⊎ ((run.status ≢ Status.queued) × (run.status ≢ Status.processing))

committed_iff : (s : Stage) → (is_stage s Stage.committed ≡ true) ↔ (s ≡ Stage.committed)
committed_iff s = ground arith

terminal :
    (s : Status)
    → is_status s Status.completed
        || (is_status s Status.failed
            || (is_status s Status.timed_out || is_status s Status.cancelled))
      ≡ true
    → (s ≢ Status.queued) × (s ≢ Status.processing)
terminal Status.queued h = cc
terminal Status.processing h = cc
terminal Status.completed h = (λ e. cc, λ e. cc)
terminal Status.failed h = (λ e. cc, λ e. cc)
terminal Status.timed_out h = (λ e. cc, λ e. cc)
terminal Status.cancelled h = (λ e. cc, λ e. cc)
terminal Status.other h = cc

finalized-IsOver : (run : Run) → is_finalized run ≡ true → IsOver (some run)
finalized-IsOver run h = elim (Bool-cases (is_stage run.finalize_stage Stage.committed)) [
  | inl e ↦ inl ((committed_iff run.finalize_stage).0 e)
  | inr e ↦ inr (terminal run.status (rw e at h))
]

loser_verdict-IsOver : (o : Option Run) → loser_verdict o ≡ delete_message → IsOver o
loser_verdict-IsOver none h = tt
loser_verdict-IsOver (some run) h = elim (Bool-cases (is_finalized run)) [
  | inl e ↦ finalized-IsOver run e
  | inr e ↦ absurd (kept (sym (rw e refl) ∙ h))
]
  where
    kept : keep_message ≡ delete_message → ⊥
    kept p = cc

module _ (job : Job) where
  abbrev pub final : World → Option Run
  final w = get_by_id job.run_id job.tenant_id w.runs

  pub same_world :
      {v : Verdict} {u w' : World} → ◌≡◌ {A = Verdict × World} (v, u) (delete_message, w') → u ≡ w'
  same_world p = ap (λ (x : Verdict × World). x.1) p

  pub same_verdict :
      {v : Verdict} {u w' : World}
      → ◌≡◌ {A = Verdict × World} (v, u) (delete_message, w')
      → v ≡ delete_message
  same_verdict p = ap (λ (x : Verdict × World). x.0) p

  pub after_loss-IsOver :
      (w w' : World) → after_loss job w ≡ (delete_message, w') → IsOver (final w')
  after_loss-IsOver w w' h = rw (← same_world h) (loser_verdict-IsOver (final w) (same_verdict h))

  -- What a commit that returned has left.
  pub commit_finalize-IsOver :
      (token version now : ℕ) (charge : ℤ) (extra : Run → Run) (w w' : World)
      → ((r : Run) → (extra r).tenant_id ≡ r.tenant_id)
      → ((r : Run) → (extra r).finalize_stage ≡ r.finalize_stage)
      → commit_finalize job.run_id job.tenant_id token version charge Status.completed extra now w
        ≡ (ok tt, w')
      → IsOver (final w')
  commit_finalize-IsOver token version now charge extra w w' owner stage h =
      elim (settle_phase-inv job.run_id job.tenant_id charge now w) [
        | inr failed ↦ absurd (
            clash (
              sym (
                commit_finalize-stops job.run_id job.tenant_id token version charge Status.completed
                  extra now w failed)
              ∙ h))
        | inl s ↦
            let c = clamp_charge charge s.reservation.reserved_usd_micros in
            let w1 = settled_world job.run_id job.tenant_id charge now w in
            let h' =
              sym (
                commit_finalize-after job.run_id job.tenant_id token version charge Status.completed
                  extra now w c w1 (settle_phase-ok job.run_id job.tenant_id charge now w s))
              ∙ h in
            elim (commit_phase-inv job.run_id job.tenant_id token version c Status.completed extra
              now w1) [
                | inr lost ↦ absurd (clash (sym lost ∙ h'))
                | inl (run, m, won) ↦ ended c run m (sym won ∙ h')
              ]
      ]
    where
      clash :
          {e : FinalizeError} {u v : World}
          → ◌≡◌ {A = Result FinalizeError Unit × World} (err e, u) (ok tt, v)
          → ⊥
      clash p = cc (ap (λ (y : Result FinalizeError Unit × World). y.0) p)

      ended :
          (c : ℤ) (run : Run)
          → IsClaimed job.run_id job.tenant_id token version c Status.completed extra now
              (settled_world job.run_id job.tenant_id charge now w)
              run
          → ◌≡◌ {A = Result FinalizeError Unit × World}
              (
                ok tt,
                committed_world job.run_id job.tenant_id token version c Status.completed extra now
                    (settled_world job.run_id job.tenant_id charge now w)
                    run,
              )
              (ok tt, w')
          → IsOver (final w')
      ended c run m p =
          let row = bump version now (commit_updates Status.completed c now extra) run in
          let read =
            get_by_id-found job.run_id job.tenant_id row (insert job.run_id row w.runs)
              (lookup-insert_self job.run_id row w.runs) (owner _ ∙ m.1) in
          rw (← ap (λ (y : Result FinalizeError Unit × World). y.1) p, read)
            (rw read (inl (stage _)))

  pub fail_run-IsOver :
      (run : Run) (w w' : World) → fail_run job run w ≡ (delete_message, w') → IsOver (final w')
  unfolding fail_run
  fail_run-IsOver run w w' h =
      go
        (finalize_failure job.run_id job.tenant_id job.lease_token run.minimum_fee_usd_micros
          "PACK_EXECUTION_FAILED" job.error_detail job.failure_token job.finalized_at w)
        refl h
    where
      go :
          (x : Result FinalizeError Unit × World)
          → finalize_failure job.run_id job.tenant_id job.lease_token run.minimum_fee_usd_micros
              "PACK_EXECUTION_FAILED" job.error_detail job.failure_token job.finalized_at w
            ≡ x
          → by_failure job x ≡ (delete_message, w')
          → IsOver (final w')
      go (err claim_error, w1) e h = after_loss-IsOver w1 w' h
      go (err finalize_error, w1) e h = absurd (never (same_verdict h))
        where
          never : raised ≡ delete_message → ⊥
          never p = cc
      go (ok tt, w1) e h =
          let f =
            failure job.lease_token run.minimum_fee_usd_micros "PACK_EXECUTION_FAILED"
              job.error_detail in
          let (row, v, at, c, held, win) =
            finalize_returns f job.run_id job.tenant_id job.failure_token job.finalized_at w w1 e in
          rw
            (
              ← same_world h,
              get_by_id-found job.run_id job.tenant_id
                  (final_row f job.run_id job.tenant_id job.failure_token job.finalized_at w
                    win.cost row)
                  w1.runs win.row c.owned,
            )
            (inl refl)
