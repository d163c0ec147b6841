-- ===== src/Reconcile/Reread.antt =====
-- A COMMITTED row that the session has read again.
use decisionproof.Base.{
  ℤ, ◌&&◌, eqb_option, insert, [], ◌≡◌, refl, ◌∙◌, ap, ◌⊎◌, inl, inr, true, false, none, some,
  arith, eqb, eqb_iff, Bool-cases, Option-cases, Option, ℕ, lookup, nat_eq, pair_eq,
}
use decisionproof.Budget.{
  Redis, Reservation, Receipt, get_reservation, get_settlement_receipt, clamp_charge,
}
use decisionproof.Runs.{Run, Runs, Status, Stage, is_stage, bump}
use decisionproof.Runs.Locking.{update-Matched}
use decisionproof.World.{World}
use decisionproof.Reconcile.{
  Storage, check_s3_result_exists, receipt_error, commit_receipt, commit_stuck, audit_updates,
  mark_for_audit, reconcile_stuck_claimed_run,
}
use decisionproof.Reconcile.Recover.{
  IsStuck, commit_stuck-inv, stuck_status, stuck_charge, settled_redis, stuck_error, reconcile-held,
  reconcile-proved, reconcile-unproved,
}

-- Redis has the reservation of the run, or the receipt of its settlement.
abbrev pub HasProof : ℕ → ℕ → Redis → Type 0
HasProof tenant run_id r =
    ((v : Reservation) × (get_reservation tenant run_id r ≡ some v))
    ⊎ ((v : Receipt) × (get_settlement_receipt tenant run_id r ≡ some v))

committed-not-stuck :
    (run_id : ℕ) (run row : Run) (runs : Runs)
    → lookup run_id runs ≡ some run
    → run.finalize_stage ≡ Stage.committed
    → IsStuck run_id run runs row
    → ⊥
committed-not-stuck run_id run row runs at done (at', _, _, held) =
    let same : row ≡ run = ground (arith, at, at') in
    not_claimed row.finalize_stage row.finalize_token run.finalize_token
      (ap (λ (r : Run). r.finalize_stage) same ∙ done) held
  where
    not_claimed :
        (stage : Stage) (token expected : Option ℕ)
        → stage ≡ Stage.committed
        → eqb_option token expected && (is_stage stage Stage.claimed && true) ≡ true
        → ⊥
    not_claimed stage token expected e h = ground (arith, e, h)

module _ (s3 : Storage) (run_id now : ℕ) (run : Run) (w : World)
    (at : lookup run_id w.runs ≡ some run) (done : run.finalize_stage ≡ Stage.committed) where
  -- With a reservation or a receipt, a COMMITTED row is left alone.
  pub reread-spared :
      HasProof run.tenant_id run_id w.redis
      → (r : Redis) × (reconcile_stuck_claimed_run s3 run_id run now w
          ≡ (false, record w { redis = r }))
        × (get_reservation run.tenant_id run_id w.redis ≡ none → r ≡ w.redis)
  unfolding reconcile_stuck_claimed_run commit_receipt
  reread-spared proof = elim (Option-cases (get_reservation run.tenant_id run_id w.redis)) [
    | inr (v, held) ↦
        let w1 : World = record w { redis = settled_redis s3 run_id run now w } in
        (
          settled_redis s3 run_id run now w,
          reconcile-held s3 run_id run now w v held
              ∙ lost (stuck_status s3 run_id run now w)
                  (clamp_charge (stuck_charge s3 run_id run now w) v.reserved_usd_micros)
                  (stuck_error s3 run_id run now w (check_s3_result_exists s3 run)) w1 at,
          λ gone. cc (gone, held),
        )
    | inl gone ↦ (w.redis, by_receipt gone proof, λ e. refl)
  ]
    where
      lost :
          (status : Status) (charge : ℤ) (extra : Run → Run) (w1 : World)
          → lookup run_id w1.runs ≡ some run
          → commit_stuck run_id run status charge extra now w1 ≡ (false, w1)
      lost status charge extra w1 at' =
          elim (commit_stuck-inv run_id run status charge extra now w1) [
            | inr missed ↦ missed
            | inl (row, m, _) ↦ absurd (committed-not-stuck run_id run row w1.runs at' done m)
          ]

      by_receipt :
          get_reservation run.tenant_id run_id w.redis ≡ none
          → HasProof run.tenant_id run_id w.redis
          → reconcile_stuck_claimed_run s3 run_id run now w ≡ (false, w)
      by_receipt gone (inl (v, held)) = cc (gone, held)
      by_receipt gone (inr (receipt, paid)) =
          elim (Bool-cases (eqb receipt.tenant_id run.tenant_id)) [
            | inr foreign ↦ rw (gone, paid, foreign)
            | inl own ↦
                reconcile-proved s3 run_id run now w receipt gone paid
                  ((eqb_iff receipt.tenant_id run.tenant_id).0 own)
                ∙ lost (stuck_status s3 run_id run now w) receipt.charged_usd_micros
                    (receipt_error (check_s3_result_exists s3 run)) w at
          ]

-- With neither, the row that was read is overwritten by the audit, whatever its stage.
pub reread-overwritten :
    (s3 : Storage) (run_id now : ℕ) (run : Run) (w : World)
    → lookup run_id w.runs ≡ some run
    → get_reservation run.tenant_id run_id w.redis ≡ none
    → get_settlement_receipt run.tenant_id run_id w.redis ≡ none
    → reconcile_stuck_claimed_run s3 run_id run now w ≡ (
      true,
      record w { runs = insert run_id (bump run.version now (audit_updates now) run) w.runs },
    )
unfolding mark_for_audit
reread-overwritten s3 run_id now run w at gone no_proof =
    reconcile-unproved s3 run_id run now w gone no_proof
    ∙ rw
        (update-Matched run_id run.tenant_id run.version (audit_updates now) [] now w.runs run
          (at, refl, refl, refl))
        refl
