-- ===== src/Reconcile/Recover.antt =====
-- One run reconciled: what Redis proves of it decides what happens.
use decisionproof.Base.{
  ℕ, ◌*◌, ℤ, ◌≡◌, ◌≢◌, refl, ◌⊎◌, inl, inr, Bool, true, false, none, some, arith, lookup, insert,
  lookup-insert, lookup-insert_self, nat_eq, if◌then◌else◌, eqb_iff, Bool-cases, Option-cases,
}
use decisionproof.Budget.{
  Redis, Reservation, Receipt, get_reservation, get_settlement_receipt, settle, clamp_charge,
}
use decisionproof.Budget.Receipts.{settle-inv}
use decisionproof.Runs.{Run, Runs, Status, bump, get_by_id}
use decisionproof.Runs.Locking.{Matched, update-Matched, update-inv}
use decisionproof.World.{World, record_usage}
use decisionproof.Finalize.{commit_updates, commit_conditions, error_updates}
use decisionproof.Reconcile.{
  Storage, check_s3_result_exists, roll_forward_charge, roll_back_charge, commit_stuck,
  settle_stuck, roll_forward_stuck_run, roll_back_stuck_run, reconcile_stuck_run, mark_for_audit,
  receipt_status, receipt_error, commit_receipt, reconcile_stuck_claimed_run,
}

-- The row that a commit of the reconcile loop would change.
abbrev pub IsStuck : ℕ → Run → Runs → Run → Type 0
IsStuck run_id run runs row =
    Matched run_id run.tenant_id run.version (commit_conditions run.finalize_token) runs row

module _ (run_id : ℕ) (run : Run) (final_status : Status) (charge : ℤ) (extra : Run → Run) (now : ℕ)
    (w : World) where
  abbrev pub committed_row : Run → Run
  committed_row row = bump run.version now (commit_updates final_status charge now extra) row

  abbrev pub committed_world : Run → World
  committed_world row =
      let runs = insert run_id (committed_row row) w.runs in
      record_usage (get_by_id run_id run.tenant_id runs) now (record w { runs = runs })

  pub commit_stuck-ok :
      (row : Run)
      → IsStuck run_id run w.runs row
      → commit_stuck run_id run final_status charge extra now w ≡ (true, committed_world row)
  unfolding commit_stuck
  commit_stuck-ok row m = rw (
      update-Matched run_id run.tenant_id run.version (commit_updates final_status charge now extra)
        (commit_conditions run.finalize_token) now w.runs row m)

  pub commit_stuck-inv :
      ((row : Run) × IsStuck run_id run w.runs row
        × (commit_stuck run_id run final_status charge extra now w ≡ (true, committed_world row)))
      ⊎ (commit_stuck run_id run final_status charge extra now w ≡ (false, w))
  unfolding commit_stuck
  commit_stuck-inv =
      elim (update-inv run_id run.tenant_id run.version
        (commit_updates final_status charge now extra) (commit_conditions run.finalize_token) now
        w.runs) [
          | inr lost ↦ inr (rw lost)
          | inl (row, m, won) ↦ inl (row, m, commit_stuck-ok row m)
        ]

  -- The usage is not part of the money, nor of the runs.
  pub committed-row :
      (row : Run) → lookup run_id (committed_world row).runs ≡ some (committed_row row)
  committed-row row =
      elim (Option-cases
        (get_by_id run_id run.tenant_id (insert run_id (committed_row row) w.runs))) [
          | inl e ↦ rw e (lookup-insert_self run_id (committed_row row) w.runs)
          | inr (r, e) ↦ rw e (lookup-insert_self run_id (committed_row row) w.runs)
        ]

  pub committed-redis : (row : Run) → (committed_world row).redis ≡ w.redis
  committed-redis row =
      elim (Option-cases
        (get_by_id run_id run.tenant_id (insert run_id (committed_row row) w.runs))) [
          | inl e ↦ rw e refl
          | inr (r, e) ↦ rw e refl
        ]

  pub committed-others :
      (row : Run) (other : ℕ)
      → other ≢ run_id
      → lookup other (committed_world row).runs ≡ lookup other w.runs
  committed-others row other apart =
      elim (Option-cases
        (get_by_id run_id run.tenant_id (insert run_id (committed_row row) w.runs))) [
          | inl e ↦
              rw e (ground (arith, apart, lookup-insert run_id other (committed_row row) w.runs))
          | inr (r, e) ↦
              rw e (ground (arith, apart, lookup-insert run_id other (committed_row row) w.runs))
        ]

-- With a reservation: settle, and commit with what Redis charged.
module _ (s3 : Storage) (run_id : ℕ) (run : Run) (now : ℕ) (w : World) where
  abbrev pub stuck_status : Status
  stuck_status = receipt_status (check_s3_result_exists s3 run)

  abbrev pub stuck_charge : ℤ
  stuck_charge =
      if check_s3_result_exists s3 run then roll_forward_charge s3 run else roll_back_charge run

  abbrev pub settled_redis : Redis
  settled_redis = (settle run.tenant_id run_id stuck_charge (now * 1000) w.redis).1

  abbrev pub stuck_error : Bool → Run → Run
  stuck_error true r = r
  stuck_error false r =
      error_updates "WORKER_CRASH_DURING_FINALIZE"
        "Worker crashed after claim but before S3 upload completed" r

  reconcile-settle :
      reconcile_stuck_run s3 run_id run now w
      ≡ settle_stuck run_id run stuck_status stuck_charge
          (stuck_error (check_s3_result_exists s3 run))
          now
          w
  unfolding reconcile_stuck_run roll_forward_stuck_run roll_back_stuck_run
  reconcile-settle = elim (Bool-cases (check_s3_result_exists s3 run)) [
    | inl there ↦ rw there refl
    | inr missing ↦ rw missing refl
  ]

  pub reconcile-held :
      (v : Reservation)
      → get_reservation run.tenant_id run_id w.redis ≡ some v
      → reconcile_stuck_claimed_run s3 run_id run now w
        ≡ commit_stuck run_id run stuck_status
            (clamp_charge stuck_charge v.reserved_usd_micros)
            (stuck_error (check_s3_result_exists s3 run))
            now
            (record w { redis = settled_redis })
  unfolding reconcile_stuck_claimed_run settle_stuck
  reconcile-held v held = elim (settle-inv run.tenant_id run_id stuck_charge (now * 1000) w.redis) [
    | inr (gone, _) ↦ cc (gone, held)
    | inl (v', bal, held', replied) ↦
        let same : v' ≡ v = ground (arith, held, held') in
        rw (held, reconcile-settle, replied) (rw same)
  ]

  pub reconcile-proved :
      (receipt : Receipt)
      → get_reservation run.tenant_id run_id w.redis ≡ none
      → get_settlement_receipt run.tenant_id run_id w.redis ≡ some receipt
      → receipt.tenant_id ≡ run.tenant_id
      → reconcile_stuck_claimed_run s3 run_id run now w
        ≡ commit_stuck run_id run stuck_status receipt.charged_usd_micros
            (receipt_error (check_s3_result_exists s3 run))
            now
            w
  unfolding reconcile_stuck_claimed_run commit_receipt
  reconcile-proved receipt gone proof owner =
      rw (gone, proof, (eqb_iff receipt.tenant_id run.tenant_id).1 owner)

  pub reconcile-unproved :
      get_reservation run.tenant_id run_id w.redis ≡ none
      → get_settlement_receipt run.tenant_id run_id w.redis ≡ none
      → reconcile_stuck_claimed_run s3 run_id run now w ≡ mark_for_audit run_id run now w
  unfolding reconcile_stuck_claimed_run
  reconcile-unproved gone no_proof = rw (gone, no_proof)

-- An error message is no part of how a run ended.
pub record OnlyErrors (extra : Run → Run) (r : Run) : Type 0 where
  pub status_same : (extra r).status ≡ r.status
  pub money_same : (extra r).money_state ≡ r.money_state
  pub stage_same : (extra r).finalize_stage ≡ r.finalize_stage
  pub tenant_same : (extra r).tenant_id ≡ r.tenant_id
  pub cost_same : (extra r).actual_cost_usd_micros ≡ r.actual_cost_usd_micros

pub receipt_error-keeps : (b : Bool) (r : Run) → OnlyErrors (receipt_error b) r
receipt_error-keeps true r = record {
  status_same = refl;
  money_same = refl;
  stage_same = refl;
  tenant_same = refl;
  cost_same = refl;
}
receipt_error-keeps false r = record {
  status_same = refl;
  money_same = refl;
  stage_same = refl;
  tenant_same = refl;
  cost_same = refl;
}

pub stuck_error-keeps :
    (s3 : Storage) (run_id : ℕ) (run : Run) (now : ℕ) (w : World) (b : Bool) (r : Run)
    → OnlyErrors (stuck_error s3 run_id run now w b) r
stuck_error-keeps s3 run_id run now w true r = record {
  status_same = refl;
  money_same = refl;
  stage_same = refl;
  tenant_same = refl;
  cost_same = refl;
}
stuck_error-keeps s3 run_id run now w false r = record {
  status_same = refl;
  money_same = refl;
  stage_same = refl;
  tenant_same = refl;
  cost_same = refl;
}
