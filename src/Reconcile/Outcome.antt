-- ===== src/Reconcile/Outcome.antt =====
-- How a reconcile ends, and what the run has paid by then.
use decisionproof.Base.{
  ℕ, ◌+◌, ◌*◌, ℤ, pos, ◌+ℤ◌, int_laws, ◌≡◌, refl, sym, ◌∙◌, ap, ◌⊎◌, inl, inr, Bool, true, false,
  none, some, [], arith, lookup, insert, lookup-insert_self, nat_eq, eqb, eqb_iff, Bool-cases,
  Option-cases, pair_eq,
}
use decisionproof.Budget.{
  Redis, Reservation, Receipt, get_reservation, get_settlement_receipt, settle, clamp_charge,
}
use decisionproof.Budget.Ledger.{total, share}
use decisionproof.Budget.Scripts.{IsValid, charged}
use decisionproof.Budget.Settling.{settle-keeps}
use decisionproof.Budget.Receipts.{IsSettlement, settle-IsSettlement, settle-inv}
use decisionproof.Runs.{Run, Stage, bump}
use decisionproof.Runs.Locking.{update-inv}
use decisionproof.World.{World}
use decisionproof.Reconcile.{
  Storage, check_s3_result_exists, audit_updates, mark_for_audit, receipt_error, commit_receipt,
  reconcile_stuck_claimed_run,
}
use decisionproof.Reconcile.Recover.{
  committed_row, commit_stuck-inv, committed-row, committed-redis, stuck_status, stuck_charge,
  settled_redis, reconcile-held, reconcile-proved, reconcile-unproved, stuck_error,
  receipt_error-keeps, stuck_error-keeps,
}

total_same : (t tenant : ℕ) (r : Redis) → total t r +ℤ share t tenant (pos 0) ≡ total t r
total_same t tenant r = elim (Bool-cases (eqb tenant t)) [
  | inl same ↦ rw same (omega int_laws)
  | inr other ↦ rw other (omega int_laws)
]

-- A run that has been brought to its end: its row is COMMITTED and one version on from the scanned
-- row, whose version it had; no reservation is left; and the tenant, and no one else, has paid `paid`
-- in doing so.
pub record IsRecovered (run_id : ℕ) (run : Run) (w w' : World) : Type 0 where
  pub row : Run
  pub cost : ℤ
  pub paid : ℤ
  pub fresh : (old : Run) × (lookup run_id w.runs ≡ some old) × (old.version ≡ run.version)
  pub at : lookup run_id w'.runs ≡ some row
  pub owned : row.tenant_id ≡ run.tenant_id
  pub newer : row.version ≡ run.version + 1
  pub committed : row.finalize_stage ≡ Stage.committed
  pub cost_written : row.actual_cost_usd_micros ≡ some cost
  pub released : get_reservation run.tenant_id run_id w'.redis ≡ none
  pub still_valid : IsValid w'.redis
  pub taken : (t : ℕ) → total t w'.redis +ℤ share t run.tenant_id paid ≡ total t w.redis
  pub paid_now :
      (v : Reservation) → get_reservation run.tenant_id run_id w.redis ≡ some v → paid ≡ cost
  pub paid_before : get_reservation run.tenant_id run_id w.redis ≡ none → paid ≡ pos 0

module _ (s3 : Storage) (run_id : ℕ) (run : Run) (now : ℕ) (w : World) where
  abbrev whole : Bool × World
  whole = reconcile_stuck_claimed_run s3 run_id run now w

  -- A recovery, or False and the row as it was.
  abbrev pub Outcome : Type 0
  Outcome =
      ((w' : World) × (whole ≡ (true, w')) × IsRecovered run_id run w w')
      ⊎ ((r : Redis) × (whole ≡ (false, record w { redis = r })))

  held-taken :
      (v : Reservation)
      → IsValid w.redis
      → get_reservation run.tenant_id run_id w.redis ≡ some v
      → (t : ℕ)
      → total t (settled_redis s3 run_id run now w)
          +ℤ share t run.tenant_id
              (clamp_charge (stuck_charge s3 run_id run now w) v.reserved_usd_micros)
        ≡ total t w.redis
  held-taken v valid held t =
      let (_, keeps) =
        settle-keeps run.tenant_id run_id (stuck_charge s3 run_id run now w) (now * 1000) w.redis
          valid in
      elim (settle-inv run.tenant_id run_id (stuck_charge s3 run_id run now w) (now * 1000)
        w.redis) [
          | inr (gone, _) ↦ cc (gone, held)
          | inl (v', bal, held', replied) ↦
              let same : v' ≡ v = ground (arith, held, held') in
              ap (λ (c : ℤ). total t (settled_redis s3 run_id run now w) +ℤ share t run.tenant_id c)
                (sym (ap charged replied ∙ rw same refl))
              ∙ keeps t
        ]

  held-Outcome :
      (v : Reservation)
      → IsValid w.redis
      → get_reservation run.tenant_id run_id w.redis ≡ some v
      → Outcome
  held-Outcome v valid held =
      let charges = held-taken v valid held in
      let r' = settled_redis s3 run_id run now w in
      let w1 = record w { redis = r' } in
      let status = stuck_status s3 run_id run now w in
      let cost = clamp_charge (stuck_charge s3 run_id run now w) v.reserved_usd_micros in
      let errors = stuck_error s3 run_id run now w (check_s3_result_exists s3 run) in
      let path = reconcile-held s3 run_id run now w v held in
      let s : IsSettlement run.tenant_id run_id (stuck_charge s3 run_id run now w) v
          (settle run.tenant_id run_id (stuck_charge s3 run_id run now w) (now * 1000) w.redis) =
        settle-IsSettlement run.tenant_id run_id (stuck_charge s3 run_id run now w) (now * 1000)
          w.redis v valid held in
      let (valid', _) =
        settle-keeps run.tenant_id run_id (stuck_charge s3 run_id run now w) (now * 1000) w.redis
          valid in
      let keeps_error = stuck_error-keeps s3 run_id run now w (check_s3_result_exists s3 run) in
      elim (commit_stuck-inv run_id run status cost errors now w1) [
        | inr lost ↦ inr (r', path ∙ lost)
        | inl (row, m, won) ↦ inl (
          _,
          path ∙ won,
          record {
            row = committed_row run_id run status cost errors now w1 row;
            cost = cost;
            paid = cost;
            fresh = (row, m.0, m.2);
            at = committed-row run_id run status cost errors now w1 row;
            owned = (keeps_error _).tenant_same ∙ m.1;
            newer = refl;
            committed = (keeps_error _).stage_same;
            cost_written = (keeps_error _).cost_same;
            released = rw (committed-redis run_id run status cost errors now w1 row) s.released;
            still_valid = rw (committed-redis run_id run status cost errors now w1 row) valid';
            taken = λ t. rw (committed-redis run_id run status cost errors now w1 row) (charges t);
            paid_now = λ v' h. refl;
            paid_before = λ gone. cc (gone, held);
          },
        )
      ]

  proved-Outcome :
      (receipt : Receipt)
      → IsValid w.redis
      → get_reservation run.tenant_id run_id w.redis ≡ none
      → get_settlement_receipt run.tenant_id run_id w.redis ≡ some receipt
      → Outcome
  unfolding reconcile_stuck_claimed_run commit_receipt
  proved-Outcome receipt valid gone proof =
      let status = stuck_status s3 run_id run now w in
      let errors = receipt_error (check_s3_result_exists s3 run) in
      let keeps_error = receipt_error-keeps (check_s3_result_exists s3 run) in
      let cost = receipt.charged_usd_micros in
      elim (Bool-cases (eqb receipt.tenant_id run.tenant_id)) [
        | inr foreign ↦ inr (w.redis, rw (gone, proof, foreign))
        | inl own ↦
            let path =
              reconcile-proved s3 run_id run now w receipt gone proof
                ((eqb_iff receipt.tenant_id run.tenant_id).0 own) in
            elim (commit_stuck-inv run_id run status cost errors now w) [
              | inr lost ↦ inr (w.redis, path ∙ lost)
              | inl (row, m, won) ↦
                  let redis = committed-redis run_id run status cost errors now w row in
                  inl (
                    _,
                    path ∙ won,
                    record {
                      row = committed_row run_id run status cost errors now w row;
                      cost = cost;
                      paid = pos 0;
                      fresh = (row, m.0, m.2);
                      at = committed-row run_id run status cost errors now w row;
                      owned = (keeps_error _).tenant_same ∙ m.1;
                      newer = refl;
                      committed = (keeps_error _).stage_same;
                      cost_written = (keeps_error _).cost_same;
                      released = rw redis gone;
                      still_valid = rw redis valid;
                      taken = λ t. rw redis (total_same t run.tenant_id w.redis);
                      paid_now = λ v held. cc (gone, held);
                      paid_before = λ h. refl;
                    },
                  )
            ]
      ]

  unproved-Outcome :
      IsValid w.redis
      → get_reservation run.tenant_id run_id w.redis ≡ none
      → get_settlement_receipt run.tenant_id run_id w.redis ≡ none
      → Outcome
  unfolding mark_for_audit
  unproved-Outcome valid gone no_proof =
      let path = reconcile-unproved s3 run_id run now w gone no_proof in
      elim (update-inv run_id run.tenant_id run.version (audit_updates now) [] now w.runs) [
        | inr lost ↦ inr (w.redis, path ∙ rw lost)
        | inl (row, m, won) ↦ inl (
          record w { runs = insert run_id (bump run.version now (audit_updates now) row) w.runs },
          path ∙ rw won,
          record {
            row = bump run.version now (audit_updates now) row;
            cost = pos 0;
            paid = pos 0;
            fresh = (row, m.0, m.2);
            at = lookup-insert_self run_id (bump run.version now (audit_updates now) row) w.runs;
            owned = m.1;
            newer = refl;
            committed = refl;
            cost_written = refl;
            released = gone;
            still_valid = valid;
            taken = λ t. total_same t run.tenant_id w.redis;
            paid_now = λ v held. refl;
            paid_before = λ h. refl;
          },
        )
      ]

  pub reconcile-inv : IsValid w.redis → Outcome
  reconcile-inv valid = elim (Option-cases (get_reservation run.tenant_id run_id w.redis)) [
    | inr (v, held) ↦ held-Outcome v valid held
    | inl gone ↦ elim (Option-cases (get_settlement_receipt run.tenant_id run_id w.redis)) [
      | inr (receipt, proof) ↦ proved-Outcome receipt valid gone proof
      | inl no_proof ↦ unproved-Outcome valid gone no_proof
    ]
  ]
