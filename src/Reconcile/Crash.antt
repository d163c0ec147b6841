-- ===== src/Reconcile/Crash.antt =====
-- A worker that crashes after its claim: what the reconcile loop makes of the run.
use decisionproof.Base.{
  ℕ, ◌*◌, ℤ, ◌≡◌, refl, sym, ◌∙◌, ap, inl, inr, Bool, true, false, some, List, arith, lookup,
  lookup-insert_self, nat_eq, if◌then◌else◌, eqb_option_iff, pair_eq,
}
use decisionproof.Budget.{Redis, Reservation, get_reservation, settle, settled, clamp_charge}
use decisionproof.Budget.Scripts.{IsValid}
use decisionproof.Budget.Receipts.{IsSettlement, settle-IsSettlement}
use decisionproof.Runs.{Run, Status, MoneyState, Stage, Condition, bump}
use decisionproof.World.{World, Result, ok, err}
use decisionproof.Finalize.{FinalizeError, claim_updates, claim_finalize, settle_phase}
use decisionproof.Finalize.Claim.{claim_finalize-inv, claimed_world}
use decisionproof.Finalize.Commit.{settle_phase-inv, settle_phase-ok, settled_world}
use decisionproof.Reconcile.{
  Storage, commit_stuck, check_s3_result_exists, roll_forward_charge, roll_back_charge,
  receipt_status, receipt_error, reconcile_stuck_claimed_run,
}
use decisionproof.Reconcile.Recover.{
  IsStuck, committed_row, commit_stuck-ok, committed-row, committed-redis, stuck_status,
  stuck_charge, settled_redis, reconcile-held, reconcile-proved, stuck_error, OnlyErrors,
  receipt_error-keeps, stuck_error-keeps,
}

-- The end of a stuck run: its row is COMMITTED with this status and cost.
pub record IsEnded (run_id : ℕ) (status : Status) (cost : ℤ) (w' : World) : Type 0 where
  pub row : Run
  pub at : lookup run_id w'.runs ≡ some row
  pub status_written : row.status ≡ status
  pub cost_written : row.actual_cost_usd_micros ≡ some cost
  pub settled : row.money_state ≡ MoneyState.settled
  pub committed : row.finalize_stage ≡ Stage.committed

commit_stuck-IsEnded :
    (run_id : ℕ) (run : Run) (status : Status) (cost : ℤ) (extra : Run → Run) (now : ℕ) (w : World)
    (row : Run)
    → ((r : Run) → OnlyErrors extra r)
    → IsStuck run_id run w.runs row
    → let (won, w') = commit_stuck run_id run status cost extra now w in
      (won ≡ true) × IsEnded run_id status cost w' × (w'.redis ≡ w.redis)
commit_stuck-IsEnded run_id run status cost extra now w row keeps m =
    rw (commit_stuck-ok run_id run status cost extra now w row m) (
      refl,
      record {
        row = committed_row run_id run status cost extra now w row;
        at = committed-row run_id run status cost extra now w row;
        status_written = (keeps _).status_same;
        cost_written = (keeps _).cost_same;
        settled = (keeps _).money_same;
        committed = (keeps _).stage_same;
      },
      committed-redis run_id run status cost extra now w row,
    )

module _ (run_id tenant : ℕ) (extra : List Condition) (token now : ℕ) (w w1 : World)
    (claim : ℕ × ℕ) where
  -- What a claim leaves behind.
  pub record IsClaim (row : Run) : Type 0 where
    pub owned : row.tenant_id ≡ tenant
    pub stuck : IsStuck run_id row w1.runs row
    pub redis : w1.redis ≡ w.redis

  pub claim_finalize-IsClaim :
      (row : Run)
      → claim_finalize run_id tenant extra token now w ≡ (ok claim, w1)
      → lookup run_id w1.runs ≡ some row
      → IsClaim row
  claim_finalize-IsClaim row h at = elim (claim_finalize-inv run_id tenant extra token now w) [
    | inr (e, lost) ↦ absurd (clash (sym lost ∙ h))
    | inl (run, found, c, won) ↦
        let after : w1 ≡ claimed_world run_id tenant extra token now w run =
          ap (λ (x : Result FinalizeError (ℕ × ℕ) × World). x.1) (sym h ∙ won) in
        let new = bump run.version now (claim_updates token now) run in
        let same : new ≡ row = ground (
          arith,
          at,
          ap (λ (u : World). lookup run_id u.runs) after ∙ lookup-insert_self run_id new w.runs,
        ) in
        rw (← same) (record {
          owned = c.owned;
          stuck = (
            ap (λ (u : World). lookup run_id u.runs) after ∙ lookup-insert_self run_id new w.runs,
            refl,
            refl,
            rw ((eqb_option_iff (some token) (some token)).1 refl) refl,
          );
          redis = ap (λ (u : World). u.redis) after;
        })
  ]
    where
      clash :
          {e : FinalizeError} {u v : World}
          → ◌≡◌ {A = Result FinalizeError (ℕ × ℕ) × World} (err e, u) (ok claim, v)
          → ⊥
      clash p = cc (ap (λ (y : Result FinalizeError (ℕ × ℕ) × World). y.0) p)

-- A crash between the settlement and the final commit loses nothing and charges nothing twice. Let a
-- claim have succeeded and the settlement have charged `cost`, in a valid store where the run's
-- reservation was the tenant's, and let nothing have been written after that. Then reconciling the
-- row as it stands succeeds: the run is SETTLED and COMMITTED with exactly `cost`, COMPLETED if the
-- result is in the object store and else FAILED, and Redis is not touched again.
pub crash_after_settle :
    (s3 : Storage) (run_id tenant : ℕ) (extra : List Condition) (token now now' now'' : ℕ)
    (charge cost : ℤ) (claim : ℕ × ℕ) (w w1 w2 : World) (row : Run)
    → IsValid w.redis
    → ((v : Reservation) → get_reservation tenant run_id w.redis ≡ some v → v.tenant_id ≡ tenant)
    → claim_finalize run_id tenant extra token now w ≡ (ok claim, w1)
    → settle_phase run_id tenant charge now' w1 ≡ (ok cost, w2)
    → lookup run_id w2.runs ≡ some row
    → let (won, w3) = reconcile_stuck_claimed_run s3 run_id row now'' w2 in
      (won ≡ true)
      × IsEnded run_id (receipt_status (check_s3_result_exists s3 row)) cost w3
      × (w3.redis ≡ w2.redis)
crash_after_settle s3 run_id tenant extra token now now' now'' charge cost claim w w1 w2 row valid
      own h h' at =
    elim (settle_phase-inv run_id tenant charge now' w1) [
      | inr failed ↦ absurd (clash (sym failed ∙ h'))
      | inl s ↦
          let went = sym (settle_phase-ok run_id tenant charge now' w1 s) ∙ h' in
          let after : settled_world run_id tenant charge now' w1 ≡ w2 =
            ap (λ (x : Result FinalizeError ℤ × World). x.1) went in
          let c : IsClaim run_id tenant extra token now w w1 claim row =
            claim_finalize-IsClaim run_id tenant extra token now w w1 claim row h
              (ap (λ (u : World). lookup run_id u.runs) after ∙ at) in
          let p : IsSettlement tenant run_id charge s.reservation
              (settle tenant run_id charge (now' * 1000) w1.redis) =
            settle-IsSettlement tenant run_id charge (now' * 1000) w1.redis s.reservation
              (rw c.redis valid) s.held in
          let cost_same : p.receipt.charged_usd_micros ≡ cost =
            p.receipt_cost ∙ cost_eq (sym p.replied ∙ s.replied) ∙ paid_eq went in
          let path =
            reconcile-proved s3 run_id row now'' w2 p.receipt (rw (c.owned, ← after) p.released)
              (rw (c.owned, ← after) p.proved)
              (p.receipt_tenant
                ∙ own s.reservation
                    (ap (λ (r : Redis). get_reservation tenant run_id r) (sym c.redis) ∙ s.held)
                ∙ sym c.owned) in
          let stuck : IsStuck run_id row w2.runs row = (at, refl, refl, c.stuck.3) in
          rw (path, cost_same)
            (commit_stuck-IsEnded run_id row (receipt_status (check_s3_result_exists s3 row)) cost
              (receipt_error (check_s3_result_exists s3 row)) now'' w2 row
              (receipt_error-keeps (check_s3_result_exists s3 row)) stuck)
    ]
  where
    clash :
        {e : FinalizeError} {c : ℤ} {u v : World}
        → ◌≡◌ {A = Result FinalizeError ℤ × World} (err e, u) (ok c, v)
        → ⊥
    clash p = cc (ap (λ (y : Result FinalizeError ℤ × World). y.0) p)

    cost_eq : {a b c d e f : ℤ} → settled a b c ≡ settled d e f → a ≡ d
    cost_eq p = cc

    paid_eq :
        {a b : ℤ} {u v : World}
        → ◌≡◌ {A = Result FinalizeError ℤ × World} (ok a, u) (ok b, v)
        → a ≡ b
    paid_eq p = cc (ap (λ (y : Result FinalizeError ℤ × World). y.0) p)

-- A crash between the claim and the settlement. The run still has its reservation; if it is in a
-- valid store, reconciling the row as it stands succeeds, and the run is SETTLED and COMMITTED. With
-- the result in the object store it is COMPLETED, for the cost in the row or in the object's
-- metadata or else the reserved maximum; without it the run is FAILED, for the minimum fee. Either
-- is held between zero and the reservation.
pub crash_after_claim :
    (s3 : Storage) (run_id tenant : ℕ) (extra : List Condition) (token now now' : ℕ) (claim : ℕ × ℕ)
    (w w1 : World) (row : Run) (v : Reservation)
    → IsValid w.redis
    → get_reservation tenant run_id w.redis ≡ some v
    → claim_finalize run_id tenant extra token now w ≡ (ok claim, w1)
    → lookup run_id w1.runs ≡ some row
    → let (won, w2) = reconcile_stuck_claimed_run s3 run_id row now' w1 in
      (won ≡ true)
      × (check_s3_result_exists s3 row ≡ true
          → IsEnded run_id Status.completed
              (clamp_charge (roll_forward_charge s3 row) v.reserved_usd_micros)
              w2)
      × (check_s3_result_exists s3 row ≡ false
          → IsEnded run_id Status.failed
              (clamp_charge (roll_back_charge row) v.reserved_usd_micros)
              w2)
crash_after_claim s3 run_id tenant extra token now now' claim w w1 row v valid held h at =
    let c : IsClaim run_id tenant extra token now w w1 claim row =
      claim_finalize-IsClaim run_id tenant extra token now w w1 claim row h at in
    let path = reconcile-held s3 run_id row now' w1 v (rw (c.owned, c.redis) held) in
    let (won, ended, _) =
      commit_stuck-IsEnded run_id row (stuck_status s3 run_id row now' w1)
        (clamp_charge (stuck_charge s3 run_id row now' w1) v.reserved_usd_micros)
        (stuck_error s3 run_id row now' w1 (check_s3_result_exists s3 row)) now'
        (record w1 { redis = settled_redis s3 run_id row now' w1 }) row
        (stuck_error-keeps s3 run_id row now' w1 (check_s3_result_exists s3 row)) c.stuck in
    (
      ap (λ (x : Bool × World). x.0) path ∙ won,
      λ there. rw path (
          found (roll_forward_charge s3 row) (roll_back_charge row) (check_s3_result_exists s3 row)
            ended there),
      λ missing. rw path (
          lost (roll_forward_charge s3 row) (roll_back_charge row) (check_s3_result_exists s3 row)
            ended missing),
    )
  where
    found :
        (f r : ℤ) {u : World} (b : Bool)
        → IsEnded run_id
            (receipt_status b)
            (clamp_charge (if b then f else r) v.reserved_usd_micros)
            u
        → b ≡ true
        → IsEnded run_id Status.completed (clamp_charge f v.reserved_usd_micros) u
    found f r true p e = p
    found f r false p e = cc

    lost :
        (f r : ℤ) {u : World} (b : Bool)
        → IsEnded run_id
            (receipt_status b)
            (clamp_charge (if b then f else r) v.reserved_usd_micros)
            u
        → b ≡ false
        → IsEnded run_id Status.failed (clamp_charge r v.reserved_usd_micros) u
    lost f r false p e = p
    lost f r true p e = cc
