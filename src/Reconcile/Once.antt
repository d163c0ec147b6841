-- ===== src/Reconcile/Once.antt =====
-- Nothing is paid or committed twice.
use decisionproof.Base.{
  ℕ, ◌+◌, ℤ, ◌≡◌, refl, Option, sym, ◌∙◌, ap, inl, inr, Bool, true, false, some, [], arith, lookup,
  nat_eq, eqb, eqb_iff, Bool-cases, Option-cases, pair_eq,
}
use decisionproof.Budget.{Redis, Receipt, get_reservation, get_settlement_receipt}
use decisionproof.Budget.Scripts.{IsValid}
use decisionproof.Runs.{Run, Status, Stage}
use decisionproof.Runs.Locking.{update-inv}
use decisionproof.World.{World, err}
use decisionproof.Finalize.{commit_finalize, finalize_error}
use decisionproof.Finalize.Commit.{settle_phase-inv, commit_finalize-stops}
use decisionproof.Reconcile.{
  Storage, check_s3_result_exists, audit_updates, mark_for_audit, receipt_error, commit_receipt,
  reconcile_stuck_claimed_run, reload,
}
use decisionproof.Reconcile.Recover.{
  commit_stuck-inv, stuck_status, reconcile-proved, reconcile-unproved,
}
use decisionproof.Reconcile.Reread.{reread-spared}
use decisionproof.Reconcile.Outcome.{IsRecovered, reconcile-inv}

-- A reconcile that reports success, in a valid store, has brought the run to its end. Its row is
-- COMMITTED, one version past the scanned row, with a cost; no reservation is left and the store is
-- valid. With a reservation, the tenant has paid that cost just now; with none, nothing has been paid
-- now, whatever the receipt says.
pub reconcile_recovers :
    (s3 : Storage) (run_id : ℕ) (run : Run) (now : ℕ) (w w' : World)
    → IsValid w.redis
    → reconcile_stuck_claimed_run s3 run_id run now w ≡ (true, w')
    → IsRecovered run_id run w w'
reconcile_recovers s3 run_id run now w w' valid h = elim (reconcile-inv s3 run_id run now w valid) [
  | inr (r, lost) ↦ absurd (clash (sym lost ∙ h))
  | inl (w1, e, p) ↦ rw (ap (λ (y : Bool × World). y.1) (sym h ∙ e)) p
]
  where
    clash : {u v : World} → ◌≡◌ {A = Bool × World} (false, u) (true, v) → ⊥
    clash q = cc (ap (λ (y : Bool × World). y.0) q)

-- A reconcile that reports failure has changed no run and no usage; it may have settled.
pub reconcile_fails :
    (s3 : Storage) (run_id : ℕ) (run : Run) (now : ℕ) (w w' : World)
    → IsValid w.redis
    → reconcile_stuck_claimed_run s3 run_id run now w ≡ (false, w')
    → (w'.runs ≡ w.runs) × (w'.usage ≡ w.usage)
reconcile_fails s3 run_id run now w w' valid h = elim (reconcile-inv s3 run_id run now w valid) [
  | inl (w1, e, p) ↦ absurd (clash (sym e ∙ h))
  | inr (r, e) ↦
      let same : w' ≡ record w { redis = r } = ap (λ (y : Bool × World). y.1) (sym h ∙ e) in
      (ap (λ (u : World). u.runs) same, ap (λ (u : World). u.usage) same)
]
  where
    clash : {u v : World} → ◌≡◌ {A = Bool × World} (true, u) (false, v) → ⊥
    clash q = cc (ap (λ (y : Bool × World). y.0) q)

reconcile-again :
    (s3 s3' : Storage) (run_id : ℕ) (run : Run) (now now' : ℕ) (w w' : World)
    → IsValid w.redis
    → reconcile_stuck_claimed_run s3 run_id run now w ≡ (true, w')
    → reconcile_stuck_claimed_run s3' run_id run now' w' ≡ (false, w')
unfolding reconcile_stuck_claimed_run commit_receipt mark_for_audit
reconcile-again s3 s3' run_id run now now' w w' valid h =
    let p = reconcile_recovers s3 run_id run now w w' valid h in
    let stale = no_match p.row p.at p.newer in
    elim (Option-cases (get_settlement_receipt run.tenant_id run_id w'.redis)) [
      | inl no_proof ↦
          reconcile-unproved s3' run_id run now' w' p.released no_proof
          ∙ elim (update-inv run_id run.tenant_id run.version (audit_updates now') [] now'
              w'.runs) [ inl (row, m, _) ↦ absurd (stale row m.0 m.2) | inr lost ↦ rw lost ]
      | inr (receipt, proof) ↦ elim (Bool-cases (eqb receipt.tenant_id run.tenant_id)) [
        | inr foreign ↦ rw (p.released, proof, foreign)
        | inl own ↦
            reconcile-proved s3' run_id run now' w' receipt p.released proof
              ((eqb_iff receipt.tenant_id run.tenant_id).0 own)
            ∙ elim (commit_stuck-inv run_id run (stuck_status s3' run_id run now' w')
                receipt.charged_usd_micros (receipt_error (check_s3_result_exists s3' run)) now'
                w') [ inl (row, m, _) ↦ absurd (stale row m.0 m.2) | inr lost ↦ lost ]
      ]
    ]
  where
    no_match :
        (new : Run)
        → lookup run_id w'.runs ≡ some new
        → new.version ≡ run.version + 1
        → (row : Run) → lookup run_id w'.runs ≡ some row
        → row.version ≡ run.version
        → ⊥
    no_match new at newer row at' same = ground (arith, at, newer, at', same)

-- Nothing is reconciled twice. After a success, another attempt at the run, by the same or another
-- reconciler, with whatever object store and at whatever time, reports failure and changes nothing:
-- no run, no balance, no usage. This is so for the row as it was scanned before the success, on every
-- path; and for the row as a session reads it again after the success, if Redis has a receipt of the
-- settlement.
pub reconcile_once :
    (s3 s3' : Storage) (run_id : ℕ) (run held : Run) (is_expired : Bool) (now now' : ℕ)
    (w w' : World)
    → IsValid w.redis
    → reconcile_stuck_claimed_run s3 run_id run now w ≡ (true, w')
    → reload is_expired run_id run w'.runs ≡ some held
    → (is_expired ≡ true
        → (v : Receipt) × (get_settlement_receipt run.tenant_id run_id w'.redis ≡ some v))
    → reconcile_stuck_claimed_run s3' run_id held now' w' ≡ (false, w')
reconcile_once s3 s3' run_id run held false now now' w w' valid h read receipt =
    let same : run ≡ held = some_eq read in
    ap (λ (r : Run). reconcile_stuck_claimed_run s3' run_id r now' w') (sym same)
    ∙ reconcile-again s3 s3' run_id run now now' w w' valid h
  where
    some_eq : {a b : Run} → ◌≡◌ {A = Option Run} (some a) (some b) → a ≡ b
    some_eq q = cc
reconcile_once s3 s3' run_id run held true now now' w w' valid h read receipt =
    let p = reconcile_recovers s3 run_id run now w w' valid h in
    let (v, paid) = receipt refl in
    let same : held ≡ p.row = some_eq (sym read ∙ p.at) in
    let tenant : held.tenant_id ≡ run.tenant_id = ap (λ (r : Run). r.tenant_id) same ∙ p.owned in
    let done : held.finalize_stage ≡ Stage.committed =
      ap (λ (r : Run). r.finalize_stage) same ∙ p.committed in
    let (r, spared, kept) =
      reread-spared s3' run_id now' held w' read done
        (inr (v, ap (λ t. get_settlement_receipt t run_id w'.redis) tenant ∙ paid)) in
    spared
    ∙ ap (λ (x : Redis). (false, record w' { redis = x }))
        (kept (ap (λ t. get_reservation t run_id w'.redis) tenant ∙ p.released))
  where
    some_eq : {a b : Run} → ◌≡◌ {A = Option Run} (some a) (some b) → a ≡ b
    some_eq q = cc

-- The worker that was only slow comes too late: once a run is reconciled, its commit, under any token
-- and for any charge, raises and changes nothing.
pub late_commit_raises :
    (s3 : Storage) (run_id : ℕ) (run : Run) (now now' : ℕ) (w w' : World)
    (token claimed_version : ℕ) (charge : ℤ) (final_status : Status) (extra : Run → Run)
    → IsValid w.redis
    → reconcile_stuck_claimed_run s3 run_id run now w ≡ (true, w')
    → commit_finalize run_id run.tenant_id token claimed_version charge final_status extra now' w'
      ≡ (err finalize_error, w')
late_commit_raises s3 run_id run now now' w w' token claimed_version charge final_status extra valid
      h =
    let p = reconcile_recovers s3 run_id run now w w' valid h in
    commit_finalize-stops run_id run.tenant_id token claimed_version charge final_status extra now'
      w'
      (elim (settle_phase-inv run_id run.tenant_id charge now' w') [
        | inr failed ↦ failed
        | inl s ↦ cc (p.released, s.held)
      ])
