-- ===== src/Reconcile/Stale.antt =====
-- A scanned row that has changed by the time it is reconciled.
use decisionproof.Base.{
  ℕ, ◌<◌, ◌≡◌, refl, sym, ◌∙◌, ap, ◌⊎◌, inl, inr, Bool, true, false, Option, some, List, arith,
  lookup, nat_eq,
}
use decisionproof.Budget.Scripts.{IsValid}
use decisionproof.Runs.{Run, Runs, Stage}
use decisionproof.Runs.History.{Write, write_all, write_all-Progress}
use decisionproof.World.{World}
use decisionproof.Reconcile.{Storage, reconcile_stuck_claimed_run, reload}
use decisionproof.Reconcile.Reread.{HasProof, reread-spared}
use decisionproof.Reconcile.Outcome.{reconcile-inv}

scanned-spares :
    (s3 : Storage) (run_id now : ℕ) (run row : Run) (scanned : Runs) (writes : List Write)
    (w : World)
    → IsValid w.redis
    → lookup run_id scanned ≡ some run
    → run.finalize_stage ≡ Stage.claimed
    → w.runs ≡ write_all writes scanned
    → lookup run_id w.runs ≡ some row
    → row.finalize_stage ≡ Stage.committed
    → let (success, w') = reconcile_stuck_claimed_run s3 run_id run now w in
      (success ≡ false) × (w'.runs ≡ w.runs)
scanned-spares s3 run_id now run row scanned writes w valid read stuck since at done =
    elim (reconcile-inv s3 run_id run now w valid) [
      | inr (r, lost) ↦ rw lost (refl, refl)
      | inl (w', won, p) ↦
          let (old, at', same) = p.fresh in
          let (row', e, progress) = write_all-Progress writes run_id run scanned read in
          absurd (stale old row' at' (ap (λ (u : Runs). lookup run_id u) since ∙ e) same progress)
    ]
  where
    stale :
        (old row' : Run)
        → lookup run_id w.runs ≡ some old
        → lookup run_id w.runs ≡ some row'
        → old.version ≡ run.version
        → (row' ≡ run) ⊎ (run.version < row'.version)
        → ⊥
    stale old row' f g v (inl same) =
        claimed_committed
          (sym stuck ∙ ap (λ (r : Run). r.finalize_stage) (sym same ∙ some_eq (sym g ∙ at)) ∙ done)
      where
        some_eq : {a b : Run} → ◌≡◌ {A = Option Run} (some a) (some b) → a ≡ b
        some_eq q = cc

        claimed_committed : Stage.claimed ≡ Stage.committed → ⊥
        claimed_committed q = cc
    stale old row' f g v (inr later) = ground (arith, f, g, v, later)

some_same : {a b : Run} → ◌≡◌ {A = Option Run} (some a) (some b) → a ≡ b
some_same q = cc

-- When a finished run stays finished. Let the reconcile loop have read a run that was CLAIMED, and let
-- any writers have written to the table since, and the run be COMMITTED by then. Then reconciling it
-- reports failure and changes no row, on every path, while the session holds the row as it was
-- scanned, that is, up to its first commit; and after that, when it has read the row again, if Redis
-- has a reservation of the run or a receipt of its settlement.
pub reconcile_spares_committed :
    (s3 : Storage) (run_id now : ℕ) (run row held : Run) (is_expired : Bool) (scanned : Runs)
    (writes : List Write) (w : World)
    → IsValid w.redis
    → lookup run_id scanned ≡ some run
    → run.finalize_stage ≡ Stage.claimed
    → w.runs ≡ write_all writes scanned
    → lookup run_id w.runs ≡ some row
    → row.finalize_stage ≡ Stage.committed
    → reload is_expired run_id run w.runs ≡ some held
    → (is_expired ≡ true → HasProof row.tenant_id run_id w.redis)
    → let (success, w') = reconcile_stuck_claimed_run s3 run_id held now w in
      (success ≡ false) × (w'.runs ≡ w.runs)
reconcile_spares_committed s3 run_id now run row held false scanned writes w valid read stuck since
      at done reread proof =
    rw (sym (some_same reread))
      (scanned-spares s3 run_id now run row scanned writes w valid read stuck since at done)
reconcile_spares_committed s3 run_id now run row held true scanned writes w valid read stuck since
      at done reread proof =
    let same : held ≡ row = some_same (sym reread ∙ at) in
    let (r, spared, _) = reread-spared s3 run_id now row w at done (proof refl) in
    rw (same, spared) (refl, refl)
