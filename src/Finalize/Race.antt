-- ===== src/Finalize/Race.antt =====
-- Worker against reaper: of the finalizes of one run only one happens, and it is paid once.
use decisionproof.Base.{
  ℕ, ◌*◌, ℤ, ◌+ℤ◌, ◌≡◌, ◌≢◌, refl, sym, ◌∙◌, ap, inl, inr, Option, some, lookup, nat_eq,
}
use decisionproof.Budget.Ledger.{total, share}
use decisionproof.Budget.Scripts.{IsValid, charged}
use decisionproof.Budget.Settling.{settle-keeps}
use decisionproof.Runs.{Run, Status}
use decisionproof.World.{World, ok, err}
use decisionproof.Finalize.{FinalizeError}
use decisionproof.Finalize.Claim.{IsClaimable}
use decisionproof.Finalize.Once.{final_row, run_finalizer-inv, finalize_returns}
use decisionproof.Finalize.Finalizers.{
  Finalizer, success, failure, timeout, run_finalizer, requested, extra, conditions,
}

final-not-processing :
    (f : Finalizer) (run_id tenant token now : ℕ) (w : World) (cost : ℤ) (run : Run)
    → (final_row f run_id tenant token now w cost run).status ≢ Status.processing
final-not-processing (success lease cost bucket key sha256) run_id tenant token now w c run e = cc
final-not-processing (failure lease fee reason_code detail) run_id tenant token now w c run e = cc
final-not-processing (timeout fee) run_id tenant token now w c run e = cc

-- Exactly once. When a finalize of a run has returned, whoever made it, every later finalize of the
-- run, by a worker with any lease or by the reaper, raises and changes nothing: not the run, not
-- Redis, not the usage.
pub finalize_once :
    (f f' : Finalizer) (run_id tenant tenant' token token' now now' : ℕ) (w w' : World)
    → run_finalizer f run_id tenant token now w ≡ (ok tt, w')
    → (e : FinalizeError) × (run_finalizer f' run_id tenant' token' now' w' ≡ (err e, w'))
finalize_once f f' run_id tenant tenant' token token' now now' w w' h =
    let (run, v, e, c, held, win) = finalize_returns f run_id tenant token now w w' h in
    elim (run_finalizer-inv f' run_id tenant' token' now' w') [
      | inr (inr lost) ↦ lost
      | inl (run', e', c', _, _) ↦ absurd (done run win.cost win.row e' c')
      | inr (inl (run', e', c', _)) ↦ absurd (done run win.cost win.row e' c')
    ]
  where
    done :
        (run : Run) (cost : ℤ)
        → lookup run_id w'.runs ≡ some (final_row f run_id tenant token now w cost run)
        → {run' : Run} → lookup run_id w'.runs ≡ some run'
        → IsClaimable tenant' (conditions f') run'
        → ⊥
    done run cost row {run'} row' c' =
        final-not-processing f run_id tenant token now w cost run
          (ap (λ (r : Run). r.status) (some_eq (sym row ∙ row')) ∙ c'.running)
      where
        some_eq : {a b : Run} → ◌≡◌ {A = Option Run} (some a) (some b) → a ≡ b
        some_eq p = cc

-- A finalize that returns takes from the tenant exactly the cost that it writes to the run, and from
-- every other tenant nothing; and it leaves a valid store valid.
pub finalize_takes_cost :
    (f : Finalizer) (run_id tenant token now : ℕ) (w w' : World)
    → IsValid w.redis
    → run_finalizer f run_id tenant token now w ≡ (ok tt, w')
    → IsValid w'.redis
      × (cost : ℤ) × (row : Run) × (lookup run_id w'.runs ≡ some row)
      × (row.actual_cost_usd_micros ≡ some cost)
      × ((t : ℕ) → total t w'.redis +ℤ share t tenant cost ≡ total t w.redis)
finalize_takes_cost f run_id tenant token now w w' valid h =
    let (run, v, e, c, held, win) = finalize_returns f run_id tenant token now w w' h in
    let (valid', keeps) = settle-keeps tenant run_id (requested f) (now * 1000) w.redis valid in
    (
      rw win.money valid',
      win.cost,
      final_row f run_id tenant token now w win.cost run,
      win.row,
      extra-cost f _,
      λ t. rw (win.money, ← ap charged win.replied) (keeps t),
    )
  where
    extra-cost :
        (f : Finalizer) (r : Run) → (extra f r).actual_cost_usd_micros ≡ r.actual_cost_usd_micros
    extra-cost (success lease cost bucket key sha256) r = refl
    extra-cost (failure lease fee reason_code detail) r = refl
    extra-cost (timeout fee) r = refl
