-- ===== src/Finalize/Frame.antt =====
-- What a finalize leaves alone.
use decisionproof.Base.{ℕ, ◌*◌, ◌≡◌, ◌≢◌, refl, sym, inl, inr, arith, lookup, lookup-insert, nat_eq}
use decisionproof.Budget.{get_reservation}
use decisionproof.Budget.Scripts.{IsValid}
use decisionproof.Budget.Settling.{settle-keeps}
use decisionproof.Budget.Receipts.{settle_others}
use decisionproof.World.{World}
use decisionproof.Finalize.Once.{claimed_row, run_finalizer-inv, finalize_returns}
use decisionproof.Finalize.Finalizers.{Finalizer, run_finalizer, requested}

-- The store is valid, and the other runs and their reservations are as in `w`.
pub record Spares (run_id : ℕ) (w w' : World) : Type 0 where
  pub still_valid : IsValid w'.redis
  pub rows : (other : ℕ) → other ≢ run_id → lookup other w'.runs ≡ lookup other w.runs
  pub reserves :
      (tenant other : ℕ)
      → other ≢ run_id
      → get_reservation tenant other w'.redis ≡ get_reservation tenant other w.redis

-- A finalize of one run, whether it returns or raises, leaves every other run and its reservation
-- alone, and a valid store valid.
pub finalize-Spares :
    (f : Finalizer) (run_id tenant token now : ℕ) (w : World)
    → IsValid w.redis
    → Spares run_id w (run_finalizer f run_id tenant token now w).1
finalize-Spares f run_id tenant token now w valid =
    elim (run_finalizer-inv f run_id tenant token now w) [
      | inr (inr (e, failed)) ↦ rw failed (record {
        still_valid = valid;
        rows = λ other apart. refl;
        reserves = λ t other apart. refl;
      })
      | inr (inl (run, at, c, failed)) ↦ rw failed (record {
        still_valid = valid;
        rows = λ other apart. ground (
          arith,
          apart,
          lookup-insert run_id other (claimed_row f run_id tenant token now w run) w.runs,
        );
        reserves = λ t other apart. refl;
      })
      | inl (run, at, c, s, won) ↦
          let (row, v, _, _, held, win) = finalize_returns f run_id tenant token now w _ won in
          let (valid', keeps) =
            settle-keeps tenant run_id (requested f) (now * 1000) w.redis valid in
          rw won (record {
            still_valid = rw win.money valid';
            rows = win.others;
            reserves = λ t other apart.
                rw win.money
                  (settle_others tenant run_id t other (requested f) (now * 1000) w.redis valid
                    (λ p. apart (sym p.1))).0;
          })
    ]
