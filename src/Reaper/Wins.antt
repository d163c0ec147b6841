-- ===== src/Reaper/Wins.antt =====
-- Reaping one run.
use decisionproof.Base.{
  ℕ, ℤ, pos, ◌+ℤ◌, ◌≤ℤ◌, ◌≡◌, refl, sym, ◌∙◌, ap, Bool, true, some, [], ◌∷◌, arith, lookup, nat_eq,
}
use decisionproof.Budget.{Reservation, get_reservation, clamp_charge}
use decisionproof.Budget.Ledger.{total, share}
use decisionproof.Budget.Scripts.{IsValid}
use decisionproof.Runs.{Run, Status, MoneyState, Stage, status_is}
use decisionproof.World.{World, Result, ok, err}
use decisionproof.Finalize.{FinalizeError}
use decisionproof.Finalize.Claim.{IsClaimable}
use decisionproof.Finalize.Once.{final_row, finalize_returns, finalize_succeeds}
use decisionproof.Finalize.Finalizers.{timeout, run_finalizer}
use decisionproof.Finalize.Race.{finalize_takes_cost}
use decisionproof.Reaper.{reap_charge, caught, reap_run}

-- A run that the reaper can end: claimable, with a reservation in Redis.
pub record IsReapable (run_id : ℕ) (run : Run) (w : World) : Type 0 where
  pub reservation : Reservation
  pub at : lookup run_id w.runs ≡ some run
  pub claimable : IsClaimable run.tenant_id (status_is Status.processing ∷ []) run
  pub held : get_reservation run.tenant_id run_id w.redis ≡ some reservation

-- A run that a reaper has ended.
pub record IsReaped (run_id : ℕ) (w : World) : Type 0 where
  pub run : Run
  pub at : lookup run_id w.runs ≡ some run
  pub failed : run.status ≡ Status.failed
  pub paid : run.money_state ≡ MoneyState.settled
  pub committed : run.finalize_stage ≡ Stage.committed
  pub reason : run.last_error_reason_code ≡ some "WORKER_TIMEOUT"

reap_run-eq :
    (run_id : ℕ) (run : Run) (token now : ℕ) (w : World)
    → reap_run run_id run token now w
      ≡ caught (run_finalizer (timeout (reap_charge run)) run_id run.tenant_id token now w)
unfolding reap_run
reap_run-eq run_id run token now w = refl

pub caught-true :
    (x : Result FinalizeError Unit × World) (w' : World) → caught x ≡ (true, w') → x ≡ (ok tt, w')
caught-true (ok tt, w) w' e = ap (λ (y : Bool × World). (ok tt, y.1)) e
caught-true (err _, w) w' e = cc (ap (λ (y : Bool × World). y.0) e)

fee_within : (run : Run) → reap_charge run ≤ℤ run.reservation_max_cost_usd_micros
fee_within run = ground arith

-- A run that the reaper can end is ended, whatever its lease says by then: it is FAILED with the
-- reason WORKER_TIMEOUT, SETTLED and COMMITTED.
pub reap_run_wins :
    (run_id : ℕ) (run : Run) (token now : ℕ) (w : World)
    → IsReapable run_id run w
    → ((reap_run run_id run token now w).0 ≡ true)
      × IsReaped run_id (reap_run run_id run token now w).1
reap_run_wins run_id run token now w p =
    let f = timeout (reap_charge run) in
    let (w', e) =
      finalize_succeeds f run_id run.tenant_id token now w run p.reservation p.at p.claimable p.held
        (fee_within run) in
    let (row, v, at, c, held, win) = finalize_returns f run_id run.tenant_id token now w w' e in
    rw (reap_run-eq run_id run token now w, e)
      (
        refl,
        record {
          run = final_row f run_id run.tenant_id token now w win.cost row;
          at = win.row;
          failed = refl;
          paid = refl;
          committed = refl;
          reason = refl;
        },
      )

-- A reap that reports a win, in a valid store, charges the tenant exactly the cost that it writes,
-- which is at most the minimum fee of the scanned row where that is not negative, and at most its
-- reserved maximum where that is not; no other tenant pays.
pub reap_run_charges :
    (run_id : ℕ) (run : Run) (token now : ℕ) (w w' : World)
    → IsValid w.redis
    → pos 0 ≤ℤ run.minimum_fee_usd_micros
    → pos 0 ≤ℤ run.reservation_max_cost_usd_micros
    → reap_run run_id run token now w ≡ (true, w')
    → (cost : ℤ) × (row : Run) × (lookup run_id w'.runs ≡ some row)
      × (row.actual_cost_usd_micros ≡ some cost)
      × (cost ≤ℤ run.minimum_fee_usd_micros)
      × (cost ≤ℤ run.reservation_max_cost_usd_micros)
      × ((t : ℕ) → total t w'.redis +ℤ share t run.tenant_id cost ≡ total t w.redis)
reap_run_charges run_id run token now w w' valid fee most h =
    let f = timeout (reap_charge run) in
    let e =
      caught-true (run_finalizer f run_id run.tenant_id token now w) w'
        (sym (reap_run-eq run_id run token now w) ∙ h) in
    let (row, v, at, c, held, win) = finalize_returns f run_id run.tenant_id token now w w' e in
    let (_, cost, row', at', paid, takes) =
      finalize_takes_cost f run_id run.tenant_id token now w w' valid e in
    let same : win.cost ≡ cost = cost_eq at' win.row paid refl in
    let bound = at_most (reap_charge run) v.reserved_usd_micros in
    (
      cost,
      row',
      at',
      paid,
      rw (← same, win.charged_cost) (ground (arith, bound)),
      rw (← same, win.charged_cost) (ground (arith, bound)),
      takes,
    )
  where
    at_most : (c m : ℤ) → pos 0 ≤ℤ c → clamp_charge c m ≤ℤ c
    at_most c m p = ground arith

    cost_eq :
        {a b : Run} {x y : ℤ}
        → lookup run_id w'.runs ≡ some a
        → lookup run_id w'.runs ≡ some b
        → a.actual_cost_usd_micros ≡ some x
        → b.actual_cost_usd_micros ≡ some y
        → y ≡ x
    cost_eq p q r s = ground arith
