-- ===== src/Manager/Settle.antt =====
-- `BudgetManager.settle` and `refund`: what is charged, and where the two stores can part.
use decisionproof.Base.{
  ℕ, ◌*◌, ℤ, ◌+ℤ◌, ◌≤ℤ◌, ltb_ℤ, ◌≡◌, refl, sym, ◌∙◌, ap, ◌⊎◌, inl, inr, Bool, true, false, none,
  some, [], arith, lookup, insert, lookup-insert_self, nat_eq, Bool-cases, Option-cases,
}
use decisionproof.Money.{validate_usd_micros}
use decisionproof.Money.Rounding.{validate_usd_micros_lem}
use decisionproof.Budget.{Redis, Reservation, get_reservation, settle}
use decisionproof.Budget.Ledger.{total, share}
use decisionproof.Budget.Scripts.{IsValid, charged}
use decisionproof.Budget.Settling.{settle-keeps}
use decisionproof.Budget.Receipts.{IsSettlement, settle-IsSettlement, settle-inv}
use decisionproof.Runs.{Run, MoneyState, is_money_state, bump, get_by_id}
use decisionproof.Runs.Locking.{Matched, update-inv}
use decisionproof.World.{World, Result, ok, err}
use decisionproof.Manager.{
  BudgetError, invalid_amount, budget_error, no_reservation, invalid_money_state, settle_as,
}

abbrev pub settle_updates : MoneyState → ℤ → Run → Run
settle_updates money charge r = record r {
  money_state = money;
  actual_cost_usd_micros = some charge;
}

module _ (money : MoneyState) (run_id tenant expected : ℕ) (charge : ℤ) (now : ℕ) (w : World) where
  abbrev whole : Result BudgetError Bool × World
  whole = settle_as money run_id tenant expected charge now w

  -- The store after the script.
  abbrev pub after_settle : Redis
  after_settle = (settle tenant run_id charge (now * 1000) w.redis).1

  -- The script was called and found the reservation.
  pub record IsSettled : Type 0 where
    pub run : Run
    pub reservation : Reservation
    pub valid_charge : validate_usd_micros charge ≡ none
    pub found : get_by_id run_id tenant w.runs ≡ some run
    pub within : ltb_ℤ run.reservation_max_cost_usd_micros charge ≡ false
    pub held : get_reservation tenant run_id w.redis ≡ some reservation

  pub settle_as-inv :
      ((s : IsSettled) × (run : Run) × Matched run_id tenant expected [] w.runs run
        × (whole ≡ (
          ok true,
          record w {
            runs = insert run_id (bump expected now (settle_updates money charge) run) w.runs;
            redis = after_settle;
          },
        )))
      ⊎ ((s : IsSettled) × (whole ≡ (ok false, record w { redis = after_settle })))
      ⊎ ((e : BudgetError) × (whole ≡ (err e, w)))
  unfolding settle_as
  settle_as-inv = elim (Option-cases (validate_usd_micros charge)) [
    | inr (e, bad) ↦ inr (inr (invalid_amount e, rw bad))
    | inl good ↦ elim (Option-cases (get_by_id run_id tenant w.runs)) [
      | inl missing ↦ inr (inr (budget_error, rw (good, missing)))
      | inr (run, found) ↦ elim (Bool-cases (is_money_state run.money_state MoneyState.reserved)) [
        | inr other ↦ inr (inr (invalid_money_state, rw (good, found, other)))
        | inl free ↦ elim (Bool-cases (ltb_ℤ run.reservation_max_cost_usd_micros charge)) [
          | inl over ↦ inr (inr (budget_error, rw (good, found, free, over)))
          | inr within ↦ elim (settle-inv tenant run_id charge (now * 1000) w.redis) [
            | inr (_, gone) ↦ inr (inr (no_reservation, rw (good, found, free, within, gone)))
            | inl (v, bal, held, replied) ↦
                let s : IsSettled = record {
                  run = run;
                  reservation = v;
                  valid_charge = good;
                  found = found;
                  within = within;
                  held = held;
                } in
                elim (update-inv run_id tenant expected (settle_updates money charge) [] now
                  w.runs) [
                    | inl (row, m, won) ↦
                        inl (s, row, m, rw (good, found, free, within, replied, won))
                    | inr lost ↦ inr (inl (s, rw (good, found, free, within, replied, lost)))
                  ]
          ]
        ]
      ]
    ]
  ]

  -- The run's row and its reservation in Redis name the same amount.
  abbrev pub IsAgreed : Type 0
  IsAgreed =
      (run : Run) (v : Reservation)
      → get_by_id run_id tenant w.runs ≡ some run
      → get_reservation tenant run_id w.redis ≡ some v
      → v.reserved_usd_micros ≡ run.reservation_max_cost_usd_micros

  -- Redis has taken exactly the charge from the tenant, and the reservation is gone.
  pub record IsTaken (redis : Redis) : Type 0 where
    pub still_valid : IsValid redis
    pub taken : (t : ℕ) → total t redis +ℤ share t tenant charge ≡ total t w.redis
    pub released : get_reservation tenant run_id redis ≡ none

  taken : IsValid w.redis → IsAgreed → IsSettled → IsTaken after_settle
  taken valid agreed s =
      let p : IsSettlement tenant run_id charge s.reservation
          (settle tenant run_id charge (now * 1000) w.redis) =
        settle-IsSettlement tenant run_id charge (now * 1000) w.redis s.reservation valid s.held in
      let (valid', keeps) = settle-keeps tenant run_id charge (now * 1000) w.redis valid in
      let same = agreed s.run s.reservation s.found s.held in
      let nonneg = ((validate_usd_micros_lem charge).0 s.valid_charge).0 in
      let covered : charge ≤ℤ s.reservation.reserved_usd_micros =
        rw same (ground (arith, s.within)) in
      let exact : charged (settle tenant run_id charge (now * 1000) w.redis).0 ≡ charge =
        ap charged p.replied ∙ p.as_requested nonneg covered in
      record {
        still_valid = valid';
        taken = λ t. ap (λ (c : ℤ). total t after_settle +ℤ share t tenant c) (sym exact) ∙ keeps t;
        released = p.released;
      }

  pub record Settles (result : Result BudgetError Bool × World) : Type 0 where
    pub both :
        result.0 ≡ ok true
        → IsTaken result.1.redis
          × (run : Run) × (lookup run_id w.runs ≡ some run)
          × (lookup run_id result.1.runs
              ≡ some (bump expected now (settle_updates money charge) run))
    pub parted : result.0 ≡ ok false → IsTaken result.1.redis × (result.1.runs ≡ w.runs)
    pub raised : (e : BudgetError) → result.0 ≡ err e → result.1 ≡ w

-- `BudgetManager.settle` and `refund`, where the run's row and the reservation agree on the amount
-- and the store is valid. If it returns true, the tenant has paid exactly the charge, the
-- reservation is gone, and the row has the money state and the charge, with the next version. If it
-- returns false, the tenant has paid all the same and the reservation is gone, but the row is not
-- changed: the two stores have parted. If it raises, nothing has changed.
pub settle_as_lem :
    (money : MoneyState) (run_id tenant expected : ℕ) (charge : ℤ) (now : ℕ) (w : World)
    → IsValid w.redis
    → IsAgreed money run_id tenant expected charge now w
    → Settles money run_id tenant expected charge now w
        (settle_as money run_id tenant expected charge now w)
settle_as_lem money run_id tenant expected charge now w valid agreed =
    elim (settle_as-inv money run_id tenant expected charge now w) [
      | inr (inr (e, failed)) ↦
          rw failed (record { both = λ p. cc; parted = λ p. cc; raised = λ e' p. refl })
      | inr (inl (s, lost)) ↦ rw lost (record {
        both = λ p. cc;
        parted = λ p. (taken money run_id tenant expected charge now w valid agreed s, refl);
        raised = λ e p. cc;
      })
      | inl (s, run, m, won) ↦ rw won (record {
        both = λ p. (
          taken money run_id tenant expected charge now w valid agreed s,
          run,
          m.0,
          lookup-insert_self run_id (bump expected now (settle_updates money charge) run) w.runs,
        );
        parted = λ p. cc;
        raised = λ e p. cc;
      })
    ]
