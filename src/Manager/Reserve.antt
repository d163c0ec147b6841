-- ===== src/Manager/Reserve.antt =====
-- `BudgetManager.reserve`: both stores, or neither.
use decisionproof.Base.{
  ℕ, ◌*◌, ℤ, pos, ◌-ℤ◌, ◌≤ℤ◌, ltb_ℤ, ◌≡◌, ◌≢◌, refl, sym, ◌∙◌, ◌⊎◌, inl, inr, Bool, true, false,
  none, some, [], lookup, insert, lookup-insert_self, nat_eq, Bool-cases, Option-cases,
}
use decisionproof.Money.{validate_usd_micros}
use decisionproof.Money.Rounding.{validate_usd_micros_lem}
use decisionproof.Budget.{
  Redis, get_balance, get_reservation, ReserveReply, reserved, already_reserved, insufficient,
  reserve, refund_full,
}
use decisionproof.Budget.Ledger.{total}
use decisionproof.Budget.Scripts.{IsValid, reserve-keeps}
use decisionproof.Budget.Settling.{refund_full-keeps}
use decisionproof.Budget.Reserving.{
  reserve_cases, new_reservation, reserve_reserved, reserve-refund,
}
use decisionproof.Runs.{Run, MoneyState, is_money_state, bump, get_by_id}
use decisionproof.Runs.Locking.{Matched, update-inv}
use decisionproof.World.{World, Result, ok, err}
use decisionproof.Manager.{
  BudgetError, invalid_amount, budget_error, insufficient_budget, invalid_money_state,
  already_has_reservation, reserve_budget,
}

abbrev pub reserve_updates : ℤ → Run → Run
reserve_updates amount r = record r {
  money_state = MoneyState.reserved;
  reservation_max_cost_usd_micros = amount;
}

module _ (run_id tenant expected : ℕ) (amount : ℤ) (now : ℕ) (w : World) where
  abbrev whole : Result BudgetError Bool × World
  whole = reserve_budget run_id tenant expected amount now w

  abbrev pub after_script : Redis
  after_script = (reserve tenant run_id amount (now * 1000) w.redis).1

  -- The script went through for a valid amount and a run in the money state NONE.
  pub record IsReserved : Type 0 where
    pub run : Run
    pub balance : ℤ
    pub valid_amount : validate_usd_micros amount ≡ none
    pub found : get_by_id run_id tenant w.runs ≡ some run
    pub unreserved : is_money_state run.money_state MoneyState.unreserved ≡ true
    pub replied : (reserve tenant run_id amount (now * 1000) w.redis).0 ≡ reserved balance

  -- A refusal by the script leaves Redis as it was.
  refused :
      (reply : ReserveReply)
      → (reserve tenant run_id amount (now * 1000) w.redis).0 ≡ reply
      → ((b : ℤ) → reply ≢ reserved b)
      → after_script ≡ w.redis
  refused reply e not_reserved =
      let (taken, low, free) = reserve_cases tenant run_id amount (now * 1000) w.redis in
      elim (Option-cases (get_reservation tenant run_id w.redis)) [
        | inr (v, there) ↦ (taken (λ gone. cc (there, gone))).1
        | inl gone ↦ elim (Bool-cases (ltb_ℤ (get_balance tenant w.redis) amount)) [
          | inl short ↦ (low gone short).1
          | inr enough ↦ absurd (not_reserved _ (sym e ∙ (free gone enough).0))
        ]
      ]

  pub reserve_budget-inv :
      ((s : IsReserved) × (run : Run) × Matched run_id tenant expected [] w.runs run
        × (whole ≡ (
          ok true,
          record w {
            runs = insert run_id (bump expected now (reserve_updates amount) run) w.runs;
            redis = after_script;
          },
        )))
      ⊎ ((s : IsReserved) × (whole
            ≡ (ok false, record w { redis = (refund_full tenant run_id after_script).1 })))
      ⊎ ((e : BudgetError) × (whole ≡ (err e, w)))
  unfolding reserve_budget
  reserve_budget-inv = elim (Option-cases (validate_usd_micros amount)) [
    | inr (e, bad) ↦ inr (inr (invalid_amount e, rw bad))
    | inl good ↦ elim (Option-cases (get_by_id run_id tenant w.runs)) [
      | inl missing ↦ inr (inr (budget_error, rw (good, missing)))
      | inr (run, found) ↦
          elim (Bool-cases (is_money_state run.money_state MoneyState.unreserved)) [
            | inr other ↦ inr (inr (invalid_money_state, rw (good, found, other)))
            | inl free ↦ by_reply run good found free _ refl
          ]
    ]
  ]
    where
      by_reply :
          (run : Run)
          → validate_usd_micros amount ≡ none
          → get_by_id run_id tenant w.runs ≡ some run
          → is_money_state run.money_state MoneyState.unreserved ≡ true
          → (reply : ReserveReply) → (reserve tenant run_id amount (now * 1000) w.redis).0 ≡ reply
          → ((s : IsReserved) × (run : Run) × Matched run_id tenant expected [] w.runs run
              × (whole ≡ (
                ok true,
                record w {
                  runs = insert run_id (bump expected now (reserve_updates amount) run) w.runs;
                  redis = after_script;
                },
              )))
            ⊎ ((s : IsReserved) × (whole
                  ≡ (ok false, record w { redis = (refund_full tenant run_id after_script).1 })))
            ⊎ ((e : BudgetError) × (whole ≡ (err e, w)))
      by_reply run good found free already_reserved e = inr (
          inr (
            already_has_reservation,
            rw (good, found, free, e) (rw (refused already_reserved e (λ b p. cc))),
          ))
      by_reply run good found free (insufficient bal) e = inr (
          inr (
            insufficient_budget,
            rw (good, found, free, e) (rw (refused (insufficient bal) e (λ b p. cc))),
          ))
      by_reply run good found free (reserved bal) e =
          let s : IsReserved = record {
            run = run;
            balance = bal;
            valid_amount = good;
            found = found;
            unreserved = free;
            replied = e;
          } in
          elim (update-inv run_id tenant expected (reserve_updates amount) [] now w.runs) [
            | inl (row, m, won) ↦ inl (s, row, m, rw (good, found, free, e) (rw won))
            | inr lost ↦ inr (inl (s, rw (good, found, free, e) (rw lost)))
          ]

-- What a reserve that returned true, false or an error has done, from one world to the other.
pub record Reserves (run_id tenant expected : ℕ) (amount : ℤ) (now : ℕ) (w : World)
    (result : Result BudgetError Bool × World) : Type 0 where
  pub both :
      result.0 ≡ ok true
      → (run : Run) × (lookup run_id w.runs ≡ some run)
        × (lookup run_id result.1.runs ≡ some (bump expected now (reserve_updates amount) run))
        × (get_reservation tenant run_id result.1.redis
            ≡ some (new_reservation tenant amount (now * 1000)))
        × (get_balance tenant result.1.redis ≡ get_balance tenant w.redis -ℤ amount)
  pub rolled_back :
      result.0 ≡ ok false
      → (result.1.runs ≡ w.runs)
        × ((t : ℕ) → get_balance t result.1.redis ≡ get_balance t w.redis)
        × (get_reservation tenant run_id result.1.redis ≡ none)
  pub raised : (e : BudgetError) → result.0 ≡ err e → result.1 ≡ w
  pub still_valid : IsValid result.1.redis
  pub conserved : (t : ℕ) → total t result.1.redis ≡ total t w.redis

-- `BudgetManager.reserve` on a valid store keeps the database and Redis together. It returns true
-- only when the run has the money state RESERVED with the amount and the next version, and Redis
-- holds a reservation of the amount taken from the balance. If it returns false, the row is not
-- changed, every balance is what it was, and Redis has no reservation of the run. If it raises,
-- nothing has changed. In all cases the store stays valid and no money is made or lost.
pub reserve_budget_lem :
    (run_id tenant expected : ℕ) (amount : ℤ) (now : ℕ) (w : World)
    → IsValid w.redis
    → Reserves run_id tenant expected amount now w
        (reserve_budget run_id tenant expected amount now w)
reserve_budget_lem run_id tenant expected amount now w valid =
    elim (reserve_budget-inv run_id tenant expected amount now w) [
      | inr (inr (e, failed)) ↦ rw failed (record {
        both = λ p. cc;
        rolled_back = λ p. cc;
        raised = λ e' p. refl;
        still_valid = valid;
        conserved = λ t. refl;
      })
      | inl (s, run, m, won) ↦
          let (free, bal) = made s in
          let (valid', keeps) =
            reserve-keeps tenant run_id amount (now * 1000) w.redis valid (nonneg s) in
          rw won (record {
            both = λ p. (
              run,
              m.0,
              lookup-insert_self run_id (bump expected now (reserve_updates amount) run) w.runs,
              bal,
              free,
            );
            rolled_back = λ p. cc;
            raised = λ e p. cc;
            still_valid = valid';
            conserved = keeps;
          })
      | inr (inl (s, lost)) ↦
          let (valid', keeps) =
            reserve-keeps tenant run_id amount (now * 1000) w.redis valid (nonneg s) in
          let (valid'', keeps') =
            refund_full-keeps tenant run_id (after_script run_id tenant expected amount now w)
              valid' in
          rw lost (record {
            both = λ p. cc;
            rolled_back = λ p.
                let (same, gone) =
                  reserve-refund tenant run_id amount s.balance (now * 1000) w.redis valid
                    (nonneg s) s.replied in
                (refl, same, gone);
            raised = λ e p. cc;
            still_valid = valid'';
            conserved = λ t. keeps' t ∙ keeps t;
          })
    ]
  where
    nonneg : IsReserved run_id tenant expected amount now w → pos 0 ≤ℤ amount
    nonneg s = ((validate_usd_micros_lem amount).0 s.valid_amount).0

    made :
        IsReserved run_id tenant expected amount now w
        → (get_balance tenant (reserve tenant run_id amount (now * 1000) w.redis).1
            ≡ get_balance tenant w.redis -ℤ amount)
          × (get_reservation tenant run_id (reserve tenant run_id amount (now * 1000) w.redis).1
              ≡ some (new_reservation tenant amount (now * 1000)))
    made s = reserve_reserved tenant run_id amount s.balance (now * 1000) w.redis s.replied
