-- ===== src/Manager.antt =====
-- `BudgetManager` (dpp/apps/api/dpp_api/budget/manager.py): reserve, then settle or refund, in Redis
-- and in the money state of the run. The observability variables that it sets are left out.
pub mod Reserve
pub mod Settle
mod Tests
use decisionproof.Base.{
  ℕ, ◌+◌, ◌*◌, ℤ, ltb_ℤ, Bool, true, false, not, Option, none, some, List, [], ◌∷◌, is_some,
  if◌then◌else◌,
}
use decisionproof.Money.{MoneyError, validate_usd_micros}
use decisionproof.Budget.{
  Redis, Reservation, get_balance, set_balance, get_reservation, ReserveReply, reserved,
  already_reserved, insufficient, reserve, SettleReply, settled, no_reserve, refund_full,
}
use decisionproof.Runs.{Run, MoneyState, is_money_state, get_by_id}
use decisionproof.World.{
  World, ok, err, Action, pure, or_raise, ◌>>=◌, ◌>>◌, raise_unless, read_run, update_run,
  settle_run,
}

-- The exceptions: `ValueError` by its money error, and the classes of budget/manager.py.
pub data BudgetError : Type 0 where
  invalid_amount : MoneyError → BudgetError
  budget_error : BudgetError
  insufficient_budget : BudgetError
  invalid_money_state : BudgetError
  already_has_reservation : BudgetError
  no_reservation : BudgetError

abbrev pub raise_invalid : Option MoneyError → Action BudgetError Unit
raise_invalid none w = (ok tt, w)
raise_invalid (some e) w = (err (invalid_amount e), w)

-- `scripts.reserve`
abbrev pub reserve_run : ℕ → ℕ → ℤ → ℕ → Action BudgetError ReserveReply
reserve_run tenant run_id amount now w =
    let (reply, r') = reserve tenant run_id amount (now * 1000) w.redis in
    (ok reply, record w { redis = r' })

abbrev pub raise_refused : ReserveReply → Action BudgetError Unit
raise_refused (reserved _) w = (ok tt, w)
raise_refused (insufficient _) w = (err insufficient_budget, w)
raise_refused already_reserved w = (err already_has_reservation, w)

-- `scripts.refund_full`, whose result is not read.
abbrev pub refund_run : ℕ → ℕ → Action BudgetError Unit
refund_run tenant run_id w = (ok tt, record w { redis = (refund_full tenant run_id w.redis).1 })

-- Version mismatch: the reservation in Redis is rolled back.
abbrev pub roll_back_unless : Bool → ℕ → ℕ → Action BudgetError Bool
roll_back_unless true tenant run_id = pure true
roll_back_unless false tenant run_id = refund_run tenant run_id >> pure false

unfoldable pub reserve_budget : ℕ → ℕ → ℕ → ℤ → ℕ → Action BudgetError Bool
reserve_budget run_id tenant expected amount now = do
  raise_invalid (validate_usd_micros amount)
  run ← or_raise (← read_run run_id tenant) budget_error
  raise_unless (is_money_state run.money_state MoneyState.unreserved) invalid_money_state
  raise_refused (← reserve_run tenant run_id amount now)
  won ←
      update_run run_id tenant expected
        (λ r. record r {
          money_state = MoneyState.reserved;
          reservation_max_cost_usd_micros = amount;
        })
        [] now
  roll_back_unless won tenant run_id

abbrev pub raise_no_reservation : SettleReply → Action BudgetError Unit
raise_no_reservation (settled _ _ _) w = (ok tt, w)
raise_no_reservation no_reserve w = (err no_reservation, w)

-- The common course of `settle` and `refund`, which differ in the money state that they write.
unfoldable pub settle_as : MoneyState → ℕ → ℕ → ℕ → ℤ → ℕ → Action BudgetError Bool
settle_as money run_id tenant expected charge now = do
  raise_invalid (validate_usd_micros charge)
  run ← or_raise (← read_run run_id tenant) budget_error
  raise_unless (is_money_state run.money_state MoneyState.reserved) invalid_money_state
  raise_unless (not (ltb_ℤ run.reservation_max_cost_usd_micros charge)) budget_error
  raise_no_reservation (← settle_run tenant run_id charge now)
  update_run run_id tenant expected
      (λ r. record r { money_state = money; actual_cost_usd_micros = some charge }) [] now

unfoldable pub settle_budget : ℕ → ℕ → ℕ → ℤ → ℕ → Action BudgetError Bool
unfolding settle_as
settle_budget = settle_as MoneyState.settled

unfoldable pub refund_budget : ℕ → ℕ → ℕ → ℤ → ℕ → Action BudgetError Bool
unfolding settle_as
refund_budget = settle_as MoneyState.refunded

unfoldable pub set_tenant_balance : ℕ → ℤ → Action BudgetError Unit
set_tenant_balance tenant amount = do
  raise_invalid (validate_usd_micros amount)
  λ w. (ok tt, record w { redis = set_balance tenant amount w.redis })

pub record Summary : Type 0 where
  pub money_state : MoneyState
  pub reservation_max_cost_usd_micros : ℤ
  pub actual_cost_usd_micros : Option ℤ
  pub minimum_fee_usd_micros : ℤ
  pub redis_reservation_exists : Bool
  pub redis_reserved_amount : Option ℤ

abbrev pub reserved_amount : Option Reservation → Option ℤ
reserved_amount none = none
reserved_amount (some v) = some v.reserved_usd_micros

abbrev pub summary : Run → Option Reservation → Summary
summary run reservation = record {
  money_state = run.money_state;
  reservation_max_cost_usd_micros = run.reservation_max_cost_usd_micros;
  actual_cost_usd_micros = run.actual_cost_usd_micros;
  minimum_fee_usd_micros = run.minimum_fee_usd_micros;
  redis_reservation_exists = is_some reservation;
  redis_reserved_amount = reserved_amount reservation;
}

unfoldable pub get_budget_summary : ℕ → ℕ → World → Option Summary
get_budget_summary run_id tenant w = elim (get_by_id run_id tenant w.runs) [
  | none ↦ none
  | some run ↦ some (summary run (get_reservation tenant run_id w.redis))
]
