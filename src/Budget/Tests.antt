-- ===== src/Budget/Tests.antt =====
-- Runs of the scripts on one store, and the theorems applied to it.
use decisionproof.Base.{pos, negsuc, ◌+ℤ◌, ◌-ℤ◌, ◌≡◌, refl, List, [], ◌∷◌, arith, nat_eq, pair_eq}
use decisionproof.Budget.{
  get_balance, reserved, insufficient, settled, reserve, settle, refund_full,
}
use decisionproof.Budget.Ledger.{total}
use decisionproof.Budget.Trace.{
  Call, reserves, settles, refunds, step, run_calls, charges, run_calls-conserves,
}
use decisionproof.Examples.{store, store-IsValid}

-- Settling more than is reserved charges what is reserved; less than nothing, nothing.
settle_over : (settle 1 8 (pos 900) 10 store).0 ≡ settled (pos 300) (pos 0) (pos 700)
unfolding settle ◌+ℤ◌ ◌-ℤ◌
settle_over = refl

settle_negative : (settle 1 8 (negsuc 4) 10 store).0 ≡ settled (pos 0) (pos 300) (pos 1000)
unfolding settle ◌+ℤ◌ ◌-ℤ◌
settle_negative = refl

reserve_too_much : (reserve 1 9 (pos 701) 10 store).0 ≡ insufficient (pos 700)
unfolding reserve ◌+ℤ◌ ◌-ℤ◌
reserve_too_much = refl

abbrev history : List Call
history =
    reserves 1 9 (pos 600) 10
    ∷ settles 1 8 (pos 120) 11
    ∷ settles 1 8 (pos 120) 12
    ∷ refunds 1 9
    ∷ []

run_calls-history : get_balance 1 (run_calls history store) ≡ pos 880
unfolding run_calls step refund_full settle reserve ◌+ℤ◌ ◌-ℤ◌
run_calls-history = refl

run_calls-conserves_example :
    total 1 (run_calls history store) +ℤ charges 1 history store ≡ total 1 store
run_calls-conserves_example = (run_calls-conserves history store store-IsValid (omega arith)).1 1

replied : (reserve 1 9 (pos 600) 10 store).0 ≡ reserved (pos 100)
unfolding reserve ◌+ℤ◌ ◌-ℤ◌
replied = refl
