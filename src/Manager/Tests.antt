-- ===== src/Manager/Tests.antt =====
-- The budget manager on the example world.
use decisionproof.Base.{pos, arith, nat_eq, pair_eq}
use decisionproof.Runs.{MoneyState, get_by_id}
use decisionproof.Manager.{reserve_budget}
use decisionproof.Manager.Reserve.{Reserves, reserve_budget_lem}
use decisionproof.Manager.Settle.{IsAgreed}
use decisionproof.Examples.{store-IsValid, world}

reserve_budget_lem_example :
    Reserves 9 1 0 (pos 600) 70 world (reserve_budget 9 1 0 (pos 600) 70 world)
reserve_budget_lem_example = reserve_budget_lem 9 1 0 (pos 600) 70 world store-IsValid

agreed : IsAgreed MoneyState.settled 8 1 3 (pos 120) 70 world
unfolding get_by_id
agreed run v found held = ground (arith, found, held)
