-- ===== src/Submit/Fee.antt =====
-- The minimum fee of a run.
use decisionproof.Base.{ℤ, pos, pos_part, ◌/◌, ◌≤ℤ◌, ◌≡◌, arith}
use decisionproof.Submit.{minimum_fee_of}

-- The minimum fee is never more than what is reserved, nor than 100000 micros, and never negative. For
-- a maximum cost that the plan check lets through, which is at least 5000 micros, it is at least
-- 5000, and two percent of the cost, rounded down, where that is between 5000 and 100000.
pub minimum_fee_bounds :
    (cost : ℤ)
    → pos 0 ≤ℤ cost
    → let fee = minimum_fee_of cost in
      (pos 0 ≤ℤ fee)
      × (fee ≤ℤ cost)
      × (fee ≤ℤ pos 100000)
      × (pos 5000 ≤ℤ cost → pos 5000 ≤ℤ fee)
      × (pos 250000 ≤ℤ cost → cost ≤ℤ pos 5000000 → fee ≡ pos (pos_part cost / 50))
unfolding minimum_fee_of
minimum_fee_bounds cost p =
    (ground (arith, p), ground (arith, p), ground (arith, p), ground (arith, p), ground (arith, p))
