-- ===== src/Money/Rounding.antt =====
-- Conversions between micros and dollars with four places.
use decisionproof.Base.{ℕ, ◌+◌, ◌*◌, ◌/◌, ◌%◌, ◌≤◌, ℤ, pos, ◌≤ℤ◌, ◌≡◌, ◌↔◌, refl, none, arith}
use decisionproof.Money.{
  ok, err, amount_too_large, usd_micros_to_decimal, decimal_to_usd_micros, max_micros,
  validate_usd_micros,
}

pub max_micros_lem : max_micros ≡ pos 10000000000
unfolding max_micros
max_micros_lem = refl

-- The amounts that pass are those from 0 to ten thousand dollars, both included.
pub validate_usd_micros_lem :
    (micros : ℤ)
    → (validate_usd_micros micros ≡ none) ↔ ((pos 0 ≤ℤ micros) × (micros ≤ℤ pos 10000000000))
unfolding validate_usd_micros
validate_usd_micros_lem micros =
    (λ h. ground (arith, max_micros_lem), λ h. ground (arith, max_micros_lem))

-- An amount with four places, as the API writes it, is stored and shown without loss: up to ten
-- thousand dollars it converts to a hundred micros for each unit of its last place and back to
-- itself; a larger amount is refused.
pub decimal_roundtrip :
    (c : ℕ)
    → (c ≤ 100000000
        → (decimal_to_usd_micros (record { coefficient = pos c; places = 4 }) ≡ ok (pos (c * 100)))
          × (usd_micros_to_decimal (pos (c * 100)) ≡ record { coefficient = pos c; places = 4 }))
      × (¬ (c ≤ 100000000)
          → decimal_to_usd_micros (record { coefficient = pos c; places = 4 })
            ≡ err amount_too_large)
unfolding decimal_to_usd_micros usd_micros_to_decimal
decimal_roundtrip c = (λ h. (ground arith, ground arith), λ h. ground arith)

-- Showing a stored amount and reading it back is off by at most 50 micros, and by nothing if the
-- amount is a multiple of 100 micros; for amounts that `validate_usd_micros` accepts.
pub micros_roundtrip :
    (m : ℕ)
    → m ≤ 10000000000
    → (x : ℕ) × (decimal_to_usd_micros (usd_micros_to_decimal (pos m)) ≡ ok (pos x))
      × (m ≤ x + 50)
      × (x ≤ m + 50)
      × (m % 100 ≡ 0 → x ≡ m)
unfolding decimal_to_usd_micros usd_micros_to_decimal
micros_roundtrip m h =
    ((2 * m + 100) / 200 * 100, ground arith, omega arith, omega arith, λ e. omega arith)
