-- ===== src/Money/Tests.antt =====
-- Amounts from the docstrings of the source, and the theorems at concrete amounts.
use decisionproof.Base.{pos, negsuc, ◌≡◌, refl, arith}
use decisionproof.Money.{
  ok, err, negative_amount, amount_too_large, usd_micros_to_decimal, decimal_to_usd_micros,
}
use decisionproof.Money.Rounding.{decimal_roundtrip}

shown : usd_micros_to_decimal (pos 1500000) ≡ record { coefficient = pos 15000; places = 4 }
unfolding usd_micros_to_decimal
shown = refl

stored : decimal_to_usd_micros (record { coefficient = pos 150; places = 2 }) ≡ ok (pos 1500000)
unfolding decimal_to_usd_micros
stored = refl

refused :
    decimal_to_usd_micros (record { coefficient = negsuc 0; places = 4 }) ≡ err negative_amount
unfolding decimal_to_usd_micros
refused = refl

decimal_roundtrip_example :
    decimal_to_usd_micros (record { coefficient = pos 100000001; places = 4 })
    ≡ err amount_too_large
decimal_roundtrip_example = (decimal_roundtrip 100000001).1 (omega arith)
