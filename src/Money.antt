-- ===== src/Money.antt =====
-- Amounts of money (dpp/apps/api/dpp_api/utils/money.py). A `Decimal` is a coefficient and a number
-- of decimal places. Its products and quotients are exact here: the context of Python's decimal
-- module keeps 28 digits, and an amount within the limits with up to 17 places needs fewer.
pub mod Rounding
mod Tests
use decisionproof.Base.{
  ℕ, ◌+◌, ◌*◌, ◌/◌, ◌^◌, ℤ, pos, negsuc, pos_part, neg_part, suc, ltb_ℤ, Option, none, some,
  if◌then◌else◌, sub_ℕ,
}

pub record Decimal : Type 0 where
  pub coefficient : ℤ
  pub places : ℕ

abbrev pub micros_per_dollar : ℕ
micros_per_dollar = 1000000

-- MAX_AMOUNT_USD = Decimal("10000.0000"), in dollars.
abbrev pub max_amount_usd : ℕ
max_amount_usd = 10000

pub data MoneyError : Type 0 where
  negative_amount : MoneyError
  amount_too_large : MoneyError

pub data Checked (A : Type 0) : Type 0 where
  ok : A → Checked A
  err : MoneyError → Checked A

-- n / d rounded to the nearest whole number, a half away from zero (ROUND_HALF_UP).
abbrev pub round_half_up : ℕ → ℕ → ℕ
round_half_up n d = (2 * n + d) / (2 * d)

abbrev pub round_half_up_ℤ : ℤ → ℕ → ℤ
round_half_up_ℤ a d = sub_ℕ (round_half_up (pos_part a) d) (round_half_up (neg_part a) d)

-- micros / 10^6, quantized to four places.
unfoldable pub usd_micros_to_decimal : ℤ → Decimal
usd_micros_to_decimal micros = record { coefficient = round_half_up_ℤ micros 100; places = 4 }

-- a * k for a whole number k.
abbrev pub scale : ℤ → ℕ → ℤ
scale a k = sub_ℕ (pos_part a * k) (neg_part a * k)

unfoldable pub decimal_to_usd_micros : Decimal → Checked ℤ
decimal_to_usd_micros amount =
    if ltb_ℤ amount.coefficient (pos 0)
    then err negative_amount
    else if ltb_ℤ (pos (max_amount_usd * 10 ^ amount.places)) amount.coefficient
    then err amount_too_large
    else ok (round_half_up_ℤ (scale amount.coefficient micros_per_dollar) (10 ^ amount.places))

-- `decimal_to_usd_micros(MAX_AMOUNT_USD)`; it does not fail.
abbrev pub value_or : ℤ → Checked ℤ → ℤ
value_or d (ok a) = a
value_or d (err _) = d

unfoldable pub max_micros : ℤ
unfolding decimal_to_usd_micros
max_micros =
    value_or (pos 0) (decimal_to_usd_micros (record { coefficient = pos 100000000; places = 4 }))

-- The error that `validate_usd_micros` raises, if any.
unfoldable pub validate_usd_micros : ℤ → Option MoneyError
unfolding max_micros
validate_usd_micros micros =
    if ltb_ℤ micros (pos 0)
    then some negative_amount
    else if ltb_ℤ max_micros micros
    then some amount_too_large
    else none
