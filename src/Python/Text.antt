-- ===== src/Python/Text.antt =====
-- Decimal texts of integers, as `str` and f-strings write them.
pub mod Digits
use browseterm_server_local.Prelude.{
  ℕ, zero, suc, ◌/◌, ◌%◌, ◌≡◌, refl, String, ◌<>◌, eqb, ltb, if◌then◌else◌,
}

-- `negsuc n` is -(n + 1).
pub data ℤ : Type 0 where
  pos : ℕ → ℤ
  negsuc : ℕ → ℤ

digit : ℕ → String
digit n =
    if eqb n 0
    then "0"
    else if eqb n 1
    then "1"
    else if eqb n 2
    then "2"
    else if eqb n 3
    then "3"
    else if eqb n 4
    then "4"
    else if eqb n 5
    then "5"
    else if eqb n 6
    then "6"
    else if eqb n 7
    then "7"
    else if eqb n 8
    then "8"
    else "9"

digits_of : ℕ → ℕ → String
digits_of zero n = ""
digits_of (suc fuel) n =
    let rest = digits_of fuel (n / 10) <> digit (n % 10) in if ltb n 10 then digit n else rest

-- The decimal digits of a number: the fuel bounds the count of digits.
unfoldable pub show_ℕ : ℕ → String
unfolding digits_of digit
show_ℕ n = digits_of (suc n) n

unfoldable pub show_ℤ : ℤ → String
unfolding show_ℕ
show_ℤ (pos n) = show_ℕ n
show_ℤ (negsuc n) = "-" <> show_ℕ (suc n)

show_ℤ_example : show_ℤ (negsuc 1029) ≡ "-1030"
unfolding show_ℤ
show_ℤ_example = refl
