-- ===== src/Python/Strings/ReadBack.antt =====
-- A number that is written is read back by `int()`.
use Prim.Native.Char.{code}
use browseterm_server_local.Prelude.{
  ◌+◌, ◌*◌, ◌-◌, ℕ, String, ◌≡◌, refl, ap, ◌∙◌, Bool, true, false, ◌&&◌, some, arith, eqb,
}
use browseterm_server_local.Python.Text.{pos, show_ℕ}
use browseterm_server_local.Python.Text.Digits.{
  value_from, value_from-show_ℕ, show_ℕ-is_digit, show_ℕ_nonempty,
}
use browseterm_server_local.Python.Strings
use browseterm_server_local.Python.Strings.{
  all_chars, is_digit, is_empty, trim, trim_start, trim_end, int_of_text,
}

first : (a b : Bool) → a && b ≡ true → a ≡ true
first a b both = ground arith

second : (a b : Bool) → a && b ≡ true → b ≡ true
second a b both = ground arith

not_minus : (c : ℕ) → is_digit c ≡ true → eqb c b'-' ≡ false
not_minus c digit = ground arith

not_plus : (c : ℕ) → is_digit c ≡ true → eqb c b'+' ≡ false
not_plus c digit = ground arith

digits_value_lem :
    (s : String) (n : ℕ)
    → all_chars is_digit s ≡ true
    → Strings.digits_value n true s ≡ some (value_from n s)
unfolding Strings.digits_value all_chars value_from
digits_value_lem String.[] n h = refl
digits_value_lem (String.◌∷◌ c s) n h =
    rw (first (is_digit (code c)) (all_chars is_digit s) h)
      (digits_value_lem s _ (second (is_digit (code c)) (all_chars is_digit s) h))

signed_lem :
    (s : String)
    → all_chars is_digit s ≡ true
    → is_empty s ≡ false
    → Strings.signed s ≡ some (pos (value_from 0 s))
unfolding Strings.digits_value all_chars value_from
signed_lem String.[] h some_digit = cc
signed_lem (String.◌∷◌ c s) h some_digit =
    let digit = first (is_digit (code c)) (all_chars is_digit s) h in
    rw
      (
        not_minus (code c) digit,
        not_plus (code c) digit,
        digit,
        digits_value_lem s (0 * 10 + (code c - b'0'))
            (second (is_digit (code c)) (all_chars is_digit s) h),
      )
      refl

module _ (is_space : ℕ → Bool) (no_digit : (c : ℕ) → is_digit c ≡ true → is_space c ≡ false) where
  trim_start-digits : (s : String) → all_chars is_digit s ≡ true → trim_start is_space s ≡ s
  unfolding all_chars trim_start
  trim_start-digits String.[] h = refl
  trim_start-digits (String.◌∷◌ c s) h = ground (arith, no_digit (code c))

  trim_end-digits : (s : String) → all_chars is_digit s ≡ true → trim_end is_space s ≡ s
  unfolding all_chars trim_end
  trim_end-digits String.[] h = refl
  trim_end-digits (String.◌∷◌ c s) h = ground (arith, no_digit (code c), trim_end-digits s)

  pub int_of_text-show_ℕ : (n : ℕ) → int_of_text is_space (show_ℕ n) ≡ some (pos n)
  unfolding int_of_text trim
  int_of_text-show_ℕ n =
      rw
        (
          trim_start-digits (show_ℕ n) (show_ℕ-is_digit n),
          trim_end-digits (show_ℕ n) (show_ℕ-is_digit n),
        )
        (signed_lem (show_ℕ n) (show_ℕ-is_digit n) (show_ℕ_nonempty n)
          ∙ ap (λ m. some (pos m)) (value_from-show_ℕ n))
