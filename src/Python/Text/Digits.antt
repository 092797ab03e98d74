-- ===== src/Python/Text/Digits.antt =====
-- Decimal texts hold digits alone, at least one.
use Prim.Native.Char.{Char, code}
use Prim.Native.String.append
use browseterm_server_local.Prelude.{
  ◌+◌, ◌*◌, ◌-◌, ◌<◌, ap, ◌∙◌, sym, eq_iff, ◌==◌, ℕ, zero, suc, ◌/◌, ◌%◌, ltb, String, ◌<>◌, ◌≡◌,
  refl, Bool, true, false, arith, if◌then◌else◌,
}
use browseterm_server_local.Python.Text
use browseterm_server_local.Python.Strings.{all_chars, is_digit, is_empty, span}

pub nil_append : (t : String) → ("" <> t) ≡ t
nil_append t = λ i. append.nil t i

pub cons_append : (c : Char) (s t : String) → (String.◌∷◌ c s <> t) ≡ String.◌∷◌ c (s <> t)
cons_append c s t = λ i. append.cons c s t i

-- One of two texts, each of which has the property.
either : (b : Bool) (P : String → Type 0) (s t : String) → P s → P t → P (if b then s else t)
either true P s t hs ht = hs
either false P s t hs ht = ht

-- What holds of the ten digits.
ten_digits :
    (P : String → Type 0) (n : ℕ)
    → P "0"
    → P "1"
    → P "2"
    → P "3"
    → P "4"
    → P "5"
    → P "6"
    → P "7"
    → P "8"
    → P "9"
    → P (Text.digit n)
unfolding Text.digit
ten_digits P n h0 h1 h2 h3 h4 h5 h6 h7 h8 h9 = either _ P _ _ h0 (
    either _ P _ _ h1 (
      either _ P _ _ h2 (
        either _ P _ _ h3 (
          either _ P _ _ h4
            (either _ P _ _ h5 (either _ P _ _ h6 (either _ P _ _ h7 (either _ P _ _ h8 h9))))))))

digit-is_digit : (n : ℕ) → all_chars is_digit (Text.digit n) ≡ true
unfolding all_chars
digit-is_digit n =
    ten_digits (λ s. all_chars is_digit s ≡ true) n refl refl refl refl refl refl refl refl refl
      refl

all_chars-append :
    (p : ℕ → Bool) (s t : String)
    → all_chars p s ≡ true
    → all_chars p t ≡ true
    → all_chars p (s <> t) ≡ true
unfolding all_chars
all_chars-append p String.[] t hs ht = rw (nil_append t) ht
all_chars-append p (String.◌∷◌ c s) t hs ht =
    rw (cons_append c s t) (ground (arith, all_chars-append p s t))

digits_of-is_digit : (fuel n : ℕ) → all_chars is_digit (Text.digits_of fuel n) ≡ true
unfolding Text.digits_of all_chars
digits_of-is_digit zero n = refl
digits_of-is_digit (suc fuel) n = ground (
  arith,
  digit-is_digit n,
  all_chars-append is_digit (Text.digits_of fuel (n / 10)) (Text.digit (n % 10))
      (digits_of-is_digit fuel (n / 10)) (digit-is_digit (n % 10)),
)

pub show_ℕ-is_digit : (n : ℕ) → all_chars is_digit (Text.show_ℕ n) ≡ true
unfolding Text.show_ℕ
show_ℕ-is_digit n = digits_of-is_digit (suc n) n

digit_nonempty : (n : ℕ) → is_empty (Text.digit n) ≡ false
digit_nonempty n =
    ten_digits (λ s. is_empty s ≡ false) n refl refl refl refl refl refl refl refl refl refl

pub append_nonempty : (s t : String) → is_empty t ≡ false → is_empty (s <> t) ≡ false
append_nonempty String.[] t h = rw (nil_append t) h
append_nonempty (String.◌∷◌ c s) t h = rw (cons_append c s t) refl

pub show_ℕ_nonempty : (n : ℕ) → is_empty (Text.show_ℕ n) ≡ false
unfolding Text.show_ℕ Text.digits_of
show_ℕ_nonempty n = ground (
  arith,
  digit_nonempty n,
  append_nonempty (Text.digits_of n (n / 10)) (Text.digit (n % 10)) (digit_nonempty (n % 10)),
)

-- The digits that begin a text, before something that is no digit.
pub span-append :
    (p : ℕ → Bool) (s t : String)
    → all_chars p s ≡ true
    → span p t ≡ ("", t)
    → span p (s <> t) ≡ (s, t)
unfolding all_chars span
span-append p String.[] t hs ht = rw (nil_append t) ht
span-append p (String.◌∷◌ c s) t hs ht = rw (cons_append c s t) (ground (arith, span-append p s t))

pub append_nil : (s : String) → (s <> "") ≡ s
append_nil String.[] = nil_append ""
append_nil (String.◌∷◌ c s) = cons_append c s "" ∙ ap (λ t. String.◌∷◌ c t) (append_nil s)

-- The number that digits add to what was read before.
unfoldable pub value_from : ℕ → String → ℕ
value_from n String.[] = n
value_from n (String.◌∷◌ c s) = value_from (n * 10 + (code c - b'0')) s

value_from-append : (s t : String) (n : ℕ) → value_from n (s <> t) ≡ value_from (value_from n s) t
unfolding value_from
value_from-append String.[] t n = rw (nil_append t) refl
value_from-append (String.◌∷◌ c s) t n = rw (cons_append c s t) (value_from-append s t _)

value_from-digit : (m n : ℕ) → n < 10 → value_from m (Text.digit n) ≡ m * 10 + n
unfolding value_from Text.digit
value_from-digit m zero small = omega arith
value_from-digit m (suc zero) small = omega arith
value_from-digit m (suc (suc zero)) small = omega arith
value_from-digit m (suc (suc (suc zero))) small = omega arith
value_from-digit m (suc (suc (suc (suc zero)))) small = omega arith
value_from-digit m (suc (suc (suc (suc (suc zero))))) small = omega arith
value_from-digit m (suc (suc (suc (suc (suc (suc zero)))))) small = omega arith
value_from-digit m (suc (suc (suc (suc (suc (suc (suc zero))))))) small = omega arith
value_from-digit m (suc (suc (suc (suc (suc (suc (suc (suc zero)))))))) small = omega arith
value_from-digit m (suc (suc (suc (suc (suc (suc (suc (suc (suc zero))))))))) small = omega arith
value_from-digit m (suc (suc (suc (suc (suc (suc (suc (suc (suc (suc n)))))))))) small = omega arith

value_from-digits_of : (fuel n : ℕ) → n < fuel → value_from 0 (Text.digits_of fuel n) ≡ n
unfolding Text.digits_of
value_from-digits_of zero n enough = omega arith
value_from-digits_of (suc fuel) n enough = by_size (value_from-digits_of fuel) (ltb n 10) refl
  where
    by_size :
        ((m : ℕ) → m < fuel → value_from 0 (Text.digits_of fuel m) ≡ m)
        → (b : Bool) → ltb n 10 ≡ b
        → value_from 0
            (if b then Text.digit n else Text.digits_of fuel (n / 10) <> Text.digit (n % 10))
          ≡ n
    by_size ih true small = value_from-digit 0 n (ground arith) ∙ omega arith
    by_size ih false large =
        value_from-append (Text.digits_of fuel (n / 10)) (Text.digit (n % 10)) 0
        ∙ ap (λ m. value_from m (Text.digit (n % 10))) (ih (n / 10) (ground arith))
        ∙ value_from-digit (n / 10) (n % 10) (omega arith)
        ∙ omega arith

pub value_from-show_ℕ : (n : ℕ) → value_from 0 (Text.show_ℕ n) ≡ n
unfolding Text.show_ℕ
value_from-show_ℕ n = value_from-digits_of (suc n) n (omega arith)

pub not_empty : (s : String) → is_empty s ≡ false → (s == "") ≡ false
not_empty s h = by_test (s == "") refl
  where
    by_test : (b : Bool) → (s == "") ≡ b → b ≡ false
    by_test true same = sym (ap is_empty ((eq_iff s "").0 same)) ∙ h
    by_test false same = refl
