-- ===== src/Python/Strings.antt =====
-- The methods of Python's `str` that the source uses, on characters. A test of characters reads the
-- code point.
pub mod ReadBack
use Prim.Native.Char.{Char, code}
use browseterm_server_local.Python.Text.{ℤ, pos, negsuc}
use browseterm_server_local.Prelude.{
  ◌*◌, ◌+◌, ◌-◌, ℕ, String, ◌<>◌, Bool, true, false, ◌&&◌, Option, none, some, List, [], ◌∷◌, eqb,
  leb, if◌then◌else◌,
}

abbrev pub is_empty : String → Bool
is_empty String.[] = true
is_empty (String.◌∷◌ c s) = false

-- `lstrip` and `rstrip`, of the characters that pass a test.
unfoldable pub trim_start : (ℕ → Bool) → String → String
trim_start p String.[] = ""
trim_start p (String.◌∷◌ c s) =
    let rest = trim_start p s in if p (code c) then rest else String.◌∷◌ c s

unfoldable pub trim_end : (ℕ → Bool) → String → String
trim_end p String.[] = ""
trim_end p (String.◌∷◌ c s) =
    let rest = trim_end p s in if is_empty rest && p (code c) then "" else String.◌∷◌ c rest

unfoldable pub trim : (ℕ → Bool) → String → String
unfolding trim_start trim_end
trim p s = trim_end p (trim_start p s)

-- `re.sub(r'[^...]', '', s)`: the characters that pass the test.
unfoldable pub keep : (ℕ → Bool) → String → String
keep p String.[] = ""
keep p (String.◌∷◌ c s) = let rest = keep p s in if p (code c) then String.◌∷◌ c rest else rest

-- `s.replace(old, new)` for single characters.
unfoldable pub replace : ℕ → Char → String → String
replace old new String.[] = ""
replace old new (String.◌∷◌ c s) =
    String.◌∷◌ (if eqb (code c) old then new else c) (replace old new s)

-- Every character passes the test.
unfoldable pub all_chars : (ℕ → Bool) → String → Bool
all_chars p String.[] = true
all_chars p (String.◌∷◌ c s) = p (code c) && all_chars p s

abbrev pub is_digit : ℕ → Bool
is_digit c = leb b'0' c && leb c b'9'

-- The first part that passes the test, and the rest.
unfoldable pub span : (ℕ → Bool) → String → String × String
span p String.[] = ("", "")
span p (String.◌∷◌ c s) =
    let (a, b) = span p s in if p (code c) then (String.◌∷◌ c a, b) else ("", String.◌∷◌ c s)

abbrev prepend : Char → List String → List String
prepend c [] = String.◌∷◌ c "" ∷ []
prepend c (x ∷ xs) = String.◌∷◌ c x ∷ xs

-- `s.split(sep)` for one character: never empty.
unfoldable pub split : ℕ → String → List String
split sep String.[] = "" ∷ []
split sep (String.◌∷◌ c s) =
    let rest = split sep s in if eqb (code c) sep then "" ∷ rest else prepend c rest

-- `sep.join(parts)`
unfoldable pub join : String → List String → String
join sep [] = ""
join sep (x ∷ []) = x
join sep (x ∷ y ∷ xs) = x <> sep <> join sep (y ∷ xs)

-- From the first character that is `c`: `s[s.find(c):]`.
unfoldable pub from_first : ℕ → String → Option String
from_first a String.[] = none
from_first a (String.◌∷◌ c s) =
    let rest = from_first a s in if eqb (code c) a then some (String.◌∷◌ c s) else rest

-- Up to the last character that is `c`: `s[:s.rfind(c) + 1]`.
unfoldable pub to_last : ℕ → String → Option String
to_last a String.[] = none
to_last a (String.◌∷◌ c s) = elim (to_last a s) [
  | some t ↦ some (String.◌∷◌ c t)
  | none ↦ if eqb (code c) a then some (String.◌∷◌ c "") else none
]

-- `s[:n]`, by characters.
unfoldable pub take : ℕ → String → String
take ℕ.zero s = ""
take (ℕ.suc n) String.[] = ""
take (ℕ.suc n) (String.◌∷◌ c s) = String.◌∷◌ c (take n s)

-- Decimal digits with single underscores between them. `after` says whether a digit stands before.
digits_value : ℕ → Bool → String → Option ℕ
digits_value n after String.[] = if after then some n else none
digits_value n after (String.◌∷◌ c s) =
    let more = digits_value (n * 10 + (code c - b'0')) true s in
    let next = digits_value n false s in
    if is_digit (code c) then more else if eqb (code c) b'_' && after then next else none

abbrev negated : ℕ → ℤ
negated ℕ.zero = pos 0
negated (ℕ.suc n) = negsuc n

abbrev signed : String → Option ℤ
signed String.[] = none
signed (String.◌∷◌ c s) =
    if eqb (code c) b'-'
    then elim (digits_value 0 false s) [ none ↦ none | some n ↦ some (negated n) ]
    else elim (digits_value 0 false (if eqb (code c) b'+' then s else String.◌∷◌ c s)) [
      | none ↦ none
      | some n ↦ some (pos n)
    ]

-- `int(s)`: `none` where it raises `ValueError`. Digits are ASCII.
unfoldable pub int_of_text : (ℕ → Bool) → String → Option ℤ
unfolding digits_value trim
int_of_text is_space s = signed (trim is_space s)
