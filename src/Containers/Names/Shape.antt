-- ===== src/Containers/Names/Shape.antt =====
-- The names that `sanitize_container_name` makes.
use Prim.Native.Char.{code}
use browseterm_server_local.Prelude.{ℕ, String, ◌≡◌, refl, Bool, true, false, if◌then◌else◌, arith}
use browseterm_server_local.Python.Strings.{
  is_empty, trim_start, trim_end, trim, keep, replace, all_chars,
}
use browseterm_server_local.Python.Error.{returned, raised, exception}
use mathlib.Core.Path.{subst}
use browseterm_server_local.Containers.Names

module _ (p : ℕ → Bool) where
  all_chars-keep : (s : String) → all_chars p (keep p s) ≡ true
  unfolding all_chars keep
  all_chars-keep String.[] = refl
  all_chars-keep (String.◌∷◌ c s) = ground (arith, all_chars-keep s)

  module _ (q : ℕ → Bool) where
    all_chars-trim_start : (s : String) → all_chars p s ≡ true → all_chars p (trim_start q s) ≡ true
    unfolding all_chars trim_start
    all_chars-trim_start String.[] h = refl
    all_chars-trim_start (String.◌∷◌ c s) h = ground (arith, all_chars-trim_start s)

    all_chars-trim_end : (s : String) → all_chars p s ≡ true → all_chars p (trim_end q s) ≡ true
    unfolding all_chars trim_end
    all_chars-trim_end String.[] h = refl
    all_chars-trim_end (String.◌∷◌ c s) h = ground (arith, all_chars-trim_end s)

-- The text begins with a character of the class.
abbrev pub begins : (ℕ → Bool) → String → Bool
begins q String.[] = false
begins q (String.◌∷◌ c s) = q (code c)

-- No character of the class stands at the start, and trimming the end changes nothing.
abbrev pub IsTrimmed : (ℕ → Bool) → String → Type 0
IsTrimmed q s = (begins q s ≡ false) × (trim_end q s ≡ s)

module _ (q : ℕ → Bool) where
  begins-trim_start : (s : String) → begins q (trim_start q s) ≡ false
  unfolding trim_start
  begins-trim_start String.[] = refl
  begins-trim_start (String.◌∷◌ c s) = ground (arith, begins-trim_start s)

  trim_end-trim_end : (s : String) → trim_end q (trim_end q s) ≡ trim_end q s
  unfolding trim_end
  trim_end-trim_end String.[] = refl
  trim_end-trim_end (String.◌∷◌ c s) = ground (arith, trim_end-trim_end s)

  begins-trim_end : (s : String) → begins q s ≡ false → begins q (trim_end q s) ≡ false
  unfolding trim_end
  begins-trim_end String.[] h = refl
  begins-trim_end (String.◌∷◌ c s) h = ground arith

abbrev Shape : String → Type 0
Shape s =
    (all_chars Names.is_name_char s ≡ true) × (is_empty s ≡ false) × IsTrimmed Names.is_hyphen s

default_name_lem : Shape "container"
unfolding all_chars trim_end
default_name_lem = (refl, refl, (refl, refl))

sanitized_lem :
    (lower : String → String) (is_space : ℕ → Bool) (name : String)
    → is_empty (Names.sanitized lower is_space name) ≡ false
    → Shape (Names.sanitized lower is_space name)
unfolding Names.sanitized trim
sanitized_lem lower is_space name full =
    let replaced =
      replace b'_' Names.hyphen
        (replace b' ' Names.hyphen (lower (trim_end is_space (trim_start is_space name)))) in
    let kept = keep Names.is_name_char replaced in
    (
      all_chars-trim_end Names.is_name_char Names.is_hyphen (trim_start Names.is_hyphen kept) (
          all_chars-trim_start Names.is_name_char Names.is_hyphen kept
            (all_chars-keep Names.is_name_char replaced)),
      full,
      (
        begins-trim_end Names.is_hyphen (trim_start Names.is_hyphen kept)
            (begins-trim_start Names.is_hyphen kept),
        trim_end-trim_end Names.is_hyphen (trim_start Names.is_hyphen kept),
      ),
    )

-- A name that is made holds small letters, digits and hyphens alone, at least one of them, and no
-- hyphen at its start or at its end.
pub sanitize_container_name_shape :
    (lower : String → String) (is_space : ℕ → Bool) (name s : String)
    → Names.sanitize_container_name lower is_space name ≡ returned s
    → (all_chars Names.is_name_char s ≡ true) × (is_empty s ≡ false) × IsTrimmed Names.is_hyphen s
unfolding Names.sanitize_container_name
sanitize_container_name_shape lower is_space name s same = by_name (is_empty name) same
  where
    clean : String
    clean = Names.sanitized lower is_space name

    by_clean :
        (b : Bool)
        → is_empty clean ≡ b
        → (if b then "container" else clean) ≡ s
        → (all_chars Names.is_name_char s ≡ true)
          × (is_empty s ≡ false)
          × IsTrimmed Names.is_hyphen s
    by_clean true empty is_s = subst Shape is_s default_name_lem
    by_clean false full is_s = subst Shape is_s (sanitized_lem lower is_space name full)

    by_name :
        (b : Bool)
        → (if b
            then raised (exception "Error sanitizing container name: Container name is invalid")
            else returned (if is_empty clean then "container" else clean))
          ≡ returned s
        → (all_chars Names.is_name_char s ≡ true)
          × (is_empty s ≡ false)
          × IsTrimmed Names.is_hyphen s
    by_name true is_s = cc
    by_name false is_s = by_clean (is_empty clean) refl (ground arith)
