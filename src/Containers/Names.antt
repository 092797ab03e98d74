-- ===== src/Containers/Names.antt =====
-- Names of containers: `sanitize_container_name` of src/containers/containers_helpers.py, and the
-- name that `create_container_in_k8s` reads off a pod's name.
pub mod Shape
use Prim.Native.Char.{Char}
use browseterm_server_local.Prelude.{
  ℕ, String, ◌==◌, Bool, true, false, ◌&&◌, ◌||◌, List, [], ◌∷◌, leb, eqb, if◌then◌else◌,
}
use browseterm_server_local.Python.Strings.{
  is_empty, trim, keep, replace, split, join, all_chars, is_digit,
}
use browseterm_server_local.Python.Error.{Reply, returned, raised, exception}

-- `[a-z0-9-]`
abbrev pub is_name_char : ℕ → Bool
is_name_char c = leb b'a' c && leb c b'z' || is_digit c || eqb c b'-'

abbrev pub is_hyphen : ℕ → Bool
is_hyphen c = eqb c b'-'

abbrev hyphen : Char
hyphen = "-"

-- `lower` and `is_space` are the Unicode database's.
unfoldable pub sanitized : (String → String) → (ℕ → Bool) → String → String
unfolding trim keep replace
sanitized lower is_space name =
    trim is_hyphen
      (keep is_name_char (replace b'_' hyphen (replace b' ' hyphen (lower (trim is_space name)))))

unfoldable pub sanitize_container_name : (String → String) → (ℕ → Bool) → String → Reply String
unfolding sanitized
sanitize_container_name lower is_space name =
    if is_empty name
    then raised (exception "Error sanitizing container name: Container name is invalid")
    else let s = sanitized lower is_space name in returned (if is_empty s then "container" else s)

-- The last part of a list of parts, and the list without its last one or two.
abbrev last : List String → String
last [] = ""
last (x ∷ []) = x
last (x ∷ y ∷ xs) = last (y ∷ xs)

abbrev but_last : List String → List String
but_last [] = []
but_last (x ∷ []) = []
but_last (x ∷ y ∷ xs) = x ∷ but_last (y ∷ xs)

-- `len(parts) >= 2`
abbrev has_two : List String → Bool
has_two (x ∷ y ∷ xs) = true
has_two _ = false

-- `s.isdigit()`
abbrev is_number : String → Bool
is_number s = if is_empty s then false else all_chars is_digit s

-- "mycontainer-pod-1706565890" and "mycontainer-service" are named "mycontainer".
unfoldable pub base_name : String → String
unfolding split join all_chars
base_name name =
    let parts = split b'-' name in
    if has_two parts && is_number (last parts)
    then join "-" (but_last (but_last parts))
    else if last parts == "pod" || last parts == "service" || last parts == "ingress"
    then join "-" (but_last parts)
    else name
