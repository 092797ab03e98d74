-- ===== src/Cloud/Ids.antt =====
-- The ids that stand in the paths of URLs. `CloudClient` puts them there as they are, and the HTTP
-- library reads "/", "..", "?", "#" and "%" in a path as more than an id.
use browseterm_server_local.Prelude.{ℕ, String, ◌≡◌, Bool, true, not, ◌&&◌, ◌||◌, leb, eqb}
use browseterm_server_local.Python.Strings.{all_chars, is_digit, is_empty}

-- A letter, a digit, a hyphen or an underscore.
abbrev pub is_id_char : ℕ → Bool
is_id_char c =
    leb b'a' c && leb c b'z' || leb b'A' c && leb c b'Z' || is_digit c || eqb c b'-' || eqb c b'_'

-- An id that names itself in a path: it is not empty, and holds such characters alone.
unfoldable pub is_plain_id : String → Bool
unfolding all_chars
is_plain_id s = not (is_empty s) && all_chars is_id_char s

abbrev pub IsPlainId : String → Type 0
IsPlainId s = is_plain_id s ≡ true

-- Nothing is asked of an id.
abbrev pub AnyId : String → Type 0
AnyId s = Unit
