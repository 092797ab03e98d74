-- ===== src/Containers/ErrorMessage.antt =====
-- `clean_k8s_error_message` of src/common/utils.py.
use text.Mathlib.Text.{find?}
use browseterm_server_local.Prelude.{
  String, Bool, true, false, Option, none, some, if◌then◌else◌, ◌==◌,
}
use browseterm_server_local.Python.Strings.{from_first, to_last}
use browseterm_server_local.Python.Value.{Value, str, dict, find}

-- `part in s`
abbrev pub contains : String → String → Bool
contains part s = elim (find? s part) [ none ↦ false | some i ↦ true ]

abbrev pub capacity_message : String
capacity_message =
    "This device doesn't have enough remaining capacity for this terminal. Hibernate or delete another terminal to free up room, then try again."

-- `raw[start:end + 1]` where there is a brace, and one that closes after it.
unfoldable pub braces : String → Option String
unfolding from_first to_last
braces raw = elim (from_first b'{' raw) [ none ↦ none | some s ↦ to_last b'}' s ]

-- The `message` of a JSON object, if it is a text that is not empty.
unfoldable pub message_of : Option Value → Option String
unfolding find
message_of (some (dict d)) = elim (find "message" d) [
  | none ↦ none
  | some v ↦ elim v [ str s ↦ if s == "" then none else some s | _ ↦ none ]
]
message_of _ = none

-- `loads` is `json.loads`, `lower` is `str.lower`.
module _ (loads : String → Option Value) (lower : String → String) where
  -- The message of the JSON object that the text holds.
  unfoldable pub embedded_message : String → Option String
  unfolding braces message_of
  embedded_message raw = elim (braces raw) [ none ↦ none | some s ↦ message_of (loads s) ]

  unfoldable pub clean_k8s_error_message : (raw fallback : String) → String
  unfolding embedded_message
  clean_k8s_error_message raw fallback = elim (embedded_message raw) [
    | some message ↦ if contains "exceeded quota" (lower message) then capacity_message else message
    | none ↦ if contains "exceeded quota" (lower raw) then capacity_message else fallback
  ]
