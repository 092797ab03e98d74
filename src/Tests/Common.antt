-- ===== src/Tests/Common.antt =====
-- The theorems on the settings and on the log, applied at a concrete environment and record.
use browseterm_server_local.Prelude.{
  ℕ, Bool, String, ◌==◌, ◌≡◌, refl, Option, none, some, [], ◌∷◌, if◌then◌else◌, false,
}
use browseterm_server_local.Python.Value.{str, end, field, find}
use browseterm_server_local.Python.Error.{Reply, returned}
use browseterm_server_local.Common.Settings
use browseterm_server_local.Common.Settings.{Settings}
use browseterm_server_local.Common.Settings.Reading.{
  HasBadNumber, HasNumbers, IsValueError, is_secure, load_settings_lem,
}
use browseterm_server_local.Common.Logging
use browseterm_server_local.Common.Logging.{LogRecord, Context, RootLogger}
use browseterm_server_local.Common.Logging.Payload.{format_payload_lem, configure_logging_lem}

-- An environment that sets a port and asks for secure cookies.
abbrev environ : String → Option String
environ key =
    if key == "CONTAINER_MAKER_PORT"
    then some "6000"
    else if key == "COOKIE_SECURE"
    then some "true"
    else none

abbrev plain_float : String → Reply ℕ
plain_float s = returned 0

load_settings_lem_example :
    (HasBadNumber environ (λ c. false) (λ s. s) plain_float (λ s. s)
      → IsValueError environ
          (λ c. false)
          (λ s. s)
          plain_float
          (λ s. s)
          (Settings.load_settings environ (λ c. false) (λ s. s) plain_float (λ s. s)))
    × ((s : Settings)
        → Settings.load_settings environ (λ c. false) (λ s. s) plain_float (λ s. s) ≡ returned s
        → HasNumbers environ (λ c. false) (λ s. s) plain_float (λ s. s) s
          × (s.cookie_secure
              ≡ is_secure environ
                  (λ c. false)
                  (λ s. s)
                  plain_float
                  (λ s. s)
                  (environ "COOKIE_SECURE")))
load_settings_lem_example =
    load_settings_lem environ (λ c. false) (λ s. s) plain_float (λ s. s) refl

abbrev saved : LogRecord
saved = record {
  timestamp = "2026-01-01T00:00:00+00:00";
  levelname = "INFO";
  name = "root";
  message = "saved";
  attributes = field "container_id" (str "c1") (field "message" (str "other") end);
  exc_text = none;
}

abbrev from_browser : Context
from_browser = record { request_id = "r1"; user = "u1" }

abbrev no_names : String → Bool
no_names s = false

format_payload_lem_example :
    (find "message" (Logging.format_payload no_names "local" from_browser saved)
      ≡ some (str "saved"))
    × (find "request_id" saved.attributes ≡ none
        → find "request_id" (Logging.format_payload no_names "local" from_browser saved)
          ≡ some (str "r1"))
    × (find "user" saved.attributes ≡ none
        → find "user" (Logging.format_payload no_names "local" from_browser saved)
          ≡ some (str "u1"))
format_payload_lem_example = format_payload_lem no_names "local" from_browser saved

abbrev two_handlers : RootLogger
two_handlers = record {
  level = 30;
  handlers = record { id = 1; service = none } ∷ record { id = 2; service = some "old" } ∷ [];
}

configure_logging_lem_example :
    (Logging.configure_logging "a" 10 3 two_handlers
      ≡ record { level = 10; handlers = record { id = 3; service = some "a" } ∷ [] })
    × ((again : String) (n j : ℕ)
        → Logging.configure_logging again n j (Logging.configure_logging "a" 10 3 two_handlers)
          ≡ record { level = n; handlers = record { id = j; service = some again } ∷ [] })
configure_logging_lem_example = configure_logging_lem "a" 10 3 two_handlers
