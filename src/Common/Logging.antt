-- ===== src/Common/Logging.antt =====
-- src/common/logging_setup.py: the lines of the log and the set-up of the root logger. `reserved`
-- says which names are attributes of an empty record of the library.
pub mod Payload
use browseterm_server_local.Prelude.{
  ℕ, String, ◌==◌, ◌||◌, ◌&&◌, not, Bool, true, false, Option, none, some, List, [], ◌∷◌, ◌++◌, eqb,
  if◌then◌else◌,
}
use browseterm_server_local.Python.Value.{Value, str, dict, Fields, end, field, insert}

-- What the formatter reads of a record: `attributes` is `record.__dict__`, `timestamp` the text of
-- its time, `exc_text` the text of the exception that it carries.
pub record LogRecord : Type 0 where
  pub timestamp : String
  pub levelname : String
  pub name : String
  pub message : String
  pub attributes : Fields
  pub exc_text : Option String

-- `request_id_var` and `user_var`
pub record Context : Type 0 where
  pub request_id : String
  pub user : String

abbrev pub is_private : String → Bool
is_private String.[] = false
is_private (String.◌∷◌ c s) = String.◌∷◌ c "" == "_"

unfoldable pub with_exception : Option String → Fields → Fields
unfolding insert
with_exception none payload = payload
with_exception (some s) payload = insert "exc_info" (str s) payload

module _ (reserved : String → Bool) where
  -- `_RESERVED`
  unfoldable pub is_reserved : String → Bool
  is_reserved key = reserved key || key == "message" || key == "asctime" || key == "taskName"

  -- The loop over the attributes.
  unfoldable pub with_extras : Fields → Fields → Fields
  unfolding is_reserved insert
  with_extras payload end = payload
  with_extras payload (field key value rest) =
      with_extras
        (if not (is_reserved key) && not (is_private key)
          then insert key value payload
          else payload)
        rest

  -- `JsonFormatter.format`, before the payload is dumped.
  unfoldable pub format_payload : (service : String) → Context → LogRecord → Fields
  unfolding with_extras with_exception
  format_payload service context r = with_exception r.exc_text (
      with_extras
        (field "timestamp" (str r.timestamp) (
          field "level" (str r.levelname) (
            field "service" (str service) (
              field "logger" (str r.name) (
                field "message" (str r.message) (
                  field "request_id" (str context.request_id)
                    (field "user" (str context.user) end)))))))
        r.attributes)

-- A handler of the root logger, by its identity; `service` is that of its `JsonFormatter`.
pub record Handler : Type 0 where
  pub id : ℕ
  pub service : Option String

pub record RootLogger : Type 0 where
  pub level : ℕ
  pub handlers : List Handler

-- `root.removeHandler(h)`
unfoldable pub remove_handler : Handler → List Handler → List Handler
remove_handler h [] = []
remove_handler h (k ∷ ks) = if eqb k.id h.id then ks else k ∷ remove_handler h ks

-- `for h in list(root.handlers)`
unfoldable pub remove_handlers : List Handler → List Handler → List Handler
unfolding remove_handler
remove_handlers [] handlers = handlers
remove_handlers (h ∷ hs) handlers = remove_handlers hs (remove_handler h handlers)

-- `configure_logging`: `id` is the identity of the new handler.
unfoldable pub configure_logging : (service : String) → (level id : ℕ) → RootLogger → RootLogger
unfolding remove_handlers
configure_logging service level id root = record {
  level = level;
  handlers =
      remove_handlers root.handlers root.handlers
      ++ record { id = id; service = some service } ∷ [];
}
