-- ===== src/Common/Logging/Payload.antt =====
-- What a line of the log says.
use browseterm_server_local.Prelude.{
  ℕ, String, ◌==◌, ◌||◌, ◌&&◌, not, ◌≡◌, refl, ◌⊎◌, inl, inr, Bool, true, false, Option, none, some,
  List, [], ◌∷◌, eqb, if◌then◌else◌, eq_iff, ◌∙◌, arith,
}
use browseterm_server_local.Python.Value.{Value, str, Fields, end, field, insert, find, find-insert}
use browseterm_server_local.Common.Logging
use browseterm_server_local.Common.Logging.{LogRecord, Context, RootLogger, Handler}

-- Putting in another key, or nothing, leaves a key as it is.
kept_key :
    (k key : String) (value : Value) (payload : Fields) (keep : Bool)
    → (key == k) ≡ false
    → find k (if keep then insert key value payload else payload) ≡ find k payload
kept_key k key value payload false other = refl
kept_key k key value payload true other = rw (find-insert key k value payload, other) refl

module _ (reserved : String → Bool) where
  -- Nothing can overwrite the key: it is reserved, or none of the attributes has it.
  abbrev pub IsFree : String → Fields → Type 0
  IsFree k attributes = (Logging.is_reserved reserved k ≡ true) ⊎ (find k attributes ≡ none)

  abbrev keeps : String → Bool
  keeps key = not (Logging.is_reserved reserved key) && not (Logging.is_private key)

  -- One attribute.
  one_attribute :
      (k key : String) (value : Value) (payload rest : Fields)
      → IsFree k (field key value rest)
      → IsFree k rest
        × (find k (if keeps key then insert key value payload else payload) ≡ find k payload)
  unfolding find
  one_attribute k key value payload rest free = by_key (key == k) refl free
    where
      by_key :
          (b : Bool)
          → (key == k) ≡ b
          → (Logging.is_reserved reserved k ≡ true)
            ⊎ ((if b then some value else find k rest) ≡ none)
          → IsFree k rest
            × (find k (if keeps key then insert key value payload else payload) ≡ find k payload)
      by_key true same (inl is_reserved) =
          (inl is_reserved, rw ((eq_iff key k).0 same, is_reserved) refl)
      by_key true same (inr absent) = ground arith
      by_key false same (inl is_reserved) =
          (inl is_reserved, kept_key k key value payload (keeps key) same)
      by_key false same (inr absent) = (inr absent, kept_key k key value payload (keeps key) same)

  find-with_extras :
      (k : String) (attributes payload : Fields)
      → IsFree k attributes
      → find k (Logging.with_extras reserved payload attributes) ≡ find k payload
  unfolding Logging.with_extras
  find-with_extras k end payload free = refl
  find-with_extras k (field key value rest) payload free =
      let (free', same) = one_attribute k key value payload rest free in
      find-with_extras k rest _ free' ∙ same

  find-with_exception :
      (k : String) (o : Option String) (payload : Fields)
      → ("exc_info" == k) ≡ false
      → find k (Logging.with_exception o payload) ≡ find k payload
  unfolding Logging.with_exception
  find-with_exception k none payload other = refl
  find-with_exception k (some t) payload other = kept_key k "exc_info" (str t) payload true other

  -- Every line of the log says the record's message, whatever is passed in `extra`. It says the
  -- request's id and user as they are set in the context, unless `extra` has a field of that name.
  pub format_payload_lem :
      (service : String) (context : Context) (r : LogRecord)
      → (find "message" (Logging.format_payload reserved service context r) ≡ some (str r.message))
        × (find "request_id" r.attributes ≡ none
            → find "request_id" (Logging.format_payload reserved service context r)
              ≡ some (str context.request_id))
        × (find "user" r.attributes ≡ none
            → find "user" (Logging.format_payload reserved service context r)
              ≡ some (str context.user))
  unfolding Logging.format_payload find Logging.is_reserved
  format_payload_lem service context r = (
    find-with_exception "message" r.exc_text _ refl
        ∙ find-with_extras "message" r.attributes _ (inl (message_reserved (reserved "message"))),
    (λ absent.
        find-with_exception "request_id" r.exc_text _ refl
        ∙ find-with_extras "request_id" r.attributes _ (inr absent)),
    λ absent.
        find-with_exception "user" r.exc_text _ refl
        ∙ find-with_extras "user" r.attributes _ (inr absent),
  )
    where
      message_reserved :
          (b : Bool)
          → (b || "message" == "message" || "message" == "asctime" || "message" == "taskName")
            ≡ true
      message_reserved true = refl
      message_reserved false = refl

-- All handlers are removed.
remove_handlers_lem : (hs : List Handler) → Logging.remove_handlers hs hs ≡ []
unfolding Logging.remove_handlers Logging.remove_handler
remove_handlers_lem [] = refl
remove_handlers_lem (h ∷ hs) = rw (same_id h.id) (remove_handlers_lem hs)
  where
    same_id : (n : ℕ) → eqb n n ≡ true
    same_id n = ground arith

-- However many handlers the root logger had, and of whatever kind, after one call of
-- `configure_logging` it has one, the new one with the call's service and level. So a second call
-- replaces it instead of adding one to it.
pub configure_logging_lem :
    (service : String) (level id : ℕ) (root : RootLogger)
    → (Logging.configure_logging service level id root
        ≡ record { level = level; handlers = record { id = id; service = some service } ∷ [] })
      × ((again : String) (n j : ℕ)
          → Logging.configure_logging again n j (Logging.configure_logging service level id root)
            ≡ record { level = n; handlers = record { id = j; service = some again } ∷ [] })
unfolding Logging.configure_logging
configure_logging_lem service level id root = (
  rw (remove_handlers_lem root.handlers) refl,
  λ again n j.
      rw
        (
          remove_handlers_lem root.handlers,
          remove_handlers_lem (record { id = id; service = some service } ∷ []),
        )
        refl,
)
