-- ===== src/Auth/Session/Admission.antt =====
-- Who gets past `authenticate_session`.
use browseterm_server_local.Prelude.{String, ◌==◌, ◌≡◌, refl, Bool, true, false, ◌&&◌, none, ◌∷◌}
use browseterm_server_local.Python.Value.{Value, null, dict, field, end, bool, truthy, find}
use browseterm_server_local.Python.Error.{cloud_client_error, Reply, returned, raised, get}
use browseterm_server_local.World.Messages.{post_method, HttpRequest}
use browseterm_server_local.World.Events.{Env, http}
use browseterm_server_local.World.Action
use browseterm_server_local.World.Action.{
  World, Outcome, ok, err, Action, ◌>>=◌, try_except, when◌then◌else◌, pure, lift, raise,
}
use browseterm_server_local.World.Gives.{Returns}
use browseterm_server_local.Cloud.Client
use browseterm_server_local.Cloud.Client.{http_request, session_fields, answer}
use browseterm_server_local.Web.{Request, State, Response, redirect_response}
use browseterm_server_local.Auth.Session

abbrev is_truthy : Reply Value → Bool
is_truthy (returned x) = truthy x
is_truthy (raised x) = false

-- Whether Cloud's answer to the validation lets the request in.
abbrev pub admits : Reply Value → Bool
admits (returned v) = is_truthy (get v "is_valid" null) && is_truthy (get v "user_info" null)
admits (raised x) = false

-- The validation of a session.
abbrev pub validation : Env → String → HttpRequest
validation e session_id =
    http_request e.config post_method "/auth/sessions/validate" (session_fields session_id) none

-- One call was made, and what is returned, if anything is, is the redirect to the login page.
abbrev pub IsDenied : Outcome Response → World → (e : Env) → String → World → Type 0
IsDenied o w' e session_id w =
    (w'.log ≡ http (validation e session_id) ∷ w.log)
    × Returns (λ r. r ≡ redirect_response "/login") o

module _ (e : Env) (handler : State → Action Response) (request : Request) where
  -- The decorator's part after the validation.
  abbrev decide : Value → Action Response
  decide v = do
    is_valid ← lift (get v "is_valid" null)
    user_info ← (when truthy is_valid then lift (get v "user_info" null) else pure null)
    (when truthy is_valid && truthy user_info
        then Session.enter handler request (Session.cookie "session" request) v
        else pure (redirect_response "/login"))

  -- With a validation that does not admit, nothing more is called.
  abbrev Stops : Outcome Response → World → World → Type 0
  Stops o w' w = (w'.log ≡ w.log) × Returns (λ r. r ≡ redirect_response "/login") o

  -- The decision, on whether the session is valid and on how the user is read.
  abbrev on_user : Bool → Reply Value → Value → Action Response
  on_user b user v = do
    user_info ← (when b then lift user else pure null)
    (when b && truthy user_info
        then Session.enter handler request (Session.cookie "session" request) v
        else pure (redirect_response "/login"))

  on_user_lem :
      (b : Bool) (user : Reply Value) (v : Value) (w : World)
      → (b && is_truthy user) ≡ false
      → Stops (on_user b user v e w).0 (on_user b user v e w).1 w
  unfolding ◌>>=◌ lift pure when◌then◌else◌
  on_user_lem false user v w refused = (refl, refl)
  on_user_lem true (raised x) v w refused = (refl, tt)
  on_user_lem true (returned x) v w refused = rw refused (refl, refl)

  on_valid_lem :
      (valid user : Reply Value) (v : Value) (w : World)
      → (is_truthy valid && is_truthy user) ≡ false
      → Stops
          ((lift valid >>= λ x. on_user (truthy x) user v) e w).0
          ((lift valid >>= λ x. on_user (truthy x) user v) e w).1
          w
  unfolding ◌>>=◌ lift
  on_valid_lem (raised x) user v w refused = (refl, tt)
  on_valid_lem (returned x) user v w refused = on_user_lem (truthy x) user v w refused

  -- The part after the session's cookie was found.
  abbrev validated_part : Action Response
  validated_part = Session.validate_session (Session.cookie "session" request) >>= decide

  validated_part_lem :
      (w : World)
      → admits (answer (e.on_http w.log (validation e (Session.cookie "session" request)))) ≡ false
      → IsDenied
          (validated_part e w).0
          (validated_part e w).1
          e
          (Session.cookie "session" request)
          w
  unfolding Session.validate_session Client.validate_session Client.request Session.invalid_session
      ◌>>=◌ try_except get find truthy pure raise
  validated_part_lem w refused =
      by_answer (answer (e.on_http w.log (validation e (Session.cookie "session" request)))) refused
    where
      asked : World
      asked = record w { log = http (validation e (Session.cookie "session" request)) ∷ w.log }

      by_answer :
          (a : Reply Value)
          → admits a ≡ false
          → Stops
              (Action.continue
                (Action.handle (Action.of_reply a) Session.invalid_session e asked).0
                decide
                e
                (Action.handle (Action.of_reply a) Session.invalid_session e asked).1).0
              (Action.continue
                (Action.handle (Action.of_reply a) Session.invalid_session e asked).0
                decide
                e
                (Action.handle (Action.of_reply a) Session.invalid_session e asked).1).1
              asked
      by_answer (returned v) h =
          on_valid_lem (get v "is_valid" null) (get v "user_info" null) v asked h
      by_answer (raised (cloud_client_error code message)) h =
          on_valid_lem (returned (bool false)) (returned null)
            (dict (field "is_valid" (bool false) end)) asked refl
      by_answer (raised x) h = (refl, tt)

-- Whatever the route behind the decorator does: unless Cloud's answer to the validation says that
-- the session is valid, with a user, the validation is the only call, and nothing is answered but
-- the redirect to the login page. Without a session cookie there is no call at all.
pub authenticate_session-IsDenied :
    (e : Env) (handler : State → Action Response) (request : Request) (w : World)
    → (Session.cookie "session" request ≡ ""
        → Session.authenticate_session handler request e w ≡ (ok (redirect_response "/login"), w))
      × ((Session.cookie "session" request == "") ≡ false
          → admits (answer (e.on_http w.log (validation e (Session.cookie "session" request))))
            ≡ false
          → IsDenied
              (Session.authenticate_session handler request e w).0
              (Session.authenticate_session handler request e w).1
              e
              (Session.cookie "session" request)
              w)
unfolding Session.authenticate_session when◌then◌else◌ pure
authenticate_session-IsDenied e handler request w = (
  λ missing. rw missing refl,
  λ given refused. rw given (validated_part_lem e handler request w refused),
)
