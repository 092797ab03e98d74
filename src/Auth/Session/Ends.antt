-- ===== src/Auth/Session/Ends.antt =====
-- When `authenticate_session` answers.
use browseterm_server_local.Prelude.{
  arith, String, ◌==◌, ◌≡◌, refl, Bool, true, false, ◌&&◌, Option, none, some, ◌∷◌,
}
use browseterm_server_local.Python.Value.{Value, null, dict, Fields, field, end, bool, truthy, find}
use browseterm_server_local.Python.Error.{cloud_client_error, Reply, returned, raised, get}
use browseterm_server_local.World.Events.{Env, http}
use browseterm_server_local.World.Action
use browseterm_server_local.World.Action.{
  World, Outcome, ok, err, hanging, Action, ◌>>=◌, ◌>>◌, try_except, when◌then◌else◌, pure, lift,
  raise, perform, modify, format_value,
}
use browseterm_server_local.World.Halts.{HasReturned}
use browseterm_server_local.World.Answers.{
  Answers, Answers-bind, Answers-pure, Answers-perform, Answers-when, Answers-otherwise,
  Answers-get, Answers-bind_value, get_item-field, get-field, get-missing, answers_rules,
}
use browseterm_server_local.Cloud.Client
use browseterm_server_local.Cloud.Client.{answer}
use browseterm_server_local.Web.{Request, State, Response, redirect_response}
use browseterm_server_local.Auth.Session
use browseterm_server_local.Auth.Session.Admission.{validation}

-- No user, an object, or something that does not count as true.
abbrev pub IsUser : Option Value → Type 0
IsUser none = Unit
IsUser (some (dict d)) = Unit
IsUser (some v) = truthy v ≡ false

-- What Cloud's interface promises of a validation's answer: an object, whose user is an object if
-- there is one, or else a failure that the client reports as a `CloudClientError`.
abbrev pub IsValidationAnswer : Reply Value → Type 0
IsValidationAnswer (returned (dict d)) = IsUser (find "user_info" d)
IsValidationAnswer (raised (cloud_client_error code message)) = Unit
IsValidationAnswer r = ⊥

Answers-effective_request_id :
    {e : Env} (o : Option String) → Answers e (Session.effective_request_id o)
unfolding Session.effective_request_id
Answers-effective_request_id none = Answers-perform _ _
Answers-effective_request_id (some s) = Answers-when _ _ _ (Answers-perform _ _) (Answers-pure _)

module _ (e : Env) (handler : State → Action Response) (request : Request)
    (answers : (st : State) → Answers e (handler st)) where
  -- The decorator's part after the user was read.
  Answers-enter :
      (ud d : Fields) (session_id : String)
      → find "user_info" d ≡ some (dict ud)
      → Answers e (Session.enter handler request session_id (dict d))
  unfolding Session.enter Session.set_request_context
  Answers-enter ud d session_id same =
      Answers-bind_value _ (dict ud) _ (get_item-field d "user_info" (dict ud) same)
        (search (answers_rules, Answers-effective_request_id, answers) depth 30)

  -- What is done with the user, where the session is valid or not.
  Answers-on_user :
      (b : Bool) (d : Fields) (o : Option Value)
      → find "user_info" d ≡ o
      → IsUser o
      → Answers e (do
        user_info ← (when b then lift (get (dict d) "user_info" null) else pure null)
        (when b && truthy user_info
            then Session.enter handler request (Session.cookie "session" request) (dict d)
            else pure (redirect_response "/login")))
  unfolding when◌then◌else◌ truthy
  Answers-on_user false d o same is_user = Answers-bind _ _ (Answers-pure _) λ user. Answers-pure _
  Answers-on_user true d none same is_user =
      Answers-bind_value _ null _ (get-missing d "user_info" null same) (Answers-pure _)
  Answers-on_user true d (some (dict ud)) same is_user =
      Answers-bind_value _ (dict ud) _ (get-field d "user_info" (dict ud) null same)
        (Answers-when _ _ _ (Answers-enter ud d _ same) (Answers-pure _))
  Answers-on_user true d (some v) same is_user =
      Answers-bind_value _ v _ (get-field d "user_info" v null same) (
        Answers-otherwise (truthy v)
          (Session.enter handler request (Session.cookie "session" request) (dict d)) _ is_user)

  abbrev decide : Value → Action Response
  decide v = do
    is_valid ← lift (get v "is_valid" null)
    user_info ← (when truthy is_valid then lift (get v "user_info" null) else pure null)
    (when truthy is_valid && truthy user_info
        then Session.enter handler request (Session.cookie "session" request) v
        else pure (redirect_response "/login"))

  Answers-decide : (d : Fields) → IsUser (find "user_info" d) → Answers e (decide (dict d))
  Answers-decide d is_user =
      Answers-bind _ _ (Answers-get d "is_valid" null)
        λ valid. Answers-on_user (truthy valid) d _ refl is_user

  validated_part-HasReturned :
      (w : World)
      → IsValidationAnswer
          (answer (e.on_http w.log (validation e (Session.cookie "session" request))))
      → HasReturned ((Session.validate_session (Session.cookie "session" request) >>= decide) e w).0
  unfolding Session.validate_session Client.validate_session Client.request Session.invalid_session
      ◌>>=◌ try_except pure raise
  validated_part-HasReturned w promised =
      by_answer (answer (e.on_http w.log (validation e (Session.cookie "session" request))))
        promised
    where
      asked : World
      asked = record w { log = http (validation e (Session.cookie "session" request)) ∷ w.log }

      by_answer :
          (a : Reply Value)
          → IsValidationAnswer a
          → HasReturned
              (Action.continue
                (Action.handle (Action.of_reply a) Session.invalid_session e asked).0
                decide
                e
                (Action.handle (Action.of_reply a) Session.invalid_session e asked).1).0
      by_answer (returned (dict d)) h = (Answers-decide d h).at asked
      by_answer (returned v) h = ground arith
      by_answer (raised (cloud_client_error code message)) h =
          (Answers-decide (field "is_valid" (bool false) end) tt).at asked
      by_answer (raised x) h = ground arith

-- Where the route behind it answers whatever the session is, and Cloud answers the validation as
-- its interface promises, `authenticate_session` answers.
pub authenticate_session-HasReturned :
    (e : Env) (handler : State → Action Response) (request : Request) (w : World)
    → ((st : State) (w' : World) → HasReturned (handler st e w').0)
    → IsValidationAnswer
        (answer (e.on_http w.log (validation e (Session.cookie "session" request))))
    → HasReturned (Session.authenticate_session handler request e w).0
unfolding Session.authenticate_session when◌then◌else◌ pure
authenticate_session-HasReturned e handler request w answers promised =
    by_cookie (Session.cookie "session" request == "")
  where
    by_cookie :
        (b : Bool)
        → HasReturned
            ((when b
                then pure (redirect_response "/login")
                else (Session.validate_session (Session.cookie "session" request)
                    >>= decide e handler request (λ st. record { at = answers st })))
              e w).0
    by_cookie true = tt
    by_cookie false =
        validated_part-HasReturned e handler request (λ st. record { at = answers st }) w promised
