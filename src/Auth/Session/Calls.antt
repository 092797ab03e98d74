-- ===== src/Auth/Session/Calls.antt =====
-- What the decorator does around a handler that does nothing.
use browseterm_server_local.Prelude.{String, ◌≡◌, ◌⊎◌, inl, inr, refl, Option, none, some, ◌∷◌}
use browseterm_server_local.Python.Value.{Value}
use browseterm_server_local.Python.Error.{Error, cloud_client_error}
use browseterm_server_local.World.Events.{Env, Log, http, new_request_id}
use browseterm_server_local.World.Action.{pure}
use browseterm_server_local.World.Rules.{
  Keeps, OnLog, Keeps-perform, Keeps-modify, Keeps-pure, Keeps-when, keeps_rules,
}
use browseterm_server_local.World.Gives.{Gives, Gives-pure, Gives-bind, Gives-when}
use browseterm_server_local.Cloud.Client
use browseterm_server_local.Cloud.Client.Calls.{Keeps-request}
use browseterm_server_local.Web.{Request, Response, redirect_response}
use browseterm_server_local.Auth.Session
use browseterm_server_local.Auth.Session.Admission.{validation}

-- Since the log was `before`, Cloud was asked about the session at most, and a request id was made
-- up.
pub data Validates (e : Env) (session_id : String) (before : Log) : Log → Type 0 where
  untouched : Validates e session_id before before
  validates :
      {l : Log}
      → Validates e session_id before l
      → Validates e session_id before (http (validation e session_id) ∷ l)
  identifies :
      {l : Log}
      → Validates e session_id before l
      → Validates e session_id before (new_request_id ∷ l)

module _ (e : Env) (request : Request) (before : Log) where
  abbrev Asked : Log → Type 0
  Asked = Validates e (Session.cookie "session" request) before

  Keeps-invalid_session : (x : Error) → Keeps e (OnLog Asked) (Session.invalid_session x)
  unfolding Session.invalid_session
  Keeps-invalid_session (cloud_client_error code message) = search keeps_rules
  Keeps-invalid_session x = search keeps_rules

  Keeps-client_request :
      Keeps e (OnLog Asked) (Client.validate_session (Session.cookie "session" request))
  unfolding Client.validate_session
  Keeps-client_request = Keeps-request _ _ _ _ _ _ (λ l. validates)

  Keeps-validate_session :
      Keeps e (OnLog Asked) (Session.validate_session (Session.cookie "session" request))
  unfolding Session.validate_session
  Keeps-validate_session = search (keeps_rules, Keeps-client_request, Keeps-invalid_session)

  Keeps-effective_request_id :
      (o : Option String) → Keeps e (OnLog Asked) (Session.effective_request_id o)
  unfolding Session.effective_request_id
  Keeps-effective_request_id none = Keeps-perform _ _ (λ l. identifies)
  Keeps-effective_request_id (some s) =
      Keeps-when _ _ _ (λ empty. Keeps-perform _ _ (λ l. identifies)) (λ given. Keeps-pure _)

  Keeps-set_request_context :
      (o : Option String) (user : String)
      → Keeps e (OnLog Asked) (Session.set_request_context o user)
  unfolding Session.set_request_context
  Keeps-set_request_context o user = search (keeps_rules, Keeps-effective_request_id, Keeps-modify)

  -- The decorator in front of a handler that answers with `r` and does nothing.
  Keeps-enter :
      (r : Response) (v : Value)
      → Keeps e
          (OnLog Asked)
          (Session.enter (λ st. pure r) request (Session.cookie "session" request) v)
  unfolding Session.enter
  Keeps-enter r v = search (keeps_rules, Keeps-set_request_context) depth 20

  pub Keeps-authenticate_session :
      (r : Response) → Keeps e (OnLog Asked) (Session.authenticate_session (λ st. pure r) request)
  unfolding Session.authenticate_session
  Keeps-authenticate_session r = search (keeps_rules, Keeps-validate_session, Keeps-enter) depth 20

  pub Gives-authenticate_session :
      (r : Response)
      → Gives e
          (Session.authenticate_session (λ st. pure r) request)
          (λ r'. (r' ≡ r) ⊎ (r' ≡ redirect_response "/login"))
  unfolding Session.authenticate_session Session.enter
  Gives-authenticate_session r = Gives-when _ _ _ (Gives-pure _ (inr refl)) (
      Gives-bind _ _ λ v. Gives-bind _ _ λ valid. Gives-bind _ _ λ user.
        Gives-when _ _ _
          (Gives-bind _ _ λ ui. Gives-bind _ _ λ name. Gives-bind _ _ λ email. Gives-bind _ _ λ n.
            Gives-bind _ _ λ m.
              Gives-bind _ _
                λ context. Gives-bind _ _ λ info. Gives-bind _ _ λ plan. Gives-pure _ (inl refl))
          (Gives-pure _ (inr refl)))
