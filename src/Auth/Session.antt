-- ===== src/Auth/Session.antt =====
-- src/authentication/authentication_helpers.py, with the request's context of logging_setup.py.
pub mod Admission
pub mod Calls
pub mod Ends
use browseterm_server_local.Prelude.{
  ◌&&◌, String, ◌<>◌, ◌==◌, false, Option, none, some, if◌then◌else◌,
}
use browseterm_server_local.Python.Value.{Value, null, bool, dict, str, end, field, truthy, or_else}
use browseterm_server_local.Python.Error.{Error, cloud_client_error, exception, get, get_item}
use browseterm_server_local.World.Events.{new_request_id}
use browseterm_server_local.World.Action.{
  when◌then◌else◌, Action, ok, pure, raise, lift, perform, modify, ◌>>=◌, ◌>>◌, try_except,
  format_value,
}
use browseterm_server_local.Cloud.Client
use browseterm_server_local.Web.{Request, State, Response, lookup, redirect_response}

-- `except CloudClientError: return {"is_valid": False}`
invalid_session : Error → Action Value
invalid_session (cloud_client_error code message) = pure (dict (field "is_valid" (bool false) end))
invalid_session x = raise x

unfoldable pub validate_session : String → Action Value
unfolding Client.validate_session invalid_session
validate_session session_id = try_except (Client.validate_session session_id) invalid_session

deletion_failed : Error → Action Unit
deletion_failed (cloud_client_error code message) = do
  t ← format_value message
  raise (exception ("Error deleting session: " <> t))
deletion_failed x = raise x

unfoldable pub delete_session : String → Action Unit
unfolding Client.delete_session deletion_failed
delete_session session_id = try_except (Client.delete_session session_id) deletion_failed

-- `request_id or new_request_id()`
effective_request_id : Option String → Action String
effective_request_id none = perform (λ e log. ok (e.fresh_id log)) new_request_id
effective_request_id (some s) =
    when s == "" then perform (λ e log. ok (e.fresh_id log)) new_request_id else pure s

unfoldable pub set_request_context : Option String → String → Action Unit
unfolding effective_request_id
set_request_context request_id user = do
  rid ← effective_request_id request_id
  modify (λ w. record w { request_id = rid; user = user })

-- `request.cookies.get(k)`, where a missing cookie and an empty one are tested alike.
unfoldable pub cookie : String → Request → String
unfolding lookup
cookie k request = elim (lookup k request.cookies) [ none ↦ "" | some s ↦ s ]

-- The decorator's part after a session was found valid.
unfoldable pub enter : (State → Action Response) → Request → String → Value → Action Response
unfolding set_request_context or_else lookup get
enter handler request session_id validation = do
  ui ← lift (get_item validation "user_info")
  name ← lift (get ui "name" null)
  email ← lift (get ui "email" null)
  n ← format_value (or_else name (str "user"))
  m ← format_value (or_else email (str "-"))
  set_request_context (lookup "X-Request-Id" request.headers) (n <> ":" <> m)
  subscription_info ← lift (get validation "subscription_info" (dict end))
  plan ← lift (get validation "current_subscription_plan" (dict end))
  handler (record {
    user_info = ui;
    subscription_info = subscription_info;
    current_subscription_plan = plan;
    session_id = session_id;
  })

unfoldable pub authenticate_session : (State → Action Response) → Request → Action Response
unfolding validate_session enter cookie redirect_response truthy get
authenticate_session handler request =
    when cookie "session" request == "" then pure (redirect_response "/login") else do
      validation ← validate_session (cookie "session" request)
      is_valid ← lift (get validation "is_valid" null)
      user_info ← (when truthy is_valid then lift (get validation "user_info" null) else pure null)
      (when truthy is_valid && truthy user_info
          then enter handler request (cookie "session" request) validation
          else pure (redirect_response "/login"))
