-- ===== src/Auth/Service.antt =====
-- src/authentication/authentication_service.py: login from a handoff code, and logout.
use browseterm_server_local.Prelude.{
  ℕ, String, Bool, true, false, ◌==◌, [], ◌∷◌, ltb, if◌then◌else◌,
}
use browseterm_server_local.Python.Value.{Value, bool, str, dict, end, field}
use browseterm_server_local.Python.Error.{Error, cloud_client_error, http_exception, get_item}
use browseterm_server_local.World.Events.{Config, token_urlsafe}
use browseterm_server_local.World.Action.{
  when◌then◌else◌, Action, ok, pure, raise, lift, asks, perform, ◌>>=◌, ◌>>◌, try_except,
  format_value,
}
use browseterm_server_local.Cloud.Client
use browseterm_server_local.Auth.Session
use browseterm_server_local.Web.{Response, json, set_cookie, CookieOptions, json_response}

abbrev pub csrf_cookie_name : String
csrf_cookie_name = "csrf_token"

unfoldable pub cookie_options : Config → ℕ → Bool → CookieOptions
cookie_options c max_age httponly = record {
  max_age = max_age;
  httponly = httponly;
  secure = c.cookie_secure;
  samesite = c.cookie_samesite;
}

-- The response to a handoff that Cloud refused.
login_failed : ℕ → Value → Response
login_failed code message =
    json_response
      (dict (field "error" (str "Login failed. Please try again.") (field "detail" message end)))
      (if ltb code 500 then 400 else 500)

-- The response to a redeemed handoff: the session's cookie, hidden from scripts, and the CSRF
-- cookie.
logged_in : Config → Value → (session_id token : String) → Response
logged_in c session_response session_id token = record {
  status_code = 200;
  body = json session_response;
  cookies =
      set_cookie "session" session_id (cookie_options c c.session_cookie_max_age true)
      ∷ set_cookie csrf_cookie_name token (cookie_options c c.session_cookie_max_age false)
      ∷ [];
}

establish : Value → Action Response
unfolding logged_in cookie_options
establish session_response = do
  sid ← lift (get_item session_response "session_id")
  session_id ← format_value sid
  token ← perform (λ e log. ok (e.fresh_token log)) token_urlsafe
  asks (λ e. logged_in e.config session_response session_id token)

redeemed : Error → Action Response
unfolding login_failed json_response
redeemed (cloud_client_error code message) = pure (login_failed code message)
redeemed x = raise x

-- The `try` holds the redemption alone: what `establish` raises is not caught.
pub data Redemption : Type 0 where
  accepted : Value → Redemption
  refused : Response → Redemption

finish_login : Redemption → Action Response
unfolding establish
finish_login (accepted v) = establish v
finish_login (refused r) = pure r

unfoldable pub complete_login_from_handoff : String → Action Response
unfolding Client.redeem_handoff redeemed finish_login
complete_login_from_handoff code = do
  r ←
      try_except (do v ← Client.redeem_handoff code; pure (accepted v))
        (λ x. do r ← redeemed x; pure (refused r))
  finish_login r

logged_out : Config → Response
logged_out c = record {
  status_code = 200;
  body =
      json
        (dict (field "message" (str "Logged out successfully") (field "success" (bool true) end)));
  cookies =
      set_cookie "session" "" (cookie_options c 0 true)
      ∷ set_cookie csrf_cookie_name "" (cookie_options c 0 false)
      ∷ [];
}

unfoldable pub logout : String → Action Response
unfolding Session.delete_session logged_out cookie_options
logout session_id =
    try_except
      (do
        (when session_id == "" then pure tt else Session.delete_session session_id)
        asks (λ e. logged_out e.config))
      (λ x. raise (http_exception 500 "Internal server error"))

unfoldable pub validate_session : String → Action Value
unfolding Session.validate_session
validate_session = Session.validate_session
