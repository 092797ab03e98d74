-- ===== src/Handlers/Login.antt =====
-- The authentication routes of src/api_handlers.py.
pub mod Safety
pub mod PortCookie
pub mod Csrf
use browseterm_server_local.Prelude.{
  ℕ, String, ◌<>◌, ◌==◌, Bool, true, false, not, ◌&&◌, Option, none, some, List, [], ◌∷◌, ◌++◌, leb,
  eqb, if◌then◌else◌,
}
use browseterm_server_local.Python.Text.{ℤ, pos, negsuc, show_ℕ}
use browseterm_server_local.Python.Strings.{int_of_text}
use browseterm_server_local.Python.Value.{Value, null, str, dict, end, field, truthy}
use browseterm_server_local.Python.Error.{
  Error, cloud_client_error, key_error, value_error, type_error, get_item, get,
}
use browseterm_server_local.World.Events.{Config}
use browseterm_server_local.World.Action.{
  when◌then◌else◌, Action, pure, raise, lift, asks, ◌>>=◌, try_except, format_value,
}
use browseterm_server_local.Cloud.Client
use browseterm_server_local.Web.{
  Request, State, Response, Cookie, set_cookie, delete_cookie, Body, json, location, lookup,
  json_response, redirect_response, error_content, text_item,
}
use browseterm_server_local.Auth.Session.{authenticate_session, cookie}
use browseterm_server_local.Auth.Service
use browseterm_server_local.Auth.Service.{csrf_cookie_name, cookie_options}

abbrev pub or_empty : Option String → String
or_empty none = ""
or_empty (some s) = s

-- `_csrf_ok`: a missing token and an empty one are tested alike.
unfoldable pub csrf_ok : Request → Bool
unfolding lookup cookie
csrf_ok request =
    let header_token = or_empty (lookup "X-CSRF-Token" request.headers) in
    let cookie_token = cookie csrf_cookie_name request in
    not (header_token == "") && not (cookie_token == "") && header_token == cookie_token

-- A port number from 1 to 65535.
abbrev port_of : Option ℤ → Option ℕ
port_of none = none
port_of (some (pos n)) = if leb 1 n && leb n 65535 then some n else none
port_of (some (negsuc n)) = none

-- `_validated_desktop_port`
unfoldable pub validated_desktop_port : (ℕ → Bool) → Option String → Option ℕ
unfolding int_of_text
validated_desktop_port is_space none = none
validated_desktop_port is_space (some s) =
    if s == "" then none else port_of (int_of_text is_space s)

abbrev pub desktop_login_port_cookie : String
desktop_login_port_cookie = "desktop_login_port"

-- The cookie is set for a desktop login with a good port.
unfoldable pub port_cookies : Config → Bool → Option ℕ → List Cookie
port_cookies c false port = []
port_cookies c true none = []
port_cookies c true (some port) =
    set_cookie desktop_login_port_cookie (show_ℕ port) (cookie_options c 300 true) ∷ []

unfoldable pub auth_provider_redirect : Request → Action Response
unfolding text_item lookup validated_desktop_port redirect_response port_cookies show_ℕ
    cookie_options
auth_provider_redirect request = do
  p ← lift (text_item "provider" request.path_params)
  provider ← format_value p
  config ← asks (λ e. e.config)
  desktop_port ←
      asks (λ e. validated_desktop_port e.is_space (lookup "desktop_port" request.query_params))
  pure (record {
    status_code = 302;
    body = location (config.cloud_api_url <> "/auth/" <> provider <> "/start?target=local");
    cookies =
        port_cookies config (or_empty (lookup "target" request.query_params) == "desktop")
          desktop_port;
  })

-- `json.loads(login_response.body)`: the body is the document that was dumped.
abbrev document : Body → Value
document (json v) = v
document (location url) = null
document _ = null

-- Where the browser goes when Desktop waits at a port of its own machine.
unfoldable pub loopback_url : ℕ → String → String
unfolding show_ℕ
loopback_url port code = "http://127.0.0.1:" <> show_ℕ port <> "/callback?code=" <> code

abbrev pub device_failed_url : String
device_failed_url = "/login?auth_result=error&error_message=Could+not+register+this+device"

-- `except (CloudClientError, KeyError, ValueError, TypeError)`
device_failed : Error → Action String
device_failed (cloud_client_error code message) = pure device_failed_url
device_failed (key_error s) = pure device_failed_url
device_failed (value_error s) = pure device_failed_url
device_failed (type_error s) = pure device_failed_url
device_failed x = raise x

unfoldable pub callback_url : Response → Option ℕ → Action String
unfolding Client.create_device_bootstrap loopback_url device_failed get_item
callback_url login none = pure "/?auth_result=success"
callback_url login (some port) =
    try_except
      (do
        user_info ← lift (get_item (document login.body) "user_info")
        user_id ← lift (get_item user_info "id")
        bootstrap ← Client.create_device_bootstrap user_id
        code ← format_value bootstrap
        pure (loopback_url port code))
      device_failed

abbrev pub cleared_port : Option ℕ → List Cookie
cleared_port none = []
cleared_port (some port) = delete_cookie desktop_login_port_cookie ∷ []

-- The part of `auth_callback` after a successful login.
unfoldable pub finish_callback : Request → Response → Action Response
unfolding callback_url lookup validated_desktop_port
finish_callback request login = do
  desktop_port ←
      asks
        (λ e. validated_desktop_port e.is_space (lookup desktop_login_port_cookie request.cookies))
  url ← callback_url login desktop_port
  pure (record {
    status_code = 302;
    body = location url;
    cookies = cleared_port desktop_port ++ login.cookies;
  })

unfoldable pub auth_callback : Request → Action Response
unfolding finish_callback redirect_response lookup Service.complete_login_from_handoff
auth_callback request =
    let code = or_empty (lookup "code" request.query_params) in
    when code == ""
    then pure
        (redirect_response "/login?auth_result=error&error_message=Missing+authentication+code")
    else do
      login ← Service.complete_login_from_handoff code
      (when eqb login.status_code 200
          then finish_callback request login
          else pure
              (redirect_response "/login?auth_result=error&error_message=Authentication+failed"))

unfoldable pub auth_refresh : Request → Action Response
unfolding cookie Service.validate_session json_response error_content get truthy
auth_refresh request =
    when cookie "session" request == ""
    then pure (json_response (error_content (str "Not authenticated")) 401)
    else do
      validation ← Service.validate_session (cookie "session" request)
      is_valid ← lift (get validation "is_valid" null)
      (when truthy is_valid
          then pure (json_response (dict (field "status" (str "ok") end)) 200)
          else pure (json_response (error_content (str "Session expired")) 401))

unfoldable pub bad_csrf : Response
unfolding json_response error_content
bad_csrf = json_response (error_content (str "Invalid CSRF token")) 403

unfoldable pub logout : Request → Action Response
unfolding csrf_ok bad_csrf cookie Service.logout
logout request =
    when csrf_ok request then Service.logout (cookie "session" request) else pure bad_csrf

bootstrap_failed : Error → Action Response
unfolding json_response error_content
bootstrap_failed (cloud_client_error code message) =
    pure (json_response (error_content (str "Could not start device bootstrap")) 502)
bootstrap_failed x = raise x

-- `device_bootstrap` behind its decorator.
unfoldable pub bootstrap_device : Request → State → Action Response
unfolding csrf_ok bad_csrf Client.create_device_bootstrap bootstrap_failed json_response get_item
bootstrap_device request st =
    when csrf_ok request
    then (do
      user_id ← lift (get_item st.user_info "id")
      try_except
          (do
            code ← Client.create_device_bootstrap user_id
            pure (json_response (dict (field "code" code end)) 200))
          bootstrap_failed)
    else pure bad_csrf

unfoldable pub device_bootstrap : Request → Action Response
unfolding authenticate_session bootstrap_device
device_bootstrap request = authenticate_session (bootstrap_device request) request
