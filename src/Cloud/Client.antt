-- ===== src/Cloud/Client.antt =====
-- `class CloudClient` of src/cloud_client/client.py. Each method opens one connection and makes one
-- HTTP request; every call site builds the client with its defaults, from the settings.
pub mod Calls
use browseterm_server_local.Prelude.{
  String, ◌<>◌, ◌==◌, Bool, true, false, Option, none, some, leb, eqb, if◌then◌else◌,
}
use browseterm_server_local.Python.Text.{ℤ}
use browseterm_server_local.Python.Strings.{trim_end}
use browseterm_server_local.Python.Value.{
  Value, null, int, str, dict, Fields, end, field, insert, get_or,
}
use browseterm_server_local.Python.Error.{
  Error, cloud_client_error, Reply, returned, raised, get_item,
}
use browseterm_server_local.World.Messages.{
  HttpMethod, get_method, post_method, HttpRequest, HttpResponse,
}
use browseterm_server_local.World.Events.{
  Config, HttpReply, response, http_error, other_error, http,
}
use browseterm_server_local.World.Action.{
  when◌then◌else◌, Action, ok, pure, raise, lift, asks, perform, ◌>>=◌, ◌>>◌, try_except,
  format_value,
}

pub record CloudClient : Type 0 where
  pub base_url : String
  pub session_cookie : Option String
  pub internal_token : String

-- `CloudClient()`
unfoldable pub cloud_client : Config → CloudClient
unfolding trim_end
cloud_client c = record {
  base_url = trim_end (λ a. eqb a b'/') c.cloud_api_url;
  session_cookie = none;
  internal_token = c.internal_api_token;
}

unfoldable pub cookies : CloudClient → Fields
cookies c = elim (c.session_cookie) [
  | none ↦ end
  | some s ↦ if s == "" then end else field "session" (str s) end
]

unfoldable pub headers : CloudClient → Fields
headers c =
    if c.internal_token == ""
    then end
    else field "X-Internal-Service-Token" (str c.internal_token) end

unfoldable pub http_request :
    Config → HttpMethod → String → Option Value → Option Fields → HttpRequest
unfolding cloud_client cookies headers
http_request c method path json_body params =
    let client = cloud_client c in
    record {
      method = method;
      url = client.base_url <> path;
      json_body = json_body;
      params = params;
      cookies = cookies client;
      headers = headers client;
    }

-- `response.json().get("error", response.text)`, or the text where that raises.
error_message : HttpResponse → Reply Value → Value
unfolding get_or
error_message r (returned (dict d)) = get_or (str r.text) "error" d
error_message r _ = str r.text

-- What `_request` makes of the end of the exchange.
unfoldable pub answer : HttpReply → Reply Value
unfolding error_message
answer (http_error s) = raised (cloud_client_error 0 (str s))
answer (other_error x) = raised x
answer (response r) =
    if leb 400 r.status_code
    then raised (cloud_client_error r.status_code (error_message r r.json))
    else r.json

unfoldable pub request : HttpMethod → String → Option Value → Option Fields → Action Value
unfolding http_request answer
request method path json_body params = do
  r ← asks (λ e. http_request e.config method path json_body params)
  reply ← perform (λ e log. ok (e.on_http log r)) (http r)
  lift (answer reply)

-- `except CloudClientError as e: if e.status_code == 404: return missing; raise`
unfoldable pub on_not_found : {A : Type 0} → A → Error → Action A
on_not_found missing (cloud_client_error code message) =
    when eqb code 404 then pure missing else raise (cloud_client_error code message)
on_not_found missing x = raise x

unfoldable pub user_fields : Value → Fields
user_fields user_id = field "user_id" user_id end

unfoldable pub session_fields : String → Option Value
session_fields session_id = some (dict (field "session_id" (str session_id) end))

unfoldable pub create_session : Value → Action Value
unfolding request
create_session user_info = request post_method "/auth/sessions" (some user_info) none

unfoldable pub validate_session : String → Action Value
unfolding request session_fields
validate_session session_id =
    request post_method "/auth/sessions/validate" (session_fields session_id) none

unfoldable pub delete_session : String → Action Unit
unfolding request session_fields
delete_session session_id = do
  request post_method "/auth/sessions/delete" (session_fields session_id) none
  pure tt

unfoldable pub create_websocket_token : String → Action Value
unfolding request session_fields
create_websocket_token session_id = do
  v ← request post_method "/auth/websocket-tokens" (session_fields session_id) none
  lift (get_item v "token")

unfoldable pub create_sse_token : String → Action Value
unfolding request session_fields
create_sse_token session_id = do
  v ← request post_method "/auth/sse-tokens" (session_fields session_id) none
  lift (get_item v "token")

unfoldable pub redeem_handoff : String → Action Value
unfolding request
redeem_handoff code =
    request post_method "/auth/handoff/redeem" (some (dict (field "code" (str code) end))) none

unfoldable pub create_device_bootstrap : Value → Action Value
unfolding request user_fields
create_device_bootstrap user_id = do
  v ← request post_method "/auth/device-bootstrap" (some (dict (user_fields user_id))) none
  lift (get_item v "code")

unfoldable pub create_container : Fields → Action Value
unfolding request
create_container container = do
  v ← request post_method "/containers" (some (dict container)) none
  lift (get_item v "container")

unfoldable pub get_container : (container_id user_id : Value) → Action Value
unfolding request user_fields on_not_found
get_container container_id user_id =
    try_except
      (do
        c ← format_value container_id
        v ← request get_method ("/containers/" <> c) none (some (user_fields user_id))
        lift (get_item v "container"))
      (on_not_found null)

unfoldable pub with_limit : String → Option ℤ → Fields → Fields
unfolding insert
with_limit k none params = params
with_limit k (some n) params = insert k (int n) params

unfoldable pub list_containers : Value → (limit offset : Option ℤ) → Action Value
unfolding request user_fields with_limit
list_containers user_id limit offset = do
  v ←
      request get_method "/containers" none
        (some (with_limit "offset" offset (with_limit "limit" limit (user_fields user_id))))
  lift (get_item v "containers")

unfoldable pub update_container : (container_id user_id : Value) → Fields → Action Value
unfolding request insert on_not_found
update_container container_id user_id fields =
    try_except
      (do
        c ← format_value container_id
        v ←
            request post_method ("/containers/" <> c)
              (some (dict (insert "user_id" user_id fields))) none
        lift (get_item v "container"))
      (on_not_found null)

unfoldable pub delete_container : (container_id user_id : Value) → Action Bool
unfolding request user_fields on_not_found
delete_container container_id user_id =
    try_except
      (do
        c ← format_value container_id
        request post_method ("/containers/" <> c <> "/delete") (some (dict (user_fields user_id)))
            none
        pure true)
      (on_not_found false)

unfoldable pub resume_container : (container_id user_id : Value) → Action Value
unfolding request user_fields
resume_container container_id user_id = do
  c ← format_value container_id
  v ←
      request post_method ("/containers/" <> c <> "/resume") (some (dict (user_fields user_id)))
        none
  lift (get_item v "container")

unfoldable pub create_terminal_session : (container_id user_id : Value) → Action Value
unfolding request user_fields
create_terminal_session container_id user_id = do
  c ← format_value container_id
  request post_method ("/internal/containers/" <> c <> "/terminal-session")
      (some (dict (user_fields user_id))) none

unfoldable pub hibernate_container : Value → Action Unit
unfolding request
hibernate_container container_id = do
  c ← format_value container_id
  request post_method ("/internal/containers/" <> c <> "/hibernate") (some (dict end)) none
  pure tt

unfoldable pub list_images : Action Value
unfolding request
list_images = do v ← request get_method "/catalog/images" none none; lift (get_item v "images")

unfoldable pub list_subscription_types : Action Value
unfolding request
list_subscription_types = do
  v ← request get_method "/catalog/subscription-types" none none
  lift (get_item v "subscription_types")

unfoldable pub get_current_subscription : Value → Action Value
unfolding request user_fields
get_current_subscription user_id = do
  v ← request get_method "/subscriptions/current" none (some (user_fields user_id))
  lift (get_item v "subscription_type")

unfoldable pub get_active_device : Value → Action Value
unfolding request
get_active_device user_id = do
  u ← format_value user_id
  v ← request get_method ("/internal/users/" <> u <> "/active-device") none none
  lift (get_item v "device")
