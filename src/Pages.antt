-- ===== src/Pages.antt =====
-- The pages of src/template_handlers.py: what each reads at Cloud and hands to its template. The
-- context's key "request" and what a template makes of its context are left out.
pub mod Reads
pub mod Ends
pub mod Plan
use browseterm_server_local.Prelude.{
  String, Bool, false, ◌<>◌, ◌==◌, none, some, [], ◌∷◌, if◌then◌else◌,
}
use browseterm_server_local.Python.Text.{pos}
use browseterm_server_local.Python.Value.{
  Value, null, int, str, list, dict, Items, nil, item, Fields, end, field, truthy, class_name,
}
use browseterm_server_local.Python.Error.{
  Error, key_error, type_error, attribute_error, cloud_client_error, Reply, returned, raised,
  get_item, get,
}
use browseterm_server_local.Python.Error as Reply
use browseterm_server_local.World.Action.{
  when◌then◌else◌, Action, pure, raise, lift, asks, ◌>>=◌, ◌>>◌, try_except, text_of, format_value,
}
use browseterm_server_local.Cloud.Client.{get_active_device, create_sse_token}
use browseterm_server_local.Cloud.Rows.{get_container_by_id}
use browseterm_server_local.Cloud.Catalog.{
  list_all_existing_images, list_all_existing_subscription_types, items_of,
}
use browseterm_server_local.Web.{Request, State, Response, lookup, template_response}
use browseterm_server_local.Auth.Session.{authenticate_session, cookie}

unfoldable pub home : Request → Action Response
unfolding authenticate_session template_response
home request = authenticate_session (λ st. pure (template_response "home.html" end)) request

-- `except CloudClientError`: the page shows no device.
without_device : Error → Action Value
without_device (cloud_client_error code message) = pure null
without_device x = raise x

unfoldable pub active_device : State → Action Value
unfolding get_item get_active_device without_device
active_device st =
    try_except (do user_id ← lift (get_item st.user_info "id"); get_active_device user_id)
      without_device

-- `await CloudClient().create_sse_token(session_id) if session_id else ''`
unfoldable pub sse_token : Request → Action Value
unfolding cookie create_sse_token
sse_token request =
    when cookie "session" request == ""
    then pure (str "")
    else create_sse_token (cookie "session" request)

unfoldable pub terminals_page : Request → State → Action Response
unfolding list_all_existing_images active_device sse_token template_response
terminals_page request st = do
  images ← list_all_existing_images
  device ← active_device st
  token ← sse_token request
  url ← asks (λ e. e.config.cloud_api_url)
  pure (
      template_response "terminals.html" (
        field "images" images (
          field "userInfo" st.user_info (
            field "activeDevice" device
              (field "sseToken" token (field "cloudApiUrl" (str url) end))))))

unfoldable pub terminals : Request → Action Response
unfolding authenticate_session terminals_page
terminals request = authenticate_session (terminals_page request) request

-- What a terminal's page shows in place of a container.
unfoldable pub terminal_problem : (id name error : String) → Value
terminal_problem id name error = dict (
    field "id" (str id) (
      field "name" (str name)
        (field "ipAddress" (str "N/A") (field "port" (str "N/A") (field "error" (str error) end)))))

-- `port_mappings[0]`, of what is not empty. A text's first character is a text, which has no `get`.
unfoldable pub first_mapping : Value → Reply Value
unfolding class_name
first_mapping (list (item v vs)) = returned v
first_mapping (dict d) = raised (key_error "0")
first_mapping (str s) = returned (str s)
first_mapping v = raised (type_error ("'" <> class_name v <> "' object is not subscriptable"))

-- `port_mappings[0].get('publish_port') if port_mappings else 2222`
unfoldable pub ssh_port : Value → Reply Value
unfolding truthy first_mapping get
ssh_port v =
    if truthy v
    then Reply.◌>>=◌ (first_mapping v) (λ m. get m "publish_port" null)
    else returned (int (pos 2222))

-- The page's view of a container's row.
unfoldable pub terminal_of : Value → Action Value
unfolding get ssh_port
terminal_of row = do
  env_vars ← lift (get row "environment_vars" (dict end))
  ssh_username ← lift (get env_vars "SSH_USERNAME" (str ""))
  ssh_password ← lift (get env_vars "SSH_PASSWORD" (str ""))
  port_mappings ← lift (get row "port_mappings" (list nil))
  p ← lift (ssh_port port_mappings)
  id ← lift (get row "id" null)
  name ← lift (get row "name" null)
  ip_address ← lift (get row "ip_address" (str "Pending..."))
  port ← format_value p
  status ← lift (get row "status" (str "Unknown"))
  save_status ← lift (get row "save_status" null)
  saved_image ← lift (get row "saved_image" null)
  save_error ← lift (get row "save_error" null)
  last_saved_at ← lift (get row "last_saved_at" null)
  last_save_attempted_at ← lift (get row "last_save_attempted_at" null)
  pure (
      dict (
        field "id" id (
          field "name" name (
            field "ipAddress" ip_address (
              field "port" (str port) (
                field "sshUsername" ssh_username (
                  field "sshPassword" ssh_password (
                    field "status" status (
                      field "saveStatus" save_status (
                        field "savedImage" saved_image (
                          field "saveError" save_error (
                            field "lastSavedAt" last_saved_at
                              (field "lastSaveAttemptedAt" last_save_attempted_at end)))))))))))))

terminal_failed : String → Error → Action Value
unfolding terminal_problem
terminal_failed id x = do
  t ← text_of x
  pure (terminal_problem id "Error" ("Error loading terminal: " <> t))

-- The `else` branch of `terminalpage`.
unfoldable pub loaded_terminal : String → State → Action Value
unfolding get_item get_container_by_id truthy terminal_problem terminal_of terminal_failed
loaded_terminal id st =
    try_except
      (do
        user_id ← lift (get_item st.user_info "id")
        row ← get_container_by_id (str id) user_id
        (when truthy row
            then terminal_of row
            else pure
                (terminal_problem id "Not Found" "Terminal not found or you don't have access")))
      (terminal_failed id)

unfoldable pub terminal_info : String → State → Action Value
unfolding terminal_problem loaded_terminal
terminal_info id st =
    when id == ""
    then pure (terminal_problem "" "Error" "No terminal ID provided")
    else loaded_terminal id st

-- `request.query_params.get(k, '')`
unfoldable pub query_param : String → Request → String
unfolding lookup
query_param k request = elim (lookup k request.query_params) [ none ↦ "" | some s ↦ s ]

unfoldable pub terminal_page : Request → State → Action Response
unfolding query_param terminal_info sse_token template_response
terminal_page request st = do
  info ← terminal_info (query_param "id" request) st
  token ← sse_token request
  url ← asks (λ e. e.config.cloud_api_url)
  pure (
      template_response "terminalpage.html" (
        field "terminalInfo" info (
          field "sseToken" token
            (field "cloudApiUrl" (str url) (field "userInfo" st.user_info end)))))

unfoldable pub terminalpage : Request → Action Response
unfolding authenticate_session terminal_page
terminalpage request = authenticate_session (terminal_page request) request

unfoldable pub subscriptions_page : State → Action Response
unfolding list_all_existing_subscription_types template_response
subscriptions_page st = do
  plans ← list_all_existing_subscription_types
  pure (
      template_response "subscriptions.html" (
        field "subscriptions" plans (
          field "userInfo" st.user_info (
            field "subscriptionInfo" st.subscription_info
              (field "currentSubscriptionPlan" st.current_subscription_plan end)))))

unfoldable pub subscriptions : Request → Action Response
unfolding authenticate_session subscriptions_page
subscriptions request = authenticate_session subscriptions_page request

-- `v == plan_id`
is_text : String → Value → Bool
is_text s (str t) = t == s
is_text s v = false

-- `next((s for s in subscriptions if s.get('id') == plan_id), None)`
unfoldable pub selected_plan : String → Items → Reply Value
unfolding get is_text
selected_plan plan_id nil = returned null
selected_plan plan_id (item v vs) =
    let rest = selected_plan plan_id vs in
    Reply.◌>>=◌ (get v "id" null) (λ id. if is_text plan_id id then returned v else rest)

unfoldable pub payment_page : Request → State → Action Response
unfolding query_param list_all_existing_subscription_types items_of selected_plan template_response
payment_page request st = do
  v ← list_all_existing_subscription_types
  plans ← lift (items_of v)
  plan ← lift (selected_plan (query_param "plan_id" request) plans)
  pure (
      template_response "payment.html"
        (field "selectedPlan" plan (field "userInfo" st.user_info end)))

unfoldable pub payment : Request → Action Response
unfolding authenticate_session payment_page
payment request = authenticate_session (payment_page request) request

unfoldable pub profile_page : State → Action Response
unfolding active_device template_response
profile_page st = do
  device ← active_device st
  pure (
      template_response "profile.html"
        (field "userInfo" st.user_info (field "activeDevice" device end)))

unfoldable pub profile : Request → Action Response
unfolding authenticate_session profile_page
profile request = authenticate_session profile_page request

unfoldable pub login : Request → Action Response
unfolding template_response
login request = pure (template_response "login.html" end)

unfoldable pub js_test : Request → Action Response
unfolding template_response
js_test request = pure (template_response "js_test.html" end)
