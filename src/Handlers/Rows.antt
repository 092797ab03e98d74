-- ===== src/Handlers/Rows.antt =====
-- The routes of src/api_handlers.py that read and write rows only.
pub mod Bodies
pub mod Ownership
pub mod Activity
use browseterm_server_local.Prelude.{
  String, ◌<>◌, ◌==◌, Option, none, some, [], ◌∷◌, eqb, if◌then◌else◌,
}
use browseterm_server_local.Python.Text.{ℤ}
use browseterm_server_local.Python.Strings.{int_of_text}
use browseterm_server_local.Python.Value.{
  Value, null, str, list, dict, nil, end, field, truthy, get_or,
}
use browseterm_server_local.Python.Error.{
  Error, cloud_client_error, value_error, returned, raised, get_item, get,
}
use browseterm_server_local.World.Events.{utc_now}
use browseterm_server_local.World.Action.{
  when◌then◌else◌, Action, ok, pure, raise, lift, asks, perform, ◌>>=◌, ◌>>◌, try_except, validated,
  text_of,
}
use browseterm_server_local.Cloud.Client
use browseterm_server_local.Cloud.Rows.{get_container_by_id, update_container_fields}
use browseterm_server_local.Web.{
  Request, State, Response, lookup, text_item, json_response, error_content, error_response,
  not_found,
}
use browseterm_server_local.Auth.Session.{authenticate_session}
use browseterm_server_local.Containers.Models
use browseterm_server_local.Containers.Service

no_device : Error → Action Value
no_device (cloud_client_error code message) = pure null
no_device x = raise x

-- `get_device_quota` behind its decorator: the user is looked up inside the `try`.
unfoldable pub device_quota : State → Action Response
unfolding get_item Client.get_active_device no_device json_response
device_quota st = do
  device ←
      try_except (do user_id ← lift (get_item st.user_info "id"); Client.get_active_device user_id)
        no_device
  pure (json_response (dict (field "device" device end)) 200)

unfoldable pub get_device_quota : Request → Action Response
unfolding authenticate_session device_quota
get_device_quota request = authenticate_session device_quota request

unfoldable pub container_info : Request → State → Action Response
unfolding get_item text_item Models.get_container_request validated Service.get_container_info
    json_response error_response
container_info request st =
    try_except
      (do
        container_id ← lift (text_item "container_id" request.path_params)
        user_id ← lift (get_item st.user_info "id")
        o ← asks (λ e. Models.get_container_request e.pydantic container_id user_id)
        r ← validated "GetContainerRequest" (container_id ∷ user_id ∷ []) o
        info ← Service.get_container_info r
        pure (json_response info 200))
      (error_response "Error getting container info: ")

unfoldable pub get_container_info : Request → Action Response
unfolding authenticate_session container_info
get_container_info request = authenticate_session (container_info request) request

unfoldable pub create_row : Request → State → Action Response
unfolding get_item get Models.create_container_db_request validated Service.create_container_in_db
    json_response error_response
create_row request st =
    try_except
      (do
        body ← lift request.body
        user_id ← lift (get_item st.user_info "id")
        image_id ← lift (get_item body "image_id")
        name ← lift (get_item body "name")
        cpu ← lift (get body "cpu_limit" (str "1"))
        memory ← lift (get body "memory_limit" (str "1Gi"))
        storage ← lift (get body "storage_limit" (str "2Gi"))
        ports ← lift (get body "port_mappings" (list nil))
        env_vars ← lift (get body "environment_variables" (dict end))
        o ← asks (λ e.
            Models.create_container_db_request e.pydantic user_id image_id name cpu memory storage
              ports env_vars)
        r ←
            validated "CreateContainerDBRequest"
              (user_id ∷ image_id ∷ name ∷ cpu ∷ memory ∷ storage ∷ ports ∷ env_vars ∷ []) o
        result ← Service.create_container_in_db r
        pure (json_response result 200))
      (error_response "Error creating container in database: ")

unfoldable pub create_container_in_db : Request → Action Response
unfolding authenticate_session create_row
create_container_in_db request = authenticate_session (create_row request) request

-- `data_dict.get(k)`, of what was found to be a dict.
abbrev field_of : Value → String → Value
field_of (dict d) k = get_or null k d
field_of v k = null

unfoldable pub update_row : Request → State → Action Response
unfolding get_item get get_or Models.update_container_filters Models.update_container_data validated
    Service.update_container json_response error_response
update_row request st =
    try_except
      (do
        body ← lift request.body
        filters_data ← lift (get body "filters" (dict end))
        container_id ← lift (get filters_data "container_id" null)
        user_id ← lift (get_item st.user_info "id")
        kubernetes_id ← lift (get filters_data "kubernetes_id" null)
        name ← lift (get filters_data "name" null)
        f ← asks (λ e.
            Models.update_container_filters e.pydantic container_id user_id kubernetes_id name)
        filters ←
            validated "UpdateContainerFilters" (container_id ∷ user_id ∷ kubernetes_id ∷ name ∷ [])
              f
        data_dict ← lift (get body "data" (dict end))
        lift (get data_dict "image_id" null)
        d ← asks (λ e. Models.update_container_data e.pydantic (field_of data_dict))
        updates ← validated "UpdateContainerData" (data_dict ∷ []) d
        result ← Service.update_container (record { filters = filters; updates = updates })
        pure (json_response result 200))
      (error_response "Error updating container: ")

unfoldable pub update_container : Request → Action Response
unfolding authenticate_session update_row
update_container request = authenticate_session (update_row request) request

-- `int(s) if s else None` of a query parameter.
unfoldable pub number_param : Option String → Action (Option ℤ)
unfolding int_of_text
number_param none = pure none
number_param (some s) = when s == "" then pure none else do
  o ← asks (λ e. int_of_text e.is_space s)
  words ← asks (λ e. "invalid literal for int() with base 10: " <> e.texts.repr (str s))
  lift (elim o [ none ↦ raised (value_error words) | some n ↦ returned (some n) ])

unfoldable pub list_rows : Request → State → Action Response
unfolding get_item lookup number_param Models.list_user_containers_request validated
    Service.list_user_containers json_response error_response
list_rows request st =
    try_except
      (do
        user_id ← lift (get_item st.user_info "id")
        limit ← number_param (lookup "limit" request.query_params)
        offset ← number_param (lookup "offset" request.query_params)
        o ← asks (λ e. Models.list_user_containers_request e.pydantic user_id limit offset)
        r ← validated "ListUserContainersRequest" (user_id ∷ []) o
        containers ← Service.list_user_containers r
        pure (json_response (dict (field "containers" containers end)) 200))
      (error_response "Error listing containers: ")

unfoldable pub list_user_containers : Request → Action Response
unfolding authenticate_session list_rows
list_user_containers request = authenticate_session (list_rows request) request

unfoldable pub delete_row : Request → State → Action Response
unfolding get_item Models.delete_container_db_request validated Service.delete_container_in_db
    json_response error_response
delete_row request st =
    try_except
      (do
        body ← lift request.body
        container_id ← lift (get_item body "container_id")
        user_id ← lift (get_item st.user_info "id")
        o ← asks (λ e. Models.delete_container_db_request e.pydantic container_id user_id)
        r ← validated "DeleteContainerDBRequest" (container_id ∷ user_id ∷ []) o
        result ← Service.delete_container_in_db r
        pure (json_response result 200))
      (error_response "Error deleting container from database: ")

unfoldable pub delete_container_in_db : Request → Action Response
unfolding authenticate_session delete_row
delete_container_in_db request = authenticate_session (delete_row request) request

session_failed : Error → Action Response
unfolding error_response json_response error_content
session_failed (cloud_client_error code message) =
    pure (json_response (error_content message) (if eqb code 0 then 500 else code))
session_failed x = error_response "Error starting terminal session: " x

-- `terminal_session` behind its decorator.
unfoldable pub open_terminal : Request → State → Action Response
unfolding get_item get_container_by_id Client.create_terminal_session session_failed json_response
    not_found truthy
open_terminal request st =
    try_except
      (do
        body ← lift request.body
        container_id ← lift (get_item body "container_id")
        user_id ← lift (get_item st.user_info "id")
        row ← get_container_by_id container_id user_id
        (when truthy row
            then (do
              result ← Client.create_terminal_session container_id user_id
              pure (json_response result 200))
            else not_found container_id))
      session_failed

unfoldable pub terminal_session : Request → Action Response
unfolding authenticate_session open_terminal
terminal_session request = authenticate_session (open_terminal request) request

pub activity_failed : Error → Action Response
unfolding json_response error_content
activity_failed x = do
  t ← text_of x
  pure (json_response (error_content (str ("Error recording activity: " <> t))) 500)

-- `container_activity` behind its decorator. A dict has no attribute `id`.
unfoldable pub record_activity : Request → State → Action Response
unfolding get get_item update_container_fields activity_failed json_response error_content truthy
record_activity request st =
    try_except
      (do
        body ← lift request.body
        container_id ← lift (get body "container_id" null)
        (when truthy container_id
            then (do
              user_id ← lift (get_item st.user_info "id")
              now ← perform (λ e log. ok (e.utc_time log)) utc_now
              update_container_fields container_id user_id (field "last_active_at" (str now) end)
              pure (json_response (dict (field "status" (str "ok") end)) 200))
            else pure (json_response (error_content (str "container_id is required")) 400)))
      activity_failed

unfoldable pub container_activity : Request → Action Response
unfolding authenticate_session record_activity
container_activity request = authenticate_session (record_activity request) request
