-- ===== src/Handlers/Resume.antt =====
-- `resume_container` of src/api_handlers.py. Its one `try` is split where the variables change
-- that its handler reads (`container_id`, `user_id`, `resumed`): each part has the handler as it
-- reads them there, and the handler raises nothing itself.
pub mod Calls
pub mod Ownership
pub mod Rollback
pub mod Accepted
pub mod Admission
use browseterm_server_local.Prelude.{◌<>◌, Bool, true, false, ◌&&◌, [], ◌∷◌, eqb, if◌then◌else◌}
use browseterm_server_local.Python.Text.{pos}
use browseterm_server_local.Python.Value.{
  Value, null, int, str, list, dict, nil, end, field, truthy, or_else,
}
use browseterm_server_local.Python.Error.{Error, http_exception, cloud_client_error, get_item, get}
use browseterm_server_local.World.Action.{
  when◌then◌else◌, Action, pure, raise, lift, asks, gets, ◌>>=◌, ◌>>◌, try_except, text_of,
  validated,
}
use browseterm_server_local.Cloud.Client
use browseterm_server_local.Cloud.Rows.{get_container_by_id, update_container_fields}
use browseterm_server_local.Web.{
  Request, State, Response, json_response, error_content, not_found, extended,
}
use browseterm_server_local.Auth.Session.{authenticate_session}
use browseterm_server_local.Containers.Client.{container_service}
use browseterm_server_local.Containers.Models
use browseterm_server_local.Containers.Models.{CreateContainerK8SRequest}
use browseterm_server_local.Containers.Transform.{ContainerResponseModel}
use browseterm_server_local.Containers.Service
use browseterm_server_local.Handlers.Pods.{namespace_of}

-- The variables that the handler of the `try` reads.
pub record Progress : Type 0 where
  pub container_id : Value
  pub user_id : Value
  pub resumed : Bool

-- What is undone, at best effort: the transition at Cloud, or the row is marked FAILED.
unfoldable pub undo : Progress → Action Unit
unfolding truthy Client.hibernate_container update_container_fields
undo p =
    when truthy p.container_id && p.resumed
    then try_except (Client.hibernate_container p.container_id) (λ x. pure tt)
    else when truthy p.container_id && truthy p.user_id
    then try_except
        (do
          failed ← asks (λ e. e.statuses.failed)
          update_container_fields p.container_id p.user_id (field "status" (str failed) end)
          pure tt)
        (λ x. pure tt)
    else pure tt

-- The two `except` clauses.
unfoldable pub recover : Progress → Error → Action Response
unfolding undo json_response error_content
recover p (http_exception code detail) = pure (json_response (error_content (str detail)) code)
recover p x = do
  undo p
  t ← text_of x
  pure (json_response (error_content (str ("Error resuming container: " <> t))) 500)

-- The request to container-maker, built from the row.
unfoldable pub resume_request : (row container_id : Value) → Action CreateContainerK8SRequest
unfolding get get_item or_else extended namespace_of Models.resource_limits
    Models.create_container_k8s_request validated
resume_request row container_id = do
  stored ← lift (get row "environment_vars" null)
  environment_variables ← lift (extended (or_else stored (dict end)) "CONTAINER_ID" container_id)
  cpu ← lift (get row "cpu_limit" null)
  memory ← lift (get row "memory_limit" null)
  storage ← lift (get row "storage_limit" null)
  l ← asks (λ e.
      Models.resource_limits e.pydantic (or_else cpu (str "1")) (or_else memory (str "1Gi"))
        (or_else storage (str "2Gi")) (str "2Gi"))
  limits ← validated "ResourceLimits" (cpu ∷ memory ∷ storage ∷ []) l
  image_id ← lift (get_item row "image_id")
  name ← lift (get_item row "name")
  owner ← lift (get_item row "user_id")
  network_name ← namespace_of owner
  ports ← lift (get row "port_mappings" null)
  o ← asks (λ e.
      Models.create_container_k8s_request e.pydantic image_id name network_name (int (pos 2))
        (or_else ports (list nil)) environment_variables limits)
  validated "CreateContainerK8SRequest" (image_id ∷ name ∷ ports ∷ []) o

-- The row gets the new pod's identity.
unfoldable pub record_pod : (container_id user_id : Value) → ContainerResponseModel → Action Unit
unfolding update_container_fields
record_pod container_id user_id response = do
  running ← asks (λ e. e.statuses.running)
  request_id ← gets (λ w. w.request_id)
  update_container_fields container_id user_id (
      field "kubernetes_id" (str response.container_id) (
        field "ip_address" (str response.container_ip) (
          field "associated_resources" response.associated_resources
            (field "status" (str running) (field "last_request_id" (str request_id) end)))))
  pure tt

-- After Cloud's transition.
unfoldable pub start_resumed : (row container_id user_id : Value) → Action Response
unfolding update_container_fields resume_request container_service get
    Service.create_container_in_k8s record_pod json_response
start_resumed row container_id user_id = do
  request_id ← gets (λ w. w.request_id)
  update_container_fields container_id user_id (field "last_request_id" (str request_id) end)
  r ← resume_request row container_id
  container_service
  saved_image ← lift (get row "saved_image" null)
  response ← Service.create_container_in_k8s r saved_image
  record_pod container_id user_id response
  pure (
      json_response
        (dict (
          field "status" (str "resumed") (
            field "container_id" container_id
              (field "kubernetes_id" (str response.container_id) end))))
        200)

-- Whether Cloud made the transition, or what the caller is told.
pub data Transition : Type 0 where
  made : Transition
  rejected : Response → Transition

reject : Error → Action Transition
unfolding json_response error_content
reject (cloud_client_error code message) =
    pure (rejected (json_response (error_content message) (if eqb code 0 then 500 else code)))
reject x = raise x

unfoldable pub transition : (container_id user_id : Value) → Action Transition
unfolding Client.resume_container reject
transition container_id user_id =
    try_except (do Client.resume_container container_id user_id; pure made) reject

unfoldable pub after_transition : (row container_id user_id : Value) → Transition → Action Response
unfolding start_resumed recover
after_transition row container_id user_id (rejected r) = pure r
after_transition row container_id user_id made =
    try_except (start_resumed row container_id user_id)
      (recover (record { container_id = container_id; user_id = user_id; resumed = true }))

unfoldable pub resume_owned : (container_id user_id : Value) → Action Response
unfolding get_container_by_id truthy transition after_transition not_found
resume_owned container_id user_id = do
  row ← get_container_by_id container_id user_id
  (when truthy row
      then (do t ← transition container_id user_id; after_transition row container_id user_id t)
      else not_found container_id)

-- `resume_container` behind its decorator.
unfoldable pub resume : Request → State → Action Response
unfolding get_item resume_owned recover
resume request st =
    try_except
      (do
        body ← lift request.body
        container_id ← lift (get_item body "container_id")
        try_except
            (do
              user_id ← lift (get_item st.user_info "id")
              try_except (resume_owned container_id user_id) (
                  recover
                    (record { container_id = container_id; user_id = user_id; resumed = false })))
            (recover (record { container_id = container_id; user_id = null; resumed = false })))
      (recover (record { container_id = null; user_id = null; resumed = false }))

unfoldable pub resume_container : Request → Action Response
unfolding authenticate_session resume
resume_container request = authenticate_session (resume request) request
