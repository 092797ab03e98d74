-- ===== src/Handlers/Pods.antt =====
-- `create_container_in_k8s` and `delete_container_in_k8s` of src/api_handlers.py.
pub mod Ownership
pub mod Release
use browseterm_server_local.Prelude.{String, ◌<>◌, [], ◌∷◌, if◌then◌else◌}
use browseterm_server_local.Python.Text.{pos}
use browseterm_server_local.Python.Value.{Value, null, int, str, list, dict, nil, end, truthy}
use browseterm_server_local.Python.Error.{get_item, get}
use browseterm_server_local.World.Action.{
  when◌then◌else◌, Action, pure, raise, lift, asks, ◌>>=◌, ◌>>◌, try_except, format_value,
  validated,
}
use browseterm_server_local.Cloud.Rows.{get_container_by_id}
use browseterm_server_local.Web.{
  Request, State, Response, json_response, error_response, not_found, extended,
}
use browseterm_server_local.Auth.Session.{authenticate_session}
use browseterm_server_local.Containers.Client.{container_service}
use browseterm_server_local.Containers.Models
use browseterm_server_local.Containers.Models.{CreateContainerK8SRequest}
use browseterm_server_local.Containers.Transform.{
  ContainerResponseModel, dump_container, dump_deletion,
}
use browseterm_server_local.Containers.Service

-- `f"{user_id}-namespace"`
unfoldable pub namespace_of : Value → Action String
unfolding format_value
namespace_of user_id = do u ← format_value user_id; pure (u <> "-namespace")

-- The request to container-maker, built from the body.
unfoldable pub pod_request :
    (body container_id user_id requirements : Value) → Action CreateContainerK8SRequest
unfolding get get_item extended namespace_of Models.resource_limits
    Models.create_container_k8s_request validated
pod_request body container_id user_id requirements = do
  cpu ← lift (get requirements "cpu_limit" (str "1"))
  memory ← lift (get requirements "memory_limit" (str "1Gi"))
  storage ← lift (get requirements "ephemeral_limit" (str "2Gi"))
  snapshot ← lift (get requirements "snapshot_size_limit" (str "2Gi"))
  l ← asks (λ e. Models.resource_limits e.pydantic cpu memory storage snapshot)
  limits ← validated "ResourceLimits" (cpu ∷ memory ∷ storage ∷ snapshot ∷ []) l
  env ← lift (get body "environment_variables" (dict end))
  environment_variables ← lift (extended env "CONTAINER_ID" container_id)
  image_id ← lift (get_item body "image_id")
  name ← lift (get_item body "container_name")
  network_name ← namespace_of user_id
  exposure ← lift (get body "exposure_level" (int (pos 2)))
  publish ← lift (get body "publish_information" (list nil))
  o ← asks (λ e.
      Models.create_container_k8s_request e.pydantic image_id name network_name exposure publish
        environment_variables limits)
  validated "CreateContainerK8SRequest" (image_id ∷ name ∷ exposure ∷ publish ∷ []) o

-- The row and its reservation are released, at best effort, before the error goes on.
unfoldable pub release_row : (container_id user_id : Value) → Action Unit
unfolding Models.delete_container_db_request validated Service.delete_container_in_db
release_row container_id user_id =
    try_except
      (do
        o ← asks (λ e. Models.delete_container_db_request e.pydantic container_id user_id)
        r ← validated "DeleteContainerDBRequest" (container_id ∷ user_id ∷ []) o
        Service.delete_container_in_db r
        pure tt)
      (λ x. pure tt)

unfoldable pub start_pod :
    (container_id user_id : Value) → CreateContainerK8SRequest → Action ContainerResponseModel
unfolding release_row Service.create_container_in_k8s
start_pod container_id user_id r =
    try_except (Service.create_container_in_k8s r null)
      (λ x. do release_row container_id user_id; raise x)

-- `create_container_in_k8s` behind its decorator.
unfoldable pub create_pod : Request → State → Action Response
unfolding get get_item get_container_by_id truthy pod_request container_service start_pod
    dump_container json_response error_response not_found
create_pod request st =
    try_except
      (do
        body ← lift request.body
        container_id ← lift (get_item body "container_id")
        user_id ← lift (get_item st.user_info "id")
        requirements ← lift (get body "resource_requirements" (dict end))
        owned_row ← get_container_by_id container_id user_id
        (when truthy owned_row
            then (do
              r ← pod_request body container_id user_id requirements
              container_service
              response ← start_pod container_id user_id r
              pure (json_response (dump_container response) 200))
            else not_found container_id))
      (error_response "Error creating container in Kubernetes: ")

unfoldable pub create_container_in_k8s : Request → Action Response
unfolding authenticate_session create_pod
create_container_in_k8s request = authenticate_session (create_pod request) request

-- `delete_container_in_k8s` behind its decorator.
unfoldable pub delete_pod : Request → State → Action Response
unfolding get_item namespace_of Models.delete_container_k8s_request validated container_service
    Service.delete_container_in_k8s dump_deletion json_response error_response
delete_pod request st =
    try_except
      (do
        body ← lift request.body
        container_id ← lift (get_item body "container_id")
        user_id ← lift (get_item st.user_info "id")
        network_name ← namespace_of user_id
        o ← asks (λ e. Models.delete_container_k8s_request e.pydantic container_id network_name)
        r ← validated "DeleteContainerK8SRequest" (container_id ∷ []) o
        container_service
        result ← Service.delete_container_in_k8s r
        pure (json_response (dump_deletion result) 200))
      (error_response "Error deleting container from Kubernetes: ")

unfoldable pub delete_container_in_k8s : Request → Action Response
unfolding authenticate_session delete_pod
delete_container_in_k8s request = authenticate_session (delete_pod request) request
