-- ===== src/Containers/Service/Pods.antt =====
-- The methods of `ContainerService` that call container-maker: a pod is created, deleted or saved.
pub mod Calls
pub mod Ends
pub mod Errors
use browseterm_server_local.Prelude.{String, ◌<>◌, none, some, [], ◌∷◌, if◌then◌else◌}
use browseterm_server_local.Python.Value.{Value, null, str, list, dict, truthy}
use browseterm_server_local.Python.Error.{
  Error, http_exception, container_maker_exception, exception, get_item,
}
use browseterm_server_local.Python.Validate.{optional, or_null}
use browseterm_server_local.World.Messages.{
  GrpcCreateContainerRequest, GrpcContainerKey, GrpcContainerResponse,
}
use browseterm_server_local.World.Events.{create_rpc, delete_rpc, save_rpc}
use browseterm_server_local.World.Action.{
  when◌then◌else◌, Action, of_reply, pure, raise, lift, asks, gets, perform, ◌>>=◌, ◌>>◌,
  try_except, text_of, validated,
}
use browseterm_server_local.Cloud.Catalog
use browseterm_server_local.Cloud.Models.{get_image_data_model}
use browseterm_server_local.Containers.Names.{sanitize_container_name, base_name}
use browseterm_server_local.Containers.Resources.{derive_cpu_request, derive_memory_request}
use browseterm_server_local.Containers.ErrorMessage.{clean_k8s_error_message}
use browseterm_server_local.Containers.Client.{ensure_grpc_client}
use browseterm_server_local.Containers.Models.{
  ResourceLimits, CreateContainerK8SRequest, DeleteContainerK8SRequest, SaveContainerK8SRequest,
}
use browseterm_server_local.Containers.Transform.{
  exposure_level, publish_information_models, ResourceRequirementsModel, CreateContainerModel,
  create_container_input, ContainerResponseModel, create_container_output,
  DeleteContainerResponseModel, delete_container_input, delete_container_output,
}

-- `raise HTTPException(500, clean_k8s_error_message(str(e), fallback))`
unfoldable pub container_maker_failed : {A : Type 0} → String → Error → Action A
unfolding clean_k8s_error_message
container_maker_failed fallback x = do
  raw ← text_of x
  detail ← asks (λ e. clean_k8s_error_message e.loads e.lower raw fallback)
  raise (http_exception 500 detail)

-- The two `except` clauses of the three methods; `words` is "Error creating container" or the like.
unfoldable pub pod_failed : {A : Type 0} → String → Error → Action A
unfolding container_maker_failed
pod_failed words (container_maker_exception s) =
    container_maker_failed (words <> " in ContainerMaker.") (container_maker_exception s)
pod_failed words x = container_maker_failed (words <> ".") x

-- `image = await get_image(...)`, and its tag.
image_of : String → Action Value
unfolding Catalog.get_image get_image_data_model validated truthy get_item
image_of image_id = do
  f ←
      validated "GetImageDataModel" (str image_id ∷ null ∷ null ∷ [])
        (get_image_data_model (some image_id) none none)
  image ← Catalog.get_image f
  (when truthy image
      then lift (get_item image "image")
      else raise (exception ("Image with id " <> image_id <> " not found")))

unfoldable pub image_name : String → Value → Action Value
unfolding image_of truthy
image_name image_id override = when truthy override then pure override else image_of image_id

resource_requirements : ResourceLimits → Action ResourceRequirementsModel
unfolding derive_cpu_request derive_memory_request
resource_requirements limits = do
  cpu ← asks (λ e. derive_cpu_request e.floats limits.cpu_limit e.config.cpu_request_ratio)
  cpu_request ← lift cpu
  memory ←
      asks (λ e. derive_memory_request e.floats limits.memory_limit e.config.memory_request_ratio)
  memory_request ← lift memory
  storage ←
      asks
        (λ e. derive_memory_request e.floats limits.storage_limit e.config.ephemeral_request_ratio)
  ephemeral_request ← lift storage
  pure (record {
    cpu_request = cpu_request;
    cpu_limit = limits.cpu_limit;
    memory_request = memory_request;
    memory_limit = limits.memory_limit;
    ephemeral_request = ephemeral_request;
    ephemeral_limit = limits.storage_limit;
    snapshot_size_limit = limits.snapshot_size_limit;
  })

-- `CreateContainerModel(...)`
create_container_model :
    (image_name : Value)
    → CreateContainerK8SRequest
    → ResourceRequirementsModel
    → Action CreateContainerModel
unfolding sanitize_container_name exposure_level publish_information_models optional validated
create_container_model image r requirements = do
  name ← asks (λ e. sanitize_container_name e.lower e.is_space r.container_name)
  container_name ← lift name
  level ← lift (exposure_level r.exposure_level)
  ports ← asks (λ e. publish_information_models e.pydantic r.publish_information)
  publish_information ← validated "PublishInformationModel" (list r.publish_information ∷ []) ports
  tag ← asks (λ e. e.pydantic.str_field image)
  image_name ← validated "CreateContainerModel" (image ∷ []) tag
  env_vars ← asks (λ e. optional e.pydantic.dict_str_field (or_null dict r.environment_variables))
  environment_variables ←
      validated "CreateContainerModel" (or_null dict r.environment_variables ∷ []) env_vars
  pure (record {
    image_name = image_name;
    container_name = container_name;
    network_name = r.network_name;
    exposure_level = level;
    publish_information = publish_information;
    environment_variables = environment_variables;
    resource_requirements = some requirements;
  })

unfoldable pub call_create : GrpcCreateContainerRequest → Action GrpcContainerResponse
call_create m = do
  request_id ← gets (λ w. w.request_id)
  perform (λ e log. of_reply (e.on_create log m)) (create_rpc m request_id)

-- The `try` of `create_container_in_k8s`.
unfoldable pub create_pod :
    (image_name : Value) → CreateContainerK8SRequest → Action ContainerResponseModel
unfolding ensure_grpc_client resource_requirements create_container_model create_container_input
    call_create base_name create_container_output
create_pod image r = do
  ensure_grpc_client
  requirements ← resource_requirements r.resource_limits
  m ← create_container_model image r requirements
  answer ← call_create (create_container_input m)
  pure
      (create_container_output (record answer { container_name = base_name answer.container_name }))

unfoldable pub create_container_in_k8s :
    CreateContainerK8SRequest → (image_name_override : Value) → Action ContainerResponseModel
unfolding image_name create_pod pod_failed
create_container_in_k8s r override = do
  image ← image_name r.image_id override
  try_except (create_pod image r) (pod_failed "Error creating container")

unfoldable pub delete_container_in_k8s :
    DeleteContainerK8SRequest → Action DeleteContainerResponseModel
unfolding ensure_grpc_client delete_container_input delete_container_output pod_failed
delete_container_in_k8s r =
    try_except
      (do
        ensure_grpc_client
        request_id ← gets (λ w. w.request_id)
        answer ←
            perform
              (λ e log.
                of_reply (e.on_delete log (delete_container_input r.container_id r.network_name)))
              (delete_rpc (delete_container_input r.container_id r.network_name) request_id)
        pure (delete_container_output answer))
      (pod_failed "Error deleting container")

unfoldable pub save_key : SaveContainerK8SRequest → GrpcContainerKey
save_key r = record { container_id = r.container_id; network_name = r.network_name }

unfoldable pub save_container_in_k8s : SaveContainerK8SRequest → Action Unit
unfolding ensure_grpc_client save_key pod_failed
save_container_in_k8s r =
    try_except
      (do
        ensure_grpc_client
        request_id ← gets (λ w. w.request_id)
        perform (λ e log. of_reply (e.on_save log (save_key r))) (save_rpc (save_key r) request_id))
      (pod_failed "Error saving container")
