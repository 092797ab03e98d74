-- ===== src/Containers/Transform.antt =====
-- src/containers/dto and data_transformers: the models of the gRPC calls, and their translation to
-- and from the messages.
pub mod Listings
use browseterm_server_local.Prelude.{String, ◌<>◌, Option, none, some, List, [], ◌∷◌}
use mathlib.Core.List.{map}
use browseterm_server_local.Python.Text.{ℤ, pos, show_ℤ}
use browseterm_server_local.Prelude.{zero, suc}
use browseterm_server_local.Python.Value.{
  Value, null, int, str, list, dict, Items, nil, item, Fields, end, field, get_or,
}
use browseterm_server_local.Python.Error.{value_error, Reply, returned, raised}
use browseterm_server_local.Python.Validate.{◌>>=◌, optional}
use browseterm_server_local.World.Events.{Pydantic}
use browseterm_server_local.World.Messages.{
  GrpcExposureLevel, exposure_level_internal, exposure_level_cluster_local,
  exposure_level_cluster_external, exposure_level_exposed, GrpcPublishInformation,
  GrpcResourceRequirements, GrpcCreateContainerRequest, GrpcContainerKey, GrpcPort, GrpcResource,
  resource, GrpcResources, no_resources, with_resource, GrpcContainerResponse,
  GrpcDeleteContainerResponse,
}

pub data ExposureLevel : Type 0 where
  internal cluster_local cluster_external exposed : ExposureLevel

-- `ExposureLevel(n)`
unfoldable pub exposure_level : ℤ → Reply ExposureLevel
unfolding show_ℤ
exposure_level (pos (suc zero)) = returned internal
exposure_level (pos (suc (suc zero))) = returned cluster_local
exposure_level (pos (suc (suc (suc zero)))) = returned cluster_external
exposure_level (pos (suc (suc (suc (suc zero))))) = returned exposed
exposure_level n = raised (value_error (show_ℤ n <> " is not a valid ExposureLevel"))

pub record PublishInformationModel : Type 0 where
  pub publish_port : ℤ
  pub target_port : ℤ
  pub protocol : String
  pub node_port : Option ℤ

pub record ResourceRequirementsModel : Type 0 where
  pub cpu_request : String
  pub cpu_limit : String
  pub memory_request : String
  pub memory_limit : String
  pub ephemeral_request : String
  pub ephemeral_limit : String
  pub snapshot_size_limit : String

pub record CreateContainerModel : Type 0 where
  pub image_name : String
  pub container_name : String
  pub network_name : String
  pub exposure_level : ExposureLevel
  pub publish_information : List PublishInformationModel
  pub environment_variables : Option Fields
  pub resource_requirements : Option ResourceRequirementsModel

-- One element of `publish_information`, with its defaults.
unfoldable pub publish_information_model : Pydantic → Fields → Option PublishInformationModel
unfolding get_or optional
publish_information_model p d = do
  publish_port ← p.int_field (get_or (int (pos 2222)) "publish_port" d)
  target_port ← p.int_field (get_or (int (pos 22)) "target_port" d)
  protocol ← p.str_field (get_or (str "TCP") "protocol" d)
  node_port ← optional p.int_field (get_or null "node_port" d)
  some (record {
    publish_port = publish_port;
    target_port = target_port;
    protocol = protocol;
    node_port = node_port;
  })

-- The elements of a validated `list[dict]` are dicts.
unfoldable pub publish_information_models : Pydantic → Items → Option (List PublishInformationModel)
unfolding publish_information_model
publish_information_models p nil = some []
publish_information_models p (item (dict d) rest) =
    let tail = publish_information_models p rest in
    do m ← publish_information_model p d; ms ← tail; some (m ∷ ms)
publish_information_models p (item v rest) = none

-- `exposure_level_map`
unfoldable pub grpc_exposure_level : ExposureLevel → GrpcExposureLevel
grpc_exposure_level internal = exposure_level_internal
grpc_exposure_level cluster_local = exposure_level_cluster_local
grpc_exposure_level cluster_external = exposure_level_cluster_external
grpc_exposure_level exposed = exposure_level_exposed

grpc_publish_information : PublishInformationModel → GrpcPublishInformation
grpc_publish_information m = record {
  publish_port = m.publish_port;
  target_port = m.target_port;
  protocol = m.protocol;
  node_port = m.node_port;
}

grpc_resource_requirements : ResourceRequirementsModel → GrpcResourceRequirements
grpc_resource_requirements m = record {
  cpu_request = m.cpu_request;
  cpu_limit = m.cpu_limit;
  memory_request = m.memory_request;
  memory_limit = m.memory_limit;
  ephemeral_request = m.ephemeral_request;
  ephemeral_limit = m.ephemeral_limit;
  snapshot_size_limit = m.snapshot_size_limit;
}

abbrev map_option : {A B : Type 0} → (A → B) → Option A → Option B
map_option f none = none
map_option f (some a) = some (f a)

-- `CreateContainerInputDataTransformer.transform`
unfoldable pub create_container_input : CreateContainerModel → GrpcCreateContainerRequest
unfolding grpc_exposure_level grpc_publish_information grpc_resource_requirements
create_container_input m = record {
  image_name = m.image_name;
  container_name = m.container_name;
  network_name = m.network_name;
  exposure_level = grpc_exposure_level m.exposure_level;
  publish_information = map grpc_publish_information m.publish_information;
  environment_variables = m.environment_variables;
  resource_requirements = map_option grpc_resource_requirements m.resource_requirements;
}

pub record PortInformationModel : Type 0 where
  pub name : Option String
  pub container_port : ℤ
  pub protocol : Option String

pub record ContainerResponseModel : Type 0 where
  pub container_name : String
  pub container_id : String
  pub container_ip : String
  pub container_network : String
  pub container_ports : List PortInformationModel
  pub associated_resources : Value

unfoldable pub resources_fields : GrpcResourceRequirements → Fields
resources_fields r = field "cpu_request" (str r.cpu_request) (
    field "cpu_limit" (str r.cpu_limit) (
      field "memory_request" (str r.memory_request) (
        field "memory_limit" (str r.memory_limit) (
          field "ephemeral_request" (str r.ephemeral_request) (
            field "ephemeral_limit" (str r.ephemeral_limit)
              (field "snapshot_size_limit" (str r.snapshot_size_limit) end))))))

abbrev with_resources : Option GrpcResourceRequirements → Fields → Fields
with_resources none rest = rest
with_resources (some r) rest = field "container_resources" (dict (resources_fields r)) rest

abbrev with_associated : GrpcResources → Items → Fields
with_associated no_resources parsed = end
with_associated (with_resource r rs) parsed = field "associated_resources" (list parsed) end

-- `_parse_associated_resources`, of a resource and of a list of them.
unfoldable mutual
  pub parse_associated_resources : GrpcResource → Value
  parse_associated_resources (resource name kind requirements rs) = dict (
      field "resource_name" (str name) (
        field "resource_type" (str kind)
          (with_resources requirements (with_associated rs (parse_all_resources rs)))))

  pub parse_all_resources : GrpcResources → Items
  parse_all_resources no_resources = nil
  parse_all_resources (with_resource r rs) =
      item (parse_associated_resources r) (parse_all_resources rs)

unfoldable pub resources_value : GrpcResources → Value
unfolding parse_all_resources
resources_value no_resources = null
resources_value (with_resource r rs) = list (parse_all_resources (with_resource r rs))

port_information : GrpcPort → PortInformationModel
port_information port = record {
  name = some port.name;
  container_port = port.container_port;
  protocol = some port.protocol;
}

-- `CreateContainerOutputDataTransformer.transform`
unfoldable pub create_container_output : GrpcContainerResponse → ContainerResponseModel
unfolding resources_value port_information
create_container_output r = record {
  container_name = r.container_name;
  container_id = r.container_id;
  container_ip = r.container_ip;
  container_network = r.container_network;
  container_ports = map port_information r.ports;
  associated_resources = resources_value r.associated_resources;
}

pub record DeleteContainerResponseModel : Type 0 where
  pub container_id : String
  pub status : String

-- `DeleteContainerInputDataTransformer.transform`, of the fields of `DeleteContainerDataModel`.
unfoldable pub delete_container_input : (container_id network_name : String) → GrpcContainerKey
delete_container_input container_id network_name = record {
  container_id = container_id;
  network_name = network_name;
}

-- `DeleteContainerOutputDataTransformer.transform`
unfoldable pub delete_container_output : GrpcDeleteContainerResponse → DeleteContainerResponseModel
delete_container_output r = record { container_id = r.container_id; status = r.status }

str_or_null : Option String → Value
str_or_null none = null
str_or_null (some s) = str s

ports_value : List PortInformationModel → Items
unfolding str_or_null
ports_value [] = nil
ports_value (port ∷ ports) =
    item
      (dict (
        field "name" (str_or_null port.name) (
          field "container_port" (int port.container_port)
            (field "protocol" (str_or_null port.protocol) end))))
      (ports_value ports)

-- `model_dump()` of the two response models.
unfoldable pub dump_container : ContainerResponseModel → Value
unfolding ports_value
dump_container m = dict (
    field "container_name" (str m.container_name) (
      field "container_id" (str m.container_id) (
        field "container_ip" (str m.container_ip) (
          field "container_network" (str m.container_network) (
            field "container_ports" (list (ports_value m.container_ports))
              (field "associated_resources" m.associated_resources end))))))

unfoldable pub dump_deletion : DeleteContainerResponseModel → Value
dump_deletion m =
    dict (field "container_id" (str m.container_id) (field "status" (str m.status) end))
