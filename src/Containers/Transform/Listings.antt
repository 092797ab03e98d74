-- ===== src/Containers/Transform/Listings.antt =====
-- src/containers/data_transformers/get_container_transformer.py and list_container_transformer.py,
-- with the models of src/containers/dto that they use.
use browseterm_server_local.Prelude.{String, some, List, [], ◌∷◌, ◌++◌}
use mathlib.Core.List.{map}
use browseterm_server_local.Python.Value.{null}
use browseterm_server_local.World.Messages.{GrpcContainerKey, GrpcPort, GrpcContainerResponse}
use browseterm_server_local.Containers.Transform.{PortInformationModel, ContainerResponseModel}

pub record GetContainerDataModel : Type 0 where
  pub container_id : String
  pub network_name : String

pub record ListContainerDataModel : Type 0 where
  pub network_name : String

pub record ListContainerResponseModel : Type 0 where
  pub containers : List ContainerResponseModel

-- The message `ListContainerRequest`.
pub record GrpcListContainerRequest : Type 0 where
  pub network_name : String

-- The message `ListContainerResponse`.
pub record GrpcListContainerResponse : Type 0 where
  pub containers : List GrpcContainerResponse

-- `GetContainerInputDataTransformer.transform`
unfoldable pub get_container_input : GetContainerDataModel → GrpcContainerKey
get_container_input m = record { container_id = m.container_id; network_name = m.network_name }

-- `PortInformationModel(name=port.name, ...)`
unfoldable pub listed_port : GrpcPort → PortInformationModel
listed_port port = record {
  name = some port.name;
  container_port = port.container_port;
  protocol = some port.protocol;
}

-- `GetContainerOutputDataTransformer.transform`
unfoldable pub get_container_output : GrpcContainerResponse → ContainerResponseModel
unfolding listed_port
get_container_output r = record {
  container_id = r.container_id;
  container_name = r.container_name;
  container_ip = r.container_ip;
  container_network = r.container_network;
  container_ports = map listed_port r.ports;
  associated_resources = null;
}

-- `ListContainerInputDataTransformer.transform`
unfoldable pub list_container_input : ListContainerDataModel → GrpcListContainerRequest
list_container_input m = record { network_name = m.network_name }

-- The loop of `ListContainerOutputDataTransformer.transform`, with the containers so far.
unfoldable pub append_containers :
    List GrpcContainerResponse → List ContainerResponseModel → List ContainerResponseModel
unfolding listed_port
append_containers [] containers = containers
append_containers (container ∷ rest) containers = append_containers rest (
    containers
    ++ record {
      container_id = container.container_id;
      container_name = container.container_name;
      container_ip = container.container_ip;
      container_network = container.container_network;
      container_ports = map listed_port container.ports;
      associated_resources = null;
    }
      ∷ [])

unfoldable pub list_container_output : GrpcListContainerResponse → ListContainerResponseModel
unfolding append_containers
list_container_output r = record { containers = append_containers r.containers [] }
