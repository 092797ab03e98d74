-- ===== src/World/Messages.antt =====
-- The messages of the gRPC services (the repository's specs of container-maker and
-- payment-gateway), as far as the source sets or reads their fields, and HTTP requests to Cloud.
use browseterm_server_local.Prelude.{ℕ, String, Option, List}
use browseterm_server_local.Python.Text.{ℤ}
use browseterm_server_local.Python.Error.{Reply}
use browseterm_server_local.Python.Value.{Value, Fields}

pub data GrpcExposureLevel : Type 0 where
  exposure_level_internal : GrpcExposureLevel
  exposure_level_cluster_local : GrpcExposureLevel
  exposure_level_cluster_external : GrpcExposureLevel
  exposure_level_exposed : GrpcExposureLevel

pub record GrpcPublishInformation : Type 0 where
  pub publish_port : ℤ
  pub target_port : ℤ
  pub protocol : String
  pub node_port : Option ℤ

pub record GrpcResourceRequirements : Type 0 where
  pub cpu_request : String
  pub cpu_limit : String
  pub memory_request : String
  pub memory_limit : String
  pub ephemeral_request : String
  pub ephemeral_limit : String
  pub snapshot_size_limit : String

pub record GrpcCreateContainerRequest : Type 0 where
  pub image_name : String
  pub container_name : String
  pub network_name : String
  pub exposure_level : GrpcExposureLevel
  pub publish_information : List GrpcPublishInformation
  pub environment_variables : Option Fields
  pub resource_requirements : Option GrpcResourceRequirements

-- `DeleteContainerRequest` and `SaveContainerRequest`.
pub record GrpcContainerKey : Type 0 where
  pub container_id : String
  pub network_name : String

pub record GrpcPort : Type 0 where
  pub name : String
  pub container_port : ℤ
  pub protocol : String

-- `container_resources` is `none` where the field's value is falsy.
mutual
  pub data GrpcResource : Type 0 where
    resource :
        (resource_name resource_type : String)
        → Option GrpcResourceRequirements
        → GrpcResources
        → GrpcResource

  pub data GrpcResources : Type 0 where
    no_resources : GrpcResources
    with_resource : GrpcResource → GrpcResources → GrpcResources

pub record GrpcContainerResponse : Type 0 where
  pub container_id : String
  pub container_name : String
  pub container_ip : String
  pub container_network : String
  pub ports : List GrpcPort
  pub associated_resources : GrpcResources

pub record GrpcDeleteContainerResponse : Type 0 where
  pub container_id : String
  pub status : String

pub record GrpcPaymentRequest : Type 0 where
  pub user_id : String
  pub plan_id : String
  pub amount_minor : ℕ
  pub currency : String
  pub request_id : String
  pub idempotency_key : String

-- `status` is the enumeration's number.
pub record GrpcPaymentResponse : Type 0 where
  pub payment_id : String
  pub status : ℕ
  pub message : String

pub data HttpMethod : Type 0 where
  get_method : HttpMethod
  post_method : HttpMethod

pub record HttpRequest : Type 0 where
  pub method : HttpMethod
  pub url : String
  pub json_body : Option Value
  pub params : Option Fields
  pub cookies : Fields
  pub headers : Fields

-- `json` is the outcome of `response.json()`.
pub record HttpResponse : Type 0 where
  pub status_code : ℕ
  pub text : String
  pub json : Reply Value
