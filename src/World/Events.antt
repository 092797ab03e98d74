-- ===== src/World/Events.antt =====
-- The calls that leave the server, in the order in which they are made, and the surroundings that
-- answer them. What a call answers may depend on all calls made before it: so nothing is assumed
-- of Cloud, of container-maker or of the clock but what a theorem names.
use browseterm_server_local.Prelude.{ℕ, String, Bool, Option, List}
use browseterm_server_local.Python.Text.{ℤ}
use browseterm_server_local.Python.Value.{Value, Items, Fields}
use browseterm_server_local.Python.Error.{Error, Texts, Reply}
use browseterm_server_local.World.Messages.{
  HttpRequest, HttpResponse, GrpcCreateContainerRequest, GrpcContainerResponse, GrpcContainerKey,
  GrpcDeleteContainerResponse, GrpcPaymentRequest, GrpcPaymentResponse,
}

-- A background task that `asyncio.create_task` starts: `_run_save` with its arguments.
pub record SaveTask : Type 0 where
  pub request : GrpcContainerKey
  pub container_id : Value
  pub user_id : Value

-- What the source sets of a Kubernetes job: the rest of a pod's or a container's specification,
-- which it copies, is `rest`.
pub record EnvVar : Type 0 where
  pub name : String
  pub value : Option String

pub record PodContainer : Type 0 where
  pub env : Option (List EnvVar)
  pub rest : Value

pub record PodSpec : Type 0 where
  pub containers : List PodContainer
  pub rest : Value

pub record Job : Type 0 where
  pub namespace : String
  pub generate_name : String
  pub ttl_seconds_after_finished : ℕ
  pub pod : PodSpec

-- The calls of the Kubernetes API beside `read_secret`.
pub data KubeCall : Type 0 where
  load_incluster_config : KubeCall
  read_namespaced_cron_job : (name namespace : String) → KubeCall
  create_namespaced_job : (namespace : String) → Job → KubeCall
  read_namespaced_job : (name namespace : String) → KubeCall
  delete_namespaced_secret : (name namespace : String) → KubeCall

-- A gRPC call carries the correlation id as metadata.
pub data Event : Type 0 where
  http : HttpRequest → Event
  create_rpc : GrpcCreateContainerRequest → String → Event
  delete_rpc : GrpcContainerKey → String → Event
  save_rpc : GrpcContainerKey → String → Event
  payment_rpc : GrpcPaymentRequest → Event
  read_secret : (secret_name namespace : String) → Event
  kube : KubeCall → Event
  monotonic : Event
  utc_now : Event
  sleep : ℕ → Event
  new_request_id : Event
  token_urlsafe : Event
  start_task : SaveTask → Event

-- The newest event comes first.
abbrev pub Log : Type 0
Log = List Event

-- What a pydantic field makes of a JSON value: `none` where it refuses it. `message` is the text of
-- the `ValidationError` that building a model from some values raises.
pub record Pydantic : Type 0 where
  pub str_field : Value → Option String
  pub int_field : Value → Option ℤ
  pub dict_list_field : Value → Option Items
  pub dict_field : Value → Option Fields
  pub dict_str_field : Value → Option Fields
  pub message : String → List Value → String

-- Doubles, each by the number of its bit pattern: `float(text)`, `float(int)`, the product of two
-- doubles, the quotient of two integers, `int(x)`, which truncates and is `none` at an infinity, and
-- `x == n` for an integer `n`.
pub record Floats : Type 0 where
  pub float_of_text : String → ℕ
  pub float_of_int : ℕ → ℕ
  pub times : ℕ → ℕ → ℕ
  pub true_divide : ℕ → ℕ → ℕ
  pub int_of : ℕ → Option ℕ
  pub equals_int : ℕ → ℕ → Bool

-- The settings that the source reads from its process environment.
pub record Config : Type 0 where
  pub cloud_api_url : String
  pub internal_api_token : String
  pub container_maker_certs_secret_name : String
  pub payment_gateway_certs_secret_name : String
  pub namespace : String
  pub cert_manager_cron_job_name : String
  pub cert_manager_cron_job_namespace : String
  pub session_cookie_max_age : ℕ
  pub cookie_secure : Bool
  pub cookie_samesite : String
  pub cpu_request_ratio : ℕ
  pub memory_request_ratio : ℕ
  pub ephemeral_request_ratio : ℕ

-- The values of the enumerations `SaveStatus` and `ContainerStatus` of the package browseterm_db,
-- and of payment-gateway's `PaymentStatus`.
pub record Statuses : Type 0 where
  pub save_pending : String
  pub save_succeeded : String
  pub save_failed : String
  pub running : String
  pub failed : String
  pub payment_success : ℕ
  pub payment_failed : ℕ

-- How an HTTP exchange ends: with a response, with an `httpx.HTTPError` of that text, or with
-- another exception.
pub data HttpReply : Type 0 where
  response : HttpResponse → HttpReply
  http_error : String → HttpReply
  other_error : Error → HttpReply

-- The answers of the Kubernetes API: the pod template of a cron job, the name of a created job,
-- and the count of a job's pods that have succeeded.
pub record Cluster : Type 0 where
  pub on_load_config : Log → Reply (Unit {0})
  pub on_read_cron_job : Log → (name namespace : String) → Reply PodSpec
  pub on_create_job : Log → (namespace : String) → Job → Reply String
  pub on_read_job : Log → (name namespace : String) → Reply (Option ℕ)
  pub on_delete_secret : Log → (name namespace : String) → Reply (Unit {0})

-- The surroundings. A call gets the log of the calls made before it. `read_secret` answers a
-- secret's `data`; `b64decode` is the library's, its bytes as a text.
pub record Env : Type 0 where
  pub config : Config
  pub statuses : Statuses
  pub texts : Texts
  pub pydantic : Pydantic
  pub floats : Floats
  pub lower : String → String
  pub is_space : ℕ → Bool
  pub loads : String → Option Value
  pub on_http : Log → HttpRequest → HttpReply
  pub on_create : Log → GrpcCreateContainerRequest → Reply GrpcContainerResponse
  pub on_delete : Log → GrpcContainerKey → Reply GrpcDeleteContainerResponse
  pub on_save : Log → GrpcContainerKey → Reply (Unit {0})
  pub on_payment : Log → GrpcPaymentRequest → Reply GrpcPaymentResponse
  pub on_secret : Log → String → String → Reply Value
  pub cluster : Cluster
  pub b64decode : Value → Reply String
  pub monotonic_time : Log → ℕ
  pub utc_time : Log → String
  pub fresh_id : Log → String
  pub fresh_token : Log → String
