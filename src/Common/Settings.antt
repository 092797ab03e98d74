-- ===== src/Common/Settings.antt =====
-- src/common/config.py: the settings, as the process reads them from its environment when it starts.
pub mod Reading
use browseterm_server_local.Prelude.{String, ◌<>◌, ◌==◌, Bool, Option, none, some, ℕ}
use browseterm_server_local.Python.Text.{ℤ}
use browseterm_server_local.Python.Strings.{int_of_text}
use browseterm_server_local.Python.Error.{value_error, Reply, returned, raised, ◌>>=◌}

pub record DbConfig : Type 0 where
  pub username : String
  pub password : String
  pub host : String
  pub port : ℤ
  pub database : String

pub record Settings : Type 0 where
  pub container_maker_host : String
  pub container_maker_port : ℤ
  pub container_maker_certs_secret_name : String
  pub payment_gateway_host : String
  pub payment_gateway_port : ℤ
  pub payment_gateway_certs_secret_name : String
  pub namespace : Option String
  pub cert_manager_cron_job_name : Option String
  pub cert_manager_cron_job_namespace : Option String
  pub session_cookie_max_age : ℤ
  pub cookie_secure : Bool
  pub cookie_samesite : String
  pub socket_ssh_wss_url : String
  pub db_config : DbConfig
  pub cpu_request_ratio : ℕ
  pub memory_request_ratio : ℕ
  pub ephemeral_request_ratio : ℕ

-- `environ` is the process's environment, `float` is Python's `float`, `lower` is `str.lower`, and
-- `int_error` the text of the `ValueError` that `int` raises.
module _ (environ : String → Option String) (is_space : ℕ → Bool) (lower : String → String)
    (float : String → Reply ℕ) (int_error : String → String) where
  -- `os.getenv(key, default)`
  unfoldable pub getenv : (key default : String) → String
  getenv key default = elim (environ key) [ none ↦ default | some s ↦ s ]

  -- `int(s)`
  unfoldable pub int_setting : String → Reply ℤ
  unfolding int_of_text
  int_setting s = elim (int_of_text is_space s) [
    | none ↦ raised (value_error (int_error s))
    | some n ↦ returned n
  ]

  unfoldable pub cookie_secure_setting : Bool
  unfolding getenv
  cookie_secure_setting = lower (getenv "COOKIE_SECURE" "false") == "true"

  unfoldable pub load_settings : Reply Settings
  unfolding getenv int_setting cookie_secure_setting
  load_settings = do
    container_maker_port ← int_setting (getenv "CONTAINER_MAKER_PORT" "50052")
    payment_gateway_port ← int_setting (getenv "PAYMENT_GATEWAY_PORT" "50053")
    session_cookie_max_age ← int_setting (getenv "SESSION_COOKIE_MAX_AGE" "86400")
    postgres_port ← int_setting (getenv "POSTGRES_PORT" "5432")
    cpu ← float (getenv "RESOURCE_CPU_REQUEST_RATIO" "0.1")
    memory ← float (getenv "RESOURCE_MEMORY_REQUEST_RATIO" "0.5")
    ephemeral ← float (getenv "RESOURCE_EPHEMERAL_REQUEST_RATIO" "0.5")
    returned (record {
      container_maker_host = getenv "CONTAINER_MAKER_HOST" "container-maker-development-service";
      container_maker_port = container_maker_port;
      container_maker_certs_secret_name =
          getenv "CONTAINER_MAKER_CERTS_SECRET_NAME" "container-maker-development-service-certs";
      payment_gateway_host = getenv "PAYMENT_GATEWAY_HOST" "payment-gateway-development-service";
      payment_gateway_port = payment_gateway_port;
      payment_gateway_certs_secret_name =
          getenv "PAYMENT_GATEWAY_CERTS_SECRET_NAME" "payment-gateway-development-service-certs";
      namespace = environ "NAMESPACE";
      cert_manager_cron_job_name = environ "CERT_MANAGER_CRON_JOB_NAME";
      cert_manager_cron_job_namespace = environ "CERT_MANAGER_CRON_JOB_NAMESPACE";
      session_cookie_max_age = session_cookie_max_age;
      cookie_secure = cookie_secure_setting;
      cookie_samesite = getenv "COOKIE_SAMESITE" "lax";
      socket_ssh_wss_url = getenv "SOCKET_SSH_WSS_URL" "ws://localhost:8000";
      db_config = record {
        username = getenv "POSTGRES_USER" "postgres";
        password = getenv "POSTGRES_PASSWORD" "blahbob";
        host = getenv "POSTGRES_HOST" "localhost";
        port = postgres_port;
        database = getenv "POSTGRES_DB" "blahbob";
      };
      cpu_request_ratio = cpu;
      memory_request_ratio = memory;
      ephemeral_request_ratio = ephemeral;
    })
