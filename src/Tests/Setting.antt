-- ===== src/Tests/Setting.antt =====
-- A concrete setting: a Cloud at which the user "u1" owns a running container "c1", a
-- container-maker that accepts every call, and a clock that counts the seconds that were slept.
use browseterm_server_local.Prelude.{
  ltb, if◌then◌else◌, ℕ, ◌+◌, ◌≡◌, refl, true, false, none, some, [], ◌∷◌, arith,
}
use browseterm_server_local.Python.Value.{
  Value, null, bool, int, str, list, dict, nil, item, end, field,
}
use browseterm_server_local.Python.Error.{get_item, returned, raised, exception}
use browseterm_server_local.World.Messages.{HttpRequest, no_resources}
use browseterm_server_local.World.Events.{Env, Config, Pydantic, Log, sleep, HttpReply, response}
use browseterm_server_local.World.Action.{World}
use browseterm_server_local.Web.{Request, State}
use browseterm_server_local.Ownership.{IsStrict}

abbrev pub strict_pydantic : Pydantic
strict_pydantic = record {
  str_field = λ v. elim v [ str s ↦ some s | _ ↦ none ];
  int_field = λ v. elim v [ int n ↦ some n | _ ↦ none ];
  dict_list_field = λ v. elim v [ list l ↦ some l | _ ↦ none ];
  dict_field = λ v. elim v [ dict d ↦ some d | _ ↦ none ];
  dict_str_field = λ v. elim v [ dict d ↦ some d | _ ↦ none ];
  message = λ model fields. "validation error";
}

pub strict_pydantic-IsStrict : IsStrict strict_pydantic
strict_pydantic-IsStrict = record {
  accepts_str = λ s. refl;
  only_str = λ v s same. ground arith;
  only_dict = λ v d same. ground arith;
}

abbrev pub config : Config
config = record {
  cloud_api_url = "https://cloud";
  internal_api_token = "secret";
  container_maker_certs_secret_name = "certs";
  payment_gateway_certs_secret_name = "payment-certs";
  namespace = "browseterm";
  cert_manager_cron_job_name = "cert-manager";
  cert_manager_cron_job_namespace = "certs";
  session_cookie_max_age = 3600;
  cookie_secure = true;
  cookie_samesite = "lax";
  cpu_request_ratio = 1;
  memory_request_ratio = 1;
  ephemeral_request_ratio = 1;
}

-- The row of "c1".
abbrev pub row : Value
row = dict (
    field "id" (str "c1") (
      field "user_id" (str "u1") (
        field "status" (str "RUNNING") (
          field "kubernetes_id" (str "pod1") (
            field "image_id" (str "i1")
              (field "name" (str "box") (field "save_status" (str "SUCCEEDED") end)))))))

abbrev image : Value
image = dict (field "id" (str "i1") (field "image" (str "zim95/ubuntu:latest") end))

abbrev answer_with : Value → HttpReply
answer_with v = response (record { status_code = 200; text = ""; json = returned v })

-- Cloud answers every call with the row, with one image and with one device.
abbrev pub cloud : Log → HttpRequest → HttpReply
cloud log r = answer_with (
    dict (
      field "container" row (
        field "device" null (
          field "containers" (list nil)
            (field "images" (list (item image nil)) (field "deleted" (bool true) end))))))

-- Nanoseconds slept so far.
abbrev pub slept : Log → ℕ
slept [] = 0
slept (sleep n ∷ log) = n + slept log
slept (_ ∷ log) = slept log

abbrev pub demo : Env
demo = record {
  config = config;
  statuses = record {
    save_pending = "PENDING";
    save_succeeded = "SUCCEEDED";
    save_failed = "FAILED";
    running = "RUNNING";
    failed = "FAILED";
    payment_success = 1;
    payment_failed = 2;
  };
  texts = record { repr = λ v. "repr"; http_exception_text = λ code detail. detail };
  pydantic = strict_pydantic;
  floats = record {
    float_of_text = λ s. 0;
    float_of_int = λ n. n;
    times = λ a b. a;
    true_divide = λ a b. a;
    int_of = λ a. some a;
    equals_int = λ a b. true;
  };
  lower = λ s. s;
  is_space = λ c. false;
  loads = λ s. none;
  on_http = cloud;
  on_create = λ log r. returned (record {
    container_id = "pod2";
    container_name = "box";
    container_ip = "10.0.0.2";
    container_network = "u1-namespace";
    ports = [];
    associated_resources = no_resources;
  });
  on_delete = λ log k. returned (record { container_id = k.container_id; status = "deleted" });
  on_save = λ log k. returned tt;
  on_payment = λ log r. raised (exception "no payments");
  on_secret = λ log name space. returned (
      dict (
        field "client.key" (str "k")
          (field "client.crt" (str "c") (field "ca.crt" (str "a") end))));
  cluster = record {
    on_load_config = λ log. returned tt;
    on_read_cron_job = λ log name namespace.
        returned (record { containers = record { env = none; rest = null } ∷ []; rest = null });
    on_create_job = λ log namespace job. returned "cert-manager-job1";
    on_read_job =
        λ log name namespace. returned (if ltb (slept log) 8000000000 then none else some 1);
    on_delete_secret = λ log name namespace. returned tt;
  };
  b64decode = λ v. returned "pem";
  monotonic_time = slept;
  utc_time = λ log. "2026-01-01T00:00:00";
  fresh_id = λ log. "r1";
  fresh_token = λ log. "t1";
}

abbrev pub quiet : World
quiet = record {
  log = [];
  request_id = "r0";
  user = "-";
  connected = true;
  secrets = [];
  has_clients = false;
}

abbrev pub session : State
session = record {
  user_info = dict (field "id" (str "u1") end);
  subscription_info = dict end;
  current_subscription_plan = dict end;
  session_id = "s1";
}

abbrev pub body_c1 : Value
body_c1 = dict (
    field "container_id" (str "c1")
      (field "image_id" (str "i1") (field "container_name" (str "box") end)))

-- A request about "c1".
abbrev pub about_c1 : Request
about_c1 = record {
  cookies = [];
  headers = [];
  query_params = [];
  path_params = ("container_id", "c1") ∷ [];
  body = returned body_c1;
}

pub session-id : get_item session.user_info "id" ≡ returned (str "u1")
unfolding get_item
session-id = refl
