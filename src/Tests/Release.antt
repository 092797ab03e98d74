-- ===== src/Tests/Release.antt =====
-- The theorem on a failed creation of a pod, applied where Cloud cannot be reached.
use browseterm_server_local.Prelude.{◌≡◌, refl, some, ◌∷◌}
use browseterm_server_local.Python.Text.{pos}
use browseterm_server_local.Python.Value.{null, str, nil, end}
use browseterm_server_local.World.Events.{Env, http_error, http}
use browseterm_server_local.World.Action
use browseterm_server_local.World.Action.{err}
use browseterm_server_local.Python.Error.{Error, exception}
use browseterm_server_local.Cloud.Rows.Deletion.{deletion}
use browseterm_server_local.Containers.Models.{CreateContainerK8SRequest}
use browseterm_server_local.Containers.Service
use browseterm_server_local.Handlers.Pods
use browseterm_server_local.Handlers.Pods.Release.{start_pod_failure}
use browseterm_server_local.Tests.Setting.{demo, quiet, strict_pydantic-IsStrict}

abbrev cut_off : Env
cut_off = record demo { on_http = λ log r. http_error "unreachable" }

abbrev creation : CreateContainerK8SRequest
creation = record {
  image_id = "i1";
  container_name = "box";
  network_name = "u1-namespace";
  exposure_level = pos 2;
  publish_information = nil;
  environment_variables = some end;
  resource_limits = record {
    cpu_limit = "1";
    memory_limit = "1Gi";
    storage_limit = "2Gi";
    snapshot_size_limit = "2Gi";
  };
}

abbrev unreachable : Error
unreachable = exception "Database operation failed: Database operation failed: unreachable"

cut_off-raises : (Service.create_container_in_k8s creation null cut_off quiet).0 ≡ err unreachable
unfolding Service.create_container_in_k8s Action.◌>>=◌ Action.try_except Action.format_value
    Action.text_of
cut_off-raises = refl

start_pod_failure_example :
    ((Pods.start_pod (str "c1") (str "u1") creation cut_off quiet).0 ≡ err unreachable)
    × ((Pods.start_pod (str "c1") (str "u1") creation cut_off quiet).1.log
        ≡ http (deletion cut_off "c1" "u1")
          ∷ (Service.create_container_in_k8s creation null cut_off quiet).1.log)
start_pod_failure_example =
    start_pod_failure cut_off "c1" "u1" creation unreachable quiet strict_pydantic-IsStrict
      cut_off-raises
