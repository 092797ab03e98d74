-- ===== src/Containers/Service/Pods/Ends.antt =====
-- The calls of container-maker end.
use browseterm_server_local.Prelude.{String}
use browseterm_server_local.Python.Error.{Error, container_maker_exception}
use browseterm_server_local.World.Events.{Env}
use browseterm_server_local.World.Halts.{Halts, halts_rules}
use browseterm_server_local.Containers.Client.Ends.{Halts-ensure_grpc_client}
use browseterm_server_local.Containers.Models.{DeleteContainerK8SRequest, SaveContainerK8SRequest}
use browseterm_server_local.Containers.Service.Pods

module _ (e : Env) where
  Halts-pod_failed :
      {A : Type 0} (words : String) (x : Error) → Halts e (Pods.pod_failed {A = A} words x)
  unfolding Pods.pod_failed Pods.container_maker_failed
  Halts-pod_failed words (container_maker_exception s) = search halts_rules
  Halts-pod_failed words x = search halts_rules

  pub Halts-delete_container_in_k8s :
      (r : DeleteContainerK8SRequest) → Halts e (Pods.delete_container_in_k8s r)
  unfolding Pods.delete_container_in_k8s
  Halts-delete_container_in_k8s r =
      search (halts_rules, Halts-ensure_grpc_client, Halts-pod_failed) depth 20

  pub Halts-save_container_in_k8s :
      (r : SaveContainerK8SRequest) → Halts e (Pods.save_container_in_k8s r)
  unfolding Pods.save_container_in_k8s
  Halts-save_container_in_k8s r =
      search (halts_rules, Halts-ensure_grpc_client, Halts-pod_failed) depth 20
