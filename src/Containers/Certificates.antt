-- ===== src/Containers/Certificates.antt =====
-- `class CertificateUtils` of src/containers/containers_helpers.py: certificates by a job that is
-- made from the cron job of the certificate manager. A clause `except ApiException` that raises
-- again is left out.
pub mod Completion
pub mod Ends
use browseterm_server_local.Prelude.{
  ℕ, zero, suc, String, ◌<>◌, Bool, true, false, Option, none, some, List, [], ◌∷◌,
}
use browseterm_server_local.Python.Value.{Value, dict, end, truthy}
use browseterm_server_local.Python.Error.{Reply, returned, raised, exception}
use browseterm_server_local.World.Events.{
  EnvVar, PodContainer, PodSpec, Job, kube, load_incluster_config, read_namespaced_cron_job,
  create_namespaced_job, read_namespaced_job, delete_namespaced_secret, read_secret, sleep,
}
use browseterm_server_local.World.Action.{
  when◌then◌else◌, Action, of_reply, pure, hang, lift, asks, gets, perform, modify, ◌>>=◌, ◌>>◌,
}

-- `_init_clients`
unfoldable pub init_clients : Action Unit
init_clients = do
  ready ← gets (λ w. w.has_clients)
  (when ready then pure tt else (do
    perform (λ e log. of_reply (e.cluster.on_load_config log)) (kube load_incluster_config)
    modify (λ w. record w { has_clients = true })))

-- `job.status.succeeded`, tested
unfoldable pub has_succeeded : Option ℕ → Bool
has_succeeded none = false
has_succeeded (some zero) = false
has_succeeded (some (suc n)) = true

-- `time.sleep(4)`, in nanoseconds.
abbrev pub job_poll_interval : ℕ
job_poll_interval = 4000000000

-- The loop of `poll_until_completeion`, which has no bound.
unfoldable pub poll_loop : (fuel : ℕ) → (name namespace : String) → Action Unit
unfolding has_succeeded
poll_loop zero name namespace = hang
poll_loop (suc fuel) name namespace =
    let again = poll_loop fuel name namespace in
    do
      succeeded ←
          perform (λ e log. of_reply (e.cluster.on_read_job log name namespace))
            (kube (read_namespaced_job name namespace))
      (when has_succeeded succeeded
          then pure tt
          else (do perform (λ e log. of_reply (returned tt)) (sleep job_poll_interval); again))

unfoldable pub poll_until_completeion : (fuel : ℕ) → (name : String) → Action Unit
unfolding init_clients poll_loop
poll_until_completeion fuel name = do
  init_clients
  namespace ← asks (λ e. e.config.cert_manager_cron_job_namespace)
  poll_loop fuel name namespace

-- `env.append(v)`
unfoldable pub append : List EnvVar → EnvVar → List EnvVar
append [] v = v ∷ []
append (x ∷ xs) v = x ∷ append xs v

-- The variables with one more: in a new list where there is none.
unfoldable pub with_variable : EnvVar → Option (List EnvVar) → List EnvVar
unfolding append
with_variable v none = v ∷ []
with_variable v (some []) = v ∷ []
with_variable v (some (x ∷ xs)) = append (x ∷ xs) v

-- The pod template, whose first container gets the names of the services.
unfoldable pub with_services : String → PodSpec → List PodContainer → Reply PodSpec
unfolding with_variable
with_services services pod [] = raised (exception "list index out of range")
with_services services pod (c ∷ cs) = returned (record pod {
  containers =
      record c {
        env = some (with_variable (record { name = "SERVICES"; value = some services }) c.env);
      }
      ∷ cs;
})

unfoldable pub create_certificate_job : (fuel : ℕ) → (services : String) → Action Unit
unfolding init_clients with_services poll_until_completeion
create_certificate_job fuel services = do
  init_clients
  name ← asks (λ e. e.config.cert_manager_cron_job_name)
  namespace ← asks (λ e. e.config.cert_manager_cron_job_namespace)
  template ←
      perform (λ e log. of_reply (e.cluster.on_read_cron_job log name namespace))
        (kube (read_namespaced_cron_job name namespace))
  pod ← lift (with_services services template template.containers)
  let job : Job = record {
    namespace = namespace;
    generate_name = name <> "-job";
    ttl_seconds_after_finished = 300;
    pod = pod;
  }
  created ←
      perform (λ e log. of_reply (e.cluster.on_create_job log namespace job))
        (kube (create_namespaced_job namespace job))
  poll_until_completeion fuel created

-- `secret.data`, or `{}`
unfoldable pub read_certificate_from_secret : (secret_name : String) → Action Value
unfolding init_clients truthy
read_certificate_from_secret secret_name = do
  init_clients
  namespace ← asks (λ e. e.config.cert_manager_cron_job_namespace)
  d ←
      perform (λ e log. of_reply (e.on_secret log secret_name namespace))
        (read_secret secret_name namespace)
  (when truthy d then pure d else pure (dict end))

-- A secret that was read is an object, which counts as true.
unfoldable pub delete_secret : (secret_name : String) → Action Unit
unfolding init_clients
delete_secret secret_name = do
  init_clients
  namespace ← asks (λ e. e.config.cert_manager_cron_job_namespace)
  perform (λ e log. of_reply (e.on_secret log secret_name namespace))
      (read_secret secret_name namespace)
  perform (λ e log. of_reply (e.cluster.on_delete_secret log secret_name namespace))
      (kube (delete_namespaced_secret secret_name namespace))
