-- ===== src/Containers/Certificates/Completion.antt =====
-- What is known when the wait for a certificate job is over.
use browseterm_server_local.Prelude.{
  ℕ, String, ◌≡◌, ◌⊎◌, Bool, true, Option, none, some, List, [], ◌∷◌,
}
use browseterm_server_local.Python.Error.{Reply, returned, raised}
use browseterm_server_local.World.Events.{
  Env, Log, Event, EnvVar, PodContainer, PodSpec, kube, read_namespaced_job, create_namespaced_job,
  sleep,
}
use browseterm_server_local.World.Action
use browseterm_server_local.World.Action.{
  World, Outcome, err, hanging, ◌>>◌, when◌then◌else◌, pure, perform,
}
use browseterm_server_local.World.Trace.{Post}
use browseterm_server_local.Containers.Certificates

module _ (name namespace : String) where
  -- The rest of a round, on whether the job has succeeded.
  abbrev pub on_look : (fuel : ℕ) → Bool → Action.Action (Unit {0})
  on_look fuel b = when b then pure tt else (do
    perform (λ e' log. Action.of_reply (returned tt)) (sleep Certificates.job_poll_interval)
    Certificates.poll_loop fuel name namespace)

-- The variable that tells the job which services to serve.
abbrev pub services_variable : String → EnvVar
services_variable services = record { name = "SERVICES"; value = some services }

abbrev pub IsMember : EnvVar → List EnvVar → Type 0
IsMember v [] = ⊥
IsMember v (x ∷ xs) = (v ≡ x) ⊎ IsMember v xs

abbrev pub HasVariable : EnvVar → Option (List EnvVar) → Type 0
HasVariable v none = ⊥
HasVariable v (some vs) = IsMember v vs

-- The first container of the pod gets the services.
abbrev pub Serves : String → PodSpec → Type 0
Serves services pod =
    (c : PodContainer) × (cs : List PodContainer) × (pod.containers ≡ c ∷ cs)
    × HasVariable (services_variable services) c.env

-- The event creates a job for the services, and the cluster names it so.
abbrev pub IsCreation : Env → (services name : String) → Event → Log → Type 0
IsCreation e services name (kube (create_namespaced_job namespace job)) l =
    (e.cluster.on_create_job l namespace job ≡ returned name) × Serves services job.pod
IsCreation e services name _ l = ⊥

abbrev pub Created : Env → (services name : String) → Log → Type 0
Created e services name [] = ⊥
Created e services name (event ∷ l) = IsCreation e services name event l ⊎ Created e services name l

abbrev pub HasSucceeded : Reply (Option ℕ) → Type 0
HasSucceeded (returned o) = Certificates.has_succeeded o ≡ true
HasSucceeded (raised x) = ⊥

-- The last call looked at a job that has succeeded, and that was created before.
abbrev pub Completed : Env → (services : String) → Log → Type 0
Completed e services (kube (read_namespaced_job name namespace) ∷ l) =
    HasSucceeded (e.cluster.on_read_job l name namespace) × Created e services name l
Completed e services _ = ⊥

-- What is known where the action has returned.
abbrev Finally : Env → (services : String) → Outcome (Unit {0}) → World → Type 0
Finally e services o w = Post (λ a w'. Completed e services w'.log) (λ w'. Unit) o w

module _ (e : Env) (services : String) where
  abbrev Known : String → World → Type 0
  Known name w = Created e services name w.log
