-- ===== src/Handlers/Resume/Accepted.antt =====
-- What an accepted transition is, and that `resume_container` goes on only with one.
use browseterm_server_local.Prelude.{String, ◌<>◌, ◌≡◌, refl, some, none, ◌∷◌}
use browseterm_server_local.Python.Value.{Value, str, dict}
use browseterm_server_local.Python.Error.{
  Error, cloud_client_error, Reply, returned, raised, get_item,
}
use browseterm_server_local.World.Messages.{post_method, HttpRequest}
use browseterm_server_local.World.Events.{Env, Log, Event, http, create_rpc}
use browseterm_server_local.World.Action
use browseterm_server_local.World.Action.{World, Action, lift, ◌>>=◌, ◌>>◌, pure, perform}
use browseterm_server_local.World.Rules.{OnLog, Keeps-lift}
use browseterm_server_local.World.Trace.{
  Since, more, Post, Runs, Runs-bind, Runs-keeps, Runs-try_except, Runs-weaken,
}
use browseterm_server_local.Cloud.Client
use browseterm_server_local.Cloud.Client.{answer, http_request, user_fields}
use browseterm_server_local.Handlers.Hibernate.Confirmed.{Grown, grown}
use browseterm_server_local.Handlers.Pods.Ownership.{label_of}
use browseterm_server_local.Handlers.Resume
use browseterm_server_local.Handlers.Resume.{Progress, Transition, made, rejected}

-- The request for the transition.
abbrev pub resume_message : Env → (c u : String) → HttpRequest
resume_message e c u =
    http_request e.config post_method ("/containers/" <> c <> "/resume")
      (some (dict (user_fields (str u)))) none

-- Cloud was asked since `base` to resume the container for the user, and answered that it did.
pub data Resumed (e : Env) (c u : String) (base : Log) : Log → Type 0 where
  accepted :
      {l : Log} (v : Value)
      → Grown base l
      → answer (e.on_http l (resume_message e c u)) ≡ returned v
      → Resumed e c u base (http (resume_message e c u) ∷ l)
  long_accepted : {event : Event} {l : Log} → Resumed e c u base l → Resumed e c u base (event ∷ l)

-- A call that creates a pod stands after that, and the pod is labelled with the container.
abbrev pub CreatesResumed : Env → (c u : String) → Log → Event → Log → Type 0
CreatesResumed e c u base (create_rpc m id) l =
    Resumed e c u base l × (label_of m.environment_variables ≡ some (str c))
CreatesResumed e c u base _ l = Unit

module _ (e : Env) (c u : String) (base : Log) where
  abbrev pub Begun : Log → Type 0
  Begun l = Grown base l × Since (CreatesResumed e c u base) base l

  abbrev pub Done : Log → Type 0
  Done l = Begun l × Resumed e c u base l

  pub Begun-call :
      (event : Event) (l : Log) → CreatesResumed e c u base event l → Begun l → Begun (event ∷ l)
  Begun-call event l allowed (g, s) = (grown g, more allowed s)

  pub Done-call :
      (event : Event) (l : Log) → CreatesResumed e c u base event l → Done l → Done (event ∷ l)
  Done-call event l allowed (begun, resumed) =
      (Begun-call event l allowed begun, long_accepted resumed)

  -- Cloud's answer to the request.
  Runs-request :
      Runs e
        (OnLog Begun)
        (Client.request post_method
          ("/containers/" <> c <> "/resume")
          (some (dict (user_fields (str u))))
          none)
        (λ v w. Done w.log)
        (OnLog Begun)
  unfolding Client.request ◌>>=◌ perform lift
  Runs-request = record {
    at = λ w begun. by_answer (answer (e.on_http w.log (resume_message e c u))) w refl begun;
  }
    where
      by_answer :
          (r : Reply Value) (w : World)
          → answer (e.on_http w.log (resume_message e c u)) ≡ r
          → Begun w.log
          → Post
              (λ v w'. Done w'.log)
              (OnLog Begun)
              (Action.of_reply r)
              (record w { log = http (resume_message e c u) ∷ w.log })
      by_answer (returned v) w is_r (g, s) = ((grown g, more tt s), accepted v g is_r)
      by_answer (raised x) w is_r (g, s) = (grown g, more tt s)

  Runs-resume_container :
      Runs e
        (OnLog Begun)
        (Client.resume_container (str c) (str u))
        (λ v w. Done w.log)
        (OnLog Begun)
  unfolding Client.resume_container Action.format_value ◌>>=◌ lift
  Runs-resume_container = record {
    at =
        (Runs-bind {Q = λ v w. Done w.log} _ _ Runs-request (λ v.
          Runs-weaken _ (λ w done. done.0)
            (Runs-keeps (lift (get_item v "container")) (Keeps-lift _)))).at;
  }

  -- What is known of the transition.
  abbrev pub Admitted : Transition → World → Type 0
  Admitted made w = Done w.log
  Admitted (rejected r) w = Begun w.log

  Runs-reject : (x : Error) → Runs e (OnLog Begun) (Resume.reject x) Admitted (OnLog Begun)
  unfolding Resume.reject Action.raise pure
  Runs-reject (cloud_client_error code message) = record { at = λ w begun. begun }
  Runs-reject x = record { at = λ w begun. begun }

  pub Runs-transition :
      Runs e (OnLog Begun) (Resume.transition (str c) (str u)) Admitted (OnLog Begun)
  unfolding Resume.transition pure
  Runs-transition =
      Runs-try_except _ _
        (Runs-bind {Q = λ v w. Done w.log} _ _ Runs-resume_container
          (λ v. record { at = λ w done. done }))
        Runs-reject
