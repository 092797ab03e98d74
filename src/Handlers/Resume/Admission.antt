-- ===== src/Handlers/Resume/Admission.antt =====
-- `resume_container` creates a pod only after Cloud made the transition.
use browseterm_server_local.Prelude.{String, ◌≡◌, true, false}
use browseterm_server_local.Python.Value.{Value, null, str, dict, end, field, or_else}
use browseterm_server_local.Python.Error.{Error, returned, get_item}
use browseterm_server_local.World.Events.{Env, Log, http, create_rpc, read_secret}
use browseterm_server_local.World.Action.{World, pure}
use browseterm_server_local.World.Rules.{
  Keeps, OnLog, Keeps-pure, Keeps-lift, Keeps-bind, Keeps-when, Keeps-try_except, Keeps-gets,
}
use browseterm_server_local.World.Gives.{
  Gives, Gives-bind, Gives-bind_asks, Gives-bind_lift, Gives-validated, Keeps-bind_gives,
}
use browseterm_server_local.World.Trace.{Since, start, Keeps-bind_runs}
use browseterm_server_local.Ownership.{IsStrict}
use browseterm_server_local.Ownership.Routes.{
  Keeps-bind_known, Keeps-not_found, find-extended, IsLabelled,
}
use browseterm_server_local.Cloud.Rows.Calls as CloudCalls
use browseterm_server_local.Containers.Client.Calls.{Keeps-container_service}
use browseterm_server_local.Containers.Service.Pods.Calls as PodCalls
use browseterm_server_local.Containers.Transform.{create_container_input}
use browseterm_server_local.Web.{Request, State}
use browseterm_server_local.Handlers.Hibernate.Confirmed.{same}
use browseterm_server_local.Handlers.Pods.Ownership.{k8s_request_lem, label_lem}
use browseterm_server_local.Handlers.Resume
use browseterm_server_local.Handlers.Resume.Calls.{
  Keeps-recover, Keeps-record_pod, Keeps-resume_request,
}
use browseterm_server_local.Handlers.Resume.{Progress, Transition, made, rejected}
use browseterm_server_local.Handlers.Resume.Accepted.{
  CreatesResumed, Begun, Done, Admitted, Begun-call, Done-call, Runs-transition,
}

-- The request to container-maker is labelled with the container.
Gives-resume_request :
    (e : Env) (row : Value) (c : String)
    → Gives e (Resume.resume_request row (str c)) (IsLabelled c)
unfolding Resume.resume_request
Gives-resume_request e row c = Gives-bind _ _ λ stored. Gives-bind_lift _ _ λ d labelled.
    Gives-bind _ _ λ cpu. Gives-bind _ _ λ memory. Gives-bind _ _ λ storage. Gives-bind _ _ λ l.
      Gives-bind _ _ λ limits. Gives-bind _ _ λ image. Gives-bind _ _ λ name.
        Gives-bind _ _ λ owner. Gives-bind _ _ λ network. Gives-bind _ _ λ ports.
          Gives-bind_asks _ _ (
            Gives-validated _ _ _ λ r same.
              let (is_network, is_env) = k8s_request_lem e _ _ _ _ _ d _ r same in
              (
                d,
                is_env,
                find-extended (or_else stored (dict end)) "CONTAINER_ID" (str c) d labelled,
              ))

module _ (e : Env) (c u : String) (base : Log) (strict : IsStrict e.pydantic) where
  Keeps-start_resumed :
      (row : Value) → Keeps e (OnLog (Done e c u base)) (Resume.start_resumed row (str c) (str u))
  unfolding Resume.start_resumed
  Keeps-start_resumed row = Keeps-bind _ _ (Keeps-gets _) λ id.
      Keeps-bind _ _
        (CloudCalls.Keeps-update_container_fields e (Done e c u base) (str c) (str u)
          (field "last_request_id" (str id) end) (λ l. (Done-call e c u base) (http _) l tt))
        λ updated.
          Keeps-bind_gives _ _ (Keeps-resume_request e (Done e c u base) row (str c))
            (Gives-resume_request e row c)
            λ r labelled. Keeps-bind _ _ (Keeps-container_service e _) λ _.
              Keeps-bind _ _ (Keeps-lift _) λ image.
                Keeps-bind _ _
                  (PodCalls.Keeps-create_container_in_k8s e (Done e c u base)
                    (λ name space l. (Done-call e c u base) (read_secret name space) l tt) r image
                    (λ l. (Done-call e c u base) (http _) l tt)
                    (λ m (network, valid) id' l done.
                      (Done-call e c u base) (create_rpc (create_container_input m) id') l
                        (done.1, label_lem e c r m strict labelled valid) done))
                  λ response.
                    Keeps-bind _ _
                      (Keeps-record_pod e (Done e c u base) (str c) (str u) response
                        (λ fields l. (Done-call e c u base) (http _) l tt))
                      (λ _. Keeps-pure _)

  Keeps-after_transition :
      (row : Value) (t : Transition) (w : World)
      → (Admitted e c u base) t w
      → (Begun e c u base) (Resume.after_transition row (str c) (str u) t e w).1.log
  unfolding Resume.after_transition pure
  Keeps-after_transition row (rejected r) w begun = begun
  Keeps-after_transition row made w done =
      ((Keeps-try_except _ _ (Keeps-start_resumed row) (
          Keeps-recover e (Done e c u base)
            (record { container_id = str c; user_id = str u; resumed = true })
            (λ rolls_back l. (Done-call e c u base) (http _) l tt)
            (λ known fields l. (Done-call e c u base) (http _) l tt))).at
        w done).0

  Keeps-resume_owned : Keeps e (OnLog (Begun e c u base)) (Resume.resume_owned (str c) (str u))
  unfolding Resume.resume_owned
  Keeps-resume_owned =
      Keeps-bind _ _
        (CloudCalls.Keeps-get_container_by_id e (Begun e c u base) (str c) (str u)
          (λ m valid l. (Begun-call e c u base) (http _) l tt))
        λ row.
          Keeps-when _ _ _
            (λ found. Keeps-bind_runs _ _ (Runs-transition e c u base) (Keeps-after_transition row))
            (λ missing. Keeps-not_found e _ (str c))

  Keeps-recovered :
      (p : Progress) (x : Error) → Keeps e (OnLog (Begun e c u base)) (Resume.recover p x)
  Keeps-recovered p =
      Keeps-recover e (Begun e c u base) p (λ rolls_back l. (Begun-call e c u base) (http _) l tt)
        (λ known fields l. (Begun-call e c u base) (http _) l tt)

-- When `resume_container` is called for the container `c` by the user `u`, with pydantic's fields
-- as documented, each call that creates a pod stands after a request that this call of the route
-- made to Cloud, to resume `c` for `u`, and that Cloud answered without an error; and the pod is
-- labelled with `c`.
pub resume-CreatesResumed :
    (e : Env) (c u : String) (body : Value) (request : Request) (st : State) (w : World)
    → IsStrict e.pydantic
    → request.body ≡ returned body
    → get_item body "container_id" ≡ returned (str c)
    → get_item st.user_info "id" ≡ returned (str u)
    → Since (CreatesResumed e c u w.log) w.log (Resume.resume request st e w).1.log
unfolding Resume.resume
resume-CreatesResumed e c u body request st w strict has_body has_id user =
    ((Keeps-try_except _ _
        (Keeps-bind_known _ body _ has_body (
          Keeps-bind_known _ (str c) _ has_id (
            Keeps-try_except _ _
              (Keeps-bind_known _ (str u) _ user (
                Keeps-try_except _ _ (Keeps-resume_owned e c u w.log strict) (
                  Keeps-recovered e c u w.log strict
                    (record { container_id = str c; user_id = str u; resumed = false }))))
              (Keeps-recovered e c u w.log strict
                (record { container_id = str c; user_id = null; resumed = false })))))
        (Keeps-recovered e c u w.log strict
          (record { container_id = null; user_id = null; resumed = false }))).at
      w (same, start)).1
