-- ===== src/Handlers/Hibernate/Deletes.antt =====
-- `hibernate_container` deletes a pod only after its save was confirmed.
use browseterm_server_local.Prelude.{String, ◌≡◌, refl, if◌then◌else◌, true, ◌∷◌}
use browseterm_server_local.Python.Value.{Value, null, str, field}
use browseterm_server_local.Python.Error.{
  Error, container_maker_exception, Reply, returned, raised, get_item,
}
use browseterm_server_local.World.Messages.{GrpcContainerKey}
use browseterm_server_local.World.Events.{
  Env, Log, Event, http, save_rpc, delete_rpc, utc_now, read_secret,
}
use browseterm_server_local.World.Action
use browseterm_server_local.World.Action.{
  when◌then◌else◌, ◌>>◌, World, Action, ok, err, ◌>>=◌, lift, pure, perform, text_of, asks, raise,
  gets,
}
use browseterm_server_local.World.Rules.{
  Keeps, OnLog, Keeps-pure, Keeps-lift, Keeps-bind, Keeps-bind_validated, Keeps-when,
  Keeps-try_except, Keeps-asks, Keeps-gets, Keeps-bind_asks, Keeps-perform, keeps_rules,
}
use browseterm_server_local.World.Trace.{
  Runs-gives, Runs-keeps_as, Keeps-runs, Since, start, more, Post, Runs, Runs-bind, Runs-keeps,
  Runs-try_except, Runs-weaken, Runs-when, Runs-bind_asks, Runs-strengthen,
}
use browseterm_server_local.Ownership.{IsStrict}
use browseterm_server_local.Cloud.Rows.Calls as CloudCalls
use browseterm_server_local.Containers.Client.Calls.{
  Keeps-ensure_grpc_client, Keeps-container_service,
}
use browseterm_server_local.Containers.Models.{SaveContainerK8SRequest}
use browseterm_server_local.Containers.Service
use browseterm_server_local.Handlers.Save
use browseterm_server_local.Handlers.Hibernate
use browseterm_server_local.Handlers.Hibernate.{is_text, status_of}
use browseterm_server_local.Handlers.Hibernate.Confirmed.{
  Grown, same, grown, triggered, long_told, DeletesSaved, Begun, Waiting, Done, Told,
  Runs-await_save,
}
use browseterm_server_local.Cloud.Client.Calls as ClientCalls
use browseterm_server_local.Containers.Service.Pods.Calls as PodCalls
use browseterm_server_local.Web.{Request, State}
use browseterm_server_local.Handlers.Save.Ownership.{Keeps-save_request, Gives-save_request}
use browseterm_server_local.Ownership.{namespace}
use browseterm_server_local.Ownership.Routes.{
  Keeps-bind_known, Keeps-error_response, Keeps-not_found, Keeps-bind_namespace_of,
}

module _ (e : Env) (c u : String) (base : Log) (strict : IsStrict e.pydantic) where
  Begun-call :
      (event : Event) (l : Log)
      → DeletesSaved e c u base event l
      → Begun e c u base strict l
      → Begun e c u base strict (event ∷ l)
  Begun-call event l allowed (g, s) = (grown g, more allowed s)

  Keeps-set_save_status :
      (status : String)
      → Keeps e
          (OnLog (Begun e c u base strict))
          (Save.set_save_status (str c) (str u) status null true)
  unfolding Save.set_save_status
  Keeps-set_save_status status = Keeps-bind _ _ (Keeps-gets _) λ request_id.
      Keeps-bind _ _
        (Keeps-bind _ _ (Keeps-perform _ _ (λ l. Begun-call utc_now l tt)) λ now. Keeps-pure _)
        λ attempt.
          Keeps-bind _ _
            (CloudCalls.Keeps-update_container_fields e (Begun e c u base strict) (str c) (str u)
              (field "save_status" (str status)
                (field "save_error" null (field "last_request_id" (str request_id) attempt)))
              (λ l. Begun-call (http _) l tt))
            (λ row. Keeps-pure tt)

  Runs-save_rpc :
      (k : GrpcContainerKey) (id : String)
      → k.container_id ≡ c
      → Runs e
          (OnLog (Begun e c u base strict))
          (perform (λ e' log. Action.of_reply (e'.on_save log k)) (save_rpc k id))
          (λ _ w. Waiting e c u base strict w.log)
          (OnLog (Begun e c u base strict))
  unfolding perform
  Runs-save_rpc k id is_c = record { at = λ w (g, s). by_reply (e.on_save w.log k) w g s }
    where
      by_reply :
          (r : Reply Unit) (w : World)
          → Grown base w.log
          → Since (DeletesSaved e c u base) base w.log
          → Post
              (λ _ w'. Waiting e c u base strict w'.log)
              (OnLog (Begun e c u base strict))
              (Action.of_reply r)
              (record w { log = save_rpc k id ∷ w.log })
      by_reply (returned a) w g s = ((grown g, more tt s), triggered k id g is_c)
      by_reply (raised x) w g s = (grown g, more tt s)

  Runs-pod_failed :
      (words : String) (x : Error)
      → Runs e
          (OnLog (Begun e c u base strict))
          (Service.pod_failed words x)
          (λ (_ : Unit {0}) w. Waiting e c u base strict w.log)
          (OnLog (Begun e c u base strict))
  unfolding Service.pod_failed Service.container_maker_failed ◌>>=◌ text_of asks raise
  Runs-pod_failed words (container_maker_exception s) = record { at = λ w begun. begun }
  Runs-pod_failed words x = record { at = λ w begun. begun }

  Runs-save :
      (r : SaveContainerK8SRequest)
      → r.container_id ≡ c
      → Runs e
          (OnLog (Begun e c u base strict))
          (Service.save_container_in_k8s r)
          (λ _ w. Waiting e c u base strict w.log)
          (OnLog (Begun e c u base strict))
  unfolding Service.save_container_in_k8s Service.save_key
  Runs-save r is_c =
      Runs-try_except _ _
        (Runs-bind {Q = λ _ w. Begun e c u base strict w.log} _ _
          (Runs-keeps _ (
            Keeps-ensure_grpc_client e _
              (λ name space l. Begun-call (read_secret name space) l tt)))
          λ _.
            Runs-bind {Q = λ _ w. Begun e c u base strict w.log} _ _ (Runs-keeps _ (Keeps-gets _))
              λ id. Runs-save_rpc (Service.save_key r) id is_c)
        (Runs-pod_failed "Error saving container")

  Runs-trigger_save :
      Runs e
        (OnLog (Begun e c u base strict))
        (Hibernate.trigger_save (str c) (str u) (namespace u))
        (λ _ w. Waiting e c u base strict w.log)
        (OnLog (Begun e c u base strict))
  unfolding Hibernate.trigger_save
  Runs-trigger_save = Runs-bind_asks _ _ (
      Runs-bind {Q = λ _ w. Begun e c u base strict w.log} _ _
        (Runs-keeps _ (Keeps-set_save_status e.statuses.save_pending))
        λ _.
          Runs-bind
            {Q = λ (r : SaveContainerK8SRequest) w.
              ((r.container_id ≡ c) × (r.network_name ≡ namespace u))
              × Begun e c u base strict w.log}
            _ _
            (Runs-gives _ (Keeps-save_request e _ (str c) (namespace u))
              (Gives-save_request e c (namespace u) (str c) strict refl))
            λ r. record { at = λ w ((is_c, is_n), begun). (Runs-save r is_c).at w begun })

  -- With the confirmation the pod may be deleted.
  Done-call :
      (event : Event) (l : Log)
      → DeletesSaved e c u base event l
      → Done e c u base strict l
      → Done e c u base strict (event ∷ l)
  Done-call event l allowed ((g, s), confirmed) = ((grown g, more allowed s), long_told confirmed)

  Keeps-put_to_sleep :
      Keeps e
        (OnLog (Done e c u base strict))
        (Hibernate.put_to_sleep (str c) (str u) (namespace u))
  unfolding Hibernate.put_to_sleep
  Keeps-put_to_sleep = Keeps-bind_asks _ _ (
      Keeps-bind_validated _ _ _ _ λ r same_request.
        Keeps-bind _ _
          (PodCalls.Keeps-delete_container_in_k8s e (Done e c u base strict)
            (λ name space l. Done-call (read_secret name space) l tt) r
            (λ id l done. Done-call (delete_rpc _ id) l done.1 done))
          λ deleted.
            Keeps-bind _ _
              (ClientCalls.Keeps-hibernate_container e (Done e c u base strict) (str c)
                (λ l. Done-call (http _) l tt))
              λ _.
                Keeps-bind _ _
                  (CloudCalls.Keeps-get_container_by_id e (Done e c u base strict) (str c) (str u)
                    (λ m valid l. Done-call (http _) l tt))
                  (λ updated. Keeps-pure _))

  Keeps-not_saved : (v : Value) → Keeps e (OnLog (Begun e c u base strict)) (Hibernate.not_saved v)
  unfolding Hibernate.not_saved
  Keeps-not_saved v = search keeps_rules

  Runs-after_wait :
      (status : Value)
      → Runs e
          (Told e c u base strict status)
          (do
            succeeded ← asks (λ e'. is_text e'.statuses.save_succeeded status)
            (when succeeded
                then Hibernate.put_to_sleep (str c) (str u) (namespace u)
                else Hibernate.not_saved status))
          (λ _ w. Begun e c u base strict w.log)
          (OnLog (Begun e c u base strict))
  Runs-after_wait status = Runs-bind_asks _ _ (
      Runs-when _ _ _
        (λ ok.
          Runs-strengthen _ (λ w (waits, tells). (waits.0, tells ok))
            (Runs-keeps_as _ (λ w done. done.0) Keeps-put_to_sleep))
        (λ failed.
          Runs-strengthen _ (λ w (waits, tells). waits.0) (Runs-keeps _ (Keeps-not_saved status))))

  Keeps-save_and_sleep :
      Keeps e (OnLog (Begun e c u base strict)) (Hibernate.save_and_sleep (str c) (str u))
  unfolding Hibernate.save_and_sleep
  Keeps-save_and_sleep = Keeps-bind_namespace_of u _ (
      Keeps-bind _ _ (Keeps-container_service e _) λ _. Keeps-runs _ (
        Runs-bind _ _ Runs-trigger_save λ _.
          Runs-bind {Q = λ status w. Told e c u base strict status w} _ _
            (Runs-weaken _ (λ w waits. waits.0) (Runs-await_save e c u base strict))
            Runs-after_wait))

  Keeps-hibernate_row :
      (row : Value)
      → Keeps e (OnLog (Begun e c u base strict)) (Hibernate.hibernate_row row (str c) (str u))
  unfolding Hibernate.hibernate_row
  Keeps-hibernate_row row = Keeps-bind _ _ (Keeps-lift _) λ status.
      Keeps-bind _ _ (Keeps-asks _) λ running.
        Keeps-when _ _ _
          (λ runs.
            Keeps-bind _ _ (Keeps-lift _)
              λ pod. Keeps-when _ _ _ (λ has_pod. Keeps-save_and_sleep) (λ no_pod. Keeps-pure _))
          (λ idle. Keeps-pure _)

-- When `hibernate_container` is called for the container `c` by the user `u`, with pydantic's fields
-- as documented, each call that deletes a pod stands after two others that this request made: a
-- call that asked container-maker to save `c`, and after it a lookup of `u`'s row of `c` in whose
-- answer the status says that the save succeeded.
pub hibernate-DeletesSaved :
    (e : Env) (c u : String) (body : Value) (request : Request) (st : State) (w : World)
    → IsStrict e.pydantic
    → request.body ≡ returned body
    → get_item body "container_id" ≡ returned (str c)
    → get_item st.user_info "id" ≡ returned (str u)
    → Since (DeletesSaved e c u w.log) w.log (Hibernate.hibernate request st e w).1.log
unfolding Hibernate.hibernate
hibernate-DeletesSaved e c u body request st w strict has_body has_id user =
    ((Keeps-try_except _ _
        (Keeps-bind_known _ body _ has_body (
          Keeps-bind_known _ (str c) _ has_id (
            Keeps-bind_known _ (str u) _ user (
              Keeps-bind _ _
                (CloudCalls.Keeps-get_container_by_id e (Begun e c u w.log strict) (str c) (str u)
                  (λ m valid l. Begun-call e c u w.log strict (http _) l tt))
                λ row.
                  Keeps-when _ _ _ (λ found. Keeps-hibernate_row e c u w.log strict row)
                    (λ missing. Keeps-not_found e _ (str c))))))
        (Keeps-error_response e _ _)).at
      w (same, start)).1
