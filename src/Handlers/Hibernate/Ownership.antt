-- ===== src/Handlers/Hibernate/Ownership.antt =====
-- Hibernating makes calls for the caller alone.
use browseterm_server_local.Prelude.{true, ◌+◌, ℕ, zero, suc, String, ◌≡◌, refl, sym, arith, some}
use browseterm_server_local.Python.Value.{Value, null, str, format}
use browseterm_server_local.Python.Error.{returned, get_item}
use browseterm_server_local.World.Events.{Env, Log}
use browseterm_server_local.World.Action.{World}
use browseterm_server_local.World.Rules.{
  Keeps, OnLog, Keeps-pure, Keeps-hang, Keeps-lift, Keeps-bind, Keeps-bind_validated, Keeps-when,
  Keeps-try_except, Keeps-asks, Keeps-bind_asks, Keeps-perform, keeps_rules,
}
use browseterm_server_local.World.Trace.{start}
use browseterm_server_local.World.Gives.{Keeps-bind_gives}
use browseterm_server_local.Cloud.Models.{GetContainerDbModel, get_container_db_model}
use browseterm_server_local.Cloud.Client.Calls as ClientCalls
use browseterm_server_local.Cloud.Rows.Calls as CloudCalls
use browseterm_server_local.Containers.Client.Calls.{Keeps-container_service}
use browseterm_server_local.Containers.Models
use browseterm_server_local.Containers.Models.{DeleteContainerK8SRequest}
use browseterm_server_local.Containers.Service.Pods.Calls as PodCalls
use browseterm_server_local.Web.{Request, State}
use browseterm_server_local.Handlers.Hibernate
use browseterm_server_local.Handlers.Save.Ownership.{
  Keeps-set_save_status, Keeps-save_request, Gives-save_request,
}
use browseterm_server_local.Cloud.Ids.{AnyId}
use browseterm_server_local.Ownership.{IsStrict, Owned, namespace, hibernation}
use browseterm_server_local.Ownership.Lookup.Found.{MineWith, extend_with, Keeps-bind_owned}
use browseterm_server_local.Ownership.Routes.{
  Keeps-bind_known, Keeps-bind_namespace_of, Keeps-error_response, Keeps-not_found,
  asking-Authorised, MakesCallsFor,
}
use mathlib.Core.Path.{subst}

k8s_deletion_lem :
    (e : Env) (v : Value) (network : String) (r : DeleteContainerK8SRequest)
    → Models.delete_container_k8s_request e.pydantic v network ≡ some r
    → r.network_name ≡ network
unfolding Models.delete_container_k8s_request
k8s_deletion_lem e v network r same = ground arith

container_model_lem :
    (e : Env) (c u : String) (m : GetContainerDbModel)
    → IsStrict e.pydantic
    → get_container_db_model e.pydantic (str c) (str u) ≡ some m
    → m.user_id ≡ u
unfolding get_container_db_model
container_model_lem e c u m strict same = grind (arith, strict.accepts_str c, strict.accepts_str u)

module _ (e : Env) (u c : String) (base : Log) (strict : IsStrict e.pydantic) where
  -- Looking the row up again.
  Keeps-row :
      Keeps e (OnLog (MineWith AnyId e u base c)) (Hibernate.get_container_by_id (str c) (str u))
  Keeps-row =
      CloudCalls.Keeps-get_container_by_id e (MineWith AnyId e u base c) (str c) (str u)
        (λ m same l. extend_with c (
          asking-Authorised e u m.container_id m.user_id l (container_model_lem e c u m strict same)
            tt))

  Keeps-read_status :
      Keeps e (OnLog (MineWith AnyId e u base c)) (Hibernate.read_status (str c) (str u))
  unfolding Hibernate.read_status
  Keeps-read_status = Keeps-bind _ _ Keeps-row (λ row. Keeps-lift _)

  Keeps-poll :
      (fuel deadline : ℕ) (status : Value)
      → Keeps e
          (OnLog (MineWith AnyId e u base c))
          (Hibernate.poll fuel deadline (str c) (str u) status)
  unfolding Hibernate.poll Hibernate.now Hibernate.wait
  Keeps-poll zero deadline status = Keeps-hang
  Keeps-poll (suc fuel) deadline status =
      Keeps-bind _ _ (Keeps-perform _ _ (λ l. extend_with c tt)) λ t.
        Keeps-when _ _ _
          (λ before. Keeps-bind _ _ Keeps-read_status λ read. Keeps-bind _ _ (Keeps-asks _) λ final.
            Keeps-when _ _ _ (λ is_final. Keeps-pure _)
              (λ goes_on.
                Keeps-bind _ _ (Keeps-perform _ _ (λ l. extend_with c tt))
                  λ _. Keeps-poll fuel deadline read))
          (λ after. Keeps-pure _)

  Keeps-await_save :
      Keeps e (OnLog (MineWith AnyId e u base c)) (Hibernate.await_save (str c) (str u))
  unfolding Hibernate.await_save Hibernate.now
  Keeps-await_save =
      Keeps-bind _ _ (Keeps-perform _ _ (λ l. extend_with c tt))
        λ t. Keeps-poll Hibernate.poll_fuel (t + Hibernate.save_wait_timeout) null

  Keeps-trigger_save :
      Keeps e
        (OnLog (MineWith AnyId e u base c))
        (Hibernate.trigger_save (str c) (str u) (namespace u))
  unfolding Hibernate.trigger_save
  Keeps-trigger_save = Keeps-bind _ _ (Keeps-asks _) λ pending.
      Keeps-bind _ _ (Keeps-set_save_status e u c base (str c) pending null true refl) λ _.
        Keeps-bind_gives _ _ (Keeps-save_request e _ (str c) (namespace u))
          (Gives-save_request e c (namespace u) (str c) strict refl)
          λ r (same_c, same_n).
            PodCalls.Keeps-save_container_in_k8s e (MineWith AnyId e u base c)
              (λ name space l. extend_with c tt) r
              (λ id l (s, owned).
                extend_with c (same_n, subst (λ d. Owned e d u l) (sym same_c) owned) (s, owned))

  Keeps-put_to_sleep :
      Keeps e
        (OnLog (MineWith AnyId e u base c))
        (Hibernate.put_to_sleep (str c) (str u) (namespace u))
  unfolding Hibernate.put_to_sleep format
  Keeps-put_to_sleep = Keeps-bind_asks _ _ (
      Keeps-bind_validated _ _ _ _ λ r same.
        Keeps-bind _ _
          (PodCalls.Keeps-delete_container_in_k8s e (MineWith AnyId e u base c)
            (λ name space l. extend_with c tt) r
            (λ id l. extend_with c (k8s_deletion_lem e (str c) (namespace u) r same)))
          λ deleted.
            Keeps-bind _ _
              (ClientCalls.Keeps-hibernate_container e (MineWith AnyId e u base c) (str c)
                (λ l (s, owned). extend_with c (hibernation c refl owned) (s, owned)))
              λ _. Keeps-bind _ _ Keeps-row (λ updated. Keeps-pure _))

  Keeps-not_saved :
      (v : Value) → Keeps e (OnLog (MineWith AnyId e u base c)) (Hibernate.not_saved v)
  unfolding Hibernate.not_saved
  Keeps-not_saved v = search keeps_rules

  Keeps-save_and_sleep :
      Keeps e (OnLog (MineWith AnyId e u base c)) (Hibernate.save_and_sleep (str c) (str u))
  unfolding Hibernate.save_and_sleep
  Keeps-save_and_sleep = Keeps-bind_namespace_of u _ (
      Keeps-bind _ _ (Keeps-container_service e _) λ _. Keeps-bind _ _ Keeps-trigger_save λ _.
        Keeps-bind _ _ Keeps-await_save λ status. Keeps-bind _ _ (Keeps-asks _) λ succeeded.
          Keeps-when _ _ _ (λ saved. Keeps-put_to_sleep) (λ failed. Keeps-not_saved status))

  Keeps-hibernate_row :
      (row : Value)
      → Keeps e (OnLog (MineWith AnyId e u base c)) (Hibernate.hibernate_row row (str c) (str u))
  unfolding Hibernate.hibernate_row
  Keeps-hibernate_row row = Keeps-bind _ _ (Keeps-lift _) λ status.
      Keeps-bind _ _ (Keeps-asks _) λ running.
        Keeps-when _ _ _
          (λ runs.
            Keeps-bind _ _ (Keeps-lift _)
              λ pod. Keeps-when _ _ _ (λ has_pod. Keeps-save_and_sleep) (λ none. Keeps-pure _))
          (λ idle. Keeps-pure _)

-- For a session of the user `u`, with pydantic's fields as documented, every call that
-- `hibernate_container` makes is made for `u`: the container of which Cloud has answered before that
-- it is `u`'s is saved, in `u`'s namespace, a pod is deleted there, and that container hibernated.
pub hibernate-Authorised :
    (e : Env) (u : String) (request : Request) (st : State) (w : World)
    → IsStrict e.pydantic
    → get_item st.user_info "id" ≡ returned (str u)
    → MakesCallsFor e w u (Hibernate.hibernate request st)
unfolding Hibernate.hibernate
hibernate-Authorised e u request st w strict user =
    (Keeps-try_except _ _
        (Keeps-bind _ _ (Keeps-lift _) λ body. Keeps-bind _ _ (Keeps-lift _) λ v.
          Keeps-bind_known _ (str u) _ user (
            Keeps-bind_owned AnyId e u w.log v _ _ strict (λ c is_str. tt)
              (λ c row is_str.
                subst
                  (λ v'.
                    Keeps e (OnLog (MineWith AnyId e u w.log c))
                      (Hibernate.hibernate_row row v' (str u)))
                  (sym is_str) (Keeps-hibernate_row e u c w.log strict row))
              (Keeps-not_found e _ v)))
        (Keeps-error_response e _ _)).at
      w start
