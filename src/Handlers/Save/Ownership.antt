-- ===== src/Handlers/Save/Ownership.antt =====
-- Saving makes calls for the caller alone, also in its background task.
use browseterm_server_local.Prelude.{
  String, ◌≡◌, refl, sym, ap, ◌∙◌, arith, Bool, true, false, some,
}
use browseterm_server_local.Python.Value.{Value, null, str, field}
use browseterm_server_local.Python.Error.{Error, returned, get_item}
use browseterm_server_local.World.Events.{Env, Log, SaveTask, start_task}
use browseterm_server_local.World.Action.{World}
use browseterm_server_local.World.Rules.{
  Keeps, OnLog, Keeps-pure, Keeps-lift, Keeps-bind, Keeps-try_except, Keeps-asks, Keeps-gets,
  Keeps-perform, Keeps-text_of, keeps_rules,
}
use browseterm_server_local.World.Trace.{start}
use browseterm_server_local.World.Gives.{Gives, Gives-bind_asks, Gives-validated, Keeps-bind_gives}
use browseterm_server_local.Python.Strings.{take}
use mathlib.Core.Path.{subst}
use browseterm_server_local.Cloud.Rows.Calls as CloudCalls
use browseterm_server_local.Containers.Client.Calls.{Keeps-container_service}
use browseterm_server_local.Containers.Models
use browseterm_server_local.Containers.Models.{SaveContainerK8SRequest}
use browseterm_server_local.Containers.Service.Pods.Calls as PodCalls
use browseterm_server_local.Web.{Request, State}
use browseterm_server_local.Handlers.Save
use browseterm_server_local.Cloud.Ids.{AnyId}
use browseterm_server_local.Ownership.{IsStrict, Authorised, Owned, namespace}
use browseterm_server_local.Ownership.Lookup.Found.{Mine, MineWith, extend_with, Keeps-bind_owned}
use browseterm_server_local.Ownership.Routes.{
  Keeps-bind_known, Keeps-bind_namespace_of, Keeps-error_response, Keeps-not_found,
  update-Authorised, MakesCallsFor,
}

module _ (e : Env) (c network : String) (v : Value) (strict : IsStrict e.pydantic)
    (is_str : v ≡ str c) where
  -- A request to save names the container and the namespace that it was built from.
  save_container_k8s_request_lem :
      (r : SaveContainerK8SRequest)
      → Models.save_container_k8s_request e.pydantic v network ≡ some r
      → (r.container_id ≡ c) × (r.network_name ≡ network)
  unfolding Models.save_container_k8s_request
  save_container_k8s_request_lem r same =
      let accepted = ap e.pydantic.str_field is_str ∙ strict.accepts_str c in ground arith

  pub Gives-save_request :
      Gives e (Save.save_request v network) (λ r. (r.container_id ≡ c) × (r.network_name ≡ network))
  unfolding Save.save_request
  Gives-save_request = Gives-bind_asks _ _ (Gives-validated _ _ _ save_container_k8s_request_lem)

pub Keeps-save_request :
    (e : Env) (L : Log → Type 0) (v : Value) (network : String)
    → Keeps e (OnLog L) (Save.save_request v network)
unfolding Save.save_request
Keeps-save_request e L v network = search keeps_rules

module _ (e : Env) (u c : String) (base : Log) where
  Keeps-stamp : (b : Bool) → Keeps e (OnLog (MineWith AnyId e u base c)) (Save.stamp b)
  unfolding Save.stamp
  Keeps-stamp true =
      Keeps-bind _ _ (Keeps-perform _ _ (λ l. extend_with c tt)) (λ now. Keeps-pure _)
  Keeps-stamp false = Keeps-pure _

  pub Keeps-set_save_status :
      (v : Value) (status : String) (save_error : Value) (b : Bool)
      → v ≡ str c
      → Keeps e
          (OnLog (MineWith AnyId e u base c))
          (Save.set_save_status v (str u) status save_error b)
  unfolding Save.set_save_status
  Keeps-set_save_status v status save_error b is_str = Keeps-bind _ _ (Keeps-gets _) λ request_id.
      Keeps-bind _ _ (Keeps-stamp b) λ attempt.
        let d =
          field "save_status" (str status)
            (field "save_error" save_error (field "last_request_id" (str request_id) attempt)) in
        Keeps-bind _ _
          (CloudCalls.Keeps-update_container_fields e (MineWith AnyId e u base c) v (str u) d
            (λ l (s, owned). extend_with c (update-Authorised e u c v d l is_str owned) (s, owned)))
          (λ row. Keeps-pure tt)

  Keeps-record_failure :
      (task : SaveTask) (x : Error)
      → task.user_id ≡ str u
      → task.container_id ≡ str c
      → Keeps e (OnLog (MineWith AnyId e u base c)) (Save.record_failure task x)
  unfolding Save.record_failure
  Keeps-record_failure task x is_user is_id =
      Keeps-try_except _ _
        (Keeps-bind _ _ (Keeps-text_of x) λ t. Keeps-bind _ _ (Keeps-asks _) λ failed.
          subst
            (λ user.
              Keeps e (OnLog (MineWith AnyId e u base c))
                (Save.set_save_status task.container_id user failed (str (take 1000 t)) false))
            (sym is_user)
            (Keeps-set_save_status task.container_id failed (str (take 1000 t)) false is_id))
        (λ y. Keeps-pure tt)

  Keeps-run_save :
      (task : SaveTask)
      → task.user_id ≡ str u
      → task.request.network_name ≡ namespace u
      → task.request.container_id ≡ c
      → task.container_id ≡ str c
      → Keeps e (OnLog (MineWith AnyId e u base c)) (Save.run_save task)
  unfolding Save.run_save
  Keeps-run_save task is_user is_network is_container is_id =
      Keeps-try_except _ _
        (PodCalls.Keeps-save_container_in_k8s e (MineWith AnyId e u base c)
          (λ name space l. extend_with c tt)
          (record {
            container_id = task.request.container_id;
            network_name = task.request.network_name;
          })
          (λ id l (s, owned).
            extend_with c (is_network, subst (λ d. Owned e d u l) (sym is_container) owned)
              (s, owned)))
        (λ x. Keeps-record_failure task x is_user is_id)

module _ (e : Env) (u : String) (base : Log) (strict : IsStrict e.pydantic) where
  Keeps-start_save :
      (request : Request) (st : State)
      → get_item st.user_info "id" ≡ returned (str u)
      → Keeps e (OnLog (Mine AnyId e u base)) (Save.start_save request st)
  unfolding Save.start_save
  Keeps-start_save request st user =
      Keeps-try_except _ _
        (Keeps-bind _ _ (Keeps-lift _) λ body. Keeps-bind _ _ (Keeps-lift _) λ v.
          Keeps-bind_known _ (str u) _ user (
            Keeps-bind_owned AnyId e u base v _ _ strict (λ c is_str. tt)
              (λ c row is_str. Keeps-bind _ _ (Keeps-asks _) λ pending.
                Keeps-bind _ _ (Keeps-set_save_status e u c base v pending null true is_str) λ _.
                  Keeps-bind_namespace_of u _ (
                    Keeps-bind_gives _ _ (Keeps-save_request e _ v (namespace u))
                      (Gives-save_request e c (namespace u) v strict is_str)
                      λ r (same_c, same_n). Keeps-bind _ _ (Keeps-container_service e _) λ _.
                        Keeps-bind _ _
                          (Keeps-perform _ _ (λ l (s, owned).
                            extend_with c
                              (
                                same_n,
                                is_str ∙ ap str (sym same_c),
                                refl,
                                subst (λ d. Owned e d u l) (sym same_c) owned,
                              )
                              (s, owned)))
                          (λ _. Keeps-pure _)))
              (Keeps-not_found e _ v)))
        (Keeps-error_response e _ _)

-- For a session of the user `u`, with pydantic's fields as documented, every call that
-- `save_container` makes is made for `u`; its background task is for a container of which Cloud has
-- answered before that it is `u`'s, in `u`'s namespace.
pub start_save-Authorised :
    (e : Env) (u : String) (request : Request) (st : State) (w : World)
    → IsStrict e.pydantic
    → get_item st.user_info "id" ≡ returned (str u)
    → MakesCallsFor e w u (Save.start_save request st)
start_save-Authorised e u request st w strict user =
    (Keeps-start_save e u w.log strict request st user).at w start

-- Whatever a background task of `u` is that `save_container` may start, `_run_save` makes calls for
-- `u` alone, when Cloud has answered before it runs that its container is `u`'s.
pub run_save-Authorised :
    (e : Env) (u : String) (task : SaveTask) (l : Log) (w : World)
    → Authorised AnyId e u (start_task task) l
    → Owned e task.request.container_id u w.log
    → MakesCallsFor e w u (Save.run_save task)
run_save-Authorised e u task l w (is_network, is_id, is_user, owned_then) owned =
    ((Keeps-run_save e u task.request.container_id w.log task is_user is_network refl is_id).at w
      (start, owned)).0
