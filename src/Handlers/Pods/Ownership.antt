-- ===== src/Handlers/Pods/Ownership.antt =====
-- The two routes of pods make calls for the caller alone.
use browseterm_server_local.Prelude.{
  String, ◌≡◌, refl, inr, sym, ap, ◌∙◌, arith, Option, none, some,
}
use browseterm_server_local.Python.Value.{Value, null, str, dict, Fields, find}
use browseterm_server_local.Python.Error.{returned, get_item}
use browseterm_server_local.Python.Validate.{optional, or_null}
use browseterm_server_local.World.Events.{Env, Log, create_rpc}
use browseterm_server_local.World.Action.{World, pure, ◌>>=◌, ◌>>◌}
use browseterm_server_local.World.Rules.{
  Keeps, OnLog, Keeps-pure, Keeps-raise, Keeps-bind, Keeps-bind_lift, Keeps-bind_validated,
  Keeps-try_except, Keeps-bind_asks, keeps_rules,
}
use browseterm_server_local.World.Trace.{start, more}
use browseterm_server_local.World.Gives.{
  Gives, Gives-bind, Gives-bind_asks, Gives-bind_lift, Gives-validated, Keeps-bind_gives,
}
use browseterm_server_local.Containers.Client.Calls.{Keeps-container_service}
use browseterm_server_local.Containers.Models
use browseterm_server_local.Containers.Models.{
  CreateContainerK8SRequest, DeleteContainerDbRequest, DeleteContainerK8SRequest, ResourceLimits,
}
use browseterm_server_local.Containers.Transform.{
  dump_container, CreateContainerModel, create_container_input,
}
use browseterm_server_local.Containers.Service.Rows.Calls as RowCalls
use browseterm_server_local.Containers.Service.Pods.Calls as PodCalls
use browseterm_server_local.Cloud.Client.{user_fields}
use mathlib.Core.Path.{subst}
use browseterm_server_local.Containers.Client.{container_service}
use browseterm_server_local.Web.{json_response, Request, State}
use browseterm_server_local.Handlers.Pods
use browseterm_server_local.Cloud.Ids.{AnyId}
use browseterm_server_local.Ownership.{
  IsStrict, namespace, Authorised, Owned, images, writing, deletion,
}
use browseterm_server_local.Ownership.Lookup.Found.{Mine, MineWith, extend_with, Keeps-bind_owned}
use browseterm_server_local.Ownership.Routes.{
  Keeps-bind_known, Keeps-bind_namespace_of, Gives-bind_namespace_of, Keeps-error_response,
  Keeps-not_found, find-extended, IsLabelled, MakesCallsFor, dict_str_field_lem,
}

module _ (e : Env) (L : Log → Type 0) where
  Keeps-pod_request :
      (body v user requirements : Value)
      → Keeps e (OnLog L) (Pods.pod_request body v user requirements)
  unfolding Pods.pod_request Pods.namespace_of
  Keeps-pod_request body v user requirements = search keeps_rules depth 30

-- A request to create a pod is for the namespace of the user, and labelled with the container.
abbrev pub IsFor : (c u : String) → CreateContainerK8SRequest → Type 0
IsFor c u r = (r.network_name ≡ namespace u) × IsLabelled c r

pub k8s_request_lem :
    (e : Env) (image name : Value) (network : String) (level ports : Value) (d : Fields)
    → (limits : ResourceLimits) (r : CreateContainerK8SRequest)
    → Models.create_container_k8s_request e.pydantic image name network level ports d limits
      ≡ some r
    → (r.network_name ≡ network) × (r.environment_variables ≡ some d)
unfolding Models.create_container_k8s_request
k8s_request_lem e image name network level ports d limits r same = ground arith

k8s_deletion_lem :
    (e : Env) (v : Value) (network : String) (r : DeleteContainerK8SRequest)
    → Models.delete_container_k8s_request e.pydantic v network ≡ some r
    → r.network_name ≡ network
unfolding Models.delete_container_k8s_request
k8s_deletion_lem e v network r same = ground arith

module _ (e : Env) (c u : String) where
  Gives-pod_request :
      (body requirements : Value)
      → Gives e (Pods.pod_request body (str c) (str u) requirements) (IsFor c u)
  unfolding Pods.pod_request
  Gives-pod_request body requirements = Gives-bind _ _ λ cpu. Gives-bind _ _ λ memory.
      Gives-bind _ _ λ storage. Gives-bind _ _ λ snapshot. Gives-bind _ _ λ l.
        Gives-bind _ _ λ limits. Gives-bind _ _ λ env. Gives-bind_lift _ _ λ d labelled.
          Gives-bind _ _ λ image. Gives-bind _ _ λ name. Gives-bind_namespace_of u _ (
            Gives-bind _ _ λ level. Gives-bind _ _ λ ports. Gives-bind_asks _ _ (
              Gives-validated _ _ _ λ r same.
                let (network, is_env) =
                  k8s_request_lem e image name (namespace u) level ports d limits r same in
                (network, (d, is_env, find-extended env "CONTAINER_ID" (str c) d labelled))))

  delete_request_lem :
      (strict : IsStrict e.pydantic) (r : DeleteContainerDbRequest)
      → Models.delete_container_db_request e.pydantic (str c) (str u) ≡ some r
      → (r.container_id ≡ c) × (r.user_id ≡ u)
  unfolding Models.delete_container_db_request
  delete_request_lem strict r same = grind (arith, strict.accepts_str c, strict.accepts_str u)

-- The container whose id stands in an environment.
abbrev pub label_of : Option Fields → Option Value
label_of none = none
label_of (some d) = find "CONTAINER_ID" d

-- A pod that is created for a request has the request's label.
pub label_lem :
    (e : Env) (c : String) (r : CreateContainerK8SRequest) (m : CreateContainerModel)
    → IsStrict e.pydantic
    → IsLabelled c r
    → optional e.pydantic.dict_str_field (or_null dict r.environment_variables)
      ≡ some m.environment_variables
    → label_of m.environment_variables ≡ some (str c)
label_lem e c r m strict (d, env, labelled) valid =
    let kept = dict_str_field_lem e.pydantic d m.environment_variables strict (
      subst
        (λ o. optional e.pydantic.dict_str_field (or_null dict o) ≡ some m.environment_variables)
        env valid) in
    subst (λ o. label_of o ≡ some (str c)) (sym kept) labelled

module _ (e : Env) (u : String) (base : Log) (strict : IsStrict e.pydantic) where
  -- The pod of a request for a container that is the user's.
  pub creation-Authorised :
      (c : String) (r : CreateContainerK8SRequest) (m : CreateContainerModel) (id : String)
      (l : Log)
      → IsFor c u r
      → m.network_name ≡ r.network_name
      → optional e.pydantic.dict_str_field (or_null dict r.environment_variables)
        ≡ some m.environment_variables
      → Owned e c u l
      → Authorised AnyId e u (create_rpc (create_container_input m) id) l
  unfolding create_container_input
  creation-Authorised c r m id l (network, labelled) same_network valid owned =
      (same_network ∙ network, (c, label_lem e c r m strict labelled valid, owned))

  Keeps-release_row :
      (c : String) → Keeps e (OnLog (MineWith AnyId e u base c)) (Pods.release_row (str c) (str u))
  unfolding Pods.release_row user_fields find
  Keeps-release_row c =
      Keeps-try_except _ _
        (Keeps-bind_asks _ _ (
          Keeps-bind_validated _ _ _ _ λ r same.
            Keeps-bind _ _
              (RowCalls.Keeps-delete_container_in_db e (MineWith AnyId e u base c) r
                (λ l (s, owned).
                  let (is_c, is_u) = delete_request_lem e c u strict r same in
                  extend_with c
                    (writing deletion r.container_id _ (ap (λ t. some (str t)) is_u)
                      (inr (subst (λ d. Owned e d u l) (sym is_c) owned)) refl)
                    (s, owned)))
              λ _. Keeps-pure tt))
        (λ x. Keeps-pure tt)

  Keeps-start_pod :
      (c : String) (r : CreateContainerK8SRequest)
      → IsFor c u r
      → Keeps e (OnLog (MineWith AnyId e u base c)) (Pods.start_pod (str c) (str u) r)
  unfolding Pods.start_pod
  Keeps-start_pod c r for =
      Keeps-try_except _ _
        (PodCalls.Keeps-create_container_in_k8s e (MineWith AnyId e u base c)
          (λ name space l. extend_with c tt) r null (λ l. extend_with c (images refl))
          (λ m (network, valid) id l (s, owned).
            extend_with c (creation-Authorised c r m id l for network valid owned) (s, owned)))
        (λ x. Keeps-bind _ _ (Keeps-release_row c) (λ _. Keeps-raise x))

  -- Every call that the route of creating pods makes is made for the caller.
  Keeps-create_pod :
      (request : Request) (st : State)
      → get_item st.user_info "id" ≡ returned (str u)
      → Keeps e (OnLog (Mine AnyId e u base)) (Pods.create_pod request st)
  unfolding Pods.create_pod
  Keeps-create_pod request st user =
      Keeps-try_except _ _
        (Keeps-bind_lift _ _ λ body same. Keeps-bind_lift _ _ λ v same'.
          Keeps-bind_known _ (str u) _ user (
            Keeps-bind_lift _ _ λ requirements same''.
              Keeps-bind_owned AnyId e u base v _ _ strict (λ c is_str. tt)
                (λ c row is_str. created c body v requirements is_str) (Keeps-not_found e _ v)))
        (Keeps-error_response e _ _)
    where
      created :
          (c : String) (body v requirements : Value)
          → v ≡ str c
          → Keeps e (OnLog (MineWith AnyId e u base c)) (do
            r ← Pods.pod_request body v (str u) requirements
            container_service
            response ← Pods.start_pod v (str u) r
            pure (json_response (dump_container response) 200))
      created c body v requirements is_str =
          subst
            (λ w. Keeps e (OnLog (MineWith AnyId e u base c)) (do
              r ← Pods.pod_request body w (str u) requirements
              container_service
              response ← Pods.start_pod w (str u) r
              pure (json_response (dump_container response) 200)))
            (sym is_str)
            (Keeps-bind_gives _ _ (Keeps-pod_request e _ body (str c) (str u) requirements)
              (Gives-pod_request e c u body requirements)
              λ r for.
                Keeps-bind _ _ (Keeps-container_service e _)
                  λ _. Keeps-bind _ _ (Keeps-start_pod c r for) λ response. Keeps-pure _)

  Keeps-delete_pod :
      (request : Request) (st : State)
      → get_item st.user_info "id" ≡ returned (str u)
      → Keeps e (OnLog (Mine AnyId e u base)) (Pods.delete_pod request st)
  unfolding Pods.delete_pod
  Keeps-delete_pod request st user =
      Keeps-try_except _ _
        (Keeps-bind_lift _ _ λ body same. Keeps-bind_lift _ _ λ v same'.
          Keeps-bind_known _ (str u) _ user (
            Keeps-bind_namespace_of u _ (
              Keeps-bind_asks _ _ (
                Keeps-bind_validated _ _ _ _ λ r same''.
                  Keeps-bind _ _ (Keeps-container_service e _) λ _.
                    Keeps-bind _ _
                      (PodCalls.Keeps-delete_container_in_k8s e (Mine AnyId e u base)
                        (λ name space l. more tt) r
                        (λ id l. more (k8s_deletion_lem e v (namespace u) r same'')))
                      (λ response. Keeps-pure _)))))
        (Keeps-error_response e _ _)

-- For a session of the user `u`, with pydantic's fields as documented, every call that
-- `create_container_in_k8s` makes is made for `u`: a pod is created in `u`'s namespace only,
-- labelled with a container of which Cloud has answered before that it is `u`'s.
pub create_pod-Authorised :
    (e : Env) (u : String) (request : Request) (st : State) (w : World)
    → IsStrict e.pydantic
    → get_item st.user_info "id" ≡ returned (str u)
    → MakesCallsFor e w u (Pods.create_pod request st)
create_pod-Authorised e u request st w strict user =
    (Keeps-create_pod e u w.log strict request st user).at w start

-- For a session of the user `u`, with pydantic's fields as documented, every call that
-- `delete_container_in_k8s` makes is made for `u`: a pod is deleted in `u`'s namespace only.
pub delete_pod-Authorised :
    (e : Env) (u : String) (request : Request) (st : State) (w : World)
    → IsStrict e.pydantic
    → get_item st.user_info "id" ≡ returned (str u)
    → MakesCallsFor e w u (Pods.delete_pod request st)
delete_pod-Authorised e u request st w strict user =
    (Keeps-delete_pod e u w.log strict request st user).at w start
