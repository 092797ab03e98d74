-- ===== src/Containers/Service/Pods/Calls.antt =====
-- Which calls the methods make that reach container-maker.
use browseterm_server_local.Prelude.{String, none, some, ◌∷◌, ◌≡◌, refl}
use browseterm_server_local.Python.Value.{Value, dict}
use browseterm_server_local.Python.Error.{Error, container_maker_exception}
use browseterm_server_local.Python.Validate.{optional, or_null}
use browseterm_server_local.World.Messages.{get_method, GrpcCreateContainerRequest}
use browseterm_server_local.World.Events.{Log, Env, create_rpc, delete_rpc, save_rpc}
use browseterm_server_local.World.Rules.{
  Keeps, OnLog, Keeps-pure, Keeps-raise, Keeps-lift, Keeps-gets, Keeps-asks, Keeps-bind,
  Keeps-validated, Keeps-perform, Keeps-when, Keeps-try_except, keeps_rules,
}
use browseterm_server_local.World.Gives.{
  Gives, Gives-pure, Gives-bind, Gives-bind_asks, Gives-bind_validated, Keeps-bind_gives,
}
use browseterm_server_local.Cloud.Client.Calls.{Allows}
use browseterm_server_local.Cloud.Catalog.Calls.{Keeps-get_image}
use browseterm_server_local.Containers.Client.Calls.{AllowsSecrets, Keeps-ensure_grpc_client}
use browseterm_server_local.Containers.Models.{
  ResourceLimits, CreateContainerK8SRequest, DeleteContainerK8SRequest, SaveContainerK8SRequest,
}
use browseterm_server_local.Containers.Transform.{
  CreateContainerModel, ResourceRequirementsModel, create_container_input, delete_container_input,
}
use browseterm_server_local.Containers.Service.Pods

module _ (e : Env) (L : Log → Type 0) where
  Keeps-container_maker_failed :
      {A : Type 0} (fallback : String) (x : Error)
      → Keeps e (OnLog L) (Pods.container_maker_failed {A = A} fallback x)
  unfolding Pods.container_maker_failed
  Keeps-container_maker_failed fallback x = search keeps_rules

  Keeps-pod_failed :
      {A : Type 0} (words : String) (x : Error)
      → Keeps e (OnLog L) (Pods.pod_failed {A = A} words x)
  unfolding Pods.pod_failed
  Keeps-pod_failed words (container_maker_exception s) = Keeps-container_maker_failed _ _
  Keeps-pod_failed words x = Keeps-container_maker_failed _ _

  module _ (images : Allows e L get_method "/catalog/images" none none) where
    Keeps-image_of : (image_id : String) → Keeps e (OnLog L) (Pods.image_of image_id)
    unfolding Pods.image_of
    Keeps-image_of image_id = Keeps-bind _ _ (Keeps-validated _ _ _) λ f.
        Keeps-bind _ _ (Keeps-get_image e L images f)
          λ image. Keeps-when _ _ _ (λ _. Keeps-lift _) (λ _. Keeps-raise _)

    pub Keeps-image_name :
        (image_id : String) (override : Value)
        → Keeps e (OnLog L) (Pods.image_name image_id override)
    unfolding Pods.image_name
    Keeps-image_name image_id override =
        Keeps-when _ _ _ (λ _. Keeps-pure _) (λ _. Keeps-image_of image_id)

  Keeps-resource_requirements :
      (limits : ResourceLimits) → Keeps e (OnLog L) (Pods.resource_requirements limits)
  unfolding Pods.resource_requirements
  Keeps-resource_requirements limits = Keeps-bind _ _ (Keeps-asks _) λ cpu.
      Keeps-bind _ _ (Keeps-lift _) λ c. Keeps-bind _ _ (Keeps-asks _) λ memory.
        Keeps-bind _ _ (Keeps-lift _) λ m.
          Keeps-bind _ _ (Keeps-asks _) λ storage. Keeps-bind _ _ (Keeps-lift _) λ s. Keeps-pure _

  -- What the model takes over from the request.
  abbrev FromRequest : CreateContainerK8SRequest → CreateContainerModel → Type 0
  FromRequest r m =
      (m.network_name ≡ r.network_name)
      × (optional e.pydantic.dict_str_field (or_null dict r.environment_variables)
          ≡ some m.environment_variables)

  module _ (image : Value) (r : CreateContainerK8SRequest)
      (requirements : ResourceRequirementsModel) where
    Keeps-create_container_model :
        Keeps e (OnLog L) (Pods.create_container_model image r requirements)
    unfolding Pods.create_container_model
    Keeps-create_container_model = search keeps_rules depth 20

    Gives-create_container_model :
        Gives e (Pods.create_container_model image r requirements) (FromRequest r)
    unfolding Pods.create_container_model
    Gives-create_container_model = Gives-bind _ _ λ name. Gives-bind _ _ λ container_name.
        Gives-bind _ _ λ level. Gives-bind _ _ λ ports. Gives-bind _ _ λ publish.
          Gives-bind _ _ λ tag. Gives-bind _ _ λ image_name.
            Gives-bind_asks _ _
              (Gives-bind_validated _ _ _ _ λ env_vars same. Gives-pure _ (refl, same))

  -- The invariant allows creating the pod that a request asks for.
  abbrev pub AllowsCreation : CreateContainerK8SRequest → Type 0
  AllowsCreation r =
      (m : CreateContainerModel)
      → FromRequest r m
      → (request_id : String) (l : Log) → L l
      → L (create_rpc (create_container_input m) request_id ∷ l)

  Keeps-call_create :
      (m : GrpcCreateContainerRequest)
      → ((request_id : String) (l : Log) → L l → L (create_rpc m request_id ∷ l))
      → Keeps e (OnLog L) (Pods.call_create m)
  unfolding Pods.call_create
  Keeps-call_create m allowed =
      Keeps-bind _ _ (Keeps-gets _) (λ request_id. Keeps-perform _ _ (allowed request_id))

  module _ (secrets : AllowsSecrets e L) where
    Keeps-create_pod :
        (image : Value) (r : CreateContainerK8SRequest)
        → AllowsCreation r
        → Keeps e (OnLog L) (Pods.create_pod image r)
    unfolding Pods.create_pod
    Keeps-create_pod image r allowed = Keeps-bind _ _ (Keeps-ensure_grpc_client e L secrets) λ _.
        Keeps-bind _ _ (Keeps-resource_requirements _) λ requirements.
          Keeps-bind_gives _ _ (Keeps-create_container_model image r requirements)
            (Gives-create_container_model image r requirements)
            λ m same. Keeps-bind _ _ (Keeps-call_create _ (allowed m same)) (λ answer. Keeps-pure _)

    pub Keeps-create_container_in_k8s :
        (r : CreateContainerK8SRequest) (override : Value)
        → Allows e L get_method "/catalog/images" none none
        → AllowsCreation r
        → Keeps e (OnLog L) (Pods.create_container_in_k8s r override)
    unfolding Pods.create_container_in_k8s
    Keeps-create_container_in_k8s r override images allowed =
        Keeps-bind _ _ (Keeps-image_name images _ override) λ image.
          Keeps-try_except _ _ (Keeps-create_pod image r allowed)
            (Keeps-pod_failed "Error creating container")

    pub Keeps-delete_container_in_k8s :
        (r : DeleteContainerK8SRequest)
        → ((request_id : String) (l : Log)
            → L l
            → L (delete_rpc (delete_container_input r.container_id r.network_name) request_id ∷ l))
        → Keeps e (OnLog L) (Pods.delete_container_in_k8s r)
    unfolding Pods.delete_container_in_k8s
    Keeps-delete_container_in_k8s r allowed =
        Keeps-try_except _ _
          (Keeps-bind _ _ (Keeps-ensure_grpc_client e L secrets) λ _.
            Keeps-bind _ _ (Keeps-gets _) λ request_id.
              Keeps-bind _ _ (Keeps-perform _ _ (allowed request_id)) λ answer. Keeps-pure _)
          (Keeps-pod_failed "Error deleting container")

    pub Keeps-save_container_in_k8s :
        (r : SaveContainerK8SRequest)
        → ((request_id : String) (l : Log) → L l → L (save_rpc (Pods.save_key r) request_id ∷ l))
        → Keeps e (OnLog L) (Pods.save_container_in_k8s r)
    unfolding Pods.save_container_in_k8s
    Keeps-save_container_in_k8s r allowed =
        Keeps-try_except _ _
          (Keeps-bind _ _ (Keeps-ensure_grpc_client e L secrets)
            λ _. Keeps-bind _ _ (Keeps-gets _) λ request_id. Keeps-perform _ _ (allowed request_id))
          (Keeps-pod_failed "Error saving container")
