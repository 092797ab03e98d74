-- ===== src/Containers/Service/Pods/Errors.antt =====
-- What the methods that reach container-maker raise.
use browseterm_server_local.Prelude.{String, ◌≡◌, refl, true, Bool, false}
use browseterm_server_local.Python.Value.{Value, truthy}
use browseterm_server_local.Python.Error.{Error, http_exception, container_maker_exception}
use browseterm_server_local.World.Events.{Env}
use browseterm_server_local.World.Action.{
  World, pure, ◌>>=◌, try_except, when◌then◌else◌, text_of, asks, raise,
}
use browseterm_server_local.World.Fails.{FailsWith, try_except-FailsWith}
use browseterm_server_local.Containers.Models.{
  CreateContainerK8SRequest, DeleteContainerK8SRequest, SaveContainerK8SRequest,
}
use browseterm_server_local.Containers.Service.Pods

-- `HTTPException(500, ...)`
abbrev pub IsServerError : Error → Type 0
IsServerError (http_exception code detail) = code ≡ 500
IsServerError _ = ⊥

module _ (e : Env) where
  pod_failed-IsServerError :
      (A : Type 0) (words : String) (x : Error) (w : World)
      → FailsWith IsServerError (Pods.pod_failed {A = A} words x e w).0
  unfolding Pods.pod_failed Pods.container_maker_failed ◌>>=◌ text_of asks raise
  pod_failed-IsServerError A words (container_maker_exception s) w = refl
  pod_failed-IsServerError A words x w = refl

  -- With an image given.
  with_image-IsServerError :
      (r : CreateContainerK8SRequest) (override : Value) (w : World) (b : Bool)
      → b ≡ true
      → FailsWith IsServerError
          (((when b then pure override else Pods.image_of r.image_id) >>= λ image.
              try_except (Pods.create_pod image r) (Pods.pod_failed "Error creating container"))
            e w).0
  unfolding when◌then◌else◌ ◌>>=◌ pure
  with_image-IsServerError r override w true given =
      try_except-FailsWith e IsServerError _ _ w
        (pod_failed-IsServerError _ "Error creating container")
  with_image-IsServerError r override w false given = cc

  -- Whatever goes wrong at container-maker, while its channel is opened, or while its answer is
  -- read, creating a pod from a given image, deleting one and saving one raise nothing but an
  -- `HTTPException` with the status 500.
  pub pods-IsServerError :
      (create : CreateContainerK8SRequest) (override : Value) (delete : DeleteContainerK8SRequest)
      → (save : SaveContainerK8SRequest) (w : World) → truthy override ≡ true
      → FailsWith IsServerError (Pods.create_container_in_k8s create override e w).0
        × FailsWith IsServerError (Pods.delete_container_in_k8s delete e w).0
        × FailsWith IsServerError (Pods.save_container_in_k8s save e w).0
  unfolding Pods.create_container_in_k8s Pods.image_name Pods.delete_container_in_k8s
      Pods.save_container_in_k8s
  pods-IsServerError create override delete save w given = (
    with_image-IsServerError create override w (truthy override) given,
    try_except-FailsWith e IsServerError _ _ w
        (pod_failed-IsServerError _ "Error deleting container"),
    try_except-FailsWith e IsServerError _ _ w
        (pod_failed-IsServerError _ "Error saving container"),
  )
