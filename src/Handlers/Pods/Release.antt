-- ===== src/Handlers/Pods/Release.antt =====
-- What a failed creation of a pod leaves behind.
use browseterm_server_local.Prelude.{String, ◌≡◌, refl, some, [], ◌∷◌}
use browseterm_server_local.Python.Value.{null, str}
use browseterm_server_local.Python.Error.{Error}
use browseterm_server_local.World.Events.{Env, Log, http}
use browseterm_server_local.World.Action
use browseterm_server_local.World.Action.{
  World, Action, Outcome, ok, err, hanging, ◌>>=◌, ◌>>◌, pure, raise, validated,
}
use browseterm_server_local.World.Rules.{Keeps-pure}
use browseterm_server_local.World.Halts.{halts_rules}
use browseterm_server_local.World.Trace.{
  Post, Runs, Runs-bind, Runs-bind_asks, Runs-keeps, Runs-recover,
}
use browseterm_server_local.Ownership.{IsStrict}
use browseterm_server_local.Cloud.Rows.Deletion.{Before, After, deletion}
use browseterm_server_local.Containers.Models
use browseterm_server_local.Containers.Models.{CreateContainerK8SRequest, DeleteContainerDbRequest}
use browseterm_server_local.Containers.Transform.{ContainerResponseModel}
use browseterm_server_local.Containers.Service
use browseterm_server_local.Containers.Service.Rows.Deletion.{
  Runs-delete_container_in_db, Halts-delete_container_in_db,
}
use browseterm_server_local.Handlers.Pods
use mathlib.Core.Path.{subst, sym}

deletion_request_lem :
    (e : Env) (c u : String)
    → IsStrict e.pydantic
    → Models.delete_container_db_request e.pydantic (str c) (str u)
      ≡ some (record { container_id = c; user_id = u })
unfolding Models.delete_container_db_request
deletion_request_lem e c u strict = rw (strict.accepts_str c, strict.accepts_str u) refl

module _ (e : Env) (c u : String) (l : Log) (strict : IsStrict e.pydantic) where
  Runs-deleted :
      Runs e
        (Before e c u l)
        (do
          r ←
              validated "DeleteContainerDBRequest"
                (str c ∷ str u ∷ [])
                (Models.delete_container_db_request e.pydantic (str c) (str u))
          Service.delete_container_in_db r
          pure tt)
        (λ (_ : Unit {0}) w. After e c u l w)
        (After e c u l)
  unfolding validated ◌>>=◌
  Runs-deleted = record {
    at =
        (subst
          (λ o.
            Runs e (Before e c u l)
              (do
                r ← validated "DeleteContainerDBRequest" (str c ∷ str u ∷ []) o
                Service.delete_container_in_db r
                pure tt)
              (λ (_ : Unit {0}) w. After e c u l w) (After e c u l))
          (sym (deletion_request_lem e c u strict))
          (record {
            at =
                (Runs-bind {Q = λ v w. After e c u l w} _ _
                  (Runs-delete_container_in_db e (record { container_id = c; user_id = u }) l)
                  (λ v. Runs-keeps _ (Keeps-pure tt))).at;
          })).at;
  }

  Runs-release_row :
      Runs e (Before e c u l) (Pods.release_row (str c) (str u)) (λ _ w. After e c u l w) (λ w. ⊥)
  unfolding Pods.release_row pure
  Runs-release_row =
      Runs-recover _ _ (search (halts_rules, Halts-delete_container_in_db) depth 20)
        (Runs-bind_asks _ _ Runs-deleted) (λ x. record { at = λ w after. after })

-- With pydantic's fields as documented: when the creation of a pod fails for the container `c` of
-- the user `u`, whatever the exception is, one more call is made, which asks Cloud to delete `u`'s
-- row of `c`; however Cloud answers it, the same exception is raised again.
pub start_pod_failure :
    (e : Env) (c u : String) (r : CreateContainerK8SRequest) (x : Error) (w : World)
    → IsStrict e.pydantic
    → (Service.create_container_in_k8s r null e w).0 ≡ err x
    → ((Pods.start_pod (str c) (str u) r e w).0 ≡ err x)
      × ((Pods.start_pod (str c) (str u) r e w).1.log
          ≡ http (deletion e c u) ∷ (Service.create_container_in_k8s r null e w).1.log)
unfolding Pods.start_pod Action.try_except ◌>>=◌ raise
start_pod_failure e c u r x w strict failed =
    subst (λ o. IsReleased o) (sym failed)
      (by_outcome (Pods.release_row (str c) (str u) e w').0
        (Pods.release_row (str c) (str u) e w').1
        ((Runs-release_row e c u w'.log strict).at w' refl))
  where
    w' : World
    w' = (Service.create_container_in_k8s r null e w).1

    again : Error → Action ContainerResponseModel
    again y = do Pods.release_row (str c) (str u); raise y

    IsReleased : Outcome ContainerResponseModel → Type 0
    IsReleased o =
        ((Action.handle o again e w').0 ≡ err x)
        × ((Action.handle o again e w').1.log ≡ http (deletion e c u) ∷ w'.log)

    by_outcome :
        (o : Outcome Unit) (v : World)
        → Post (λ _ v'. After e c u w'.log v') (λ v'. ⊥) o v
        → ((Action.continue o (λ _. raise {A = ContainerResponseModel} x) e v).0 ≡ err x)
          × ((Action.continue o (λ _. raise {A = ContainerResponseModel} x) e v).1.log
              ≡ http (deletion e c u) ∷ w'.log)
    by_outcome (ok a) v after = (refl, after)
    by_outcome (err y) v never = elim never [ ]
    by_outcome hanging v never = elim never [ ]
