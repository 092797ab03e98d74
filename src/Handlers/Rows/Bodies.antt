-- ===== src/Handlers/Rows/Bodies.antt =====
-- Whose rows the requests of the routes are about: what pydantic accepts of a body names the caller.
use browseterm_server_local.Prelude.{String, ◌≡◌, ap, ◌∙◌, arith, Option, none, some}
use browseterm_server_local.Python.Text.{ℤ}
use browseterm_server_local.Python.Value.{Value, str, find, insert}
use browseterm_server_local.Python.Validate.{optional}
use browseterm_server_local.World.Events.{Env, Pydantic}
use browseterm_server_local.Cloud.Client.{user_fields, with_limit}
use browseterm_server_local.Cloud.Models.{CreateContainerDbModel, to_dict}
use browseterm_server_local.Containers.Models
use browseterm_server_local.Containers.Models.{
  CreateContainerDbRequest, UpdateContainerFilters, GetContainerRequest, ListUserContainersRequest,
  DeleteContainerDbRequest,
}
use browseterm_server_local.Containers.Service.Rows.{create_container_db_model}
use browseterm_server_local.Containers.Service.Rows.Calls.{create_container_db_model_lem}
use browseterm_server_local.Ownership.{IsStrict}

module _ (e : Env) (u : String) (strict : IsStrict e.pydantic) where
  pub get_request_lem :
      (v : Value) (r : GetContainerRequest)
      → Models.get_container_request e.pydantic v (str u) ≡ some r
      → (v ≡ str r.container_id) × (r.user_id ≡ u)
  unfolding Models.get_container_request
  get_request_lem v r same =
      (grind (arith, strict.only_str v r.container_id), grind (arith, strict.accepts_str u))

  pub delete_request_lem :
      (v : Value) (r : DeleteContainerDbRequest)
      → Models.delete_container_db_request e.pydantic v (str u) ≡ some r
      → (v ≡ str r.container_id) × (r.user_id ≡ u)
  unfolding Models.delete_container_db_request
  delete_request_lem v r same =
      (grind (arith, strict.only_str v r.container_id), grind (arith, strict.accepts_str u))

  pub list_request_lem :
      (limit offset : Option ℤ) (r : ListUserContainersRequest)
      → Models.list_user_containers_request e.pydantic (str u) limit offset ≡ some r
      → r.user_id ≡ u
  unfolding Models.list_user_containers_request
  list_request_lem limit offset r same = grind (arith, strict.accepts_str u)

  pub filters_lem :
      (v k n : Value) (f : UpdateContainerFilters)
      → Models.update_container_filters e.pydantic v (str u) k n ≡ some f
      → f.user_id ≡ some u
  unfolding Models.update_container_filters optional
  filters_lem v k n f same = ground (arith, strict.accepts_str u)

  pub filters_id_lem :
      (v k n : Value) (f : UpdateContainerFilters) (c : String)
      → Models.update_container_filters e.pydantic v (str u) k n ≡ some f
      → f.container_id ≡ some c
      → v ≡ str c
  unfolding Models.update_container_filters optional
  filters_id_lem v k n f c same is_c = ground (arith, strict.only_str v c)

  pub create_request_lem :
      (image name cpu memory storage ports env : Value) (r : CreateContainerDbRequest)
      → Models.create_container_db_request e.pydantic
          (str u)
          image
          name
          cpu
          memory
          storage
          ports
          env
        ≡ some r
      → r.user_id ≡ u
  unfolding Models.create_container_db_request
  create_request_lem image name cpu memory storage ports env r same =
      grind (arith, strict.accepts_str u)

  -- The user's id stands before the paging of a query.
  pub find-with_limit :
      (limit offset : Option ℤ) (s : String)
      → s ≡ u
      → find "user_id" (with_limit "offset" offset (with_limit "limit" limit (user_fields (str s))))
        ≡ some (str u)
  unfolding with_limit user_fields find insert
  find-with_limit none none s same = ap (λ t. some (str t)) same
  find-with_limit none (some n) s same = ap (λ t. some (str t)) same
  find-with_limit (some m) none s same = ap (λ t. some (str t)) same
  find-with_limit (some m) (some n) s same = ap (λ t. some (str t)) same

pub same_user :
    {u : String} (o : Option String) (u' : String)
    → o ≡ some u
    → o ≡ some u'
    → some (str u') ≡ some (str u)
same_user o u' is_u is_u' = ground arith

pub find-to_dict :
    (p : Pydantic) (u : String) (r : CreateContainerDbRequest) (m : CreateContainerDbModel)
    → r.user_id ≡ u
    → create_container_db_model p r ≡ some m
    → find "user_id" (to_dict m) ≡ some (str u)
unfolding to_dict find
find-to_dict p u r m same valid =
    ap (λ t. some (str t)) (create_container_db_model_lem p r m valid ∙ same)
