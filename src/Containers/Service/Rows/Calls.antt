-- ===== src/Containers/Service/Rows/Calls.antt =====
-- Which calls the methods make that read and write rows.
use browseterm_server_local.Prelude.{arith, ◌≡◌, some, String, ◌<>◌, none, some, ◌≡◌}
use browseterm_server_local.Python.Value.{dict, str, insert}
use browseterm_server_local.Python.Error.{
  Error, container_maker_exception, container_db_exception, value_error,
}
use browseterm_server_local.World.Messages.{get_method, post_method}
use browseterm_server_local.World.Events.{Pydantic, Log, Env}
use browseterm_server_local.World.Rules.{
  Keeps, OnLog, Keeps-pure, Keeps-bind, Keeps-bind_asks, Keeps-bind_validated, Keeps-try_except,
  keeps_rules,
}
use browseterm_server_local.Cloud.Client.{user_fields, with_limit}
use browseterm_server_local.Cloud.Client.Calls.{Allows}
use browseterm_server_local.Cloud.Models.{CreateContainerDbModel, to_dict, to_update_dict}
use browseterm_server_local.Cloud.Rows.Calls as RowCalls
use browseterm_server_local.Containers.Models.{
  CreateContainerDbRequest, UpdateContainerRequest, GetContainerRequest, ListUserContainersRequest,
  DeleteContainerDbRequest,
}
use browseterm_server_local.Containers.Service.Rows

module _ (e : Env) (L : Log → Type 0) where
  Keeps-server_error :
      {A : Type 0} (words : String) (x : Error)
      → Keeps e (OnLog L) (Rows.server_error {A = A} words x)
  unfolding Rows.server_error
  Keeps-server_error words x = search keeps_rules

  Keeps-get_failed : (x : Error) → Keeps e (OnLog L) (Rows.get_failed x)
  unfolding Rows.get_failed
  Keeps-get_failed (container_maker_exception s) = search keeps_rules
  Keeps-get_failed x = search keeps_rules

  pub Keeps-get_container_info :
      (r : GetContainerRequest)
      → Allows e L get_method
          ("/containers/" <> r.container_id)
          none
          (some (user_fields (str r.user_id)))
      → Keeps e (OnLog L) (Rows.get_container_info r)
  unfolding Rows.get_container_info
  Keeps-get_container_info r allowed =
      Keeps-try_except _ _ (RowCalls.Keeps-get_container e L _ allowed) Keeps-get_failed

  Keeps-creation_failed : (x : Error) → Keeps e (OnLog L) (Rows.creation_failed x)
  unfolding Rows.creation_failed
  Keeps-creation_failed (container_db_exception s) = search keeps_rules
  Keeps-creation_failed x = search keeps_rules

  pub Keeps-create_container_in_db :
      (r : CreateContainerDbRequest)
      → ((m : CreateContainerDbModel)
          → Rows.create_container_db_model e.pydantic r ≡ some m
          → Allows e L post_method "/containers" (some (dict (to_dict m))) none)
      → Keeps e (OnLog L) (Rows.create_container_in_db r)
  unfolding Rows.create_container_in_db
  Keeps-create_container_in_db r allowed =
      Keeps-try_except _ _
        (Keeps-bind_asks _ _ (
          Keeps-bind_validated _ _ _ _
            (λ m valid. RowCalls.Keeps-create_container_in_db e L m (allowed m valid))))
        Keeps-creation_failed

  Keeps-update_failed : (x : Error) → Keeps e (OnLog L) (Rows.update_failed x)
  unfolding Rows.update_failed
  Keeps-update_failed (container_db_exception s) = search keeps_rules
  Keeps-update_failed x = search keeps_rules

  pub Keeps-update_container :
      (r : UpdateContainerRequest)
      → ((c u : String)
          → r.filters.container_id ≡ some c
          → r.filters.user_id ≡ some u
          → Allows e L post_method
              ("/containers/" <> c)
              (some (dict (insert "user_id" (str u) (to_update_dict (Rows.db_data r.updates)))))
              none)
      → Keeps e (OnLog L) (Rows.update_container r)
  unfolding Rows.update_container
  Keeps-update_container r allowed =
      Keeps-try_except _ _
        (Keeps-bind _ _
          (RowCalls.Keeps-update_container_in_db e L
            (record { filters = Rows.db_filters r.filters; updates = Rows.db_data r.updates })
            allowed)
          (λ v. Keeps-pure _))
        Keeps-update_failed

  pub Keeps-list_user_containers :
      (r : ListUserContainersRequest)
      → Allows e L get_method "/containers" none (
          some (
            with_limit "offset" r.offset
              (with_limit "limit" r.limit (user_fields (str r.user_id)))))
      → Keeps e (OnLog L) (Rows.list_user_containers r)
  unfolding Rows.list_user_containers
  Keeps-list_user_containers r allowed =
      Keeps-try_except _ _
        (Keeps-bind _ _ (RowCalls.Keeps-list_user_containers e L _ _ _ allowed) (λ v. Keeps-pure _))
        (Keeps-server_error "Error listing containers: ")

  pub Keeps-deletion_failed : (x : Error) → Keeps e (OnLog L) (Rows.deletion_failed x)
  unfolding Rows.deletion_failed
  Keeps-deletion_failed (container_db_exception s) = search keeps_rules
  Keeps-deletion_failed (value_error s) = search keeps_rules
  Keeps-deletion_failed x = search keeps_rules

  pub Keeps-delete_container_in_db :
      (r : DeleteContainerDbRequest)
      → Allows e L post_method
          ("/containers/" <> r.container_id <> "/delete")
          (some (dict (user_fields (str r.user_id))))
          none
      → Keeps e (OnLog L) (Rows.delete_container_in_db r)
  unfolding Rows.delete_container_in_db
  Keeps-delete_container_in_db r allowed =
      Keeps-try_except _ _
        (Keeps-bind _ _ (RowCalls.Keeps-delete_container e L _ _ allowed) (λ v. Keeps-pure _))
        Keeps-deletion_failed

-- The row is the requester's.
pub create_container_db_model_lem :
    (p : Pydantic) (r : CreateContainerDbRequest) (m : CreateContainerDbModel)
    → Rows.create_container_db_model p r ≡ some m
    → m.user_id ≡ r.user_id
unfolding Rows.create_container_db_model
create_container_db_model_lem p r m same = ground arith
