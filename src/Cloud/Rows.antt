-- ===== src/Cloud/Rows.antt =====
-- src/db_ops/container_db_ops.py: reading and writing the rows of containers through Cloud.
pub mod Registry
pub mod Calls
pub mod Ends
pub mod Deletion
use browseterm_server_local.Prelude.{
  String, ◌<>◌, ◌==◌, Bool, true, false, ◌||◌, Option, none, some, [], ◌∷◌, eqb, if◌then◌else◌,
}
use browseterm_server_local.Python.Text.{ℤ}
use browseterm_server_local.Python.Value.{Value, str, Fields, truthy, dict}
use browseterm_server_local.Python.Error.{
  Error, cloud_client_error, container_db_exception, value_error, exception,
}
use browseterm_server_local.World.Action.{
  when◌then◌else◌, Action, pure, raise, asks, ◌>>=◌, ◌>>◌, try_except, format_value, validated,
}
use browseterm_server_local.Cloud.Client
use browseterm_server_local.Cloud.Models.{
  CreateContainerDbModel, UpdateContainerDbModel, GetContainerDbModel, to_dict, to_update_dict,
  get_container_db_model, given,
}

-- `except CloudClientError as e: raise Exception(f"Database operation failed: {e.message}")`
unfoldable pub database_failed : {A : Type 0} → Error → Action A
database_failed (cloud_client_error code message) = do
  t ← format_value message
  raise (exception ("Database operation failed: " <> t))
database_failed x = raise x

creation_failed : {A : Type 0} → String → Error → Action A
creation_failed name (cloud_client_error code message) =
    when eqb code 409
    then raise (
        container_db_exception
          ("Container with name '" <> name <> "' already exists for this user."))
    else do
      t ← format_value message
      raise (container_db_exception ("Database operation failed: " <> t))
creation_failed name x = raise x

unfoldable pub create_container_in_db : CreateContainerDbModel → Action Value
unfolding Client.create_container to_dict creation_failed
create_container_in_db m =
    when m.name == "" || m.user_id == ""
    then raise (value_error "Container name and user_id are required")
    else try_except (Client.create_container (to_dict m)) (creation_failed m.name)

update_failed : {A : Type 0} → Error → Action A
update_failed (cloud_client_error code message) = do
  t ← format_value message
  raise (container_db_exception ("Database operation failed: " <> t))
update_failed x = raise x

unfoldable pub require : Bool → String → Action Unit
require true message = pure tt
require false message = raise (value_error message)

unfoldable pub or_empty : Option String → String
or_empty none = ""
or_empty (some s) = s

unfoldable pub update_container_in_db : UpdateContainerDbModel → Action Value
unfolding Client.update_container to_update_dict update_failed require or_empty truthy
update_container_in_db m = do
  require (given m.filters.id) "A container id filter is required"
  require (given m.filters.user_id) "A user_id filter is required"
  require (truthy (dict (to_update_dict m.updates))) "No fields to update"
  try_except
      (Client.update_container (str (or_empty m.filters.id)) (str (or_empty m.filters.user_id))
        (to_update_dict m.updates))
      update_failed

-- A row that is not there, or is another user's, raises `ValueError`.
check_deleted : String → Bool → Action Bool
check_deleted container_id true = pure true
check_deleted container_id false = raise (
    value_error (
      "Container with ID '" <> container_id
      <> "' not found or you don't have permission to delete it."))

unfoldable pub delete_container : (container_id user_id : String) → Action Bool
unfolding Client.delete_container check_deleted database_failed
delete_container container_id user_id =
    try_except
      (do
        deleted ← Client.delete_container (str container_id) (str user_id)
        check_deleted container_id deleted)
      database_failed

unfoldable pub get_container : GetContainerDbModel → Action Value
unfolding Client.get_container database_failed
get_container m =
    try_except (Client.get_container (str m.container_id) (str m.user_id)) database_failed

unfoldable pub list_user_containers : (user_id : String) → (limit offset : Option ℤ) → Action Value
unfolding Client.list_containers database_failed
list_user_containers user_id limit offset =
    try_except (Client.list_containers (str user_id) limit offset) database_failed

unfoldable pub get_container_by_id : (container_id user_id : Value) → Action Value
unfolding get_container get_container_db_model validated
get_container_by_id container_id user_id = do
  o ← asks (λ e. get_container_db_model e.pydantic container_id user_id)
  m ← validated "GetContainerDBModel" (container_id ∷ user_id ∷ []) o
  get_container m

unfoldable pub update_container_fields : (container_id user_id : Value) → Fields → Action Value
unfolding Client.update_container database_failed
update_container_fields container_id user_id fields =
    try_except (Client.update_container container_id user_id fields) database_failed
