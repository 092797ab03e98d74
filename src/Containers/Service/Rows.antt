-- ===== src/Containers/Service/Rows.antt =====
-- The methods of `ContainerService` that read and write rows through Cloud.
pub mod Calls
pub mod Deletion
use browseterm_server_local.Prelude.{String, ◌<>◌, true, Option, none, some, [], ◌∷◌}
use browseterm_server_local.Python.Value.{Value, bool, str, list, dict, nil, end, field, or_else}
use browseterm_server_local.Python.Error.{
  Error, http_exception, container_db_exception, container_maker_exception, value_error,
}
use browseterm_server_local.Python.Validate.{optional, or_null}
use browseterm_server_local.World.Events.{Pydantic}
use browseterm_server_local.World.Action.{
  Action, pure, raise, asks, ◌>>=◌, try_except, text_of, validated,
}
use browseterm_server_local.Cloud.Rows
use browseterm_server_local.Cloud.Models.{
  CreateContainerDbModel, UpdateContainerDbFilters, UpdateContainerDbData,
}
use browseterm_server_local.Containers.Models.{
  CreateContainerDbRequest, UpdateContainerFilters, UpdateContainerData, UpdateContainerRequest,
  GetContainerRequest, ListUserContainersRequest, DeleteContainerDbRequest,
}

-- `raise HTTPException(status_code=500, detail=f"{words}{str(e)}")`
server_error : {A : Type 0} → String → Error → Action A
server_error words x = do t ← text_of x; raise (http_exception 500 (words <> t))

get_failed : Error → Action Value
unfolding server_error
get_failed (container_maker_exception s) =
    server_error "Error getting container info from ContainerMaker: " (container_maker_exception s)
get_failed x = server_error "Error getting container info: " x

unfoldable pub get_container_info : GetContainerRequest → Action Value
unfolding Rows.get_container get_failed
get_container_info r =
    try_except (Rows.get_container (record { container_id = r.container_id; user_id = r.user_id }))
      get_failed

-- `CreateContainerDBModel(...)`: of the request's fields only the environment is validated anew,
-- to be one of texts.
pub create_container_db_model : Pydantic → CreateContainerDbRequest → Option CreateContainerDbModel
unfolding optional
create_container_db_model p r =
    elim (optional p.dict_str_field (or_null dict r.environment_variables)) [
      | none ↦ none
      | some env ↦ some (record {
        user_id = r.user_id;
        image_id = r.image_id;
        name = r.container_name;
        port_mappings = r.publish_information;
        environment_variables = env;
        cpu_limit = some r.cpu_limit;
        memory_limit = some r.memory_limit;
        storage_limit = some r.storage_limit;
      })
    ]

creation_failed : Error → Action Value
unfolding server_error
creation_failed (container_db_exception s) =
    server_error "Error creating container in database: " (container_db_exception s)
creation_failed x = server_error "Error creating container: " x

unfoldable pub create_container_in_db : CreateContainerDbRequest → Action Value
unfolding Rows.create_container_in_db create_container_db_model creation_failed validated
create_container_in_db r =
    try_except
      (do
        o ← asks (λ e. create_container_db_model e.pydantic r)
        m ← validated "CreateContainerDBModel" (or_null dict r.environment_variables ∷ []) o
        Rows.create_container_in_db m)
      creation_failed

db_filters : UpdateContainerFilters → UpdateContainerDbFilters
db_filters f = record {
  id = f.container_id;
  user_id = f.user_id;
  kubernetes_id = f.kubernetes_id;
  name = f.name;
}

pub db_data : UpdateContainerData → UpdateContainerDbData
db_data d = record {
  image_id = d.image_id;
  name = d.name;
  status = d.status;
  cpu_limit = d.cpu_limit;
  memory_limit = d.memory_limit;
  storage_limit = d.storage_limit;
  ip_address = d.ip_address;
  port_mappings = d.port_mappings;
  environment_vars = d.environment_vars;
  associated_resources = d.associated_resources;
  kubernetes_id = d.kubernetes_id;
  saved_image = d.saved_image;
}

update_failed : Error → Action Value
unfolding server_error
update_failed (container_db_exception s) =
    server_error "Error updating container in database: " (container_db_exception s)
update_failed x = server_error "Error updating container: " x

-- `{'success': True, 'message': 'Container updated successfully'}`
unfoldable pub updated : Value
updated =
    dict (field "success" (bool true) (field "message" (str "Container updated successfully") end))

unfoldable pub update_container : UpdateContainerRequest → Action Value
unfolding Rows.update_container_in_db db_filters db_data update_failed updated or_else
update_container r =
    try_except
      (do
        result ←
            Rows.update_container_in_db
              (record { filters = db_filters r.filters; updates = db_data r.updates })
        pure (or_else result updated))
      update_failed

unfoldable pub list_user_containers : ListUserContainersRequest → Action Value
unfolding Rows.list_user_containers server_error or_else
list_user_containers r =
    try_except
      (do
        containers ← Rows.list_user_containers r.user_id r.limit r.offset
        pure (or_else containers (list nil)))
      (server_error "Error listing containers: ")

pub deletion_failed : Error → Action Value
unfolding server_error
deletion_failed (container_db_exception s) =
    server_error "Error deleting container from database: " (container_db_exception s)
deletion_failed (value_error s) = raise (http_exception 404 s)
deletion_failed x = server_error "Error deleting container: " x

unfoldable pub delete_container_in_db : DeleteContainerDbRequest → Action Value
unfolding Rows.delete_container deletion_failed
delete_container_in_db r =
    try_except
      (do
        result ← Rows.delete_container r.container_id r.user_id
        pure (dict (field "success" (bool result) (field "container_id" (str r.container_id) end))))
      deletion_failed
