-- ===== src/Cloud/Models.antt =====
-- The models of src/db_ops/dto: a container's row as it is created, updated and looked up.
use browseterm_server_local.Prelude.{
  String, ◌==◌, Bool, not, ◌||◌, Option, none, some, if◌then◌else◌,
}
use browseterm_server_local.Python.Text.{ℤ}
use browseterm_server_local.Python.Value.{Value, str, list, dict, Items, Fields, end, field}
use browseterm_server_local.Python.Validate.{◌>>=◌, or_null}
use browseterm_server_local.World.Events.{Pydantic}

pub record CreateContainerDbModel : Type 0 where
  pub user_id : String
  pub image_id : String
  pub name : String
  pub port_mappings : Items
  pub environment_variables : Option Fields
  pub cpu_limit : Option String
  pub memory_limit : Option String
  pub storage_limit : Option String

-- The column of the environment is called `environment_vars`.
unfoldable pub to_dict : CreateContainerDbModel → Fields
to_dict m = field "user_id" (str m.user_id) (
    field "image_id" (str m.image_id) (
      field "name" (str m.name) (
        field "port_mappings" (list m.port_mappings) (
          field "environment_vars" (or_null dict m.environment_variables) (
            field "cpu_limit" (or_null str m.cpu_limit) (
              field "memory_limit" (or_null str m.memory_limit)
                (field "storage_limit" (or_null str m.storage_limit) end)))))))

pub record UpdateContainerDbFilters : Type 0 where
  pub id : Option String
  pub user_id : Option String
  pub kubernetes_id : Option String
  pub name : Option String

pub record UpdateContainerDbData : Type 0 where
  pub image_id : Option String
  pub name : Option String
  pub status : Option String
  pub cpu_limit : Option String
  pub memory_limit : Option String
  pub storage_limit : Option String
  pub ip_address : Option String
  pub port_mappings : Option Items
  pub environment_vars : Option Fields
  pub associated_resources : Option Items
  pub kubernetes_id : Option String
  pub saved_image : Option String

-- One field of `model_dump(exclude_none=True)`.
abbrev pub unless_none : {A : Type 0} → String → (A → Value) → Option A → Fields → Fields
unless_none k f none rest = rest
unless_none k f (some a) rest = field k (f a) rest

unfoldable pub to_update_dict : UpdateContainerDbData → Fields
to_update_dict d = unless_none "image_id" str d.image_id (
    unless_none "name" str d.name (
      unless_none "status" str d.status (
        unless_none "cpu_limit" str d.cpu_limit (
          unless_none "memory_limit" str d.memory_limit (
            unless_none "storage_limit" str d.storage_limit (
              unless_none "ip_address" str d.ip_address (
                unless_none "port_mappings" list d.port_mappings (
                  unless_none "environment_vars" dict d.environment_vars (
                    unless_none "associated_resources" list d.associated_resources (
                      unless_none "kubernetes_id" str d.kubernetes_id
                        (unless_none "saved_image" str d.saved_image end)))))))))))

unfoldable pub to_filter_dict : UpdateContainerDbFilters → Fields
to_filter_dict f = unless_none "id" str f.id (
    unless_none "user_id" str f.user_id
      (unless_none "kubernetes_id" str f.kubernetes_id (unless_none "name" str f.name end)))

pub record UpdateContainerDbModel : Type 0 where
  pub filters : UpdateContainerDbFilters
  pub updates : UpdateContainerDbData

pub record GetContainerDbModel : Type 0 where
  pub container_id : String
  pub user_id : String

unfoldable pub get_container_db_model :
    Pydantic → (container_id user_id : Value) → Option GetContainerDbModel
get_container_db_model p container_id user_id = do
  c ← p.str_field container_id
  u ← p.str_field user_id
  some (record { container_id = c; user_id = u })

pub record ListContainersDbModel : Type 0 where
  pub user_id : String
  pub limit : Option ℤ
  pub offset : Option ℤ

pub record GetImageDataModel : Type 0 where
  pub id : Option String
  pub name : Option String
  pub image : Option String

-- `bool(o)` of an optional text.
abbrev pub given : Option String → Bool
given none = Bool.false
given (some s) = not (s == "")

-- `validate_at_least_one`
unfoldable pub get_image_data_model : (id name image : Option String) → Option GetImageDataModel
get_image_data_model id name image =
    if given id || given name || given image
    then some (record { id = id; name = name; image = image })
    else none
