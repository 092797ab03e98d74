-- ===== src/Containers/Models.antt =====
-- src/data_models/containers.py: the requests of the handlers to `ContainerService`.
use browseterm_server_local.Prelude.{String, Option, some}
use browseterm_server_local.Python.Text.{ℤ}
use browseterm_server_local.Python.Value.{Value, Items, Fields}
use browseterm_server_local.Python.Validate.{◌>>=◌, optional}
use browseterm_server_local.World.Events.{Pydantic}

pub record ResourceLimits : Type 0 where
  pub cpu_limit : String
  pub memory_limit : String
  pub storage_limit : String
  pub snapshot_size_limit : String

pub record CreateContainerDbRequest : Type 0 where
  pub user_id : String
  pub image_id : String
  pub container_name : String
  pub cpu_limit : String
  pub memory_limit : String
  pub storage_limit : String
  pub publish_information : Items
  pub environment_variables : Option Fields

pub record CreateContainerK8SRequest : Type 0 where
  pub image_id : String
  pub container_name : String
  pub network_name : String
  pub exposure_level : ℤ
  pub publish_information : Items
  pub environment_variables : Option Fields
  pub resource_limits : ResourceLimits

pub record UpdateContainerFilters : Type 0 where
  pub container_id : Option String
  pub user_id : Option String
  pub kubernetes_id : Option String
  pub name : Option String

pub record UpdateContainerData : Type 0 where
  pub image_id : Option String
  pub name : Option String
  pub status : Option String
  pub cpu_limit : Option String
  pub memory_limit : Option String
  pub storage_limit : Option String
  pub ip_address : Option String
  pub port_mappings : Option Items
  pub environment_vars : Option Fields
  pub associated_resources : Option Items
  pub kubernetes_id : Option String
  pub saved_image : Option String

pub record UpdateContainerRequest : Type 0 where
  pub filters : UpdateContainerFilters
  pub updates : UpdateContainerData

pub record GetContainerRequest : Type 0 where
  pub container_id : String
  pub user_id : String

pub record ListUserContainersRequest : Type 0 where
  pub user_id : String
  pub limit : Option ℤ
  pub offset : Option ℤ

pub record DeleteContainerDbRequest : Type 0 where
  pub container_id : String
  pub user_id : String

pub record DeleteContainerK8SRequest : Type 0 where
  pub container_id : String
  pub network_name : String

pub record SaveContainerK8SRequest : Type 0 where
  pub container_id : String
  pub network_name : String

-- The models' constructors: each field of the arguments as the model declares it.
module _ (p : Pydantic) where
  unfoldable pub resource_limits : (cpu memory storage snapshot : Value) → Option ResourceLimits
  resource_limits cpu memory storage snapshot = do
    c ← p.str_field cpu
    m ← p.str_field memory
    s ← p.str_field storage
    n ← p.str_field snapshot
    some (record { cpu_limit = c; memory_limit = m; storage_limit = s; snapshot_size_limit = n })

  unfoldable pub create_container_db_request :
      (user_id image_id container_name cpu_limit memory_limit storage_limit : Value)
      → (publish_information environment_variables : Value) → Option CreateContainerDbRequest
  unfolding optional
  create_container_db_request user_id image_id container_name cpu memory storage publish env_vars =
      do
        u ← p.str_field user_id
        i ← p.str_field image_id
        n ← p.str_field container_name
        c ← p.str_field cpu
        m ← p.str_field memory
        s ← p.str_field storage
        ports ← p.dict_list_field publish
        env ← optional p.dict_field env_vars
        some (record {
          user_id = u;
          image_id = i;
          container_name = n;
          cpu_limit = c;
          memory_limit = m;
          storage_limit = s;
          publish_information = ports;
          environment_variables = env;
        })

  unfoldable pub create_container_k8s_request :
      (image_id container_name : Value) (network_name : String)
      → (exposure_level publish_information : Value) (environment_variables : Fields)
      → ResourceLimits
      → Option CreateContainerK8SRequest
  create_container_k8s_request image_id name network exposure publish env_vars limits = do
    i ← p.str_field image_id
    n ← p.str_field name
    level ← p.int_field exposure
    ports ← p.dict_list_field publish
    some (record {
      image_id = i;
      container_name = n;
      network_name = network;
      exposure_level = level;
      publish_information = ports;
      environment_variables = some env_vars;
      resource_limits = limits;
    })

  unfoldable pub update_container_filters :
      (container_id user_id kubernetes_id name : Value) → Option UpdateContainerFilters
  unfolding optional
  update_container_filters container_id user_id kubernetes_id name = do
    c ← optional p.str_field container_id
    u ← optional p.str_field user_id
    k ← optional p.str_field kubernetes_id
    n ← optional p.str_field name
    some (record { container_id = c; user_id = u; kubernetes_id = k; name = n })

  -- `at k` is the value given for the field `k`.
  unfoldable pub update_container_data : (at : String → Value) → Option UpdateContainerData
  unfolding optional
  update_container_data at = do
    image_id ← optional p.str_field (at "image_id")
    name ← optional p.str_field (at "name")
    status ← optional p.str_field (at "status")
    cpu ← optional p.str_field (at "cpu_limit")
    memory ← optional p.str_field (at "memory_limit")
    storage ← optional p.str_field (at "storage_limit")
    ip_address ← optional p.str_field (at "ip_address")
    ports ← optional p.dict_list_field (at "port_mappings")
    env_vars ← optional p.dict_field (at "environment_vars")
    resources ← optional p.dict_list_field (at "associated_resources")
    kubernetes_id ← optional p.str_field (at "kubernetes_id")
    saved_image ← optional p.str_field (at "saved_image")
    some (record {
      image_id = image_id;
      name = name;
      status = status;
      cpu_limit = cpu;
      memory_limit = memory;
      storage_limit = storage;
      ip_address = ip_address;
      port_mappings = ports;
      environment_vars = env_vars;
      associated_resources = resources;
      kubernetes_id = kubernetes_id;
      saved_image = saved_image;
    })

  unfoldable pub get_container_request : (container_id user_id : Value) → Option GetContainerRequest
  get_container_request container_id user_id = do
    c ← p.str_field container_id
    u ← p.str_field user_id
    some (record { container_id = c; user_id = u })

  unfoldable pub list_user_containers_request :
      Value → (limit offset : Option ℤ) → Option ListUserContainersRequest
  list_user_containers_request user_id limit offset = do
    u ← p.str_field user_id
    some (record { user_id = u; limit = limit; offset = offset })

  unfoldable pub delete_container_db_request :
      (container_id user_id : Value) → Option DeleteContainerDbRequest
  delete_container_db_request container_id user_id = do
    c ← p.str_field container_id
    u ← p.str_field user_id
    some (record { container_id = c; user_id = u })

  unfoldable pub delete_container_k8s_request :
      (container_id : Value) (network_name : String) → Option DeleteContainerK8SRequest
  delete_container_k8s_request container_id network_name = do
    c ← p.str_field container_id
    some (record { container_id = c; network_name = network_name })

  unfoldable pub save_container_k8s_request :
      (container_id : Value) (network_name : String) → Option SaveContainerK8SRequest
  save_container_k8s_request container_id network_name = do
    c ← p.str_field container_id
    some (record { container_id = c; network_name = network_name })
