-- ===== src/Containers/Client.antt =====
-- The way to container-maker: src/common/k8s_secrets.py with its cache, and `_ensure_grpc_client` of
-- src/containers/containers_service.py, which opens the channel at the first call that needs it.
pub mod Calls
pub mod Ends
use browseterm_server_local.Prelude.{
  String, ◌<>◌, ◌==◌, true, false, ◌&&◌, Option, none, some, List, [], ◌∷◌, if◌then◌else◌,
}
use browseterm_server_local.Python.Strings.{is_empty}
use browseterm_server_local.Python.Value.{Value, dict, find, class_name}
use browseterm_server_local.Python.Error.{
  key_error, type_error, value_error, Reply, returned, raised,
}
use browseterm_server_local.World.Events.{read_secret}
use browseterm_server_local.World.Action.{
  when◌then◌else◌, Action, of_reply, pure, lift, asks, gets, perform, modify, ◌>>=◌, ◌>>◌,
}

unfoldable pub cached : String → List (String × Value) → Option Value
cached k [] = none
cached k ((j, v) ∷ c) = if j == k then some v else cached k c

-- The secret's `data`, from the cache or from the Kubernetes API.
fetch : (secret_name namespace : String) → Option Value → Action Value
fetch name namespace (some v) = pure v
fetch name namespace none = do
  v ← perform (λ e log. of_reply (e.on_secret log name namespace)) (read_secret name namespace)
  modify (λ w. record w { secrets = (namespace <> "/" <> name, v) ∷ w.secrets })
  pure v

-- `if key not in secret_data: raise KeyError(...)`
secret_item : (secret_name key : String) → Value → Reply Value
secret_item name key (dict d) = elim (find key d) [
  | none ↦ raised (key_error ("\"Key '" <> key <> "' not found in secret '" <> name <> "'\""))
  | some v ↦ returned v
]
secret_item name key v =
    raised (type_error ("argument of type '" <> class_name v <> "' is not iterable"))

unfoldable pub read_cert_from_k8s_secret : (secret_name namespace key : String) → Action String
unfolding cached fetch secret_item find class_name
read_cert_from_k8s_secret name namespace key = do
  found ← gets (λ w. cached (namespace <> "/" <> name) w.secrets)
  secret_data ← fetch name namespace found
  datum ← lift (secret_item name key secret_data)
  cert ← asks (λ e. e.b64decode datum)
  lift cert

-- `GRPCUtils.channel`, for a secure channel: some part of the credentials must be there.
unfoldable pub check_credentials : (client_key client_cert ca_cert : String) → Reply Unit
check_credentials key cert ca =
    if is_empty key && is_empty cert && is_empty ca
    then raised
        (value_error "Client key, client cert, and CA cert must be provided if secure is True")
    else returned tt

connect : Action Unit
unfolding read_cert_from_k8s_secret check_credentials
connect = do
  c ← asks (λ e. e.config)
  key ← read_cert_from_k8s_secret c.container_maker_certs_secret_name c.namespace "client.key"
  cert ← read_cert_from_k8s_secret c.container_maker_certs_secret_name c.namespace "client.crt"
  ca ← read_cert_from_k8s_secret c.container_maker_certs_secret_name c.namespace "ca.crt"
  lift (check_credentials key cert ca)
  modify (λ w. record w { connected = true })

unfoldable pub ensure_grpc_client : Action Unit
unfolding connect
ensure_grpc_client = do
  connected ← gets (λ w. w.connected)
  (when connected then pure tt else connect)

-- `ContainerService()`: a new instance has no stub.
unfoldable pub container_service : Action Unit
container_service = modify (λ w. record w { connected = false })
