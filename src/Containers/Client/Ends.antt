-- ===== src/Containers/Client/Ends.antt =====
-- Opening the channel ends.
use browseterm_server_local.Prelude.{String, Option, none, some}
use browseterm_server_local.Python.Value.{Value}
use browseterm_server_local.World.Events.{Env}
use browseterm_server_local.World.Halts.{Halts, halts_rules, Halts-pure}
use browseterm_server_local.Containers.Client

module _ (e : Env) where
  Halts-fetch :
      (name namespace : String) (o : Option Value) → Halts e (Client.fetch name namespace o)
  unfolding Client.fetch
  Halts-fetch name namespace (some v) = Halts-pure v
  Halts-fetch name namespace none = search halts_rules depth 20

  Halts-read_cert :
      (name namespace key : String) → Halts e (Client.read_cert_from_k8s_secret name namespace key)
  unfolding Client.read_cert_from_k8s_secret
  Halts-read_cert name namespace key = search (halts_rules, Halts-fetch) depth 20

  pub Halts-ensure_grpc_client : Halts e Client.ensure_grpc_client
  unfolding Client.ensure_grpc_client Client.connect
  Halts-ensure_grpc_client = search (halts_rules, Halts-read_cert) depth 30

  pub Halts-container_service : Halts e Client.container_service
  unfolding Client.container_service
  Halts-container_service = search halts_rules
