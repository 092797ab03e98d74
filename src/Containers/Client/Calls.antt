-- ===== src/Containers/Client/Calls.antt =====
-- Opening the channel to container-maker calls the Kubernetes API alone.
use browseterm_server_local.Prelude.{String, Option, none, some, ◌∷◌, refl}
use browseterm_server_local.Python.Value.{Value}
use browseterm_server_local.World.Events.{Log, Env, read_secret}
use browseterm_server_local.World.Rules.{
  Keeps, OnLog, Keeps-pure, Keeps-lift, Keeps-gets, Keeps-asks, Keeps-bind, Keeps-perform,
  Keeps-modify, Keeps-when,
}
use browseterm_server_local.Containers.Client

module _ (e : Env) (L : Log → Type 0) where
  -- The invariant allows reading secrets.
  abbrev pub AllowsSecrets : Type 0
  AllowsSecrets = (name namespace : String) (l : Log) → L l → L (read_secret name namespace ∷ l)

  module _ (allowed : AllowsSecrets) where
    Keeps-fetch :
        (name namespace : String) (o : Option Value)
        → Keeps e (OnLog L) (Client.fetch name namespace o)
    unfolding Client.fetch
    Keeps-fetch name namespace (some v) = Keeps-pure v
    Keeps-fetch name namespace none =
        Keeps-bind _ _ (Keeps-perform _ _ (allowed name namespace))
          (λ v. Keeps-bind _ _ (Keeps-modify L _ (λ w. refl)) (λ _. Keeps-pure v))

    pub Keeps-read_cert :
        (name namespace key : String)
        → Keeps e (OnLog L) (Client.read_cert_from_k8s_secret name namespace key)
    unfolding Client.read_cert_from_k8s_secret
    Keeps-read_cert name namespace key = Keeps-bind _ _ (Keeps-gets _) λ found.
        Keeps-bind _ _ (Keeps-fetch name namespace found) λ secret_data.
          Keeps-bind _ _ (Keeps-lift _)
            λ datum. Keeps-bind _ _ (Keeps-asks _) λ cert. Keeps-lift cert

    Keeps-connect : Keeps e (OnLog L) Client.connect
    unfolding Client.connect
    Keeps-connect = Keeps-bind _ _ (Keeps-asks _) λ c. Keeps-bind _ _ (Keeps-read_cert _ _ _) λ key.
        Keeps-bind _ _ (Keeps-read_cert _ _ _) λ cert.
          Keeps-bind _ _ (Keeps-read_cert _ _ _)
            λ ca. Keeps-bind _ _ (Keeps-lift _) λ _. Keeps-modify L _ (λ w. refl)

    pub Keeps-ensure_grpc_client : Keeps e (OnLog L) Client.ensure_grpc_client
    unfolding Client.ensure_grpc_client
    Keeps-ensure_grpc_client =
        Keeps-bind _ _ (Keeps-gets _)
          λ connected. Keeps-when connected _ _ (λ _. Keeps-pure tt) (λ _. Keeps-connect)

  pub Keeps-container_service : Keeps e (OnLog L) Client.container_service
  unfolding Client.container_service
  Keeps-container_service = Keeps-modify L _ (λ w. refl)
