-- ===== src/Cloud/Rows/Ends.antt =====
-- Reading and updating a row ends, whatever Cloud answers.
use browseterm_server_local.Prelude.{String, Option}
use browseterm_server_local.Python.Value.{Value, Fields}
use browseterm_server_local.Python.Error.{Error, cloud_client_error}
use browseterm_server_local.World.Messages.{HttpMethod}
use browseterm_server_local.World.Events.{Env}
use browseterm_server_local.World.Halts.{Halts, halts_rules}
use browseterm_server_local.Cloud.Client
use browseterm_server_local.Cloud.Rows

module _ (e : Env) where
  pub Halts-request :
      (method : HttpMethod) (path : String) (json_body : Option Value) (params : Option Fields)
      → Halts e (Client.request method path json_body params)
  unfolding Client.request
  Halts-request method path json_body params = search halts_rules depth 20

  pub Halts-on_not_found :
      {A : Type 0} (missing : A) (x : Error) → Halts e (Client.on_not_found missing x)
  unfolding Client.on_not_found
  Halts-on_not_found missing (cloud_client_error code message) = search halts_rules
  Halts-on_not_found missing x = search halts_rules

  pub Halts-database_failed : {A : Type 0} (x : Error) → Halts e (Rows.database_failed {A = A} x)
  unfolding Rows.database_failed
  Halts-database_failed (cloud_client_error code message) = search halts_rules
  Halts-database_failed x = search halts_rules

  pub Halts-get_container_by_id : (c u : Value) → Halts e (Rows.get_container_by_id c u)
  unfolding Rows.get_container_by_id Rows.get_container Client.get_container
  Halts-get_container_by_id c u =
      search (halts_rules, Halts-request, Halts-on_not_found, Halts-database_failed) depth 20

  pub Halts-update_container_fields :
      (c u : Value) (fields : Fields) → Halts e (Rows.update_container_fields c u fields)
  unfolding Rows.update_container_fields Client.update_container
  Halts-update_container_fields c u fields =
      search (halts_rules, Halts-request, Halts-on_not_found, Halts-database_failed) depth 20

  pub Halts-hibernate_container : (c : Value) → Halts e (Client.hibernate_container c)
  unfolding Client.hibernate_container
  Halts-hibernate_container c = search (halts_rules, Halts-request) depth 20
