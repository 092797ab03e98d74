-- ===== src/Handlers/Save/Ends.antt =====
-- Recording the save status and building the request to save end.
use browseterm_server_local.Prelude.{String, Bool, true, false}
use browseterm_server_local.Python.Value.{Value}
use browseterm_server_local.World.Events.{Env}
use browseterm_server_local.World.Halts.{Halts, halts_rules}
use browseterm_server_local.Cloud.Rows.Ends.{Halts-update_container_fields}
use browseterm_server_local.Handlers.Save

module _ (e : Env) where
  Halts-stamp : (b : Bool) → Halts e (Save.stamp b)
  unfolding Save.stamp
  Halts-stamp true = search halts_rules
  Halts-stamp false = search halts_rules

  pub Halts-set_save_status :
      (c u : Value) (status : String) (save_error : Value) (b : Bool)
      → Halts e (Save.set_save_status c u status save_error b)
  unfolding Save.set_save_status
  Halts-set_save_status c u status save_error b =
      search (halts_rules, Halts-stamp, Halts-update_container_fields) depth 20

  pub Halts-save_request : (v : Value) (network : String) → Halts e (Save.save_request v network)
  unfolding Save.save_request
  Halts-save_request v network = search halts_rules
