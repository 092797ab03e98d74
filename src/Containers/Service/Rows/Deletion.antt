-- ===== src/Containers/Service/Rows/Deletion.antt =====
-- `ContainerService.delete_container_in_db` makes one request.

use browseterm_server_local.Python.Error.{Error, container_db_exception, value_error}
use browseterm_server_local.World.Events.{Env, Log}
use browseterm_server_local.World.Rules.{Keeps-pure}
use browseterm_server_local.World.Trace.{Runs, Runs-bind, Runs-keeps, Runs-try_except}
use browseterm_server_local.World.Halts.{Halts, halts_rules}
use browseterm_server_local.Cloud.Rows.Deletion.{
  Before, After, Runs-delete_container, Halts-delete_container,
}
use browseterm_server_local.Containers.Models.{DeleteContainerDbRequest}
use browseterm_server_local.Containers.Service.Rows
use browseterm_server_local.Containers.Service.Rows.Calls.{Keeps-deletion_failed}

module _ (e : Env) (r : DeleteContainerDbRequest) (l : Log) where
  pub Runs-delete_container_in_db :
      Runs e
        (Before e r.container_id r.user_id l)
        (Rows.delete_container_in_db r)
        (λ v w. After e r.container_id r.user_id l w)
        (After e r.container_id r.user_id l)
  unfolding Rows.delete_container_in_db
  Runs-delete_container_in_db =
      Runs-try_except _ _
        (Runs-bind {Q = λ v w. After e r.container_id r.user_id l w} _ _
          (Runs-delete_container e r.container_id r.user_id l)
          (λ deleted. Runs-keeps _ (Keeps-pure _)))
        (λ x. Runs-keeps _ (Keeps-deletion_failed e _ x))

pub Halts-delete_container_in_db :
    (e : Env) (r : DeleteContainerDbRequest) → Halts e (Rows.delete_container_in_db r)
unfolding Rows.delete_container_in_db Rows.deletion_failed Rows.server_error
Halts-delete_container_in_db e r = search (halts_rules, Halts-delete_container, failed) depth 20
  where
    failed : (x : Error) → Halts e (Rows.deletion_failed x)
    failed (container_db_exception s) = search halts_rules
    failed (value_error s) = search halts_rules
    failed x = search halts_rules
