-- ===== src/Handlers/Save.antt =====
-- Saving a container: `_set_save_status`, `_run_save` and `save_container` of src/api_handlers.py.
pub mod Ownership
pub mod Ends
use browseterm_server_local.Prelude.{String, Bool, true, false, [], ◌∷◌, if◌then◌else◌}
use browseterm_server_local.Python.Strings.{take}
use browseterm_server_local.Python.Value.{Value, null, str, dict, Fields, end, field, truthy}
use browseterm_server_local.Python.Error.{Error, get_item}
use browseterm_server_local.World.Events.{utc_now, start_task, SaveTask}
use browseterm_server_local.World.Action.{
  when◌then◌else◌, Action, ok, pure, lift, asks, gets, perform, ◌>>=◌, ◌>>◌, try_except, text_of,
  validated,
}
use browseterm_server_local.Cloud.Rows.{get_container_by_id, update_container_fields}
use browseterm_server_local.Web.{Request, State, Response, json_response, error_response, not_found}
use browseterm_server_local.Auth.Session.{authenticate_session}
use browseterm_server_local.Containers.Client.{container_service}
use browseterm_server_local.Containers.Models
use browseterm_server_local.Containers.Models.{SaveContainerK8SRequest}
use browseterm_server_local.Containers.Service
use browseterm_server_local.Handlers.Pods.{namespace_of}

-- `stamp_attempt`: the time at which this attempt starts.
stamp : Bool → Action Fields
stamp false = pure end
stamp true = do
  now ← perform (λ e log. ok (e.utc_time log)) utc_now
  pure (field "last_save_attempted_at" (str now) end)

unfoldable pub set_save_status :
    (container_id user_id : Value) (save_status : String) (save_error : Value)
    → (stamp_attempt : Bool) → Action Unit
unfolding stamp update_container_fields
set_save_status container_id user_id save_status save_error stamp_attempt = do
  request_id ← gets (λ w. w.request_id)
  attempt ← stamp stamp_attempt
  update_container_fields container_id user_id (
      field "save_status" (str save_status)
        (field "save_error" save_error (field "last_request_id" (str request_id) attempt)))
  pure tt

record_failure : SaveTask → Error → Action Unit
unfolding set_save_status take
record_failure task x =
    try_except
      (do
        t ← text_of x
        failed ← asks (λ e. e.statuses.save_failed)
        set_save_status task.container_id task.user_id failed (str (take 1000 t)) false)
      (λ y. pure tt)

-- `_run_save`, as the background task of a `SaveTask`.
unfoldable pub run_save : SaveTask → Action Unit
unfolding Service.save_container_in_k8s record_failure
run_save task =
    try_except
      (Service.save_container_in_k8s (record {
        container_id = task.request.container_id;
        network_name = task.request.network_name;
      }))
      (record_failure task)

unfoldable pub save_request :
    (container_id : Value) (network_name : String) → Action SaveContainerK8SRequest
unfolding Models.save_container_k8s_request validated
save_request container_id network_name = do
  o ← asks (λ e. Models.save_container_k8s_request e.pydantic container_id network_name)
  validated "SaveContainerK8SRequest" (container_id ∷ []) o

-- `save_container` behind its decorator.
unfoldable pub start_save : Request → State → Action Response
unfolding get_item get_container_by_id truthy set_save_status namespace_of save_request
    container_service json_response error_response not_found Service.save_key
start_save request st =
    try_except
      (do
        body ← lift request.body
        container_id ← lift (get_item body "container_id")
        user_id ← lift (get_item st.user_info "id")
        owned_row ← get_container_by_id container_id user_id
        (when truthy owned_row
            then (do
              pending ← asks (λ e. e.statuses.save_pending)
              set_save_status container_id user_id pending null true
              network_name ← namespace_of user_id
              r ← save_request container_id network_name
              container_service
              perform (λ e log. ok tt)
                  (start_task (record {
                    request = Service.save_key r;
                    container_id = container_id;
                    user_id = user_id;
                  }))
              pure (
                  json_response
                    (dict (field "status" (str "pending") (field "container_id" container_id end)))
                    202))
            else not_found container_id))
      (error_response "Error starting container save: ")

unfoldable pub save_container : Request → Action Response
unfolding authenticate_session start_save
save_container request = authenticate_session (start_save request) request
