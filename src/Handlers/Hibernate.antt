-- ===== src/Handlers/Hibernate.antt =====
-- `hibernate_container` of src/api_handlers.py: save, wait for the confirmed save, delete the pod,
-- then Cloud's transition.
pub mod Ownership
pub mod Ends
pub mod Confirmed
pub mod Deletes
use browseterm_server_local.Prelude.{
  ℕ, zero, suc, ◌+◌, ◌*◌, String, ◌<>◌, ◌==◌, Bool, true, false, ◌||◌, [], ◌∷◌, ltb, if◌then◌else◌,
}
use browseterm_server_local.Python.Value.{Value, null, str, dict, end, field, truthy, or_else}
use browseterm_server_local.Python.Error.{Reply, get_item, get}
use browseterm_server_local.World.Events.{Statuses, monotonic, sleep}
use browseterm_server_local.World.Action.{
  when◌then◌else◌, Action, ok, pure, hang, lift, asks, perform, ◌>>=◌, ◌>>◌, try_except,
  format_value, validated,
}
use browseterm_server_local.Cloud.Client
use browseterm_server_local.Cloud.Rows.{get_container_by_id}
use browseterm_server_local.Web.{
  Request, State, Response, json_response, error_content, error_response, not_found,
}
use browseterm_server_local.Auth.Session.{authenticate_session}
use browseterm_server_local.Containers.Client.{container_service}
use browseterm_server_local.Containers.Models
use browseterm_server_local.Containers.Service
use browseterm_server_local.Handlers.Pods.{namespace_of}
use browseterm_server_local.Handlers.Save.{set_save_status, save_request}

-- `monotonic_time` and `sleep` count nanoseconds.
abbrev pub seconds : ℕ → ℕ
seconds n = n * 1000000000

abbrev pub save_wait_timeout : ℕ
save_wait_timeout = seconds 300

abbrev pub save_poll_interval : ℕ
save_poll_interval = seconds 3

-- The rounds that the loop may take: one for each interval of the wait, and the one that ends it.
abbrev pub poll_fuel : ℕ
poll_fuel = 101

-- `v == s` for a text `s`.
unfoldable pub is_text : String → Value → Bool
is_text s (str t) = t == s
is_text s v = false

-- `save_status in (SUCCEEDED, FAILED)`
unfoldable pub is_final : Statuses → Value → Bool
unfolding is_text
is_final s v = is_text s.save_succeeded v || is_text s.save_failed v

-- `current.get('save_status') if current else None`
unfoldable pub status_of : Value → Reply Value
unfolding truthy get
status_of row = if truthy row then get row "save_status" null else Reply.returned null

unfoldable pub read_status : (container_id user_id : Value) → Action Value
unfolding get_container_by_id status_of
read_status container_id user_id = do
  current ← get_container_by_id container_id user_id
  lift (status_of current)

unfoldable pub now : Action ℕ
now = perform (λ e log. ok (e.monotonic_time log)) monotonic

unfoldable pub wait : Action Unit
wait = perform (λ e log. ok tt) (sleep save_poll_interval)

-- The loop, on its rounds left: the last status that was read, `null` before any.
unfoldable pub poll : ℕ → (deadline : ℕ) (container_id user_id save_status : Value) → Action Value
unfolding now read_status is_final wait
poll zero deadline container_id user_id save_status = hang
poll (suc fuel) deadline container_id user_id save_status = do
  t ← now
  (when ltb t deadline
      then (do
        status ← read_status container_id user_id
        final ← asks (λ e. is_final e.statuses status)
        (when final
            then pure status
            else (do wait; poll fuel deadline container_id user_id status)))
      else pure save_status)

unfoldable pub await_save : (container_id user_id : Value) → Action Value
unfolding now poll
await_save container_id user_id = do
  start ← now
  poll poll_fuel (start + save_wait_timeout) container_id user_id null

not_saved : Value → Action Response
unfolding json_response error_content format_value or_else
not_saved save_status = do
  s ← format_value (or_else save_status (str "timed out"))
  pure (
      json_response
        (error_content (
          str (
            "Could not hibernate: the snapshot did not complete successfully (save_status=" <> s
            <> "). The terminal was left running.")))
        502)

-- 1: the save is triggered.
unfoldable pub trigger_save : (container_id user_id : Value) (network_name : String) → Action Unit
unfolding set_save_status save_request Service.save_container_in_k8s
trigger_save container_id user_id network_name = do
  pending ← asks (λ e. e.statuses.save_pending)
  set_save_status container_id user_id pending null true
  r ← save_request container_id network_name
  Service.save_container_in_k8s r

-- 3 and 4: the pod is deleted, and Cloud makes its transition.
unfoldable pub put_to_sleep :
    (container_id user_id : Value) (network_name : String) → Action Response
unfolding Models.delete_container_k8s_request validated Service.delete_container_in_k8s
    Client.hibernate_container get_container_by_id json_response
put_to_sleep container_id user_id network_name = do
  o ← asks (λ e. Models.delete_container_k8s_request e.pydantic container_id network_name)
  r ← validated "DeleteContainerK8SRequest" (container_id ∷ []) o
  Service.delete_container_in_k8s r
  Client.hibernate_container container_id
  updated ← get_container_by_id container_id user_id
  pure
      (json_response (dict (field "status" (str "hibernated") (field "container" updated end))) 200)

-- From the checks on.
unfoldable pub save_and_sleep : (container_id user_id : Value) → Action Response
unfolding namespace_of container_service trigger_save await_save is_text not_saved put_to_sleep
save_and_sleep container_id user_id = do
  network_name ← namespace_of user_id
  container_service
  trigger_save container_id user_id network_name
  save_status ← await_save container_id user_id
  succeeded ← asks (λ e. is_text e.statuses.save_succeeded save_status)
  (when succeeded then put_to_sleep container_id user_id network_name else not_saved save_status)

conflict : String → Response
unfolding json_response error_content
conflict words = json_response (error_content (str words)) 409

unfoldable pub hibernate_row : (row container_id user_id : Value) → Action Response
unfolding get_item is_text get truthy save_and_sleep conflict
hibernate_row row container_id user_id = do
  status ← lift (get_item row "status")
  running ← asks (λ e. is_text e.statuses.running status)
  (when running
      then (do
        kubernetes_id ← lift (get row "kubernetes_id" null)
        (when truthy kubernetes_id
            then save_and_sleep container_id user_id
            else pure (conflict "Terminal has no active pod to hibernate")))
      else pure (conflict "Only a running terminal can be hibernated"))

-- `hibernate_container` behind its decorator.
unfoldable pub hibernate : Request → State → Action Response
unfolding get_item get_container_by_id truthy hibernate_row not_found error_response
hibernate request st =
    try_except
      (do
        body ← lift request.body
        container_id ← lift (get_item body "container_id")
        user_id ← lift (get_item st.user_info "id")
        row ← get_container_by_id container_id user_id
        (when truthy row then hibernate_row row container_id user_id else not_found container_id))
      (error_response "Error hibernating container: ")

unfoldable pub hibernate_container : Request → Action Response
unfolding authenticate_session hibernate
hibernate_container request = authenticate_session (hibernate request) request
