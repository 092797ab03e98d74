-- ===== src/Handlers/Rows/Activity.antt =====
-- The calls of `container_activity`.
use browseterm_server_local.Prelude.{String, ◌<>◌, ◌==◌, ◌≡◌, refl, ap, false, none, some, ◌∷◌}
use browseterm_server_local.Python.Value.{
  Value, null, dict, str, Fields, field, end, insert, truthy, find,
}
use browseterm_server_local.Python.Error.{Reply, returned, raised, get_item, get}
use browseterm_server_local.Python.Text.Digits.{append_nonempty, not_empty}
use browseterm_server_local.World.Messages.{post_method, HttpRequest}
use browseterm_server_local.World.Events.{Env, Log, http, utc_now}
use browseterm_server_local.World.Action
use browseterm_server_local.World.Action.{
  World, ◌>>=◌, ◌>>◌, perform, pure, raise, when◌then◌else◌, lift, try_except,
}
use browseterm_server_local.World.Rules.{Keeps-lift}
use browseterm_server_local.World.Trace.{Post, Runs, Runs-bind, Runs-try_except, Runs-keeps}
use browseterm_server_local.Cloud.Client
use browseterm_server_local.Cloud.Client.{answer}
use browseterm_server_local.Cloud.Client.Calls as ClientCalls
use browseterm_server_local.Cloud.Rows
use browseterm_server_local.Cloud.Rows.Calls.{Keeps-database_failed}
use browseterm_server_local.Cloud.Rows.Registry.{Op, request_of, update_at_delete}
use browseterm_server_local.Web.{Request, State, json_response}
use browseterm_server_local.Handlers.Rows.Ownership.{Keeps-activity_failed}
use browseterm_server_local.Handlers.Rows as Routes

module _ (e : Env) (c u : String) (fields : Fields) (l : Log) where
  abbrev Before : World → Type 0
  Before w = w.log ≡ l

  abbrev After : World → Type 0
  After w = w.log ≡ http (request_of e (Op.update c u fields)) ∷ l

  -- The update's request is its one call, whatever Cloud answers.
  Runs-request :
      Runs e Before
        (Client.request post_method
          ("/containers/" <> c)
          (some (dict (insert "user_id" (str u) fields)))
          none)
        (λ a w. After w)
        After
  unfolding Client.request ◌>>=◌
  Runs-request = record {
    at = λ w same. by_reply w (answer (e.on_http w.log (request_of e (Op.update c u fields)))) same;
  }
    where
      by_reply :
          (w : World) (r : Reply Value)
          → Before w
          → Post
              (λ a w'. After w')
              After
              (Action.of_reply r)
              (record w { log = http (request_of e (Op.update c u fields)) ∷ w.log })
      by_reply w (returned v) same = ap (λ l'. http (request_of e (Op.update c u fields)) ∷ l') same
      by_reply w (raised x) same = ap (λ l'. http (request_of e (Op.update c u fields)) ∷ l') same

  abbrev AfterLog : Log → Type 0
  AfterLog l' = l' ≡ http (request_of e (Op.update c u fields)) ∷ l

  Runs-update_container_fields :
      Runs e Before (Rows.update_container_fields (str c) (str u) fields) (λ a w. After w) After
  unfolding Rows.update_container_fields Client.update_container Action.format_value ◌>>=◌
  Runs-update_container_fields =
      Runs-try_except _ _
        (Runs-try_except _ _
          (record { at = (Runs-bind _ _ Runs-request (λ v. Runs-keeps _ (Keeps-lift _))).at })
          (λ x. Runs-keeps _ (ClientCalls.Keeps-on_not_found e AfterLog null x)))
        (λ x. Runs-keeps _ (Keeps-database_failed e AfterLog x))

always :
    (X : World → Type 0) (o : Action.Outcome Value) (w : World) → Post (λ a w'. X w') X o w → X w
always X (Action.ok v) w h = h
always X (Action.err x) w h = h
always X Action.hanging w h = h

-- What `container_activity` asks Cloud for.
abbrev pub activity_request : Env → (c u : String) → Log → HttpRequest
activity_request e c u l =
    request_of e (Op.update c u (field "last_active_at" (str (e.utc_time l)) end))

module _ (e : Env) (c u : String) (request : Request) (st : State)
    (asked : request.body ≡ returned (dict (field "container_id" (str c) end)))
    (given : (c == "") ≡ false) (user : get_item st.user_info "id" ≡ returned (str u)) where
  -- What follows the update makes no call.
  abbrev finished : Action.Outcome Value → World → Log
  finished o w =
      (Action.handle
        (Action.continue o (λ v. pure (json_response (dict (field "status" (str "ok") end)) 200)) e
          w).0
        Routes.activity_failed e
        (Action.continue o (λ v. pure (json_response (dict (field "status" (str "ok") end)) 200)) e
          w).1).1.log

  finished_lem : (o : Action.Outcome Value) (w : World) (l : Log) → w.log ≡ l → finished o w ≡ l
  unfolding pure
  finished_lem (Action.ok v) w l same = same
  finished_lem (Action.err x) w l same = (Keeps-activity_failed e (λ l'. l' ≡ l) x).at w same
  finished_lem Action.hanging w l same = same

  record_activity_log :
      (w : World)
      → (Routes.record_activity request st e w).1.log
        ≡ http (activity_request e c u w.log) ∷ utc_now ∷ w.log
  unfolding Routes.record_activity try_except ◌>>=◌ lift when◌then◌else◌ perform get find truthy
  record_activity_log w =
      rw (asked, given, user)
        (finished_lem
          (Rows.update_container_fields (str c) (str u) fields e
            (record w { log = utc_now ∷ w.log })).0
          (Rows.update_container_fields (str c) (str u) fields e
            (record w { log = utc_now ∷ w.log })).1
          (http (activity_request e c u w.log) ∷ utc_now ∷ w.log)
          (always (After e c u fields (utc_now ∷ w.log)) _ _ (
            (Runs-update_container_fields e c u fields (utc_now ∷ w.log)).at
              (record w { log = utc_now ∷ w.log }) refl)))
    where
      fields : Fields
      fields = field "last_active_at" (str (e.utc_time w.log)) end

-- The activity of a container whose id is `c` with "/delete" behind it, in a session of the user
-- `u`: the handler `container_activity`, behind its decorator, reads the clock and makes one call,
-- by the method and at the URL by which Cloud deletes the container `c`.
pub record_activity-at_delete :
    (e : Env) (c u : String) (request : Request) (st : State) (w : World)
    → request.body ≡ returned (dict (field "container_id" (str (c <> "/delete")) end))
    → get_item st.user_info "id" ≡ returned (str u)
    → (r : HttpRequest) × ((Routes.record_activity request st e w).1.log ≡ http r ∷ utc_now ∷ w.log)
      × (r.url ≡ (request_of e (Op.remove c u)).url)
      × (r.method ≡ (request_of e (Op.remove c u)).method)
record_activity-at_delete e c u request st w asked user = (
  activity_request e (c <> "/delete") u w.log,
  record_activity_log e (c <> "/delete") u request st asked
      (not_empty (c <> "/delete") (append_nonempty c "/delete" refl)) user w,
  (update_at_delete e c u _).0,
  (update_at_delete e c u _).1,
)
