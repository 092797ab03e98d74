-- ===== src/Handlers/Rows/Ownership.antt =====
-- The routes of rows make calls for the caller alone.
use browseterm_server_local.Prelude.{String, ◌≡◌, refl, inl, ap, ◌∙◌, Option, none, some}
use browseterm_server_local.Python.Value.{Value, null, dict, str, find, end, field, format}
use browseterm_server_local.Python.Error.{Error, cloud_client_error, returned, get_item, get}
use browseterm_server_local.World.Events.{Env, Log}
use browseterm_server_local.World.Action.{World}
use browseterm_server_local.World.Rules.{
  Keeps, OnLog, Keeps-pure, Keeps-raise, Keeps-lift, Keeps-bind, Keeps-bind_lift,
  Keeps-bind_validated, Keeps-when, Keeps-try_except, Keeps-asks, Keeps-validated, Keeps-bind_asks,
  Keeps-perform, keeps_rules,
}
use browseterm_server_local.World.Trace.{start, more}
use browseterm_server_local.Cloud.Client.{user_fields}
use browseterm_server_local.Cloud.Client.Calls as ClientCalls
use browseterm_server_local.Cloud.Models.{to_update_dict}
use browseterm_server_local.Cloud.Rows.Calls as CloudCalls
use browseterm_server_local.Containers.Service.Rows.{db_data}
use browseterm_server_local.Containers.Service.Rows.Calls.{create_container_db_model_lem}
use browseterm_server_local.Containers.Service.Rows.Calls as ServiceCalls
use browseterm_server_local.Web.{Request, State, text_item}
use browseterm_server_local.Handlers.Rows
use browseterm_server_local.Cloud.Ids.{IsPlainId}
use browseterm_server_local.Ownership.{
  IsStrict, device, listing, creation, writing, update, deletion,
}
use browseterm_server_local.Ownership.Lookup.Found.{Mine, MineWith, extend_with, Keeps-bind_owned}
use browseterm_server_local.Ownership.Routes.{
  Keeps-bind_known, Keeps-error_response, Keeps-not_found, IsPlainValue, plain_text, find_user,
  MakesPlainCallsFor, asking-Authorised, terminal-Authorised,
}
use browseterm_server_local.Handlers.Rows.Bodies.{
  get_request_lem, delete_request_lem, list_request_lem, filters_lem, create_request_lem,
  filters_id_lem, find-with_limit, same_user, find-to_dict,
}

module _ (e : Env) (L : Log → Type 0) where
  Keeps-session_failed : (x : Error) → Keeps e (OnLog L) (Rows.session_failed x)
  unfolding Rows.session_failed
  Keeps-session_failed (cloud_client_error code message) = Keeps-pure _
  Keeps-session_failed x = Keeps-error_response e L "Error starting terminal session: " x

  pub Keeps-activity_failed : (x : Error) → Keeps e (OnLog L) (Rows.activity_failed x)
  unfolding Rows.activity_failed
  Keeps-activity_failed x = search keeps_rules

  Keeps-no_device : (x : Error) → Keeps e (OnLog L) (Rows.no_device x)
  unfolding Rows.no_device
  Keeps-no_device (cloud_client_error code message) = Keeps-pure _
  Keeps-no_device x = Keeps-raise _

  Keeps-number_param : (s : Option String) → Keeps e (OnLog L) (Rows.number_param s)
  unfolding Rows.number_param
  Keeps-number_param none = Keeps-pure _
  Keeps-number_param (some s) = search keeps_rules depth 20

-- The ids of containers that the request holds are plain, wherever a route reads one.
pub record HasPlainIds (e : Env) (request : Request) : Type 0 where
  pub in_path :
      (v : Value) → text_item "container_id" request.path_params ≡ returned v → IsPlainValue e v
  pub in_body :
      (body v : Value)
      → request.body ≡ returned body
      → get_item body "container_id" ≡ returned v
      → IsPlainValue e v
  pub optional_in_body :
      (body v : Value)
      → request.body ≡ returned body
      → get body "container_id" null ≡ returned v
      → IsPlainValue e v
  pub in_filters :
      (body filters v : Value)
      → request.body ≡ returned body
      → get body "filters" (dict end) ≡ returned filters
      → get filters "container_id" null ≡ returned v
      → IsPlainValue e v

module _ (e : Env) (u : String) (base : Log) (strict : IsStrict e.pydantic) (request : Request)
    (st : State) (plain : HasPlainIds e request)
    (user : get_item st.user_info "id" ≡ returned (str u)) where
  Keeps-device_quota : Keeps e (OnLog (Mine IsPlainId e u base)) (Rows.device_quota st)
  unfolding Rows.device_quota format
  Keeps-device_quota =
      Keeps-bind _ _
        (Keeps-try_except _ _
          (Keeps-bind_known _ (str u) _ user (
            ClientCalls.Keeps-get_active_device e (Mine IsPlainId e u base) (str u)
              (λ l. more (device refl))))
          (Keeps-no_device e _))
        (λ v. Keeps-pure _)

  Keeps-container_info : Keeps e (OnLog (Mine IsPlainId e u base)) (Rows.container_info request st)
  unfolding Rows.container_info find user_fields
  Keeps-container_info =
      Keeps-try_except _ _
        (Keeps-bind_lift _ _ λ v is_v. Keeps-bind_known _ (str u) _ user (
          Keeps-bind_asks _ _ (
            Keeps-bind_validated _ _ _ _ λ r same.
              Keeps-bind _ _
                (ServiceCalls.Keeps-get_container_info e (Mine IsPlainId e u base) r (λ l. more (
                  let (is_str, is_user) = get_request_lem e u strict v r same in
                  asking-Authorised e u r.container_id r.user_id l is_user
                    (plain_text e v r.container_id is_str (plain.in_path v is_v)))))
                (λ info. Keeps-pure _))))
        (Keeps-error_response e _ _)

  Keeps-list_rows : Keeps e (OnLog (Mine IsPlainId e u base)) (Rows.list_rows request st)
  unfolding Rows.list_rows
  Keeps-list_rows =
      Keeps-try_except _ _
        (Keeps-bind_known _ (str u) _ user (
          Keeps-bind _ _ (Keeps-number_param e _ _) λ limit.
            Keeps-bind _ _ (Keeps-number_param e _ _) λ offset. Keeps-bind_asks _ _ (
              Keeps-bind_validated _ _ _ _ λ r same.
                Keeps-bind _ _
                  (ServiceCalls.Keeps-list_user_containers e (Mine IsPlainId e u base) r (λ l.
                    more (
                      listing _
                        (find-with_limit e u strict r.limit r.offset r.user_id
                          (list_request_lem e u strict limit offset r same))
                        refl)))
                  (λ rows. Keeps-pure _))))
        (Keeps-error_response e _ _)

  Keeps-delete_row : Keeps e (OnLog (Mine IsPlainId e u base)) (Rows.delete_row request st)
  unfolding Rows.delete_row find user_fields
  Keeps-delete_row =
      Keeps-try_except _ _
        (Keeps-bind_lift _ _ λ body is_body. Keeps-bind_lift _ _ λ v is_v.
          Keeps-bind_known _ (str u) _ user (
            Keeps-bind_asks _ _ (
              Keeps-bind_validated _ _ _ _ λ r same.
                Keeps-bind _ _
                  (ServiceCalls.Keeps-delete_container_in_db e (Mine IsPlainId e u base) r (λ l.
                    more (
                      let (is_str, is_user) = delete_request_lem e u strict v r same in
                      writing deletion r.container_id _ (ap (λ t. some (str t)) is_user)
                        (inl (
                          plain_text e v r.container_id is_str (plain.in_body body v is_body is_v)))
                        refl)))
                  (λ result. Keeps-pure _))))
        (Keeps-error_response e _ _)

  Keeps-open_terminal : Keeps e (OnLog (Mine IsPlainId e u base)) (Rows.open_terminal request st)
  unfolding Rows.open_terminal
  Keeps-open_terminal =
      Keeps-try_except _ _
        (Keeps-bind_lift _ _ λ body is_body. Keeps-bind_lift _ _ λ v is_v.
          Keeps-bind_known _ (str u) _ user (
            Keeps-bind_owned IsPlainId e u base v _ _ strict
              (λ c is_str. plain_text e v c is_str (plain.in_body body v is_body is_v))
              (λ c row is_str.
                Keeps-bind _ _
                  (ClientCalls.Keeps-create_terminal_session e (MineWith IsPlainId e u base c) v
                    (str u)
                    (λ l (s, owned).
                      extend_with c (terminal-Authorised e u c v l is_str owned) (s, owned)))
                  (λ result. Keeps-pure _))
              (Keeps-not_found e _ v)))
        (Keeps-session_failed e _)

  Keeps-update_row : Keeps e (OnLog (Mine IsPlainId e u base)) (Rows.update_row request st)
  unfolding Rows.update_row
  Keeps-update_row =
      Keeps-try_except _ _
        (Keeps-bind_lift _ _ λ body is_body. Keeps-bind_lift _ _ λ filters_data is_filters.
          Keeps-bind_lift _ _ λ v is_v. Keeps-bind_known _ (str u) _ user (
            Keeps-bind _ _ (Keeps-lift _) λ k. Keeps-bind _ _ (Keeps-lift _) λ n.
              Keeps-bind_asks _ _ (
                Keeps-bind_validated _ _ _ _ λ f same. Keeps-bind _ _ (Keeps-lift _) λ data_dict.
                  Keeps-bind _ _ (Keeps-lift _) λ image. Keeps-bind _ _ (Keeps-asks _) λ d.
                    Keeps-bind _ _ (Keeps-validated _ _ d) λ updates.
                      Keeps-bind _ _
                        (ServiceCalls.Keeps-update_container e (Mine IsPlainId e u base)
                          (record { filters = f; updates = updates })
                          (λ c u' is_c is_u l. more (
                            writing update c _
                              (find_user u' (to_update_dict (db_data updates))
                                ∙ same_user (f.user_id) u' (filters_lem e u strict v k n f same)
                                    is_u)
                              (inl (
                                plain_text e v c (filters_id_lem e u strict v k n f c same is_c)
                                  (plain.in_filters body filters_data v is_body is_filters is_v)))
                              refl)))
                        (λ result. Keeps-pure _))))
        (Keeps-error_response e _ _)

  Keeps-create_row : Keeps e (OnLog (Mine IsPlainId e u base)) (Rows.create_row request st)
  unfolding Rows.create_row
  Keeps-create_row =
      Keeps-try_except _ _
        (Keeps-bind _ _ (Keeps-lift _) λ body. Keeps-bind_known _ (str u) _ user (
          Keeps-bind _ _ (Keeps-lift _) λ image. Keeps-bind _ _ (Keeps-lift _) λ name.
            Keeps-bind _ _ (Keeps-lift _) λ cpu. Keeps-bind _ _ (Keeps-lift _) λ memory.
              Keeps-bind _ _ (Keeps-lift _) λ storage. Keeps-bind _ _ (Keeps-lift _) λ ports.
                Keeps-bind _ _ (Keeps-lift _) λ env. Keeps-bind_asks _ _ (
                  Keeps-bind_validated _ _ _ _ λ r same.
                    Keeps-bind _ _
                      (ServiceCalls.Keeps-create_container_in_db e (Mine IsPlainId e u base) r
                        (λ m valid l. more (
                          creation _
                            (find-to_dict e.pydantic u r m
                              (create_request_lem e u strict image name cpu memory storage ports env
                                r same)
                              valid)
                            refl)))
                      (λ result. Keeps-pure _))))
        (Keeps-error_response e _ _)

  Keeps-record_activity :
      Keeps e (OnLog (Mine IsPlainId e u base)) (Rows.record_activity request st)
  unfolding Rows.record_activity
  Keeps-record_activity =
      Keeps-try_except _ _
        (Keeps-bind_lift _ _ λ body is_body. Keeps-bind_lift _ _ λ v is_v.
          Keeps-when _ _ _
            (λ is_there. Keeps-bind_known _ (str u) _ user (
              Keeps-bind _ _ (Keeps-perform _ _ (λ l. more tt)) λ now.
                Keeps-bind _ _
                  (CloudCalls.Keeps-update_container_fields e (Mine IsPlainId e u base) v (str u)
                    (field "last_active_at" (str now) end)
                    (λ l. more (
                      writing update _ _ (find_user u (field "last_active_at" (str now) end))
                        (inl (plain.optional_in_body body v is_body is_v)) refl)))
                  (λ result. Keeps-pure _)))
            (λ missing. Keeps-pure _))
        (Keeps-activity_failed e _)

-- For a session of the user `u`, with pydantic's fields as documented, for a request whose ids of
-- containers are plain (letters, digits, hyphens and underscores, at least one), every call that
-- these routes make is made for `u`: the quota, and a container's row read, created, updated,
-- listed and deleted, its terminal opened and its activity recorded. Each request to Cloud is a
-- lookup, a listing, a creation or a write that names `u`, a read of the images or of `u`'s
-- device, or the hibernation of a container of which Cloud has answered before that it is `u`'s;
-- the id of a container in a path is plain, or that of such a container.
pub row_routes-Authorised :
    (e : Env) (u : String) (request : Request) (st : State) (w : World)
    → IsStrict e.pydantic
    → HasPlainIds e request
    → get_item st.user_info "id" ≡ returned (str u)
    → MakesPlainCallsFor e w u (Rows.device_quota st)
      × MakesPlainCallsFor e w u (Rows.container_info request st)
      × MakesPlainCallsFor e w u (Rows.create_row request st)
      × MakesPlainCallsFor e w u (Rows.update_row request st)
      × MakesPlainCallsFor e w u (Rows.list_rows request st)
      × MakesPlainCallsFor e w u (Rows.delete_row request st)
      × MakesPlainCallsFor e w u (Rows.open_terminal request st)
      × MakesPlainCallsFor e w u (Rows.record_activity request st)
row_routes-Authorised e u request st w strict plain user = (
  (Keeps-device_quota e u w.log strict request st plain user).at w start,
  (Keeps-container_info e u w.log strict request st plain user).at w start,
  (Keeps-create_row e u w.log strict request st plain user).at w start,
  (Keeps-update_row e u w.log strict request st plain user).at w start,
  (Keeps-list_rows e u w.log strict request st plain user).at w start,
  (Keeps-delete_row e u w.log strict request st plain user).at w start,
  (Keeps-open_terminal e u w.log strict request st plain user).at w start,
  (Keeps-record_activity e u w.log strict request st plain user).at w start,
)
