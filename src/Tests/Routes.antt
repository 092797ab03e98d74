-- ===== src/Tests/Routes.antt =====
-- The theorems on the ends of routes, on logins and on names, applied at the setting of the tests.
use browseterm_server_local.Prelude.{◌<>◌, String, ◌==◌, ◌≡◌, ◌≢◌, refl, true, false, some, [], ◌∷◌}
use browseterm_server_local.Python.Text.{pos}
use browseterm_server_local.Auth.Session.Admission
use browseterm_server_local.Python.Value.{
  Value, Items, item, find, nil, str, dict, end, field, truthy,
}
use browseterm_server_local.Python.Strings.{all_chars, is_empty}
use browseterm_server_local.Python.Error.{get_item, Error, exception, returned}
use browseterm_server_local.World.Events.{Env, response, http, utc_now}
use browseterm_server_local.World.Action
use browseterm_server_local.World.Action.{World, ok, err, pure}
use browseterm_server_local.World.Halts.{HasReturned}
use browseterm_server_local.World.Fails.{FailsWith}
use browseterm_server_local.World.Gives.{Returns}
use browseterm_server_local.World.Messages.{HttpRequest}
use browseterm_server_local.Cloud.Client.{answer}
use browseterm_server_local.Cloud.Rows.Registry.{Op, request_of}
use browseterm_server_local.Handlers.Rows
use browseterm_server_local.Handlers.Rows.Activity.{record_activity-at_delete}
use browseterm_server_local.Web.{Request, lookup, redirect_response}
use browseterm_server_local.Auth.Session
use browseterm_server_local.Auth.Session.Admission.{authenticate_session-IsDenied, IsDenied}
use browseterm_server_local.Auth.Service.{csrf_cookie_name}
use browseterm_server_local.Containers.Models.{
  CreateContainerK8SRequest, DeleteContainerK8SRequest, SaveContainerK8SRequest,
}
use browseterm_server_local.Containers.Names
use browseterm_server_local.Containers.Names.Shape.{sanitize_container_name_shape, IsTrimmed}
use browseterm_server_local.Containers.Service
use browseterm_server_local.Containers.Service.Pods.Errors.{pods-IsServerError, IsServerError}
use browseterm_server_local.Handlers.Hibernate
use browseterm_server_local.Handlers.Hibernate.Confirmed.{DeletesSaved}
use browseterm_server_local.Handlers.Hibernate.Deletes.{hibernate-DeletesSaved}
use browseterm_server_local.World.Trace.{Since}
use browseterm_server_local.Handlers.Hibernate.Ownership.{hibernate-Authorised}
use browseterm_server_local.Handlers.Login
use browseterm_server_local.Handlers.Login.Safety.{
  validated_desktop_port_bounds, csrf_ok_iff, auth_callback-IsSafeRedirect, IsPort, IsSafeRedirect,
}
use browseterm_server_local.Pages.Plan.{selected_plan-IsSelected, IsSelected}
use browseterm_server_local.Pages.Ends.{terminal_info-HasReturned}
use browseterm_server_local.Pages
use browseterm_server_local.Pages.Reads.{pages-OnlyReads, ReadsFor}
use browseterm_server_local.Payments
use browseterm_server_local.Payments.Amount.{pay-ChargesOnly, ChargesOnly}
use browseterm_server_local.Handlers.Resume
use browseterm_server_local.Handlers.Resume.Rollback.{after_transition_failure, after_failure}
use browseterm_server_local.Ownership.Routes.{MakesCallsFor}
use browseterm_server_local.Tests.Setting.{
  demo, quiet, session, session-id, about_c1, body_c1, row, strict_pydantic-IsStrict,
}

hibernate-Authorised_example : MakesCallsFor demo quiet "u1" (Hibernate.hibernate about_c1 session)
hibernate-Authorised_example =
    hibernate-Authorised demo "u1" about_c1 session quiet strict_pydantic-IsStrict session-id

hibernate-DeletesSaved_example :
    Since
      (DeletesSaved demo "c1" "u1" quiet.log)
      quiet.log
      (Hibernate.hibernate about_c1 session demo quiet).1.log
unfolding get_item find
hibernate-DeletesSaved_example =
    hibernate-DeletesSaved demo "c1" "u1" body_c1 about_c1 session quiet strict_pydantic-IsStrict
      refl refl session-id

abbrev creation : CreateContainerK8SRequest
creation = record {
  image_id = "i1";
  container_name = "box";
  network_name = "u1-namespace";
  exposure_level = pos 2;
  publish_information = nil;
  environment_variables = some end;
  resource_limits = record {
    cpu_limit = "1";
    memory_limit = "1Gi";
    storage_limit = "2Gi";
    snapshot_size_limit = "2Gi";
  };
}

abbrev deletion : DeleteContainerK8SRequest
deletion = record { container_id = "c1"; network_name = "u1-namespace" }

abbrev saving : SaveContainerK8SRequest
saving = record { container_id = "c1"; network_name = "u1-namespace" }

pods-IsServerError_example :
    FailsWith IsServerError (Service.create_container_in_k8s creation (str "snapshot") demo quiet).0
    × FailsWith IsServerError (Service.delete_container_in_k8s deletion demo quiet).0
    × FailsWith IsServerError (Service.save_container_in_k8s saving demo quiet).0
unfolding truthy
pods-IsServerError_example =
    pods-IsServerError demo creation (str "snapshot") deletion saving quiet refl

-- A Cloud that is down.
abbrev down : Env
down = record demo {
  on_http = λ log r. response (record {
    status_code = 500;
    text = "down";
    json = returned (dict (field "error" (str "down") end));
  });
}

abbrev failure : Error
failure = exception "Database operation failed: down"

after_transition_failure_example :
    (Resume.after_transition row (str "c1") (str "u1") Resume.made down quiet).1.log
    ≡ after_failure down
        (str "c1")
        failure
        (Resume.start_resumed row (str "c1") (str "u1") down quiet).1.log
unfolding Resume.start_resumed truthy answer Action.◌>>=◌ Action.try_except
after_transition_failure_example =
    after_transition_failure down (str "c1") (str "u1") row failure quiet refl refl

validated_desktop_port_bounds_example : IsPort 8080
unfolding Login.validated_desktop_port
validated_desktop_port_bounds_example =
    validated_desktop_port_bounds (λ c. false) (some "8080") 8080 refl

-- A request with a session and a CSRF token.
abbrev with_token : Request
with_token = record about_c1 {
  headers = ("X-CSRF-Token", "t1") ∷ [];
  cookies = (csrf_cookie_name, "t1") ∷ ("session", "s1") ∷ [];
  query_params = ("code", "h1") ∷ [];
}

csrf_ok_iff_example :
    (Login.csrf_ok with_token ≡ true
      → (t : String) × (lookup "X-CSRF-Token" with_token.headers ≡ some t)
        × (lookup csrf_cookie_name with_token.cookies ≡ some t)
        × (t ≢ ""))
    × ((t : String)
        → lookup "X-CSRF-Token" with_token.headers ≡ some t
        → lookup csrf_cookie_name with_token.cookies ≡ some t
        → t ≢ ""
        → Login.csrf_ok with_token ≡ true)
csrf_ok_iff_example = csrf_ok_iff with_token

auth_callback-IsSafeRedirect_example :
    Returns IsSafeRedirect (Login.auth_callback with_token demo quiet).0
auth_callback-IsSafeRedirect_example = auth_callback-IsSafeRedirect demo with_token quiet

sanitize_container_name_shape_example :
    (all_chars Names.is_name_char "my-box" ≡ true)
    × (is_empty "my-box" ≡ false)
    × IsTrimmed Names.is_hyphen "my-box"
unfolding Names.sanitize_container_name
sanitize_container_name_shape_example =
    sanitize_container_name_shape (λ s. s) (λ c. false) "my_box!" "my-box" refl

authenticate_session-IsDenied_example :
    (Session.cookie "session" with_token ≡ ""
      → Session.authenticate_session (Hibernate.hibernate about_c1) with_token down quiet
        ≡ (ok (redirect_response "/login"), quiet))
    × ((Session.cookie "session" with_token == "") ≡ false
        → Admission.admits (
            answer (
              down.on_http quiet.log
                (Admission.validation down (Session.cookie "session" with_token))))
          ≡ false
        → IsDenied
            (Session.authenticate_session (Hibernate.hibernate about_c1) with_token down quiet).0
            (Session.authenticate_session (Hibernate.hibernate about_c1) with_token down quiet).1
            down
            (Session.cookie "session" with_token)
            quiet)
authenticate_session-IsDenied_example =
    authenticate_session-IsDenied down (Hibernate.hibernate about_c1) with_token quiet

pay-ChargesOnly_example :
    Since (ChargesOnly "u1") quiet.log (Payments.pay about_c1 session demo quiet).1.log
pay-ChargesOnly_example = pay-ChargesOnly demo "u1" about_c1 session quiet session-id

pages-OnlyReads_example :
    ReadsFor demo quiet "u1" about_c1 (Pages.terminals_page about_c1 session)
    × ReadsFor demo quiet "u1" about_c1 (Pages.terminal_page about_c1 session)
    × ReadsFor demo quiet "u1" about_c1 (Pages.subscriptions_page session)
    × ReadsFor demo quiet "u1" about_c1 (Pages.payment_page about_c1 session)
    × ReadsFor demo quiet "u1" about_c1 (Pages.profile_page session)
pages-OnlyReads_example =
    pages-OnlyReads demo "u1" about_c1 session quiet strict_pydantic-IsStrict session-id

abbrev a_plan : Value
a_plan = dict (field "id" (str "p1") end)

abbrev plans : Items
plans = item (dict (field "id" (str "p0") end)) (item a_plan nil)

selected_plan-IsSelected_example : IsSelected "p1" plans a_plan
unfolding Pages.selected_plan
selected_plan-IsSelected_example = selected_plan-IsSelected "p1" plans a_plan refl

terminal_info-HasReturned_example : HasReturned (Pages.terminal_info "c1" session demo quiet).0
terminal_info-HasReturned_example = terminal_info-HasReturned demo "c1" session quiet

abbrev at_delete : Request
at_delete = record about_c1 {
  body = returned (dict (field "container_id" (str ("c1" <> "/delete")) end));
}

record_activity-at_delete_example :
    (r : HttpRequest) × ((Rows.record_activity at_delete session demo quiet).1.log
      ≡ http r ∷ utc_now ∷ [])
    × (r.url ≡ (request_of demo (Op.remove "c1" "u1")).url)
    × (r.method ≡ (request_of demo (Op.remove "c1" "u1")).method)
record_activity-at_delete_example =
    record_activity-at_delete demo "c1" "u1" at_delete session quiet refl session-id
