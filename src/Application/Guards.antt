-- ===== src/Application/Guards.antt =====
-- Which routes need a session.
use browseterm_server_local.Prelude.{String, ◌==◌, ◌||◌, ◌≡◌, refl, Bool, true, false}
use browseterm_server_local.Python.Value.{end}
use browseterm_server_local.World.Events.{Env}
use browseterm_server_local.World.Action.{Action, World, ok, pure}
use browseterm_server_local.Cloud.Client.{answer}
use browseterm_server_local.Web.{Request, State, Response, redirect_response, template_response}
use browseterm_server_local.Auth.Session.{authenticate_session, cookie}
use browseterm_server_local.Auth.Session.Admission.{
  admits, validation, IsDenied, authenticate_session-IsDenied,
}
use browseterm_server_local.Pages
use browseterm_server_local.Handlers.Login
use browseterm_server_local.Handlers.Rows
use browseterm_server_local.Handlers.Pods
use browseterm_server_local.Handlers.Save
use browseterm_server_local.Handlers.Resume
use browseterm_server_local.Handlers.Hibernate
use browseterm_server_local.Application.{Endpoint, on_request, on_model, Route, routes}
use browseterm_server_local.Application.Every.{IsRoute, All, ◌&◌, of_all}

-- The routes that work without a session.
abbrev pub is_public : String → Bool
is_public path =
    path == "/echo"
    || path == "/login"
    || path == "/js-test"
    || path == "/auth/callback"
    || path == "/auth/{provider}"
    || path == "/auth/refresh"
    || path == "/logout"

-- Without a session cookie the endpoint makes no call and redirects to the login page. With one,
-- unless Cloud's answer to its validation admits it, the validation is the only call, and nothing
-- is answered but that redirect.
abbrev pub Refuses : Endpoint → Type 0
Refuses (on_model f) = ⊥
Refuses (on_request f) =
    (e : Env) (request : Request) (w : World)
    → (cookie "session" request ≡ "" → f request e w ≡ (ok (redirect_response "/login"), w))
      × ((cookie "session" request == "") ≡ false
          → admits (answer (e.on_http w.log (validation e (cookie "session" request)))) ≡ false
          → IsDenied (f request e w).0 (f request e w).1 e (cookie "session" request) w)

-- What holds of a route in the table.
abbrev IsKept : Route → Type 0
IsKept r = is_public r.path ≡ false → Refuses r.endpoint

behind :
    {IsPrivate : Type 0} {f : Request → Action Response}
    (handler : Request → State → Action Response)
    → ((request : Request) → f request ≡ authenticate_session (handler request) request)
    → IsPrivate
    → Refuses (on_request f)
behind handler same private_path e request w =
    rw (same request) (authenticate_session-IsDenied e (handler request) request w)

open_to_all : {P : Type 0} → true ≡ false → P
open_to_all bad = cc

-- The table, a route at a time.
every_route : All IsKept routes
unfolding routes Pages.home Pages.terminals Pages.terminalpage Pages.payment Pages.profile
    Login.device_bootstrap Rows.get_device_quota Rows.get_container_info Rows.create_container_in_db
    Pods.create_container_in_k8s Rows.update_container Rows.list_user_containers
    Rows.delete_container_in_db Pods.delete_container_in_k8s Save.save_container
    Resume.resume_container Hibernate.hibernate_container Rows.container_activity
    Rows.terminal_session
every_route =
    open_to_all
    & behind (λ request st. pure (template_response "home.html" end)) (λ request. refl)
    & behind Pages.terminals_page (λ request. refl)
    & behind Pages.terminal_page (λ request. refl)
    & behind Pages.payment_page (λ request. refl)
    & behind (λ request. Pages.profile_page) (λ request. refl)
    & open_to_all
    & open_to_all
    & open_to_all
    & open_to_all
    & open_to_all
    & open_to_all
    & behind Login.bootstrap_device (λ request. refl)
    & behind (λ request. Rows.device_quota) (λ request. refl)
    & behind Rows.container_info (λ request. refl)
    & behind Rows.create_row (λ request. refl)
    & behind Pods.create_pod (λ request. refl)
    & behind Rows.update_row (λ request. refl)
    & behind Rows.list_rows (λ request. refl)
    & behind Rows.delete_row (λ request. refl)
    & behind Pods.delete_pod (λ request. refl)
    & behind Save.start_save (λ request. refl)
    & behind Resume.resume (λ request. refl)
    & behind Hibernate.hibernate (λ request. refl)
    & behind Rows.record_activity (λ request. refl)
    & behind Rows.open_terminal (λ request. refl)
    & tt

-- Every route of the application but the seven public ones refuses: without a session cookie it
-- makes no call and redirects to the login page, and with one that Cloud does not confirm, the
-- validation is its only call, and it answers nothing but that redirect.
pub routes-Refuses : (r : Route) → IsRoute r routes → is_public r.path ≡ false → Refuses r.endpoint
routes-Refuses r member private_route = of_all IsKept routes r every_route member private_route
