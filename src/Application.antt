-- ===== src/Application.antt =====
-- src/app.py: the table of the routes, with `echo` of src/api_handlers.py and its models of
-- src/data_models/echo.py. A line that the source has commented out is no route.
pub mod Every
pub mod Guards
pub mod Order
use browseterm_server_local.Prelude.{String, List, [], ◌∷◌}
use browseterm_server_local.World.Messages.{HttpMethod, get_method, post_method}
use browseterm_server_local.World.Action.{Action}
use browseterm_server_local.Web.{Request, Response}
use browseterm_server_local.Pages
use browseterm_server_local.Handlers.Login
use browseterm_server_local.Handlers.Rows
use browseterm_server_local.Handlers.Pods
use browseterm_server_local.Handlers.Save
use browseterm_server_local.Handlers.Resume
use browseterm_server_local.Handlers.Hibernate

pub record EchoRequestData : Type 0 where
  pub message : String

pub record EchoResponseData : Type 0 where
  pub message : String

unfoldable pub echo : EchoRequestData → EchoResponseData
echo request = record { message = request.message }

-- The function behind a route: it gets the request, or its body as a model.
pub data Endpoint : Type 0 where
  on_request : (Request → Action Response) → Endpoint
  on_model : (EchoRequestData → EchoResponseData) → Endpoint

pub record Route : Type 0 where
  pub method : HttpMethod
  pub path : String
  pub endpoint : Endpoint

-- `app.add_api_route(path=…, endpoint=…, methods=["GET"])`
abbrev get : String → (Request → Action Response) → Route
get path f = record { method = get_method; path = path; endpoint = on_request f }

-- `app.add_api_route(path=…, endpoint=…, methods=["POST"])`
abbrev post : String → (Request → Action Response) → Route
post path f = record { method = post_method; path = path; endpoint = on_request f }

-- The routes, in the order in which they are registered.
unfoldable pub routes : List Route
routes =
    record { method = post_method; path = "/echo"; endpoint = on_model echo }
    ∷ get "/" Pages.home
    ∷ get "/terminals" Pages.terminals
    ∷ get "/terminalpage" Pages.terminalpage
    ∷ get "/payment" Pages.payment
    ∷ get "/profile" Pages.profile
    ∷ get "/login" Pages.login
    ∷ get "/js-test" Pages.js_test
    ∷ get "/auth/callback" Login.auth_callback
    ∷ get "/auth/{provider}" Login.auth_provider_redirect
    ∷ post "/auth/refresh" Login.auth_refresh
    ∷ post "/logout" Login.logout
    ∷ post "/device/bootstrap" Login.device_bootstrap
    ∷ get "/device-quota" Rows.get_device_quota
    ∷ get "/get-container-info/{container_id}" Rows.get_container_info
    ∷ post "/create-container-in-db" Rows.create_container_in_db
    ∷ post "/create-container-in-k8s" Pods.create_container_in_k8s
    ∷ post "/update-container" Rows.update_container
    ∷ get "/list-user-containers" Rows.list_user_containers
    ∷ post "/delete-container-in-db" Rows.delete_container_in_db
    ∷ post "/delete-container-in-k8s" Pods.delete_container_in_k8s
    ∷ post "/save-container" Save.save_container
    ∷ post "/resume-container" Resume.resume_container
    ∷ post "/hibernate-container" Hibernate.hibernate_container
    ∷ post "/container-activity" Rows.container_activity
    ∷ post "/terminal-session" Rows.terminal_session
    ∷ []
