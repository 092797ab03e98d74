-- ===== src/Cloud/Client/Calls.antt =====
-- Which calls the operations on Cloud make: each keeps every invariant of the log that allows its
-- one HTTP request.
use browseterm_server_local.Prelude.{String, ◌<>◌, Option, none, some, ◌∷◌}
use browseterm_server_local.Python.Text.{ℤ}
use browseterm_server_local.Python.Value.{Value, dict, Fields, end, format, insert}
use browseterm_server_local.Python.Error.{Error, get_item}
use browseterm_server_local.World.Messages.{HttpMethod, get_method, post_method}
use browseterm_server_local.World.Events.{Log, Env, http}
use browseterm_server_local.World.Action.{lift, ◌>>=◌}
use browseterm_server_local.World.Rules.{
  Keeps, OnLog, Keeps-lift, Keeps-pure, Keeps-bind_asks, Keeps-bind_format, Keeps-perform,
  Keeps-try_except, Keeps-bind, keeps_rules,
}
use browseterm_server_local.Cloud.Client
use browseterm_server_local.Cloud.Client.{http_request, session_fields, user_fields, with_limit}

module _ (e : Env) (L : Log → Type 0) where
  -- The invariant allows this HTTP request.
  abbrev pub Allows : HttpMethod → String → Option Value → Option Fields → Type 0
  Allows method path json_body params =
      (l : Log) → L l → L (http (http_request e.config method path json_body params) ∷ l)

  pub Keeps-request :
      (method : HttpMethod) (path : String) (json_body : Option Value) (params : Option Fields)
      → Allows method path json_body params
      → Keeps e (OnLog L) (Client.request method path json_body params)
  unfolding Client.request
  Keeps-request method path json_body params allowed =
      Keeps-bind_asks _ _ (Keeps-bind _ _ (Keeps-perform _ _ allowed) (λ reply. Keeps-lift _))

  pub Keeps-on_not_found :
      {A : Type 0} (missing : A) (x : Error) → Keeps e (OnLog L) (Client.on_not_found missing x)
  unfolding Client.on_not_found
  Keeps-on_not_found missing (Error.cloud_client_error code message) = search keeps_rules
  Keeps-on_not_found missing x = search keeps_rules

  -- One request whose answer has one field taken out.
  Keeps-request_item :
      (method : HttpMethod) (path : String) (json_body : Option Value) (params : Option Fields)
      (key : String)
      → Allows method path json_body params
      → Keeps e
          (OnLog L)
          (Client.request method path json_body params >>= λ v. lift (get_item v key))
  Keeps-request_item method path json_body params key allowed =
      Keeps-bind _ _ (Keeps-request method path json_body params allowed) (λ v. Keeps-lift _)

  pub Keeps-get_container :
      (c u : Value)
      → Allows get_method ("/containers/" <> format e.texts.repr c) none (some (user_fields u))
      → Keeps e (OnLog L) (Client.get_container c u)
  unfolding Client.get_container
  Keeps-get_container c u allowed =
      Keeps-try_except _ _ (Keeps-bind_format _ _ (Keeps-request_item _ _ _ _ _ allowed))
        (Keeps-on_not_found _)

  pub Keeps-update_container :
      (c u : Value) (fields : Fields)
      → Allows post_method
          ("/containers/" <> format e.texts.repr c)
          (some (dict (insert "user_id" u fields)))
          none
      → Keeps e (OnLog L) (Client.update_container c u fields)
  unfolding Client.update_container
  Keeps-update_container c u fields allowed =
      Keeps-try_except _ _ (Keeps-bind_format _ _ (Keeps-request_item _ _ _ _ _ allowed))
        (Keeps-on_not_found _)

  pub Keeps-delete_container :
      (c u : Value)
      → Allows post_method
          ("/containers/" <> format e.texts.repr c <> "/delete")
          (some (dict (user_fields u)))
          none
      → Keeps e (OnLog L) (Client.delete_container c u)
  unfolding Client.delete_container
  Keeps-delete_container c u allowed =
      Keeps-try_except _ _
        (Keeps-bind_format _ _ (Keeps-bind _ _ (Keeps-request _ _ _ _ allowed) (λ v. Keeps-pure _)))
        (Keeps-on_not_found _)

  pub Keeps-create_container :
      (container : Fields)
      → Allows post_method "/containers" (some (dict container)) none
      → Keeps e (OnLog L) (Client.create_container container)
  unfolding Client.create_container
  Keeps-create_container container allowed = Keeps-request_item _ _ _ _ _ allowed

  pub Keeps-list_containers :
      (u : Value) (limit offset : Option ℤ)
      → Allows get_method "/containers" none
          (some (with_limit "offset" offset (with_limit "limit" limit (user_fields u))))
      → Keeps e (OnLog L) (Client.list_containers u limit offset)
  unfolding Client.list_containers
  Keeps-list_containers u limit offset allowed = Keeps-request_item _ _ _ _ _ allowed

  pub Keeps-resume_container :
      (c u : Value)
      → Allows post_method
          ("/containers/" <> format e.texts.repr c <> "/resume")
          (some (dict (user_fields u)))
          none
      → Keeps e (OnLog L) (Client.resume_container c u)
  unfolding Client.resume_container
  Keeps-resume_container c u allowed = Keeps-bind_format _ _ (Keeps-request_item _ _ _ _ _ allowed)

  pub Keeps-create_terminal_session :
      (c u : Value)
      → Allows post_method
          ("/internal/containers/" <> format e.texts.repr c <> "/terminal-session")
          (some (dict (user_fields u)))
          none
      → Keeps e (OnLog L) (Client.create_terminal_session c u)
  unfolding Client.create_terminal_session
  Keeps-create_terminal_session c u allowed = Keeps-bind_format _ _ (Keeps-request _ _ _ _ allowed)

  pub Keeps-hibernate_container :
      (c : Value)
      → Allows post_method
          ("/internal/containers/" <> format e.texts.repr c <> "/hibernate")
          (some (dict end))
          none
      → Keeps e (OnLog L) (Client.hibernate_container c)
  unfolding Client.hibernate_container
  Keeps-hibernate_container c allowed =
      Keeps-bind_format _ _ (Keeps-bind _ _ (Keeps-request _ _ _ _ allowed) (λ v. Keeps-pure _))

  pub Keeps-list_images :
      Allows get_method "/catalog/images" none none → Keeps e (OnLog L) Client.list_images
  unfolding Client.list_images
  Keeps-list_images allowed = Keeps-request_item _ _ _ _ _ allowed

  pub Keeps-list_subscription_types :
      Allows get_method "/catalog/subscription-types" none none
      → Keeps e (OnLog L) Client.list_subscription_types
  unfolding Client.list_subscription_types
  Keeps-list_subscription_types allowed = Keeps-request_item _ _ _ _ _ allowed

  pub Keeps-create_sse_token :
      (s : String)
      → Allows post_method "/auth/sse-tokens" (session_fields s) none
      → Keeps e (OnLog L) (Client.create_sse_token s)
  unfolding Client.create_sse_token
  Keeps-create_sse_token s allowed = Keeps-request_item _ _ _ _ _ allowed

  pub Keeps-get_active_device :
      (u : Value)
      → Allows get_method
          ("/internal/users/" <> format e.texts.repr u <> "/active-device")
          none
          none
      → Keeps e (OnLog L) (Client.get_active_device u)
  unfolding Client.get_active_device
  Keeps-get_active_device u allowed = Keeps-bind_format _ _ (Keeps-request_item _ _ _ _ _ allowed)
