-- ===== src/Handlers/Resume/Calls.antt =====
-- Which calls the parts of `resume_container` make.
use browseterm_server_local.Prelude.{◌<>◌, ◌≡◌, none, some, true, arith}
use browseterm_server_local.Python.Value.{
  Value, str, dict, Fields, end, field, insert, truthy, format,
}
use browseterm_server_local.Python.Error.{Error, http_exception, cloud_client_error}
use browseterm_server_local.World.Messages.{post_method}
use browseterm_server_local.World.Events.{Env, Log}
use browseterm_server_local.World.Rules.{
  Keeps, OnLog, Keeps-pure, Keeps-raise, Keeps-bind, Keeps-when, Keeps-try_except, Keeps-asks,
  Keeps-gets, Keeps-bind_asks, Keeps-text_of, keeps_rules,
}
use browseterm_server_local.Cloud.Client.Calls as ClientCalls
use browseterm_server_local.Cloud.Client.Calls.{Allows}
use browseterm_server_local.Cloud.Rows.Calls as CloudCalls
use browseterm_server_local.Cloud.Client.{user_fields}
use browseterm_server_local.Containers.Transform.{ContainerResponseModel}
use browseterm_server_local.Handlers.Resume
use browseterm_server_local.Handlers.Resume.{Progress}

module _ (e : Env) (L : Log → Type 0) where
  -- The invariant allows the fields of a row to be written.
  abbrev pub AllowsUpdate : (c u : Value) → Fields → Type 0
  AllowsUpdate c u fields =
      Allows e L post_method ("/containers/" <> format e.texts.repr c)
        (some (dict (insert "user_id" u fields))) none

  -- The invariant allows the rollback.
  abbrev pub AllowsRollback : Value → Type 0
  AllowsRollback c =
      Allows e L post_method ("/internal/containers/" <> format e.texts.repr c <> "/hibernate")
        (some (dict end)) none

  module _ (p : Progress) (rollback : p.resumed ≡ true → AllowsRollback p.container_id)
      (update : truthy p.user_id ≡ true
        → (fields : Fields) → AllowsUpdate p.container_id p.user_id fields) where
    Keeps-undo : Keeps e (OnLog L) (Resume.undo p)
    unfolding Resume.undo
    Keeps-undo =
        Keeps-when _ _ _
          (λ both.
            Keeps-try_except _ _
              (ClientCalls.Keeps-hibernate_container e L p.container_id (rollback (ground arith)))
              (λ x. Keeps-pure tt))
          (λ other.
            Keeps-when _ _ _
              (λ both.
                Keeps-try_except _ _
                  (Keeps-bind_asks _ _ (
                    Keeps-bind _ _
                      (CloudCalls.Keeps-update_container_fields e L p.container_id p.user_id
                        (field "status" (str e.statuses.failed) end)
                        (update (ground arith) (field "status" (str e.statuses.failed) end)))
                      (λ row. Keeps-pure tt)))
                  (λ x. Keeps-pure tt))
              (λ nothing. Keeps-pure tt))

    pub Keeps-recover : (x : Error) → Keeps e (OnLog L) (Resume.recover p x)
    unfolding Resume.recover
    Keeps-recover (http_exception code detail) = Keeps-pure _
    Keeps-recover x =
        Keeps-bind _ _ Keeps-undo λ _. Keeps-bind _ _ (Keeps-text_of x) λ t. Keeps-pure _

  pub Keeps-record_pod :
      (c u : Value) (m : ContainerResponseModel)
      → ((fields : Fields) → AllowsUpdate c u fields)
      → Keeps e (OnLog L) (Resume.record_pod c u m)
  unfolding Resume.record_pod
  Keeps-record_pod c u m update = Keeps-bind _ _ (Keeps-asks _) λ running.
      Keeps-bind _ _ (Keeps-gets _) λ id.
        let fields = field "kubernetes_id" (str m.container_id) (
          field "ip_address" (str m.container_ip) (
            field "associated_resources" m.associated_resources
              (field "status" (str running) (field "last_request_id" (str id) end)))) in
        Keeps-bind _ _ (CloudCalls.Keeps-update_container_fields e L c u fields (update fields))
          λ row. Keeps-pure tt

  pub Keeps-resume_request : (row c : Value) → Keeps e (OnLog L) (Resume.resume_request row c)
  unfolding Resume.resume_request
  Keeps-resume_request row c = search keeps_rules depth 40

  Keeps-reject : (x : Error) → Keeps e (OnLog L) (Resume.reject x)
  unfolding Resume.reject
  Keeps-reject (cloud_client_error code message) = Keeps-pure _
  Keeps-reject x = Keeps-raise _

  pub Keeps-transition :
      (c u : Value)
      → Allows e L post_method
          ("/containers/" <> format e.texts.repr c <> "/resume")
          (some (dict (user_fields u)))
          none
      → Keeps e (OnLog L) (Resume.transition c u)
  unfolding Resume.transition
  Keeps-transition c u resume =
      Keeps-try_except _ _
        (Keeps-bind _ _ (ClientCalls.Keeps-resume_container e L c u resume) (λ v. Keeps-pure _))
        Keeps-reject
