-- ===== src/Cloud/Rows/Calls.antt =====
-- Which calls the wrappers of src/db_ops make: those of the client's methods.
use browseterm_server_local.Prelude.{refl, String, ◌<>◌, Option, none, some, ◌≡◌, Bool, true, false}
use browseterm_server_local.Python.Text.{ℤ}
use browseterm_server_local.Python.Value.{Value, str, dict, Fields, format, insert}
use browseterm_server_local.Python.Error.{Error, cloud_client_error}
use browseterm_server_local.World.Messages.{get_method, post_method}
use browseterm_server_local.World.Events.{Log, Env}
use browseterm_server_local.World.Action.{try_except, Action, ◌>>◌, ◌>>=◌}
use browseterm_server_local.World.Rules.{
  Keeps, OnLog, Keeps-try_except, Keeps-bind, Keeps-bind_asks, Keeps-bind_validated, Keeps-when,
  Keeps-raise, Keeps-pure, keeps_rules,
}
use browseterm_server_local.Cloud.Client
use browseterm_server_local.Cloud.Client.{user_fields, with_limit}
use browseterm_server_local.Cloud.Models.{
  given, CreateContainerDbModel, to_dict, UpdateContainerDbModel, to_update_dict,
  GetContainerDbModel, get_container_db_model,
}
use browseterm_server_local.Cloud.Rows
use browseterm_server_local.Cloud.Client.Calls
use browseterm_server_local.Cloud.Client.Calls.{Allows}

module _ (e : Env) (L : Log → Type 0) where
  pub Keeps-database_failed :
      {A : Type 0} (x : Error) → Keeps e (OnLog L) (Rows.database_failed {A = A} x)
  unfolding Rows.database_failed
  Keeps-database_failed (cloud_client_error code message) = search keeps_rules
  Keeps-database_failed x = search keeps_rules

  pub Keeps-get_container :
      (m : GetContainerDbModel)
      → Allows e L get_method
          ("/containers/" <> m.container_id)
          none
          (some (user_fields (str m.user_id)))
      → Keeps e (OnLog L) (Rows.get_container m)
  unfolding Rows.get_container format
  Keeps-get_container m allowed =
      Keeps-try_except _ _ (Calls.Keeps-get_container e L _ _ allowed) Keeps-database_failed

  -- The lookup by id: what it asks Cloud for has passed the model's validation.
  pub Keeps-get_container_by_id :
      (c u : Value)
      → ((m : GetContainerDbModel)
          → get_container_db_model e.pydantic c u ≡ some m
          → Allows e L get_method
              ("/containers/" <> m.container_id)
              none
              (some (user_fields (str m.user_id))))
      → Keeps e (OnLog L) (Rows.get_container_by_id c u)
  unfolding Rows.get_container_by_id
  Keeps-get_container_by_id c u allowed =
      Keeps-bind_asks _ _
        (Keeps-bind_validated _ _ _ _ (λ m valid. Keeps-get_container m (allowed m valid)))

  pub Keeps-update_container_fields :
      (c u : Value) (fields : Fields)
      → Allows e L post_method
          ("/containers/" <> format e.texts.repr c)
          (some (dict (insert "user_id" u fields)))
          none
      → Keeps e (OnLog L) (Rows.update_container_fields c u fields)
  unfolding Rows.update_container_fields
  Keeps-update_container_fields c u fields allowed =
      Keeps-try_except _ _ (Calls.Keeps-update_container e L _ u fields allowed)
        Keeps-database_failed

  pub Keeps-delete_container :
      (c u : String)
      → Allows e L post_method
          ("/containers/" <> c <> "/delete")
          (some (dict (user_fields (str u))))
          none
      → Keeps e (OnLog L) (Rows.delete_container c u)
  unfolding Rows.delete_container Rows.check_deleted format
  Keeps-delete_container c u allowed =
      Keeps-try_except _ _ (Keeps-bind _ _ (Calls.Keeps-delete_container e L _ _ allowed) check)
        Keeps-database_failed
    where
      check : (deleted : Bool) → Keeps e (OnLog L) (Rows.check_deleted c deleted)
      check true = Keeps-pure _
      check false = Keeps-raise _

  pub Keeps-list_user_containers :
      (u : String) (limit offset : Option ℤ)
      → Allows e L get_method "/containers" none
          (some (with_limit "offset" offset (with_limit "limit" limit (user_fields (str u)))))
      → Keeps e (OnLog L) (Rows.list_user_containers u limit offset)
  unfolding Rows.list_user_containers
  Keeps-list_user_containers u limit offset allowed =
      Keeps-try_except _ _ (Calls.Keeps-list_containers e L _ _ _ allowed) Keeps-database_failed

  Keeps-creation_failed :
      (name : String) (x : Error) → Keeps e (OnLog L) (Rows.creation_failed {A = Value} name x)
  unfolding Rows.creation_failed
  Keeps-creation_failed name (cloud_client_error code message) = search keeps_rules
  Keeps-creation_failed name x = search keeps_rules

  pub Keeps-create_container_in_db :
      (m : CreateContainerDbModel)
      → Allows e L post_method "/containers" (some (dict (to_dict m))) none
      → Keeps e (OnLog L) (Rows.create_container_in_db m)
  unfolding Rows.create_container_in_db
  Keeps-create_container_in_db m allowed =
      Keeps-when _ _ _ (λ _. Keeps-raise _)
        (λ _.
          Keeps-try_except _ _ (Calls.Keeps-create_container e L _ allowed)
            (Keeps-creation_failed m.name))

  Keeps-update_failed : (x : Error) → Keeps e (OnLog L) (Rows.update_failed {A = Value} x)
  unfolding Rows.update_failed
  Keeps-update_failed (cloud_client_error code message) = search keeps_rules
  Keeps-update_failed x = search keeps_rules

  -- `require` lets the rest run only if the test is passed.
  Keeps-require :
      {A : Type 0} (b : Bool) (message : String) (rest : Action A)
      → (b ≡ true → Keeps e (OnLog L) rest)
      → Keeps e (OnLog L) (Rows.require b message >> rest)
  unfolding Rows.require ◌>>=◌
  Keeps-require true message rest k = record { at = (k refl).at }
  Keeps-require false message rest k = record { at = λ w h. h }

  -- The update by two filters that are known.
  Keeps-update_with :
      (id user_id : Option String) (fields : Fields)
      → ((c u : String)
          → id ≡ some c
          → user_id ≡ some u
          → Allows e L post_method
              ("/containers/" <> c)
              (some (dict (insert "user_id" (str u) fields)))
              none)
      → given id ≡ true
      → given user_id ≡ true
      → Keeps e (OnLog L) (
          try_except
            (Client.update_container (str (Rows.or_empty id)) (str (Rows.or_empty user_id)) fields)
            Rows.update_failed)
  unfolding Rows.or_empty format
  Keeps-update_with none user_id fields allowed p q = cc
  Keeps-update_with (some c) none fields allowed p q = cc
  Keeps-update_with (some c) (some u) fields allowed p q =
      Keeps-try_except _ _
        (Calls.Keeps-update_container e L (str c) (str u) fields (allowed c u refl refl))
        Keeps-update_failed

  pub Keeps-update_container_in_db :
      (m : UpdateContainerDbModel)
      → ((c u : String)
          → m.filters.id ≡ some c
          → m.filters.user_id ≡ some u
          → Allows e L post_method
              ("/containers/" <> c)
              (some (dict (insert "user_id" (str u) (to_update_dict m.updates))))
              none)
      → Keeps e (OnLog L) (Rows.update_container_in_db m)
  unfolding Rows.update_container_in_db
  Keeps-update_container_in_db m allowed = Keeps-require _ _ _ λ has_id.
      Keeps-require _ _ _ λ has_user. Keeps-require _ _ _ λ some_field.
        Keeps-update_with m.filters.id m.filters.user_id (to_update_dict m.updates) allowed has_id
          has_user
