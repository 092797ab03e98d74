-- ===== src/Ownership/Routes.antt =====
-- Rules for the parts that the routes share: the user's id, the namespace, the pod's label and the
-- ends of a route.
use browseterm_server_local.Prelude.{
  String, ◌≡◌, refl, sym, Option, none, some, arith, eq_iff, inr, ◌<>◌, ap,
}
use browseterm_server_local.Python.Value.{
  format, Value, str, dict, Fields, find, insert, find-insert,
}
use browseterm_server_local.Python.Error.{Error, http_exception, Reply, returned}
use browseterm_server_local.Python.Validate
use browseterm_server_local.Python.Validate.{optional}
use browseterm_server_local.World.Events.{Env, Log, Pydantic, http}
use browseterm_server_local.World.Action.{World, Action, lift, ◌>>=◌}
use browseterm_server_local.World.Rules.{Keeps, OnLog, keeps_rules}
use browseterm_server_local.Cloud.Client.{http_request, user_fields}
use browseterm_server_local.World.Messages.{get_method, post_method}
use browseterm_server_local.World.Trace.{Since}
use browseterm_server_local.World.Gives.{Gives}
use browseterm_server_local.Web.{error_response, not_found, extended}
use browseterm_server_local.Handlers.Pods.{namespace_of}
use browseterm_server_local.Cloud.Ids.{IsPlainId, AnyId}
use browseterm_server_local.Ownership.{
  IsStrict, namespace, Authorised, Owned, UserRequest, lookup, writing, update, terminal,
}
use browseterm_server_local.Containers.Models.{CreateContainerK8SRequest}
use mathlib.Core.Path.{subst}

module _ {ℓ} {e : Env} {P : World → Type ℓ} {B : Type 0} where
  -- The rest runs on the value that is known.
  pub Keeps-bind_known :
      {A : Type 0} (r : Reply A) (a : A) (f : A → Action B)
      → r ≡ returned a
      → Keeps e P (f a)
      → Keeps e P (lift r >>= f)
  unfolding ◌>>=◌
  Keeps-bind_known r a f same k =
      subst (λ r'. Keeps e P (lift r' >>= f)) (sym same) (record { at = k.at })

  pub Keeps-bind_namespace_of :
      (u : String) (f : String → Action B)
      → Keeps e P (f (namespace u))
      → Keeps e P (namespace_of (str u) >>= f)
  unfolding ◌>>=◌ namespace_of
  Keeps-bind_namespace_of u f k = record { at = k.at }

module _ {e : Env} {B : Type 0} {Q : B → Type 0} where
  pub Gives-bind_returned :
      {A : Type 0} (r : Reply A) (a : A) (f : A → Action B)
      → r ≡ returned a
      → Gives e (f a) Q
      → Gives e (lift r >>= f) Q
  unfolding ◌>>=◌
  Gives-bind_returned r a f same k =
      subst (λ r'. Gives e (lift r' >>= f) Q) (sym same) (record { value = k.value })

  pub Gives-bind_namespace_of :
      (u : String) (f : String → Action B)
      → Gives e (f (namespace u)) Q
      → Gives e (namespace_of (str u) >>= f) Q
  unfolding ◌>>=◌ namespace_of
  Gives-bind_namespace_of u f k = record { value = k.value }

module _ (e : Env) (L : Log → Type 0) where
  pub Keeps-error_response :
      (words : String) (x : Error) → Keeps e (OnLog L) (error_response words x)
  unfolding error_response
  Keeps-error_response words (http_exception code detail) = search keeps_rules
  Keeps-error_response words x = search keeps_rules

  pub Keeps-not_found : (container_id : Value) → Keeps e (OnLog L) (not_found container_id)
  unfolding not_found
  Keeps-not_found container_id = search keeps_rules

-- What is put in stands in the result.
pub find-extended :
    (v : Value) (k : String) (w : Value) (d : Fields)
    → extended v k w ≡ returned d
    → find k d ≡ some w
unfolding extended
find-extended (dict d') k w d same = grind (arith, find-insert k k w d', eq_iff k k)
find-extended v k w d same = ground arith

-- The request to container-maker carries a container's id in its environment.
abbrev pub IsLabelled : String → CreateContainerK8SRequest → Type 0
IsLabelled c r =
    (d : Fields) × (r.environment_variables ≡ some d) × (find "CONTAINER_ID" d ≡ some (str c))

-- Validation leaves the environment as it is.
pub dict_str_field_lem :
    (p : Pydantic) (d : Fields) (o : Option Fields)
    → IsStrict p
    → optional p.dict_str_field (dict d) ≡ some o
    → o ≡ some d
unfolding optional
dict_str_field_lem p d o strict valid = by_field (p.dict_str_field (dict d)) refl valid
  where
    by_field :
        (f : Option Fields)
        → p.dict_str_field (dict d) ≡ f
        → (Validate.◌>>=◌ f (λ a. some (some a))) ≡ some o
        → o ≡ some d
    by_field none is_f same = ground arith
    by_field (some d') is_f same = grind (arith, strict.only_dict (dict d) d' is_f)

-- The user's id is put in last.
pub find_user :
    (u : String) (d : Fields) → find "user_id" (insert "user_id" (str u) d) ≡ some (str u)
find_user u d = find-insert "user_id" "user_id" (str u) d

pub find-user_fields : (u : String) → find "user_id" (user_fields (str u)) ≡ some (str u)
unfolding find user_fields
find-user_fields u = refl

-- The calls that an action makes are made for the user `u`.
abbrev pub MakesCallsFor : {A : Type 0} → Env → World → (u : String) → Action A → Type 0
MakesCallsFor e w u m = Since (Authorised AnyId e u) w.log (m e w).1.log

-- And the ids that are looked up are plain.
abbrev pub MakesPlainCallsFor : {A : Type 0} → Env → World → (u : String) → Action A → Type 0
MakesPlainCallsFor e w u m = Since (Authorised IsPlainId e u) w.log (m e w).1.log

-- A JSON value that is plain as a part of a path.
abbrev pub IsPlainValue : Env → Value → Type 0
IsPlainValue e v = IsPlainId (format e.texts.repr v)

pub plain_text : (e : Env) (v : Value) (c : String) → v ≡ str c → IsPlainValue e v → IsPlainId c
unfolding format
plain_text e v c is_str plain = subst (IsPlainValue e) is_str plain

-- A lookup whose query names the user.
pub asking-Authorised :
    {IsKnown : String → Type 0} (e : Env) (u c owner : String) (l : Log)
    → owner ≡ u
    → IsKnown c
    → Authorised IsKnown e u
        (http (
          http_request e.config get_method
            ("/containers/" <> c)
            none
            (some (user_fields (str owner)))))
        l
asking-Authorised e u c owner l is_user known = lookup c known (
    ap
      (λ s.
        http_request e.config get_method ("/containers/" <> c) none (some (user_fields (str s))))
      is_user)

-- A row that is known to be the user's is updated, for an id that is a text.
pub update-Authorised :
    {IsKnown : String → Type 0} (e : Env) (u c : String) (v : Value) (d : Fields) (l : Log)
    → v ≡ str c
    → Owned e c u l
    → Authorised IsKnown e u
        (http (
          http_request e.config post_method
            ("/containers/" <> format e.texts.repr v)
            (some (dict (insert "user_id" (str u) d)))
            none))
        l
unfolding format
update-Authorised {IsKnown} e u c v d l is_str owned =
    subst
      (λ v'. UserRequest IsKnown e u l (
        http_request e.config post_method ("/containers/" <> format e.texts.repr v')
          (some (dict (insert "user_id" (str u) d))) none))
      (sym is_str) (writing update c _ (find_user u d) (inr owned) refl)

pub terminal-Authorised :
    {IsKnown : String → Type 0} (e : Env) (u c : String) (v : Value) (l : Log)
    → v ≡ str c
    → Owned e c u l
    → Authorised IsKnown e u
        (http (
          http_request e.config post_method
            ("/internal/containers/" <> format e.texts.repr v <> "/terminal-session")
            (some (dict (user_fields (str u))))
            none))
        l
unfolding format
terminal-Authorised {IsKnown} e u c v l is_str owned =
    subst
      (λ v'. UserRequest IsKnown e u l (
        http_request e.config post_method
          ("/internal/containers/" <> format e.texts.repr v' <> "/terminal-session")
          (some (dict (user_fields (str u)))) none))
      (sym is_str) (writing terminal c _ (find-user_fields u) (inr owned) refl)
