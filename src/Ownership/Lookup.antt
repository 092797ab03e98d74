-- ===== src/Ownership/Lookup.antt =====
-- The lookup that the routes begin with: where it returns a row, the container is the user's.
pub mod Found
use browseterm_server_local.Prelude.{
  String, if◌then◌else◌, eqb, ◌<>◌, ◌≡◌, refl, sym, ap, ◌∙◌, inr, Bool, true, false, Option, none,
  some, List, [], ◌∷◌, inl, arith,
}
use browseterm_server_local.Python.Value.{Value, null, str, truthy, format, find}
use browseterm_server_local.Python.Error.{
  Error, cloud_client_error, Reply, returned, raised, get_item,
}
use browseterm_server_local.Python.Validate
use browseterm_server_local.World.Events.{Env, Event, Pydantic, Log, http}
use browseterm_server_local.World.Action
use browseterm_server_local.World.Action.{
  World, Action, ok, ◌>>=◌, validated, pure, raise, lift, when◌then◌else◌, format_value, perform,
  asks,
}
use browseterm_server_local.World.Messages.{get_method}
use mathlib.Core.Path.{subst}
use browseterm_server_local.World.Rules.{Keeps, OnLog}
use browseterm_server_local.World.Trace.{Since, more, Post, Runs, Keeps-bind_runs, Runs-try_except}
use browseterm_server_local.Cloud.Client
use browseterm_server_local.Cloud.Client.{answer}
use browseterm_server_local.Cloud.Models.{GetContainerDbModel, get_container_db_model}
use browseterm_server_local.Cloud.Rows
use browseterm_server_local.Ownership.{IsStrict, Owned, Authorised, lookup_request, has_row, row_of}

module _ (e : Env) (c u : String) (l : Log) where
  -- The world right after the lookup.
  abbrev pub Asked : World → Type 0
  Asked w = w.log ≡ http (lookup_request e c u) ∷ l

  -- What is returned as a row is a row in Cloud's answer.
  abbrev pub Answered : Value → World → Type 0
  Answered row w =
      Asked w
      × (truthy row ≡ true → row_of (answer (e.on_http l (lookup_request e c u))) ≡ returned row)

  of_answer :
      (a : Reply Value)
      → answer (e.on_http l (lookup_request e c u)) ≡ a
      → (w : World) → Asked w
      → Post Answered Asked
          (Action.continue (Action.of_reply a) (λ v. lift (get_item v "container")) e w).0
          (Action.continue (Action.of_reply a) (λ v. lift (get_item v "container")) e w).1
  unfolding lift
  of_answer (raised x) same w asked = asked
  of_answer (returned v) same w asked = of_item (get_item v "container") refl
    where
      of_item :
          (i : Reply Value) → get_item v "container" ≡ i → Post Answered Asked (Action.of_reply i) w
      of_item (raised x) found = asked
      of_item (returned row) found = (asked, λ row_is. rw (ap row_of same) found)

  pub Runs-on_not_found : (x : Error) → Runs e Asked (Client.on_not_found null x) Answered Asked
  unfolding Client.on_not_found pure raise when◌then◌else◌ truthy
  Runs-on_not_found (cloud_client_error code message) = by_code (eqb code 404)
    where
      by_code :
          (b : Bool)
          → Runs e Asked
              (when b then pure null else raise (cloud_client_error code message))
              Answered
              Asked
      by_code true = record { at = λ w asked. (asked, λ absurd_row. ground arith) }
      by_code false = record { at = λ w asked. asked }
  Runs-on_not_found x = record { at = λ w asked. asked }

  pub Runs-database_failed : (x : Error) → Runs e Asked (Rows.database_failed x) Answered Asked
  unfolding Rows.database_failed ◌>>=◌ format_value raise
  Runs-database_failed (cloud_client_error code message) = record { at = λ w asked. asked }
  Runs-database_failed x = record { at = λ w asked. asked }

abbrev ask : (c u : String) → Action Value
ask c u = do
  t ← format_value (str c)
  v ← Client.request get_method ("/containers/" <> t) none (some (Client.user_fields (str u)))
  lift (get_item v "container")

Runs-ask :
    (e : Env) (c u : String) (l : Log)
    → Runs e (λ w. w.log ≡ l) (ask c u) (Answered e c u l) (Asked e c u l)
unfolding Client.request ◌>>=◌ format_value format perform asks lift
Runs-ask e c u l = record {
  at = λ w same.
      subst (λ l'. Post (Answered e c u l') (Asked e c u l') (ask c u e w).0 (ask c u e w).1) same
        (of_answer e c u w.log (answer (e.on_http w.log (lookup_request e c u))) refl
          (record w { log = http (lookup_request e c u) ∷ w.log }) refl);
}

-- One request is made, and what is returned as a row is a row in Cloud's answer.
Runs-get_container :
    (e : Env) (c u : String) (l : Log)
    → Runs e
        (λ w. w.log ≡ l)
        (Rows.get_container (record { container_id = c; user_id = u }))
        (Answered e c u l)
        (Asked e c u l)
unfolding Rows.get_container Client.get_container
Runs-get_container e c u l =
    Runs-try_except _ _ (Runs-try_except _ _ (Runs-ask e c u l) (Runs-on_not_found e c u l))
      (Runs-database_failed e c u l)

-- The lookup's model, of what the field for the id accepts.
abbrev model_of : (u : String) → Option String → Option GetContainerDbModel
model_of u none = none
model_of u (some c) = some (record { container_id = c; user_id = u })

get_container_db_model-model_of :
    (p : Pydantic) (v : Value) (u : String)
    → IsStrict p
    → get_container_db_model p v (str u) ≡ model_of u (p.str_field v)
unfolding get_container_db_model
get_container_db_model-model_of p v u strict = by_field (p.str_field v)
  where
    by_field :
        (o : Option String)
        → Validate.◌>>=◌ o (λ c.
          Validate.◌>>=◌
            (p.str_field (str u))
            (λ u'. some (record { container_id = c; user_id = u' })))
          ≡ model_of u o
    by_field none = refl
    by_field (some c) = rw (strict.accepts_str u) refl

accepted :
    (p : Pydantic) (c u : String)
    → IsStrict p
    → get_container_db_model p (str c) (str u) ≡ some (record { container_id = c; user_id = u })
accepted p c u strict =
    get_container_db_model-model_of p (str c) u strict ∙ ap (model_of u) (strict.accepts_str c)

of_accepted :
    (e : Env) (c u : String) (l : Log) (fields : List Value)
    → Runs e
        (λ w. w.log ≡ l)
        (validated "GetContainerDBModel" fields (some (record { container_id = c; user_id = u }))
          >>= Rows.get_container)
        (Answered e c u l)
        (Asked e c u l)
unfolding ◌>>=◌ validated
of_accepted e c u l fields = record { at = (Runs-get_container e c u l).at }

-- The same for the lookup by an id and a user that are texts.
pub Runs-ask_again :
    (e : Env) (c u : String) (l : Log)
    → IsStrict e.pydantic
    → Runs e
        (λ w. w.log ≡ l)
        (Rows.get_container_by_id (str c) (str u))
        (Answered e c u l)
        (Asked e c u l)
unfolding Rows.get_container_by_id ◌>>=◌
Runs-ask_again e c u l strict = record {
  at =
      (subst
        (λ o.
          Runs e (λ w. w.log ≡ l)
            (validated "GetContainerDBModel" (str c ∷ str u ∷ []) o >>= Rows.get_container)
            (Answered e c u l) (Asked e c u l))
        (sym (accepted e.pydantic c u strict)) (of_accepted e c u l (str c ∷ str u ∷ []))).at;
}
