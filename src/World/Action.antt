-- ===== src/World/Action.antt =====
-- An action: code that calls the surroundings, keeps the request's context and may raise.
use browseterm_server_local.Prelude.{Bool, true, false, String, Bool, Option, none, some, List, ◌∷◌}
use browseterm_server_local.Python.Value.{Value, format}
use browseterm_server_local.Python.Error.{Error, Reply, returned, raised, error_text, value_error}
use browseterm_server_local.World.Events.{Event, Log, Env}

-- `request_id` and `user` are the context variables of logging_setup.py. `connected` says whether
-- the handler's `ContainerService` has its gRPC stub; `secrets` is the cache of the secrets reader;
-- `has_clients` says whether `CertificateUtils` has its API clients.
pub record World : Type 0 where
  pub log : Log
  pub request_id : String
  pub user : String
  pub connected : Bool
  pub secrets : List (String × Value)
  pub has_clients : Bool

-- `hanging`: a loop was still running when its fuel ended.
pub data Outcome (A : Type 0) : Type 0 where
  ok : A → Outcome A
  err : Error → Outcome A
  hanging : Outcome A

abbrev pub Action : Type 0 → Type 0
Action A = Env → World → Outcome A × World

module _ {A : Type 0} where
  unfoldable pub pure : A → Action A
  pure a e w = (ok a, w)

  unfoldable pub raise : Error → Action A
  raise x e w = (err x, w)

  unfoldable pub hang : Action A
  hang e w = (hanging, w)

  abbrev pub of_reply : Reply A → Outcome A
  of_reply (returned a) = ok a
  of_reply (raised x) = err x

  unfoldable pub lift : Reply A → Action A
  lift r e w = (of_reply r, w)

  -- What the surroundings answer without a call: settings, and pure functions of libraries.
  unfoldable pub asks : (Env → A) → Action A
  asks f e w = (ok (f e), w)

  unfoldable pub gets : (World → A) → Action A
  gets f e w = (ok (f w), w)

  -- A call that leaves the server: it is answered at the log of the calls before it, and logged.
  unfoldable pub perform : (Env → Log → Outcome A) → Event → Action A
  perform answer event e w = (answer e w.log, record w { log = event ∷ w.log })

infix 1 when◌then◌else◌
-- `if` on statements.
unfoldable pub when◌then◌else◌ : {A : Type 0} → Bool → Action A → Action A → Action A
when true then m else n = m
when false then m else n = n

unfoldable pub modify : (World → World) → Action (Unit {0})
modify f e w = (ok tt, f w)

module _ {A B : Type 0} where
  abbrev pub continue : Outcome A → (A → Action B) → Action B
  continue (ok a) f e w = f a e w
  continue (err x) f e w = (err x, w)
  continue hanging f e w = (hanging, w)

  infixl 5 ◌>>=◌ ◌>>◌
  unfoldable pub ◌>>=◌ : Action A → (A → Action B) → Action B
  unfolding pure raise hang lift asks gets modify perform when◌then◌else◌
  ◌>>=◌ m f e w = let (r, w') = m e w in continue r f e w'

  abbrev pub ◌>>◌ : Action A → Action B → Action B
  m >> k = m >>= λ _. k

module _ {A : Type 0} where
  abbrev pub handle : Outcome A → (Error → Action A) → Action A
  handle (ok a) h e w = (ok a, w)
  handle (err x) h e w = h x e w
  handle hanging h e w = (hanging, w)

  -- `try: m` with one `except` for every exception, whose handler may raise again. What `m` did
  -- before it raised stays done.
  unfoldable pub try_except : Action A → (Error → Action A) → Action A
  try_except m h e w = let (r, w') = m e w in handle r h e w'

-- `f"{v}"` and `str(e)`
unfoldable pub format_value : Value → Action String
unfolding format
format_value v e w = (ok (format e.texts.repr v), w)

unfoldable pub text_of : Error → Action String
unfolding error_text
text_of x e w = (ok (error_text e.texts x), w)

-- Building a pydantic model: `fields` are the values that it is given.
unfoldable pub validated : {A : Type 0} → String → List Value → Option A → Action A
validated model fields (some a) e w = (ok a, w)
validated model fields none e w = (err (value_error (e.pydantic.message model fields)), w)
