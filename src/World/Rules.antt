-- ===== src/World/Rules.antt =====
-- Invariants of actions, one rule for each way to build an action.
use browseterm_server_local.Prelude.{
  ◌∷◌, ◌≡◌, refl, Bool, true, false, if◌then◌else◌, String, Option, none, some, List,
}
use mathlib.Core.Path.{subst, sym}
use browseterm_server_local.Python.Value.{Value, format}
use browseterm_server_local.Python.Error.{Error, Reply, returned, raised}
use browseterm_server_local.World.Events.{Env, Log, Event}
use browseterm_server_local.World.Action
use browseterm_server_local.World.Action.{
  when◌then◌else◌, World, Outcome, ok, err, hanging, Action, pure, raise, hang, of_reply, lift,
  asks, gets, perform, modify, ◌>>=◌, try_except, format_value, text_of, validated,
}

-- However `m` ends, it leads from a world with `P` to one with `P`.
pub record Keeps {ℓ} {A : Type 0} (e : Env) (P : World → Type ℓ) (m : Action A) : Type ℓ where
  pub at : (w : World) → P w → P (m e w).1

module _ {ℓ} {e : Env} {P : World → Type ℓ} where
  pub Keeps-pure : {A : Type 0} (a : A) → Keeps e P (pure a)
  unfolding pure
  Keeps-pure a = record { at = λ w h. h }

  pub Keeps-raise : {A : Type 0} (x : Error) → Keeps e P (raise {A = A} x)
  unfolding raise
  Keeps-raise x = record { at = λ w h. h }

  pub Keeps-hang : {A : Type 0} → Keeps e P (hang {A = A})
  unfolding hang
  Keeps-hang = record { at = λ w h. h }

  pub Keeps-lift : {A : Type 0} (r : Reply A) → Keeps e P (lift r)
  unfolding lift
  Keeps-lift r = record { at = λ w h. h }

  pub Keeps-asks : {A : Type 0} (f : Env → A) → Keeps e P (asks f)
  unfolding asks
  Keeps-asks f = record { at = λ w h. h }

  pub Keeps-gets : {A : Type 0} (f : World → A) → Keeps e P (gets f)
  unfolding gets
  Keeps-gets f = record { at = λ w h. h }

  pub Keeps-format_value : (v : Value) → Keeps e P (format_value v)
  unfolding format_value
  Keeps-format_value v = record { at = λ w h. h }

  pub Keeps-text_of : (x : Error) → Keeps e P (text_of x)
  unfolding text_of
  Keeps-text_of x = record { at = λ w h. h }

  pub Keeps-validated :
      {A : Type 0} (model : String) (fields : List Value) (o : Option A)
      → Keeps e P (validated model fields o)
  unfolding validated
  Keeps-validated model fields (some a) = record { at = λ w h. h }
  Keeps-validated model fields none = record { at = λ w h. h }

  pub Keeps-when :
      {A : Type 0} (b : Bool) (m n : Action A)
      → (b ≡ true → Keeps e P m)
      → (b ≡ false → Keeps e P n)
      → Keeps e P (when b then m else n)
  unfolding when◌then◌else◌
  Keeps-when true m n km kn = km refl
  Keeps-when false m n km kn = kn refl

  -- The rest may use what the first part returned.
  pub Keeps-bind_eq :
      {A B : Type 0} (m : Action A) (f : A → Action B)
      → Keeps e P m
      → ((w : World) (a : A) → (m e w).0 ≡ ok a → Keeps e P (f a))
      → Keeps e P (m >>= f)
  unfolding ◌>>=◌
  Keeps-bind_eq {A} {B} m f km kf = record {
    at = λ w h. go (m e w).0 (m e w).1 (λ a q. kf w a q) refl (km.at w h);
  }
    where
      go :
          (r : Outcome A) (w' : World)
          → ((a : A) → r ≡ ok a → Keeps e P (f a))
          → r ≡ r
          → P w'
          → P (Action.continue r f e w').1
      go (ok a) w' k same h = (k a refl).at w' h
      go (err x) w' k same h = h
      go hanging w' k same h = h

  pub Keeps-bind :
      {A B : Type 0} (m : Action A) (f : A → Action B)
      → Keeps e P m
      → ((a : A) → Keeps e P (f a))
      → Keeps e P (m >>= f)
  Keeps-bind m f km kf = Keeps-bind_eq m f km (λ w a same. kf a)

  pub Keeps-try_except :
      {A : Type 0} (m : Action A) (h : Error → Action A)
      → Keeps e P m
      → ((x : Error) → Keeps e P (h x))
      → Keeps e P (try_except m h)
  unfolding try_except
  Keeps-try_except {A} m h km kh = record { at = λ w p. go (m e w).0 (m e w).1 (km.at w p) }
    where
      go : (r : Outcome A) (w' : World) → P w' → P (Action.handle r h e w').1
      go (ok a) w' p = p
      go (err x) w' p = (kh x).at w' p
      go hanging w' p = p

module _ {ℓ} {e : Env} {P : World → Type ℓ} {A B : Type 0} where
  -- The rest runs on what the surroundings answer.
  pub Keeps-bind_asks :
      (g : Env → A) (f : A → Action B) → Keeps e P (f (g e)) → Keeps e P (asks g >>= f)
  unfolding ◌>>=◌
  Keeps-bind_asks g f k = record { at = k.at }

  pub Keeps-bind_lift :
      (r : Reply A) (f : A → Action B)
      → ((a : A) → r ≡ returned a → Keeps e P (f a))
      → Keeps e P (lift r >>= f)
  unfolding ◌>>=◌
  Keeps-bind_lift (returned a) f k = record { at = (k a refl).at }
  Keeps-bind_lift (raised x) f k = record { at = λ w h. h }

  pub Keeps-bind_validated :
      (model : String) (fields : List Value) (o : Option A) (f : A → Action B)
      → ((a : A) → o ≡ some a → Keeps e P (f a))
      → Keeps e P (validated model fields o >>= f)
  unfolding ◌>>=◌ validated
  Keeps-bind_validated model fields (some a) f k = record { at = (k a refl).at }
  Keeps-bind_validated model fields none f k = record { at = λ w h. h }

module _ {ℓ} {e : Env} {P : World → Type ℓ} {B : Type 0} where
  pub Keeps-bind_format :
      (v : Value) (f : String → Action B)
      → Keeps e P (f (format e.texts.repr v))
      → Keeps e P (format_value v >>= f)
  unfolding ◌>>=◌ format_value
  Keeps-bind_format v f k = record { at = k.at }

-- Invariants of the log alone: the request's context, the cache and the stub may change.
abbrev pub OnLog {ℓ} : (Log → Type ℓ) → World → Type ℓ
OnLog L w = L w.log

module _ {ℓ} {e : Env} {L : Log → Type ℓ} where
  -- A call is allowed by the invariant wherever it is made.
  pub Keeps-perform :
      {A : Type 0} (answer : Env → Log → Outcome A) (event : Event)
      → ((l : Log) → L l → L (event ∷ l))
      → Keeps e (OnLog L) (perform answer event)
  unfolding perform
  Keeps-perform answer event allowed = record { at = λ w h. allowed w.log h }

pub Keeps-modify {ℓ} :
    {e : Env} (L : Log → Type ℓ) (f : World → World)
    → ((w : World) → (f w).log ≡ w.log)
    → Keeps e (OnLog L) (modify f)
unfolding modify
Keeps-modify L f same = record { at = λ w h. subst L (sym (same w)) h }

pub ruleset keeps_rules = (
  Keeps-pure, Keeps-raise, Keeps-hang, Keeps-lift, Keeps-asks, Keeps-gets, Keeps-format_value,
  Keeps-text_of, Keeps-validated, Keeps-when, Keeps-bind, Keeps-try_except,
)
