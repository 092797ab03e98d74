-- ===== src/World/Halts.antt =====
-- Actions that end: they return or raise, and no loop of theirs meets the end of its fuel.
use browseterm_server_local.Prelude.{Bool, true, false, String, Option, none, some, List, ◌≡◌, refl}
use browseterm_server_local.Python.Value.{Value}
use browseterm_server_local.Python.Error.{Error, Reply, returned, raised}
use browseterm_server_local.World.Events.{Env, Log, Event}
use browseterm_server_local.World.Action
use browseterm_server_local.World.Action.{
  when◌then◌else◌, World, Outcome, ok, err, hanging, Action, pure, raise, lift, of_reply, asks,
  gets, perform, modify, ◌>>=◌, try_except, format_value, text_of, validated,
}

abbrev pub HasEnded : {A : Type 0} → Outcome A → Type 0
HasEnded hanging = ⊥
HasEnded _ = Unit

pub record Halts {A : Type 0} (e : Env) (m : Action A) : Type 0 where
  pub at : (w : World) → HasEnded (m e w).0

of_reply-HasEnded : {A : Type 0} (r : Reply A) → HasEnded (of_reply r)
of_reply-HasEnded (returned a) = tt
of_reply-HasEnded (raised x) = tt

module _ {e : Env} {A : Type 0} where
  pub Halts-pure : (a : A) → Halts e (pure a)
  unfolding pure
  Halts-pure a = record { at = λ w. tt }

  pub Halts-raise : (x : Error) → Halts e (raise {A = A} x)
  unfolding raise
  Halts-raise x = record { at = λ w. tt }

  pub Halts-lift : (r : Reply A) → Halts e (lift r)
  unfolding lift
  Halts-lift r = record { at = λ w. of_reply-HasEnded r }

  pub Halts-asks : (f : Env → A) → Halts e (asks f)
  unfolding asks
  Halts-asks f = record { at = λ w. tt }

  pub Halts-gets : (f : World → A) → Halts e (gets f)
  unfolding gets
  Halts-gets f = record { at = λ w. tt }

  -- A call that always answers, and one that may raise.
  pub Halts-perform_ok :
      (g : Env → Log → A) (event : Event) → Halts e (perform (λ e' l. ok (g e' l)) event)
  unfolding perform
  Halts-perform_ok g event = record { at = λ w. tt }

  pub Halts-perform_reply :
      (g : Env → Log → Reply A) (event : Event)
      → Halts e (perform (λ e' l. of_reply (g e' l)) event)
  unfolding perform
  Halts-perform_reply g event = record { at = λ w. of_reply-HasEnded (g e w.log) }

  pub Halts-validated :
      (model : String) (fields : List Value) (o : Option A) → Halts e (validated model fields o)
  unfolding validated
  Halts-validated model fields (some a) = record { at = λ w. tt }
  Halts-validated model fields none = record { at = λ w. tt }

  pub Halts-when :
      (b : Bool) (m n : Action A) → Halts e m → Halts e n → Halts e (when b then m else n)
  unfolding when◌then◌else◌
  Halts-when true m n hm hn = hm
  Halts-when false m n hm hn = hn

  pub Halts-try_except :
      (m : Action A) (h : Error → Action A)
      → Halts e m
      → ((x : Error) → Halts e (h x))
      → Halts e (try_except m h)
  unfolding try_except
  Halts-try_except m h hm hh = record { at = λ w. go (m e w).0 (m e w).1 (hm.at w) }
    where
      go : (r : Outcome A) (w' : World) → HasEnded r → HasEnded (Action.handle r h e w').0
      go (ok a) w' p = tt
      go (err x) w' p = (hh x).at w'
      go hanging w' p = p

module _ {e : Env} where
  pub Halts-modify : (f : World → World) → Halts e (modify f)
  unfolding modify
  Halts-modify f = record { at = λ w. tt }

  pub Halts-format_value : (v : Value) → Halts e (format_value v)
  unfolding format_value
  Halts-format_value v = record { at = λ w. tt }

  pub Halts-text_of : (x : Error) → Halts e (text_of x)
  unfolding text_of
  Halts-text_of x = record { at = λ w. tt }

module _ {e : Env} {A B : Type 0} where
  pub Halts-bind :
      (m : Action A) (f : A → Action B) → Halts e m → ((a : A) → Halts e (f a)) → Halts e (m >>= f)
  unfolding ◌>>=◌
  Halts-bind m f hm hf = record { at = λ w. go (m e w).0 (m e w).1 (hm.at w) }
    where
      go : (r : Outcome A) (w' : World) → HasEnded r → HasEnded (Action.continue r f e w').0
      go (ok a) w' p = (hf a).at w'
      go (err x) w' p = tt
      go hanging w' p = p

-- A sequence ends in a world when its first part does and the rest does where the first part ends.
pub >>=-HasEnded :
    {A B : Type 0} (e : Env) (m : Action A) (f : A → Action B) (w : World)
    → HasEnded (m e w).0
    → ((a : A) → (m e w).0 ≡ ok a → HasEnded (f a e (m e w).1).0)
    → HasEnded ((m >>= f) e w).0
unfolding ◌>>=◌
>>=-HasEnded {A} e m f w hm hf = go (m e w).0 hm (λ a same. hf a same)
  where
    go :
        (r : Outcome A)
        → HasEnded r
        → ((a : A) → r ≡ ok a → HasEnded (f a e (m e w).1).0)
        → HasEnded (Action.continue r f e (m e w).1).0
    go (ok a) p k = k a refl
    go (err x) p k = tt
    go hanging p k = p

pub ruleset halts_rules = (
  Halts-pure, Halts-raise, Halts-lift, Halts-asks, Halts-gets, Halts-perform_ok,
  Halts-perform_reply, Halts-validated, Halts-when, Halts-try_except, Halts-modify,
  Halts-format_value, Halts-text_of, Halts-bind,
)

abbrev pub HasReturned : {A : Type 0} → Outcome A → Type 0
HasReturned (ok a) = Unit
HasReturned _ = ⊥

-- A `try` whose handler returns on every exception.
pub try_except-HasReturned :
    {A : Type 0} (e : Env) (m : Action A) (h : Error → Action A) (w : World)
    → HasEnded (m e w).0
    → ((x : Error) (w' : World) → HasReturned (h x e w').0)
    → HasReturned (try_except m h e w).0
unfolding try_except
try_except-HasReturned {A} e m h w hm hh = go (m e w).0 hm
  where
    go : (r : Outcome A) → HasEnded r → HasReturned (Action.handle r h e (m e w).1).0
    go (ok a) p = tt
    go (err x) p = hh x (m e w).1
    go hanging p = p
