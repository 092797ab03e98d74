-- ===== src/World/Answers.antt =====
-- Actions that answer: they return in every world.
use browseterm_server_local.Prelude.{
  arith, String, ◌≡◌, refl, Bool, true, false, Option, none, some,
}
use browseterm_server_local.Python.Value.{Value, dict, Fields, find}
use browseterm_server_local.Python.Error.{Reply, returned, get, get_item}
use browseterm_server_local.World.Events.{Env, Log, Event}
use browseterm_server_local.World.Action
use browseterm_server_local.World.Action.{
  World, Outcome, ok, err, hanging, Action, ◌>>=◌, when◌then◌else◌, pure, lift, perform, modify,
  format_value,
}
use browseterm_server_local.World.Halts.{HasReturned}

-- Actions that answer, in every world.
pub record Answers {A : Type 0} (e : Env) (m : Action A) : Type 0 where
  pub at : (w : World) → HasReturned (m e w).0

module _ {e : Env} {A B : Type 0} where
  pub Answers-bind :
      (m : Action A) (f : A → Action B)
      → Answers e m
      → ((a : A) → Answers e (f a))
      → Answers e (m >>= f)
  unfolding ◌>>=◌
  Answers-bind m f hm hf = record { at = λ w. go (m e w).0 (m e w).1 (hm.at w) }
    where
      go : (r : Outcome A) (w' : World) → HasReturned r → HasReturned (Action.continue r f e w').0
      go (ok a) w' p = (hf a).at w'
      go (err x) w' p = absurd p
      go hanging w' p = absurd p

module _ {e : Env} where
  pub Answers-pure : {A : Type 0} (a : A) → Answers e (pure a)
  unfolding pure
  Answers-pure a = record { at = λ w. tt }

  pub Answers-format_value : (v : Value) → Answers e (format_value v)
  unfolding format_value
  Answers-format_value v = record { at = λ w. tt }

  pub Answers-modify : (f : World → World) → Answers e (modify f)
  unfolding modify
  Answers-modify f = record { at = λ w. tt }

  pub Answers-perform :
      {A : Type 0} (g : Env → Log → A) (event : Event)
      → Answers e (perform (λ e' l. ok (g e' l)) event)
  unfolding perform
  Answers-perform g event = record { at = λ w. tt }

  pub Answers-when :
      {A : Type 0} (b : Bool) (m n : Action A)
      → Answers e m
      → Answers e n
      → Answers e (when b then m else n)
  unfolding when◌then◌else◌
  Answers-when true m n hm hn = hm
  Answers-when false m n hm hn = hn

  pub Answers-otherwise :
      {A : Type 0} (b : Bool) (m : Action A) (a : A)
      → b ≡ false
      → Answers e (when b then m else pure a)
  unfolding when◌then◌else◌ pure
  Answers-otherwise true m a same = ground arith
  Answers-otherwise false m a same = record { at = λ w. tt }

  -- Every object has a `get`.
  pub Answers-get : (d : Fields) (k : String) (v : Value) → Answers e (lift (get (dict d) k v))
  unfolding get lift
  Answers-get d k v = by_field (find k d)
    where
      by_field :
          (o : Option Value)
          → Answers e
              (lift (elim o as (λ _. Reply Value) [ none ↦ returned v | some x ↦ returned x ]))
      by_field none = record { at = λ w. tt }
      by_field (some x) = record { at = λ w. tt }

pub ruleset answers_rules =
    (Answers-pure, Answers-format_value, Answers-modify, Answers-get, Answers-bind)

module _ {e : Env} {A B : Type 0} where
  pub Answers-bind_value :
      (r : Reply A) (a : A) (f : A → Action B)
      → r ≡ returned a
      → Answers e (f a)
      → Answers e (lift r >>= f)
  unfolding ◌>>=◌ lift
  Answers-bind_value r a f same hf = rw same (record { at = hf.at })

pub get_item-field :
    (d : Fields) (k : String) (v : Value) → find k d ≡ some v → get_item (dict d) k ≡ returned v
unfolding get_item
get_item-field d k v same = rw (get_item, same) refl

pub get-field :
    (d : Fields) (k : String) (v default : Value)
    → find k d ≡ some v
    → get (dict d) k default ≡ returned v
unfolding get
get-field d k v default same = rw (get, same) refl

pub get-missing :
    (d : Fields) (k : String) (default : Value)
    → find k d ≡ none
    → get (dict d) k default ≡ returned default
unfolding get
get-missing d k default same = rw (get, same) refl
