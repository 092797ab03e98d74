-- ===== src/World/Trace.antt =====
-- Properties of the calls that are made since some moment, and what is known after an action.
use browseterm_server_local.Prelude.{◌≡◌, Bool, true, false, refl, ◌∷◌}
use browseterm_server_local.Python.Error.{Error}
use browseterm_server_local.World.Events.{Env, Log, Event}
use browseterm_server_local.World.Action
use browseterm_server_local.World.Action.{
  when◌then◌else◌, asks, World, Outcome, ok, err, hanging, Action, ◌>>=◌, try_except,
}
use browseterm_server_local.World.Gives.{Gives, Returns}
use browseterm_server_local.World.Halts.{Halts, HasEnded}
use browseterm_server_local.World.Rules.{Keeps}

-- The log grew from `base`, and each call since then has `Q` with the log before it.
pub data Since (Q : Event → Log → Type 0) (base : Log) : Log → Type 0 where
  start : Since Q base base
  more : {event : Event} {l : Log} → Q event l → Since Q base l → Since Q base (event ∷ l)

-- `Q` of the value and the world where an action returns, `R` of the world where it does not.
abbrev pub Post :
    {A : Type 0} → (A → World → Type 0) → (World → Type 0) → Outcome A → World → Type 0
Post Q R (ok a) w = Q a w
Post Q R _ w = R w

pub record Runs {A : Type 0} (e : Env) (P : World → Type 0) (m : Action A) (Q : A → World → Type 0)
    (R : World → Type 0) : Type 0 where
  pub at : (w : World) → P w → Post Q R (m e w).0 (m e w).1

module _ {e : Env} {P : World → Type 0} {A B : Type 0} {Q : A → World → Type 0} where
  -- An invariant that is stronger after the first part.
  pub Keeps-bind_runs :
      (m : Action A) (f : A → Action B)
      → Runs e P m Q P
      → ((a : A) (w : World) → Q a w → P (f a e w).1)
      → Keeps e P (m >>= f)
  unfolding ◌>>=◌
  Keeps-bind_runs m f rm kf = record { at = λ w h. go (m e w).0 (m e w).1 (rm.at w h) }
    where
      go : (r : Outcome A) (w' : World) → Post Q P r w' → P (Action.continue r f e w').1
      go (ok a) w' h = kf a w' h
      go (err x) w' h = h
      go hanging w' h = h

module _ {e : Env} {P R : World → Type 0} {A : Type 0} {Q : A → World → Type 0} where
  pub Runs-try_except :
      (m : Action A) (h : Error → Action A)
      → Runs e P m Q R
      → ((x : Error) → Runs e R (h x) Q R)
      → Runs e P (try_except m h) Q R
  unfolding try_except
  Runs-try_except m h rm rh = record { at = λ w p. go (m e w).0 (m e w).1 (rm.at w p) }
    where
      go :
          (r : Outcome A) (w' : World)
          → Post Q R r w'
          → Post Q R (Action.handle r h e w').0 (Action.handle r h e w').1
      go (ok a) w' q = q
      go (err x) w' q = (rh x).at w' q
      go hanging w' q = q

module _ {e : Env} {P R : World → Type 0} {A B : Type 0} {Q : A → World → Type 0}
    {Q' : B → World → Type 0} where
  pub Runs-bind :
      (m : Action A) (f : A → Action B)
      → Runs e P m Q R
      → ((a : A) → Runs e (Q a) (f a) Q' R)
      → Runs e P (m >>= f) Q' R
  unfolding ◌>>=◌
  Runs-bind m f rm rf = record { at = λ w p. go (m e w).0 (m e w).1 (rm.at w p) }
    where
      go :
          (r : Outcome A) (w' : World)
          → Post Q R r w'
          → Post Q' R (Action.continue r f e w').0 (Action.continue r f e w').1
      go (ok a) w' q = (rf a).at w' q
      go (err x) w' q = q
      go hanging w' q = q

module _ {e : Env} {P : World → Type 0} {A : Type 0} where
  -- An invariant is known after an action, however it ends.
  pub Runs-keeps : (m : Action A) → Keeps e P m → Runs e P m (λ a w. P w) P
  Runs-keeps m km = record { at = λ w p. go (m e w).0 (m e w).1 (km.at w p) }
    where
      go : (r : Outcome A) (w' : World) → P w' → Post (λ a w. P w) P r w'
      go (ok a) w' p = p
      go (err x) w' p = p
      go hanging w' p = p

  module _ {Q : A → World → Type 0} {R R' : World → Type 0} where
    -- Less is known where the action does not return.
    pub Runs-weaken : (m : Action A) → ((w : World) → R w → R' w) → Runs e P m Q R → Runs e P m Q R'
    Runs-weaken m weaker rm = record { at = λ w p. go (m e w).0 (m e w).1 (rm.at w p) }
      where
        go : (r : Outcome A) (w' : World) → Post Q R r w' → Post Q R' r w'
        go (ok a) w' q = q
        go (err x) w' q = weaker w' q
        go hanging w' q = weaker w' q

module _ {e : Env} {P R : World → Type 0} {A : Type 0} {Q : A → World → Type 0} where
  pub Runs-when :
      (b : Bool) (m n : Action A)
      → (b ≡ true → Runs e P m Q R)
      → (b ≡ false → Runs e P n Q R)
      → Runs e P (when b then m else n) Q R
  unfolding when◌then◌else◌
  Runs-when true m n rm rn = rm refl
  Runs-when false m n rm rn = rn refl

  pub Runs-bind_asks :
      {B : Type 0} (g : Env → B) (f : B → Action A)
      → Runs e P (f (g e)) Q R
      → Runs e P (asks g >>= f) Q R
  unfolding ◌>>=◌
  Runs-bind_asks g f r = record { at = r.at }

  -- More is known before the action.
  pub Runs-strengthen :
      {P' : World → Type 0} (m : Action A)
      → ((w : World) → P' w → P w)
      → Runs e P m Q R
      → Runs e P' m Q R
  Runs-strengthen m stronger rm = record { at = λ w p. rm.at w (stronger w p) }

module _ {e : Env} {P : World → Type 0} {A : Type 0} {G : A → Type 0} where
  -- What is known of the value, with an invariant.
  pub Runs-gives : (m : Action A) → Keeps e P m → Gives e m G → Runs e P m (λ a w. G a × P w) P
  Runs-gives m km gm = record { at = λ w p. go (m e w).0 (m e w).1 (gm.value w) (km.at w p) }
    where
      go : (r : Outcome A) (w' : World) → Returns G r → P w' → Post (λ a w. G a × P w) P r w'
      go (ok a) w' q p = (q, p)
      go (err x) w' q p = p
      go hanging w' q p = p

module _ {e : Env} {P R : World → Type 0} {A : Type 0} where
  -- What an invariant implies is known after the action, however it ends.
  pub Runs-keeps_as :
      (m : Action A) → ((w : World) → P w → R w) → Keeps e P m → Runs e P m (λ a w. R w) R
  Runs-keeps_as m implies km = record { at = λ w p. go (m e w).0 (m e w).1 (implies _ (km.at w p)) }
    where
      go : (r : Outcome A) (w' : World) → R w' → Post (λ a w. R w) R r w'
      go (ok a) w' p = p
      go (err x) w' p = p
      go hanging w' p = p

module _ {e : Env} {P : World → Type 0} {A : Type 0} where
  pub Keeps-runs : (m : Action A) → Runs e P m (λ a w. P w) P → Keeps e P m
  Keeps-runs m rm = record { at = λ w p. go (m e w).0 (m e w).1 (rm.at w p) }
    where
      go : (r : Outcome A) (w' : World) → Post (λ a w. P w) P r w' → P w'
      go (ok a) w' p = p
      go (err x) w' p = p
      go hanging w' p = p

module _ {e : Env} {P R R' : World → Type 0} {A : Type 0} {Q : A → World → Type 0} where
  -- A `try` of an action that ends: what its handler comes to is known, on every exception.
  pub Runs-recover :
      (m : Action A) (h : Error → Action A)
      → Halts e m
      → Runs e P m Q R
      → ((x : Error) → Runs e R (h x) Q R')
      → Runs e P (try_except m h) Q R'
  unfolding try_except
  Runs-recover m h hm rm rh = record { at = λ w p. go (m e w).0 (m e w).1 (hm.at w) (rm.at w p) }
    where
      go :
          (r : Outcome A) (w' : World)
          → HasEnded r
          → Post Q R r w'
          → Post Q R' (Action.handle r h e w').0 (Action.handle r h e w').1
      go (ok a) w' ended q = q
      go (err x) w' ended q = (rh x).at w' q
      go hanging w' ended q = elim ended [ ]
