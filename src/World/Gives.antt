-- ===== src/World/Gives.antt =====
-- What an action returns, where it returns: one rule for each way to build an action.
use browseterm_server_local.Prelude.{Bool, true, false, String, Option, none, some, List, ◌≡◌, refl}
use browseterm_server_local.Python.Value.{Value}
use browseterm_server_local.Python.Error.{Error, Reply, returned, raised}
use browseterm_server_local.World.Events.{Env}
use browseterm_server_local.World.Action
use browseterm_server_local.World.Action.{
  when◌then◌else◌, try_except, World, Outcome, ok, err, hanging, Action, pure, raise, lift, asks,
  ◌>>=◌, validated,
}
use browseterm_server_local.World.Rules.{Keeps}

abbrev pub Returns : {A : Type 0} → (A → Type 0) → Outcome A → Type 0
Returns Q (ok a) = Q a
Returns Q _ = Unit

-- Whatever `m` returns has `Q`.
pub record Gives {A : Type 0} (e : Env) (m : Action A) (Q : A → Type 0) : Type 0 where
  pub value : (w : World) → Returns Q (m e w).0

module _ {e : Env} {A : Type 0} {Q : A → Type 0} where
  pub Gives-pure : (a : A) → Q a → Gives e (pure a) Q
  unfolding pure
  Gives-pure a q = record { value = λ w. q }

  pub Gives-raise : (x : Error) → Gives e (raise x) Q
  unfolding raise
  Gives-raise x = record { value = λ w. tt }

  pub Gives-lift : (r : Reply A) → ((a : A) → r ≡ returned a → Q a) → Gives e (lift r) Q
  unfolding lift
  Gives-lift (returned a) q = record { value = λ w. q a refl }
  Gives-lift (raised x) q = record { value = λ w. tt }

  pub Gives-validated :
      (model : String) (fields : List Value) (o : Option A)
      → ((a : A) → o ≡ some a → Q a)
      → Gives e (validated model fields o) Q
  unfolding validated
  Gives-validated model fields (some a) q = record { value = λ w. q a refl }
  Gives-validated model fields none q = record { value = λ w. tt }

module _ {e : Env} {A : Type 0} {Q : A → Type 0} where
  pub Gives-when :
      (b : Bool) (m n : Action A) → Gives e m Q → Gives e n Q → Gives e (when b then m else n) Q
  unfolding when◌then◌else◌
  Gives-when true m n gm gn = gm
  Gives-when false m n gm gn = gn

  pub Gives-try_except :
      (m : Action A) (h : Error → Action A)
      → Gives e m Q
      → ((x : Error) → Gives e (h x) Q)
      → Gives e (try_except m h) Q
  unfolding try_except
  Gives-try_except m h gm gh = record { value = λ w. go (m e w).0 (m e w).1 (gm.value w) }
    where
      go : (r : Outcome A) (w' : World) → Returns Q r → Returns Q (Action.handle r h e w').0
      go (ok a) w' q = q
      go (err x) w' q = (gh x).value w'
      go hanging w' q = q

module _ {e : Env} {A B : Type 0} {Q : B → Type 0} where
  pub Gives-bind :
      (m : Action A) (f : A → Action B) → ((a : A) → Gives e (f a) Q) → Gives e (m >>= f) Q
  unfolding ◌>>=◌
  Gives-bind m f k = record { value = λ w. go (m e w).0 (m e w).1 }
    where
      go : (r : Outcome A) (w' : World) → Returns Q (Action.continue r f e w').0
      go (ok a) w' = (k a).value w'
      go (err x) w' = tt
      go hanging w' = tt

  pub Gives-bind_asks :
      (g : Env → A) (f : A → Action B) → Gives e (f (g e)) Q → Gives e (asks g >>= f) Q
  unfolding ◌>>=◌
  Gives-bind_asks g f k = record { value = k.value }

  pub Gives-bind_lift :
      (r : Reply A) (f : A → Action B)
      → ((a : A) → r ≡ returned a → Gives e (f a) Q)
      → Gives e (lift r >>= f) Q
  unfolding ◌>>=◌
  Gives-bind_lift (returned a) f k = record { value = (k a refl).value }
  Gives-bind_lift (raised x) f k = record { value = λ w. tt }

  pub Gives-bind_validated :
      (model : String) (fields : List Value) (o : Option A) (f : A → Action B)
      → ((a : A) → o ≡ some a → Gives e (f a) Q)
      → Gives e (validated model fields o >>= f) Q
  unfolding ◌>>=◌ validated
  Gives-bind_validated model fields (some a) f k = record { value = (k a refl).value }
  Gives-bind_validated model fields none f k = record { value = λ w. tt }

module _ {e : Env} {A B : Type 0} {Q : A → Type 0} {Q' : B → Type 0} where
  -- The rest may use what is known of the first part's value.
  pub Gives-bind_known :
      (m : Action A) (f : A → Action B)
      → Gives e m Q
      → ((a : A) → Q a → Gives e (f a) Q')
      → Gives e (m >>= f) Q'
  unfolding ◌>>=◌
  Gives-bind_known m f gm gf = record { value = λ w. go (m e w).0 (m e w).1 (gm.value w) }
    where
      go : (r : Outcome A) (w' : World) → Returns Q r → Returns Q' (Action.continue r f e w').0
      go (ok a) w' q = (gf a q).value w'
      go (err x) w' q = tt
      go hanging w' q = tt

module _ {ℓ} {e : Env} {P : World → Type ℓ} {A B : Type 0} {Q : A → Type 0} where
  -- The rest may use what is known of the value.
  pub Keeps-bind_gives :
      (m : Action A) (f : A → Action B)
      → Keeps e P m
      → Gives e m Q
      → ((a : A) → Q a → Keeps e P (f a))
      → Keeps e P (m >>= f)
  unfolding ◌>>=◌
  Keeps-bind_gives m f km gm kf = record {
    at = λ w h. go (m e w).0 (m e w).1 (gm.value w) (km.at w h);
  }
    where
      go : (r : Outcome A) (w' : World) → Returns Q r → P w' → P (Action.continue r f e w').1
      go (ok a) w' q h = (kf a q).at w' h
      go (err x) w' q h = h
      go hanging w' q h = h
