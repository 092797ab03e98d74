-- ===== src/World/Fails.antt =====
-- With which errors an action fails.

use browseterm_server_local.Python.Error.{Error}
use browseterm_server_local.World.Events.{Env}
use browseterm_server_local.World.Action
use browseterm_server_local.World.Action.{World, Outcome, ok, err, hanging, Action, try_except}

-- Where the outcome is an error, it has `Q`.
abbrev pub FailsWith : {A : Type 0} → (Error → Type 0) → Outcome A → Type 0
FailsWith Q (err x) = Q x
FailsWith Q _ = Unit

-- A `try` fails only as its handler does.
pub try_except-FailsWith :
    {A : Type 0} (e : Env) (Q : Error → Type 0) (m : Action A) (h : Error → Action A) (w : World)
    → ((x : Error) (w' : World) → FailsWith Q (h x e w').0)
    → FailsWith Q (try_except m h e w).0
unfolding try_except
try_except-FailsWith {A} e Q m h w hh = go (m e w).0 (m e w).1
  where
    go : (r : Outcome A) (w' : World) → FailsWith Q (Action.handle r h e w').0
    go (ok a) w' = tt
    go (err x) w' = hh x w'
    go hanging w' = tt
