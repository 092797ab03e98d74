-- ===== src/Application/Every.antt =====
-- What holds of every route of a table.
use browseterm_server_local.Prelude.{List, [], ◌∷◌, ◌≡◌, ◌⊎◌, inl, inr}
use browseterm_server_local.Application.{Route}

-- The route stands in the table.
abbrev pub IsRoute : Route → List Route → Type 0
IsRoute r [] = ⊥
IsRoute r (s ∷ rs) = (r ≡ s) ⊎ IsRoute r rs

abbrev pub All : (Route → Type 0) → List Route → Type 0
All P [] = Unit
All P (r ∷ rs) = P r × All P rs

infixr 5 ◌&◌
abbrev pub ◌&◌ : {A B : Type 0} → A → B → A × B
a & b = (a, b)

pub of_all : (P : Route → Type 0) (rs : List Route) (r : Route) → All P rs → IsRoute r rs → P r
of_all P [] r all member = elim member [ ]
of_all P (s ∷ rs) r (kept, all) (inl same) = rw same kept
of_all P (s ∷ rs) r (kept, all) (inr member) = of_all P rs r all member
