-- ===== src/Ownership/Lookup/Found.antt =====
-- What the routes begin with: where the lookup returns a row, the rest is for a container of the
-- user's.
use browseterm_server_local.Prelude.{
  String, if◌then◌else◌, ◌≡◌, refl, sym, ap, inr, Bool, true, false, Option, none, some, List, [],
  ◌∷◌, inl,
}
use browseterm_server_local.Python.Value.{Value, str, truthy}
use browseterm_server_local.Python.Error.{returned}
use browseterm_server_local.World.Events.{Env, Event, Log, http}
use browseterm_server_local.World.Action
use browseterm_server_local.World.Action.{
  World, Action, ok, ◌>>=◌, validated, pure, raise, lift, when◌then◌else◌, format_value, perform,
  asks,
}
use mathlib.Core.Path.{subst}
use browseterm_server_local.World.Rules.{Keeps, OnLog}
use browseterm_server_local.World.Trace.{Since, more, Post, Runs, Keeps-bind_runs}
use browseterm_server_local.Cloud.Client.{answer}
use browseterm_server_local.Cloud.Rows
use browseterm_server_local.Ownership.Lookup.{
  Answered, Asked, Runs-get_container, model_of, get_container_db_model-model_of,
}
use browseterm_server_local.Ownership.{
  IsStrict, Owned, Authorised, lookup, lookup_request, has_row, row_of,
}

-- The log since `base` holds calls for the user alone.
abbrev pub Mine : (String → Type 0) → Env → (u : String) → (base : Log) → Log → Type 0
Mine IsKnown e u base l = Since (Authorised IsKnown e u) base l

-- The same, after a lookup that returned the container's row.
abbrev pub MineWith :
    (String → Type 0) → Env → (u : String) → (base : Log) → (c : String) → Log → Type 0
MineWith IsKnown e u base c l = Mine IsKnown e u base l × Owned e c u l

-- The lookup asks for the user's row.
lookup-Authorised :
    (IsKnown : String → Type 0) (e : Env) (c u : String) (l : Log)
    → IsKnown c
    → Authorised IsKnown e u (http (lookup_request e c u)) l
lookup-Authorised IsKnown e c u l known = lookup c known refl

-- A call for the user, of whom a container is known.
pub extend_with :
    {IsKnown : String → Type 0} {e : Env} {u : String} {base : Log} {event : Event} {l : Log}
    (c : String)
    → Authorised IsKnown e u event l
    → MineWith IsKnown e u base c l
    → MineWith IsKnown e u base c (event ∷ l)
extend_with c a (s, o) = (more a s, inr o)

-- The row is what Cloud has answered to a lookup of the container for the user.
abbrev pub IsAnswer : Env → (c u : String) → Value → Type 0
IsAnswer e c u row =
    (l : Log) × (row_of (answer (e.on_http l (lookup_request e c u))) ≡ returned row)

module _ (IsKnown : String → Type 0) (e : Env) (u : String) (base : Log) where
  -- Where a row is returned, the container is the user's.
  abbrev Known : Value → Value → World → Type 0
  Known v row w =
      Mine IsKnown e u base w.log
      × (truthy row ≡ true → (c : String) × (v ≡ str c) × Owned e c u w.log × IsAnswer e c u row)

  lookup_with_row :
      (c : String) (l : Log) (row : Value) (w : World)
      → IsKnown c
      → Mine IsKnown e u base l
      → Answered e c u l row w
      → Known (str c) row w
  lookup_with_row c l row w known s (same, is_row) = (
    subst (Mine IsKnown e u base) (sym same) (more (lookup-Authorised IsKnown e c u l known) s),
    λ row_is. (
      c,
      refl,
      subst (Owned e c u) (sym same) (inl (refl, rw (ap has_row (is_row row_is)) row_is)),
      (l, is_row row_is),
    ),
  )

  lookup_ended :
      (c : String) (l : Log) (r : Action.Outcome Value) (w : World)
      → IsKnown c
      → Mine IsKnown e u base l
      → Post (Answered e c u l) (Asked e c u l) r w
      → Post (Known (str c)) (OnLog (Mine IsKnown e u base)) r w
  lookup_ended c l (ok row) w known s answered = lookup_with_row c l row w known s answered
  lookup_ended c l (Action.err x) w known s same =
      subst (Mine IsKnown e u base) (sym same) (more (lookup-Authorised IsKnown e c u l known) s)
  lookup_ended c l Action.hanging w known s same =
      subst (Mine IsKnown e u base) (sym same) (more (lookup-Authorised IsKnown e c u l known) s)

  of_model :
      (v : Value) (o : Option String) (fields : List Value)
      → ((c : String) → o ≡ some c → (v ≡ str c) × IsKnown c)
      → Runs e
          (OnLog (Mine IsKnown e u base))
          (validated "GetContainerDBModel" fields (model_of u o) >>= Rows.get_container)
          (Known v)
          (OnLog (Mine IsKnown e u base))
  unfolding ◌>>=◌ validated
  of_model v none fields is_str = record { at = λ w s. s }
  of_model v (some c) fields is_str = record {
    at = λ w s.
        subst (λ v'. Post (Known v') (OnLog (Mine IsKnown e u base)) (got w).0 (got w).1)
          (sym (is_str c refl).0)
          (lookup_ended c w.log (got w).0 (got w).1 (is_str c refl).1 s
            ((Runs-get_container e c u w.log).at w refl));
  }
    where
      got : World → Action.Outcome Value × World
      got w = Rows.get_container (record { container_id = c; user_id = u }) e w

  Runs-get_container_by_id :
      (v : Value)
      → IsStrict e.pydantic
      → ((c : String) → v ≡ str c → IsKnown c)
      → Runs e
          (OnLog (Mine IsKnown e u base))
          (Rows.get_container_by_id v (str u))
          (Known v)
          (OnLog (Mine IsKnown e u base))
  unfolding Rows.get_container_by_id ◌>>=◌
  Runs-get_container_by_id v strict ids = record {
    at =
        (subst
          (λ o.
            Runs e (OnLog (Mine IsKnown e u base))
              (validated "GetContainerDBModel" (v ∷ str u ∷ []) o >>= Rows.get_container) (Known v)
              (OnLog (Mine IsKnown e u base)))
          (sym (get_container_db_model-model_of e.pydantic v u strict))
          (of_model v (e.pydantic.str_field v) (v ∷ str u ∷ [])
            (λ c same. let is_str = strict.only_str v c same in (is_str, ids c is_str)))).at;
  }

  -- What the routes begin with: with a row, the rest is for a container of the user's.
  pub Keeps-bind_get_container_by_id :
      {B : Type 0} (v : Value) (f : Value → Action B)
      → IsStrict e.pydantic
      → ((c : String) → v ≡ str c → IsKnown c)
      → ((c : String) (row : Value)
          → v ≡ str c
          → truthy row ≡ true
          → IsAnswer e c u row
          → Keeps e (OnLog (MineWith IsKnown e u base c)) (f row))
      → ((row : Value) → truthy row ≡ false → Keeps e (OnLog (Mine IsKnown e u base)) (f row))
      → Keeps e (OnLog (Mine IsKnown e u base)) (Rows.get_container_by_id v (str u) >>= f)
  Keeps-bind_get_container_by_id {B} v f strict ids found missing =
      Keeps-bind_runs _ f (Runs-get_container_by_id v strict ids)
        (λ row w (s, known). by_row row w s known (truthy row) refl)
    where
      by_row :
          (row : Value) (w : World)
          → Mine IsKnown e u base w.log
          → (truthy row ≡ true
              → (c : String) × (v ≡ str c) × Owned e c u w.log × IsAnswer e c u row)
          → (b : Bool) → truthy row ≡ b
          → Mine IsKnown e u base (f row e w).1.log
      by_row row w s known true is_row =
          let (c, same, owned, answered) = known is_row in
          ((found c row same is_row answered).at w (s, owned)).0
      by_row row w s known false is_row = (missing row is_row).at w s

  -- The same where the routes answer 404 without a row.
  pub Keeps-bind_owned_row :
      {B : Type 0} (v : Value) (m : Value → Action B) (n : Action B)
      → IsStrict e.pydantic
      → ((c : String) → v ≡ str c → IsKnown c)
      → ((c : String) (row : Value)
          → v ≡ str c
          → truthy row ≡ true
          → IsAnswer e c u row
          → Keeps e (OnLog (MineWith IsKnown e u base c)) (m row))
      → Keeps e (OnLog (Mine IsKnown e u base)) n
      → Keeps e
          (OnLog (Mine IsKnown e u base))
          (Rows.get_container_by_id v (str u) >>= λ row. when truthy row then m row else n)
  unfolding when◌then◌else◌
  Keeps-bind_owned_row v m n strict ids found missing =
      Keeps-bind_get_container_by_id v _ strict ids
        (λ c row same is_row answered.
          subst (λ b. Keeps e (OnLog (MineWith IsKnown e u base c)) (when b then m row else n))
            (sym is_row) (found c row same is_row answered))
        (λ row is_row.
          subst (λ b. Keeps e (OnLog (Mine IsKnown e u base)) (when b then m row else n))
            (sym is_row) missing)

  pub Keeps-bind_owned :
      {B : Type 0} (v : Value) (m : Value → Action B) (n : Action B)
      → IsStrict e.pydantic
      → ((c : String) → v ≡ str c → IsKnown c)
      → ((c : String) (row : Value)
          → v ≡ str c
          → Keeps e (OnLog (MineWith IsKnown e u base c)) (m row))
      → Keeps e (OnLog (Mine IsKnown e u base)) n
      → Keeps e
          (OnLog (Mine IsKnown e u base))
          (Rows.get_container_by_id v (str u) >>= λ row. when truthy row then m row else n)
  Keeps-bind_owned v m n strict ids found missing =
      Keeps-bind_owned_row v m n strict ids (λ c row same is_row answered. found c row same) missing
