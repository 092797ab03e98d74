-- ===== src/Application/Order.antt =====
-- The order of the routes. The framework tries them in the order in which they are registered, as a
-- comment of src/app.py says; how it matches a path with a pattern is a parameter.
use browseterm_server_local.Prelude.{
  String, List, [], ◌∷◌, ◌==◌, ◌&&◌, ◌≡◌, refl, Bool, true, false, Option, none, some, eqb,
  if◌then◌else◌, sym,
}
use mathlib.Core.Path.{fun_ext, subst}
use Prim.Native.Char.{code}
use browseterm_server_local.World.Messages.{HttpMethod, get_method, post_method}
use browseterm_server_local.Application.{Route, routes}
use browseterm_server_local.Application.Every.{IsRoute, All, ◌&◌, of_all}

abbrev same_method : HttpMethod → HttpMethod → Bool
same_method get_method get_method = true
same_method post_method post_method = true
same_method _ _ = false

-- The first registered route that takes the method and the path.
abbrev pub dispatch : (String → String → Bool) → List Route → HttpMethod → String → Option Route
dispatch matches [] m path = none
dispatch matches (r ∷ rs) m path =
    let rest = dispatch matches rs m path in
    if same_method r.method m && matches r.path path then some r else rest

-- Whether a pattern has a parameter, such as `{provider}`.
abbrev pub has_brace : String → Bool
has_brace String.[] = false
has_brace (String.◌∷◌ c s) = let rest = has_brace s in if eqb (code c) b'{' then true else rest

-- The path begins as the pattern does before its parameter.
abbrev pub begins_like : (pattern path : String) → Bool
begins_like String.[] path = true
begins_like (String.◌∷◌ c s) String.[] = eqb (code c) b'{'
begins_like (String.◌∷◌ c s) (String.◌∷◌ d t) =
    let rest = begins_like s t in if eqb (code c) b'{' then true else eqb (code c) (code d) && rest

-- The documented reading of patterns: one without a parameter is its only path, and what stands
-- before a parameter is matched literally.
pub record IsMatcher (matches : String → String → Bool) : Type 0 where
  pub exact : (p q : String) → has_brace p ≡ false → matches p q ≡ (p == q)
  pub literal : (p q : String) → has_brace p ≡ true → begins_like p q ≡ false → matches p q ≡ false

module _ (matches : String → String → Bool) (h : IsMatcher matches) where
  -- A matcher that computes wherever the two laws decide.
  abbrev decided : String → String → Bool
  decided p q = if has_brace p then (if begins_like p q then matches p q else false) else p == q

  decided_lem : (p q : String) → matches p q ≡ decided p q
  decided_lem p q = by_brace (has_brace p) refl
    where
      by_prefix :
          (b : Bool)
          → has_brace p ≡ true
          → begins_like p q ≡ b
          → matches p q ≡ (if b then matches p q else false)
      by_prefix true brace same = refl
      by_prefix false brace same = h.literal p q brace same

      by_brace :
          (b : Bool)
          → has_brace p ≡ b
          → matches p q ≡ (if b then (if begins_like p q then matches p q else false) else p == q)
      by_brace true same = by_prefix (begins_like p q) same refl
      by_brace false same = h.exact p q same

  abbrev IsReached : (String → String → Bool) → Route → Type 0
  IsReached m r = has_brace r.path ≡ false → dispatch m routes r.method r.path ≡ some r

  every_route : All (IsReached decided) routes
  unfolding routes
  every_route =
      (λ plain. refl)
      & (λ plain. refl)
      & (λ plain. refl)
      & (λ plain. refl)
      & (λ plain. refl)
      & (λ plain. refl)
      & (λ plain. refl)
      & (λ plain. refl)
      & (λ plain. refl)
      & (λ plain. cc)
      & (λ plain. refl)
      & (λ plain. refl)
      & (λ plain. refl)
      & (λ plain. refl)
      & (λ plain. cc)
      & (λ plain. refl)
      & (λ plain. refl)
      & (λ plain. refl)
      & (λ plain. refl)
      & (λ plain. refl)
      & (λ plain. refl)
      & (λ plain. refl)
      & (λ plain. refl)
      & (λ plain. refl)
      & (λ plain. refl)
      & (λ plain. refl)
      & tt

  -- No route shadows another: every route of the table whose path has no parameter is the one that
  -- its method and its path reach, on a matcher of the documented reading.
  pub routes-IsReached :
      (r : Route)
      → IsRoute r routes
      → has_brace r.path ≡ false
      → dispatch matches routes r.method r.path ≡ some r
  routes-IsReached r member plain =
      subst (λ m. dispatch m routes r.method r.path ≡ some r)
        (sym (fun_ext λ p. fun_ext λ q. decided_lem p q))
        (of_all (IsReached decided) routes r every_route member plain)
