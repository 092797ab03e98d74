-- ===== src/Pages/Plan.antt =====
-- The plan that the payment page shows.
use browseterm_server_local.Prelude.{
  String, ◌≡◌, refl, ◌⊎◌, Bool, true, false, arith, eq_iff, inl, inr, ap, ◌∙◌, if◌then◌else◌,
}
use browseterm_server_local.Python.Value.{Value, null, str, Items, nil, item}
use browseterm_server_local.Python.Error.{Reply, returned, raised, get, Error}
use browseterm_server_local.Python.Error as Reply
use browseterm_server_local.Pages

-- The value is one of the items.
abbrev pub IsItem : Value → Items → Type 0
IsItem v nil = ⊥
IsItem v (item a vs) = (v ≡ a) ⊎ IsItem v vs

-- No item has the id.
abbrev pub HasNone : String → Items → Type 0
HasNone s nil = Unit
HasNone s (item a vs) = ¬ (get a "id" null ≡ returned (str s)) × HasNone s vs

-- The page's plan: an item with the id, or none where no item has it.
abbrev pub IsSelected : String → Items → Value → Type 0
IsSelected s vs v =
    ((v ≡ null) × HasNone s vs) ⊎ (IsItem v vs × (get v "id" null ≡ returned (str s)))

is_text_lem : (s : String) (v : Value) → Pages.is_text s v ≡ true → v ≡ str s
unfolding Pages.is_text
is_text_lem s (str t) same = ground (arith, eq_iff t s)
is_text_lem s v same = ground arith

is_text_str : (s : String) → Pages.is_text s (str s) ≡ true
unfolding Pages.is_text
is_text_str s = ground (arith, eq_iff s s)

same_item : {a v : Value} → returned a ≡ returned v → v ≡ a
same_item same = ground arith

-- One item of the list, with what holds of the rest.
module _ (s : String) (a v : Value) (vs : Items)
    (rest : Pages.selected_plan s vs ≡ returned v → IsSelected s vs v) where
  not_this :
      (id : Value)
      → get a "id" null ≡ returned id
      → Pages.is_text s id ≡ false
      → ¬ (get a "id" null ≡ returned (str s))
  not_this id is_id not_s is_s = grind (arith, is_text_str s)

  extend : ¬ (get a "id" null ≡ returned (str s)) → IsSelected s vs v → IsSelected s (item a vs) v
  extend other (inl (is_null, none)) = inl (is_null, (other, none))
  extend other (inr (member, same)) = inr (inr member, same)

  by_test :
      (id : Value) (b : Bool)
      → get a "id" null ≡ returned id
      → Pages.is_text s id ≡ b
      → (if b then returned a else Pages.selected_plan s vs) ≡ returned v
      → IsSelected s (item a vs) v
  by_test id true is_id is_s found = inr (
    inl (same_item found),
    ap (λ t. get t "id" null) (same_item found)
        ∙ is_id
        ∙ ap (λ t. returned t) (is_text_lem s id is_s),
  )
  by_test id false is_id not_s found = extend (not_this id is_id not_s) (rest found)

  by_id :
      (r : Reply Value)
      → get a "id" null ≡ r
      → Reply.◌>>=◌ r (λ id. if Pages.is_text s id then returned a else Pages.selected_plan s vs)
        ≡ returned v
      → IsSelected s (item a vs) v
  by_id (raised x) is_r found = ground arith
  by_id (returned id) is_r found = by_test id (Pages.is_text s id) is_r refl found

-- Where the payment page finds its plan without an exception, it is a listed plan with the id that
-- is asked for, or it is none, and no listed plan has that id.
pub selected_plan-IsSelected :
    (s : String) (vs : Items) (v : Value)
    → Pages.selected_plan s vs ≡ returned v
    → IsSelected s vs v
unfolding Pages.selected_plan
selected_plan-IsSelected s nil v same = ground arith
selected_plan-IsSelected s (item a vs) v same =
    by_id s a v vs (selected_plan-IsSelected s vs v) (get a "id" null) refl same
