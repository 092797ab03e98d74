-- ===== src/Python/Value.antt =====
-- The values that the handlers pass about: what `json.loads` makes of a document without
-- fractions. A `dict` keeps its keys in the order of insertion.
use browseterm_server_local.Prelude.{
  zero, ◌≡◌, refl, String, Bool, true, false, not, Option, none, some, ◌==◌, if◌then◌else◌, arith,
  eq_iff,
}
use browseterm_server_local.Python.Text.{ℤ, pos, show_ℤ}

mutual
  pub data Value : Type 0 where
    null : Value
    bool : Bool → Value
    int : ℤ → Value
    str : String → Value
    list : Items → Value
    dict : Fields → Value

  pub data Items : Type 0 where
    nil : Items
    item : Value → Items → Items

  pub data Fields : Type 0 where
    end : Fields
    field : String → Value → Fields → Fields

-- `k in d`, and `d[k]` where it is there.
unfoldable pub find : String → Fields → Option Value
find k end = none
find k (field j v d) = if j == k then some v else find k d

-- `{**d, k: v}`: a key that is there keeps its place.
unfoldable pub insert : String → Value → Fields → Fields
insert k v end = field k v end
insert k v (field j w d) = if j == k then field j v d else field j w (insert k v d)

-- `{**d, **e}`
unfoldable pub merge : Fields → Fields → Fields
unfolding insert
merge d end = d
merge d (field k v e) = merge (insert k v d) e

-- `d.get(k, default)`
unfoldable pub get_or : Value → String → Fields → Value
unfolding find
get_or default k d = elim (find k d) [ none ↦ default | some v ↦ v ]

-- `bool(v)`
unfoldable pub truthy : Value → Bool
truthy null = false
truthy (bool b) = b
truthy (int (pos zero)) = false
truthy (int _) = true
truthy (str s) = not (s == "")
truthy (list nil) = false
truthy (list _) = true
truthy (dict end) = false
truthy (dict _) = true

-- `a or b`
unfoldable pub or_else : Value → Value → Value
unfolding truthy
or_else a b = if truthy a then a else b

-- `f"{v}"`; the text of a list or a dict is `repr`, a parameter.
unfoldable pub format : (Value → String) → Value → String
unfolding show_ℤ
format repr null = "None"
format repr (bool true) = "True"
format repr (bool false) = "False"
format repr (int n) = show_ℤ n
format repr (str s) = s
format repr v = repr v

-- The name of a value's class, in the texts of `TypeError` and `AttributeError`.
unfoldable pub class_name : Value → String
class_name null = "NoneType"
class_name (bool b) = "bool"
class_name (int n) = "int"
class_name (str s) = "str"
class_name (list xs) = "list"
class_name (dict d) = "dict"

pub find-insert :
    (k j : String) (v : Value) (d : Fields)
    → find j (insert k v d) ≡ (if k == j then some v else find j d)
unfolding find insert
find-insert k j v end = refl
find-insert k j v (field i w d) =
    ground (arith, eq_iff k j, eq_iff i k, eq_iff i j, find-insert k j v d)
