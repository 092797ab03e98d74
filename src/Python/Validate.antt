-- ===== src/Python/Validate.antt =====
-- Chains of fallible field validations, and what an `Optional` field accepts.
use browseterm_server_local.Prelude.{Option, none, some}
use browseterm_server_local.Python.Value.{Value, null}

infixl 5 ◌>>=◌
abbrev pub ◌>>=◌ : {A B : Type 0} → Option A → (A → Option B) → Option B
none >>= f = none
some a >>= f = f a

-- A field of type `Optional[T]`, given what a field of type `T` accepts.
unfoldable pub optional : {A : Type 0} → (Value → Option A) → Value → Option (Option A)
optional accepts null = some none
optional accepts v = do a ← accepts v; some (some a)

-- An optional value as JSON.
abbrev pub or_null : {A : Type 0} → (A → Value) → Option A → Value
or_null f none = null
or_null f (some a) = f a
