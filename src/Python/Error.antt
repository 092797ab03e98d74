-- ===== src/Python/Error.antt =====
-- The exceptions that the source raises or catches, and the results of calls that may raise.
use browseterm_server_local.Prelude.{ℕ, String, ◌<>◌, none, some}
use browseterm_server_local.Python.Text.{show_ℕ}
use browseterm_server_local.Python.Value.{Value, str, list, dict, find, format, class_name}

-- The text is what `str(e)` returns, but for `http_exception`, where it is `e.detail`, and for
-- `cloud_client_error`, where the value is `e.message`. `value_error` stands for its subclasses
-- too (pydantic's `ValidationError`, `JSONDecodeError`), `exception` for any other class that
-- the source does not name. `rpc_error` has the call's status code, its details and its text.
pub data Error : Type 0 where
  http_exception : ℕ → String → Error
  cloud_client_error : ℕ → Value → Error
  container_maker_exception : String → Error
  container_db_exception : String → Error
  payment_gateway_exception : String → Error
  payment_gateway_unavailable_exception : String → Error
  value_error : String → Error
  key_error : String → Error
  type_error : String → Error
  attribute_error : String → Error
  file_not_found_error : String → Error
  rpc_error : ℕ → String → String → Error
  exception : String → Error

-- Texts that other libraries and CPython make: `repr` of a list or a dict, and `str` of
-- FastAPI's `HTTPException`.
pub record Texts : Type 0 where
  pub repr : Value → String
  pub http_exception_text : ℕ → String → String

-- `str(e)`
unfoldable pub error_text : Texts → Error → String
unfolding show_ℕ format
error_text t (http_exception code detail) = t.http_exception_text code detail
error_text t (cloud_client_error code message) =
    "Cloud API error " <> show_ℕ code <> ": " <> format t.repr message
error_text t (container_maker_exception s) = s
error_text t (container_db_exception s) = s
error_text t (payment_gateway_exception s) = s
error_text t (payment_gateway_unavailable_exception s) = s
error_text t (value_error s) = s
error_text t (key_error s) = s
error_text t (type_error s) = s
error_text t (attribute_error s) = s
error_text t (file_not_found_error s) = s
error_text t (rpc_error code details s) = s
error_text t (exception s) = s

-- What a call outside the source answers.
pub data Reply (A : Type 0) : Type 0 where
  returned : A → Reply A
  raised : Error → Reply A

infixl 5 ◌>>=◌
abbrev pub ◌>>=◌ : {A B : Type 0} → Reply A → (A → Reply B) → Reply B
returned a >>= f = f a
raised x >>= f = raised x

-- `v[k]` for a literal text `k`; the texts are those of CPython 3.11 and later.
unfoldable pub get_item : Value → String → Reply Value
unfolding find class_name
get_item (dict d) k = elim (find k d) [
  | none ↦ raised (key_error ("'" <> k <> "'"))
  | some v ↦ returned v
]
get_item (list xs) k = raised (type_error "list indices must be integers or slices, not str")
get_item (str s) k = raised (type_error "string indices must be integers, not 'str'")
get_item v k = raised (type_error ("'" <> class_name v <> "' object is not subscriptable"))

-- `v.get(k, default)`
unfoldable pub get : Value → String → Value → Reply Value
unfolding find class_name
get (dict d) k default = elim (find k d) [ none ↦ returned default | some v ↦ returned v ]
get v k default =
    raised (attribute_error ("'" <> class_name v <> "' object has no attribute 'get'"))
