-- ===== src/Web.antt =====
-- Requests and responses of the web framework, as far as the handlers read and build them.
use browseterm_server_local.Prelude.{
  ℕ, String, ◌<>◌, Bool, Option, none, some, List, [], ◌∷◌, ◌==◌, if◌then◌else◌,
}
use browseterm_server_local.Python.Value.{insert, class_name, Value, str, dict, Fields, end, field}
use browseterm_server_local.Python.Error.{
  key_error, type_error, returned, raised, Error, http_exception, Reply,
}
use browseterm_server_local.World.Action.{format_value, Action, pure, ◌>>=◌, text_of}

-- `body` is the outcome of `await request.json()`.
pub record Request : Type 0 where
  pub cookies : List (String × String)
  pub headers : List (String × String)
  pub query_params : List (String × String)
  pub path_params : List (String × String)
  pub body : Reply Value

-- `d.get(k)` of a mapping of texts. A request's headers are listed in the spelling that the source
-- asks for, and each list holds one entry for a key.
unfoldable pub lookup : String → List (String × String) → Option String
lookup k [] = none
lookup k ((j, v) ∷ d) = if j == k then some v else lookup k d

-- What `authenticate_session` puts on `request.state`.
pub record State : Type 0 where
  pub user_info : Value
  pub subscription_info : Value
  pub current_subscription_plan : Value
  pub session_id : String

pub record CookieOptions : Type 0 where
  pub max_age : ℕ
  pub httponly : Bool
  pub secure : Bool
  pub samesite : String

-- A `Set-Cookie` header: of `set_cookie` or of `delete_cookie`.
pub data Cookie : Type 0 where
  set_cookie : (key value : String) → CookieOptions → Cookie
  delete_cookie : String → Cookie

-- What a response shows: a JSON document, a redirect's target, or a page's template and context.
pub data Body : Type 0 where
  json : Value → Body
  location : String → Body
  page : String → Fields → Body

pub record Response : Type 0 where
  pub status_code : ℕ
  pub body : Body
  pub cookies : List Cookie

unfoldable pub json_response : Value → ℕ → Response
json_response content status = record { status_code = status; body = json content; cookies = [] }

unfoldable pub redirect_response : String → Response
redirect_response url = record { status_code = 302; body = location url; cookies = [] }

unfoldable pub template_response : String → Fields → Response
template_response name context = record {
  status_code = 200;
  body = page name context;
  cookies = [];
}

-- `{"error": v}`
unfoldable pub error_content : Value → Value
error_content v = dict (field "error" v end)

-- The end of most handlers: `except HTTPException` answers with the exception's own code, and
-- `except Exception` with 500 and the handler's words before the exception's text.
unfoldable pub error_response : String → Error → Action Response
unfolding json_response error_content
error_response words (http_exception code detail) =
    pure (json_response (error_content (str detail)) code)
error_response words x = do
  t ← text_of x
  pure (json_response (error_content (str (words <> t))) 500)

-- `d["k"]` of a mapping of texts.
unfoldable pub text_item : String → List (String × String) → Reply Value
unfolding lookup
text_item k d = elim (lookup k d) [
  | none ↦ raised (key_error ("'" <> k <> "'"))
  | some s ↦ returned (str s)
]

-- The 404 of a container that is not the caller's, or is not there.
unfoldable pub not_found : Value → Action Response
unfolding json_response error_content format_value
not_found container_id = do
  c ← format_value container_id
  pure (json_response (error_content (str ("Container " <> c <> " not found"))) 404)

-- `{**v, k: w}`: `v` must be a mapping.
unfoldable pub extended : Value → String → Value → Reply Fields
unfolding insert class_name
extended (dict d) k w = returned (insert k w d)
extended v k w = raised (type_error ("'" <> class_name v <> "' object is not a mapping"))
