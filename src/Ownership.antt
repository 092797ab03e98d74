-- ===== src/Ownership.antt =====
-- What the routes' comments in src/api_handlers.py promise of every call that is made for a user:
-- it concerns that user's own rows, images, device, namespace and pods alone.
pub mod Lookup
pub mod Routes
use browseterm_server_local.Prelude.{
  ℕ, String, ◌<>◌, ◌≡◌, refl, ◌⊎◌, Bool, true, false, Option, none, some, List, [], ◌∷◌,
}
use browseterm_server_local.Python.Value.{Value, str, dict, Fields, end, find, truthy}
use browseterm_server_local.Python.Error.{Reply, returned, raised, get_item}
use browseterm_server_local.World.Messages.{
  HttpRequest, HttpResponse, get_method, post_method, GrpcCreateContainerRequest, GrpcContainerKey,
}
use browseterm_server_local.World.Events.{
  Env, Log, Event, HttpReply, Pydantic, SaveTask, http, create_rpc, delete_rpc, save_rpc,
  payment_rpc, read_secret, monotonic, utc_now, sleep, new_request_id, token_urlsafe, start_task,
}
use browseterm_server_local.World.Trace.{Since}
use browseterm_server_local.Cloud.Ids.{IsPlainId}
use browseterm_server_local.Cloud.Client.{http_request, user_fields, answer}

-- pydantic's documented reading of JSON: a field `str` accepts texts and leaves them as they are,
-- and so does `dict[str, str]` with dicts.
pub record IsStrict (p : Pydantic) : Type 0 where
  pub accepts_str : (s : String) → p.str_field (str s) ≡ some s
  pub only_str : (v : Value) (s : String) → p.str_field v ≡ some s → v ≡ str s
  pub only_dict : (v : Value) (d : Fields) → p.dict_str_field v ≡ some d → v ≡ dict d

-- The namespace of a user.
abbrev pub namespace : String → String
namespace u = u <> "-namespace"

-- The lookup of a container's row by its id and its owner.
abbrev pub lookup_request : Env → (c u : String) → HttpRequest
lookup_request e c u =
    http_request e.config get_method ("/containers/" <> c) none (some (user_fields (str u)))

-- Whether an answer to a lookup holds a row.
abbrev pub has_row : Reply Value → Bool
has_row (returned row) = truthy row
has_row (raised x) = false

abbrev pub row_of : Reply Value → Reply Value
row_of (returned v) = get_item v "container"
row_of (raised x) = raised x

abbrev pub Confirms : Env → (c u : String) → Event → Log → Type 0
Confirms e c u (http r) l =
    (r ≡ lookup_request e c u) × (has_row (row_of (answer (e.on_http l r))) ≡ true)
Confirms e c u _ l = ⊥

-- Cloud has answered a lookup of the container for the user with a row.
abbrev pub Owned : Env → (c u : String) → Log → Type 0
Owned e c u [] = ⊥
Owned e c u (event ∷ l) = Confirms e c u event l ⊎ Owned e c u l

-- The routes of Cloud that write a row of the user that the body names.
pub data RowRoute : Type 0 where
  update deletion resumption terminal : RowRoute

abbrev pub row_path : RowRoute → String → String
row_path update c = "/containers/" <> c
row_path deletion c = "/containers/" <> c <> "/delete"
row_path resumption c = "/containers/" <> c <> "/resume"
row_path terminal c = "/internal/containers/" <> c <> "/terminal-session"

-- A request to Cloud for the user, with the calls before it. `IsKnown` is what is known of the ids
-- that it looks up. A row is written by a route that reads the user from the body; the id in its
-- path is plain, or Cloud has answered before that the container is the user's. The route that
-- hibernates a container reads no user, so it is called only for a container of the latter kind.
pub data UserRequest (IsKnown : String → Type 0) (e : Env) (u : String) (l : Log) (r : HttpRequest)
    : Type 0 where
  lookup : (c : String) → IsKnown c → r ≡ lookup_request e c u → UserRequest IsKnown e u l r
  listing :
      (d : Fields)
      → find "user_id" d ≡ some (str u)
      → r ≡ http_request e.config get_method "/containers" none (some d)
      → UserRequest IsKnown e u l r
  creation :
      (d : Fields)
      → find "user_id" d ≡ some (str u)
      → r ≡ http_request e.config post_method "/containers" (some (dict d)) none
      → UserRequest IsKnown e u l r
  writing :
      (route : RowRoute) (c : String) (d : Fields)
      → find "user_id" d ≡ some (str u)
      → IsPlainId c ⊎ Owned e c u l
      → r ≡ http_request e.config post_method (row_path route c) (some (dict d)) none
      → UserRequest IsKnown e u l r
  images :
      r ≡ http_request e.config get_method "/catalog/images" none none → UserRequest IsKnown e u l r
  device :
      r ≡ http_request e.config get_method ("/internal/users/" <> u <> "/active-device") none none
      → UserRequest IsKnown e u l r
  hibernation :
      (c : String)
      → r
        ≡ http_request e.config post_method
            ("/internal/containers/" <> c <> "/hibernate")
            (some (dict end))
            none
      → Owned e c u l
      → UserRequest IsKnown e u l r

abbrev pub pod_id : GrpcCreateContainerRequest → Option Value
pod_id r = elim (r.environment_variables) [ none ↦ none | some d ↦ find "CONTAINER_ID" d ]

-- A call that is made for the user `u`, with the log of the calls before it.
--  - A request to Cloud is one of those above.
--  - A pod is created in `u`'s namespace, labelled with a container that is `u`'s.
--  - A pod is deleted in `u`'s namespace.
--  - A pod is saved, at once or in the background, in `u`'s namespace, for a container that is `u`'s.
abbrev pub Authorised : (String → Type 0) → Env → String → Event → Log → Type 0
Authorised IsKnown e u (http r) l = UserRequest IsKnown e u l r
Authorised IsKnown e u (create_rpc r request_id) l =
    (r.network_name ≡ namespace u) × ((c : String) × (pod_id r ≡ some (str c)) × Owned e c u l)
Authorised IsKnown e u (delete_rpc k request_id) l = k.network_name ≡ namespace u
Authorised IsKnown e u (save_rpc k request_id) l =
    (k.network_name ≡ namespace u) × Owned e k.container_id u l
Authorised IsKnown e u (start_task t) l =
    (t.request.network_name ≡ namespace u)
    × (t.container_id ≡ str t.request.container_id)
    × (t.user_id ≡ str u)
    × Owned e t.request.container_id u l
Authorised IsKnown e u _ l = Unit
