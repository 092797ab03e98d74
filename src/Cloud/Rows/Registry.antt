-- ===== src/Cloud/Rows/Registry.antt =====
-- What src/db_ops/container_db_ops.py promises of the rows of containers: a map from a container and
-- its owner to a row, served by a Cloud that keeps such rows.
use browseterm_server_local.Prelude.{
  String, ◌<>◌, ◌==◌, ◌&&◌, ◌≡◌, refl, ap, ◌∙◌, true, Option, none, some, List, [], ◌∷◌,
  if◌then◌else◌,
}
use browseterm_server_local.Cloud.Ids.{IsPlainId}
use browseterm_server_local.Python.Value.{
  Value, null, bool, dict, str, Fields, field, end, insert, format,
}
use browseterm_server_local.Python.Error.{value_error, returned, get_item}
use browseterm_server_local.World.Messages.{HttpRequest, HttpResponse, get_method, post_method}
use browseterm_server_local.World.Events.{Env, Log, HttpReply, response, http}
use browseterm_server_local.World.Action
use browseterm_server_local.World.Action.{
  World, Outcome, ok, err, Action, pure, raise, lift, ◌>>=◌, try_except, when◌then◌else◌,
}
use browseterm_server_local.Cloud.Client
use browseterm_server_local.Cloud.Client.{http_request, user_fields}
use browseterm_server_local.Cloud.Rows

abbrev pub Registry : Type 0
Registry = (container_id user_id : String) → Option Fields

-- The registry with one row changed.
abbrev pub changed : Registry → (c u : String) → Option Fields → Registry
changed f c u row = λ c' u'. if c' == c && u' == u then row else f c' u'

-- The operations on one row, by its container and its owner.
pub data Op : Type 0 where
  find : (c u : String) → Op
  update : (c u : String) → Fields → Op
  remove : (c u : String) → Op

-- Their requests to Cloud.
abbrev pub request_of : Env → Op → HttpRequest
request_of e (find c u) =
    http_request e.config get_method ("/containers/" <> c) none (some (user_fields (str u)))
request_of e (update c u fields) =
    http_request e.config post_method ("/containers/" <> c)
      (some (dict (insert "user_id" (str u) fields))) none
request_of e (remove c u) =
    http_request e.config post_method ("/containers/" <> c <> "/delete")
      (some (dict (user_fields (str u)))) none

-- The functions of the source.
unfoldable pub run : Op → Action Value
unfolding Rows.get_container Rows.update_container_fields Rows.delete_container
run (find c u) = Rows.get_container (record { container_id = c; user_id = u })
run (update c u fields) = Rows.update_container_fields (str c) (str u) fields
run (remove c u) = do deleted ← Rows.delete_container c u; pure (bool deleted)

-- The container of an operation. Its id stands in the URL as it is, so only a plain id names one
-- container.
abbrev pub container_of : Op → String
container_of (find c u) = c
container_of (update c u fields) = c
container_of (remove c u) = c

abbrev pub IsPlain : Op → Type 0
IsPlain op = IsPlainId (container_of op)

abbrev pub ArePlain : List Op → Type 0
ArePlain [] = Unit
ArePlain (op ∷ ops) = IsPlain op × ArePlain ops

-- The row that an operation is about.
abbrev pub row_at : Op → Registry → Option Fields
row_at (find c u) f = f c u
row_at (update c u fields) f = f c u
row_at (remove c u) f = f c u

-- How Cloud puts the fields of an update into a row.
module _ (apply : Fields → Fields → Fields) where
  -- The registry after an operation on a row.
  abbrev pub next : Op → Registry → Option Fields → Registry
  next op f none = f
  next (find c u) f (some d) = f
  next (update c u fields) f (some d) = changed f c u (some (apply d fields))
  next (remove c u) f (some d) = changed f c u none

  -- What an operation answers, on the row.
  abbrev pub result : Op → Option Fields → Outcome Value
  result (find c u) none = ok null
  result (find c u) (some d) = ok (dict d)
  result (update c u fields) none = ok null
  result (update c u fields) (some d) = ok (dict (apply d fields))
  result (remove c u) none = err (
      value_error
        ("Container with ID '" <> c <> "' not found or you don't have permission to delete it."))
  result (remove c u) (some d) = ok (bool true)

  -- Cloud's answer: the row as it then is, or 404.
  abbrev pub served : HttpResponse → Op → Option Fields → HttpReply
  served missing op none = response missing
  served missing (find c u) (some d) = response (record {
    status_code = 200;
    text = "";
    json = returned (dict (field "container" (dict d) end));
  })
  served missing (update c u fields) (some d) = response (record {
    status_code = 200;
    text = "";
    json = returned (dict (field "container" (dict (apply d fields)) end));
  })
  served missing (remove c u) (some d) =
      response (record { status_code = 200; text = ""; json = returned (dict end) })

  -- Cloud keeps rows: it answers each of the operations' requests from them, and they change with
  -- it.
  pub record KeepsRows (e : Env) (rows : Log → Registry) : Type 0 where
    pub missing : HttpResponse
    pub missing_status : missing.status_code ≡ 404
    pub serves :
        (op : Op) (l : Log)
        → IsPlain op
        → e.on_http l (request_of e op) ≡ served missing op (row_at op (rows l))
    pub keeps :
        (op : Op) (l : Log)
        → IsPlain op
        → rows (http (request_of e op) ∷ l) ≡ next op (rows l) (row_at op (rows l))

  -- The same operations on an abstract registry: their answers, and the registry after them.
  abbrev pub replay : List Op → Registry → List (Outcome Value) × Registry
  replay [] f = ([], f)
  replay (op ∷ ops) f =
      let (answers, g) = replay ops (next op f (row_at op f)) in
      (result op (row_at op f) ∷ answers, g)

-- The operations one after the other: a raised exception ends its own operation alone.
unfoldable pub run_all : List Op → Env → World → List (Outcome Value) × World
unfolding run
run_all [] e w = ([], w)
run_all (op ∷ ops) e w =
    let (answers, w') = run_all ops e (run op e w).1 in ((run op e w).0 ∷ answers, w')

module _ (apply : Fields → Fields → Fields) (e : Env) (rows : Log → Registry)
    (cloud : KeepsRows apply e rows) where
  -- Each operation makes its one request, and answers as its row says.
  run_row :
      (op : Op) (row : Option Fields) (w : World)
      → IsPlain op
      → row_at op (rows w.log) ≡ row
      → ((run op e w).0 ≡ result apply op row)
        × ((run op e w).1.log ≡ http (request_of e op) ∷ w.log)
  unfolding run Rows.get_container Rows.update_container_fields Rows.delete_container
      Rows.database_failed Rows.check_deleted Client.get_container Client.update_container
      Client.delete_container Client.request Client.answer Client.on_not_found try_except ◌>>=◌
      format get_item when◌then◌else◌ pure raise Action.format_value lift
  run_row (find c u) none w plain same =
      rw (cloud.serves (find c u) w.log plain, same, cloud.missing_status) (refl, refl)
  run_row (find c u) (some d) w plain same =
      rw (cloud.serves (find c u) w.log plain, same) (refl, refl)
  run_row (update c u fields) none w plain same =
      rw (cloud.serves (update c u fields) w.log plain, same, cloud.missing_status) (refl, refl)
  run_row (update c u fields) (some d) w plain same =
      rw (cloud.serves (update c u fields) w.log plain, same) (refl, refl)
  run_row (remove c u) none w plain same =
      rw (cloud.serves (remove c u) w.log plain, same, cloud.missing_status) (refl, refl)
  run_row (remove c u) (some d) w plain same =
      rw (cloud.serves (remove c u) w.log plain, same) (refl, refl)

  rows-run :
      (op : Op) (w : World)
      → IsPlain op
      → rows (run op e w).1.log ≡ next apply op (rows w.log) (row_at op (rows w.log))
  rows-run op w plain = ap rows (run_row op _ w plain refl).1 ∙ cloud.keeps op w.log plain

  -- Where Cloud keeps rows, any sequence of lookups, updates and deletions of rows by container
  -- and owner, for plain container ids (letters, digits, hyphens and underscores, at least one),
  -- answers, and changes the rows, as the same sequence does on a map from container and owner to
  -- row: a row that is missing, or is another owner's, is `None` when it is looked up or updated
  -- and a `ValueError` when it is deleted, and nothing changes.
  pub run_all_refines :
      (ops : List Op) (w : World)
      → ArePlain ops
      → ((run_all ops e w).0 ≡ (replay apply ops (rows w.log)).0)
        × (rows (run_all ops e w).1.log ≡ (replay apply ops (rows w.log)).1)
  unfolding run_all
  run_all_refines [] w plain = (refl, refl)
  run_all_refines (op ∷ ops) w (plain, all_plain) =
      let (answers, after) = run_all_refines ops (run op e w).1 all_plain in
      (
        (λ i.
            (run_row op _ w plain refl).0 i
            ∷ (answers ∙ ap (λ f. (replay apply ops f).0) (rows-run op w plain)) i),
        after ∙ ap (λ f. (replay apply ops f).1) (rows-run op w plain),
      )

-- A container id with a slash reaches another route: an update of the container that is named by
-- the id of `c` with "/delete" behind it goes, by the same method, to the URL at which Cloud
-- deletes `c`.
pub update_at_delete :
    (e : Env) (c u : String) (fields : Fields)
    → ((request_of e (update (c <> "/delete") u fields)).url ≡ (request_of e (remove c u)).url)
      × ((request_of e (update (c <> "/delete") u fields)).method
          ≡ (request_of e (remove c u)).method)
unfolding http_request
update_at_delete e c u fields = (refl, refl)
