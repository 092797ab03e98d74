-- ===== src/Tests/Registry.antt =====
-- A Cloud that keeps rows, and the theorem on sequences of operations at it.
use browseterm_server_local.Prelude.{
  ℕ, Bool, not, eqb, arith, String, ◌<>◌, ◌==◌, ◌&&◌, ◌≡◌, refl, sym, ap, ◌∙◌, true, Option, none,
  some, List, [], ◌∷◌, if◌then◌else◌,
}
use browseterm_server_local.Python.Value.{
  Value, str, bool, dict, Fields, field, end, insert, find, find-insert,
}
use browseterm_server_local.Cloud.Ids.{is_id_char, is_plain_id, IsPlainId}
use browseterm_server_local.Python.Strings.{span, all_chars, trim_end}
use browseterm_server_local.Python.Text.Digits.{span-append, append_nil, nil_append, cons_append}
use browseterm_server_local.Python.Error.{returned}
use browseterm_server_local.World.Messages.{
  HttpMethod, HttpRequest, HttpResponse, get_method, post_method,
}
use browseterm_server_local.World.Events.{Env, Log, http}
use browseterm_server_local.Cloud.Client.{http_request, cloud_client, user_fields}
use browseterm_server_local.Cloud.Rows.Registry.{
  Op, Registry, request_of, next, row_at, served, KeepsRows, IsPlain, run_all, replay,
  run_all_refines,
}
use browseterm_server_local.Tests.Setting.{demo, quiet}

-- The text behind the first one's characters.
abbrev rest_of : String → String → String
rest_of String.[] s = s
rest_of (String.◌∷◌ c p) String.[] = ""
rest_of (String.◌∷◌ c p) (String.◌∷◌ d s) = rest_of p s

rest_of-append : (p s : String) → rest_of p (p <> s) ≡ s
rest_of-append String.[] s = nil_append s
rest_of-append (String.◌∷◌ c p) s = rw (cons_append c p s) (rest_of-append p s)

-- The id in a URL of the setting's Cloud, with what stands behind it.
abbrev place : String → String
place url = rest_of "/containers/" (rest_of "https://cloud" url)

place_lem : (s : String) → place ("https://cloud" <> "/containers/" <> s) ≡ s
place_lem s =
    ap (λ t. rest_of "/containers/" t) (rest_of-append "https://cloud" ("/containers/" <> s))
    ∙ rest_of-append "/containers/" s

abbrev user_of : Value → String
user_of (str u) = u
user_of _ = ""

abbrev user_in : Option Fields → String
user_in none = ""
user_in (some d) = elim (find "user_id" d) [ none ↦ "" | some v ↦ user_of v ]

abbrev body_fields : Option Value → Option Fields
body_fields (some (dict d)) = some d
body_fields _ = none

-- The operation that a request asks for, on the id and what stands behind it.
abbrev op_of : HttpMethod → String × String → Option Fields → Option Fields → Op
op_of get_method (c, tail) params fields = Op.find c (user_in params)
op_of post_method (c, tail) params fields =
    if tail == "" then Op.update c (user_in fields) end else Op.remove c (user_in fields)

-- A slash ends the id.
abbrev not_slash : ℕ → Bool
not_slash a = not (eqb a b'/')

abbrev parsed : HttpRequest → Op
parsed r = op_of r.method (span not_slash (place r.url)) r.params (body_fields r.json_body)

-- An update marks the row, whatever its fields are.
abbrev mark : Fields → Fields → Fields
mark d fields = insert "touched" (bool true) d

abbrev missing : HttpResponse
missing = record { status_code = 404; text = "not found"; json = returned (dict end) }

abbrev rows : Log → Registry
rows [] = λ c u. if c == "c1" && u == "u1" then some (field "status" (str "RUNNING") end) else none
rows (http r ∷ l) = next mark (parsed r) (rows l) (row_at (parsed r) (rows l))
rows (_ ∷ l) = rows l

abbrev registry : Env
registry = record demo {
  on_http = λ l r. served mark missing (parsed r) (row_at (parsed r) (rows l));
}

-- The operation without its fields.
abbrev bare : Op → Op
bare (Op.update c u fields) = Op.update c u end
bare op = op

no_slash : (c : String) → all_chars is_id_char c ≡ true → all_chars not_slash c ≡ true
unfolding all_chars is_plain_id
no_slash String.[] plain = refl
no_slash (String.◌∷◌ a c) plain = ground (arith, no_slash c)

plain_no_slash : (c : String) → IsPlainId c → all_chars not_slash c ≡ true
unfolding is_plain_id
plain_no_slash c plain = no_slash c (ground arith)

span_plain : (c : String) → all_chars not_slash c ≡ true → span not_slash c ≡ (c, "")
unfolding span
span_plain c plain =
    ap (λ s. span not_slash s) (sym (append_nil c)) ∙ span-append not_slash c "" plain refl

-- What is read out of a URL.
read_lem :
    (c tail : String)
    → all_chars not_slash c ≡ true
    → span not_slash tail ≡ ("", tail)
    → span not_slash (place ("https://cloud" <> "/containers/" <> c <> tail)) ≡ (c, tail)
read_lem c tail plain stops =
    ap (λ s. span not_slash s) (place_lem (c <> tail)) ∙ span-append not_slash c tail plain stops

whole_lem :
    (c : String)
    → all_chars not_slash c ≡ true
    → span not_slash (place ("https://cloud" <> "/containers/" <> c)) ≡ (c, "")
unfolding span
whole_lem c plain =
    ap (λ s. span not_slash (place ("https://cloud" <> "/containers/" <> s))) (sym (append_nil c))
    ∙ read_lem c "" plain refl

user_lem : (u : String) (fields : Fields) → user_in (some (insert "user_id" (str u) fields)) ≡ u
user_lem u fields =
    ap (λ o. elim o as (λ _. String) [ none ↦ "" | some v ↦ user_of v ])
      (find-insert "user_id" "user_id" (str u) fields)

parsed-request_of : (op : Op) → IsPlain op → parsed (request_of registry op) ≡ bare op
unfolding http_request cloud_client trim_end user_fields find span
parsed-request_of (Op.find c u) plain =
    ap (λ p. op_of get_method p (some (user_fields (str u))) none)
      (whole_lem c (plain_no_slash c plain))
parsed-request_of (Op.update c u fields) plain =
    ap (λ p. op_of post_method p none (some (insert "user_id" (str u) fields)))
      (whole_lem c (plain_no_slash c plain))
    ∙ ap (λ v. Op.update c v end) (user_lem u fields)
parsed-request_of (Op.remove c u) plain =
    ap (λ p. op_of post_method p none (some (user_fields (str u))))
      (read_lem c "/delete" (plain_no_slash c plain) refl)

-- An operation's fields do not matter here.
bare_lem :
    (op : Op) (f : Registry)
    → (row_at (bare op) f ≡ row_at op f)
      × ((o : Option Fields) → next mark (bare op) f o ≡ next mark op f o)
      × ((o : Option Fields) → served mark missing (bare op) o ≡ served mark missing op o)
bare_lem (Op.find c u) f = (refl, (λ o. refl), (λ o. refl))
bare_lem (Op.update c u fields) f = (refl, by_next, by_served)
  where
    by_next :
        (o : Option Fields)
        → next mark (Op.update c u end) f o ≡ next mark (Op.update c u fields) f o
    by_next none = refl
    by_next (some d) = refl

    by_served :
        (o : Option Fields)
        → served mark missing (Op.update c u end) o ≡ served mark missing (Op.update c u fields) o
    by_served none = refl
    by_served (some d) = refl
bare_lem (Op.remove c u) f = (refl, (λ o. refl), (λ o. refl))

registry-KeepsRows : KeepsRows mark registry rows
registry-KeepsRows = record {
  missing = missing;
  missing_status = refl;
  serves = λ op l plain.
      ap (λ p. served mark missing p (row_at p (rows l))) (parsed-request_of op plain)
      ∙ (bare_lem op (rows l)).2 (row_at (bare op) (rows l))
      ∙ ap (λ o. served mark missing op o) (bare_lem op (rows l)).0;
  keeps = λ op l plain.
      ap (λ p. next mark p (rows l) (row_at p (rows l))) (parsed-request_of op plain)
      ∙ (bare_lem op (rows l)).1 (row_at (bare op) (rows l))
      ∙ ap (λ o. next mark op (rows l) o) (bare_lem op (rows l)).0;
}

-- The owner updates the row; another user can neither find it nor delete it; the owner deletes it.
abbrev ops : List Op
ops =
    Op.update "c1" "u1" (field "status" (str "FAILED") end)
    ∷ Op.find "c1" "u2"
    ∷ Op.remove "c1" "u2"
    ∷ Op.remove "c1" "u1"
    ∷ Op.find "c1" "u1"
    ∷ []

run_all_refines_example :
    ((run_all ops registry quiet).0 ≡ (replay mark ops (rows quiet.log)).0)
    × (rows (run_all ops registry quiet).1.log ≡ (replay mark ops (rows quiet.log)).1)
unfolding all_chars is_plain_id
run_all_refines_example =
    run_all_refines mark registry rows registry-KeepsRows ops quiet
      (refl, (refl, (refl, (refl, (refl, tt)))))
