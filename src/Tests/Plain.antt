-- ===== src/Tests/Plain.antt =====
-- The ids in the request of the tests are plain.
use browseterm_server_local.Prelude.{◌≡◌, refl, sym, arith}
use browseterm_server_local.Python.Value.{Value, null, str, find, get_or, format}
use browseterm_server_local.Python.Strings.{all_chars}
use browseterm_server_local.Python.Error.{returned, get_item, get}
use browseterm_server_local.Cloud.Ids.{is_plain_id}
use browseterm_server_local.Web.{text_item, lookup}
use browseterm_server_local.Ownership.Routes.{IsPlainValue}
use browseterm_server_local.Handlers.Rows.Ownership.{HasPlainIds}
use browseterm_server_local.Tests.Setting.{demo, about_c1}
use mathlib.Core.Path.{subst}

c1-IsPlain : IsPlainValue demo (str "c1")
unfolding is_plain_id all_chars format
c1-IsPlain = refl

null-IsPlain : IsPlainValue demo null
unfolding is_plain_id all_chars format
null-IsPlain = refl

pub plain_body :
    (body v : Value)
    → about_c1.body ≡ returned body
    → get_item body "container_id" ≡ returned v
    → IsPlainValue demo v
unfolding get_item find
plain_body body v is_body is_v =
    let is_c1 : v ≡ str "c1" = ground arith in subst (IsPlainValue demo) (sym is_c1) c1-IsPlain

pub about_c1-HasPlainIds : HasPlainIds demo about_c1
unfolding get_item get get_or find text_item lookup
about_c1-HasPlainIds = record {
  in_path = λ v is_v.
      let is_c1 : v ≡ str "c1" = ground arith in subst (IsPlainValue demo) (sym is_c1) c1-IsPlain;
  in_body = plain_body;
  optional_in_body = λ body v is_body is_v.
      let is_c1 : v ≡ str "c1" = ground arith in subst (IsPlainValue demo) (sym is_c1) c1-IsPlain;
  in_filters = λ body filters v is_body is_filters is_v.
      let is_null : v ≡ null = ground arith in subst (IsPlainValue demo) (sym is_null) null-IsPlain;
}
