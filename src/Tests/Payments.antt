-- ===== src/Tests/Payments.antt =====
-- The theorem on the number of payments, applied at a request that pays.
use browseterm_server_local.Prelude.{suc, ◌≤◌, []}
use browseterm_server_local.Python.Value.{str, dict, end, field}
use browseterm_server_local.Python.Error.{returned}
use browseterm_server_local.Web.{Request}
use browseterm_server_local.Payments
use browseterm_server_local.Payments.Once.{payments, pay_once}
use browseterm_server_local.Tests.Setting.{demo, quiet, session}

abbrev checkout : Request
checkout = record {
  cookies = [];
  headers = [];
  query_params = [];
  path_params = [];
  body =
      returned (dict (field "plan_id" (str "developer") (field "idempotency_key" (str "k1") end)));
}

pay_once_example :
    payments (Payments.pay checkout session demo quiet).1.log ≤ suc (payments quiet.log)
pay_once_example = pay_once demo checkout session quiet
