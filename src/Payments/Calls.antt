-- ===== src/Payments/Calls.antt =====
-- Which calls the parts of `create_payment` make.

use browseterm_server_local.Python.Error.{
  Error, payment_gateway_exception, payment_gateway_unavailable_exception, rpc_error,
}
use browseterm_server_local.World.Events.{Env, Log}
use browseterm_server_local.World.Rules.{
  Keeps, OnLog, Keeps-pure, Keeps-lift, Keeps-asks, Keeps-bind, keeps_rules,
}
use browseterm_server_local.Containers.Client.Calls.{Keeps-read_cert, AllowsSecrets}
use browseterm_server_local.Ownership.Routes.{Keeps-error_response}
use browseterm_server_local.Payments

module _ (e : Env) (L : Log → Type 0) where
  pub Keeps-payment_service : AllowsSecrets e L → Keeps e (OnLog L) Payments.payment_service
  unfolding Payments.payment_service
  Keeps-payment_service secrets = Keeps-bind _ _ (Keeps-asks _) λ c.
      Keeps-bind _ _ (Keeps-read_cert e L secrets _ _ _) λ key.
        Keeps-bind _ _ (Keeps-read_cert e L secrets _ _ _)
          λ crt. Keeps-bind _ _ (Keeps-read_cert e L secrets _ _ _) λ ca. Keeps-lift _

  pub Keeps-payment_failed : (x : Error) → Keeps e (OnLog L) (Payments.payment_failed x)
  unfolding Payments.payment_failed
  Keeps-payment_failed (rpc_error code details s) = search keeps_rules
  Keeps-payment_failed x = search keeps_rules

  pub Keeps-payment_error : (x : Error) → Keeps e (OnLog L) (Payments.payment_error x)
  unfolding Payments.payment_error
  Keeps-payment_error (payment_gateway_unavailable_exception s) = Keeps-pure _
  Keeps-payment_error (payment_gateway_exception s) = Keeps-pure _
  Keeps-payment_error x = Keeps-error_response e L "Error processing payment: " x
