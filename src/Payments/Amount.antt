-- ===== src/Payments/Amount.antt =====
-- What is charged, and to whom.
use browseterm_server_local.Prelude.{String, ◌≡◌, refl}
use browseterm_server_local.Python.Value.{str}
use browseterm_server_local.Python.Error.{returned, get_item}
use browseterm_server_local.World.Events.{Env, Log, Event, payment_rpc, read_secret}
use browseterm_server_local.World.Action.{World}
use browseterm_server_local.World.Rules.{
  Keeps, Keeps-pure, Keeps-lift, Keeps-asks, Keeps-gets, Keeps-bind, Keeps-perform,
  Keeps-try_except, Keeps-validated,
}
use browseterm_server_local.World.Trace.{Since, start, more}
use browseterm_server_local.Ownership.Routes.{Keeps-bind_known}
use browseterm_server_local.Web.{Request, State}
use browseterm_server_local.Payments
use browseterm_server_local.Payments.Calls.{
  Keeps-payment_service, Keeps-payment_failed, Keeps-payment_error,
}

-- A call for a payment of the user `u` charges the amount that the server sets, and no other call is
-- made but reading secrets.
abbrev pub ChargesOnly : String → Event → Log → Type 0
ChargesOnly u (payment_rpc r) l = (r.user_id ≡ u) × (r.amount_minor ≡ 49900) × (r.currency ≡ "INR")
ChargesOnly u (read_secret name namespace) l = Unit
ChargesOnly u _ l = ⊥

module _ (e : Env) (u : String) (base : Log) where
  abbrev Charged : World → Type 0
  Charged w = Since (ChargesOnly u) base w.log

  Keeps-make_payment :
      (plan key : String) → Keeps e Charged (Payments.make_payment u plan 49900 "INR" key)
  unfolding Payments.make_payment
  Keeps-make_payment plan key =
      Keeps-try_except _ _
        (Keeps-bind _ _ (Keeps-gets _) λ request_id.
          Keeps-bind _ _
            (Keeps-perform {L = λ l. Since (ChargesOnly u) base l} _ _
              (λ l. more (refl, refl, refl)))
            λ r. Keeps-asks _)
        (Keeps-payment_failed e (λ l. Since (ChargesOnly u) base l))

-- Whatever a request to `create_payment` holds, a call for a payment is made for the session's user
-- `u` alone, and charges 49900 minor units of INR; beside it only secrets are read.
pub pay-ChargesOnly :
    (e : Env) (u : String) (request : Request) (st : State) (w : World)
    → get_item st.user_info "id" ≡ returned (str u)
    → Since (ChargesOnly u) w.log (Payments.pay request st e w).1.log
unfolding Payments.pay Payments.text_field
pay-ChargesOnly e u request st w user =
    (Keeps-try_except _ _
        (Keeps-bind _ _ (Keeps-lift _) λ body. Keeps-bind _ _ (Keeps-lift _) λ d.
          Keeps-bind _ _ (Keeps-asks _) λ o. Keeps-bind _ _ (Keeps-validated _ _ o) λ r.
            Keeps-bind _ _ (Keeps-payment_service e _ (λ n s l. more tt)) λ _.
              Keeps-bind_known _ (str u) _ user (
                Keeps-bind_known _ u _ refl (
                  Keeps-bind _ _ (Keeps-make_payment e u w.log r.plan_id r.idempotency_key)
                    λ response. Keeps-pure _)))
        (Keeps-payment_error e (λ l. Since (ChargesOnly u) w.log l))).at
      w start
