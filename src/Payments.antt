-- ===== src/Payments.antt =====
-- src/payments/payments_service.py, src/data_models/payments.py, and the route `create_payment` of
-- src/api_handlers.py.
pub mod Calls
pub mod Amount
pub mod Once
use browseterm_server_local.Prelude.{
  ℕ, String, ◌<>◌, ◌||◌, Option, none, some, [], ◌∷◌, eqb, if◌then◌else◌,
}
use browseterm_server_local.Python.Value.{
  Value, null, str, dict, Fields, end, field, find, get_or, class_name,
}
use browseterm_server_local.Python.Error.{
  Error, payment_gateway_exception, payment_gateway_unavailable_exception, rpc_error, type_error,
  Reply, returned, raised, get_item,
}
use browseterm_server_local.Python.Validate
use browseterm_server_local.World.Messages.{GrpcPaymentRequest, GrpcPaymentResponse}
use browseterm_server_local.World.Events.{Pydantic, Statuses, payment_rpc}
use browseterm_server_local.World.Action.{
  when◌then◌else◌, Action, of_reply, pure, raise, lift, asks, gets, perform, ◌>>=◌, ◌>>◌,
  try_except, text_of, validated,
}
use browseterm_server_local.Containers.Client.{read_cert_from_k8s_secret, check_credentials}
use browseterm_server_local.Web.{
  Request, State, Response, json_response, error_content, error_response,
}
use browseterm_server_local.Auth.Session.{authenticate_session}

pub record CreatePaymentRequest : Type 0 where
  pub plan_id : String
  pub idempotency_key : String

-- `**request_data`
keywords : Value → Reply Fields
unfolding class_name
keywords (dict d) = returned d
keywords v = raised (
    type_error (
      "src.data_models.payments.CreatePaymentRequest() argument after ** must be a mapping, not "
      <> class_name v))

-- A plan that is not given is "developer"; the key has to be given.
unfoldable pub create_payment_request : Pydantic → Fields → Option CreatePaymentRequest
unfolding find get_or
create_payment_request p d =
    Validate.◌>>=◌ (p.str_field (get_or (str "developer") "plan_id" d)) λ plan.
      Validate.◌>>=◌ (find "idempotency_key" d) λ v.
        Validate.◌>>=◌ (p.str_field v)
          λ key. some (record { plan_id = plan; idempotency_key = key })

-- `_STATUS_NAME.get(status, "UNSPECIFIED")`
unfoldable pub status_name : Statuses → ℕ → String
status_name s n =
    if eqb n s.payment_success
    then "SUCCESS"
    else if eqb n s.payment_failed
    then "FAILED"
    else "UNSPECIFIED"

-- `PaymentService()`
unfoldable pub payment_service : Action Unit
unfolding read_cert_from_k8s_secret check_credentials
payment_service = do
  c ← asks (λ e. e.config)
  key ← read_cert_from_k8s_secret c.payment_gateway_certs_secret_name c.namespace "client.key"
  cert ← read_cert_from_k8s_secret c.payment_gateway_certs_secret_name c.namespace "client.crt"
  ca ← read_cert_from_k8s_secret c.payment_gateway_certs_secret_name c.namespace "ca.crt"
  lift (check_credentials key cert ca)

-- `except grpc.RpcError`: UNAVAILABLE is 14 and DEADLINE_EXCEEDED is 4.
pub payment_failed : Error → Action Value
payment_failed (rpc_error code details s) =
    when eqb code 14 || eqb code 4
    then raise (payment_gateway_unavailable_exception details)
    else raise (payment_gateway_exception details)
payment_failed x = raise x

-- `PaymentResponseData(...).model_dump()`
unfoldable pub payment_response : Statuses → GrpcPaymentResponse → Value
unfolding status_name
payment_response s r = dict (
    field "payment_id" (str r.payment_id)
      (field "status" (str (status_name s r.status)) (field "message" (str r.message) end)))

unfoldable pub make_payment :
    (user_id plan_id : String) (amount_minor : ℕ) (currency idempotency_key : String) → Action Value
unfolding payment_response payment_failed
make_payment user_id plan_id amount_minor currency idempotency_key =
    try_except
      (do
        request_id ← gets (λ w. w.request_id)
        r ←
            perform
              (λ e log. of_reply (
                e.on_payment log (record {
                  user_id = user_id;
                  plan_id = plan_id;
                  amount_minor = amount_minor;
                  currency = currency;
                  request_id = request_id;
                  idempotency_key = idempotency_key;
                })))
              (payment_rpc (record {
                user_id = user_id;
                plan_id = plan_id;
                amount_minor = amount_minor;
                currency = currency;
                request_id = request_id;
                idempotency_key = idempotency_key;
              }))
        asks (λ e. payment_response e.statuses r))
      payment_failed

-- The `except` clauses of `create_payment`.
unfoldable pub payment_error : Error → Action Response
unfolding json_response error_content error_response
payment_error (payment_gateway_unavailable_exception s) =
    pure (json_response (error_content (str ("Payment service unavailable: " <> s))) 503)
payment_error (payment_gateway_exception s) =
    pure (json_response (error_content (str ("Error processing payment: " <> s))) 500)
payment_error x = error_response "Error processing payment: " x

-- A message's field of type string: `None` leaves it unset, and another value makes the message fail
-- to build.
text_field : Value → Reply String
unfolding class_name
text_field (str s) = returned s
text_field null = returned ""
text_field v = raised (type_error "bad argument type for built-in operation")

-- `create_payment` behind its decorator.
unfoldable pub pay : Request → State → Action Response
unfolding keywords create_payment_request payment_service get_item text_field make_payment
    json_response payment_error validated
pay request st =
    try_except
      (do
        body ← lift request.body
        request_data ← lift (keywords body)
        o ← asks (λ e. create_payment_request e.pydantic request_data)
        r ← validated "CreatePaymentRequest" (body ∷ []) o
        payment_service
        id ← lift (get_item st.user_info "id")
        user_id ← lift (text_field id)
        response ← make_payment user_id r.plan_id 49900 "INR" r.idempotency_key
        pure (json_response response 200))
      payment_error

unfoldable pub create_payment : Request → Action Response
unfolding authenticate_session pay
create_payment request = authenticate_session (pay request) request
