-- ===== src/Auth/Transform.antt =====
-- src/authentication/data_transformers/session_transformer.py and
-- src/authentication/dto/session_dto.py: a session's data as a model, and back.
pub mod RoundTrip
use browseterm_server_local.Prelude.{String, Option, some}
use browseterm_server_local.Python.Value.{Value, dict, Fields, end, field, get_or}
use browseterm_server_local.Python.Validate.{◌>>=◌}
use browseterm_server_local.World.Events.{Pydantic}

pub record SessionDataModel : Type 0 where
  pub user_info : Fields
  pub subscription_info : Fields
  pub current_subscription_plan : Fields

pub record SessionResponseModel : Type 0 where
  pub session_id : String
  pub user_info : Fields
  pub subscription_info : Fields
  pub current_subscription_plan : Fields

-- `SessionInputTransformer.transform`, without a result where a field is refused.
unfoldable pub session_input : Pydantic → Fields → Option SessionDataModel
unfolding get_or
session_input p d = do
  user ← p.dict_field (get_or (dict end) "user_info" d)
  subscription ← p.dict_field (get_or (dict end) "subscription_info" d)
  plan ← p.dict_field (get_or (dict end) "current_subscription_plan" d)
  some (record {
    user_info = user;
    subscription_info = subscription;
    current_subscription_plan = plan;
  })

-- `SessionOutputTransformer.transform`
unfoldable pub session_output : SessionDataModel → Fields
session_output m = field "user_info" (dict m.user_info) (
    field "subscription_info" (dict m.subscription_info)
      (field "current_subscription_plan" (dict m.current_subscription_plan) end))

-- `SessionResponseTransformer.transform`
unfoldable pub session_response :
    Pydantic → (session_id : Value) → Fields → Option SessionResponseModel
unfolding get_or
session_response p session_id d = do
  id ← p.str_field session_id
  user ← p.dict_field (get_or (dict end) "user_info" d)
  subscription ← p.dict_field (get_or (dict end) "subscription_info" d)
  plan ← p.dict_field (get_or (dict end) "current_subscription_plan" d)
  some (record {
    session_id = id;
    user_info = user;
    subscription_info = subscription;
    current_subscription_plan = plan;
  })
