-- ===== src/Auth/Transform/RoundTrip.antt =====
-- That a session's data survives the models.
use browseterm_server_local.Prelude.{◌≡◌, refl, String, some, arith}
use browseterm_server_local.Python.Value.{Value, dict, Fields, end, find, get_or}
use browseterm_server_local.World.Events.{Pydantic}
use browseterm_server_local.Auth.Transform
use browseterm_server_local.Auth.Transform.{SessionDataModel}

-- A field `Dict[str, Any]` accepts the dicts, as they are, and nothing else.
pub record AcceptsDicts (p : Pydantic) : Type 0 where
  pub accepts : (d : Fields) → p.dict_field (dict d) ≡ some d
  pub refuses : (v : Value) (d : Fields) → p.dict_field v ≡ some d → v ≡ dict d

-- The three parts of the model are those of the data, where a part that is missing is empty.
abbrev pub HasParts : Fields → SessionDataModel → Type 0
HasParts d m =
    (get_or (dict end) "user_info" d ≡ dict m.user_info)
    × (get_or (dict end) "subscription_info" d ≡ dict m.subscription_info)
    × (get_or (dict end) "current_subscription_plan" d ≡ dict m.current_subscription_plan)

module _ (p : Pydantic) (documented : AcceptsDicts p) where
  session_input-session_output :
      (m : SessionDataModel) → Transform.session_input p (Transform.session_output m) ≡ some m
  unfolding Transform.session_input Transform.session_output get_or find
  session_input-session_output m =
      rw
        (
          documented.accepts m.user_info,
          documented.accepts m.subscription_info,
          documented.accepts m.current_subscription_plan,
        )
        refl

  session_input_parts :
      (d : Fields) (m : SessionDataModel) → Transform.session_input p d ≡ some m → HasParts d m
  unfolding Transform.session_input
  session_input_parts d m same = ground (
    arith,
    documented.refuses (get_or (dict end) "user_info" d) m.user_info,
    documented.refuses (get_or (dict end) "subscription_info" d) m.subscription_info,
    documented.refuses (get_or (dict end) "current_subscription_plan" d)
        m.current_subscription_plan,
  )

  session_response_parts :
      (d : Fields) (m : SessionDataModel) (v : Value) (s : String)
      → Transform.session_input p d ≡ some m
      → p.str_field v ≡ some s
      → Transform.session_response p v d
        ≡ some (record {
          session_id = s;
          user_info = m.user_info;
          subscription_info = m.subscription_info;
          current_subscription_plan = m.current_subscription_plan;
        })
  unfolding Transform.session_input Transform.session_response
  session_response_parts d m v s same id = ground arith

  -- With pydantic's fields of dicts as documented: a model survives its dict, since read back from
  -- what session_output writes it is the same. And whatever data a model is built from, its parts
  -- are the data's, a missing part being empty, and session_response puts a session id to these
  -- parts.
  pub session_round_trip :
      ((m : SessionDataModel) → Transform.session_input p (Transform.session_output m) ≡ some m)
      × ((d : Fields) (m : SessionDataModel)
          → Transform.session_input p d ≡ some m
          → HasParts d m
            × ((v : Value) (s : String)
                → p.str_field v ≡ some s
                → Transform.session_response p v d
                  ≡ some (record {
                    session_id = s;
                    user_info = m.user_info;
                    subscription_info = m.subscription_info;
                    current_subscription_plan = m.current_subscription_plan;
                  })))
  session_round_trip = (
    session_input-session_output,
    λ d m same. (session_input_parts d m same, λ v s id. session_response_parts d m v s same id),
  )
