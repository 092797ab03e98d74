-- ===== src/Tests/Transformers.antt =====
-- The theorems on the transformers, applied at concrete messages and sessions.
use browseterm_server_local.Prelude.{◌≡◌, refl, String, some, arith}
use browseterm_server_local.Python.Value.{Value, dict, Fields}
use browseterm_server_local.Auth.Transform
use browseterm_server_local.Auth.Transform.{SessionDataModel}
use browseterm_server_local.Auth.Transform.RoundTrip.{AcceptsDicts, HasParts, session_round_trip}
use browseterm_server_local.Tests.Setting.{demo}

demo-AcceptsDicts : AcceptsDicts demo.pydantic
demo-AcceptsDicts = record { accepts = λ d. refl; refuses = refuses }
  where
    refuses : (v : Value) (d : Fields) → demo.pydantic.dict_field v ≡ some d → v ≡ dict d
    refuses v d same = ground arith

session_round_trip_example :
    ((m : SessionDataModel)
      → Transform.session_input demo.pydantic (Transform.session_output m) ≡ some m)
    × ((d : Fields) (m : SessionDataModel)
        → Transform.session_input demo.pydantic d ≡ some m
        → HasParts d m
          × ((v : Value) (s : String)
              → demo.pydantic.str_field v ≡ some s
              → Transform.session_response demo.pydantic v d
                ≡ some (record {
                  session_id = s;
                  user_info = m.user_info;
                  subscription_info = m.subscription_info;
                  current_subscription_plan = m.current_subscription_plan;
                })))
session_round_trip_example = session_round_trip demo.pydantic demo-AcceptsDicts
