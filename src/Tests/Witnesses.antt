-- ===== src/Tests/Witnesses.antt =====
-- The theorems, applied at the setting of the tests.
use browseterm_server_local.Prelude.{refl, inl, [], ◌∷◌}
use browseterm_server_local.Python.Value.{str, truthy}
use browseterm_server_local.Python.Error.{get_item}
use browseterm_server_local.Cloud.Client.{answer}
use browseterm_server_local.World.Events.{SaveTask, http}
use browseterm_server_local.World.Action.{World}
use browseterm_server_local.Ownership.{lookup_request}
use browseterm_server_local.Ownership.Routes.{MakesCallsFor, MakesPlainCallsFor}
use browseterm_server_local.Handlers.Pods
use browseterm_server_local.Handlers.Pods.Ownership.{create_pod-Authorised, delete_pod-Authorised}
use browseterm_server_local.Handlers.Rows
use browseterm_server_local.Handlers.Rows.Ownership.{row_routes-Authorised}
use browseterm_server_local.Handlers.Save
use browseterm_server_local.Handlers.Save.Ownership.{start_save-Authorised, run_save-Authorised}
use browseterm_server_local.Tests.Plain.{about_c1-HasPlainIds}
use browseterm_server_local.Tests.Setting.{
  demo, quiet, session, session-id, about_c1, strict_pydantic-IsStrict,
}

create_pod-Authorised_example : MakesCallsFor demo quiet "u1" (Pods.create_pod about_c1 session)
create_pod-Authorised_example =
    create_pod-Authorised demo "u1" about_c1 session quiet strict_pydantic-IsStrict session-id

delete_pod-Authorised_example : MakesCallsFor demo quiet "u1" (Pods.delete_pod about_c1 session)
delete_pod-Authorised_example =
    delete_pod-Authorised demo "u1" about_c1 session quiet strict_pydantic-IsStrict session-id

row_routes-Authorised_example :
    MakesPlainCallsFor demo quiet "u1" (Rows.device_quota session)
    × MakesPlainCallsFor demo quiet "u1" (Rows.container_info about_c1 session)
    × MakesPlainCallsFor demo quiet "u1" (Rows.create_row about_c1 session)
    × MakesPlainCallsFor demo quiet "u1" (Rows.update_row about_c1 session)
    × MakesPlainCallsFor demo quiet "u1" (Rows.list_rows about_c1 session)
    × MakesPlainCallsFor demo quiet "u1" (Rows.delete_row about_c1 session)
    × MakesPlainCallsFor demo quiet "u1" (Rows.open_terminal about_c1 session)
    × MakesPlainCallsFor demo quiet "u1" (Rows.record_activity about_c1 session)
row_routes-Authorised_example =
    row_routes-Authorised demo "u1" about_c1 session quiet strict_pydantic-IsStrict
      about_c1-HasPlainIds session-id

start_save-Authorised_example : MakesCallsFor demo quiet "u1" (Save.start_save about_c1 session)
start_save-Authorised_example =
    start_save-Authorised demo "u1" about_c1 session quiet strict_pydantic-IsStrict session-id

-- The background task of "u1" for "c1", after the lookup.
abbrev task : SaveTask
task = record {
  request = record { container_id = "c1"; network_name = "u1-namespace" };
  container_id = str "c1";
  user_id = str "u1";
}

abbrev looked_up : World
looked_up = record quiet { log = http (lookup_request demo "c1" "u1") ∷ [] }

run_save-Authorised_example : MakesCallsFor demo looked_up "u1" (Save.run_save task)
unfolding answer get_item truthy
run_save-Authorised_example =
    run_save-Authorised demo "u1" task looked_up.log looked_up (refl, refl, refl, inl (refl, refl))
      (inl (refl, refl))
