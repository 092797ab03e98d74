-- ===== src/Tests/Resume.antt =====
-- The theorems on resuming, applied at the setting of the tests.
use browseterm_server_local.Prelude.{refl, arith}
use browseterm_server_local.Python.Value.{find}
use browseterm_server_local.Python.Error.{get_item}
use browseterm_server_local.World.Trace.{Since}
use browseterm_server_local.Cloud.Client.{answer}
use browseterm_server_local.Ownership.Routes.{MakesPlainCallsFor}
use browseterm_server_local.Handlers.Resume
use browseterm_server_local.Handlers.Resume.Ownership.{KeepsOwner, resume-Authorised}
use browseterm_server_local.Handlers.Resume.Accepted.{CreatesResumed}
use browseterm_server_local.Handlers.Resume.Admission.{resume-CreatesResumed}
use browseterm_server_local.Tests.Plain.{plain_body}
use browseterm_server_local.Tests.Setting.{
  demo, quiet, session, about_c1, body_c1, strict_pydantic-IsStrict, session-id,
}

resume-CreatesResumed_example :
    Since
      (CreatesResumed demo "c1" "u1" quiet.log)
      quiet.log
      (Resume.resume about_c1 session demo quiet).1.log
unfolding get_item find
resume-CreatesResumed_example =
    resume-CreatesResumed demo "c1" "u1" body_c1 about_c1 session quiet strict_pydantic-IsStrict
      refl refl session-id

demo-KeepsOwner : KeepsOwner demo "u1"
unfolding answer get_item find
demo-KeepsOwner c row (l, answered) is_row = ground arith

resume-Authorised_example : MakesPlainCallsFor demo quiet "u1" (Resume.resume about_c1 session)
resume-Authorised_example =
    resume-Authorised demo "u1" about_c1 session quiet strict_pydantic-IsStrict demo-KeepsOwner
      plain_body session-id
