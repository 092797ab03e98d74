-- ===== src/Tests/Certificates.antt =====
-- The theorems on certificate jobs, applied at the setting of the tests.
use browseterm_server_local.Prelude.{ℕ, refl, Option, none, some, ltb, if◌then◌else◌, arith}
use browseterm_server_local.World.Events.{Log}
use browseterm_server_local.World.Action
use browseterm_server_local.World.Action.{ok}
use browseterm_server_local.World.Halts.{HasReturned}
use browseterm_server_local.Containers.Certificates
use browseterm_server_local.Containers.Certificates.Ends.{poll_loop-HasReturned}
use browseterm_server_local.Tests.Setting.{demo, quiet, slept}

-- The job of the setting succeeds after eight seconds.
abbrev answers : Log → Option ℕ
answers l = if ltb (slept l) 8000000000 then none else some 1

poll_loop-HasReturned_example :
    HasReturned (Certificates.poll_loop 9 "cert-manager-job1" "certs" demo quiet).0
unfolding Certificates.has_succeeded
poll_loop-HasReturned_example =
    poll_loop-HasReturned demo "cert-manager-job1" "certs" answers (λ l. refl) 2 9 quiet
      (omega arith) refl
