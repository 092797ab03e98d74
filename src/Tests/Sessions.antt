-- ===== src/Tests/Sessions.antt =====
-- The theorems on decorated routes, applied at requests with a session.
use browseterm_server_local.Prelude.{
  ◌≤◌, ◌==◌, ◌≡◌, ◌⊎◌, true, [], ◌∷◌, arith, if◌then◌else◌, eq_iff,
}
use browseterm_server_local.Python.Value.{Value, str, bool, dict, end, field, find}
use browseterm_server_local.Python.Strings.{trim_end}
use browseterm_server_local.Python.Error.{returned}
use browseterm_server_local.World.Events.{Env, Log, Event, sleep, response}
use browseterm_server_local.World.Action.{ok}
use browseterm_server_local.World.Halts.{HasReturned}
use browseterm_server_local.World.Gives.{Returns}
use browseterm_server_local.Cloud.Client.{answer, http_request, cloud_client}
use browseterm_server_local.Web.{Request, lookup, redirect_response}
use browseterm_server_local.Auth.Session
use browseterm_server_local.Auth.Session.Calls.{Validates}
use browseterm_server_local.Auth.Service.{csrf_cookie_name}
use browseterm_server_local.Handlers.Hibernate
use browseterm_server_local.Handlers.Hibernate.Ends.{IsMonotonic, hibernate_container-HasReturned}
use browseterm_server_local.Handlers.Login
use browseterm_server_local.Handlers.Login.Csrf.{without_csrf}
use browseterm_server_local.Tests.Setting.{demo, cloud, quiet, about_c1, slept}

-- Cloud's answer about a session of the user "u1".
abbrev valid_session : Value
valid_session =
    dict (field "is_valid" (bool true) (field "user_info" (dict (field "id" (str "u1") end)) end))

-- A Cloud that knows the session, and answers the rest as the setting's does.
abbrev welcoming : Env
welcoming = record demo {
  on_http = λ log r.
      if r.url == "https://cloud/auth/sessions/validate"
      then response (record { status_code = 200; text = ""; json = returned valid_session })
      else cloud log r;
}

slept-le : (event : Event) (l : Log) → slept l ≤ slept (event ∷ l)
slept-le (sleep n) l = omega arith
slept-le _ l = omega arith

welcoming-IsMonotonic : IsMonotonic welcoming
welcoming-IsMonotonic = record { steady = slept-le; sleeps = λ n l. omega arith }

abbrev in_session : Request
in_session = record about_c1 { cookies = ("session", "s1") ∷ [] }

hibernate_container-HasReturned_example :
    HasReturned (Hibernate.hibernate_container in_session welcoming quiet).0
unfolding Session.cookie lookup answer http_request cloud_client trim_end find
hibernate_container-HasReturned_example =
    hibernate_container-HasReturned welcoming in_session quiet welcoming-IsMonotonic tt

-- The header and the cookie hold different tokens.
abbrev forged : Request
forged = record about_c1 {
  headers = ("X-CSRF-Token", "t2") ∷ [];
  cookies = (csrf_cookie_name, "t1") ∷ ("session", "s1") ∷ [];
}

without_csrf_example :
    (Login.logout forged welcoming quiet ≡ (ok Login.bad_csrf, quiet))
    × Validates welcoming
        (Session.cookie "session" forged)
        quiet.log
        (Login.device_bootstrap forged welcoming quiet).1.log
    × Returns
        (λ r. (r ≡ Login.bad_csrf) ⊎ (r ≡ redirect_response "/login"))
        (Login.device_bootstrap forged welcoming quiet).0
    × (Login.bad_csrf.status_code ≡ 403)
unfolding lookup
without_csrf_example =
    without_csrf welcoming forged quiet
      (λ (t, in_header, in_cookie, given). ground (arith, eq_iff "t2" "t1"))
