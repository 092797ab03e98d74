-- ===== src/Handlers/Login/Csrf.antt =====
-- What the CSRF token guards: `logout`, and `device_bootstrap` with its decorator.
use browseterm_server_local.Prelude.{ap, String, ◌≡◌, ◌≢◌, ◌⊎◌, refl, Bool, true, false, some}
use mathlib.Core.Path.{fun_ext}
use browseterm_server_local.World.Events.{Env}
use browseterm_server_local.World.Action.{World, ok, pure, when◌then◌else◌}
use browseterm_server_local.World.Gives.{Returns}
use browseterm_server_local.Web.{Request, lookup, redirect_response}
use browseterm_server_local.Auth.Session
use browseterm_server_local.Auth.Session.Calls.{
  Validates, untouched, Keeps-authenticate_session, Gives-authenticate_session,
}
use browseterm_server_local.Auth.Service.{csrf_cookie_name}
use browseterm_server_local.Handlers.Login
use browseterm_server_local.Handlers.Login.Safety.{csrf_ok_iff}

-- The header and the cookie hold the same token, which is not empty.
abbrev pub HasToken : Request → Type 0
HasToken request =
    (t : String) × (lookup "X-CSRF-Token" request.headers ≡ some t)
    × (lookup csrf_cookie_name request.cookies ≡ some t)
    × (t ≢ "")

without_token : (request : Request) → ¬ HasToken request → Login.csrf_ok request ≡ false
without_token request missing = by_test (Login.csrf_ok request) refl
  where
    by_test : (b : Bool) → Login.csrf_ok request ≡ b → b ≡ false
    by_test true same = absurd (missing ((csrf_ok_iff request).0 same))
    by_test false same = refl

logout_lem :
    (request : Request) → Login.csrf_ok request ≡ false → Login.logout request ≡ pure Login.bad_csrf
unfolding Login.logout when◌then◌else◌
logout_lem request bad = rw bad refl

bootstrap_device_lem :
    (request : Request)
    → Login.csrf_ok request ≡ false
    → Login.bootstrap_device request ≡ (λ st. pure Login.bad_csrf)
unfolding Login.bootstrap_device when◌then◌else◌
bootstrap_device_lem request bad = fun_ext λ st. rw bad refl

device_bootstrap_lem :
    (request : Request)
    → Login.csrf_ok request ≡ false
    → Login.device_bootstrap request
      ≡ Session.authenticate_session (λ st. pure Login.bad_csrf) request
unfolding Login.device_bootstrap
device_bootstrap_lem request bad =
    ap (λ handler. Session.authenticate_session handler request) (bootstrap_device_lem request bad)

-- Where the header and the cookie do not hold the same non-empty token: `logout` answers 403 and
-- changes nothing, and calls nobody. `device_bootstrap` calls Cloud only to validate the request's
-- session, so no bootstrap is asked for, and where it answers, it is with the same 403 or the
-- redirect to the login page.
pub without_csrf :
    (e : Env) (request : Request) (w : World)
    → ¬ HasToken request
    → (Login.logout request e w ≡ (ok Login.bad_csrf, w))
      × Validates e
          (Session.cookie "session" request)
          w.log
          (Login.device_bootstrap request e w).1.log
      × Returns
          (λ r. (r ≡ Login.bad_csrf) ⊎ (r ≡ redirect_response "/login"))
          (Login.device_bootstrap request e w).0
      × (Login.bad_csrf.status_code ≡ 403)
unfolding Login.bad_csrf pure
without_csrf e request w missing =
    let bad : Login.csrf_ok request ≡ false = without_token request missing in
    rw (logout_lem request bad, device_bootstrap_lem request bad)
      (
        refl,
        (Keeps-authenticate_session e request w.log Login.bad_csrf).at w untouched,
        (Gives-authenticate_session e request w.log Login.bad_csrf).value w,
        refl,
      )
