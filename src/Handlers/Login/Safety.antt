-- ===== src/Handlers/Login/Safety.antt =====
-- Where a login leads, and what the CSRF token guards.
use browseterm_server_local.Prelude.{
  ℕ, ◌≤◌, String, ◌==◌, ◌≡◌, ◌≢◌, ◌⊎◌, inl, inr, refl, Bool, true, false, not, ◌&&◌, Option, none,
  some, arith, eq_iff, if◌then◌else◌,
}
use browseterm_server_local.Python.Text.{ℤ, pos, negsuc}
use browseterm_server_local.Python.Strings.{int_of_text}
use browseterm_server_local.Python.Error.{
  Error, cloud_client_error, key_error, value_error, type_error,
}
use browseterm_server_local.World.Events.{Env}
use browseterm_server_local.World.Action.{World, when◌then◌else◌}
use browseterm_server_local.World.Gives.{
  Gives, Returns, Gives-pure, Gives-raise, Gives-bind, Gives-bind_asks, Gives-when,
  Gives-try_except, Gives-bind_known,
}
use browseterm_server_local.Web.{Request, Response, location, redirect_response, lookup}
use browseterm_server_local.Auth.Service.{csrf_cookie_name}
use browseterm_server_local.Handlers.Login

abbrev pub IsPort : ℕ → Type 0
IsPort p = (1 ≤ p) × (p ≤ 65535)

port_of_lem : (i : Option ℤ) (p : ℕ) → Login.port_of i ≡ some p → IsPort p
port_of_lem none p same = ground arith
port_of_lem (some (pos n)) p same = ground arith
port_of_lem (some (negsuc n)) p same = ground arith

-- A port that is accepted is a port number from 1 to 65535.
pub validated_desktop_port_bounds :
    (is_space : ℕ → Bool) (s : Option String) (p : ℕ)
    → Login.validated_desktop_port is_space s ≡ some p
    → IsPort p
unfolding Login.validated_desktop_port
validated_desktop_port_bounds is_space none p same = ground arith
validated_desktop_port_bounds is_space (some s) p same = by_text (s == "") same
  where
    by_text :
        (b : Bool)
        → (if b then none else Login.port_of (int_of_text is_space s)) ≡ some p
        → IsPort p
    by_text true same' = ground arith
    by_text false same' = port_of_lem (int_of_text is_space s) p same'

-- The test, of the header's and the cookie's texts.
abbrev passes : Option String → Option String → Bool
passes header stored =
    not (Login.or_empty header == "")
    && not (Login.or_empty stored == "")
    && Login.or_empty header == Login.or_empty stored

passes_lem :
    (header stored : Option String)
    → passes header stored ≡ true
    → (t : String) × (header ≡ some t) × (stored ≡ some t) × (t ≢ "")
passes_lem none stored same = ground (arith, eq_iff "" "")
passes_lem (some t) none same = ground (arith, eq_iff "" "")
passes_lem (some t) (some s) same =
    (t, refl, ground (arith, eq_iff t s), ground (arith, eq_iff t ""))

or_empty_lem : (o : Option String) → Login.or_empty o ≡ elim o [ none ↦ "" | some s ↦ s ]
or_empty_lem none = refl
or_empty_lem (some s) = refl

-- The CSRF test passes exactly when the header and the cookie hold the same non-empty token.
pub csrf_ok_iff :
    (request : Request)
    → (Login.csrf_ok request ≡ true
        → (t : String) × (lookup "X-CSRF-Token" request.headers ≡ some t)
          × (lookup csrf_cookie_name request.cookies ≡ some t)
          × (t ≢ ""))
      × ((t : String)
          → lookup "X-CSRF-Token" request.headers ≡ some t
          → lookup csrf_cookie_name request.cookies ≡ some t
          → t ≢ ""
          → Login.csrf_ok request ≡ true)
unfolding Login.csrf_ok
csrf_ok_iff request = (
  λ ok.
      passes_lem (lookup "X-CSRF-Token" request.headers) (lookup csrf_cookie_name request.cookies)
        (rw (or_empty_lem (lookup csrf_cookie_name request.cookies)) ok),
  λ t in_header in_cookie given. ground (arith, eq_iff t "", eq_iff t t),
)

-- Where a browser is sent after a login: to a page of this server, or to a port of its own machine.
abbrev pub IsTarget : String → Type 0
IsTarget url =
    (url ≡ "/?auth_result=success")
    ⊎ (url ≡ Login.device_failed_url)
    ⊎ (url ≡ "/login?auth_result=error&error_message=Missing+authentication+code")
    ⊎ (url ≡ "/login?auth_result=error&error_message=Authentication+failed")
    ⊎ ((port : ℕ) × (code : String) × IsPort port × (url ≡ Login.loopback_url port code))

abbrev pub IsSafeRedirect : Response → Type 0
IsSafeRedirect r = (url : String) × (r.body ≡ location url) × IsTarget url

module _ (e : Env) where
  Gives-device_failed : (x : Error) → Gives e (Login.device_failed x) IsTarget
  unfolding Login.device_failed
  Gives-device_failed (cloud_client_error code message) = Gives-pure _ (inr (inl refl))
  Gives-device_failed (key_error s) = Gives-pure _ (inr (inl refl))
  Gives-device_failed (value_error s) = Gives-pure _ (inr (inl refl))
  Gives-device_failed (type_error s) = Gives-pure _ (inr (inl refl))
  Gives-device_failed x = Gives-raise x

  Gives-callback_url :
      (login : Response) (port : Option ℕ)
      → ((p : ℕ) → port ≡ some p → IsPort p)
      → Gives e (Login.callback_url login port) IsTarget
  unfolding Login.callback_url
  Gives-callback_url login none is_port = Gives-pure _ (inl refl)
  Gives-callback_url login (some p) is_port =
      Gives-try_except _ _
        (Gives-bind _ _ λ user. Gives-bind _ _ λ id. Gives-bind _ _ λ bootstrap.
          Gives-bind _ _
            λ code. Gives-pure _ (inr (inr (inr (inr (p, code, is_port p refl, refl))))))
        Gives-device_failed

  Gives-finish_callback :
      (request : Request) (login : Response)
      → Gives e (Login.finish_callback request login) IsSafeRedirect
  unfolding Login.finish_callback
  Gives-finish_callback request login = Gives-bind_asks _ _ (
      Gives-bind_known _ _
        (Gives-callback_url login _ (λ p same.
          validated_desktop_port_bounds e.is_space
            (lookup Login.desktop_login_port_cookie request.cookies) p same))
        (λ url target. Gives-pure _ (url, refl, target)))

  Gives-auth_callback : (request : Request) → Gives e (Login.auth_callback request) IsSafeRedirect
  unfolding Login.auth_callback redirect_response
  Gives-auth_callback request = Gives-when _ _ _ (Gives-pure _ (_, refl, inr (inr (inl refl)))) (
      Gives-bind _ _ λ login.
        Gives-when _ _ _ (Gives-finish_callback request login)
          (Gives-pure _ (_, refl, inr (inr (inr (inl refl))))))

-- However Cloud answers and whatever the request holds, where `auth_callback` answers it redirects
-- to one of four pages of this server, or to the loopback address with a port from 1 to 65535.
pub auth_callback-IsSafeRedirect :
    (e : Env) (request : Request) (w : World)
    → Returns IsSafeRedirect (Login.auth_callback request e w).0
auth_callback-IsSafeRedirect e request w = (Gives-auth_callback e request).value w
