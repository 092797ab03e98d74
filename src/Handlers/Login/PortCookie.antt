-- ===== src/Handlers/Login/PortCookie.antt =====
-- The port of a desktop login, from the request that begins it to the one that ends it.
use browseterm_server_local.Prelude.{
  ℕ, String, ◌==◌, ◌&&◌, ◌≡◌, refl, ◌∙◌, ap, ◌⊎◌, inl, inr, Bool, true, false, Option, none, some,
  List, [], ◌∷◌, ◌++◌, leb, if◌then◌else◌, arith,
}
use mathlib.Core.Path.{subst}
use browseterm_server_local.Python.Text.{show_ℕ}
use browseterm_server_local.Python.Text.Digits.{show_ℕ_nonempty, not_empty}
use browseterm_server_local.Python.Strings.{is_digit}
use browseterm_server_local.Python.Strings.ReadBack.{int_of_text-show_ℕ}
use browseterm_server_local.Python.Error.{
  Error, cloud_client_error, key_error, value_error, type_error,
}
use browseterm_server_local.World.Events.{Env, Config}
use browseterm_server_local.World.Action.{World, ok}
use browseterm_server_local.World.Gives.{
  Returns, Gives, Gives-bind, Gives-bind_asks, Gives-pure, Gives-raise, Gives-when,
  Gives-try_except, Gives-bind_known,
}
use browseterm_server_local.Web.{
  Request, Response, Cookie, set_cookie, delete_cookie, lookup, location, redirect_response,
}
use browseterm_server_local.Handlers.Login
use browseterm_server_local.Handlers.Login.Safety.{validated_desktop_port_bounds, IsPort}

-- What a browser that held a value, or none, under a name keeps there after a response with cookies.
abbrev pub kept : String → Option String → List Cookie → Option String
kept k held [] = held
kept k held (set_cookie j v options ∷ cs) = kept k (if j == k then some v else held) cs
kept k held (delete_cookie j ∷ cs) = kept k (if j == k then none else held) cs

abbrev pub first_port : Option ℕ → Option ℕ → Option ℕ
first_port none other = other
first_port (some p) other = some p

-- The port of a login that this request began, in a browser that held the cookie's value `held`:
-- the port that the request asks for, when its target is "desktop" and the port is one, and the
-- one held otherwise.
abbrev pub login_port : Env → Request → Option String → Option ℕ
login_port e request held =
    let before = Login.validated_desktop_port e.is_space held in
    let asked =
      Login.validated_desktop_port e.is_space (lookup "desktop_port" request.query_params) in
    if Login.or_empty (lookup "target" request.query_params) == "desktop"
    then first_port asked before
    else before

module _ (is_space : ℕ → Bool) (no_digit : (c : ℕ) → is_digit c ≡ true → is_space c ≡ false) where
  port_of_port : (p : ℕ) → IsPort p → (if leb 1 p && leb p 65535 then some p else none) ≡ some p
  port_of_port p is_port = ground arith

  validated-show_ℕ :
      (p : ℕ) → IsPort p → Login.validated_desktop_port is_space (some (show_ℕ p)) ≡ some p
  unfolding Login.validated_desktop_port
  validated-show_ℕ p is_port =
      rw (not_empty (show_ℕ p) (show_ℕ_nonempty p), int_of_text-show_ℕ is_space no_digit p)
        (port_of_port p is_port)

  port_cookies_lem :
      (c : Config) (desktop : Bool) (s held : Option String) (port : Option ℕ)
      → Login.validated_desktop_port is_space s ≡ port
      → Login.validated_desktop_port is_space
          (kept Login.desktop_login_port_cookie held (Login.port_cookies c desktop port))
        ≡ (if desktop
            then first_port port (Login.validated_desktop_port is_space held)
            else Login.validated_desktop_port is_space held)
  unfolding Login.port_cookies
  port_cookies_lem c false s held port same = refl
  port_cookies_lem c true s held none same = refl
  port_cookies_lem c true s held (some p) same =
      validated-show_ℕ p (validated_desktop_port_bounds is_space s p same)

-- The answer to the request that begins a login leaves that login's port with the browser.
abbrev KeepsPort : Env → Request → Option String → Response → Type 0
KeepsPort e request held r =
    Login.validated_desktop_port e.is_space (kept Login.desktop_login_port_cookie held r.cookies)
    ≡ login_port e request held

redirect-KeepsPort :
    (e : Env) (request : Request) (held : Option String) (w : World)
    → ((c : ℕ) → is_digit c ≡ true → e.is_space c ≡ false)
    → Returns (KeepsPort e request held) (Login.auth_provider_redirect request e w).0
unfolding Login.auth_provider_redirect
redirect-KeepsPort e request held w no_digit =
    (Gives-bind _ _ λ p. Gives-bind _ _ λ provider. Gives-bind_asks _ _ (
        Gives-bind_asks _ _ (
          Gives-pure _ (
            port_cookies_lem e.is_space no_digit e.config
              (Login.or_empty (lookup "target" request.query_params) == "desktop")
              (lookup "desktop_port" request.query_params) held _ refl)))).value
      w

-- Where a login without a desktop port leads, and one with it: that one clears the cookie.
abbrev pub Arrives : Option ℕ → Response → Type 0
Arrives none r = r.body ≡ location "/?auth_result=success"
Arrives (some p) r =
    ((rest : List Cookie) × (r.cookies ≡ delete_cookie Login.desktop_login_port_cookie ∷ rest))
    × ((r.body ≡ location Login.device_failed_url)
        ⊎ ((code : String) × (r.body ≡ location (Login.loopback_url p code))))

abbrev pub EndsLogin : Option ℕ → Response → Type 0
EndsLogin port r =
    (r ≡ redirect_response "/login?auth_result=error&error_message=Missing+authentication+code")
    ⊎ (r ≡ redirect_response "/login?auth_result=error&error_message=Authentication+failed")
    ⊎ Arrives port r

-- The address alone.
abbrev Leads : Option ℕ → String → Type 0
Leads none url = url ≡ "/?auth_result=success"
Leads (some p) url =
    (url ≡ Login.device_failed_url) ⊎ ((code : String) × (url ≡ Login.loopback_url p code))

Leads-Arrives :
    (port : Option ℕ) (login : Response) (url : String)
    → Leads port url
    → Arrives port (record {
      status_code = 302;
      body = location url;
      cookies = Login.cleared_port port ++ login.cookies;
    })
Leads-Arrives none login url same = ap (λ u. location u) same
Leads-Arrives (some p) login url (inl same) =
    ((login.cookies, refl), inl (ap (λ u. location u) same))
Leads-Arrives (some p) login url (inr (code, same)) =
    ((login.cookies, refl), inr (code, ap (λ u. location u) same))

module _ (e : Env) where
  Gives-device_failed : (p : ℕ) (x : Error) → Gives e (Login.device_failed x) (Leads (some p))
  unfolding Login.device_failed
  Gives-device_failed p (cloud_client_error code message) = Gives-pure _ (inl refl)
  Gives-device_failed p (key_error s) = Gives-pure _ (inl refl)
  Gives-device_failed p (value_error s) = Gives-pure _ (inl refl)
  Gives-device_failed p (type_error s) = Gives-pure _ (inl refl)
  Gives-device_failed p x = Gives-raise x

  Gives-callback_url :
      (login : Response) (port : Option ℕ) → Gives e (Login.callback_url login port) (Leads port)
  unfolding Login.callback_url
  Gives-callback_url login none = Gives-pure _ refl
  Gives-callback_url login (some p) =
      Gives-try_except _ _
        (Gives-bind _ _ λ user.
          Gives-bind _ _ λ id.
            Gives-bind _ _ λ bootstrap. Gives-bind _ _ λ code. Gives-pure _ (inr (code, refl)))
        (Gives-device_failed p)

  module _ (request : Request) (port : Option ℕ)
      (sent : Login.validated_desktop_port e.is_space
          (lookup Login.desktop_login_port_cookie request.cookies)
        ≡ port) where
    Gives-finish_callback :
        (login : Response) → Gives e (Login.finish_callback request login) (EndsLogin port)
    unfolding Login.finish_callback
    Gives-finish_callback login = rw (← sent) (
        Gives-bind_asks _ _ (
          Gives-bind_known _ _ (Gives-callback_url login _)
            (λ url leads. Gives-pure _ (inr (inr (Leads-Arrives _ login url leads))))))

    Gives-auth_callback : Gives e (Login.auth_callback request) (EndsLogin port)
    unfolding Login.auth_callback redirect_response
    Gives-auth_callback = Gives-when _ _ _ (Gives-pure _ (inl refl)) (
        Gives-bind _ _
          λ login. Gives-when _ _ _ (Gives-finish_callback login) (Gives-pure _ (inr (inl refl))))

-- Where no digit counts as a space: a browser, with the cookie of the port or without it, follows
-- the answer of `auth_provider_redirect` and comes to `auth_callback` with the cookie that it
-- kept. Where `auth_callback` answers, it is with one of the two error pages of a failed login, or
-- as the login's port says. The port is the one that the first request asked for, when that is a
-- port and the target is "desktop", and otherwise what the browser held before. With a port the
-- redirect goes to it on the loopback address, or to the page of a failed registration, and clears
-- the cookie. Without one it goes to the home page.
pub auth_callback-EndsLogin :
    (e : Env) (request callback : Request) (held : Option String) (answer : Response) (w w' : World)
    → ((c : ℕ) → is_digit c ≡ true → e.is_space c ≡ false)
    → (Login.auth_provider_redirect request e w).0 ≡ ok answer
    → lookup Login.desktop_login_port_cookie callback.cookies
      ≡ kept Login.desktop_login_port_cookie held answer.cookies
    → Returns (EndsLogin (login_port e request held)) (Login.auth_callback callback e w').0
auth_callback-EndsLogin e request callback held answer w w' no_digit answered sent =
    (Gives-auth_callback e callback _ (
        ap (λ s. Login.validated_desktop_port e.is_space s) sent
        ∙ subst (λ o. Returns (KeepsPort e request held) o) answered
            (redirect-KeepsPort e request held w no_digit))).value
      w'
