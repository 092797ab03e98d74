-- ===== src/Tests/Numbers.antt =====
-- The theorems on quantities and ports, applied at numbers.
use browseterm_server_local.Prelude.{
  [], ◌∷◌, ℕ, ◌*◌, ◌/◌, ◌%◌, eqb, ◌≡◌, refl, ap, inl, inr, ◌⊎◌, some, Bool, true, false, arith,
  none,
}
use browseterm_server_local.Python.Text.Digits.{value_from, value_from-show_ℕ}
use browseterm_server_local.Python.Error.{returned}
use browseterm_server_local.World.Events.{Floats}
use browseterm_server_local.World.Gives.{Returns}
use browseterm_server_local.World.Action.{◌>>=◌, format_value}
use browseterm_server_local.Auth.Service.{cookie_options}
use browseterm_server_local.Web.{lookup, location, set_cookie, Response, Request}
use browseterm_server_local.Handlers.Login
use browseterm_server_local.Handlers.Login.PortCookie.{
  auth_callback-EndsLogin, EndsLogin, login_port,
}
use browseterm_server_local.Tests.Setting.{demo, quiet, about_c1}
use browseterm_server_local.Containers.Resources
use browseterm_server_local.Containers.Resources.{gi, mi}
use browseterm_server_local.Containers.Resources.RoundTrip.{
  IsExact, IsNear, bytes_of, parse-millicores_to_cpu_string, parse-bytes_to_memory_string_bounds,
}

-- Numbers with thirty binary places, whose products are those of their integral parts.
abbrev fixed_point : Floats
fixed_point = record {
  float_of_text = λ s. value_from 0 s * gi;
  float_of_int = λ n. n * gi;
  times = λ a b. a / gi * (b / gi) * gi;
  true_divide = λ n d. n * gi / d;
  int_of = λ a. some (a / gi);
  equals_int = λ a n. eqb a (n * gi);
}

unscaled : (n : ℕ) → n * gi / gi ≡ n
unscaled n = omega arith

quotient_lem : (n d : ℕ) → (d ≡ gi) ⊎ (d ≡ mi) → n * gi / d / gi ≡ n / d
quotient_lem n d (inl same) = rw same (omega arith)
quotient_lem n d (inr same) = rw same (omega arith)

whole_lem : (n : ℕ) (b : Bool) → eqb (n % gi) 0 ≡ b → eqb (n * gi / gi) (n / gi * gi) ≡ b
whole_lem n true same = ground arith
whole_lem n false same = ground arith

fixed_point-IsExact : IsExact fixed_point
fixed_point-IsExact = record {
  product = λ n k small factor below.
      ap (λ m. some m) (rw (value_from-show_ℕ n, unscaled n, unscaled k) (unscaled (n * k)));
  quotient = λ n d small power. ap (λ m. some m) (quotient_lem n d power);
  whole = λ n small. whole_lem n (eqb (n % gi) 0) refl;
}

parse-millicores_to_cpu_string_example :
    Resources.parse_cpu_to_millicores fixed_point (Resources.millicores_to_cpu_string 1500)
    ≡ returned 1500
parse-millicores_to_cpu_string_example =
    parse-millicores_to_cpu_string fixed_point fixed_point-IsExact 1500 (omega arith)

parse-bytes_to_memory_string_bounds_example :
    IsNear 1610612737
      (bytes_of fixed_point (Resources.bytes_to_memory_string fixed_point 1610612737))
parse-bytes_to_memory_string_bounds_example =
    parse-bytes_to_memory_string_bounds fixed_point fixed_point-IsExact 1610612737 (omega arith)

abbrev desktop_login : Request
desktop_login = record about_c1 {
  query_params = ("target", "desktop") ∷ ("desktop_port", "8080") ∷ [];
  path_params = ("provider", "github") ∷ [];
}

abbrev landing : Response
landing = record {
  status_code = 302;
  body = location "https://cloud/auth/github/start?target=local";
  cookies = set_cookie "desktop_login_port" "8080" (cookie_options demo.config 300 true) ∷ [];
}

-- The same browser comes back from Cloud.
abbrev comes_back : Request
comes_back = record about_c1 {
  cookies = ("desktop_login_port", "8080") ∷ [];
  query_params = ("code", "handoff") ∷ [];
}

auth_callback-EndsLogin_example :
    Returns
      (EndsLogin (login_port demo desktop_login none))
      (Login.auth_callback comes_back demo quiet).0
unfolding Login.auth_provider_redirect lookup ◌>>=◌ format_value
auth_callback-EndsLogin_example =
    auth_callback-EndsLogin demo desktop_login comes_back none landing quiet quiet (λ c digit. refl)
      refl refl
