-- ===== src/Containers/Resources.antt =====
-- `class ResourceUnitConverter` of src/common/utils.py: Kubernetes quantities, and the requests that
-- are derived from limits. Digits are ASCII; a quantity may end in a line break, as `$` allows.
pub mod RoundTrip
use browseterm_server_local.Prelude.{
  ℕ, String, ◌<>◌, ◌/◌, ◌%◌, ◌==◌, ◌&&◌, Option, none, some, leb, eqb, if◌then◌else◌,
}
use browseterm_server_local.Python.Text.{show_ℕ}
use browseterm_server_local.Python.Strings.{is_empty, span, is_digit}
use browseterm_server_local.Python.Error.{
  Error, value_error, exception, Reply, returned, raised, ◌>>=◌,
}
use browseterm_server_local.World.Events.{Floats}

abbrev pub gi : ℕ
gi = 1073741824

abbrev pub mi : ℕ
mi = 1048576

-- `MEMORY_UNITS`
unfoldable pub memory_unit : String → Option ℕ
memory_unit u =
    if u == ""
    then some 1
    else if u == "Ki"
    then some 1024
    else if u == "Mi"
    then some mi
    else if u == "Gi"
    then some gi
    else if u == "Ti"
    then some 1099511627776
    else if u == "K"
    then some 1000
    else if u == "M"
    then some 1000000
    else if u == "G"
    then some 1000000000
    else if u == "T"
    then some 1000000000000
    else none

-- `CPU_UNITS`
unfoldable pub cpu_unit : String → Option ℕ
cpu_unit u = if u == "" then some 1000 else if u == "m" then some 1 else none

-- The fraction of `\d+(?:\.\d+)?`, if the text begins with one.
fraction : String → String × String
unfolding span
fraction String.[] = ("", "")
fraction (String.◌∷◌ c s) =
    let (digits, rest) = span is_digit s in
    if String.◌∷◌ c "" == "."
    then (if is_empty digits then ("", String.◌∷◌ c s) else ("." <> digits, rest))
    else ("", String.◌∷◌ c s)

-- What `$` leaves out: one line break at the end.
abbrev without_newline : String → String
without_newline String.[] = ""
without_newline (String.◌∷◌ c s) = elim s [
  | String.[] ↦ if String.◌∷◌ c "" == "\n" then "" else String.◌∷◌ c ""
  | String.◌∷◌ d t ↦ String.◌∷◌ c (without_newline s)
]

-- `float(match.group(1)) * UNITS[unit]`, as an `int`.
unfoldable pub quantity : Floats → (String → Option ℕ) → Error → String → Reply ℕ
unfolding span fraction
quantity f unit_of invalid value =
    let (digits, rest) = span is_digit value in
    let (point, unit) = fraction rest in
    if is_empty digits then raised invalid else elim (unit_of (without_newline unit)) [
      | none ↦ raised invalid
      | some factor ↦
          elim (f.int_of (f.times (f.float_of_text (digits <> point)) (f.float_of_int factor))) [
            | none ↦ raised (exception "cannot convert float infinity to integer")
            | some n ↦ returned n
          ]
    ]

unfoldable pub parse_memory_to_bytes : Floats → String → Reply ℕ
unfolding quantity memory_unit
parse_memory_to_bytes f value =
    quantity f memory_unit (value_error ("Invalid memory format: " <> value)) value

unfoldable pub parse_cpu_to_millicores : Floats → String → Reply ℕ
unfolding quantity cpu_unit
parse_cpu_to_millicores f value =
    quantity f cpu_unit (value_error ("Invalid CPU format: " <> value)) value

to_int : Option ℕ → Reply ℕ
to_int none = raised (exception "cannot convert float infinity to integer")
to_int (some n) = returned n

unfoldable pub bytes_to_memory_string : Floats → ℕ → Reply String
unfolding show_ℕ to_int
bytes_to_memory_string f n =
    if leb gi n
    then (do
      whole ← to_int (f.int_of (f.true_divide n gi))
      (if f.equals_int (f.true_divide n gi) whole
          then returned (show_ℕ whole <> "Gi")
          else (do m ← to_int (f.int_of (f.true_divide n mi)); returned (show_ℕ m <> "Mi"))))
    else (do m ← to_int (f.int_of (f.true_divide n mi)); returned (show_ℕ m <> "Mi"))

unfoldable pub millicores_to_cpu_string : ℕ → String
unfolding show_ℕ
millicores_to_cpu_string n =
    if leb 1000 n && eqb (n % 1000) 0 then show_ℕ (n / 1000) else show_ℕ n <> "m"

-- `except ValueError: return limit`
limit_instead : String → Reply String → Reply String
limit_instead limit (raised (value_error s)) = returned limit
limit_instead limit r = r

unfoldable pub derive_memory_request : Floats → (limit : String) (ratio : ℕ) → Reply String
unfolding parse_memory_to_bytes bytes_to_memory_string limit_instead to_int
derive_memory_request f limit ratio = limit_instead limit (do
  n ← parse_memory_to_bytes f limit
  derived ← to_int (f.int_of (f.times (f.float_of_int n) ratio))
  bytes_to_memory_string f derived)

unfoldable pub derive_cpu_request : Floats → (limit : String) (ratio : ℕ) → Reply String
unfolding parse_cpu_to_millicores millicores_to_cpu_string limit_instead to_int
derive_cpu_request f limit ratio = limit_instead limit (do
  n ← parse_cpu_to_millicores f limit
  derived ← to_int (f.int_of (f.times (f.float_of_int n) ratio))
  returned (millicores_to_cpu_string derived))
