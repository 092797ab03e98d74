-- ===== src/Containers/Resources/RoundTrip.antt =====
-- Quantities that are written are read back.
use browseterm_server_local.Prelude.{
  ℕ, ◌+◌, ◌*◌, ◌/◌, ◌%◌, ◌≤◌, ◌<◌, leb, eqb, String, ◌<>◌, ◌≡◌, refl, sym, ap, ◌∙◌, ◌⊎◌, inl, inr,
  Bool, true, false, ◌&&◌, Option, some, if◌then◌else◌, arith,
}
use browseterm_server_local.Python.Text.{show_ℕ}
use browseterm_server_local.Python.Text.Digits.{
  show_ℕ-is_digit, show_ℕ_nonempty, span-append, append_nil,
}
use browseterm_server_local.Python.Strings.{span, is_digit}
use browseterm_server_local.Python.Error.{Error, Reply, returned, raised}
use browseterm_server_local.Python.Error as Reply
use browseterm_server_local.World.Events.{Floats}
use browseterm_server_local.Containers.Resources
use browseterm_server_local.Containers.Resources.{gi, mi}

-- The integers below which doubles are exact: 2 to the 53.
abbrev pub exact_bound : ℕ
exact_bound = 9007199254740992

-- What IEEE 754 says of doubles that are integers below 2 to the 53: a decimal text is read
-- exactly, and a product and a quotient by a power of two are exact.
pub record IsExact (f : Floats) : Type 0 where
  pub product :
      (n k : ℕ)
      → n < exact_bound
      → k < exact_bound
      → n * k < exact_bound
      → f.int_of (f.times (f.float_of_text (show_ℕ n)) (f.float_of_int k)) ≡ some (n * k)
  pub quotient :
      (n d : ℕ)
      → n < exact_bound
      → (d ≡ gi) ⊎ (d ≡ mi)
      → f.int_of (f.true_divide n d) ≡ some (n / d)
  pub whole :
      (n : ℕ) → n < exact_bound → f.equals_int (f.true_divide n gi) (n / gi) ≡ eqb (n % gi) 0

-- A unit that ends a quantity.
abbrev IsUnit : String → Type 0
IsUnit u =
    (span is_digit u ≡ ("", u))
    × (Resources.fraction u ≡ ("", u))
    × (Resources.without_newline u ≡ u)

-- The bytes are at most `n`, and less than a mebibyte below it.
abbrev pub IsNear : ℕ → Reply ℕ → Type 0
IsNear n (returned m) = (m ≤ n) × (n < m + mi)
IsNear n (raised x) = ⊥

-- The bytes of a text that was written.
abbrev pub bytes_of : Floats → Reply String → Reply ℕ
bytes_of f (returned s) = Resources.parse_memory_to_bytes f s
bytes_of f (raised x) = raised x

module _ (f : Floats) (exact : IsExact f) where
  -- A number with a unit is read as the product.
  quantity-show_ℕ :
      (unit_of : String → Option ℕ) (invalid : Error) (n k : ℕ) (u : String)
      → IsUnit u
      → unit_of u ≡ some k
      → n < exact_bound
      → k < exact_bound
      → n * k < exact_bound
      → Resources.quantity f unit_of invalid (show_ℕ n <> u) ≡ returned (n * k)
  unfolding Resources.quantity
  quantity-show_ℕ unit_of invalid n k u (no_digit, no_point, one_line) is_unit small factor below =
      rw
        (
          span-append is_digit (show_ℕ n) u (show_ℕ-is_digit n) no_digit,
          no_point,
          show_ℕ_nonempty n,
          one_line,
          is_unit,
          span-append is_digit (show_ℕ n) u (show_ℕ-is_digit n) no_digit,
          no_point,
          append_nil (show_ℕ n),
          exact.product n k small factor below,
        )
        refl

  -- A quantity that ends in its digits.
  quantity-digits :
      (unit_of : String → Option ℕ) (invalid : Error) (n k : ℕ)
      → unit_of "" ≡ some k
      → n < exact_bound
      → k < exact_bound
      → n * k < exact_bound
      → Resources.quantity f unit_of invalid (show_ℕ n) ≡ returned (n * k)
  unfolding span Resources.fraction
  quantity-digits unit_of invalid n k is_unit small factor below =
      ap (λ s. Resources.quantity f unit_of invalid s) (sym (append_nil (show_ℕ n)))
      ∙ quantity-show_ℕ unit_of invalid n k "" (refl, refl, refl) is_unit small factor below

  cores_lem :
      (n : ℕ)
      → n * 1000 < exact_bound
      → Resources.parse_cpu_to_millicores f (show_ℕ n) ≡ returned (n * 1000)
  unfolding Resources.parse_cpu_to_millicores Resources.cpu_unit
  cores_lem n small =
      quantity-digits Resources.cpu_unit _ n 1000 refl (omega arith) (omega arith) small

  millicores_lem :
      (n : ℕ)
      → n < exact_bound
      → Resources.parse_cpu_to_millicores f (show_ℕ n <> "m") ≡ returned (n * 1)
  unfolding Resources.parse_cpu_to_millicores Resources.cpu_unit Resources.fraction span
  millicores_lem n small =
      quantity-show_ℕ Resources.cpu_unit _ n 1 "m" (refl, refl, refl) refl small (omega arith)
        (omega arith)

  by_cores :
      (n : ℕ) (b : Bool)
      → n < exact_bound
      → (leb 1000 n && eqb (n % 1000) 0) ≡ b
      → Resources.parse_cpu_to_millicores f (if b then show_ℕ (n / 1000) else show_ℕ n <> "m")
        ≡ returned n
  by_cores n true small whole =
      cores_lem (n / 1000) (ground arith) ∙ ap (λ m. returned m) (ground arith)
  by_cores n false small other = millicores_lem n small ∙ ap (λ m. returned m) (omega arith)

  -- Millicores below 2 to the 53 that are written as text are read back, where doubles are exact for
  -- such integers.
  pub parse-millicores_to_cpu_string :
      (n : ℕ)
      → n < exact_bound
      → Resources.parse_cpu_to_millicores f (Resources.millicores_to_cpu_string n) ≡ returned n
  unfolding Resources.millicores_to_cpu_string
  parse-millicores_to_cpu_string n small = by_cores n (leb 1000 n && eqb (n % 1000) 0) small refl

  -- A quantity of memory with a unit of the table.
  memory_lem :
      (n k : ℕ) (u : String)
      → IsUnit u
      → Resources.memory_unit u ≡ some k
      → n < exact_bound
      → k < exact_bound
      → n * k < exact_bound
      → Resources.parse_memory_to_bytes f (show_ℕ n <> u) ≡ returned (n * k)
  unfolding Resources.parse_memory_to_bytes
  memory_lem n k u unit is_unit small factor below =
      quantity-show_ℕ Resources.memory_unit _ n k u unit is_unit small factor below

  mebibytes_lem :
      (n : ℕ)
      → n < exact_bound
      → IsNear n (Resources.parse_memory_to_bytes f (show_ℕ (n / mi) <> "Mi"))
  unfolding Resources.memory_unit Resources.fraction span
  mebibytes_lem n small =
      rw
        (memory_lem (n / mi) mi "Mi" (refl, refl, refl) refl (omega arith) (omega arith)
          (omega arith))
        (omega arith, omega arith)

  gibibytes_lem :
      (n : ℕ)
      → n < exact_bound
      → eqb (n % gi) 0 ≡ true
      → IsNear n (Resources.parse_memory_to_bytes f (show_ℕ (n / gi) <> "Gi"))
  unfolding Resources.memory_unit Resources.fraction span
  gibibytes_lem n small whole =
      rw
        (memory_lem (n / gi) gi "Gi" (refl, refl, refl) refl (omega arith) (omega arith)
          (omega arith))
        (omega arith, ground arith)

  by_whole :
      (n : ℕ) (b : Bool)
      → n < exact_bound
      → eqb (n % gi) 0 ≡ b
      → IsNear n (
          bytes_of f
            (if b then returned (show_ℕ (n / gi) <> "Gi") else returned (show_ℕ (n / mi) <> "Mi")))
  by_whole n true small whole = gibibytes_lem n small whole
  by_whole n false small other = mebibytes_lem n small

  -- Bytes below 2 to the 53 that are written as memory are read back as at most as many, less than a
  -- mebibyte below, where doubles are exact for such integers.
  pub parse-bytes_to_memory_string_bounds :
      (n : ℕ) → n < exact_bound → IsNear n (bytes_of f (Resources.bytes_to_memory_string f n))
  unfolding Resources.bytes_to_memory_string Resources.to_int
  parse-bytes_to_memory_string_bounds n small = by_size (leb gi n)
    where
      by_size :
          (b : Bool)
          → IsNear n (
              bytes_of f (
                if b
                then Reply.◌>>=◌ (Resources.to_int (f.int_of (f.true_divide n gi))) (λ whole.
                  if f.equals_int (f.true_divide n gi) whole
                  then returned (show_ℕ whole <> "Gi")
                  else Reply.◌>>=◌
                      (Resources.to_int (f.int_of (f.true_divide n mi)))
                      (λ m. returned (show_ℕ m <> "Mi")))
                else Reply.◌>>=◌
                    (Resources.to_int (f.int_of (f.true_divide n mi)))
                    (λ m. returned (show_ℕ m <> "Mi"))))
      by_size true =
          rw
            (
              exact.quotient n gi small (inl refl),
              exact.quotient n mi small (inr refl),
              exact.whole n small,
            )
            (by_whole n (eqb (n % gi) 0) small refl)
      by_size false = rw (exact.quotient n mi small (inr refl)) (mebibytes_lem n small)
