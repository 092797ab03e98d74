-- ===== src/Common/Settings/Reading.antt =====
-- When the settings can be read.
use browseterm_server_local.Prelude.{
  String, ◌≡◌, refl, ap, ◌∙◌, ◌⊎◌, ◌==◌, Bool, false, Option, none, some, ℕ, arith,
}
use browseterm_server_local.Python.Text.{ℤ}
use browseterm_server_local.Python.Strings.{int_of_text}
use browseterm_server_local.Python.Error.{value_error, Reply, returned, raised}
use browseterm_server_local.Common.Settings
use browseterm_server_local.Common.Settings.{Settings}

module _ (environ : String → Option String) (is_space : ℕ → Bool) (lower : String → String)
    (float : String → Reply ℕ) (int_error : String → String) where
  -- What a setting reads as.
  abbrev pub reading : (key default : String) → Option ℤ
  reading key default =
      int_of_text is_space (Settings.getenv environ is_space lower float int_error key default)

  abbrev load : Reply Settings
  load = Settings.load_settings environ is_space lower float int_error

  -- Some setting that has to be an integer is none.
  abbrev pub HasBadNumber : Type 0
  HasBadNumber =
      (reading "CONTAINER_MAKER_PORT" "50052" ≡ none)
      ⊎ (reading "PAYMENT_GATEWAY_PORT" "50053" ≡ none)
      ⊎ (reading "SESSION_COOKIE_MAX_AGE" "86400" ≡ none)
      ⊎ (reading "POSTGRES_PORT" "5432" ≡ none)

  abbrev pub IsValueError : Reply Settings → Type 0
  IsValueError (raised (value_error s)) = Unit
  IsValueError _ = ⊥

  -- The integers are what their settings read as.
  abbrev pub HasNumbers : Settings → Type 0
  HasNumbers s =
      (reading "CONTAINER_MAKER_PORT" "50052" ≡ some s.container_maker_port)
      × (reading "PAYMENT_GATEWAY_PORT" "50053" ≡ some s.payment_gateway_port)
      × (reading "SESSION_COOKIE_MAX_AGE" "86400" ≡ some s.session_cookie_max_age)
      × (reading "POSTGRES_PORT" "5432" ≡ some s.db_config.port)

  -- The text of COOKIE_SECURE, if it is set, is "true" in small letters.
  abbrev pub is_secure : Option String → Bool
  is_secure none = false
  is_secure (some s) = lower s == "true"

  load_settings_raises : HasBadNumber → IsValueError load
  unfolding Settings.load_settings Settings.int_setting
  load_settings_raises bad = ground arith

  load_settings_reads :
      (s : Settings)
      → load ≡ returned s
      → HasNumbers s
        × (s.cookie_secure
            ≡ lower (Settings.getenv environ is_space lower float int_error "COOKIE_SECURE" "false")
              == "true")
  unfolding Settings.load_settings Settings.int_setting Settings.cookie_secure_setting
  load_settings_reads s same = ground arith

  secure_setting :
      lower "false" ≡ "false"
      → (o : Option String)
      → (lower (elim o [ none ↦ "false" | some s ↦ s ]) == "true") ≡ is_secure o
  secure_setting small none = ap (λ s. s == "true") small
  secure_setting small (some s) = refl

  -- Where a port or the cookie's age is set to a text that is no integer, the settings are not
  -- read: a ValueError is raised. Where they are read, each port and the cookie's age are the
  -- integers that their texts, or the defaults, stand for, and cookies are secure exactly when
  -- COOKIE_SECURE is set to a text that is "true" in small letters, whatever else the process's
  -- environment holds; for that, "false" in small letters is "false".
  pub load_settings_lem :
      lower "false" ≡ "false"
      → (HasBadNumber → IsValueError load)
        × ((s : Settings)
            → load ≡ returned s
            → HasNumbers s × (s.cookie_secure ≡ is_secure (environ "COOKIE_SECURE")))
  unfolding Settings.getenv
  load_settings_lem small = (
    load_settings_raises,
    λ s same.
        let (numbers, secure) = load_settings_reads s same in
        (numbers, secure ∙ secure_setting small (environ "COOKIE_SECURE")),
  )
