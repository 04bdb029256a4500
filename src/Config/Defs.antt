-- ===== src/Config/Defs.antt =====
-- internal/config/config.go: the settings and how they are read. The environment is a function, with
-- the empty text for a variable that is not set, as `os.Getenv` has it; durations are
-- nanoseconds, and `time.ParseDuration` is a parameter. The log lines of `LogConfig` are left out.
use sprawler.Common.{
  ℕ, ◌*◌, ◌^◌, String, Bool, Option, none, some, List, [], ◌∷◌, str_eq, if◌then◌else◌,
}
use sprawler.Common.Int.{ℤ, pos}
use sprawler.Common.Text.{split, trim_space, atoi}

abbrev pub Env : Type 0
Env = String → String

pub record AuthConfig : Type 0 where
  pub site_url : String
  pub tenant_id : String
  pub client_id : String
  pub cert_path : String

pub record TransportConfig : Type 0 where
  pub max_retries : ℤ
  pub retry_backoffs : List ℤ
  pub throttle_pause : ℤ
  pub retry_policy : List (ℕ × ℤ)

pub record DatabaseConfig : Type 0 where
  pub db_type : String
  pub path : String
  pub name : String
  pub max_conns : ℤ
  pub recreate : Bool
  pub batch_size : ℤ
  pub flush_interval : ℤ
  pub queue_capacity : ℤ
  pub enable_failure_log : Bool
  pub failure_log_path : String
  pub busy_timeout : ℤ
  pub cache_size : ℤ

pub record DebugConfig : Type 0 where
  pub max_pages : ℤ
  pub max_one_drive_sites : ℤ

pub record SharePointConfig : Type 0 where
  pub page_size : ℤ
  pub site_enum_buffer_size : ℤ
  pub expected_sites : ℤ
  pub skip_templates : List String
  pub user_workers : ℤ
  pub group_workers : ℤ
  pub process_groups : Bool
  pub process_group_members : Bool
  pub user_fetch_timeout : ℤ
  pub group_fetch_timeout : ℤ
  pub member_fetch_timeout : ℤ
  pub progress_report_interval : ℤ
  pub throttle_recovery_cooldown : ℤ
  pub throttle_check_interval : ℤ

pub record OneDriveConfig : Type 0 where
  pub csom_buffer_size : ℤ
  pub expected_sites : ℤ
  pub user_workers : ℤ
  pub user_fetch_timeout : ℤ
  pub profile_fetch_timeout : ℤ
  pub progress_report_interval : ℤ
  pub throttle_recovery_cooldown : ℤ
  pub throttle_check_interval : ℤ

pub record Config : Type 0 where
  pub auth : AuthConfig
  pub admin_user : String
  pub transport : TransportConfig
  pub database : DatabaseConfig
  pub debug : DebugConfig
  pub share_point : SharePointConfig
  pub one_drive : OneDriveConfig

-- `time.Second` and `time.Minute`, so many times.
abbrev pub seconds : ℕ → ℤ
seconds n = pos (n * 10 ^ 9)

abbrev pub minutes : ℕ → ℤ
minutes n = pos (n * (60 * 10 ^ 9))

unfoldable pub get_env_or_default : Env → String → String → String
get_env_or_default env key fallback = if str_eq (env key) "" then fallback else env key

abbrev pub or_default {ℓ} : {A : Type ℓ} → Option A → A → A
or_default none d = d
or_default (some v) d = v

unfoldable pub parse_int_or_default : String → ℤ → ℤ
parse_int_or_default text d = or_default (atoi text) d

abbrev pub not_blank : String → List String → List String
not_blank s rest = if str_eq s "" then rest else s ∷ rest

unfoldable pub parse_parts : List String → List String
parse_parts [] = []
parse_parts (p ∷ ps) = not_blank (trim_space p) (parse_parts ps)

-- A nil slice and an empty one are both `[]`.
unfoldable pub parse_string_slice : String → List String
unfolding parse_parts
parse_string_slice text = if str_eq text "" then [] else parse_parts (split b',' text)

unfoldable pub is_true : Env → String → String → Bool
unfolding get_env_or_default
is_true env key fallback = str_eq (get_env_or_default env key fallback) "true"

unfoldable pub int_at : Env → String → String → ℤ → ℤ
unfolding get_env_or_default parse_int_or_default
int_at env key text d = parse_int_or_default (get_env_or_default env key text) d

abbrev pub if_empty : List ℤ → List ℤ → List ℤ
if_empty [] defaults = defaults
if_empty (d ∷ ds) defaults = d ∷ ds

module _ (parse_duration : String → Option ℤ) where
  unfoldable pub parse_duration_or_default : String → ℤ → ℤ
  parse_duration_or_default text d = or_default (parse_duration text) d

  -- The loop: `none` where an entry is no duration.
  unfoldable pub parse_durations : List String → Option (List ℤ)
  parse_durations [] = some []
  parse_durations (p ∷ ps) =
      let rest = parse_durations ps in
      elim (parse_duration (trim_space p)) [
        | none ↦ none
        | some d ↦ elim rest [ none ↦ none | some ds ↦ some (d ∷ ds) ]
      ]

  unfoldable pub parse_duration_slice : String → List ℤ → List ℤ
  unfolding parse_durations
  parse_duration_slice text defaults = elim (parse_durations (split b',' text)) [
    | none ↦ defaults
    | some ds ↦ if_empty ds defaults
  ]

  unfoldable pub duration_at : Env → String → String → ℤ → ℤ
  unfolding get_env_or_default parse_duration_or_default
  duration_at env key text d = parse_duration_or_default (get_env_or_default env key text) d
