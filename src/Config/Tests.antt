-- ===== src/Config/Tests.antt =====
-- Environments that the tests of internal/config use, and the theorems at these.
use sprawler.Common.{
  ◌≡◌, refl, String, true, false, Option, none, some, [], ◌∷◌, ◌⊎◌, str_eq, not, any_of,
  if◌then◌else◌,
}
use sprawler.Common.Int.{ℤ, pos, negsuc}
use sprawler.Common.Text.{split, trim_space, atoi}
use sprawler.Errors.{Reply, api_error, fetched, message}
use sprawler.Config.Defs.{
  Env, Config, seconds, minutes, parse_int_or_default, parse_string_slice, parse_duration_slice,
}
use sprawler.Config.Load.{missing_variables, load_config_from_env}
use sprawler.Config.Unset.{unset, ReadsDefaults, number}
use sprawler.Config.Kept.{load_config_from_env_malformed}
use sprawler.Config.Loaded.{required, is_set, IsUsable, load_config_from_env-IsUsable}

-- Some durations.
abbrev durations : String → Option ℤ
durations text =
    if str_eq text "5s"
    then some (seconds 5)
    else if str_eq text "10s"
    then some (seconds 10)
    else if str_eq text "30s"
    then some (seconds 30)
    else if str_eq text "1m"
    then some (minutes 1)
    else if str_eq text "10m"
    then some (minutes 10)
    else none

durations-ReadsDefaults : ReadsDefaults durations
durations-ReadsDefaults = record {
  five_seconds = refl;
  ten_seconds = refl;
  thirty_seconds = refl;
  one_minute = refl;
  ten_minutes = refl;
}

-- The required variables, and a page size that is no number.
abbrev example_env : Env
example_env k =
    if str_eq k "SPRAWLER_SP_TENANT_ADMIN_SITE"
    then "https://example-admin.sharepoint.com/"
    else if str_eq k "SPRAWLER_ENTRA_TENANT_ID"
    then "tenant"
    else if str_eq k "SPRAWLER_ENTRA_CLIENT_ID"
    then "client"
    else if str_eq k "SPRAWLER_ENTRA_CERT_PATH"
    then "cert.pfx"
    else if str_eq k "SPRAWLER_SP_PAGE_SIZE"
    then "many"
    else ""

negative_test : parse_int_or_default "-5" (pos 10) ≡ negsuc 4
unfolding parse_int_or_default atoi
negative_test = refl

templates_test : parse_string_slice " A , B ,, " ≡ "A" ∷ "B" ∷ []
unfolding parse_string_slice split trim_space
templates_test = refl

backoffs_test : parse_duration_slice durations "5s, 10s" [] ≡ seconds 5 ∷ seconds 10 ∷ []
unfolding parse_duration_slice split trim_space
backoffs_test = refl

abbrev page_size_of : Reply Config → ℤ
page_size_of (api_error e) = pos 0
page_size_of (fetched c) = c.share_point.page_size

page_size_test : page_size_of (load_config_from_env durations example_env) ≡ pos 5000
unfolding load_config_from_env atoi split trim_space
page_size_test = refl

load_config_from_env_malformed_example :
    load_config_from_env durations (unset "SPRAWLER_SP_PAGE_SIZE" example_env)
    ≡ load_config_from_env durations example_env
unfolding atoi
load_config_from_env_malformed_example =
    load_config_from_env_malformed durations durations-ReadsDefaults example_env
      "SPRAWLER_SP_PAGE_SIZE" (number refl refl)

load_config_from_env-IsUsable_example :
    ((any_of (λ k. not (is_set example_env k)) required ≡ true)
      × (load_config_from_env durations example_env ≡ api_error (message missing_variables)))
    ⊎ ((any_of (λ k. not (is_set example_env k)) required ≡ false)
        × ((c : Config) × (load_config_from_env durations example_env ≡ fetched c)
            × IsUsable example_env c))
load_config_from_env-IsUsable_example = load_config_from_env-IsUsable durations example_env
