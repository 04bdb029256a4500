-- ===== src/Config/Load.antt =====
-- `loadConfigFromEnv` of internal/config/config.go: the whole configuration from the variables.
use sprawler.Common.{ℕ, String, Bool, ◌||◌, Option, List, [], ◌∷◌, str_eq, if◌then◌else◌}
use sprawler.Common.Int.{ℤ, pos, negsuc}
use sprawler.Errors.{Reply, api_error, fetched, message}
use sprawler.Config.Defs.{
  Env, AuthConfig, TransportConfig, DatabaseConfig, DebugConfig, SharePointConfig, OneDriveConfig,
  Config, seconds, minutes, get_env_or_default, parse_string_slice, is_true, int_at, duration_at,
  parse_duration_slice,
}

unfoldable pub auth_config : Env → AuthConfig
unfolding get_env_or_default
auth_config env = record {
  site_url = get_env_or_default env "SPRAWLER_SP_TENANT_ADMIN_SITE" "";
  tenant_id = get_env_or_default env "SPRAWLER_ENTRA_TENANT_ID" "";
  client_id = get_env_or_default env "SPRAWLER_ENTRA_CLIENT_ID" "";
  cert_path = get_env_or_default env "SPRAWLER_ENTRA_CERT_PATH" "";
}

-- A required variable is missing.
unfoldable pub is_incomplete : AuthConfig → Bool
is_incomplete a =
    str_eq a.site_url ""
    || (str_eq a.tenant_id "" || (str_eq a.client_id "" || str_eq a.cert_path ""))

abbrev pub missing_variables : String
missing_variables =
    "missing required auth environment variables: SPRAWLER_SP_TENANT_ADMIN_SITE, SPRAWLER_ENTRA_TENANT_ID, SPRAWLER_ENTRA_CLIENT_ID, SPRAWLER_ENTRA_CERT_PATH"

abbrev pub default_backoffs : List ℤ
default_backoffs = seconds 5 ∷ seconds 10 ∷ seconds 30 ∷ []

unfoldable pub debug_config : Env → DebugConfig
unfolding int_at
debug_config env = record {
  max_pages = int_at env "SPRAWLER_DEBUG_MAX_PAGES" "0" (pos 0);
  max_one_drive_sites = int_at env "SPRAWLER_DEBUG_MAX_ONEDRIVE_SITES" "0" (pos 0);
}

unfoldable pub retry_policy_of : Env → List (ℕ × ℤ)
unfolding int_at
retry_policy_of env =
    (500, int_at env "SPRAWLER_TRANSPORT_RETRY_500" "5" (pos 5))
    ∷ (503, int_at env "SPRAWLER_TRANSPORT_RETRY_503" "10" (pos 10))
    ∷ (504, int_at env "SPRAWLER_TRANSPORT_RETRY_504" "10" (pos 10))
    ∷ (429, int_at env "SPRAWLER_TRANSPORT_RETRY_429" "10" (pos 10))
    ∷ (401, int_at env "SPRAWLER_TRANSPORT_RETRY_401" "5" (pos 5))
    ∷ []

module _ (parse_duration : String → Option ℤ) where
  unfoldable pub transport_config : Env → TransportConfig
  unfolding int_at duration_at get_env_or_default parse_duration_slice retry_policy_of
  transport_config env = record {
    max_retries = int_at env "SPRAWLER_TRANSPORT_MAX_RETRIES" "3" (pos 3);
    retry_backoffs =
        parse_duration_slice parse_duration
          (get_env_or_default env "SPRAWLER_TRANSPORT_RETRY_BACKOFFS" "5s,10s,30s")
          default_backoffs;
    throttle_pause =
        duration_at parse_duration env "SPRAWLER_TRANSPORT_THROTTLE_PAUSE" "1m" (minutes 1);
    retry_policy = retry_policy_of env;
  }

  unfoldable pub database_config : Env → DatabaseConfig
  unfolding int_at duration_at get_env_or_default is_true
  database_config env = record {
    db_type = get_env_or_default env "SPRAWLER_DB_TYPE" "sqlite";
    path = get_env_or_default env "SPRAWLER_DB_PATH" "./data";
    name = get_env_or_default env "SPRAWLER_DB_NAME" "spo.db";
    max_conns = pos 1;
    recreate = is_true env "SPRAWLER_DB_RECREATE" "true";
    batch_size = int_at env "SPRAWLER_DB_BATCH_SIZE" "500" (pos 500);
    flush_interval = duration_at parse_duration env "SPRAWLER_DB_FLUSH_INTERVAL" "5s" (seconds 5);
    queue_capacity = int_at env "SPRAWLER_DB_QUEUE_CAPACITY" "8000" (pos 8000);
    enable_failure_log = is_true env "SPRAWLER_DB_ENABLE_FAILURE_LOG" "true";
    failure_log_path =
        get_env_or_default env "SPRAWLER_DB_FAILURE_LOG_PATH" "./failed_writes.ndjson";
    busy_timeout = int_at env "SPRAWLER_DB_BUSY_TIMEOUT" "5000" (pos 5000);
    cache_size = int_at env "SPRAWLER_DB_CACHE_SIZE" "-262144" (negsuc 262143);
  }

  unfoldable pub share_point_config : Env → SharePointConfig
  unfolding int_at duration_at get_env_or_default is_true parse_string_slice
  share_point_config env = record {
    page_size = int_at env "SPRAWLER_SP_PAGE_SIZE" "5000" (pos 5000);
    site_enum_buffer_size = int_at env "SPRAWLER_SP_SITE_ENUM_BUFFER_SIZE" "400" (pos 400);
    expected_sites = int_at env "SPRAWLER_SP_EXPECTED_SITES" "0" (pos 0);
    skip_templates = parse_string_slice (
        get_env_or_default env "SPRAWLER_SP_SKIP_TEMPLATES"
          "TEAMCHANNEL#0,TEAMCHANNEL#1,APPCATALOG#0,REDIRECTSITE#0");
    user_workers = int_at env "SPRAWLER_SP_USER_WORKERS" "6" (pos 6);
    group_workers = int_at env "SPRAWLER_SP_GROUP_WORKERS" "4" (pos 4);
    process_groups = is_true env "SPRAWLER_SP_PROCESS_GROUPS" "false";
    process_group_members = is_true env "SPRAWLER_SP_PROCESS_GROUP_MEMBERS" "false";
    user_fetch_timeout =
        duration_at parse_duration env "SPRAWLER_SP_USER_FETCH_TIMEOUT" "10m" (minutes 10);
    group_fetch_timeout =
        duration_at parse_duration env "SPRAWLER_SP_GROUP_FETCH_TIMEOUT" "10m" (minutes 10);
    member_fetch_timeout =
        duration_at parse_duration env "SPRAWLER_SP_MEMBER_FETCH_TIMEOUT" "10m" (minutes 10);
    progress_report_interval =
        duration_at parse_duration env "SPRAWLER_SP_PROGRESS_INTERVAL" "1m" (minutes 1);
    throttle_recovery_cooldown =
        duration_at parse_duration env "SPRAWLER_THROTTLE_RECOVERY_COOLDOWN" "1m" (minutes 1);
    throttle_check_interval =
        duration_at parse_duration env "SPRAWLER_THROTTLE_CHECK_INTERVAL" "10s" (seconds 10);
  }

  unfoldable pub one_drive_config : Env → OneDriveConfig
  unfolding int_at duration_at
  one_drive_config env = record {
    csom_buffer_size = int_at env "SPRAWLER_OD_CSOM_BUFFER_SIZE" "500" (pos 500);
    expected_sites = int_at env "SPRAWLER_OD_EXPECTED_SITES" "0" (pos 0);
    user_workers = int_at env "SPRAWLER_OD_USER_WORKERS" "6" (pos 6);
    user_fetch_timeout =
        duration_at parse_duration env "SPRAWLER_OD_USER_FETCH_TIMEOUT" "10m" (minutes 10);
    profile_fetch_timeout =
        duration_at parse_duration env "SPRAWLER_OD_PROFILE_FETCH_TIMEOUT" "10m" (minutes 10);
    progress_report_interval =
        duration_at parse_duration env "SPRAWLER_OD_PROGRESS_INTERVAL" "1m" (minutes 1);
    throttle_recovery_cooldown =
        duration_at parse_duration env "SPRAWLER_THROTTLE_RECOVERY_COOLDOWN" "1m" (minutes 1);
    throttle_check_interval =
        duration_at parse_duration env "SPRAWLER_THROTTLE_CHECK_INTERVAL" "10s" (seconds 10);
  }

  unfoldable pub config_of : Env → AuthConfig → Config
  unfolding transport_config database_config debug_config share_point_config one_drive_config
      get_env_or_default
  config_of env auth = record {
    auth = auth;
    admin_user = get_env_or_default env "SPRAWLER_SP_ADMIN_USER" "";
    transport = transport_config env;
    database = database_config env;
    debug = debug_config env;
    share_point = share_point_config env;
    one_drive = one_drive_config env;
  }

  unfoldable pub load_config_from_env : Env → Reply Config
  unfolding auth_config is_incomplete config_of
  load_config_from_env env =
      let auth = auth_config env in
      if is_incomplete auth
      then api_error (message missing_variables)
      else fetched (config_of env auth)
