-- ===== src/Config/Kept.antt =====
-- The loaded configuration does not change when a variable that cannot be read is unset.
use sprawler.Common.{◌≡◌, refl, String, Option, some, [], ◌∷◌, str_eq, if◌then◌else◌}
use sprawler.Common.Int.{ℤ, pos, negsuc}
use sprawler.Common.Text.{split, trim_space, atoi}
use sprawler.Errors.{api_error, fetched, message}
use sprawler.Config.Defs.{Env, seconds, minutes, parse_string_slice, parse_durations}
use sprawler.Config.Load.{
  auth_config, is_incomplete, missing_variables, default_backoffs, debug_config, retry_policy_of,
  transport_config, database_config, share_point_config, one_drive_config, config_of,
  load_config_from_env,
}
use sprawler.Config.Unset.{
  unset, ReadsDefaults, IsMalformed, text_kept, int_kept, duration_kept, slice_kept,
}

module _ (parse_duration : String → Option ℤ) (reads : ReadsDefaults parse_duration) (env : Env)
    (k : String) (bad : IsMalformed parse_duration env k) where
  default_backoffs_lem :
      parse_durations parse_duration (split b',' "5s,10s,30s") ≡ some default_backoffs
  unfolding parse_durations split trim_space
  default_backoffs_lem = rw (reads.five_seconds, reads.ten_seconds, reads.thirty_seconds)

  retry_policy_kept : retry_policy_of (unset k env) ≡ retry_policy_of env
  unfolding retry_policy_of atoi
  retry_policy_kept = λ i.
      (
        500,
        int_kept parse_duration env k "SPRAWLER_TRANSPORT_RETRY_500" "5" (pos 5) refl refl bad i,
      )
      ∷ (
        503,
        int_kept parse_duration env k "SPRAWLER_TRANSPORT_RETRY_503" "10" (pos 10) refl refl bad i,
      )
      ∷ (
        504,
        int_kept parse_duration env k "SPRAWLER_TRANSPORT_RETRY_504" "10" (pos 10) refl refl bad i,
      )
      ∷ (
        429,
        int_kept parse_duration env k "SPRAWLER_TRANSPORT_RETRY_429" "10" (pos 10) refl refl bad i,
      )
      ∷ (
        401,
        int_kept parse_duration env k "SPRAWLER_TRANSPORT_RETRY_401" "5" (pos 5) refl refl bad i,
      )
      ∷ []

  auth_config_kept : auth_config (unset k env) ≡ auth_config env
  unfolding auth_config
  auth_config_kept = λ i. record {
    site_url = text_kept parse_duration env k "SPRAWLER_SP_TENANT_ADMIN_SITE" "" refl bad i;
    tenant_id = text_kept parse_duration env k "SPRAWLER_ENTRA_TENANT_ID" "" refl bad i;
    client_id = text_kept parse_duration env k "SPRAWLER_ENTRA_CLIENT_ID" "" refl bad i;
    cert_path = text_kept parse_duration env k "SPRAWLER_ENTRA_CERT_PATH" "" refl bad i;
  }

  debug_config_kept : debug_config (unset k env) ≡ debug_config env
  unfolding debug_config atoi
  debug_config_kept = λ i. record {
    max_pages =
        int_kept parse_duration env k "SPRAWLER_DEBUG_MAX_PAGES" "0" (pos 0) refl refl bad i;
    max_one_drive_sites =
        int_kept parse_duration env k "SPRAWLER_DEBUG_MAX_ONEDRIVE_SITES" "0" (pos 0) refl refl bad
          i;
  }

  transport_config_kept :
      transport_config parse_duration (unset k env) ≡ transport_config parse_duration env
  unfolding transport_config atoi
  transport_config_kept = λ i. record {
    max_retries =
        int_kept parse_duration env k "SPRAWLER_TRANSPORT_MAX_RETRIES" "3" (pos 3) refl refl bad i;
    retry_backoffs =
        slice_kept parse_duration env k "SPRAWLER_TRANSPORT_RETRY_BACKOFFS" "5s,10s,30s"
          default_backoffs refl default_backoffs_lem bad i;
    throttle_pause =
        duration_kept parse_duration env k "SPRAWLER_TRANSPORT_THROTTLE_PAUSE" "1m" (minutes 1) refl
          reads.one_minute bad i;
    retry_policy = retry_policy_kept i;
  }

  database_config_kept :
      database_config parse_duration (unset k env) ≡ database_config parse_duration env
  unfolding database_config atoi
  database_config_kept = λ i. record {
    db_type = text_kept parse_duration env k "SPRAWLER_DB_TYPE" "sqlite" refl bad i;
    path = text_kept parse_duration env k "SPRAWLER_DB_PATH" "./data" refl bad i;
    name = text_kept parse_duration env k "SPRAWLER_DB_NAME" "spo.db" refl bad i;
    max_conns = pos 1;
    recreate =
        str_eq (text_kept parse_duration env k "SPRAWLER_DB_RECREATE" "true" refl bad i) "true";
    batch_size =
        int_kept parse_duration env k "SPRAWLER_DB_BATCH_SIZE" "500" (pos 500) refl refl bad i;
    flush_interval =
        duration_kept parse_duration env k "SPRAWLER_DB_FLUSH_INTERVAL" "5s" (seconds 5) refl
          reads.five_seconds bad i;
    queue_capacity =
        int_kept parse_duration env k "SPRAWLER_DB_QUEUE_CAPACITY" "8000" (pos 8000) refl refl bad
          i;
    enable_failure_log =
        str_eq (text_kept parse_duration env k "SPRAWLER_DB_ENABLE_FAILURE_LOG" "true" refl bad i)
          "true";
    failure_log_path =
        text_kept parse_duration env k "SPRAWLER_DB_FAILURE_LOG_PATH" "./failed_writes.ndjson" refl
          bad i;
    busy_timeout =
        int_kept parse_duration env k "SPRAWLER_DB_BUSY_TIMEOUT" "5000" (pos 5000) refl refl bad i;
    cache_size =
        int_kept parse_duration env k "SPRAWLER_DB_CACHE_SIZE" "-262144" (negsuc 262143) refl refl
          bad i;
  }

  share_point_config_kept :
      share_point_config parse_duration (unset k env) ≡ share_point_config parse_duration env
  unfolding share_point_config atoi
  share_point_config_kept = λ i. record {
    page_size =
        int_kept parse_duration env k "SPRAWLER_SP_PAGE_SIZE" "5000" (pos 5000) refl refl bad i;
    site_enum_buffer_size =
        int_kept parse_duration env k "SPRAWLER_SP_SITE_ENUM_BUFFER_SIZE" "400" (pos 400) refl refl
          bad i;
    expected_sites =
        int_kept parse_duration env k "SPRAWLER_SP_EXPECTED_SITES" "0" (pos 0) refl refl bad i;
    skip_templates = parse_string_slice (
        text_kept parse_duration env k "SPRAWLER_SP_SKIP_TEMPLATES"
          "TEAMCHANNEL#0,TEAMCHANNEL#1,APPCATALOG#0,REDIRECTSITE#0" refl bad i);
    user_workers =
        int_kept parse_duration env k "SPRAWLER_SP_USER_WORKERS" "6" (pos 6) refl refl bad i;
    group_workers =
        int_kept parse_duration env k "SPRAWLER_SP_GROUP_WORKERS" "4" (pos 4) refl refl bad i;
    process_groups =
        str_eq (text_kept parse_duration env k "SPRAWLER_SP_PROCESS_GROUPS" "false" refl bad i)
          "true";
    process_group_members =
        str_eq
          (text_kept parse_duration env k "SPRAWLER_SP_PROCESS_GROUP_MEMBERS" "false" refl bad i)
          "true";
    user_fetch_timeout =
        duration_kept parse_duration env k "SPRAWLER_SP_USER_FETCH_TIMEOUT" "10m" (minutes 10) refl
          reads.ten_minutes bad i;
    group_fetch_timeout =
        duration_kept parse_duration env k "SPRAWLER_SP_GROUP_FETCH_TIMEOUT" "10m" (minutes 10) refl
          reads.ten_minutes bad i;
    member_fetch_timeout =
        duration_kept parse_duration env k "SPRAWLER_SP_MEMBER_FETCH_TIMEOUT" "10m" (minutes 10)
          refl reads.ten_minutes bad i;
    progress_report_interval =
        duration_kept parse_duration env k "SPRAWLER_SP_PROGRESS_INTERVAL" "1m" (minutes 1) refl
          reads.one_minute bad i;
    throttle_recovery_cooldown =
        duration_kept parse_duration env k "SPRAWLER_THROTTLE_RECOVERY_COOLDOWN" "1m" (minutes 1)
          refl reads.one_minute bad i;
    throttle_check_interval =
        duration_kept parse_duration env k "SPRAWLER_THROTTLE_CHECK_INTERVAL" "10s" (seconds 10)
          refl reads.ten_seconds bad i;
  }

  one_drive_config_kept :
      one_drive_config parse_duration (unset k env) ≡ one_drive_config parse_duration env
  unfolding one_drive_config atoi
  one_drive_config_kept = λ i. record {
    csom_buffer_size =
        int_kept parse_duration env k "SPRAWLER_OD_CSOM_BUFFER_SIZE" "500" (pos 500) refl refl bad
          i;
    expected_sites =
        int_kept parse_duration env k "SPRAWLER_OD_EXPECTED_SITES" "0" (pos 0) refl refl bad i;
    user_workers =
        int_kept parse_duration env k "SPRAWLER_OD_USER_WORKERS" "6" (pos 6) refl refl bad i;
    user_fetch_timeout =
        duration_kept parse_duration env k "SPRAWLER_OD_USER_FETCH_TIMEOUT" "10m" (minutes 10) refl
          reads.ten_minutes bad i;
    profile_fetch_timeout =
        duration_kept parse_duration env k "SPRAWLER_OD_PROFILE_FETCH_TIMEOUT" "10m" (minutes 10)
          refl reads.ten_minutes bad i;
    progress_report_interval =
        duration_kept parse_duration env k "SPRAWLER_OD_PROGRESS_INTERVAL" "1m" (minutes 1) refl
          reads.one_minute bad i;
    throttle_recovery_cooldown =
        duration_kept parse_duration env k "SPRAWLER_THROTTLE_RECOVERY_COOLDOWN" "1m" (minutes 1)
          refl reads.one_minute bad i;
    throttle_check_interval =
        duration_kept parse_duration env k "SPRAWLER_THROTTLE_CHECK_INTERVAL" "10s" (seconds 10)
          refl reads.ten_seconds bad i;
  }

  -- If `time.ParseDuration` reads the texts of the defaults as documented, then loading the
  -- configuration with a variable whose text cannot be read, as a number, as a duration or as the
  -- backoffs, comes to the same as with this variable not set, whatever the others are.
  pub load_config_from_env_malformed :
      load_config_from_env parse_duration (unset k env) ≡ load_config_from_env parse_duration env
  unfolding load_config_from_env config_of
  load_config_from_env_malformed = λ i.
      if is_incomplete (auth_config_kept i)
      then api_error (message missing_variables)
      else fetched (record {
        auth = auth_config_kept i;
        admin_user = text_kept parse_duration env k "SPRAWLER_SP_ADMIN_USER" "" refl bad i;
        transport = transport_config_kept i;
        database = database_config_kept i;
        debug = debug_config_kept i;
        share_point = share_point_config_kept i;
        one_drive = one_drive_config_kept i;
      })
