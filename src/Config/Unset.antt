-- ===== src/Config/Unset.antt =====
-- A variable whose text cannot be read is as one that is not set.
use sprawler.Common.{
  ◌≡◌, String, Bool, true, false, ◌||◌, Option, none, some, List, [], ◌∷◌, inl, inr, str_eq, eq_iff,
  if◌then◌else◌, any_of, arith, ap, sym, ◌∙◌, Bool-cases,
}
use sprawler.Common.Int.{ℤ}
use sprawler.Common.Text.{split, atoi}
use sprawler.Config.Defs.{
  Env, seconds, minutes, get_env_or_default, int_at, duration_at, parse_duration_slice,
  parse_durations, or_default, if_empty,
}

abbrev pub unset : String → Env → Env
unset k env j = if str_eq j k then "" else env j

abbrev pub int_names : List String
int_names =
    "SPRAWLER_TRANSPORT_MAX_RETRIES" ∷ "SPRAWLER_TRANSPORT_RETRY_500"
    ∷ "SPRAWLER_TRANSPORT_RETRY_503" ∷ "SPRAWLER_TRANSPORT_RETRY_504"
    ∷ "SPRAWLER_TRANSPORT_RETRY_429" ∷ "SPRAWLER_TRANSPORT_RETRY_401" ∷ "SPRAWLER_DB_BATCH_SIZE"
    ∷ "SPRAWLER_DB_QUEUE_CAPACITY" ∷ "SPRAWLER_DB_BUSY_TIMEOUT" ∷ "SPRAWLER_DB_CACHE_SIZE"
    ∷ "SPRAWLER_DEBUG_MAX_PAGES" ∷ "SPRAWLER_DEBUG_MAX_ONEDRIVE_SITES" ∷ "SPRAWLER_SP_PAGE_SIZE"
    ∷ "SPRAWLER_SP_SITE_ENUM_BUFFER_SIZE" ∷ "SPRAWLER_SP_EXPECTED_SITES"
    ∷ "SPRAWLER_SP_USER_WORKERS" ∷ "SPRAWLER_SP_GROUP_WORKERS" ∷ "SPRAWLER_OD_CSOM_BUFFER_SIZE"
    ∷ "SPRAWLER_OD_EXPECTED_SITES" ∷ "SPRAWLER_OD_USER_WORKERS" ∷ []

abbrev pub duration_names : List String
duration_names =
    "SPRAWLER_TRANSPORT_THROTTLE_PAUSE" ∷ "SPRAWLER_DB_FLUSH_INTERVAL"
    ∷ "SPRAWLER_SP_USER_FETCH_TIMEOUT" ∷ "SPRAWLER_SP_GROUP_FETCH_TIMEOUT"
    ∷ "SPRAWLER_SP_MEMBER_FETCH_TIMEOUT" ∷ "SPRAWLER_SP_PROGRESS_INTERVAL"
    ∷ "SPRAWLER_THROTTLE_RECOVERY_COOLDOWN" ∷ "SPRAWLER_THROTTLE_CHECK_INTERVAL"
    ∷ "SPRAWLER_OD_USER_FETCH_TIMEOUT" ∷ "SPRAWLER_OD_PROFILE_FETCH_TIMEOUT"
    ∷ "SPRAWLER_OD_PROGRESS_INTERVAL" ∷ []

abbrev pub backoff_names : List String
backoff_names = "SPRAWLER_TRANSPORT_RETRY_BACKOFFS" ∷ []

abbrev pub named : String → List String → Bool
named k names = any_of (str_eq k) names

named-eq : (j k : String) (names : List String) → str_eq j k ≡ true → named j names ≡ named k names
named-eq j k names h = ap (λ n. named n names) ((eq_iff j k).0 h)

apart :
    (j k : String) (names : List String)
    → named k names ≡ true
    → named j names ≡ false
    → str_eq j k ≡ false
apart j k names h n = elim (Bool-cases (str_eq j k)) [
  | inl same ↦ cc (named-eq j k names same)
  | inr other ↦ other
]

-- The durations of the defaults, as `time.ParseDuration` documents its texts.
pub record ReadsDefaults (parse_duration : String → Option ℤ) : Type 0 where
  pub five_seconds : parse_duration "5s" ≡ some (seconds 5)
  pub ten_seconds : parse_duration "10s" ≡ some (seconds 10)
  pub thirty_seconds : parse_duration "30s" ≡ some (seconds 30)
  pub one_minute : parse_duration "1m" ≡ some (minutes 1)
  pub ten_minutes : parse_duration "10m" ≡ some (minutes 10)

-- The variable is one of a number, of a duration or of the durations of the backoffs, and its text
-- cannot be read as that.
pub data IsMalformed (parse_duration : String → Option ℤ) (env : Env) (k : String) : Type 0 where
  number : named k int_names ≡ true → atoi (env k) ≡ none → IsMalformed parse_duration env k
  duration :
      named k duration_names ≡ true
      → parse_duration (env k) ≡ none
      → IsMalformed parse_duration env k
  backoffs :
      named k backoff_names ≡ true
      → parse_durations parse_duration (split b',' (env k)) ≡ none
      → IsMalformed parse_duration env k

module _ (env : Env) (k : String) where
  env_kept :
      (j text : String)
      → str_eq j k ≡ false
      → get_env_or_default (unset k env) j text ≡ get_env_or_default env j text
  unfolding get_env_or_default
  env_kept j text h = rw h

  -- A reader that fails at the variable gives the default for every variable that is this one.
  reading_kept :
      {A : Type 0} (read : String → Option A) (j text : String) (d : A)
      → read (env k) ≡ none
      → read text ≡ some d
      → or_default (read (get_env_or_default (unset k env) j text)) d
        ≡ or_default (read (get_env_or_default env j text)) d
  unfolding get_env_or_default
  reading_kept read j text d h e = elim (Bool-cases (str_eq j k)) [
    | inl same ↦ elim (Bool-cases (str_eq (env j) "")) [
      | inl blank ↦ rw (same, blank)
      | inr full ↦ rw (same, full) (rw (e, ap (λ n. read (env n)) ((eq_iff j k).0 same) ∙ h))
    ]
    | inr other ↦ rw other
  ]

pub slice_lem :
    (parse_duration : String → Option ℤ) (text : String) (ds : List ℤ)
    → parse_duration_slice parse_duration text ds
      ≡ if_empty (or_default (parse_durations parse_duration (split b',' text)) ds) ds
unfolding parse_duration_slice
slice_lem parse_duration text [] = ground arith
slice_lem parse_duration text (d ∷ ds) = ground arith

unnamed : (a b : Bool) → (a || b) ≡ false → (a ≡ false) × (b ≡ false)
unnamed a b h = ground arith

module _ (parse_duration : String → Option ℤ) (env : Env) (k : String) where
  pub text_kept :
      (j text : String)
      → (named j int_names || (named j duration_names || named j backoff_names)) ≡ false
      → IsMalformed parse_duration env k
      → get_env_or_default (unset k env) j text ≡ get_env_or_default env j text
  text_kept j text n (number h e) = env_kept env k j text (apart j k int_names h (unnamed _ _ n).0)
  text_kept j text n (duration h e) =
      env_kept env k j text (apart j k duration_names h (unnamed _ _ (unnamed _ _ n).1).0)
  text_kept j text n (backoffs h e) =
      env_kept env k j text (apart j k backoff_names h (unnamed _ _ (unnamed _ _ n).1).1)

  pub int_kept :
      (j text : String) (d : ℤ)
      → (named j duration_names || named j backoff_names) ≡ false
      → atoi text ≡ some d
      → IsMalformed parse_duration env k
      → int_at (unset k env) j text d ≡ int_at env j text d
  unfolding int_at
  int_kept j text d n r (number h e) = reading_kept env k atoi j text d e r
  int_kept j text d n r (duration h e) =
      ap (λ s. or_default (atoi s) d)
        (env_kept env k j text (apart j k duration_names h (unnamed _ _ n).0))
  int_kept j text d n r (backoffs h e) =
      ap (λ s. or_default (atoi s) d)
        (env_kept env k j text (apart j k backoff_names h (unnamed _ _ n).1))

  pub duration_kept :
      (j text : String) (d : ℤ)
      → (named j int_names || named j backoff_names) ≡ false
      → parse_duration text ≡ some d
      → IsMalformed parse_duration env k
      → duration_at parse_duration (unset k env) j text d ≡ duration_at parse_duration env j text d
  unfolding duration_at
  duration_kept j text d n r (number h e) =
      ap (λ s. or_default (parse_duration s) d)
        (env_kept env k j text (apart j k int_names h (unnamed _ _ n).0))
  duration_kept j text d n r (duration h e) = reading_kept env k parse_duration j text d e r
  duration_kept j text d n r (backoffs h e) =
      ap (λ s. or_default (parse_duration s) d)
        (env_kept env k j text (apart j k backoff_names h (unnamed _ _ n).1))

  pub slice_kept :
      (j text : String) (ds : List ℤ)
      → (named j int_names || named j duration_names) ≡ false
      → parse_durations parse_duration (split b',' text) ≡ some ds
      → IsMalformed parse_duration env k
      → parse_duration_slice parse_duration (get_env_or_default (unset k env) j text) ds
        ≡ parse_duration_slice parse_duration (get_env_or_default env j text) ds
  slice_kept j text ds n r (number h e) =
      ap (λ s. parse_duration_slice parse_duration s ds)
        (env_kept env k j text (apart j k int_names h (unnamed _ _ n).0))
  slice_kept j text ds n r (duration h e) =
      ap (λ s. parse_duration_slice parse_duration s ds)
        (env_kept env k j text (apart j k duration_names h (unnamed _ _ n).1))
  slice_kept j text ds n r (backoffs h e) =
      slice_lem parse_duration (get_env_or_default (unset k env) j text) ds
      ∙ ap (λ v. if_empty v ds)
          (reading_kept env k (λ s. parse_durations parse_duration (split b',' s)) j text ds e r)
      ∙ sym (slice_lem parse_duration (get_env_or_default env j text) ds)
