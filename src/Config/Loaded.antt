-- ===== src/Config/Loaded.antt =====
-- What a configuration is that was loaded: complete, with a backoff, and with clean templates.
use sprawler.Common.{
  ◌≡◌, ◌≢◌, refl, String, Bool, true, false, Option, List, [], ◌∷◌, ◌⊎◌, inl, inr, str_eq, eq_iff,
  not, any_of, if◌then◌else◌, All, arith, ap, ◌∙◌, sym, Bool-cases,
}
use Prim.Native.Char.{code}
use mathlib.Core.Bool.{false≢true, ◌&&◌}
use sprawler.Common.Int.{ℤ, pos}
use sprawler.Common.Text.{split, trim_space, trim_left, trim_right, is_space}
use sprawler.Errors.{api_error, fetched, message}
use sprawler.Config.Defs.{
  Env, Config, get_env_or_default, parse_parts, parse_string_slice, parse_durations,
  parse_duration_slice, or_default, if_empty,
}
use sprawler.Config.Unset.{slice_lem}
use sprawler.Config.Load.{
  auth_config, is_incomplete, missing_variables, transport_config, share_point_config, config_of,
  load_config_from_env,
}

trim_right_idem : (s : String) → trim_right (trim_right s) ≡ trim_right s
unfolding trim_right
trim_right_idem String.[] = refl
trim_right_idem (String.◌∷◌ c s) =
    elim (Bool-cases (is_space (code c) && str_eq (trim_right s) "")) [
      | inl blank ↦ rw blank
      | inr letter ↦ rw letter (rw (trim_right_idem s) (rw letter))
    ]

-- A text that does not start with a space.
abbrev starts_clean : String → Bool
starts_clean String.[] = true
starts_clean (String.◌∷◌ c s) = if is_space (code c) then false else true

trim_left-starts_clean : (s : String) → starts_clean (trim_left s) ≡ true
unfolding trim_left
trim_left-starts_clean String.[] = refl
trim_left-starts_clean (String.◌∷◌ c s) = elim (Bool-cases (is_space (code c))) [
  | inl space ↦ rw space (trim_left-starts_clean s)
  | inr letter ↦ rw letter (rw letter)
]

trim_left_clean : (s : String) → starts_clean s ≡ true → trim_left s ≡ s
unfolding trim_left
trim_left_clean String.[] h = refl
trim_left_clean (String.◌∷◌ c s) h = elim (Bool-cases (is_space (code c))) [
  | inl space ↦ absurd (false≢true (rw space at h))
  | inr letter ↦ rw letter
]

trim_right_clean : (s : String) → starts_clean s ≡ true → starts_clean (trim_right s) ≡ true
unfolding trim_right
trim_right_clean String.[] h = refl
trim_right_clean (String.◌∷◌ c s) h =
    elim (Bool-cases (is_space (code c) && str_eq (trim_right s) "")) [
      | inl blank ↦ rw blank
      | inr letter ↦ rw letter h
    ]

trim_space_idem : (s : String) → trim_space (trim_space s) ≡ trim_space s
unfolding trim_space
trim_space_idem s =
    ap trim_right (
      trim_left_clean (trim_right (trim_left s))
        (trim_right_clean (trim_left s) (trim_left-starts_clean s)))
    ∙ trim_right_idem (trim_left s)

-- An entry of a list: not empty, and with no space around it.
abbrev pub IsClean : String → Type 0
IsClean s = (s ≢ "") × (trim_space s ≡ s)

parse_parts-IsClean : (ps : List String) → All IsClean (parse_parts ps)
unfolding parse_parts
parse_parts-IsClean [] = tt
parse_parts-IsClean (p ∷ ps) = elim (Bool-cases (str_eq (trim_space p) "")) [
  | inl blank ↦ rw blank (parse_parts-IsClean ps)
  | inr full ↦ rw full (
    (λ e. absurd (false≢true (sym full ∙ (eq_iff (trim_space p) "").1 e)), trim_space_idem p),
    parse_parts-IsClean ps,
  )
]

parse_string_slice-IsClean : (text : String) → All IsClean (parse_string_slice text)
unfolding parse_string_slice
parse_string_slice-IsClean text = elim (Bool-cases (str_eq text "")) [
  | inl blank ↦ rw blank tt
  | inr full ↦ rw full (parse_parts-IsClean (split b',' text))
]

if_empty-ne-nil : (ds : List ℤ) (d : ℤ) (rest : List ℤ) → if_empty ds (d ∷ rest) ≢ []
if_empty-ne-nil [] d rest h = cc
if_empty-ne-nil (e ∷ es) d rest h = cc

parse_duration_slice-ne-nil :
    (parse_duration : String → Option ℤ) (text : String) (d : ℤ) (rest : List ℤ)
    → parse_duration_slice parse_duration text (d ∷ rest) ≢ []
parse_duration_slice-ne-nil parse_duration text d rest e =
    if_empty-ne-nil (or_default (parse_durations parse_duration (split b',' text)) (d ∷ rest)) d
      rest (sym (slice_lem parse_duration text (d ∷ rest)) ∙ e)

abbrev pub required : List String
required =
    "SPRAWLER_SP_TENANT_ADMIN_SITE" ∷ "SPRAWLER_ENTRA_TENANT_ID" ∷ "SPRAWLER_ENTRA_CLIENT_ID"
    ∷ "SPRAWLER_ENTRA_CERT_PATH" ∷ []

abbrev pub is_set : Env → String → Bool
is_set env k = not (str_eq (env k) "")

-- What the rest of the program can rely on.
pub record IsUsable (env : Env) (c : Config) : Type 0 where
  pub site_url : c.auth.site_url ≡ env "SPRAWLER_SP_TENANT_ADMIN_SITE"
  pub tenant_id : c.auth.tenant_id ≡ env "SPRAWLER_ENTRA_TENANT_ID"
  pub client_id : c.auth.client_id ≡ env "SPRAWLER_ENTRA_CLIENT_ID"
  pub cert_path : c.auth.cert_path ≡ env "SPRAWLER_ENTRA_CERT_PATH"
  pub has_backoff : c.transport.retry_backoffs ≢ []
  pub clean_templates : All IsClean c.share_point.skip_templates
  pub one_connection : c.database.max_conns ≡ pos 1

got : (env : Env) (k : String) → get_env_or_default env k "" ≡ env k
unfolding get_env_or_default
got env k = elim (Bool-cases (str_eq (env k) "")) [
  | inl blank ↦ rw blank (sym ((eq_iff (env k) "").0 blank))
  | inr full ↦ rw full
]

is_incomplete-eq :
    (env : Env) → is_incomplete (auth_config env) ≡ any_of (λ k. not (is_set env k)) required
unfolding is_incomplete auth_config
is_incomplete-eq env = simp got (ground arith)

module _ (parse_duration : String → Option ℤ) (env : Env) where
  config_of-IsUsable : IsUsable env (config_of parse_duration env (auth_config env))
  unfolding config_of auth_config transport_config share_point_config
  config_of-IsUsable = record {
    site_url = got env "SPRAWLER_SP_TENANT_ADMIN_SITE";
    tenant_id = got env "SPRAWLER_ENTRA_TENANT_ID";
    client_id = got env "SPRAWLER_ENTRA_CLIENT_ID";
    cert_path = got env "SPRAWLER_ENTRA_CERT_PATH";
    has_backoff = parse_duration_slice-ne-nil parse_duration _ _ _;
    clean_templates = parse_string_slice-IsClean _;
    one_connection = refl;
  }

  -- Whatever the environment, either one of the four required variables is empty and loading ends
  -- with the error that names them, or none is and the configuration is loaded: it has their values,
  -- at least one backoff, templates that are not empty and have no space around them, and one
  -- database connection.
  pub load_config_from_env-IsUsable :
      ((any_of (λ k. not (is_set env k)) required ≡ true)
        × (load_config_from_env parse_duration env ≡ api_error (message missing_variables)))
      ⊎ ((any_of (λ k. not (is_set env k)) required ≡ false)
          × ((c : Config) × (load_config_from_env parse_duration env ≡ fetched c) × IsUsable env c))
  unfolding load_config_from_env
  load_config_from_env-IsUsable = elim (Bool-cases (is_incomplete (auth_config env))) [
    | inl missing ↦ inl (sym (is_incomplete-eq env) ∙ missing, rw missing)
    | inr complete ↦ inr (
      sym (is_incomplete-eq env) ∙ complete,
      (config_of parse_duration env (auth_config env), rw complete, config_of-IsUsable),
    )
  ]
