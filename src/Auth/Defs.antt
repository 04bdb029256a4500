-- ===== src/Auth/Defs.antt =====
-- internal/auth/entraid: the token cache (cache.go), the fetch of a token (base.go), the cloud of a site
-- (cloud.go), and the client credential strategy (clientcredential.go). The packages go-cache,
-- azidentity and net/url are parameters. Instants are nanoseconds since 1970.
use Prim.Native.String.{◌++◌}
use sprawler.Common.{
  ℕ, ◌-◌, ◌*◌, ◌/◌, ◌^◌, String, Bool, true, false, Option, none, some, if◌then◌else◌,
}
use sprawler.Common.Int.{ℤ, pos, negsuc, sub_ℕ}
use sprawler.Common.Text.{strip_end}
use sprawler.Errors.{Reply, api_error, fetched, wrapped}

pub record CacheKey : Type 0 where
  pub host : String
  pub strategy : String
  pub tenant_id : String
  pub client_id : String

unfoldable pub key_text : CacheKey → String
key_text k = k.host ++ ("@" ++ (k.strategy ++ ("@" ++ (k.tenant_id ++ ("@" ++ k.client_id)))))

-- A value of the cache: a token, or a value of another type.
pub data Cached : Type 0 where
  token_text : String → Cached
  other_value : Cached

-- What the code uses of go-cache: the value of a key with its expiration (none for a value that does
-- not expire), and a write with a time to live; both at an instant.
pub record TokenCache (C : Type 0) : Type 0 where
  pub get_with_expiration : ℕ → String → C → Option (Cached × Option ℕ)
  pub set : ℕ → String → Cached → ℤ → C → C

pub record AccessToken : Type 0 where
  pub token : String
  pub expires_on : ℕ

pub record Base : Type 0 where
  pub site_url : String
  pub tenant_id : String
  pub client_id : String

-- `t.Unix()`; the zero time lies in the year 1.
abbrev pub unix : Option ℕ → ℤ
unix none = negsuc 62135596799
unix (some t) = pos (t / 10 ^ 9)

abbrev pub expiry_buffer : ℕ
expiry_buffer = 60 * 10 ^ 9

unfoldable pub has_suffix : String → String → Bool
unfolding strip_end
has_suffix suffix host = elim (strip_end suffix host) [ none ↦ false | some _ ↦ true ]

pub data Cloud : Type 0 where
  azure_public azure_government azure_china : Cloud

unfoldable pub cloud_from_site_url : (String → Reply String) → String → Cloud
unfolding has_suffix
cloud_from_site_url url_host site_url = elim (url_host site_url) [
  | api_error e ↦ azure_public
  | fetched host ↦
      if has_suffix ".sharepoint.us" host
      then azure_government
      else if has_suffix ".sharepoint.cn" host
      then azure_china
      else azure_public
]

abbrev pub token_of : Option (Cached × Option ℕ) → Option (String × ℤ)
token_of none = none
token_of (some (token_text s, e)) = some (s, unix e)
token_of (some (other_value, e)) = none

-- The instants at which a call looks into the cache and writes to it.
pub record Moments : Type 0 where
  pub looks : ℕ
  pub writes : ℕ

module _ {C : Type 0} (cache : TokenCache C) where
  unfoldable pub get_cached_token : ℕ → String → C → Option (String × ℤ)
  get_cached_token now key c = token_of (cache.get_with_expiration now key c)

  -- The token is kept until a minute before it expires.
  unfoldable pub set_cached_token : ℕ → String → AccessToken → C → C × ℤ
  set_cached_token now key t c =
      let exp : ℕ = t.expires_on - expiry_buffer in
      (cache.set now key (token_text t.token) (sub_ℕ exp now) c, unix (some exp))

  module _ (url_host : String → Reply String) (provider : ℕ → String → Reply AccessToken) where
    abbrev pub key_of : Base → String → String → String
    key_of b strategy host = key_text (record {
      host = host;
      strategy = strategy;
      tenant_id = b.tenant_id;
      client_id = b.client_id;
    })

    -- The provider is asked for the default scope of the host.
    unfoldable pub fetch_token : Moments → String → String → C → Reply (String × ℤ) × C
    unfolding set_cached_token
    fetch_token m key host c = elim (provider m.looks ("https://" ++ (host ++ "/.default"))) [
      | api_error e ↦ (api_error e, c)
      | fetched t ↦
          let (c', exp) = set_cached_token m.writes key t c in (fetched (t.token, exp), c')
    ]

    unfoldable pub get_token : Moments → Base → String → C → Reply (String × ℤ) × C
    unfolding key_text get_cached_token fetch_token
    get_token m b strategy c = elim (url_host b.site_url) [
      | api_error e ↦ (api_error e, c)
      | fetched host ↦ elim (get_cached_token m.looks (key_of b strategy host) c) [
        | some found ↦ (fetched found, c)
        | none ↦ fetch_token m (key_of b strategy host) host c
      ]
    ]

-- `GetAuth`: the provider is made by the first call that succeeds in it, and kept.
module _ {P : Type 0} (read_file : String → Reply String) where
  module _ (parse_certificates : String → String → Reply String)
      (new_credential : String → String → String → Cloud → Reply P)
      (url_host : String → Reply String) where
    unfoldable pub init_auth_provider : Base → String → String → Reply P
    unfolding cloud_from_site_url
    init_auth_provider b cert_path cert_pass = elim (read_file cert_path) [
      | api_error e ↦ api_error (wrapped "failed to read certificate" e)
      | fetched file ↦ elim (parse_certificates file cert_pass) [
        | api_error e ↦ api_error (wrapped "failed to parse certificate" e)
        | fetched certs ↦
            elim (new_credential b.tenant_id b.client_id certs
              (cloud_from_site_url url_host b.site_url)) [
                | api_error e ↦ api_error (wrapped "failed to create authProvider" e)
                | fetched p ↦ fetched p
              ]
      ]
    ]

    -- The provider field, and what the call goes on with.
    unfoldable pub ensure_provider : Base → String → String → Option P → Reply P × Option P
    unfolding init_auth_provider
    ensure_provider b cert_path cert_pass (some p) = (fetched p, some p)
    ensure_provider b cert_path cert_pass none = elim (init_auth_provider b cert_path cert_pass) [
      | api_error e ↦ (api_error e, none)
      | fetched p ↦ (fetched p, some p)
    ]

-- The identifier of the strategy.
abbrev pub strategy_name : String
strategy_name = "clientcredential"

module _ {C P : Type 0} (cache : TokenCache C) (read_file : String → Reply String)
    (parse_certificates : String → String → Reply String)
    (new_credential : String → String → String → Cloud → Reply P) (url_host : String → Reply String)
    (ask : P → ℕ → String → Reply AccessToken) where
  unfoldable pub get_auth :
      Moments → Base → String → String → Option P → C → Reply (String × ℤ) × (Option P × C)
  unfolding ensure_provider get_token
  get_auth m b cert_path cert_pass provider c =
      let (got, provider') =
        ensure_provider read_file parse_certificates new_credential url_host b cert_path cert_pass
          provider in
      elim got [
        | api_error e ↦ (api_error e, (provider', c))
        | fetched p ↦
            let (token, c') = get_token cache url_host (ask p) m b strategy_name c in
            (token, (provider', c'))
      ]

-- `SetAuth`: the value of the request's Authorization header.
unfoldable pub authorization : Reply (String × ℤ) → Reply String
authorization (api_error e) = api_error e
authorization (fetched found) = fetched ("Bearer " ++ found.0)
