-- ===== src/Auth/Tokens.antt =====
-- Calls of `GetToken`, one after the other, and what their tokens are to be.
use Prim.Native.String.{◌++◌}
use sprawler.Common.{
  ℕ, suc, ◌+◌, ◌-◌, ◌≤◌, ◌≡◌, String, false, none, some, List, [], ◌∷◌, str_eq, leb, if◌then◌else◌,
}
use sprawler.Common.Int.{ℤ, pos}
use sprawler.Errors.{Reply, api_error, fetched}
use sprawler.Auth.Defs.{
  CacheKey, key_text, Cached, TokenCache, AccessToken, Base, unix, expiry_buffer, Moments,
  get_token,
}

-- What go-cache documents of a value that is kept for some time: it is had until that time is over,
-- and other keys are not affected.
pub record Keeps {C : Type 0} (cache : TokenCache C) (empty : C) : Type 0 where
  pub get_empty : (t : ℕ) (k : String) → cache.get_with_expiration t k empty ≡ none
  pub get_set_same :
      (t now ttl : ℕ) (k : String) (v : Cached) (c : C)
      → cache.get_with_expiration t k (cache.set now k v (pos (suc ttl)) c)
        ≡ (if leb t (now + suc ttl) then some (v, some (now + suc ttl)) else none)
  pub get_set_other :
      (t now : ℕ) (k j : String) (v : Cached) (ttl : ℤ) (c : C)
      → str_eq k j ≡ false
      → cache.get_with_expiration t j (cache.set now k v ttl c) ≡ cache.get_with_expiration t j c

abbrev pub scope_of : String → String
scope_of host = "https://" ++ (host ++ "/.default")

-- A call of `GetToken`: when, and for which credentials.
pub record Call : Type 0 where
  pub moments : Moments
  pub base : Base
  pub strategy : String

abbrev pub key_for : Call → String → CacheKey
key_for x host = record {
  host = host;
  strategy = x.strategy;
  tenant_id = x.base.tenant_id;
  client_id = x.base.client_id;
}

module _ (provider : ℕ → String → Reply AccessToken) where
  -- The provider has issued this token for a host whose key is this one.
  pub data Issued (k : String) : AccessToken → Type 0 where
    issued :
        (h : CacheKey) (t : ℕ) (a : AccessToken)
        → key_text h ≡ k
        → provider t (scope_of h.host) ≡ fetched a
        → Issued k a

  -- A token that a call at instant t gives, for a key.
  abbrev pub Served : ℕ → String → Reply (String × ℤ) → Type 0
  Served t k (api_error e) = Unit {0}
  Served t k (fetched (token, exp)) =
      (a : AccessToken) × Issued k a
      × (token ≡ a.token)
      × (exp ≡ unix (some (a.expires_on - expiry_buffer)))
      × (t + expiry_buffer ≤ a.expires_on)

module _ {C : Type 0} (cache : TokenCache C) (url_host : String → Reply String)
    (provider : ℕ → String → Reply AccessToken) where
  abbrev pub call : Call → C → Reply (String × ℤ) × C
  call x c = get_token cache url_host provider x.moments x.base x.strategy c

  -- The cache after calls, one after the other.
  unfoldable pub after : List Call → C → C
  unfolding get_token
  after [] c = c
  after (x ∷ xs) c = after xs (call x c).1
