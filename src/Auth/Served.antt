-- ===== src/Auth/Served.antt =====
-- What the token cache serves: a token that the provider has issued for the same key, and that has
-- more than a minute left.
use sprawler.Common.{
  ℕ, suc, ◌+◌, ◌-◌, ◌≤◌, ◌<◌, ◌≡◌, refl, sym, subst, String, false, Option, none, some, List, [],
  ◌∷◌, str_eq, eq_iff, leb, leb→le, if◌then◌else◌, arith, All, Bool-cases, Option-cases, inl, inr,
}
use sprawler.Common.Int.{ℤ, pos, sub_ℕ}
use sprawler.Errors.{Reply-cases, GoError, Reply, api_error, fetched}
use sprawler.Auth.Defs.{
  CacheKey, key_text, Cached, token_text, other_value, TokenCache, AccessToken, unix, expiry_buffer,
  Moments, token_of, get_cached_token, set_cached_token, fetch_token, get_token,
}
use sprawler.Auth.Tokens.{Keeps, scope_of, Call, key_for, Issued, issued, Served, call, after}

module _ {C : Type 0} (cache : TokenCache C) (empty : C) (keeps : Keeps cache empty)
    (url_host : String → Reply String) (provider : ℕ → String → Reply AccessToken) (delay : ℕ)
    (lasting : (t : ℕ) (scope : String) (a : AccessToken)
      → provider t scope ≡ fetched a
      → t + delay + expiry_buffer < a.expires_on) where
  -- An entry of the cache that is had at instant t.
  abbrev Backed : ℕ → String → Option (Cached × Option ℕ) → Type 0
  Backed t k none = Unit {0}
  Backed t k (some (v, e)) =
      (a : AccessToken) × Issued provider k a
      × (v ≡ token_text a.token)
      × (e ≡ some (a.expires_on - expiry_buffer))
      × (t + expiry_buffer ≤ a.expires_on)

  abbrev Sound : C → Type 0
  Sound c = (t : ℕ) (k : String) → Backed t k (cache.get_with_expiration t k c)

  empty-Sound : Sound empty
  empty-Sound t k = rw (keeps.get_empty t k) tt

  -- The time to live of a token that lasts.
  ttl_of :
      (now e : ℕ)
      → now + expiry_buffer < e
      → (n : ℕ) × (sub_ℕ (e - expiry_buffer) now ≡ pos (suc n)) × (now + suc n ≡ e - expiry_buffer)
  ttl_of now e h = (e - expiry_buffer - now - 1, ground arith, omega arith)

  stored :
      (t now : ℕ) (k : String) (a : AccessToken) (c : C)
      → now + expiry_buffer < a.expires_on
      → cache.get_with_expiration t k (set_cached_token cache now k a c).0 ≡ (
          if leb t (a.expires_on - expiry_buffer)
          then some (token_text a.token, some (a.expires_on - expiry_buffer))
          else none)
  unfolding set_cached_token
  stored t now k a c h =
      let (n, ttl, over) = ttl_of now a.expires_on h in
      rw ttl (rw (← over) (keeps.get_set_same t now n k (token_text a.token) c))

  new-Backed :
      (t : ℕ) (k : String) (a : AccessToken)
      → Issued provider k a
      → expiry_buffer < a.expires_on
      → Backed t k (
          if leb t (a.expires_on - expiry_buffer)
          then some (token_text a.token, some (a.expires_on - expiry_buffer))
          else none)
  new-Backed t k a i h = elim (Bool-cases (leb t (a.expires_on - expiry_buffer))) [
    | inl live ↦ rw live (a, i, refl, refl, omega (arith, leb→le _ _ live))
    | inr over ↦ rw over tt
  ]

  stored_elsewhere :
      (t now : ℕ) (k j : String) (a : AccessToken) (c : C)
      → str_eq k j ≡ false
      → cache.get_with_expiration t j (set_cached_token cache now k a c).0
        ≡ cache.get_with_expiration t j c
  unfolding set_cached_token
  stored_elsewhere t now k j a c other =
      keeps.get_set_other t now k j (token_text a.token) (sub_ℕ (a.expires_on - expiry_buffer) now)
        c other

  set_cached_token-Sound :
      (now : ℕ) (k : String) (a : AccessToken) (c : C)
      → Issued provider k a
      → now + expiry_buffer < a.expires_on
      → Sound c
      → Sound (set_cached_token cache now k a c).0
  set_cached_token-Sound now k a c i h s t j =
      let c' = (set_cached_token cache now k a c).0 in
      elim (Bool-cases (str_eq k j)) [
        | inl same ↦
            subst (λ n. Backed t n (cache.get_with_expiration t n c')) ((eq_iff k j).0 same)
              (subst (λ o. Backed t k o) (sym (stored t now k a c h))
                (new-Backed t k a i (omega arith)))
        | inr other ↦ subst (λ o. Backed t j o) (sym (stored_elsewhere t now k j a c other)) (s t j)
      ]

  cached-Served :
      (t : ℕ) (k : String) (o : Option (Cached × Option ℕ)) {found : String × ℤ}
      → Backed t k o
      → token_of o ≡ some found
      → Served provider t k (fetched found)
  cached-Served t k none b e = cc
  cached-Served t k (some (other_value, x)) b e = cc
  cached-Served t k (some (token_text s, x)) {found = (token, exp)} (a, i, v, x', h) e =
      (a, i, ground arith, ground arith, h)

  -- What a call is to give back, and to leave.
  abbrev Good : ℕ → String → Reply (String × ℤ) × C → Type 0
  Good t k r = Served provider t k r.0 × Sound r.1

  fetch_failed :
      (m : Moments) (k host : String) (c : C) (e : GoError)
      → provider m.looks (scope_of host) ≡ api_error e
      → fetch_token cache url_host provider m k host c ≡ (api_error e, c)
  unfolding fetch_token
  fetch_failed m k host c e h = ground (arith, h)

  fetch_got :
      (m : Moments) (k host : String) (c : C) (a : AccessToken)
      → provider m.looks (scope_of host) ≡ fetched a
      → fetch_token cache url_host provider m k host c ≡ (
        fetched (a.token, unix (some (a.expires_on - expiry_buffer))),
        (set_cached_token cache m.writes k a c).0,
      )
  unfolding fetch_token set_cached_token
  fetch_got m k host c a h = ground (arith, h)

  fetch_token-Good :
      (m : Moments) (h : CacheKey) (c : C)
      → m.writes ≤ m.looks + delay
      → Sound c
      → Good m.looks (key_text h) (fetch_token cache url_host provider m (key_text h) h.host c)
  fetch_token-Good m h c w s =
      let t = m.looks in
      let k = key_text h in
      elim (Reply-cases (provider t (scope_of h.host))) [
        | inl (e, failed) ↦
            subst (λ r. Good t k r) (sym (fetch_failed m k h.host c e failed)) (tt, s)
        | inr (a, got) ↦
            let i : Issued provider k a = issued h t a refl got in
            let long = lasting t (scope_of h.host) a got in
            subst (λ r. Good t k r) (sym (fetch_got m k h.host c a got))
              (
                (a, i, refl, refl, omega arith),
                set_cached_token-Sound m.writes k a c i (omega arith) s,
              )
      ]

  call_fetches :
      (x : Call) (host : String) (c : C)
      → url_host x.base.site_url ≡ fetched host
      → token_of (cache.get_with_expiration x.moments.looks (key_text (key_for x host)) c) ≡ none
      → call cache url_host provider x c
        ≡ fetch_token cache url_host provider x.moments (key_text (key_for x host)) host c
  unfolding get_token get_cached_token key_text
  call_fetches x host c h none_there = ground (arith, h, none_there)

  call_finds :
      (x : Call) (host : String) (c : C) (found : String × ℤ)
      → url_host x.base.site_url ≡ fetched host
      → token_of (cache.get_with_expiration x.moments.looks (key_text (key_for x host)) c)
        ≡ some found
      → call cache url_host provider x c ≡ (fetched found, c)
  unfolding get_token get_cached_token key_text
  call_finds x host c found h there = ground (arith, h, there)

  call-Good :
      (x : Call) (host : String) (c : C)
      → url_host x.base.site_url ≡ fetched host
      → x.moments.writes ≤ x.moments.looks + delay
      → Sound c
      → Good x.moments.looks (key_text (key_for x host)) (call cache url_host provider x c)
  call-Good x host c h w s =
      let t = x.moments.looks in
      let k = key_text (key_for x host) in
      elim (Option-cases (token_of (cache.get_with_expiration t k c))) [
        | inl none_there ↦
            subst (λ r. Good t k r) (sym (call_fetches x host c h none_there))
              (fetch_token-Good x.moments (key_for x host) c w s)
        | inr (found, there) ↦
            subst (λ r. Good t k r) (sym (call_finds x host c found h there))
              (cached-Served t k (cache.get_with_expiration t k c) (s t k) there, s)
      ]

  call_lost :
      (x : Call) (c : C) (e : GoError)
      → url_host x.base.site_url ≡ api_error e
      → call cache url_host provider x c ≡ (api_error e, c)
  unfolding get_token
  call_lost x c e h = ground (arith, h)

  call-Sound :
      (x : Call) (c : C)
      → x.moments.writes ≤ x.moments.looks + delay
      → Sound c
      → Sound (call cache url_host provider x c).1
  call-Sound x c w s = elim (Reply-cases (url_host x.base.site_url)) [
    | inl (e, lost) ↦ subst (λ r. Sound r.1) (sym (call_lost x c e lost)) s
    | inr (host, h) ↦ (call-Good x host c h w s).1
  ]

  after-Sound :
      (xs : List Call) (c : C)
      → All (λ x. x.moments.writes ≤ x.moments.looks + delay) xs
      → Sound c
      → Sound (after cache url_host provider xs c)
  unfolding after
  after-Sound [] c w s = s
  after-Sound (x ∷ xs) c w s =
      after-Sound xs (call cache url_host provider x c).1 w.1 (call-Sound x c w.0 s)

  -- If the cache keeps what go-cache documents, each token that the provider issues lasts more
  -- than a minute beyond the longest time from the look into the cache to the write, and no call
  -- takes longer than that, then after any calls for any credentials, `GetToken` for a site whose
  -- host can be read fails, or it gives a token that the provider has issued for a host with the
  -- same key, now or in an earlier call, which has at least a minute left, and the expiry that is
  -- reported is a minute before its own.
  pub get_token-Served :
      (xs : List Call) (x : Call) (host : String)
      → All (λ y. y.moments.writes ≤ y.moments.looks + delay) xs
      → x.moments.writes ≤ x.moments.looks + delay
      → url_host x.base.site_url ≡ fetched host
      → Served provider x.moments.looks
          (key_text (key_for x host))
          (get_token cache url_host provider x.moments x.base x.strategy
            (after cache url_host provider xs empty)).0
  get_token-Served xs x host ws w h =
      (call-Good x host (after cache url_host provider xs empty) h w
        (after-Sound xs empty ws empty-Sound)).0
