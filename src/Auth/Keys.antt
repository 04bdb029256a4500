-- ===== src/Auth/Keys.antt =====
-- The keys of the token cache tell their parts apart.
use Prim.Native.String.{◌++◌}
use text.Mathlib.TextLemmas.{append_cancel_left, cons-append, append-nil}
use sprawler.Common.{◌≡◌, sym, ap, ◌∙◌, String, true}
use sprawler.Common.Text.{before}
use sprawler.Common.TextLaws.{lacks, before-append}
use sprawler.Auth.Defs.{CacheKey, key_text}

before_at : (t : String) → before b'@' ("@" ++ t) ≡ ""
unfolding before
before_at t = rw (cons-append _ _ t)

head_part : (s t : String) → lacks b'@' s ≡ true → before b'@' (s ++ ("@" ++ t)) ≡ s
head_part s t h = before-append b'@' s ("@" ++ t) h ∙ ap (λ r. s ++ r) (before_at t) ∙ append-nil s

-- Two texts with a separator are equal only with equal parts round it.
cut_eq :
    (s s' t t' : String)
    → lacks b'@' s ≡ true
    → lacks b'@' s' ≡ true
    → s ++ ("@" ++ t) ≡ s' ++ ("@" ++ t')
    → (s ≡ s') × (t ≡ t')
cut_eq s s' t t' h h' e =
    let heads : s ≡ s' = sym (head_part s t h) ∙ ap (λ r. before b'@' r) e ∙ head_part s' t' h' in
    (
      heads,
      append_cancel_left "@" t t'
          (append_cancel_left s' _ _ (ap (λ r. r ++ ("@" ++ t)) (sym heads) ∙ e)),
    )

-- The separator stands in none of the parts but the last.
abbrev pub IsPlain : CacheKey → Type 0
IsPlain k =
    (lacks b'@' k.host ≡ true) × (lacks b'@' k.strategy ≡ true) × (lacks b'@' k.tenant_id ≡ true)

pub key_text-injective : (k j : CacheKey) → IsPlain k → IsPlain j → key_text k ≡ key_text j → k ≡ j
unfolding key_text
key_text-injective k j p q e =
    let hosts = cut_eq k.host j.host _ _ p.0 q.0 e in
    let strategies = cut_eq k.strategy j.strategy _ _ p.1 q.1 hosts.1 in
    let tenants = cut_eq k.tenant_id j.tenant_id _ _ p.2 q.2 strategies.1 in
    λ i. record {
      host = hosts.0 i;
      strategy = strategies.0 i;
      tenant_id = tenants.0 i;
      client_id = tenants.1 i;
    }
