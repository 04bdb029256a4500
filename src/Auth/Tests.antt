-- ===== src/Auth/Tests.antt =====
-- A cache of the kind that go-cache is, and the theorems of the tokens at calls over it.
use sprawler.Common.{
  ℕ, zero, suc, ◌+◌, ◌*◌, ◌^◌, ◌<◌, ◌≡◌, refl, String, Option, none, some, List, [], ◌∷◌, str_eq,
  eq_refl, leb, if◌then◌else◌, arith,
}
use sprawler.Common.Dict.{Dict, lookup, insert, lookup-insert}
use sprawler.Common.Int.{ℤ, pos, negsuc}
use sprawler.Errors.{Reply, api_error, fetched, eof}
use sprawler.Auth.Defs.{
  key_text, Cached, TokenCache, AccessToken, get_token, azure_government, cloud_from_site_url,
}
use sprawler.Auth.Served.{get_token-Served}
use sprawler.Auth.File.{
  AuthFile, AuthCnfg, FileCalls, FileLaws, read_config, write_config, parse_config, IsReadBack,
  read_config-write_config,
}
use sprawler.Common.Text.{strip}
use Prim.Native.String.{◌++◌}
use sprawler.Common.{false, sym}
use sprawler.Auth.Tokens.{Keeps, Call, Served, key_for, after}

abbrev Entries : Type 0
Entries = Dict (Cached × Option ℕ)

abbrev live : ℕ → Option (Cached × Option ℕ) → Option (Cached × Option ℕ)
live t none = none
live t (some (v, none)) = some (v, none)
live t (some (v, some e)) = if leb t e then some (v, some e) else none

-- A time to live of zero is five minutes, and a negative one is for ever.
abbrev expiration : ℕ → ℤ → Option ℕ
expiration now (pos zero) = some (now + 300 * 10 ^ 9)
expiration now (pos (suc n)) = some (now + suc n)
expiration now (negsuc n) = none

abbrev memory : TokenCache Entries
memory = record {
  get_with_expiration = λ t k c. live t (lookup k c);
  set = λ now k v ttl c. insert k (v, expiration now ttl) c;
}

memory-Keeps : Keeps memory []
unfolding lookup
memory-Keeps = record {
  get_empty = λ t k. refl;
  get_set_same = λ t now ttl k v c. simp (lookup-insert, eq_refl);
  get_set_other = λ t now k j v ttl c other. rw (lookup-insert, other);
}

abbrev hour_token : ℕ → String → Reply AccessToken
hour_token t scope = fetched (record { token = scope; expires_on = t + 3600 * 10 ^ 9 })

abbrev hosts : String → Reply String
hosts url =
    if str_eq url "https://a.sharepoint.com/" then fetched "a.sharepoint.com" else api_error eof

abbrev call_at : ℕ → Call
call_at t = record {
  moments = record { looks = t; writes = t + 1 };
  base = record { site_url = "https://a.sharepoint.com/"; tenant_id = "t"; client_id = "c" };
  strategy = "clientcredential";
}

abbrev reply_at : (ℕ → String → Reply AccessToken) → List Call → ℕ → Reply (String × ℤ)
reply_at provider xs t =
    (get_token memory hosts provider (call_at t).moments (call_at t).base (call_at t).strategy
      (after memory hosts provider xs [])).0

-- The second call finds the token of the first: its expiry is reported.
cached_test :
    reply_at hour_token (call_at 0 ∷ []) (600 * 10 ^ 9)
    ≡ fetched ("https://a.sharepoint.com/.default", pos 3540)
unfolding get_token after lookup insert key_text
cached_test = refl

renewed_test :
    reply_at hour_token (call_at 0 ∷ []) (3541 * 10 ^ 9)
    ≡ fetched ("https://a.sharepoint.com/.default", pos 7081)
unfolding get_token after lookup insert key_text
renewed_test = refl

-- A token with half a minute left has a negative time to live, which this cache takes for ever.
abbrev short_token : ℕ → String → Reply AccessToken
short_token t scope = fetched (record { token = "short"; expires_on = t + 30 * 10 ^ 9 })

stale_test :
    reply_at short_token (call_at (100 * 10 ^ 9) ∷ []) (9000 * 10 ^ 9)
    ≡ fetched ("short", negsuc 62135596799)
unfolding get_token after lookup insert key_text
stale_test = refl

government_test : cloud_from_site_url fetched "tenant.sharepoint.us" ≡ azure_government
unfolding cloud_from_site_url
government_test = refl

long_enough :
    (t : ℕ) (scope : String) (a : AccessToken)
    → hour_token t scope ≡ fetched a
    → t + 5 + 60 * 10 ^ 9 < a.expires_on
long_enough t scope a h = ground arith

get_token-Served_example :
    Served hour_token
      (600 * 10 ^ 9)
      (key_text (key_for (call_at (600 * 10 ^ 9)) "a.sharepoint.com"))
      (reply_at hour_token (call_at 0 ∷ []) (600 * 10 ^ 9))
get_token-Served_example =
    get_token-Served memory [] memory-Keeps hosts hour_token 5 long_enough (call_at 0 ∷ [])
      (call_at (600 * 10 ^ 9)) "a.sharepoint.com" (omega arith) (omega arith) refl

-- A machine with one file, whose bytes are the fields, and a password encoded by its key before it.
abbrev one_file : FileCalls AuthFile AuthFile
one_file = record {
  read_file = λ file s. fetched s;
  write_file = λ file text s. (text, none);
  unmarshal = λ text f. fetched text;
  marshal = λ f. fetched f;
  is_abs = λ path. false;
  dir = λ path. "/etc/";
  join = λ path name. path ++ name;
  encode = λ key pass. fetched (key ++ (":" ++ pass));
  decode = λ key pass. elim (strip (key ++ ":") pass) [ none ↦ api_error eof | some p ↦ fetched p ];
}

one_file-FileLaws : FileLaws one_file
one_file-FileLaws = record {
  read_written = λ file text s h. refl;
  reads_back = λ f g text h. sym h;
}

abbrev credentials : String → AuthCnfg
credentials key = record {
  file = record {
    base = record { site_url = "https://a"; tenant_id = "t"; client_id = "c" };
    master_key = key;
    cert_path = "cert.pfx";
    cert_pass = "secret";
  };
  private_file = "";
}

-- What a reader with the same master key gets of a password.
abbrev pass_read : String → String
pass_read key =
    let (s, e) = write_config one_file (credentials key) "/etc/a.json" (credentials "").file in
    elim (read_config one_file (credentials key) "/etc/a.json" s) [
      | api_error err ↦ ""
      | fetched c ↦ c.file.cert_pass
    ]

pass_test : (pass_read "" ≡ "secret") × (pass_read "key" ≡ "key:secret")
unfolding read_config write_config parse_config strip
pass_test = (refl, refl)

written_ok :
    (write_config one_file (credentials "key") "/etc/a.json" (credentials "").file).1 ≡ none
unfolding write_config
written_ok = refl

read_config-write_config_example :
    (secret : String) × (one_file.encode "key" "secret" ≡ fetched secret)
    × ((got : AuthCnfg) × (read_config one_file
            (credentials "key")
            "/etc/a.json"
            (write_config one_file (credentials "key") "/etc/a.json" (credentials "").file).0
          ≡ fetched got)
        × IsReadBack one_file (credentials "key") secret "/etc/a.json" got)
read_config-write_config_example =
    read_config-write_config one_file one_file-FileLaws (credentials "key") (credentials "key")
      "/etc/a.json" (credentials "").file written_ok
