-- ===== src/Auth/File.antt =====
-- `ReadConfig`, `ParseConfig` and `WriteConfig` of clientcredential.go: the credentials in a JSON file.
-- Files, JSON, paths and gosip's cpass are parameters. `Base` is embedded, so that JSON has its fields
-- too, the master key among them. What an error leaves in the receiver is not read.
use sprawler.Common.{
  true, false, ◌≢◌, ◌⊎◌, Bool-cases, eq_iff, arith, ◌≡◌, refl, sym, ap, ◌∙◌, String, Bool, not,
  ◌&&◌, Option, none, some, str_eq, if◌then◌else◌, inl, inr,
}
use sprawler.Errors.{GoError, Reply, api_error, fetched, Reply-cases}
use sprawler.Auth.Defs.{Base}

-- The fields that JSON has.
pub record AuthFile : Type 0 where
  pub base : Base
  pub master_key : String
  pub cert_path : String
  pub cert_pass : String

pub record AuthCnfg : Type 0 where
  pub file : AuthFile
  pub private_file : String

-- `B` is the type of a file's bytes.
pub record FileCalls (S B : Type 0) : Type 0 where
  pub read_file : String → S → Reply B
  pub write_file : String → B → S → S × Option GoError
  -- `unmarshal` reads a text over the fields that are there.
  pub unmarshal : B → AuthFile → Reply AuthFile
  pub marshal : AuthFile → Reply B
  pub is_abs : String → Bool
  pub dir : String → String
  pub join : String → String → String
  -- cpass, by the master key.
  pub encode : String → String → Reply String
  pub decode : String → String → Reply String

module _ {S B : Type 0} (calls : FileCalls S B) where
  open calls use {read_file, write_file, unmarshal, marshal, is_abs, dir, join, encode, decode}

  -- A relative path is one from the directory of the file.
  unfoldable pub located : String → String → String
  located private_file path =
      if not (str_eq private_file "") && not (is_abs path)
      then join (dir private_file) path
      else path

  -- A password that cannot be decoded stays as it is.
  unfoldable pub decoded : String → String → String
  decoded key pass = elim (decode key pass) [ api_error e ↦ pass | fetched secret ↦ secret ]

  unfoldable pub parse_config : AuthCnfg → B → Reply AuthCnfg
  unfolding located decoded
  parse_config c text = elim (unmarshal text c.file) [
    | api_error e ↦ api_error e
    | fetched f ↦ fetched (record {
      file = record f {
        cert_path = located c.private_file f.cert_path;
        cert_pass = decoded f.master_key f.cert_pass;
      };
      private_file = c.private_file;
    })
  ]

  unfoldable pub read_config : AuthCnfg → String → S → Reply AuthCnfg
  unfolding parse_config
  read_config c private_file s = elim (read_file private_file s) [
    | api_error e ↦ api_error e
    | fetched text ↦ parse_config (record c { private_file = private_file }) text
  ]

  -- The master key of the configuration that is written is the zero value.
  abbrev pub written : AuthCnfg → String → AuthFile
  written c secret = record {
    base = c.file.base;
    master_key = "";
    cert_path = c.file.cert_path;
    cert_pass = secret;
  }

  abbrev pub write_text : String → Reply B → S → S × Option GoError
  write_text private_file (api_error e) s = (s, some e)
  write_text private_file (fetched text) s = write_file private_file text s

  unfoldable pub write_config : AuthCnfg → String → S → S × Option GoError
  write_config c private_file s = elim (encode c.file.master_key c.file.cert_pass) [
    | api_error e ↦ (s, some e)
    | fetched secret ↦ write_text private_file (marshal (written c secret)) s
  ]

  -- As documented: a file that is written is read as it was, and JSON reads back every field that it
  -- wrote, over whatever was there.
  pub record FileLaws : Type 0 where
    pub read_written :
        (file : String) (text : B) (s : S)
        → (write_file file text s).1 ≡ none
        → read_file file (write_file file text s).0 ≡ fetched text
    pub reads_back :
        (f g : AuthFile) (text : B) → marshal f ≡ fetched text → unmarshal text g ≡ fetched f

  -- The path of the certificate after a reading: an absolute one stays, and so does each where the
  -- file has no name; any other one starts in the file's directory.
  abbrev pub PathRead : String → String → String → Type 0
  PathRead file path got =
      (((file ≡ "") ⊎ (is_abs path ≡ true)) × (got ≡ path))
      ⊎ ((file ≢ "") × (is_abs path ≡ false) × (got ≡ join (dir file) path))

  -- The password after a reading: decoded with no master key where that is possible, or encoded still.
  abbrev pub PassRead : String → String → Type 0
  PassRead secret got =
      ((pass : String) × (decode "" secret ≡ fetched pass) × (got ≡ pass))
      ⊎ ((e : GoError) × (decode "" secret ≡ api_error e) × (got ≡ secret))

  abbrev pub IsReadBack : AuthCnfg → String → String → AuthCnfg → Type 0
  IsReadBack c secret file got =
      (got.file.base ≡ c.file.base)
      × (got.file.master_key ≡ "")
      × PathRead file c.file.cert_path got.file.cert_path
      × PassRead secret got.file.cert_pass
      × (got.private_file ≡ file)

  located-PathRead : (file path : String) → PathRead file path (located file path)
  unfolding located
  located-PathRead file path = elim (Bool-cases (str_eq file "")) [
    | inl empty ↦ inl (inl ((eq_iff file "").0 empty), rw empty refl)
    | inr named ↦ elim (Bool-cases (is_abs path)) [
      | inl whole ↦ inl (inr whole, rw (named, whole) refl)
      | inr part ↦ inr (λ same. ground (arith, eq_iff file ""), part, rw (named, part) refl)
    ]
  ]

  decoded-PassRead : (secret : String) → PassRead secret (decoded "" secret)
  unfolding decoded
  decoded-PassRead secret = elim (Reply-cases (decode "" secret)) [
    | inl (e, h) ↦ inr (e, h, rw (h, decoded) refl)
    | inr (pass, h) ↦ inl (pass, h, rw (h, decoded) refl)
  ]

  abbrev read_back : AuthCnfg → String → String → AuthCnfg
  read_back c secret file = record {
    file = record {
      base = c.file.base;
      master_key = "";
      cert_path = located file c.file.cert_path;
      cert_pass = decoded "" secret;
    };
    private_file = file;
  }

  module _ (laws : FileLaws) where
    read_config-text :
        (c r : AuthCnfg) (secret : String) (text : B) (file : String) (s : S)
        → marshal (written c secret) ≡ fetched text
        → read_file file s ≡ fetched text
        → read_config r file s ≡ fetched (read_back c secret file)
    unfolding read_config parse_config
    read_config-text c r secret text file s m h =
        rw (h, laws.reads_back (written c secret) r.file text m, read_config, parse_config) refl

    write_config-written :
        (c : AuthCnfg) (secret : String) (text : B) (file : String) (s : S)
        → encode c.file.master_key c.file.cert_pass ≡ fetched secret
        → marshal (written c secret) ≡ fetched text
        → write_config c file s ≡ write_file file text s
    unfolding write_config
    write_config-written c secret text file s k m = rw (k, write_config) (rw m refl)

    write_config-lost :
        (c : AuthCnfg) (e : GoError) (file : String) (s : S)
        → encode c.file.master_key c.file.cert_pass ≡ api_error e
        → write_config c file s ≡ (s, some e)
    unfolding write_config
    write_config-lost c e file s k = rw (k, write_config) refl

    write_config-unwritten :
        (c : AuthCnfg) (secret file : String) (e : GoError) (s : S)
        → encode c.file.master_key c.file.cert_pass ≡ fetched secret
        → marshal (written c secret) ≡ api_error e
        → write_config c file s ≡ (s, some e)
    unfolding write_config
    write_config-unwritten c secret file e s k m = rw (k, write_config) (rw m refl)

    never : {A : Type 0} {e : GoError} → ◌≡◌ {A = Option GoError} (some e) none → A
    never h = cc

    -- If a file that is written is read as it was, and JSON reads back what it wrote, then
    -- credentials that are written without an error are read, whatever the reader held before, its
    -- master key included, with the site, tenant and client that were written and no master key; an
    -- absolute path of the certificate is as it was written, and a relative one starts in the
    -- directory of the file, if that has a name; and the password, which was encoded with the
    -- writer's key, is decoded with none, or stays encoded where that fails.
    pub read_config-write_config :
        (c r : AuthCnfg) (file : String) (s : S)
        → (write_config c file s).1 ≡ none
        → (secret : String) × (encode c.file.master_key c.file.cert_pass ≡ fetched secret)
          × ((got : AuthCnfg) × (read_config r file (write_config c file s).0 ≡ fetched got)
              × IsReadBack c secret file got)
    read_config-write_config c r file s h =
        elim (Reply-cases (encode c.file.master_key c.file.cert_pass)) [
          | inl (e, k) ↦ never (sym (ap (λ w. w.1) (write_config-lost c e file s k)) ∙ h)
          | inr (secret, k) ↦ elim (Reply-cases (marshal (written c secret))) [
            | inl (e, m) ↦
                never (sym (ap (λ w. w.1) (write_config-unwritten c secret file e s k m)) ∙ h)
            | inr (text, m) ↦
                let same = write_config-written c secret text file s k m in
                (
                  secret,
                  k,
                  (
                    read_back c secret file,
                    ap (λ w. read_config r file w.0) same
                        ∙ read_config-text c r secret text file (write_file file text s).0 m
                            (laws.read_written file text s (sym (ap (λ w. w.1) same) ∙ h)),
                    (
                      refl,
                      refl,
                      located-PathRead file c.file.cert_path,
                      decoded-PassRead secret,
                      refl,
                    ),
                  ),
                )
          ]
        ]
