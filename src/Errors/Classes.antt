-- ===== src/Errors/Classes.antt =====
-- How the two classifications of an error agree: what the transport retries as transient
-- (internal/api/transport_errors.go) and what an outcome records (internal/processors/helpers.go).
use sprawler.Common.{
  ℕ, ◌≤◌, ◌≡◌, ◌↔◌, refl, Bool, true, false, ◌||◌, Option, none, some, List, [], ◌∷◌, arith, ◌⊎◌,
  if◌then◌else◌,
}
use sprawler.Model.{ErrorCategory, throttle, auth, timeout, server_error, network, unknown}
use sprawler.Errors.Defs.{
  GoError, deadline_exceeded, canceled, connection_reset, wsa_connection_reset, eof, unexpected_eof,
  stream_error, go_away, message, wrapped, op_error, some_link, root, is_deadline, is_stream_error,
  stream_code, is_connection_reset, is_http2_stream_error, is_transient_net_error, status_code,
  status_category, network_category, parse_error,
}

abbrev pub is_some : Option ℕ → Bool
is_some none = false
is_some (some n) = true

stream_code-some_link : (e : GoError) → some_link is_stream_error e ≡ is_some (stream_code e)
unfolding some_link stream_code
stream_code-some_link (wrapped s e) = stream_code-some_link e
stream_code-some_link (op_error s e) = stream_code-some_link e
stream_code-some_link (stream_error c) = refl
stream_code-some_link go_away = refl
stream_code-some_link (message s) = refl
stream_code-some_link deadline_exceeded = refl
stream_code-some_link canceled = refl
stream_code-some_link connection_reset = refl
stream_code-some_link wsa_connection_reset = refl
stream_code-some_link eof = refl
stream_code-some_link unexpected_eof = refl

network_category-eq :
    (e : GoError)
    → network_category e
      ≡ (if is_transient_net_error e || some_link is_stream_error e then network else unknown)
unfolding network_category is_transient_net_error is_connection_reset is_http2_stream_error
network_category-eq e = ground (arith, stream_code-some_link e)

status_code-min : (l : List ℕ) (n : ℕ) → status_code l ≡ some n → 400 ≤ n
unfolding status_code
status_code-min (a ∷ b ∷ c ∷ rest) n e = ground arith
status_code-min [] n e = ground arith
status_code-min (a ∷ []) n e = ground arith
status_code-min (a ∷ b ∷ []) n e = ground arith

-- What the fields of a recorded failure say together.
abbrev pub Consistent : ErrorCategory × ℕ → Type 0
Consistent (category, status) =
    ((status ≡ 0) ⊎ (400 ≤ status))
    × (category ≡ throttle ↔ status ≡ 429)
    × (category ≡ auth ↔ (status ≡ 401) ⊎ (status ≡ 403))
    × (category ≡ server_error ↔ 500 ≤ status)

status_category-Consistent : (n : ℕ) → 400 ≤ n → Consistent (status_category n, n)
unfolding status_category
status_category-Consistent n h = ground arith

network_category-Consistent : (e : GoError) → Consistent (network_category e, 0)
unfolding network_category
network_category-Consistent e = ground arith

module _ (text : GoError → List ℕ) where
  -- An error that is no timeout and whose root's text starts with no HTTP status is recorded as a
  -- network error exactly when the transport takes it for transient or an HTTP/2 stream error of
  -- any code is in its chain, and as unknown otherwise; the recorded status is 0.
  pub parse_error-transient :
      (e : GoError)
      → some_link is_deadline e ≡ false
      → status_code (text (root e)) ≡ none
      → parse_error text e ≡ (
        (if is_transient_net_error e || some_link is_stream_error e then network else unknown),
        0,
      )
  unfolding parse_error
  parse_error-transient e d s = ground (arith, network_category-eq e)

  -- The recorded status and category agree, whatever the error: the status is 0 or at least 400,
  -- and the category is throttle, authentication or server error exactly at status 429, at 401
  -- and 403, and from 500 on.
  pub parse_error-Consistent : (e : GoError) → Consistent (parse_error text e)
  unfolding parse_error
  parse_error-Consistent e = go (some_link is_deadline e) (status_code (text (root e))) refl
    where
      go :
          (late : Bool) (o : Option ℕ)
          → status_code (text (root e)) ≡ o
          → Consistent (
              if late then (timeout, 0) else elim o [
                | some code ↦ (status_category code, code)
                | none ↦ (network_category e, 0)
              ])
      go true o q = ground arith
      go false none q = network_category-Consistent e
      go false (some n) q = status_category-Consistent n (status_code-min (text (root e)) n q)
