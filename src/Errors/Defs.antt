-- ===== src/Errors/Defs.antt =====
-- An error is a chain of wrappers (`%w`, `net.OpError`) round a root. `errors.Is` and `errors.As`
-- walk the chain; the text of an error is the standard library's, and a parameter.
use sprawler.Common.{
  ◌≡◌, refl, ◌⊎◌, inl, inr, ℕ, ◌+◌, ◌-◌, ◌*◌, Bool, true, false, ◌&&◌, ◌||◌, Option, none, some,
  List, [], ◌∷◌, String, leb, ◌==◌, str_eq, if◌then◌else◌,
}
use sprawler.Model.{
  ErrorCategory, throttle, auth, timeout, server_error, network, unknown, OperationFailure,
}

pub data GoError : Type 0 where
  deadline_exceeded canceled connection_reset wsa_connection_reset eof unexpected_eof : GoError
  stream_error : ℕ → GoError
  go_away : GoError
  message : String → GoError
  wrapped : String → GoError → GoError
  op_error : String → GoError → GoError

-- What an API call returns: the value or the error.
pub data Reply (A : Type 0) : Type 0 where
  api_error : GoError → Reply A
  fetched : A → Reply A

pub Reply-cases :
    {A : Type 0} (r : Reply A) → ((e : GoError) × (r ≡ api_error e)) ⊎ ((a : A) × (r ≡ fetched a))
Reply-cases (api_error e) = inl (e, refl)
Reply-cases (fetched a) = inr (a, refl)

-- `errors.Is` or `errors.As` for what `p` tells of a single link.
unfoldable pub some_link : (GoError → Bool) → GoError → Bool
some_link p (wrapped s e) = p (wrapped s e) || some_link p e
some_link p (op_error s e) = p (op_error s e) || some_link p e
some_link p e = p e

-- `errors.Unwrap` until it returns nil.
unfoldable pub root : GoError → GoError
root (wrapped s e) = root e
root (op_error s e) = root e
root e = e

abbrev pub is_deadline : GoError → Bool
is_deadline deadline_exceeded = true
is_deadline _ = false

abbrev pub is_reset : GoError → Bool
is_reset connection_reset = true
is_reset wsa_connection_reset = true
is_reset _ = false

abbrev pub is_eof : GoError → Bool
is_eof eof = true
is_eof unexpected_eof = true
is_eof _ = false

abbrev pub is_op_error : GoError → Bool
is_op_error (op_error s e) = true
is_op_error _ = false

abbrev pub is_go_away : GoError → Bool
is_go_away go_away = true
is_go_away _ = false

abbrev pub is_stream_error : GoError → Bool
is_stream_error (stream_error code) = true
is_stream_error _ = false

-- The codes of `http2.StreamError` that the transport retries: CANCEL, REFUSED_STREAM and
-- INTERNAL_ERROR, by their numbers in RFC 9113.
abbrev pub is_shed_code : ℕ → Bool
is_shed_code code = code == 8 || (code == 7 || code == 2)

-- `errors.As` finds the first stream error of the chain.
unfoldable pub stream_code : GoError → Option ℕ
stream_code (stream_error code) = some code
stream_code (wrapped s e) = stream_code e
stream_code (op_error s e) = stream_code e
stream_code _ = none

unfoldable pub is_connection_reset : GoError → Bool
unfolding some_link
is_connection_reset e = some_link is_reset e

unfoldable pub is_http2_stream_error : GoError → Bool
unfolding some_link stream_code
is_http2_stream_error e =
    elim (stream_code e) [ none ↦ false | some code ↦ is_shed_code code ] || some_link is_go_away e

unfoldable pub is_transient_net_error : GoError → Bool
unfolding is_connection_reset is_http2_stream_error
is_transient_net_error e =
    if is_connection_reset e
    then true
    else if some_link is_eof e
    then true
    else if some_link is_op_error e
    then true
    else is_http2_stream_error e

unfoldable pub is_idempotent : String → Bool
is_idempotent method = str_eq method "GET" || (str_eq method "HEAD" || str_eq method "OPTIONS")

abbrev pub digit : ℕ → Option ℕ
digit c = if leb b'0' c && leb c b'9' then some (c - b'0') else none

unfoldable pub digits_value : ℕ → List ℕ → Option ℕ
digits_value acc [] = some acc
digits_value acc (c ∷ cs) = elim (digit c) [ none ↦ none | some d ↦ digits_value (10 * acc + d) cs ]

-- `strconv.Atoi` of the first three bytes, where the value is 400 or more. A sign leaves two
-- digits, less than 400.
unfoldable pub status_code : List ℕ → Option ℕ
unfolding digits_value
status_code (a ∷ b ∷ c ∷ rest) = elim (digits_value 0 (a ∷ b ∷ c ∷ [])) [
  | none ↦ none
  | some n ↦ if leb 400 n then some n else none
]
status_code _ = none

unfoldable pub status_category : ℕ → ErrorCategory
status_category code =
    if code == 429
    then throttle
    else if code == 401 || code == 403
    then auth
    else if leb 500 code
    then server_error
    else unknown

-- The part of `parseError` that follows the parse of a status.
unfoldable pub network_category : GoError → ErrorCategory
unfolding some_link
network_category e =
    if some_link is_reset e
    then network
    else if some_link is_eof e
    then network
    else if some_link is_op_error e
    then network
    else if some_link is_stream_error e
    then network
    else if some_link is_go_away e
    then network
    else unknown

module _ (text : GoError → List ℕ) where
  unfoldable pub parse_error : GoError → ErrorCategory × ℕ
  unfolding some_link root status_code status_category network_category
  parse_error e =
      if some_link is_deadline e then (timeout, 0) else elim (status_code (text (root e))) [
        | some code ↦ (status_category code, code)
        | none ↦ (network_category e, 0)
      ]

-- `render` is `err.Error()`.
unfoldable pub new_operation_failure :
    (GoError → List ℕ) → (GoError → String) → GoError → OperationFailure
unfolding parse_error
new_operation_failure text render e =
    let (category, status) = parse_error text e in
    record { category = category; http_status = status; detail = render e }
