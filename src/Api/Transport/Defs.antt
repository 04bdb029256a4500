-- ===== src/Api/Transport/Defs.antt =====
-- `ThrottledTransport.RoundTrip`: the gate, the attempts, and the pause that a 429 or 503 sets. What
-- the base transport and the context of the request do are the request's inputs. Instants are
-- natural numbers and durations integers, in nanoseconds.
use sprawler.Common.{
  ℕ, zero, suc, ◌+◌, ◌-◌, ◌*◌, ◌%◌, ◌^◌, String, Bool, true, false, ◌&&◌, ◌||◌, Option, none, some,
  List, [], ◌∷◌, ltb, ◌==◌, if◌then◌else◌, length, get_elem?,
}
use sprawler.Common.Int.{ℤ, pos, negsuc}
use sprawler.Common.Text.{atoi}
use sprawler.Errors.{GoError, Reply, api_error, fetched, is_transient_net_error, is_idempotent}

pub record TransportStats : Type 0 where
  pub gate_activations : ℕ
  pub total_gate_wait : ℕ
  pub transport_retries : ℕ

-- A negative backoff or wait ends at once, as one of 0 does.
pub record ThrottledTransport : Type 0 where
  pub pause_until : ℕ
  pub max_retries : ℤ
  pub retry_backoffs : List ℕ
  pub throttle_pause : ℤ
  pub gate_activations : ℕ
  pub total_gate_wait : ℕ
  pub transport_retries : ℕ

pub record Response : Type 0 where
  pub status_code : ℕ
  pub retry_after : String

-- A request, and what it meets: the instant at which it comes to the gate; by the time that it is
-- to wait there, the error of its context if that ends first, and the time that it waited; the
-- reply to each attempt; the context's error after an attempt and, by the backoff, in the wait
-- after it; and the instant at which the last reply is there.
pub record Request : Type 0 where
  pub method : String
  pub arrival : ℕ
  pub gate_sleep : ℕ → Option GoError × ℕ
  pub base : ℕ → Reply Response
  pub context_error : ℕ → Option GoError
  pub backoff_sleep : ℕ → ℕ → Option GoError
  pub replied : ℕ

-- `panics`: a nil response is read, or an index is taken modulo 0.
pub data Outcome : Type 0 where
  returned : Reply Response → Outcome
  panics : Outcome

unfoldable pub gate_wait : ℕ → ThrottledTransport → ℕ
gate_wait now t = t.pause_until - now

unfoldable pub count_wait : ℕ → ThrottledTransport → ThrottledTransport
count_wait waited t = record t { total_gate_wait = t.total_gate_wait + waited }

unfoldable pub count_retry : ThrottledTransport → ThrottledTransport
count_retry t = record t { transport_retries = t.transport_retries + 1 }

-- `none`: the division by the length of an empty slice.
unfoldable pub backoff_of : List ℕ → ℕ → Option ℕ
backoff_of [] attempt = none
backoff_of (d ∷ ds) attempt = get_elem? (d ∷ ds) (attempt % length (d ∷ ds))

unfoldable pub is_retryable : Request → GoError → Bool
is_retryable q e = is_transient_net_error e && is_idempotent q.method

abbrev pub is_throttled : ℕ → Bool
is_throttled code = code == 429 || code == 503

-- The `for` loop, with the retries that are left after this attempt.
unfoldable pub attempts : Request → ℕ → ℕ → ThrottledTransport → Outcome × ThrottledTransport
unfolding is_retryable backoff_of count_retry
attempts q zero attempt t = (returned (q.base attempt), t)
attempts q (suc left) attempt t = elim (q.base attempt) [
  | fetched r ↦ (returned (fetched r), t)
  | api_error e ↦ elim (is_retryable q e) [
    | false ↦ (returned (api_error e), t)
    | true ↦ elim (q.context_error attempt) [
      | some c ↦ (returned (api_error c), t)
      | none ↦ elim (backoff_of t.retry_backoffs attempt) [
        | none ↦ (panics, count_retry t)
        | some d ↦ elim (q.backoff_sleep attempt d) [
          | some c ↦ (returned (api_error c), count_retry t)
          | none ↦ attempts q left (attempt + 1) (count_retry t)
        ]
      ]
    ]
  ]
]

-- With a negative limit the loop has no round: the response and the error are both nil.
unfoldable pub try_all : Request → ℤ → ThrottledTransport → Outcome × ThrottledTransport
unfolding attempts
try_all q (pos n) t = attempts q n 0 t
try_all q (negsuc n) t = (panics, t)

-- The int64 of `time.Duration(seconds) * time.Second`.
unfoldable pub nanoseconds : ℕ → ℤ
nanoseconds seconds =
    let d = (seconds * 1000000000) % 2 ^ 64 in
    if ltb d (2 ^ 63) then pos d else negsuc (2 ^ 64 - 1 - d)

unfoldable pub pause_of : ThrottledTransport → String → ℤ
unfolding nanoseconds
pause_of t header = elim (atoi header) [
  | none ↦ t.throttle_pause
  | some (negsuc n) ↦ t.throttle_pause
  | some (pos zero) ↦ t.throttle_pause
  | some (pos (suc n)) ↦ nanoseconds (suc n)
]

abbrev pub later_by : ℕ → ℤ → ℕ
later_by now (pos d) = now + d
later_by now (negsuc d) = now - suc d

-- The part under the mutex.
unfoldable pub close_gate : ℕ → ThrottledTransport → ThrottledTransport
close_gate until t =
    if ltb t.pause_until until
    then record t { pause_until = until; gate_activations = t.gate_activations + 1 }
    else t

unfoldable pub note_reply : ℕ → Outcome → ThrottledTransport → ThrottledTransport
unfolding pause_of close_gate
note_reply now panics t = t
note_reply now (returned (api_error e)) t = t
note_reply now (returned (fetched r)) t =
    if is_throttled r.status_code then close_gate (later_by now (pause_of t r.retry_after)) t else t

unfoldable pub try_and_note : Request → ThrottledTransport → Outcome × ThrottledTransport
unfolding try_all note_reply
try_and_note q t =
    let (outcome, t2) = try_all q t.max_retries t in (outcome, note_reply q.replied outcome t2)

unfoldable pub round_trip : Request → ThrottledTransport → Outcome × ThrottledTransport
unfolding gate_wait count_wait try_and_note
round_trip q t =
    let wait = gate_wait q.arrival t in
    if wait == 0
    then try_and_note q t
    else let (ended, waited) = q.gate_sleep wait in
      elim ended [
        | some c ↦ (returned (api_error c), count_wait waited t)
        | none ↦ try_and_note q (count_wait waited t)
      ]

unfoldable pub transport_stats : ThrottledTransport → TransportStats
transport_stats t = record {
  gate_activations = t.gate_activations;
  total_gate_wait = t.total_gate_wait;
  transport_retries = t.transport_retries;
}
