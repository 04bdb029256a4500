-- ===== src/Api/Transport/Tests.antt =====
-- Requests through `ThrottledTransport`, and its theorems at concrete ones.
use sprawler.Common.{
  arith, ℕ, ◌+◌, ◌*◌, ◌≤◌, ◌<◌, ◌≡◌, ◌≢◌, ◌⊎◌, refl, true, false, none, some, [], ◌∷◌, ◌==◌,
  if◌then◌else◌,
}
use sprawler.Common.Int.{pos, negsuc}
use sprawler.Common.Text.{atoi}
use sprawler.Errors.{api_error, fetched, eof, is_transient_net_error, is_idempotent}
use sprawler.Api.Transport.Defs.{
  ThrottledTransport, Request, Response, returned, attempts, try_all, round_trip, gate_wait,
  note_reply, pause_of,
}
use sprawler.Api.Transport.Attempts.{
  IsUnbounded, Grows, limit_of, is_final, try_all-stops, round_trip-Grows,
}
use sprawler.Api.Transport.Gate.{
  waited, retried, accesses, access, replied, Tripped, gate_holds, round_trip-accesses,
}
use sprawler.Api.Transport.Bounds.{retry_after_bounds}

abbrev fresh : ThrottledTransport
fresh = record {
  pause_until = 0;
  max_retries = pos 3;
  retry_backoffs = 5 ∷ 10 ∷ [];
  throttle_pause = pos 60;
  gate_activations = 0;
  total_gate_wait = 0;
  transport_retries = 0;
}

abbrev busy : Response
busy = record { status_code = 429; retry_after = "2" }

-- A GET that has two connection errors and then a 429.
abbrev listing_request : Request
listing_request = record {
  method = "GET";
  arrival = 100;
  gate_sleep = λ wait. (none, wait);
  base = λ k. if k == 2 then fetched busy else api_error eof;
  context_error = λ k. none;
  backoff_sleep = λ k d. none;
  replied = 500;
}

listing_request-IsUnbounded : IsUnbounded listing_request
listing_request-IsUnbounded = record { no_error = λ k. refl; no_cancel = λ k d. refl }

some_backoffs : fresh.retry_backoffs ≢ []
some_backoffs h = cc

retry_after_test : atoi busy.retry_after ≡ some (pos 2)
unfolding atoi
retry_after_test = refl

gate_test : pause_of fresh busy.retry_after ≡ pos 2000000000
unfolding pause_of atoi
gate_test = refl

round_trip_test : round_trip listing_request fresh ≡ (
  returned (fetched busy),
  record fresh { pause_until = 2000000500; gate_activations = 1; transport_retries = 2 },
)
unfolding round_trip attempts atoi is_transient_net_error is_idempotent
round_trip_test = refl

try_all-stops_example :
    (j : ℕ) × (j ≤ 3)
    × (try_all listing_request (pos 3) fresh
        ≡ (returned (listing_request.base j), record fresh { transport_retries = 0 + j }))
    × ((i : ℕ) → i < j → is_final listing_request (listing_request.base i) ≡ false)
    × ((j ≡ 3) ⊎ (is_final listing_request (listing_request.base j) ≡ true))
try_all-stops_example =
    try_all-stops listing_request 3 fresh listing_request-IsUnbounded some_backoffs

round_trip-Grows_example : Grows (limit_of (pos 3)) fresh (round_trip listing_request fresh).1
round_trip-Grows_example = round_trip-Grows listing_request fresh

gate_holds_example :
    500 + 2000000000
    ≤ 700
      + gate_wait 700 (
          accesses (retried ∷ waited 4 ∷ []) (access (replied 500 (returned (fetched busy))) fresh))
gate_holds_example =
    gate_holds fresh busy 500 2000000000 (retried ∷ waited 4 ∷ []) 700 refl gate_test

round_trip-accesses_example :
    Tripped listing_request
      (record fresh { pause_until = 130 })
      (gate_wait 100 (record fresh { pause_until = 130 }))
      (none, gate_wait 100 (record fresh { pause_until = 130 }))
      (round_trip listing_request (record fresh { pause_until = 130 }))
round_trip-accesses_example =
    round_trip-accesses listing_request (record fresh { pause_until = 130 })

abbrev overflowing : Response
overflowing = record { status_code = 429; retry_after = "9223372037" }

overflow_test : atoi overflowing.retry_after ≡ some (pos 9223372037)
unfolding atoi
overflow_test = refl

retry_after_bounds_example :
    let u = note_reply 500 (returned (fetched overflowing)) fresh in
    ((9223372037 ≤ 9223372036) × (500 + 9223372037 * 1000000000 ≤ 700 + gate_wait 700 u))
    ⊎ (((9223372036 < 9223372037)
          × (9223372037 ≤ 18446744073)
          × ((d : ℕ) × (pause_of fresh overflowing.retry_after ≡ negsuc d))
          × (gate_wait 700 u ≡ gate_wait 700 fresh))
        ⊎ (18446744073 < 9223372037))
retry_after_bounds_example =
    retry_after_bounds fresh overflowing 500 9223372036 refl overflow_test 700 (omega arith)
