-- ===== src/Api/Metrics/Calls.antt =====
-- What the hooks of internal/api/client.go count over a whole call of gosip, by the life cycle that
-- the comment above `setupHooks` states.
use sprawler.Common.{
  ℕ, ◌+◌, ◌<◌, ◌≡◌, refl, String, true, false, ◌||◌, Option, none, some, List, [], ◌∷◌, ◌++◌, total,
  length, str_eq, if◌then◌else◌, ◌==◌, arith,
}
use sprawler.Common.Dict.{lookup, get_or_zero, lookup-add_at}
use sprawler.Errors.{GoError, is_transient_net_error}
use sprawler.Common.Text.{itoa}
use sprawler.Api.Metrics.Defs.{
  AtomicMetrics, HookEvent, on_request, on_response, on_error, on_retry, record_status_code,
  count_throttled, count_network_error, is_success,
}

-- How the last attempt of a call ends: with a status, or without a response.
pub data Final : Type 0 where
  success : ℕ → Final
  refused : ℕ → GoError → Final
  broken : GoError → Final

-- A hook that runs.
pub data Hook : Type 0 where
  requested responded errored retried_hook : HookEvent → Hook

unfoldable pub hook : Hook → AtomicMetrics → AtomicMetrics
unfolding on_request on_response on_error on_retry
hook (requested e) m = on_request e m
hook (responded e) m = on_response e m
hook (errored e) m = on_error e m
hook (retried_hook e) m = on_retry e m

unfoldable pub run_hooks : List Hook → AtomicMetrics → AtomicMetrics
unfolding hook
run_hooks [] m = m
run_hooks (h ∷ hs) m = run_hooks hs (hook h m)

-- `stamp` is the start time and the end of an attempt.
abbrev pub event : ℕ → Option GoError → Option ℕ × ℕ → HookEvent
event code error (start, now) = record {
  status_code = code;
  error = error;
  start_time = start;
  now = now;
}

-- The hooks of an attempt that is retried: `onError` without an error for a 429 only.
abbrev pub retry_hooks : Option ℕ × ℕ → ℕ → List Hook
retry_hooks stamp code =
    requested (event 0 none stamp)
    ∷ (if code == 429
        then errored (event code none stamp) ∷ retried_hook (event code none stamp) ∷ []
        else retried_hook (event code none stamp) ∷ [])

abbrev pub final_hooks : Option ℕ × ℕ → Final → List Hook
final_hooks stamp (success code) =
    requested (event 0 none stamp) ∷ responded (event code none stamp) ∷ []
final_hooks stamp (refused code e) =
    requested (event 0 none stamp)
    ∷ responded (event code (some e) stamp)
    ∷ errored (event code (some e) stamp)
    ∷ []
final_hooks stamp (broken e) =
    requested (event 0 none stamp) ∷ errored (event 0 (some e) stamp) ∷ []

unfoldable pub call_hooks : Option ℕ × ℕ → List ℕ → Final → List Hook
call_hooks stamp [] f = final_hooks stamp f
call_hooks stamp (code ∷ codes) f = retry_hooks stamp code ++ call_hooks stamp codes f

-- The statuses of a call are those of responses, and the last one agrees with how it ends.
abbrev pub IsHttp : Final → Type 0
IsHttp (success code) = is_success code ≡ true
IsHttp (refused code e) = (is_success code ≡ false) × (0 < code)
IsHttp (broken e) = Unit {0}

abbrev pub final_codes : Final → List ℕ
final_codes (success code) = code ∷ []
final_codes (refused code e) = code ∷ []
final_codes (broken e) = []

abbrev pub final_errors : Final → ℕ
final_errors (success code) = 0
final_errors (refused code e) =
    if code == 429 || code == 503 then 0 else if is_transient_net_error e then 1 else 0
final_errors (broken e) = if is_transient_net_error e then 1 else 0

abbrev pub throttles : ℕ → ℕ
throttles code = if code == 429 || code == 503 then 1 else 0

abbrev pub has_key : String → ℕ → ℕ
has_key k code = if str_eq (itoa code) k then 1 else 0

-- `codes` are the statuses that the attempts had, `errors` the network errors at the end.
abbrev pub Counted : String → ℕ → List ℕ → ℕ → AtomicMetrics → AtomicMetrics → Type 0
Counted k attempts codes errors m n =
    (n.request_count ≡ m.request_count + attempts)
    × (n.throttling_count ≡ m.throttling_count + total throttles codes)
    × (n.network_errors ≡ m.network_errors + errors)
    × (get_or_zero (lookup k n.status_codes)
        ≡ get_or_zero (lookup k m.status_codes) + total (has_key k) codes)

final-Counted :
    (k : String) (stamp : Option ℕ × ℕ) (f : Final) (m : AtomicMetrics)
    → IsHttp f
    → Counted k 1 (final_codes f) (final_errors f) m (run_hooks (final_hooks stamp f) m)
unfolding run_hooks on_request on_response on_error record_status_code count_throttled
    count_network_error
final-Counted k stamp (success code) m h =
    ground (arith, lookup-add_at (itoa code) k 1 m.status_codes)
final-Counted k stamp (refused code e) m h =
    ground (arith, lookup-add_at (itoa code) k 1 m.status_codes)
final-Counted k stamp (broken e) m h = ground arith

retry-Counted :
    (k : String) (stamp : Option ℕ × ℕ) (code : ℕ) (m : AtomicMetrics)
    → Counted k 1 (code ∷ []) 0 m (run_hooks (retry_hooks stamp code) m)
unfolding run_hooks on_request on_retry on_error record_status_code count_throttled
    count_network_error
retry-Counted k stamp code m = ground (arith, lookup-add_at (itoa code) k 1 m.status_codes)

run_hooks-append :
    (xs ys : List Hook) (m : AtomicMetrics) → run_hooks (xs ++ ys) m ≡ run_hooks ys (run_hooks xs m)
unfolding run_hooks
run_hooks-append [] ys m = refl
run_hooks-append (x ∷ xs) ys m = run_hooks-append xs ys (hook x m)

-- Over a call of gosip that is retried at any statuses and ends in a response or without one, each
-- attempt is counted once as a request, each response once under its status and once more as
-- throttling where it is a 429 or a 503, and the end once as a network error where its error is a
-- transient one and its own status, if any, is not a 429 or a 503, whatever the statuses of the
-- attempts before it. Nothing is counted twice, though several hooks run for one response.
pub call-Counted :
    (k : String) (stamp : Option ℕ × ℕ) (codes : List ℕ) (f : Final) (m : AtomicMetrics)
    → IsHttp f
    → Counted k
        (length codes + 1)
        (codes ++ final_codes f)
        (final_errors f)
        m
        (run_hooks (call_hooks stamp codes f) m)
unfolding call_hooks
call-Counted k stamp [] f m h = final-Counted k stamp f m h
call-Counted k stamp (code ∷ codes) f m h =
    let m2 = run_hooks (retry_hooks stamp code) m in
    rw (run_hooks-append (retry_hooks stamp code) (call_hooks stamp codes f) m)
      (omega (arith, retry-Counted k stamp code m, call-Counted k stamp codes f m2 h))
