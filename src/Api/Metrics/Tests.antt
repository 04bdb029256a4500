-- ===== src/Api/Metrics/Tests.antt =====
-- Calls and counters of internal/api, and the theorems on them at concrete ones.
use sprawler.Common.{ℕ, ◌+◌, ◌≡◌, refl, some, List, [], ◌∷◌, All, total, ◌==◌, if◌then◌else◌, arith}
use sprawler.Common.Dict.{lookup, add_at, insert}
use sprawler.Errors.{message}
use sprawler.Api.Metrics.Defs.{
  AtomicMetrics, get_metrics, record_status_code, Adder, looks, add_all, advance_at, advance,
  numeric_codes, on_request, on_response, on_error, on_retry, count_throttled, count_network_error,
}
use sprawler.Api.Metrics.Adders.{value, owed, IsAdded, add_all-sums}
use sprawler.Api.Metrics.Calls.{
  Final, refused, Counted, IsHttp, run_hooks, call_hooks, call-Counted,
}
use sprawler.Api.Metrics.Codes.{count_for, get_metrics-record}
use sprawler.Common.Int.{pos}
use sprawler.Common.Text.{itoa_on, atoi}

abbrev no_metrics : AtomicMetrics
no_metrics = record {
  request_count = 0;
  network_errors = 0;
  throttling_count = 0;
  total_duration = 0;
  status_codes = [];
}

-- Throttled twice, once a 500, and given up at a 503.
abbrev given_up : Final
given_up = refused 503 (message "503")

call_test : run_hooks (call_hooks (some 10, 30) (429 ∷ 500 ∷ []) given_up) no_metrics ≡ record {
  request_count = 3;
  network_errors = 0;
  throttling_count = 2;
  total_duration = 20;
  status_codes = ("429", 1) ∷ ("500", 1) ∷ ("503", 1) ∷ [];
}
unfolding run_hooks call_hooks on_request on_response on_error on_retry record_status_code
    count_throttled count_network_error itoa_on add_at
call_test = refl

given_up-IsHttp : IsHttp given_up
given_up-IsHttp = (refl, omega arith)

call-Counted_example :
    Counted "503" 3
      (429 ∷ 500 ∷ 503 ∷ [])
      0
      no_metrics
      (run_hooks (call_hooks (some 10, 30) (429 ∷ 500 ∷ []) given_up) no_metrics)
call-Counted_example =
    call-Counted "503" (some 10, 30) (429 ∷ 500 ∷ []) given_up no_metrics given_up-IsHttp

-- Two goroutines find the counter missing, and both come to the write lock.
abbrev racing : List Adder
racing = looks "429" 1 ∷ looks "429" 2 ∷ []

abbrev race : List ℕ
race = 0 ∷ 1 ∷ 0 ∷ 0 ∷ 1 ∷ 1 ∷ []

race_done : All IsAdded (add_all race racing []).0
unfolding add_all advance_at advance lookup insert add_at
race_done = (refl, (refl, tt))

add_all-sums_example :
    let (bs, e) = add_all race racing [] in
    value "429" e ≡ value "429" [] + total (owed "429") racing
add_all-sums_example = add_all-sums "429" race racing [] race_done

reported_test : (get_metrics 7 (record_status_code 404 no_metrics)).status_codes ≡ (pos 404, 1) ∷ []
unfolding get_metrics record_status_code itoa_on numeric_codes atoi add_at
reported_test = refl

get_metrics-record_example :
    total (count_for 404) (get_metrics 7 (record_status_code 404 no_metrics)).status_codes
    ≡ total (count_for 404) (get_metrics 7 no_metrics).status_codes + (if 404 == 404 then 1 else 0)
get_metrics-record_example = get_metrics-record 7 404 404 no_metrics (omega arith)
