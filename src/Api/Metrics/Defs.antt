-- ===== src/Api/Metrics/Defs.antt =====
-- The hooks that the client gives to gosip, the counters that they keep, and the snapshot of
-- `GetMetrics`. An event carries what a hook reads of it: the status (0 without a response), the
-- error, and the start time that `onRequest` put into the request's context.
use sprawler.Common.{
  ℕ, zero, suc, ◌+◌, ◌-◌, ◌/◌, String, Bool, true, false, ◌&&◌, ◌||◌, Option, none, some, List, [],
  ◌∷◌, ltb, leb, ◌==◌, if◌then◌else◌,
}
use sprawler.Common.Int.{ℤ}
use sprawler.Common.Dict.{Dict, add_at, lookup, insert}
use sprawler.Common.Text.{atoi, itoa}
use sprawler.Errors.{GoError, is_transient_net_error}

pub record AtomicMetrics : Type 0 where
  pub request_count : ℕ
  pub network_errors : ℕ
  pub throttling_count : ℕ
  pub total_duration : ℕ
  pub status_codes : Dict ℕ

unfoldable pub record_status_code : ℕ → AtomicMetrics → AtomicMetrics
record_status_code code m = record m { status_codes = add_at (itoa code) 1 m.status_codes }

pub record HookEvent : Type 0 where
  pub status_code : ℕ
  pub error : Option GoError
  pub start_time : Option ℕ
  pub now : ℕ

unfoldable pub on_request : HookEvent → AtomicMetrics → AtomicMetrics
on_request e m = record m { request_count = m.request_count + 1 }

abbrev pub latency : Option ℕ → ℕ → ℕ
latency none now = 0
latency (some start) now = now - start

abbrev pub is_success : ℕ → Bool
is_success code = leb 200 code && ltb code 300

unfoldable pub on_response : HookEvent → AtomicMetrics → AtomicMetrics
unfolding record_status_code
on_response e m =
    let m2 = record m { total_duration = m.total_duration + latency e.start_time e.now } in
    if is_success e.status_code then record_status_code e.status_code m2 else m2

unfoldable pub count_throttled : AtomicMetrics → AtomicMetrics
count_throttled m = record m { throttling_count = m.throttling_count + 1 }

unfoldable pub count_network_error : Option GoError → AtomicMetrics → AtomicMetrics
count_network_error none m = m
count_network_error (some e) m =
    if is_transient_net_error e then record m { network_errors = m.network_errors + 1 } else m

unfoldable pub on_error : HookEvent → AtomicMetrics → AtomicMetrics
unfolding record_status_code count_throttled count_network_error
on_error e m =
    let m2 = if ltb 0 e.status_code then record_status_code e.status_code m else m in
    if e.status_code == 429 || e.status_code == 503
    then count_throttled m2
    else count_network_error e.error m2

unfoldable pub on_retry : HookEvent → AtomicMetrics → AtomicMetrics
unfolding record_status_code count_throttled
on_retry e m =
    if e.status_code == 429
    then m
    else let m2 = record_status_code e.status_code m in
      if e.status_code == 503 then count_throttled m2 else m2

pub record ApiMetrics : Type 0 where
  pub total_duration : ℕ
  pub avg_duration : ℕ
  pub status_codes : List (ℤ × ℕ)
  pub transport_retries : ℕ

-- The keys that are numbers.
unfoldable pub numeric_codes : Dict ℕ → List (ℤ × ℕ)
numeric_codes [] = []
numeric_codes ((key, count) ∷ d) =
    let rest = numeric_codes d in elim (atoi key) [ none ↦ rest | some code ↦ (code, count) ∷ rest ]

unfoldable pub get_metrics : ℕ → AtomicMetrics → ApiMetrics
unfolding numeric_codes
get_metrics transport_retries m = record {
  total_duration = m.total_duration;
  avg_duration = if ltb 0 m.request_count then m.total_duration / m.request_count / 1000000 else 0;
  status_codes = numeric_codes m.status_codes;
  transport_retries = transport_retries;
}

-- A goroutine in `counterMap.Add`: before the read lock, after it without a counter, and with one.
pub data Adder : Type 0 where
  looks : String → ℕ → Adder
  misses : String → ℕ → Adder
  holds : String → ℕ → Adder
  added : Adder

abbrev pub is_present : Option ℕ → Bool
is_present none = false
is_present (some n) = true

-- The next atomic part of `Add`. An entry is never replaced, so that the counter that a goroutine
-- holds is the entry.
unfoldable pub advance : Adder → Dict ℕ → Adder × Dict ℕ
advance (looks key n) d = (if is_present (lookup key d) then holds key n else misses key n, d)
advance (misses key n) d = (holds key n, if is_present (lookup key d) then d else insert key 0 d)
advance (holds key n) d = (added, add_at key n d)
advance added d = (added, d)

unfoldable pub advance_at : ℕ → List Adder → Dict ℕ → List Adder × Dict ℕ
unfolding advance
advance_at i [] d = ([], d)
advance_at zero (a ∷ as_) d = let (b, e) = advance a d in (b ∷ as_, e)
advance_at (suc i) (a ∷ as_) d = let (bs, e) = advance_at i as_ d in (a ∷ bs, e)

-- Goroutines in any order, each entry of the list a step of the one at that place.
unfoldable pub add_all : List ℕ → List Adder → Dict ℕ → List Adder × Dict ℕ
unfolding advance_at
add_all [] as_ d = (as_, d)
add_all (i ∷ is) as_ d = let (bs, e) = advance_at i as_ d in add_all is bs e
