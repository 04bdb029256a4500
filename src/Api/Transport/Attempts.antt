-- ===== src/Api/Transport/Attempts.antt =====
-- The attempts of `RoundTrip`: how many there are, and which reply is returned.
use sprawler.Common.{
  ℕ, zero, suc, ◌+◌, ◌%◌, ◌≤◌, ◌<◌, ◌≡◌, ◌≢◌, ◌∙◌, ◌⊎◌, inl, inr, refl, Bool, true, false, not,
  none, some, List, [], ◌∷◌, length, get_elem?, arith, Bool-cases,
}
use sprawler.Common.Int.{ℤ, pos, negsuc}
use sprawler.Errors.{Reply, api_error, fetched}
use sprawler.Api.Transport.Defs.{
  ThrottledTransport, Request, Response, Outcome, returned, panics, attempts, try_all, is_retryable,
  backoff_of, count_retry, note_reply, close_gate, try_and_note, round_trip, count_wait, gate_wait,
}

-- A reply after which the loop stops.
unfoldable pub is_final : Request → Reply Response → Bool
unfolding is_retryable
is_final q (fetched r) = true
is_final q (api_error e) = not (is_retryable q e)

-- The context of a request never ends.
pub record IsUnbounded (q : Request) : Type 0 where
  pub no_error : (k : ℕ) → q.context_error k ≡ none
  pub no_cancel : (k d : ℕ) → q.backoff_sleep k d ≡ none

get_elem?-lt {ℓ} :
    {A : Type ℓ} (xs : List A) (i : ℕ) → i < length xs → (x : A) × (get_elem? xs i ≡ some x)
get_elem?-lt [] i h = elim h [ ]
get_elem?-lt (x ∷ xs) zero h = (x, refl)
get_elem?-lt (x ∷ xs) (suc i) h = get_elem?-lt xs i (omega arith)

backoff_of-some : (ds : List ℕ) (k : ℕ) → ds ≢ [] → (d : ℕ) × (backoff_of ds k ≡ some d)
unfolding backoff_of
backoff_of-some [] k h = absurd (h refl)
backoff_of-some (d ∷ ds) k h = get_elem?-lt (d ∷ ds) (k % length (d ∷ ds)) (ground arith)

stop_here :
    (q : Request) (left k : ℕ) (t : ThrottledTransport)
    → is_final q (q.base k) ≡ true
    → attempts q left k t ≡ (returned (q.base k), t)
unfolding attempts is_final
stop_here q zero k t h = refl
stop_here q (suc left) k t h = go (q.base k) refl
  where
    go : (r : Reply Response) → q.base k ≡ r → attempts q (suc left) k t ≡ (returned (q.base k), t)
    go (fetched r) e = ground arith
    go (api_error e) f = ground arith

go_on :
    (q : Request) (left k : ℕ) (t : ThrottledTransport)
    → IsUnbounded q
    → t.retry_backoffs ≢ []
    → is_final q (q.base k) ≡ false
    → attempts q (suc left) k t ≡ attempts q left (k + 1) (count_retry t)
unfolding attempts is_final
go_on q left k t u full h = go (q.base k) refl
  where
    go :
        (r : Reply Response)
        → q.base k ≡ r
        → attempts q (suc left) k t ≡ attempts q left (k + 1) (count_retry t)
    go (fetched r) e = ground arith
    go (api_error e) f =
        let (d, some_backoff) = backoff_of-some t.retry_backoffs k full in
        ground (arith, u.no_error k, u.no_cancel k d)

-- The attempts from `k` on stop at `k + j`.
abbrev pub Stops : Request → ℕ → ℕ → ThrottledTransport → Type 0
Stops q left k t =
    (j : ℕ) × (j ≤ left)
    × (attempts q left k t
        ≡ (returned (q.base (k + j)), record t { transport_retries = t.transport_retries + j }))
    × ((i : ℕ) → i < j → is_final q (q.base (k + i)) ≡ false)
    × ((j ≡ left) ⊎ (is_final q (q.base (k + j)) ≡ true))

attempts-Stops :
    (q : Request) (left k : ℕ) (t : ThrottledTransport)
    → IsUnbounded q
    → t.retry_backoffs ≢ []
    → Stops q left k t
unfolding count_retry
attempts-Stops q zero k t u full =
    (0, omega arith, unfold attempts in ground arith, λ i h. absurd (omega arith), inl refl)
attempts-Stops q (suc left) k t u full = elim (Bool-cases (is_final q (q.base k))) [
  | inl final ↦ (
    0,
    omega arith,
    stop_here q (suc left) k t final ∙ ground arith,
    λ i h. absurd (omega arith),
    inr (ground arith),
  )
  | inr more ↦
      let (j, le, stops, before, why) = attempts-Stops q left (k + 1) (count_retry t) u full in
      let next : (i : ℕ) → k + 1 + i ≡ k + suc i = λ i. omega arith in
      (
        suc j,
        omega arith,
        go_on q left k t u full more ∙ stops ∙ unfold count_retry in ground (arith, next j),
        later next more before,
        ground (arith, next j, why),
      )
]
  where
    later :
        ((i : ℕ) → k + 1 + i ≡ k + suc i)
        → is_final q (q.base k) ≡ false
        → {j : ℕ} → ((i : ℕ) → i < j → is_final q (q.base (k + 1 + i)) ≡ false)
        → (i : ℕ) → i < suc j
        → is_final q (q.base (k + i)) ≡ false
    later next more before zero h = ground arith
    later next more before (suc i) h = ground (arith, next i, before i)

-- With a limit of `n` retries, at least one backoff, and a context that does not end, the reply of
-- attempt `j` is returned, counted from 0, and `j` retries are counted, where `j` is the first
-- attempt that has a response, a permanent error or a method that is not idempotent, or else `n`.
pub try_all-stops :
    (q : Request) (n : ℕ) (t : ThrottledTransport)
    → IsUnbounded q
    → t.retry_backoffs ≢ []
    → (j : ℕ) × (j ≤ n)
      × (try_all q (pos n) t
          ≡ (returned (q.base j), record t { transport_retries = t.transport_retries + j }))
      × ((i : ℕ) → i < j → is_final q (q.base i) ≡ false)
      × ((j ≡ n) ⊎ (is_final q (q.base j) ≡ true))
unfolding try_all
try_all-stops q n t u full =
    let (j, le, stops, before, why) = attempts-Stops q n 0 t u full in
    let same : (i : ℕ) → 0 + i ≡ i = λ i. omega arith in
    (
      j,
      le,
      stops ∙ ground (arith, same j),
      λ i h. ground (arith, same i, before i),
      ground (arith, same j, why),
    )

-- What a request leaves: the settings are kept, at most `n` retries are counted, and the gate and
-- its counts only grow.
abbrev pub Grows : ℕ → ThrottledTransport → ThrottledTransport → Type 0
Grows n t u =
    (u.max_retries ≡ t.max_retries)
    × (u.retry_backoffs ≡ t.retry_backoffs)
    × (u.throttle_pause ≡ t.throttle_pause)
    × (t.transport_retries ≤ u.transport_retries)
    × (u.transport_retries ≤ t.transport_retries + n)
    × (t.gate_activations ≤ u.gate_activations)
    × (u.gate_activations ≤ t.gate_activations + 1)
    × (t.pause_until ≤ u.pause_until)
    × (t.total_gate_wait ≤ u.total_gate_wait)

pub attempts-Grows :
    (q : Request) (left k : ℕ) (t : ThrottledTransport)
    → let u = (attempts q left k t).1 in
      Grows left t u × (u.gate_activations ≡ t.gate_activations) × (u.pause_until ≡ t.pause_until)
unfolding attempts count_retry
attempts-Grows q zero k t = ground arith
attempts-Grows q (suc left) k t = ground (arith, attempts-Grows q left (k + 1) (count_retry t))

-- The limit on the retries of a request.
abbrev pub limit_of : ℤ → ℕ
limit_of (pos n) = n
limit_of (negsuc n) = 0

try_all-Grows :
    (q : Request) (m : ℤ) (t : ThrottledTransport)
    → let u = (try_all q m t).1 in
      Grows (limit_of m) t u
      × (u.gate_activations ≡ t.gate_activations)
      × (u.pause_until ≡ t.pause_until)
unfolding try_all
try_all-Grows q (pos n) t = attempts-Grows q n 0 t
try_all-Grows q (negsuc n) t = ground arith

note_reply-Grows :
    (now : ℕ) (outcome : Outcome) (t : ThrottledTransport)
    → let u = note_reply now outcome t in Grows 0 t u × (u.transport_retries ≡ t.transport_retries)
unfolding note_reply close_gate
note_reply-Grows now panics t = ground arith
note_reply-Grows now (returned (api_error e)) t = ground arith
note_reply-Grows now (returned (fetched r)) t = ground arith

try_and_note-Grows :
    (q : Request) (t : ThrottledTransport) → Grows (limit_of t.max_retries) t (try_and_note q t).1
unfolding try_and_note
try_and_note-Grows q t = ground (
  arith,
  try_all-Grows q t.max_retries t,
  note_reply-Grows q.replied (try_all q t.max_retries t).0 (try_all q t.max_retries t).1,
)

-- Whatever a request meets, it counts at most as many retries as the limit allows, closes the gate
-- at most once, never opens it earlier, and leaves the settings alone.
pub round_trip-Grows :
    (q : Request) (t : ThrottledTransport) → Grows (limit_of t.max_retries) t (round_trip q t).1
unfolding round_trip count_wait
round_trip-Grows q t = ground (
  arith,
  try_and_note-Grows q t,
  try_and_note-Grows q (count_wait (q.gate_sleep (gate_wait q.arrival t)).1 t),
)
