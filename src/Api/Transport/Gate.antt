-- ===== src/Api/Transport/Gate.antt =====
-- The gate of `ThrottledTransport` among many requests: what a 429 or 503 holds back. The steps of
-- the requests that touch the shared transport may come in any order.
use sprawler.Common.{
  ℕ, zero, suc, ◌+◌, ◌-◌, ◌≤◌, ◌<◌, ◌≡◌, ◌∙◌, refl, sym, ap, Bool, true, false, Option, none, some,
  List, [], ◌∷◌, ◌++◌, ◌==◌, if◌then◌else◌, arith, ◌⊎◌, inl, inr,
}
use sprawler.Common.Int.{ℤ, pos, negsuc}
use sprawler.Errors.{GoError, api_error, fetched}
use sprawler.Api.Transport.Attempts.{limit_of, attempts-Grows}
use sprawler.Api.Transport.Defs.{
  ThrottledTransport, Request, Response, Outcome, returned, panics, attempts, try_all, is_throttled,
  count_retry, note_reply, close_gate, try_and_note, round_trip, count_wait, gate_wait, pause_of,
  later_by,
}

-- What a request does to the transport, one atomic access at a time.
pub data Access : Type 0 where
  waited : ℕ → Access
  retried : Access
  replied : ℕ → Outcome → Access

unfoldable pub access : Access → ThrottledTransport → ThrottledTransport
unfolding count_wait count_retry note_reply
access (waited w) t = count_wait w t
access retried t = count_retry t
access (replied now outcome) t = note_reply now outcome t

unfoldable pub accesses : List Access → ThrottledTransport → ThrottledTransport
unfolding access
accesses [] t = t
accesses (a ∷ as_) t = accesses as_ (access a t)

accesses-append :
    (xs ys : List Access) (t : ThrottledTransport)
    → accesses (xs ++ ys) t ≡ accesses ys (accesses xs t)
unfolding accesses
accesses-append [] ys t = refl
accesses-append (x ∷ xs) ys t = accesses-append xs ys (access x t)

access-pause : (a : Access) (t : ThrottledTransport) → t.pause_until ≤ (access a t).pause_until
unfolding access count_wait count_retry note_reply close_gate
access-pause (waited w) t = omega arith
access-pause retried t = omega arith
access-pause (replied now panics) t = omega arith
access-pause (replied now (returned (api_error e))) t = omega arith
access-pause (replied now (returned (fetched r))) t = ground arith

accesses-pause :
    (xs : List Access) (t : ThrottledTransport) → t.pause_until ≤ (accesses xs t).pause_until
unfolding accesses
accesses-pause [] t = omega arith
accesses-pause (x ∷ xs) t = omega (arith, access-pause x t, accesses-pause xs (access x t))

-- Once a request has a 429 or 503 at instant `now`, with a pause of `d`, every request that comes
-- to the gate later, after any accesses of any requests, is to wait there at least until `now + d`.
pub gate_holds :
    (t : ThrottledTransport) (r : Response) (now d : ℕ) (xs : List Access) (arrival : ℕ)
    → is_throttled r.status_code ≡ true
    → pause_of t r.retry_after ≡ pos d
    → now + d
      ≤ arrival + gate_wait arrival (accesses xs (access (replied now (returned (fetched r))) t))
unfolding gate_wait access note_reply close_gate
gate_holds t r now d xs arrival throttled pause =
    let held : later_by now (pause_of t r.retry_after) ≡ now + d = rw pause in
    ground (arith, held, accesses-pause xs (access (replied now (returned (fetched r))) t))

attempts_only_count :
    (q : Request) (left k : ℕ) (t : ThrottledTransport)
    → let u = (attempts q left k t).1 in
      (u ≡ record t { transport_retries = u.transport_retries })
      × (t.transport_retries ≤ u.transport_retries)
unfolding attempts count_retry
attempts_only_count q zero k t = ground arith
attempts_only_count q (suc left) k t =
    ground (arith, attempts_only_count q left (k + 1) (count_retry t))

pub retries : ℕ → List Access
retries zero = []
retries (suc n) = retried ∷ retries n

accesses-retries :
    (n : ℕ) (t : ThrottledTransport)
    → accesses (retries n) t ≡ record t { transport_retries = t.transport_retries + n }
unfolding accesses retries access count_retry
accesses-retries zero t = ground arith
accesses-retries (suc n) t = ground (arith, accesses-retries n (count_retry t))

attempts-accesses :
    (q : Request) (left : ℕ) (t : ThrottledTransport)
    → let u = (attempts q left 0 t).1 in
      u ≡ accesses (retries (u.transport_retries - t.transport_retries)) t
attempts-accesses q left t =
    let u = (attempts q left 0 t).1 in
    let counted = u.transport_retries - t.transport_retries in
    ground (arith, attempts_only_count q left 0 t, accesses-retries counted t)

try_all-accesses :
    (q : Request) (m : ℤ) (t : ThrottledTransport)
    → (n : ℕ) × (n ≤ limit_of m) × ((try_all q m t).1 ≡ accesses (retries n) t)
unfolding try_all
try_all-accesses q (pos n) t = (
  (attempts q n 0 t).1.transport_retries - t.transport_retries,
  omega (arith, attempts-Grows q n 0 t),
  attempts-accesses q n t,
)
try_all-accesses q (negsuc n) t = (0, omega arith, unfold retries accesses in refl)

-- A request past the gate, from the transport that it finds: it has the outcome of its attempts,
-- retries as often as they count and at most as often as the limit allows, and handles the outcome.
abbrev pub Made : Request → ThrottledTransport → Outcome × ThrottledTransport → Type 0
Made q t (outcome, u) =
    (outcome ≡ (try_all q t.max_retries t).0)
    × ((n : ℕ) × (n ≤ limit_of t.max_retries)
        × (u ≡ accesses (retries n ++ replied q.replied outcome ∷ []) t))

try_and_note-Made : (q : Request) (t : ThrottledTransport) → Made q t (try_and_note q t)
unfolding try_and_note
try_and_note-Made q t =
    let (n, le, made) = try_all-accesses q t.max_retries t in
    let outcome = (try_all q t.max_retries t).0 in
    (
      refl,
      (
        n,
        le,
        ap (note_reply q.replied outcome) made
            ∙ unfold accesses access in
              sym (accesses-append (retries n) (replied q.replied outcome ∷ []) t),
      ),
    )

-- What a request does by the time `wait` that it finds at the gate, with what the wait comes to.
abbrev pub Tripped :
    Request → ThrottledTransport → ℕ → Option GoError × ℕ → Outcome × ThrottledTransport → Type 0
Tripped q t wait (ended, w) r =
    ((wait ≡ 0) × Made q t r)
    ⊎ ((0 < wait)
        × (((c : GoError) × (ended ≡ some c) × (r ≡ (returned (api_error c), access (waited w) t)))
            ⊎ ((ended ≡ none) × Made q (access (waited w) t) r)))

-- A request that finds the gate open goes on at once. One that has to wait waits there, and its wait
-- is counted: if its context ends first it returns that error and does nothing else, and if not it
-- goes on. To go on is to have the outcome of the attempts, to count some retries, at most the
-- limit, and to handle the outcome. Nothing else is done to the transport, and each part is one
-- access.
pub round_trip-accesses :
    (q : Request) (t : ThrottledTransport)
    → Tripped q t (gate_wait q.arrival t) (q.gate_sleep (gate_wait q.arrival t)) (round_trip q t)
unfolding round_trip access
round_trip-accesses q t =
    go (gate_wait q.arrival t == 0) (gate_wait q.arrival t) refl
      (q.gate_sleep (gate_wait q.arrival t))
  where
    tripped : Bool → Option GoError × ℕ → Outcome × ThrottledTransport
    tripped open_gate (ended, w) = if open_gate then try_and_note q t else elim ended [
      | some c ↦ (returned (api_error c), count_wait w t)
      | none ↦ try_and_note q (count_wait w t)
    ]

    go :
        (open_gate : Bool) (wait : ℕ)
        → (wait == 0) ≡ open_gate
        → (slept : Option GoError × ℕ) → Tripped q t wait slept (tripped open_gate slept)
    go true wait h (ended, w) = inl (ground (arith, h), try_and_note-Made q t)
    go false wait h (some c, w) = inr (ground (arith, h), inl (c, refl, refl))
    go false wait h (none, w) =
        inr (ground (arith, h), inr (refl, try_and_note-Made q (count_wait w t)))
