-- ===== src/Api/Transport/Bounds.antt =====
-- The bounds of `ThrottledTransport`: the pause that a Retry-After header asks for.
use sprawler.Common.{
  ◌+◌, ◌<◌, ◌⊎◌, inl, inr, ◌∙◌, ltb, Bool-cases, ℕ, suc, ◌-◌, ◌*◌, ◌^◌, ◌≤◌, ◌≡◌, refl, some, arith,
}
use sprawler.Common.Int.{pos, negsuc}
use sprawler.Common.Text.{atoi}
use sprawler.Api.Transport.Defs.{
  ThrottledTransport, Response, returned, note_reply, gate_wait, pause_of, nanoseconds, close_gate,
}
use sprawler.Errors.{fetched}

-- The int64 of the pause is exact up to 9223372036 seconds; for the 9223372037 to 18446744073
-- seconds above it is negative, and the gate stays as it is.
nanoseconds-exact : (s : ℕ) → s ≤ 9223372036 → nanoseconds s ≡ pos (s * 1000000000)
unfolding nanoseconds
nanoseconds-exact s h = ground arith

nanoseconds-wraps :
    (s : ℕ)
    → 9223372037 ≤ s
    → s ≤ 18446744073
    → nanoseconds s ≡ negsuc (2 ^ 64 - 1 - s * 1000000000)
unfolding nanoseconds
nanoseconds-wraps s h k = ground arith

lt_or_ge : (m n : ℕ) → (m < n) ⊎ (n ≤ m)
lt_or_ge m n = elim (Bool-cases (ltb m n)) [
  | inl h ↦ inl (ground (arith, h))
  | inr h ↦ inr (ground (arith, h))
]

module _ (t : ThrottledTransport) (r : Response) (now n : ℕ) (throttled : r.status_code ≡ 429)
    (asked : atoi r.retry_after ≡ some (pos (suc n))) where
  asked_pause : pause_of t r.retry_after ≡ nanoseconds (suc n)
  unfolding pause_of
  asked_pause = rw (asked, pause_of) refl

  -- A 429 with a Retry-After of one second or more, up to 9223372036 seconds, keeps every request
  -- that comes from then on waiting until that long after the reply at least. From there to
  -- 18446744073 seconds the pause is negative as an int64, and a request that comes from then on
  -- waits as long as before.
  pub retry_after_bounds :
      (arrival : ℕ)
      → now ≤ arrival
      → let u = note_reply now (returned (fetched r)) t in
        ((suc n ≤ 9223372036) × (now + suc n * 1000000000 ≤ arrival + gate_wait arrival u))
        ⊎ (((9223372036 < suc n)
              × (suc n ≤ 18446744073)
              × ((d : ℕ) × (pause_of t r.retry_after ≡ negsuc d))
              × (gate_wait arrival u ≡ gate_wait arrival t))
            ⊎ (18446744073 < suc n))
  unfolding note_reply close_gate gate_wait
  retry_after_bounds arrival from = elim (lt_or_ge 9223372036 (suc n)) [
    | inr exact ↦ inl (exact, ground (arith, asked_pause, nanoseconds-exact (suc n) exact))
    | inl above ↦ elim (lt_or_ge 18446744073 (suc n)) [
      | inl twice ↦ inr (inr twice)
      | inr below ↦
          let wraps = nanoseconds-wraps (suc n) (omega (arith, above)) below in
          inr (
            inl (
              above,
              below,
              (2 ^ 64 - 1 - suc n * 1000000000, asked_pause ∙ wraps),
              ground (arith, asked_pause, wraps),
            ))
    ]
  ]
