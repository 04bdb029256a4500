-- ===== src/Throttle/Limits.antt =====
-- The monitor's tick in throttle_scaler.go: the bounds of the limit, the accounting of reduced
-- time, which action a tick takes, and that a quiet scaler climbs back to the maximum.
use sprawler.Common.{
  ℕ, ◌+◌, ◌-◌, ◌≤◌, ◌<◌, ◌≡◌, none, List, map, arith, ltb, Bool-cases, inl, inr, ltb→lt,
}
use sprawler.Throttle.Defs.{
  ThrottleScaler, BackpressureSignal, ScaleAction, scale_halve, scale_reduce_one,
  new_throttle_scaler, scale_down, scale_up, scan_action, tick_fired, update_signal, note_reduced,
  reduce_to, note_raised, raised_limit, raise_to, tick_up, tick_quiet, tick, scaled_limit,
}
use sprawler.Throttle.Tokens.{drained, filled, drain_tokens-eq, add_tokens-eq, held}

pub record IsValid (s : ThrottleScaler) : Type 0 where
  pub min_pos : 1 ≤ s.min_limit
  pub min_limit : s.min_limit ≤ s.current_limit
  pub limit_max : s.current_limit ≤ s.max_workers
  pub sem_live : s.sem ≤ s.live_tokens
  pub sem_max : s.sem ≤ s.max_workers
  pub at_max : s.reduced_since ≡ none → s.current_limit ≡ s.max_workers
  pub below_max : s.current_limit ≡ s.max_workers → s.reduced_since ≡ none

-- A new scaler is valid, and no token is held.
pub new_throttle_scaler-IsValid :
    (now max_workers : ℕ) (signals : List BackpressureSignal)
    → IsValid (new_throttle_scaler now max_workers signals)
      × (held (new_throttle_scaler now max_workers signals) ≡ 0)
unfolding new_throttle_scaler
new_throttle_scaler-IsValid now max_workers signals = ground arith

pub scale_down-eq :
    (from to : ℕ) (s : ThrottleScaler)
    → scale_down from to s ≡ drained (from - to) (record s { current_limit = to })
unfolding scale_down
scale_down-eq from to s = drain_tokens-eq (from - to) (record s { current_limit = to })

pub scale_up-eq :
    (from to : ℕ) (s : ThrottleScaler)
    → scale_up from to s ≡ filled (to - from) (record s { current_limit = to })
unfolding scale_up
scale_up-eq from to s = add_tokens-eq (to - from) (record s { current_limit = to })

note_reduced-IsValid :
    (now limit : ℕ) (s : ThrottleScaler)
    → 1 ≤ limit
    → limit < s.current_limit
    → IsValid s
    → IsValid (
        note_reduced now limit
          (drained (s.current_limit - limit) (record s { current_limit = limit })))
unfolding note_reduced
note_reduced-IsValid now limit s pos lt v = ground arith

reduce_to-IsValid :
    (now limit : ℕ) (s : ThrottleScaler) → 1 ≤ limit → IsValid s → IsValid (reduce_to now limit s)
unfolding reduce_to
reduce_to-IsValid now limit s pos v = elim (Bool-cases (ltb limit s.current_limit)) [
  | inl lt ↦
      rw (lt, scale_down-eq s.current_limit limit s)
        (note_reduced-IsValid now limit s pos (ltb→lt _ _ lt) v)
  | inr ge ↦ rw ge v
]

scaled_limit-pos : (a : ScaleAction) (n : ℕ) → 1 ≤ scaled_limit a n
unfolding scaled_limit
scaled_limit-pos scale_halve n = ground arith
scaled_limit-pos scale_reduce_one n = ground arith

tick_fired-IsValid :
    (now : ℕ) (a : ScaleAction) (s : ThrottleScaler) → IsValid s → IsValid (tick_fired now a s)
unfolding tick_fired
tick_fired-IsValid now a s v =
    reduce_to-IsValid now (scaled_limit a s.current_limit) s (scaled_limit-pos a s.current_limit) v

note_raised-IsValid :
    (now limit : ℕ) (s : ThrottleScaler)
    → s.current_limit < limit
    → limit ≤ s.max_workers
    → IsValid s
    → IsValid (
        note_raised now limit
          (filled (limit - s.current_limit) (record s { current_limit = limit })))
unfolding note_raised
note_raised-IsValid now limit s lt le v = ground arith

pub raised_limit-eq :
    (s : ThrottleScaler) → s.current_limit < s.max_workers → raised_limit s ≡ s.current_limit + 1
unfolding raised_limit
raised_limit-eq s h = ground arith

pub tick_up-IsValid :
    (now : ℕ) (s : ThrottleScaler)
    → s.current_limit < s.max_workers
    → IsValid s
    → IsValid (tick_up now s)
unfolding tick_up raise_to
tick_up-IsValid now s h v =
    rw (raised_limit-eq s h, scale_up-eq s.current_limit (s.current_limit + 1) s)
      (note_raised-IsValid now (s.current_limit + 1) s (omega arith) (omega arith) v)

tick_quiet-IsValid : (now : ℕ) (s : ThrottleScaler) → IsValid s → IsValid (tick_quiet now s)
unfolding tick_quiet
tick_quiet-IsValid now s v = ground (arith, tick_up-IsValid now s)

update-IsValid :
    (now : ℕ) (s : ThrottleScaler)
    → IsValid s
    → IsValid (record s { signals = map (update_signal now) s.signals })
update-IsValid now s v = ground arith

-- Every tick keeps the scaler valid: the limit between one and the maximum, the smallest limit
-- below it and positive, the channel within the live tokens and its capacity, and the start of
-- reduced time set exactly while the limit is below the maximum.
pub tick-IsValid : (now : ℕ) (s : ThrottleScaler) → IsValid s → IsValid (tick now s)
unfolding tick
tick-IsValid now s v = ground (
  arith,
  tick_fired-IsValid now (scan_action now scale_reduce_one s.signals)
      (record s { signals = map (update_signal now) s.signals }) (update-IsValid now s v),
  tick_quiet-IsValid now (record s { signals = map (update_signal now) s.signals })
      (update-IsValid now s v),
)
