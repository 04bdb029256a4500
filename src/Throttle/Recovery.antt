-- ===== src/Throttle/Recovery.antt =====
-- How a quiet scaler of throttle_scaler.go climbs back to its maximum, one step a tick.
use sprawler.Common.{
  ℕ, zero, suc, ◌+◌, ◌-◌, ◌≤◌, ◌<◌, min, ◌≡◌, refl, ◌∙◌, sym, subst, true, false, none, some, List,
  [], ◌∷◌, map, arith, ltb, ltb→lt, if◌then◌else◌, any_of, All, Bool-cases, inl, inr,
}
use sprawler.Throttle.Defs.{
  ThrottleScaler, SignalState, MonitorEvent, ticked, signal_fires, cooling, ever_fired,
  reset_signal, update_signal, note_raised, raise_to, tick_up, tick_quiet, tick, monitor_loop,
}
use sprawler.Throttle.Tokens.{filled}
use sprawler.Throttle.Limits.{raised_limit-eq, scale_up-eq}

-- The signal's count no longer moves, and its cooldown fits between two ticks.
abbrev pub IsQuiet : ℕ → SignalState → Type 0
IsQuiet period st = ((t : ℕ) → st.get_count t ≡ st.last_count) × (st.cooldown_period ≤ period)

-- The cooldown is over at `now`.
abbrev pub IsRested : ℕ → SignalState → Type 0
IsRested now st = elim st.last_seen [
  | none ↦ Unit {0}
  | some seen ↦ seen + st.cooldown_period ≤ now
]

update_signal-eq :
    (now period : ℕ) (st : SignalState) → IsQuiet period st → update_signal now st ≡ st
unfolding update_signal
update_signal-eq now period st q = ground (arith, q.0 now)

map-update_signal :
    (now period : ℕ) (sts : List SignalState)
    → All (IsQuiet period) sts
    → map (update_signal now) sts ≡ sts
map-update_signal now period [] q = refl
map-update_signal now period (st ∷ sts) q =
    rw (update_signal-eq now period st q.0, map-update_signal now period sts q.1)

none_fires :
    (now period : ℕ) (sts : List SignalState)
    → All (IsQuiet period) sts
    → any_of (signal_fires now) sts ≡ false
unfolding signal_fires
none_fires now period [] q = refl
none_fires now period (st ∷ sts) q = ground (arith, q.0.0 now, none_fires now period sts q.1)

none_cooling :
    (now : ℕ) (sts : List SignalState) → All (IsRested now) sts → any_of (cooling now) sts ≡ false
unfolding cooling
none_cooling now [] r = refl
none_cooling now (st ∷ sts) r = ground (arith, r.0, none_cooling now sts r.1)

-- A tick of a quiet, rested scaler below its maximum is the step up.
tick_rested :
    (now period : ℕ) (s : ThrottleScaler)
    → All (IsQuiet period) s.signals
    → All (IsRested now) s.signals
    → any_of ever_fired s.signals ≡ true
    → tick now s ≡ (if ltb s.current_limit s.max_workers then tick_up now s else s)
unfolding tick tick_quiet
tick_rested now period s q r f =
    rw (none_fires now period s.signals q, map-update_signal now period s.signals q)
      (ground (arith, none_cooling now s.signals r))

reset-IsQuiet :
    (now period : ℕ) (sts : List SignalState)
    → All (IsQuiet period) sts
    → All (IsQuiet period) (map (reset_signal now) sts)
unfolding reset_signal
reset-IsQuiet now period [] q = tt
reset-IsQuiet now period (st ∷ sts) q = (q.0, reset-IsQuiet now period sts q.1)

reset-IsRested :
    (now period : ℕ) (sts : List SignalState)
    → All (IsQuiet period) sts
    → All (IsRested (now + period)) (map (reset_signal now) sts)
unfolding reset_signal
reset-IsRested now period [] q = tt
reset-IsRested now period (st ∷ sts) q = (ground (arith, q.0), reset-IsRested now period sts q.1)

reset_fired :
    (now : ℕ) (sts : List SignalState)
    → any_of ever_fired (map (reset_signal now) sts) ≡ any_of ever_fired sts
unfolding reset_signal ever_fired
reset_fired now [] = refl
reset_fired now (st ∷ sts) = ground (arith, reset_fired now sts)

IsRested-later :
    (now period : ℕ) (sts : List SignalState)
    → All (IsRested now) sts
    → All (IsRested (now + period)) sts
IsRested-later now period [] r = tt
IsRested-later now period (st ∷ sts) r = (ground (arith, r.0), IsRested-later now period sts r.1)

note_raised_fields :
    (now limit : ℕ) (s : ThrottleScaler)
    → ((note_raised now limit s).current_limit ≡ s.current_limit)
      × ((note_raised now limit s).max_workers ≡ s.max_workers)
      × ((note_raised now limit s).signals ≡ map (reset_signal now) s.signals)
unfolding note_raised
note_raised_fields now limit s = ground arith

tick_up_fields :
    (now : ℕ) (s : ThrottleScaler)
    → s.current_limit < s.max_workers
    → ((tick_up now s).current_limit ≡ s.current_limit + 1)
      × ((tick_up now s).max_workers ≡ s.max_workers)
      × ((tick_up now s).signals ≡ map (reset_signal now) s.signals)
unfolding tick_up raise_to
tick_up_fields now s h =
    rw (raised_limit-eq s h, scale_up-eq s.current_limit (s.current_limit + 1) s)
      (note_raised_fields now (s.current_limit + 1) (
        filled (s.current_limit + 1 - s.current_limit)
          (record s { current_limit = s.current_limit + 1 })))

-- `n` ticks, one every `period`.
unfoldable pub tick_train : ℕ → ℕ → ℕ → List MonitorEvent
tick_train period now zero = []
tick_train period now (suc n) = ticked now ∷ tick_train period (now + period) n

-- What a scaler needs to climb at the tick of `now` and at every later one.
pub record CanClimb (period now : ℕ) (s : ThrottleScaler) : Type 0 where
  pub valid : s.current_limit ≤ s.max_workers
  pub quiet : All (IsQuiet period) s.signals
  pub rested : All (IsRested now) s.signals
  pub fired : any_of ever_fired s.signals ≡ true

tick_up-CanClimb :
    (period now : ℕ) (s : ThrottleScaler)
    → CanClimb period now s
    → s.current_limit < s.max_workers
    → CanClimb period (now + period) (tick_up now s)
tick_up-CanClimb period now s c h =
    let (limit, top, sigs) = tick_up_fields now s h in
    record {
      valid = omega arith;
      quiet = subst (All (IsQuiet period)) (sym sigs) (reset-IsQuiet now period s.signals c.quiet);
      rested =
          subst (All (IsRested (now + period))) (sym sigs)
            (reset-IsRested now period s.signals c.quiet);
      fired = rw sigs (reset_fired now s.signals ∙ c.fired);
    }

later-CanClimb :
    (period now : ℕ) (s : ThrottleScaler) → CanClimb period now s → CanClimb period (now + period) s
later-CanClimb period now s c = record {
  valid = c.valid;
  quiet = c.quiet;
  rested = IsRested-later now period s.signals c.rested;
  fired = c.fired;
}

-- When no count moves any more, every cooldown is over and fits between two ticks, and some
-- signal has fired before, `n` ticks raise the limit by `n`, up to the maximum and no further.
pub monitor_loop-recovers :
    (n period now : ℕ) (s : ThrottleScaler)
    → CanClimb period now s
    → (monitor_loop (tick_train period now n) s).current_limit
      ≡ min s.max_workers (s.current_limit + n)
unfolding monitor_loop tick_train
monitor_loop-recovers zero period now s c = omega (arith, c.valid)
monitor_loop-recovers (suc n) period now s c =
    elim (Bool-cases (ltb s.current_limit s.max_workers)) [
      | inl below ↦
          let (limit, top, sigs) = tick_up_fields now s (ltb→lt _ _ below) in
          subst After (sym (step ∙ rw below)) (
            monitor_loop-recovers n period (now + period) (tick_up now s)
              (tick_up-CanClimb period now s c (ltb→lt _ _ below))
            ∙ omega arith)
      | inr top ↦ subst After (sym (step ∙ rw top)) (
          monitor_loop-recovers n period (now + period) s (later-CanClimb period now s c)
          ∙ ground (arith, c.valid))
    ]
  where
    After : ThrottleScaler → Type 0
    After t =
        (monitor_loop (tick_train period (now + period) n) t).current_limit
        ≡ min s.max_workers (s.current_limit + suc n)

    step : tick now s ≡ (if ltb s.current_limit s.max_workers then tick_up now s else s)
    step = tick_rested now period s c.quiet c.rested c.fired
