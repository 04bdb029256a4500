-- ===== src/Throttle/Defs.antt =====
-- The scaler and its operations, clause by clause.
use sprawler.Common.{
  ℕ, zero, suc, ◌+◌, ◌-◌, ◌/◌, String, Bool, true, false, not, ◌&&◌, Option, none, some, List, [],
  ◌∷◌, map, ltb, leb, if◌then◌else◌, any_of,
}
use sprawler.Common.Int.{ℤ, pos, sub_ℕ, ◌+ℤ◌}

-- In the source's order: a smaller action is a more aggressive one.
pub data ScaleAction : Type 0 where
  scale_halve scale_reduce_one : ScaleAction

-- `GetCount` is read at an instant.
pub record BackpressureSignal : Type 0 where
  pub name : String
  pub get_count : ℕ → ℕ
  pub action : ScaleAction
  pub cooldown_period : ℕ

pub record SignalState : Type 0 where
  pub signal : BackpressureSignal
  pub open signal use *
  pub last_count : ℕ
  pub last_seen : Option ℕ

pub record ScalerStats : Type 0 where
  pub scale_down_events : ℕ
  pub scale_up_events : ℕ
  pub min_limit : ℕ
  pub time_reduced : ℤ

-- `sem` is the number of tokens in the channel, whose capacity is `max_workers`.
pub record ThrottleScaler : Type 0 where
  pub max_workers : ℕ
  pub current_limit : ℕ
  pub live_tokens : ℕ
  pub sem : ℕ
  pub signals : List SignalState
  pub scale_down_events : ℕ
  pub scale_up_events : ℕ
  pub min_limit : ℕ
  pub reduced_since : Option ℕ
  pub time_reduced : ℤ

unfoldable pub new_signal_state : ℕ → BackpressureSignal → SignalState
new_signal_state now sig = record { signal = sig; last_count = sig.get_count now; last_seen = none }

unfoldable pub at_least_one : ℕ → ℕ
at_least_one n = if ltb n 1 then 1 else n

-- The loop that fills the channel leaves it with `max_workers` tokens.
unfoldable pub new_throttle_scaler : ℕ → ℕ → List BackpressureSignal → ThrottleScaler
unfolding at_least_one new_signal_state
new_throttle_scaler now max_workers signals = record {
  max_workers = at_least_one max_workers;
  current_limit = at_least_one max_workers;
  live_tokens = at_least_one max_workers;
  sem = at_least_one max_workers;
  signals = map (new_signal_state now) signals;
  scale_down_events = 0;
  scale_up_events = 0;
  min_limit = at_least_one max_workers;
  reduced_since = none;
  time_reduced = pos 0;
}

-- `none`: the channel is empty, and the caller blocks.
unfoldable pub acquire : ThrottleScaler → Option ThrottleScaler
acquire s = if ltb 0 s.sem then some (record s { sem = s.sem - 1 }) else none

-- `none`: the channel is full, and the send blocks. Run alone, the compare-and-swap succeeds.
unfoldable pub release : ThrottleScaler → Option ThrottleScaler
release s =
    if ltb s.current_limit s.live_tokens
    then some (record s { live_tokens = s.live_tokens - 1 })
    else if ltb s.sem s.max_workers
    then some (record s { sem = s.sem + 1 })
    else none

unfoldable pub drain_token : ThrottleScaler → ThrottleScaler
drain_token s =
    if ltb 0 s.sem then record s { sem = s.sem - 1; live_tokens = s.live_tokens - 1 } else s

unfoldable pub drain_tokens : ℕ → ThrottleScaler → ThrottleScaler
drain_tokens zero s = s
drain_tokens (suc n) s = drain_tokens n (drain_token s)

unfoldable pub scale_down : ℕ → ℕ → ThrottleScaler → ThrottleScaler
scale_down from to s = drain_tokens (from - to) (record s { current_limit = to })

unfoldable pub add_token : ThrottleScaler → ThrottleScaler
add_token s =
    if ltb s.sem s.max_workers
    then record s { sem = s.sem + 1; live_tokens = s.live_tokens + 1 }
    else s

unfoldable pub add_tokens : ℕ → ThrottleScaler → ThrottleScaler
add_tokens zero s = s
add_tokens (suc n) s = add_tokens n (add_token s)

unfoldable pub scale_up : ℕ → ℕ → ThrottleScaler → ThrottleScaler
scale_up from to s = add_tokens (to - from) (record s { current_limit = to })

-- `delta > 0` for this signal at this tick.
unfoldable pub signal_fires : ℕ → SignalState → Bool
signal_fires now st = ltb st.last_count (st.get_count now)

unfoldable pub update_signal : ℕ → SignalState → SignalState
unfolding signal_fires
update_signal now st = record st {
  last_count = st.get_count now;
  last_seen = if signal_fires now st then some now else st.last_seen;
}

unfoldable pub action_lt : ScaleAction → ScaleAction → Bool
action_lt scale_halve scale_reduce_one = true
action_lt _ _ = false

-- The scan's `bestAction`, from the default down the list.
unfoldable pub scan_action : ℕ → ScaleAction → List SignalState → ScaleAction
unfolding signal_fires action_lt
scan_action now best [] = best
scan_action now best (st ∷ sts) =
    scan_action now (if signal_fires now st && action_lt st.action best then st.action else best)
      sts

unfoldable pub scaled_limit : ScaleAction → ℕ → ℕ
unfolding at_least_one
scaled_limit scale_halve current = at_least_one (current / 2)
scaled_limit scale_reduce_one current = at_least_one (current - 1)

unfoldable pub since_or : Option ℕ → ℕ → Option ℕ
since_or none now = some now
since_or (some t) now = some t

-- The statistics that a scale-down updates.
unfoldable pub note_reduced : ℕ → ℕ → ThrottleScaler → ThrottleScaler
unfolding since_or
note_reduced now limit s = record s {
  scale_down_events = s.scale_down_events + 1;
  min_limit = if ltb limit s.min_limit then limit else s.min_limit;
  reduced_since = since_or s.reduced_since now;
}

unfoldable pub reduce_to : ℕ → ℕ → ThrottleScaler → ThrottleScaler
reduce_to now limit s =
    if ltb limit s.current_limit
    then note_reduced now limit (scale_down s.current_limit limit s)
    else s

-- The branch in which some signal fired.
unfoldable pub tick_fired : ℕ → ScaleAction → ThrottleScaler → ThrottleScaler
tick_fired now best s = reduce_to now (scaled_limit best s.current_limit) s

-- `!lastSeen.IsZero() && now.Sub(lastSeen) < CooldownPeriod`, with the subtraction moved over.
unfoldable pub cooling : ℕ → SignalState → Bool
cooling now st = elim st.last_seen [
  | none ↦ false
  | some seen ↦ ltb now (seen + st.cooldown_period)
]

unfoldable pub ever_fired : SignalState → Bool
ever_fired st = elim st.last_seen [ none ↦ false | some seen ↦ true ]

unfoldable pub reset_signal : ℕ → SignalState → SignalState
reset_signal now st = record st {
  last_seen = elim st.last_seen [ none ↦ none | some seen ↦ some now ];
}

unfoldable pub close_reduced : ℕ → ℕ → ThrottleScaler → ThrottleScaler
close_reduced now limit s =
    if leb s.max_workers limit
    then elim s.reduced_since [
      | none ↦ s
      | some since ↦ record s {
        time_reduced = s.time_reduced +ℤ sub_ℕ now since;
        reduced_since = none;
      }
    ]
    else s

unfoldable pub reset_signals : ℕ → ThrottleScaler → ThrottleScaler
unfolding reset_signal
reset_signals now s = record s { signals = map (reset_signal now) s.signals }

-- What follows the scale-up: its statistics, and the cooldown timers set to this tick.
unfoldable pub note_raised : ℕ → ℕ → ThrottleScaler → ThrottleScaler
unfolding close_reduced reset_signals
note_raised now limit s =
    reset_signals now
      (close_reduced now limit (record s { scale_up_events = s.scale_up_events + 1 }))

unfoldable pub raise_to : ℕ → ℕ → ThrottleScaler → ThrottleScaler
raise_to now limit s = note_raised now limit (scale_up s.current_limit limit s)

unfoldable pub raised_limit : ThrottleScaler → ℕ
raised_limit s =
    if ltb s.max_workers (s.current_limit + 1) then s.max_workers else s.current_limit + 1

-- The step up, taken when all signals are quiet and one has fired before.
unfoldable pub tick_up : ℕ → ThrottleScaler → ThrottleScaler
tick_up now s = raise_to now (raised_limit s) s

unfoldable pub tick_quiet : ℕ → ThrottleScaler → ThrottleScaler
unfolding cooling ever_fired
tick_quiet now s =
    if leb s.max_workers s.current_limit
    then s
    else if not (any_of (cooling now) s.signals) && any_of ever_fired s.signals
    then tick_up now s
    else s

unfoldable pub tick : ℕ → ThrottleScaler → ThrottleScaler
unfolding signal_fires update_signal scan_action
tick now s =
    let t = record s { signals = map (update_signal now) s.signals } in
    if any_of (signal_fires now) s.signals
    then tick_fired now (scan_action now scale_reduce_one s.signals) t
    else tick_quiet now t

unfoldable pub stats : ℕ → ThrottleScaler → ScalerStats
stats now s = record {
  scale_down_events = s.scale_down_events;
  scale_up_events = s.scale_up_events;
  min_limit = s.min_limit;
  time_reduced = elim s.reduced_since [
    | none ↦ s.time_reduced
    | some since ↦ s.time_reduced +ℤ sub_ℕ now since
  ];
}

-- What `monitorLoop` selects on, in the order in which it happens.
pub data MonitorEvent : Type 0 where
  stopped : MonitorEvent
  ticked : ℕ → MonitorEvent

unfoldable pub monitor_loop : List MonitorEvent → ThrottleScaler → ThrottleScaler
monitor_loop [] s = s
monitor_loop (stopped ∷ es) s = s
monitor_loop (ticked now ∷ es) s = monitor_loop es (tick now s)
