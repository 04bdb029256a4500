-- ===== src/Throttle/Tests.antt =====
-- Runs of the scaler of throttle_scaler.go, and its theorems at concrete scalers.
use sprawler.Common.{
  ℕ, ◌+◌, ◌≤◌, ◌<◌, min, ◌≡◌, refl, some, List, [], ◌∷◌, map, arith, ltb, if◌then◌else◌, total,
}
use sprawler.Common.Int.{pos, ◌+ℤ◌}
use sprawler.Throttle.Defs.{
  ThrottleScaler, BackpressureSignal, SignalState, scale_halve, scale_reduce_one,
  new_throttle_scaler, acquire, scale_down, scale_up, tick, monitor_loop, ticked, tick_fired,
  reduce_to, scaled_limit, note_reduced, drain_tokens, drain_token, tick_quiet, tick_up, raise_to,
  note_raised, add_tokens, raised_limit, add_token, ever_fired,
}
use sprawler.Throttle.Limits.{IsValid, new_throttle_scaler-IsValid, tick-IsValid}
use sprawler.Throttle.Tokens.{IsBalanced, held, release_all, release_all-total, scale_up-overshoots}
use sprawler.Throttle.Recovery.{tick_train, CanClimb, monitor_loop-recovers}
use sprawler.Throttle.Interleaving.{
  System, Reach, start, later, worker, monitor, here, acquire as takes, store_down, take_token,
  count_down, drain_done, resting, holds, holding, idle, tokens_conserved,
}

-- A count that rises by one at instant 5, and no more.
abbrev throttle_signal : BackpressureSignal
throttle_signal = record {
  name = "throttle";
  get_count = λ t. if ltb t 5 then 0 else 1;
  action = scale_halve;
  cooldown_period = 3;
}

abbrev reset_signals : BackpressureSignal
reset_signals = record {
  name = "connreset";
  get_count = λ t. if ltb t 5 then 0 else 2;
  action = scale_reduce_one;
  cooldown_period = 3;
}

abbrev fresh : ThrottleScaler
fresh = new_throttle_scaler 0 8 (reset_signals ∷ throttle_signal ∷ [])

-- The scaler above after ticks at the given instants.
fresh_after : List ℕ → ThrottleScaler
unfolding monitor_loop tick new_throttle_scaler scale_down scale_up tick_fired reduce_to
    scaled_limit note_reduced drain_tokens drain_token tick_quiet tick_up raise_to note_raised
    add_tokens raised_limit add_token ◌+ℤ◌
fresh_after ts = monitor_loop (map ticked ts) fresh

halved : (fresh_after (5 ∷ [])).current_limit ≡ 4
unfolding fresh_after
halved = refl

still_cooling : (fresh_after (5 ∷ 7 ∷ [])).current_limit ≡ 4
unfolding fresh_after
still_cooling = refl

climbs : (fresh_after (5 ∷ 8 ∷ [])).current_limit ≡ 5
unfolding fresh_after
climbs = refl

reduced_time : (fresh_after (5 ∷ 8 ∷ 11 ∷ 14 ∷ 17 ∷ [])).time_reduced ≡ pos 12
unfolding fresh_after
reduced_time = refl

new_throttle_scaler-IsValid_example : IsValid fresh × (held fresh ≡ 0)
new_throttle_scaler-IsValid_example =
    new_throttle_scaler-IsValid 0 8 (reset_signals ∷ throttle_signal ∷ [])

tick-IsValid_example : IsValid (tick 5 fresh)
tick-IsValid_example =
    tick-IsValid 5 fresh (new_throttle_scaler-IsValid 0 8 (reset_signals ∷ throttle_signal ∷ [])).0

-- Six workers of eight hold tokens when the limit has come down to four.
abbrev crowded : ThrottleScaler
crowded = record {
  max_workers = 8;
  current_limit = 4;
  live_tokens = 6;
  sem = 0;
  signals = [];
  scale_down_events = 1;
  scale_up_events = 0;
  min_limit = 4;
  reduced_since = some 5;
  time_reduced = pos 0;
}

release_all-total_example :
    (t : ThrottleScaler) × (release_all 5 crowded ≡ some t)
    × IsBalanced t
    × (held t + 5 ≡ 6)
    × (t.current_limit ≡ 4)
    × (t.live_tokens ≡ 4)
release_all-total_example = release_all-total 5 crowded (omega arith) (omega arith)

scale_up-overshoots_example :
    (t : ThrottleScaler) × (acquire (scale_up 4 5 crowded) ≡ some t)
    × (t.current_limit ≡ 5)
    × (5 < held t)
scale_up-overshoots_example =
    scale_up-overshoots crowded 5 (omega arith) (omega arith) (omega arith) (omega arith)

abbrev calm_signal : SignalState
calm_signal = record {
  signal = record {
    name = "throttle";
    get_count = λ _. 7;
    action = scale_halve;
    cooldown_period = 3;
  };
  last_count = 7;
  last_seen = some 5;
}

abbrev calm : ThrottleScaler
calm = record crowded { signals = calm_signal ∷ [] }

calm-CanClimb : CanClimb 4 9 calm
unfolding ever_fired
calm-CanClimb = record {
  valid = omega arith;
  quiet = ((λ t. refl, omega arith), tt);
  rested = (omega arith, tt);
  fired = refl;
}

monitor_loop-recovers_example : (monitor_loop (tick_train 4 9 10) calm).current_limit ≡ min 8 14
monitor_loop-recovers_example = monitor_loop-recovers 10 4 9 calm calm-CanClimb

-- One worker acquires, the monitor halves the limit and drains a token, and the worker's release
-- swallows its own.
abbrev drained_system : System
drained_system = record {
  shared = record { limit = 1; live = 1; sem = 0 };
  monitor = resting;
  workers = holding ∷ idle ∷ [];
}

drained_system-Reach : Reach 2 2 drained_system
drained_system-Reach =
    later
      (later
        (later
          (later (later start (worker (here (takes (omega arith)))))
            (monitor (store_down 1 (omega arith) (omega arith))))
          (monitor (take_token (omega arith))))
        (monitor count_down))
      (monitor (drain_done refl))

tokens_conserved_example :
    (1 ≤ 1) × (1 ≤ 2) × (0 ≤ 2) × (resting ≡ resting → 0 + total holds (holding ∷ idle ∷ []) ≡ 1)
tokens_conserved_example = tokens_conserved (omega arith) drained_system-Reach
