-- ===== src/Throttle/Signals.antt =====
-- Which action a tick of throttle_scaler.go takes.
use sprawler.Common.{
  ℕ, ◌≡◌, refl, Bool, true, false, ◌&&◌, List, [], ◌∷◌, arith, if◌then◌else◌, any_of,
}
use sprawler.Throttle.Defs.{
  SignalState, ScaleAction, scale_halve, scale_reduce_one, signal_fires, scan_action,
}

abbrev pub halves : ScaleAction → Bool
halves scale_halve = true
halves scale_reduce_one = false

-- Some signal with the action to halve fires at this tick.
abbrev pub halving_fires : ℕ → List SignalState → Bool
halving_fires now = any_of (λ st. signal_fires now st && halves st.action)

scan_action-halve :
    (now : ℕ) (sts : List SignalState) → scan_action now scale_halve sts ≡ scale_halve
unfolding scan_action
scan_action-halve now [] = refl
scan_action-halve now (st ∷ sts) = ground (arith, scan_action-halve now sts)

-- The scan picks the most aggressive action: to halve exactly when a signal with that action
-- fires, wherever it stands in the list.
pub scan_action-eq :
    (now : ℕ) (sts : List SignalState)
    → scan_action now scale_reduce_one sts
      ≡ (if halving_fires now sts then scale_halve else scale_reduce_one)
unfolding scan_action
scan_action-eq now [] = refl
scan_action-eq now (st ∷ sts) = ground (arith, scan_action-halve now sts, scan_action-eq now sts)
