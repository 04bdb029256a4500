-- ===== src/Throttle/Tokens.antt =====
-- The semaphore of throttle_scaler.go: how many tokens the drain and fill loops move, and how a
-- stream of releases brings the live tokens down to the limit.
use sprawler.Common.{
  ℕ, zero, suc, ◌+◌, ◌-◌, ◌≤◌, ◌<◌, min, max, ◌≡◌, refl, ◌∙◌, Option, some, arith, ltb,
  if◌then◌else◌,
}
use mathlib.Core.Option
use sprawler.Throttle.Defs.{
  ThrottleScaler, acquire, release, drain_token, drain_tokens, add_token, add_tokens, scale_up,
}

abbrev pub drained : ℕ → ThrottleScaler → ThrottleScaler
drained n s = record s { sem = s.sem - n; live_tokens = s.live_tokens - min n s.sem }

abbrev pub filled : ℕ → ThrottleScaler → ThrottleScaler
filled n s = record s {
  sem = s.sem + min n (s.max_workers - s.sem);
  live_tokens = s.live_tokens + min n (s.max_workers - s.sem);
}

drained-drain_token : (n : ℕ) (s : ThrottleScaler) → drained n (drain_token s) ≡ drained (suc n) s
unfolding drain_token
drained-drain_token n s = ground arith

pub drain_tokens-eq : (n : ℕ) (s : ThrottleScaler) → drain_tokens n s ≡ drained n s
unfolding drain_tokens
drain_tokens-eq zero s = ground arith
drain_tokens-eq (suc n) s = drain_tokens-eq n (drain_token s) ∙ drained-drain_token n s

filled-add_token : (n : ℕ) (s : ThrottleScaler) → filled n (add_token s) ≡ filled (suc n) s
unfolding add_token
filled-add_token n s = ground arith

pub add_tokens-eq : (n : ℕ) (s : ThrottleScaler) → add_tokens n s ≡ filled n s
unfolding add_tokens
add_tokens-eq zero s = ground arith
add_tokens-eq (suc n) s = add_tokens-eq n (add_token s) ∙ filled-add_token n s

-- The tokens that workers hold, when no operation is under way.
abbrev pub held : ThrottleScaler → ℕ
held s = s.live_tokens - s.sem

-- No token is in the channel beyond the live ones or the capacity.
pub record IsBalanced (s : ThrottleScaler) : Type 0 where
  pub sem_live : s.sem ≤ s.live_tokens
  pub sem_max : s.sem ≤ s.max_workers
  pub limit_max : s.current_limit ≤ s.max_workers

abbrev pub released : ThrottleScaler → ThrottleScaler
released s =
    if ltb s.current_limit s.live_tokens
    then record s { live_tokens = s.live_tokens - 1 }
    else record s { sem = s.sem + 1 }

release-held : (s : ThrottleScaler) → IsBalanced s → 0 < held s → release s ≡ some (released s)
unfolding release
release-held s b h = ground arith

released-IsBalanced : (s : ThrottleScaler) → IsBalanced s → 0 < held s → IsBalanced (released s)
released-IsBalanced s b h = ground arith

released-held : (s : ThrottleScaler) → IsBalanced s → 0 < held s → held (released s) + 1 ≡ held s
released-held s b h = ground arith

-- `n` workers give their tokens back, one after the other; `none`: one of them blocks.
unfoldable pub release_all : ℕ → ThrottleScaler → Option ThrottleScaler
release_all zero s = some s
release_all (suc n) s = Option.bind (release s) (release_all n)

-- While the monitor does nothing, `n` workers that hold tokens of a balanced scaler can all give
-- them back: none blocks, the scaler stays balanced, `n` fewer tokens are held, and the live
-- tokens go down by one for each of them until they reach the limit.
pub release_all-total :
    (n : ℕ) (s : ThrottleScaler)
    → IsBalanced s
    → n ≤ held s
    → (t : ThrottleScaler) × (release_all n s ≡ some t)
      × IsBalanced t
      × (held t + n ≡ held s)
      × (t.current_limit ≡ s.current_limit)
      × (t.live_tokens ≡ max (min s.live_tokens s.current_limit) (s.live_tokens - n))
unfolding release_all Option.bind
release_all-total zero s b h = (s, refl, b, omega arith, refl, omega arith)
release_all-total (suc n) s b h =
    let first = release-held s b (omega arith) in
    let b' = released-IsBalanced s b (omega arith) in
    let fewer = released-held s b (omega arith) in
    let (t, e, bt, ht, lt, live) = release_all-total n (released s) b' (omega arith) in
    (t, rw (first, release_all) e, bt, omega arith, ground arith, ground arith)

-- The scale-up adds its token whatever the workers hold: when they hold the new limit or more,
-- left from before a scale-down, and the channel has room for another, a further worker still
-- acquires, and more tokens than the new limit are held.
pub scale_up-overshoots :
    (s : ThrottleScaler) (limit : ℕ)
    → IsBalanced s
    → s.current_limit < limit
    → limit ≤ held s
    → s.sem < s.max_workers
    → (t : ThrottleScaler) × (acquire (scale_up s.current_limit limit s) ≡ some t)
      × (t.current_limit ≡ limit)
      × (limit < held t)
unfolding acquire scale_up
scale_up-overshoots s limit b up over room =
    let n : ℕ = limit - s.current_limit in
    let u = filled n (record s { current_limit = limit }) in
    let e = add_tokens-eq n (record s { current_limit = limit }) in
    (record u { sem = u.sem - 1 }, rw e (ground arith), refl, ground arith)
