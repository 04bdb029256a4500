-- ===== src/Throttle/Interleaving.antt =====
-- The atomic steps of throttle_scaler.go: `Acquire`, `Release` with its two loads and its
-- compare-and-swap, and the monitor's `scaleDown` and `scaleUp`, of any number of workers and the
-- one monitor goroutine, interleaved in any order.
use sprawler.Common.{ℕ, zero, suc, ◌+◌, ◌-◌, ◌≤◌, ◌<◌, ◌≡◌, ◌≢◌, refl, List, [], ◌∷◌, arith, total}

-- The words that the goroutines share; `cap` is the channel's capacity, `maxWorkers`.
pub record Shared : Type 0 where
  pub limit : ℕ
  pub live : ℕ
  pub sem : ℕ

-- Where a worker stands: without a token, at work with one, or within `Release`, with what it has
-- loaded.
pub data Worker : Type 0 where
  idle holding : Worker
  loaded_live : ℕ → Worker
  loaded_limit : ℕ → ℕ → Worker

-- Where the monitor stands: outside its loops, before one of `n` rounds, or between a round's
-- channel operation and its counter update.
pub data Monitor : Type 0 where
  resting : Monitor
  draining drained filling filled : ℕ → Monitor

pub data WorkerStep (cap : ℕ) (m : Shared) : Worker → Shared → Worker → Type 0 where
  acquire : 0 < m.sem → WorkerStep cap m idle (record m { sem = m.sem - 1 }) holding
  load_live : WorkerStep cap m holding m (loaded_live m.live)
  load_limit : {l : ℕ} → WorkerStep cap m (loaded_live l) m (loaded_limit l m.limit)
  cas_win :
      {l k : ℕ}
      → k < l
      → m.live ≡ l
      → WorkerStep cap m (loaded_limit l k) (record m { live = m.live - 1 }) idle
  cas_fail : {l k : ℕ} → k < l → m.live ≢ l → WorkerStep cap m (loaded_limit l k) m holding
  give_back :
      {l k : ℕ}
      → l ≤ k
      → m.sem < cap
      → WorkerStep cap m (loaded_limit l k) (record m { sem = m.sem + 1 }) idle

pub data MonitorStep (cap : ℕ) (m : Shared) : Monitor → Shared → Monitor → Type 0 where
  store_down :
      (to : ℕ)
      → 1 ≤ to
      → to < m.limit
      → MonitorStep cap m resting (record m { limit = to }) (draining (m.limit - to))
  take_token :
      {n : ℕ}
      → 0 < m.sem
      → MonitorStep cap m (draining (suc n)) (record m { sem = m.sem - 1 }) (drained n)
  none_to_take : {n : ℕ} → m.sem ≡ 0 → MonitorStep cap m (draining (suc n)) m (draining n)
  count_down : {n : ℕ} → MonitorStep cap m (drained n) (record m { live = m.live - 1 }) (draining n)
  drain_done : {n : ℕ} → n ≡ 0 → MonitorStep cap m (draining n) m resting
  store_up :
      (to : ℕ)
      → m.limit < to
      → to ≤ cap
      → MonitorStep cap m resting (record m { limit = to }) (filling (to - m.limit))
  put_token :
      {n : ℕ}
      → m.sem < cap
      → MonitorStep cap m (filling (suc n)) (record m { sem = m.sem + 1 }) (filled n)
  no_room : {n : ℕ} → cap ≤ m.sem → MonitorStep cap m (filling (suc n)) m (filling n)
  count_up : {n : ℕ} → MonitorStep cap m (filled n) (record m { live = m.live + 1 }) (filling n)
  fill_done : {n : ℕ} → n ≡ 0 → MonitorStep cap m (filling n) m resting

-- One worker of the list moves.
pub data AnyWorker (cap : ℕ) (m m' : Shared) : List Worker → List Worker → Type 0 where
  here :
      {w w' : Worker} {ws : List Worker}
      → WorkerStep cap m w m' w'
      → AnyWorker cap m m' (w ∷ ws) (w' ∷ ws)
  there :
      {w : Worker} {ws ws' : List Worker}
      → AnyWorker cap m m' ws ws'
      → AnyWorker cap m m' (w ∷ ws) (w ∷ ws')

pub record System : Type 0 where
  pub shared : Shared
  pub monitor : Monitor
  pub workers : List Worker

pub data Step (cap : ℕ) (s : System) : System → Type 0 where
  worker :
      {m : Shared} {ws : List Worker}
      → AnyWorker cap s.shared m s.workers ws
      → Step cap s (record s { shared = m; workers = ws })
  monitor :
      {m : Shared} {p : Monitor}
      → MonitorStep cap s.shared s.monitor m p
      → Step cap s (record s { shared = m; monitor = p })

-- As `NewThrottleScaler` leaves it.
abbrev pub started : ℕ → List Worker → System
started cap ws = record {
  shared = record { limit = cap; live = cap; sem = cap };
  monitor = resting;
  workers = ws;
}

abbrev pub all_idle : ℕ → List Worker
all_idle zero = []
all_idle (suc n) = idle ∷ all_idle n

pub data Reach (cap n : ℕ) : System → Type 0 where
  start : Reach cap n (started cap (all_idle n))
  later : {s t : System} → Reach cap n s → Step cap s t → Reach cap n t

-- A worker has a token from its acquire to the end of its release.
abbrev pub holds : Worker → ℕ
holds idle = 0
holds _ = 1

-- A token taken from the channel and not yet counted down.
abbrev pub taken : Monitor → ℕ
taken (drained _) = 1
taken _ = 0

-- A token put into the channel and not yet counted up.
abbrev pub put : Monitor → ℕ
put (filled _) = 1
put _ = 0

pub record Inv (cap : ℕ) (s : System) : Type 0 where
  pub pos : 1 ≤ s.shared.limit
  pub top : s.shared.limit ≤ cap
  pub room : s.shared.sem ≤ cap
  pub conserved :
      s.shared.sem + total holds s.workers + taken s.monitor ≡ s.shared.live + put s.monitor

-- What a step of one worker does to the tokens, counted with the shared words.
record Kept (cap : ℕ) (m m' : Shared) (h h' : ℕ) : Type 0 where
  limit : m'.limit ≡ m.limit
  room : m.sem ≤ cap → m'.sem ≤ cap
  moved : m'.sem + h' + m.live ≡ m.sem + h + m'.live

WorkerStep-Kept :
    {cap : ℕ} {m m' : Shared} {w w' : Worker}
    → WorkerStep cap m w m' w'
    → Kept cap m m' (holds w) (holds w')
WorkerStep-Kept (acquire h) = omega arith
WorkerStep-Kept load_live = omega arith
WorkerStep-Kept load_limit = omega arith
WorkerStep-Kept (cas_win h e) = omega arith
WorkerStep-Kept (cas_fail h e) = omega arith
WorkerStep-Kept (give_back h r) = omega arith

AnyWorker-Kept :
    {cap : ℕ} {m m' : Shared} {ws ws' : List Worker}
    → AnyWorker cap m m' ws ws'
    → Kept cap m m' (total holds ws) (total holds ws')
AnyWorker-Kept (here st) = ground (arith, WorkerStep-Kept st)
AnyWorker-Kept (there st) = ground (arith, AnyWorker-Kept st)

MonitorStep-Inv :
    {cap : ℕ} {m m' : Shared} {p p' : Monitor} (ws : List Worker)
    → MonitorStep cap m p m' p'
    → Inv cap (record { shared = m; monitor = p; workers = ws })
    → Inv cap (record { shared = m'; monitor = p'; workers = ws })
MonitorStep-Inv ws (store_down to pos lt) v = ground (arith, v)
MonitorStep-Inv ws (take_token h) v = ground (arith, v)
MonitorStep-Inv ws (none_to_take h) v = ground (arith, v)
MonitorStep-Inv ws count_down v = ground (arith, v)
MonitorStep-Inv ws (drain_done e) v = ground (arith, v)
MonitorStep-Inv ws (store_up to lt le) v = ground (arith, v)
MonitorStep-Inv ws (put_token h) v = ground (arith, v)
MonitorStep-Inv ws (no_room h) v = ground (arith, v)
MonitorStep-Inv ws count_up v = ground (arith, v)
MonitorStep-Inv ws (fill_done e) v = ground (arith, v)

-- Every atomic step keeps the limit within its bounds, the channel within its capacity, and every
-- live token in the channel, with a worker, or in the monitor's hands.
pub Step-Inv : {cap : ℕ} {s t : System} → Step cap s t → Inv cap s → Inv cap t
Step-Inv (worker st) v = ground (arith, AnyWorker-Kept st)
Step-Inv {s} (monitor st) v = MonitorStep-Inv s.workers st v

total-all_idle : (n : ℕ) → total holds (all_idle n) ≡ 0
total-all_idle zero = refl
total-all_idle (suc n) = omega (arith, total-all_idle n)

Reach-Inv : {cap n : ℕ} {s : System} → 1 ≤ cap → Reach cap n s → Inv cap s
Reach-Inv {n} h start = ground (arith, total-all_idle n)
Reach-Inv h (later r st) = Step-Inv st (Reach-Inv h r)

-- In every reachable state of `n` workers and the monitor, whatever the order of their atomic
-- steps: the limit lies between one and the maximum, the channel never exceeds its capacity, and
-- while the monitor is outside its loops the tokens in the channel and those that workers hold
-- are exactly the live ones.
pub tokens_conserved :
    {cap n : ℕ} {s : System}
    → 1 ≤ cap
    → Reach cap n s
    → (1 ≤ s.shared.limit)
      × (s.shared.limit ≤ cap)
      × (s.shared.sem ≤ cap)
      × (s.monitor ≡ resting → s.shared.sem + total holds s.workers ≡ s.shared.live)
tokens_conserved h r = ground (arith, Reach-Inv h r)
