-- ===== src/Progress/Snapshot.antt =====
-- `buildSnapshot` and `computeWindowedRate` of internal/metrics/progress_reporter.go.
use sprawler.Common.{
  ℕ, suc, ◌+◌, ◌-◌, ◌%◌, ◌^◌, Bool, Option, none, some, List, [], ◌∷◌, ltb, if◌then◌else◌,
}
use sprawler.Common.Int.{ℤ, pos, negsuc, sub_ℕ, ◌-ℤ◌}
use sprawler.Progress.Defs.{
  duration_of, sampled, Floats, NamedCounter, LabeledValue, SiteProgressSnapshot, ProgressSnapshot,
  ProgressReporter,
}

-- The reads of one snapshot are made one after the other; a time for each.
pub data Moment : Type 0 where
  elapsed_read progress_read scaler_read workers_read now_read since_start_read : Moment
  entity_read skip_read : ℕ → Moment
  api_read storage_read channels_read : Moment

-- `d.Truncate(m)`, towards zero.
abbrev pub truncate : ℕ → ℤ → ℤ
truncate m (pos n) = pos (n - n % m)
truncate m (negsuc n) = sub_ℕ 0 (suc n - suc n % m)

unfoldable pub load_counters : (ℕ → ℕ) → ℕ → List NamedCounter → List LabeledValue
load_counters at i [] = []
load_counters at i (c ∷ cs) =
    record { label = c.label; value = c.counter (at i) } ∷ load_counters at (i + 1) cs

abbrev listed {ℓ} : {A : Type ℓ} → Option (List A) → List A
listed none = []
listed (some xs) = xs

abbrev pub is_above_zero : ℤ → Bool
is_above_zero (pos n) = ltb 0 n
is_above_zero (negsuc n) = Bool.false

module _ {F : Type 0} (floats : Floats F) where
  open floats use {of_int, in_seconds, divide, times, is_zero, is_positive, to_duration}

  abbrev per_second : ℤ → ℤ → F
  per_second items elapsed =
      let s = in_seconds elapsed in if is_zero s then of_int (pos 0) else divide (of_int items) s

  -- The rate over the time since the last call, or since the start in the first call.
  unfoldable pub compute_windowed_rate : (Moment → ℕ) → ℤ → ProgressReporter → F × ProgressReporter
  compute_windowed_rate at current r = (
    elim r.prev_time [
      | none ↦ per_second current (duration_of (at since_start_read) r.metrics)
      | some before ↦ per_second (current -ℤ r.prev_completed) (sub_ℕ (at now_read) before)
    ],
    record r { prev_completed = current; prev_time = some (at now_read) },
  )

  -- The time that is left: `time.Duration(remaining / rate * float64(time.Second))`.
  abbrev pub eta_of : SiteProgressSnapshot → F → Option ℤ
  eta_of sp rate =
      if is_above_zero sp.total
      then some (
          to_duration
            (times (divide (of_int (sp.total -ℤ sp.completed)) rate) (of_int (pos (10 ^ 9)))))
      else none

  -- The rate and the time that is left are shown if the rate is positive.
  unfoldable pub rate_and_eta :
      (Moment → ℕ)
      → Option SiteProgressSnapshot
      → ProgressReporter
      → (Option F × Option ℤ) × ProgressReporter
  unfolding compute_windowed_rate
  rate_and_eta at none r = ((none, none), r)
  rate_and_eta at (some sp) r =
      let (rate, r') = compute_windowed_rate at sp.completed r in
      (if is_positive rate then (some rate, eta_of sp rate) else (none, none), r')

  unfoldable pub build_snapshot :
      (Moment → ℕ) → ProgressReporter → ProgressSnapshot F × ProgressReporter
  unfolding rate_and_eta load_counters duration_of
  build_snapshot at r =
      let progress = sampled r.site_progress (at progress_read) in
      let (shown, r') = rate_and_eta at progress r in
      (
        record {
          name = r.metrics.name;
          elapsed = truncate (10 ^ 9) (duration_of (at elapsed_read) r.metrics);
          site_progress = progress;
          entities = load_counters (λ i. at (entity_read i)) 0 r.entities;
          skips = load_counters (λ i. at (skip_read i)) 0 r.skips;
          scaler = sampled r.scaler (at scaler_read);
          workers = sampled r.active_workers (at workers_read);
          rate = shown.0;
          eta = shown.1;
          api = sampled r.metrics.api_stats (at api_read);
          storage = sampled r.metrics.storage_stats (at storage_read);
          channels = listed (sampled r.channel_stats (at channels_read));
        },
        r',
      )
