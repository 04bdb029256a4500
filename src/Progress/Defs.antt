-- ===== src/Progress/Defs.antt =====
-- internal/metrics: the timing of a run (run_metrics.go), and the snapshot that the reporter takes at
-- a tick (types.go, progress_reporter.go). Instants are nanoseconds, and none is the zero
-- `time.Time`; a source is a function of the instant at which it is read. Float64 and its
-- operations are parameters.
use sprawler.Common.{ℕ, ◌-◌, ◌^◌, String, Bool, Option, none, some, List, [], ◌∷◌}
use sprawler.Common.Int.{ℤ, pos, sub_ℕ}
use sprawler.Api.Metrics.{ApiMetrics}
use sprawler.Storage.Files.{StorageStats}

pub record RunMetrics : Type 0 where
  pub name : String
  pub start_time : Option ℕ
  pub end_time : Option ℕ
  pub api_stats : Option (ℕ → ApiMetrics)
  pub storage_stats : Option (ℕ → StorageStats)
  pub storage_baseline : StorageStats

abbrev pub zero_stats : StorageStats
zero_stats = record { processed_items = 0; failed_items = 0; batches_written = 0; queue_length = 0 }

abbrev pub RunMetricsOption : Type 0
RunMetricsOption = RunMetrics → RunMetrics

unfoldable pub apply_options : {A : Type 0} → List (A → A) → A → A
apply_options [] m = m
apply_options (opt ∷ opts) m = apply_options opts (opt m)

unfoldable pub new_run_metrics : String → List RunMetricsOption → RunMetrics
unfolding apply_options
new_run_metrics name opts = apply_options opts (record {
  name = name;
  start_time = none;
  end_time = none;
  api_stats = none;
  storage_stats = none;
  storage_baseline = zero_stats;
})

unfoldable pub with_api_stats : (ℕ → ApiMetrics) → RunMetricsOption
with_api_stats provider m = record m { api_stats = some provider }

unfoldable pub with_storage_stats : (ℕ → StorageStats) → RunMetricsOption
with_storage_stats fn m = record m { storage_stats = some fn }

abbrev pub sampled {ℓ} : {A : Type ℓ} → Option (ℕ → A) → ℕ → Option A
sampled none t = none
sampled (some f) t = some (f t)

abbrev pub stats_or : Option StorageStats → StorageStats → StorageStats
stats_or none s = s
stats_or (some s) _ = s

-- `Start`: the baseline is read before the clock.
unfoldable pub start_run : ℕ → ℕ → RunMetrics → RunMetrics
start_run read_at now m = record m {
  storage_baseline = stats_or (sampled m.storage_stats read_at) m.storage_baseline;
  start_time = some now;
}

unfoldable pub finish_run : ℕ → RunMetrics → RunMetrics
finish_run now m = record m { end_time = some now }

-- `t.Sub(u)`, where the zero time lies further back than a duration can tell.
abbrev pub since : ℕ → Option ℕ → ℤ
since t none = pos (2 ^ 63 - 1)
since t (some u) = sub_ℕ t u

unfoldable pub duration_of : ℕ → RunMetrics → ℤ
duration_of now m = elim m.end_time [
  | none ↦ since now m.start_time
  | some finished ↦ since finished m.start_time
]

-- The differences of counts, which are signed.
pub record StorageDelta : Type 0 where
  pub processed_items : ℤ
  pub failed_items : ℤ
  pub batches_written : ℤ
  pub queue_length : ℤ

abbrev stats_delta : StorageStats → StorageStats → StorageDelta
stats_delta current base = record {
  processed_items = sub_ℕ current.processed_items base.processed_items;
  failed_items = sub_ℕ current.failed_items base.failed_items;
  batches_written = sub_ℕ current.batches_written base.batches_written;
  queue_length = pos current.queue_length;
}

unfoldable pub storage_stats_delta : ℕ → RunMetrics → StorageDelta
storage_stats_delta now m = elim m.storage_stats [
  | none ↦ record {
    processed_items = pos 0;
    failed_items = pos 0;
    batches_written = pos 0;
    queue_length = pos 0;
  }
  | some read ↦ stats_delta (read now) m.storage_baseline
]

-- What the code uses of float64: conversions from an int64 and of a duration to seconds, division
-- and product, the tests with zero, the conversion to a duration, `%.1f`, and a duration's
-- whole hours, minutes and seconds as `int(d.Hours())` has them.
pub record Floats (F : Type 0) : Type 0 where
  pub of_int : ℤ → F
  pub in_seconds : ℤ → F
  pub divide : F → F → F
  pub times : F → F → F
  pub is_zero : F → Bool
  pub is_positive : F → Bool
  pub to_duration : F → ℤ
  pub fixed_one : F → String
  pub whole_hours : ℤ → ℤ
  pub whole_minutes : ℤ → ℤ
  pub whole_seconds : ℤ → ℤ

pub record NamedCounter : Type 0 where
  pub label : String
  pub counter : ℕ → ℤ

pub record LabeledValue : Type 0 where
  pub label : String
  pub value : ℤ

pub record SiteProgressSnapshot : Type 0 where
  pub completed : ℤ
  pub failed : ℤ
  pub in_flight : ℤ
  pub discovered : ℤ
  pub total : ℤ

pub record ScalerSnapshot : Type 0 where
  pub current : ℤ
  pub max_workers : ℤ
  pub scale_downs : ℤ

pub record ChannelStat : Type 0 where
  pub name : String
  pub len : ℕ
  pub capacity : ℕ

pub record ProgressSnapshot (F : Type 0) : Type 0 where
  pub name : String
  pub elapsed : ℤ
  pub site_progress : Option SiteProgressSnapshot
  pub entities : List LabeledValue
  pub skips : List LabeledValue
  pub scaler : Option ScalerSnapshot
  pub workers : Option ℤ
  pub rate : Option F
  pub eta : Option ℤ
  pub api : Option ApiMetrics
  pub storage : Option StorageStats
  pub channels : List ChannelStat

-- What the goroutine reads at a tick, and writes: the window of the rate.
pub record ProgressReporter : Type 0 where
  pub metrics : RunMetrics
  pub site_progress : Option (ℕ → SiteProgressSnapshot)
  pub entities : List NamedCounter
  pub skips : List NamedCounter
  pub scaler : Option (ℕ → ScalerSnapshot)
  pub active_workers : Option (ℕ → ℤ)
  pub channel_stats : Option (ℕ → List ChannelStat)
  pub prev_completed : ℤ
  pub prev_time : Option ℕ

abbrev pub ReporterOption : Type 0
ReporterOption = ProgressReporter → ProgressReporter

unfoldable pub new_progress_reporter : RunMetrics → List ReporterOption → ProgressReporter
unfolding apply_options
new_progress_reporter metrics opts = apply_options opts (record {
  metrics = metrics;
  site_progress = none;
  entities = [];
  skips = [];
  scaler = none;
  active_workers = none;
  channel_stats = none;
  prev_completed = pos 0;
  prev_time = none;
})

unfoldable pub with_site_progress : (ℕ → SiteProgressSnapshot) → ReporterOption
with_site_progress fn r = record r { site_progress = some fn }

unfoldable pub with_entities : List NamedCounter → ReporterOption
with_entities counters r = record r { entities = counters }

unfoldable pub with_skips : List NamedCounter → ReporterOption
with_skips counters r = record r { skips = counters }

unfoldable pub with_scaler : (ℕ → ScalerSnapshot) → ReporterOption
with_scaler fn r = record r { scaler = some fn }

unfoldable pub with_active_workers : (ℕ → ℤ) → ReporterOption
with_active_workers w r = record r { active_workers = some w }

unfoldable pub with_channel_stats : (ℕ → List ChannelStat) → ReporterOption
with_channel_stats fn r = record r { channel_stats = some fn }
