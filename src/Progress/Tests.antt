-- ===== src/Progress/Tests.antt =====
-- Snapshots of the tests of internal/metrics, and the theorem about a report at one of them.
use Prim.Native.String.{◌++◌}
use sprawler.Common.{
  leb, false, true, ◌⊎◌, ℕ, ◌*◌, ◌/◌, ◌%◌, ◌^◌, ◌≤◌, ◌≡◌, refl, none, some, [], ◌∷◌, length, ltb,
}
use sprawler.Common.Int.{pos, negsuc, pos_part, ◌-ℤ◌}
use sprawler.Common.Text.{itoa, itoa_on}
use sprawler.Logger.{rank, Logger, info, warn, infof, continuef}
use sprawler.Progress.Defs.{
  Floats, SiteProgressSnapshot, ProgressSnapshot, new_run_metrics, start_run, new_progress_reporter,
  with_site_progress,
}
use sprawler.Progress.Snapshot.{Moment, build_snapshot}
use sprawler.Progress.Format.{default_progress_formatter, report_lines, eta_text}
use sprawler.Progress.Report.{log_report}
use sprawler.Progress.Lines.{IsOneLine, no_break, ++-IsOneLine, itoa-IsOneLine, or_blank}
use sprawler.Progress.Logged.{in_log, log_report-lines}

-- Numbers as tenths.
abbrev tenths : Floats ℕ
tenths = record {
  of_int = λ n. pos_part n * 10;
  in_seconds = λ d. pos_part d / 10 ^ 8;
  divide = λ a b. a * 10 / b;
  times = λ a b. a * b / 10;
  is_zero = λ a. ltb a 1;
  is_positive = λ a. ltb 0 a;
  to_duration = λ a. pos (a / 10);
  fixed_one = λ a. itoa (a / 10) ++ ("." ++ itoa (a % 10));
  whole_hours = λ d. pos (pos_part d / (3600 * 10 ^ 9));
  whole_minutes = λ d. pos (pos_part d / (60 * 10 ^ 9));
  whole_seconds = λ d. pos (pos_part d / 10 ^ 9);
}

abbrev full_snapshot : ProgressSnapshot ℕ
full_snapshot = record {
  name = "test";
  elapsed = pos 0;
  site_progress = some (record {
    completed = pos 3258;
    failed = pos 3;
    in_flight = pos 407;
    discovered = pos 4000;
    total = pos 250000;
  });
  entities = record { label = "users"; value = pos 263000 } ∷ [];
  skips =
      record { label = "app_catalog"; value = pos 1 }
      ∷ record { label = "template"; value = pos 0 }
      ∷ [];
  scaler = some (record { current = pos 6; max_workers = pos 6; scale_downs = pos 0 });
  workers = none;
  rate = some 820;
  eta = some (pos (3009 * 10 ^ 9));
  api = some (record {
    total_duration = 0;
    avg_duration = 70;
    status_codes = (pos 429, 2) ∷ (pos 200, 3261) ∷ [];
    transport_retries = 4;
  });
  storage = some (record {
    processed_items = 1700000;
    failed_items = 0;
    batches_written = 1;
    queue_length = 0;
  });
  channels = record { name = "sites->users"; len = 400; capacity = 400 } ∷ [];
}

full_test :
    report_lines tenths full_snapshot
    ≡ "Sites: 3258/250k (407 inflight, 3 failed) | 263k users | skip: 1 app_catalog"
      ∷ "6/6 workers | 82.0/sec | ETA: 50m 9s | API: 3263 req 70ms [200:3261 429:2], 4 transport retries | DB: 1.7M, 0 queued | Buf: sites->users 400/400"
      ∷ []
unfolding report_lines itoa_on
full_test = refl

-- The estimate is below zero once more sites are completed than were expected.
late_test :
    eta_text (record tenths { whole_seconds = λ d. negsuc 9 }) (negsuc (10 ^ 10)) ≡ "ETA: -10s"
unfolding eta_text
late_test = refl

abbrev silent : Logger
silent = record { prefix = "[test] "; level = warn }

silent_test :
    log_report silent "10:00:00" "1m0s" (default_progress_formatter tenths full_snapshot) [] ≡ []
unfolding log_report default_progress_formatter infof continuef itoa_on
silent_test = refl

-- Two ticks ten seconds apart, with 50 sites more at the second.
abbrev tick_at : ℕ → Moment → ℕ
tick_at t m = t

abbrev fifty_more : ℕ → SiteProgressSnapshot
fifty_more t = record {
  completed = pos (t / (2 * 10 ^ 8));
  failed = pos 0;
  in_flight = pos 0;
  discovered = pos 0;
  total = pos 0;
}

rate_test :
    (build_snapshot tenths
      (tick_at (20 * 10 ^ 9))
      (build_snapshot tenths (tick_at (10 * 10 ^ 9)) (
        new_progress_reporter
          (start_run 0 0 (new_run_metrics "test" []))
          (with_site_progress fifty_more ∷ []))).1).0.rate
    ≡ some 50
unfolding ◌-ℤ◌ build_snapshot new_progress_reporter start_run new_run_metrics with_site_progress
rate_test = refl

fixed_one-IsOneLine : (x : ℕ) → IsOneLine (tenths.fixed_one x)
fixed_one-IsOneLine x =
    ++-IsOneLine _ _ (itoa-IsOneLine (x / 10))
      (++-IsOneLine _ _ (no_break "." refl) (itoa-IsOneLine (x % 10)))

log_report-lines_example :
    (let l = record silent { level = info } in
      let logged =
        log_report l "10:00:00" "1m0s" (default_progress_formatter tenths full_snapshot) [] in
      ((leb (rank info) (rank info) ≡ false) × (logged ≡ []))
      ⊎ ((leb (rank info) (rank info) ≡ true)
          × (logged ≡ in_log l "10:00:00" "1m0s" (or_blank (report_lines tenths full_snapshot)))))
    × (length (report_lines tenths full_snapshot) ≤ 2)
log_report-lines_example =
    log_report-lines tenths full_snapshot (record silent { level = info }) "10:00:00" "1m0s" []
      fixed_one-IsOneLine (no_break "users" refl, tt)
      (no_break "app_catalog" refl, (no_break "template" refl, tt))
      (no_break "sites->users" refl, tt)
