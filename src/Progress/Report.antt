-- ===== src/Progress/Report.antt =====
-- `Report` of internal/metrics/progress_reporter.go, and the goroutine that `Start` runs.
use Prim.Native.String.{◌++◌}
use sprawler.Common.{ℕ, String, List, [], ◌∷◌}
use sprawler.Common.Int.{ℤ}
use sprawler.Common.Text.{split}
use sprawler.Logger.{Logger, infof, continuef}
use sprawler.Progress.Defs.{Floats, ProgressSnapshot, ProgressReporter}
use sprawler.Progress.Snapshot.{Moment, build_snapshot}

-- The loop over the lines after the first.
unfoldable pub continue_lines : Logger → List String → List String → List String
continue_lines l [] out = out
continue_lines l (s ∷ ss) out = continue_lines l ss (continuef l s out)

abbrev pub log_lines : Logger → String → String → List String → List String → List String
log_lines l time elapsed [] out = out
log_lines l time elapsed (s ∷ ss) out =
    continue_lines l ss (infof l time ("[" ++ (elapsed ++ ("] " ++ s))) out)

-- The text of a message, and of its duration; the first line has the prefix, the others follow on.
unfoldable pub log_report : Logger → String → String → String → List String → List String
unfolding continue_lines split
log_report l time elapsed message out = log_lines l time elapsed (split b'\n' message) out

module _ {F : Type 0} (floats : Floats F) (formatter : ProgressSnapshot F → String)
    (duration_text : ℤ → String) (l : Logger) where
  unfoldable pub report :
      (Moment → ℕ) → String → ProgressReporter → List String → ProgressReporter × List String
  unfolding build_snapshot log_report
  report at time r out =
      let (snap, r') = build_snapshot floats at r in
      (r', log_report l time (duration_text snap.elapsed) (formatter snap) out)

  -- What the goroutine's `select` takes: the stop channel, or a tick of the ticker.
  pub data Choice : Type 0 where
    stopped : Choice
    ticked : (Moment → ℕ) → String → Choice

  unfoldable pub report_loop :
      List Choice → ProgressReporter → List String → ProgressReporter × List String
  unfolding report
  report_loop [] r out = (r, out)
  report_loop (stopped ∷ cs) r out = (r, out)
  report_loop (ticked at time ∷ cs) r out =
      let (r', out') = report at time r out in report_loop cs r' out'
