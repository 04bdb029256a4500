-- ===== src/Processors/Summary.antt =====
-- The texts at the end of a run: `buildSummary` of sharepoint.go and onedrive.go, and the formatting
-- and diagnostics of helpers.go. The hours and minutes of a duration are floats, as in Progress.
use Prim.Native.String.{◌++◌, compare}
use text.Mathlib.Text.{is_le}
use mathlib.Core.List.{◌++◌ as ◌+++◌}
use sprawler.Common.{
  ℕ, ◌+◌, String, ◌||◌, Option, none, some, List, [], ◌∷◌, map, ltb, total, if◌then◌else◌,
}
use sprawler.Common.Int.{ℤ, pos}
use sprawler.Common.Text.{show_int}
use sprawler.Common.Dict.{Dict, lookup}
use sprawler.Logger.{Logger, infof}
use sprawler.Api.Metrics.{ApiMetrics}
use sprawler.Api.Transport.{TransportStats}
use sprawler.Throttle.{ThrottleScaler, ScalerStats}
use sprawler.Progress.Defs.{Floats}
use sprawler.Progress.Format.{
  show_nat, join, at_least, nanoseconds_hour, nanoseconds_minute, sort_codes, code_part,
  format_compact,
}
use sprawler.Processors.Outcomes.{OutcomeCollector, failure_summary}
use sprawler.Processors.SharePoint.{Counters}
use sprawler.Processors.OneDrive.{OneDriveCounters}

-- `fmt.Sprintf`: the parts of a text in their order.
unfoldable pub sprint : List String → String
sprint [] = ""
sprint (s ∷ ss) = s ++ sprint ss

-- `sort.Strings`, by the bytes of the texts.
unfoldable pub insert_text : String → List String → List String
insert_text s [] = s ∷ []
insert_text s (t ∷ ts) = if is_le (compare s t) then s ∷ t ∷ ts else t ∷ insert_text s ts

unfoldable pub sort_texts : List String → List String
unfolding insert_text
sort_texts [] = []
sort_texts (s ∷ ss) = insert_text s (sort_texts ss)

-- A part that is left out where its count is zero.
abbrev pub part : ℕ → String → List String
part n label = if ltb 0 n then (show_nat n ++ (" " ++ label)) ∷ [] else []

abbrev pub section : String → String → List String → List String
section before after [] = []
section before after (p ∷ ps) = (before ++ (join ", " (p ∷ ps) ++ after)) ∷ []

abbrev pub or_none : Option ℕ → ℕ
or_none none = 0
or_none (some n) = n

unfoldable pub format_failure_breakdown : OutcomeCollector → List String
unfolding failure_summary sort_texts
format_failure_breakdown c =
    let summary : Dict ℕ = failure_summary c in
    map (λ k. show_nat (or_none (lookup k summary)) ++ (" " ++ k))
      (sort_texts (map (λ e. e.0) summary))

unfoldable pub api_line : ApiMetrics → String
unfolding sprint sort_codes join show_int
api_line m =
    let codes : List (ℤ × ℕ) = sort_codes m.status_codes in
    sprint (
      "API: "
      ∷ show_nat (total (λ e. e.1) m.status_codes)
      ∷ " req, "
      ∷ show_nat m.avg_duration
      ∷ "ms avg"
      ∷ in_square codes
      ∷ (if ltb 0 m.transport_retries
          then ", " ++ (show_nat m.transport_retries ++ " transport retries")
          else "")
      ∷ [])
  where
    in_square : List (ℤ × ℕ) → String
    in_square [] = ""
    in_square (c ∷ cs) = " [" ++ (join " " (map code_part (c ∷ cs)) ++ "]")

unfoldable pub log_api_diagnostics : Logger → String → ApiMetrics → List String → List String
unfolding api_line infof
log_api_diagnostics l time m out = infof l time (api_line m) out

-- The text of a duration, cut to milliseconds, is the library's.
unfoldable pub log_transport_diagnostics :
    (ℕ → String) → Logger → String → TransportStats → List String → List String
unfolding sprint infof
log_transport_diagnostics duration_text l time s out =
    if ltb 0 s.gate_activations || ltb 0 s.transport_retries
    then infof l time
        (sprint (
          "Transport - Gate activations: "
          ∷ show_nat s.gate_activations
          ∷ ", Total gate wait: "
          ∷ duration_text s.total_gate_wait
          ∷ ", Transport retries: "
          ∷ show_nat s.transport_retries
          ∷ []))
        out
    else out

unfoldable pub sp_sites_section : Counters → List String
unfolding sprint sort_texts join
sp_sites_section c =
    let skips : List String =
      part c.skip_template "template" +++ part c.skip_tenant_root "tenant_root" in
    let skipped : ℕ = c.skip_template + c.skip_tenant_root in
    if ltb 0 c.sites_discovered
    then (if ltb 0 skipped
        then sprint (
            show_nat c.sites_discovered
            ∷ " sites ("
            ∷ show_nat skipped
            ∷ " skipped: "
            ∷ join ", " (sort_texts skips)
            ∷ ")"
            ∷ [])
          ∷ []
        else (show_nat c.sites_discovered ++ " sites") ∷ [])
    else []

abbrev pub sp_results_section : Counters → String
sp_results_section c =
    if ltb 0 c.failed
    then sprint (show_nat c.succeeded ∷ " ok / " ∷ show_nat c.failed ∷ " failed" ∷ [])
    else show_nat c.succeeded ++ " ok"

abbrev pub besides : ℕ → String → String
besides n label = if ltb 0 n then ", " ++ (show_nat n ++ (" " ++ label)) else ""

unfoldable pub od_sites_section : OneDriveCounters → String
unfolding sprint
od_sites_section n = sprint (
    show_nat n.sites_completed
    ∷ " sites ("
    ∷ show_nat n.ups_profiles
    ∷ " profiles, "
    ∷ show_nat n.orphaned_sites
    ∷ " orphaned"
    ∷ besides n.no_owner_sites "no-owner"
    ∷ besides n.locked_sites "locked"
    ∷ ")"
    ∷ [])

module _ {F : Type 0} (floats : Floats F) (hours minutes : ℤ → F) where
  open floats use {fixed_one, in_seconds}

  unfoldable pub format_duration : ℤ → String
  format_duration d =
      if at_least nanoseconds_hour d
      then fixed_one (hours d) ++ "h"
      else if at_least nanoseconds_minute d
      then fixed_one (minutes d) ++ "m"
      else fixed_one (in_seconds d) ++ "s"

  unfoldable pub scaler_section : ThrottleScaler → ScalerStats → List String
  unfolding sprint format_duration
  scaler_section s st =
      if ltb 0 st.scale_down_events
      then sprint (
          "Scaler: "
          ∷ show_nat s.current_limit
          ∷ "/"
          ∷ show_nat s.max_workers
          ∷ " workers ("
          ∷ show_nat st.scale_down_events
          ∷ " down, "
          ∷ show_nat st.scale_up_events
          ∷ " up, min "
          ∷ show_nat st.min_limit
          ∷ ", "
          ∷ format_duration st.time_reduced
          ∷ " reduced)"
          ∷ [])
        ∷ []
      else []

  -- The sections that both summaries end with.
  unfoldable pub last_sections : ℤ → ThrottleScaler → ScalerStats → OutcomeCollector → List String
  unfolding format_duration scaler_section format_failure_breakdown
  last_sections duration s st c =
      (format_duration duration ∷ [])
      +++ (scaler_section s st +++ section "Failures: " "" (format_failure_breakdown c))

  abbrev pub entity : ℕ → String → List String
  entity n label = if ltb 0 n then (format_compact floats (pos n) ++ (" " ++ label)) ∷ [] else []

  unfoldable pub sp_summary :
      Counters → ℤ → ThrottleScaler → ScalerStats → OutcomeCollector → String
  unfolding sp_sites_section sprint format_compact last_sections join
  sp_summary n duration s st c = join " | " (
      sp_sites_section n
      +++ ((sp_results_section n ∷ [])
          +++ (section "" "" (
                entity n.users "users"
                +++ (entity n.groups "groups" +++ entity n.members "members"))
              +++ last_sections duration s st c)))

  unfoldable pub od_summary :
      OneDriveCounters → ℤ → ThrottleScaler → ScalerStats → OutcomeCollector → String
  unfolding od_sites_section format_compact last_sections join
  od_summary n duration s st c = join " | " (
      od_sites_section n
      ∷ (format_compact floats (pos n.users) ++ " users")
      ∷ (part n.failed "failed" +++ last_sections duration s st c))
