-- ===== src/Processors/Tests.antt =====
-- Recorded outcomes of internal/processors/outcome_collector.go, and their summary.
use sprawler.Common.{false, ◌+◌, ◌≡◌, refl, none, some, [], ◌∷◌, total}
use sprawler.Common.Int.{pos}
use sprawler.Common.Text.{itoa_on}
use sprawler.Processors.SharePoint.{Counters}
use sprawler.Processors.Setup.{capped, sp_progress}
use sprawler.Processors.Summary.{format_failure_breakdown, sort_texts, sp_sites_section, sprint}
use sprawler.Progress.Format.{join}
use sprawler.Common.Dict.{lookup, add_at, sum_values}
use sprawler.Model.{SpSiteOutcome, OdSiteOutcome, OperationFailure, throttle, network}
use sprawler.Processors.Outcomes.{
  OutcomeCollector, empty, record_sp_outcome, record_od_outcome, failure_summary, summarise_sp,
  summarise_od, count_failure, count_errors, category_name, sp_failures, od_failures,
  failure_summary-total,
}

abbrev throttled : OperationFailure
throttled = record { category = throttle; http_status = 429; detail = "429" }

abbrev team_outcome : SpSiteOutcome
team_outcome = record {
  site_url = "/sites/team";
  site_id = "1";
  timestamp = 9;
  duration = 4;
  users_failure = some throttled;
  groups_failure = none;
  users_fetched = 0;
  groups_fetched = 3;
  members_fetched = 7;
  member_errors = 2;
  member_timeout_errors = 0;
}

abbrev drive_outcome : OdSiteOutcome
drive_outcome = record {
  site_url = "/personal/ann";
  site_id = "2";
  user_account = "ann";
  timestamp = 9;
  duration = 4;
  users_failure = some throttled;
  profile_failure = some (record { category = network; http_status = 0; detail = "EOF" });
  users_fetched = 0;
  profile_fetched = false;
}

abbrev collected : OutcomeCollector
collected = record { sp_outcomes = team_outcome ∷ []; od_outcomes = drive_outcome ∷ [] }

recorded_test : record_od_outcome drive_outcome (record_sp_outcome team_outcome empty) ≡ collected
unfolding record_od_outcome record_sp_outcome
recorded_test = refl

summary_test :
    failure_summary collected
    ≡ ("users/throttle", 2) ∷ ("members/error", 2) ∷ ("profile/network", 1) ∷ []
unfolding failure_summary summarise_sp summarise_od count_failure count_errors category_name add_at
summary_test = refl

failure_summary-total_example :
    sum_values (failure_summary collected)
    ≡ total sp_failures (team_outcome ∷ []) + total od_failures (drive_outcome ∷ [])
failure_summary-total_example = failure_summary-total collected

breakdown_test :
    format_failure_breakdown collected
    ≡ "2 members/error" ∷ "1 profile/network" ∷ "2 users/throttle" ∷ []
unfolding format_failure_breakdown failure_summary summarise_sp summarise_od count_failure
    count_errors category_name add_at sort_texts lookup itoa_on
breakdown_test = refl

abbrev counts : Counters
counts = record {
  sites_discovered = 9;
  sites_dispatched = 5;
  sites_completed = 4;
  succeeded = 3;
  failed = 1;
  users = 0;
  groups = 0;
  members = 0;
  skip_template = 3;
  skip_tenant_root = 1;
}

sites_section_test : sp_sites_section counts ≡ "9 sites (4 skipped: 1 tenant_root, 3 template)" ∷ []
unfolding sp_sites_section sort_texts sprint join itoa_on
sites_section_test = refl

progress_test : (sp_progress (capped (pos 0) (pos 7)) counts).in_flight ≡ pos 1
unfolding sp_progress
progress_test = refl

capped_test : capped (pos 0) (pos 7) ≡ pos 7
unfolding capped
capped_test = refl
