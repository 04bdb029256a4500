-- ===== src/Processors/SharePoint/Tests.antt =====
-- Runs of the pipeline of internal/processors/sharepoint.go, and its theorems at concrete ones.
use sprawler.Common.{
  ℕ, ◌+◌, ◌≤◌, ◌≡◌, refl, true, false, Option, some, List, [], ◌∷◌, String, length, total, keep,
  arith, str_eq, eq_iff, if◌then◌else◌, Bool-cases, inl, inr, subst,
}
use sprawler.Common.Dict.{lookup, insert, delete}
use sprawler.Common.Int.{◌-ℤ◌}
use sprawler.Model.{float_zero, Site, GroupFetchResult}
use sprawler.Errors.{message, api_error, fetched}
use sprawler.Processors.Filter.{
  SkipReason, should_skip_site, is_skipped_template, is_tenant_root_site,
}
use sprawler.Processors.SharePoint.Defs.{
  Tracker, Options, dispatch_site, skip_site, finish_users, finish_groups, finalize, settle,
  send_members, new_tracker, filter_sites,
}
use sprawler.Processors.SharePoint.Pipeline.{
  Event, site_found, user_start, group_start, user_reply, group_reply, dispatch, start_users,
  start_groups, pick, step, run, started, front, can_start, no_counts,
}
use sprawler.Processors.SharePoint.Sound.{Sound, found_at}
use sprawler.Processors.SharePoint.Runs.{run-Sound}
use sprawler.Processors.SharePoint.Progress.{Works, IsStaffed, to_the_end, run-drains}
use sprawler.Processors.SharePoint.Finished.{
  Quiet, is_found, run-settles, is_processable, for_template, for_tenant_root, filter_sites-keep,
}

abbrev site_named : String → String → Site
site_named url name = record {
  site_url = url;
  time_created = "";
  modified = "";
  title = "";
  template_name = name;
  created_by_email = "";
  group_id = "";
  site_id = url;
  last_activity_on = "";
  storage_used = float_zero;
  lock_state = "";
}

abbrev team : Site
team = site_named "/sites/team" "STS"

abbrev sales : Site
sales = site_named "/sites/sales" "STS"

abbrev options : Options
options = record {
  user_workers = 2;
  group_workers = 2;
  process_groups = true;
  process_group_members = true;
  text = λ e. [];
  render = λ e. "error";
}

abbrev no_groups : GroupFetchResult
no_groups = record { groups = []; members = []; member_errors = 0; member_timeout_errors = 2 }

abbrev memory : ℕ → Tracker
memory q = new_tracker 0 team 0

-- Two sites, the workers of which interleave; the groups of one and the users of the other fail.
abbrev events : List Event
events =
    site_found 1 team
    ∷ user_start 0 2
    ∷ site_found 2 sales
    ∷ user_start 0 2
    ∷ group_start 0 4
    ∷ group_start 0 4
    ∷ user_reply 5 0 (api_error (message "x"))
    ∷ group_reply 6 1 (fetched no_groups)
    ∷ user_reply 7 0 (fetched [])
    ∷ group_reply 8 0 (fetched no_groups)
    ∷ []

once : (v : String) → total (found_at v) events ≤ 1
once v = elim (Bool-cases (str_eq "/sites/team" v)) [
  | inl same ↦
      subst (λ w. total (found_at w) events ≤ 1) ((eq_iff "/sites/team" v).0 same) (omega arith)
  | inr other ↦ rw other (ground arith)
]

quiet : Quiet (run options events (started memory))
unfolding run step front can_start dispatch dispatch_site start_users start_groups pick finish_users
    finish_groups finalize settle send_members lookup insert delete
quiet = (refl, refl, refl, refl)

run-Sound_example : Sound (run options events (started memory))
run-Sound_example = run-Sound options events memory once

run-settles_example :
    let s = (run options events (started memory)).state in
    (s.counters.sites_completed ≡ total is_found events)
    × (s.counters.succeeded + s.counters.failed ≡ total is_found events)
    × (length s.collector.sp_outcomes ≡ s.counters.failed)
    × (s.outcomes ≡ [])
run-settles_example = run-settles options events memory once quiet

-- A site that is found again while it is in flight loses its first tracker, and its second worker
-- counts it as failed with no outcome recorded.
abbrev twice : List Event
twice =
    site_found 1 team
    ∷ site_found 2 team
    ∷ user_start 0 2
    ∷ user_reply 5 0 (fetched [])
    ∷ user_start 0 2
    ∷ []

abbrev users_only : Options
users_only = record options { process_groups = false }

twice_test :
    let s = (run users_only twice (started memory)).state in
    (s.counters.succeeded ≡ 1) × (s.counters.failed ≡ 1) × (length s.collector.sp_outcomes ≡ 0)
unfolding run step front can_start dispatch dispatch_site start_users pick finish_users finalize
    settle skip_site lookup insert delete ◌-ℤ◌
twice_test = (refl, refl, refl)

-- The root of the tenant, and a template that the configuration skips.
abbrev url_path : String → Option String
url_path u = if str_eq u "/sites/team" then some "/sites/team" else some "/"

abbrev skip_site_test : Site → Option SkipReason
skip_site_test s = should_skip_site url_path (λ t. t) s ("POINTPUBLISHINGHUB" ∷ [])

abbrev listing : List Site
listing = team ∷ site_named "/" "STS" ∷ site_named "/portals/hub" "POINTPUBLISHINGHUB" ∷ []

listing_test :
    filter_sites skip_site_test listing no_counts
    ≡ (team ∷ [], record no_counts { skip_template = 1; skip_tenant_root = 1 })
unfolding filter_sites should_skip_site is_skipped_template is_tenant_root_site
listing_test = refl

filter_sites-keep_example : filter_sites skip_site_test listing no_counts ≡ (
  keep (λ s. is_processable (skip_site_test s)) listing,
  record no_counts {
    skip_template = 0 + total (λ s. for_template (skip_site_test s)) listing;
    skip_tenant_root = 0 + total (λ s. for_tenant_root (skip_site_test s)) listing;
  },
)
filter_sites-keep_example = filter_sites-keep skip_site_test listing no_counts

-- The listing ends while one worker is at work and three channel entries wait.
abbrev unfinished : List Event
unfinished = site_found 1 team ∷ user_start 0 1 ∷ site_found 2 sales ∷ []

unfinished_once : (v : String) → total (found_at v) unfinished ≤ 1
unfinished_once v = elim (Bool-cases (str_eq "/sites/team" v)) [
  | inl same ↦
      subst (λ w. total (found_at w) unfinished ≤ 1) ((eq_iff "/sites/team" v).0 same) (omega arith)
  | inr other ↦ rw other (ground arith)
]

staffed : IsStaffed options 1 9 (λ j. api_error (message "x")) (λ j. fetched no_groups)
staffed = (omega arith, omega arith, omega arith)

-- With no worker, or no live token, nothing starts.
abbrev unstaffed : Options
unstaffed = record options { user_workers = 0 }

unstaffed_test :
    (length (run unstaffed unfinished (started memory)).user_jobs ≡ 0)
    × (length (run options (site_found 1 team ∷ user_start 0 0 ∷ []) (started memory)).user_jobs
        ≡ 0)
unfolding run step front can_start dispatch start_users
unstaffed_test = (refl, refl)

run-drains_example :
    let p = run options unfinished (started memory) in
    let ended =
      to_the_end options 1 9
        (λ j. api_error (message "x"))
        (λ j. fetched no_groups)
        unfinished
        memory in
    let s = (run options ended (started memory)).state in
    Works p (step options (user_start 0 4) p)
    × ((s.counters.sites_completed ≡ total is_found unfinished)
        × (s.counters.succeeded + s.counters.failed ≡ total is_found unfinished)
        × (length s.collector.sp_outcomes ≡ s.counters.failed)
        × (s.outcomes ≡ []))
run-drains_example =
    run-drains options 1 9 (λ j. api_error (message "x")) (λ j. fetched no_groups) unfinished memory
      (user_start 0 4) unfinished_once staffed refl
