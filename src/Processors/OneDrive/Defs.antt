-- ===== src/Processors/OneDrive/Defs.antt =====
-- The state and the handlers of internal/processors/onedrive.go. Workers share nothing but atomic
-- counters, channels and the collector, so that a site is processed in one step. The replies of
-- the API are inputs, and the context is `WithoutCancel`: no `ctx.Done()` branch is taken.
-- `has_suffix` and `trim_suffix` are the functions of Go's package strings.
use sprawler.Common.{
  ℕ, ◌+◌, ◌-◌, Bool, true, false, ◌&&◌, ◌||◌, not, Option, none, some, List, [], ◌∷◌, ◌++◌, String,
  str_eq, if◌then◌else◌, length, any_of,
}
use Prim.Native.String.{◌++◌ as ◌&◌}
use sprawler.Model.{Site, SiteUser, UserProfile, OperationFailure, OdSiteOutcome}
use sprawler.Errors.{GoError, Reply, api_error, fetched, new_operation_failure}
use sprawler.Processors.Outcomes.{OutcomeCollector, empty, record_od_outcome}

pub record OneDriveCounters : Type 0 where
  pub sites_discovered : ℕ
  pub sites_dispatched : ℕ
  pub sites_completed : ℕ
  pub succeeded : ℕ
  pub failed : ℕ
  pub users : ℕ
  pub ups_profiles : ℕ
  pub locked_sites : ℕ
  pub orphaned_sites : ℕ
  pub no_owner_sites : ℕ

pub record OneDrive : Type 0 where
  pub counters : OneDriveCounters
  pub sites : List Site
  pub users : List SiteUser
  pub profiles : List UserProfile
  pub collector : OutcomeCollector

pub record ProfileInput : Type 0 where
  pub account_name : String
  pub personal_url : String
  pub last_modified_time : String

-- The functions of Go's package strings, and the texts of an error.
pub record Texts : Type 0 where
  pub has_suffix : String → String → Bool
  pub trim_suffix : String → String → String
  pub text : GoError → List ℕ
  pub render : GoError → String

abbrev pub known_locked_states : List String
known_locked_states = "Locked" ∷ "ReadOnly" ∷ "NoAccess" ∷ "NoAdditions" ∷ []

abbrev pub is_locked : String → Bool
is_locked state = any_of (λ s. str_eq s state) known_locked_states

unfoldable pub count_locked : OneDrive → OneDrive
count_locked d = record d {
  counters = record (d.counters) { locked_sites = d.counters.locked_sites + 1 };
}

abbrev pub build_profile_data_from_site : Site → ProfileInput
build_profile_data_from_site site = record {
  account_name =
      if str_eq site.created_by_email "" then "" else "i:0#.f|membership|" & site.created_by_email;
  personal_url = site.site_url;
  last_modified_time = site.last_activity_on;
}

unfoldable pub normalize_personal_url : Texts → String → String
normalize_personal_url x url =
    if not (str_eq url "") && x.has_suffix url "/" then x.trim_suffix url "/" else url

-- The profile or its error, if any, and the counters.
pub record Fetch : Type 0 where
  pub profile : Option UserProfile
  pub error : Option GoError
  pub counters : OneDriveCounters

unfoldable pub accept_profile : Texts → ProfileInput → UserProfile → OneDriveCounters → Fetch
unfolding normalize_personal_url
accept_profile x input profile c =
    if str_eq profile.personal_url "" || str_eq profile.aad_object_id ""
    then record {
      profile = none;
      error = none;
      counters = record c { orphaned_sites = c.orphaned_sites + 1 };
    }
    else record {
      profile =
          some (record profile { personal_url = normalize_personal_url x input.personal_url });
      error = none;
      counters = c;
    }

unfoldable pub fetch_user_profile :
    Texts → ProfileInput → Reply UserProfile → OneDriveCounters → Fetch
unfolding accept_profile
fetch_user_profile x input reply c =
    if str_eq input.account_name ""
    then record {
      profile = none;
      error = none;
      counters = record c { no_owner_sites = c.no_owner_sites + 1 };
    }
    else elim reply [
      | api_error e ↦ record { profile = none; error = some e; counters = c }
      | fetched profile ↦ accept_profile x input profile c
    ]

-- The users' part of `processSite`: the failure, the number fetched, and the state.
unfoldable pub process_users :
    Texts → Site → Reply (List SiteUser) → OneDrive → Option OperationFailure × ℕ × OneDrive
unfolding count_locked
process_users x site reply d =
    if is_locked site.lock_state then (none, 0, count_locked d) else elim reply [
      | api_error e ↦ (some (new_operation_failure x.text x.render e), 0, d)
      | fetched us ↦ (
        none,
        length us,
        record d {
          users = d.users ++ us;
          counters = record (d.counters) { users = d.counters.users + length us };
        },
      )
    ]

unfoldable pub send_profile : Option UserProfile → OneDrive → OneDrive
send_profile none d = d
send_profile (some profile) d = record d {
  profiles = d.profiles ++ profile ∷ [];
  counters = record (d.counters) { ups_profiles = d.counters.ups_profiles + 1 };
}

abbrev pub failure_of : Texts → Option GoError → Option OperationFailure
failure_of x none = none
failure_of x (some e) = some (new_operation_failure x.text x.render e)

abbrev pub is_some_failure : Option OperationFailure → Bool
is_some_failure none = false
is_some_failure (some f) = true

abbrev pub is_some_profile : Option UserProfile → Bool
is_some_profile none = false
is_some_profile (some p) = true

-- The end of `processSite`.
unfoldable pub complete : OdSiteOutcome → OneDrive → OneDrive
unfolding record_od_outcome
complete outcome d =
    let c = record (d.counters) { sites_completed = d.counters.sites_completed + 1 } in
    if is_some_failure outcome.users_failure || is_some_failure outcome.profile_failure
    then record d {
      collector = record_od_outcome outcome d.collector;
      counters = record c { failed = c.failed + 1 };
    }
    else record d { counters = record c { succeeded = c.succeeded + 1 } }

-- A site with what the API replies for it, and the instants at which its worker starts and ends.
pub record Visit : Type 0 where
  pub site : Site
  pub user_reply : Reply (List SiteUser)
  pub profile_reply : Reply UserProfile
  pub site_start : ℕ
  pub site_end : ℕ

abbrev pub od_outcome_of : Texts → Visit → Option OperationFailure → ℕ → Fetch → OdSiteOutcome
od_outcome_of x v users_failure users_fetched fetch = record {
  site_url = v.site.site_url;
  site_id = v.site.site_id;
  user_account = (build_profile_data_from_site v.site).account_name;
  timestamp = v.site_end;
  duration = v.site_end - v.site_start;
  users_failure = users_failure;
  profile_failure = failure_of x fetch.error;
  users_fetched = users_fetched;
  profile_fetched = is_some_profile fetch.profile;
}

unfoldable pub process_site : Texts → Visit → OneDrive → OneDrive
unfolding process_users fetch_user_profile send_profile complete
process_site x v d =
    let (users_failure, users_fetched, d2) =
      process_users x v.site v.user_reply (record d { sites = d.sites ++ v.site ∷ [] }) in
    let input = build_profile_data_from_site v.site in
    let fetch = fetch_user_profile x input v.profile_reply d2.counters in
    complete (od_outcome_of x v users_failure users_fetched fetch)
      (send_profile fetch.profile (record d2 { counters = fetch.counters }))

abbrev pub nothing_done : OneDrive
nothing_done = record {
  counters = record {
    sites_discovered = 0;
    sites_dispatched = 0;
    sites_completed = 0;
    succeeded = 0;
    failed = 0;
    users = 0;
    ups_profiles = 0;
    locked_sites = 0;
    orphaned_sites = 0;
    no_owner_sites = 0;
  };
  sites = [];
  users = [];
  profiles = [];
  collector = empty;
}

-- The workers, in the order in which they are done.
unfoldable pub process_sites : Texts → List Visit → OneDrive → OneDrive
unfolding process_site
process_sites x [] d = d
process_sites x (v ∷ vs) d = process_sites x vs (process_site x v d)
