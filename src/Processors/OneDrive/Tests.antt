-- ===== src/Processors/OneDrive/Tests.antt =====
-- Personal sites of internal/processors/onedrive.go, processed.
use sprawler.Common.{◌≡◌, refl, List, [], ◌∷◌, String, length, map, str_eq, ◌&&◌, if◌then◌else◌}
use sprawler.Model.{float_zero, Site, UserProfile}
use sprawler.Errors.{message, api_error, fetched}
use sprawler.Processors.Outcomes.{record_od_outcome}
use sprawler.Processors.OneDrive.Defs.{
  Texts, Visit, count_locked, fetch_user_profile, accept_profile, normalize_personal_url,
  process_users, send_profile, complete, process_site, process_sites, nothing_done,
}
use sprawler.Processors.OneDrive.Accounts.{Accounted, process_sites-accounts}

abbrev texts : Texts
texts = record {
  has_suffix = λ s t. str_eq s "/personal/ann/" && str_eq t "/";
  trim_suffix = λ s t. if str_eq s "/personal/ann/" then "/personal/ann" else s;
  text = λ e. [];
  render = λ e. "error";
}

abbrev personal : String → String → String → Site
personal url owner lock = record {
  site_url = url;
  time_created = "";
  modified = "";
  title = "";
  template_name = "SPSPERS#10";
  created_by_email = owner;
  group_id = "";
  site_id = url;
  last_activity_on = "";
  storage_used = float_zero;
  lock_state = lock;
}

abbrev found_profile : String → UserProfile
found_profile id = record {
  personal_url = "/personal/ann/";
  doc_id = "";
  aad_object_id = id;
  account_name = "";
  personal_site_instantiation_state = "";
  profile_sid = "";
  user_profile_guid = "";
  user_principal_name = "";
  last_modified_time = "";
}

-- A site with its profile, one that is locked and without owner, an orphaned one, and one of which
-- both fetches fail.
abbrev visits : List Visit
visits =
    record {
      site = personal "/personal/ann/" "ann" "Unlock";
      user_reply = fetched [];
      profile_reply = fetched (found_profile "1");
      site_start = 1;
      site_end = 4;
    }
    ∷ record {
      site = personal "/personal/bob" "" "NoAccess";
      user_reply = fetched [];
      profile_reply = fetched (found_profile "2");
      site_start = 2;
      site_end = 5;
    }
    ∷ record {
      site = personal "/personal/cat" "cat" "";
      user_reply = fetched [];
      profile_reply = fetched (found_profile "");
      site_start = 2;
      site_end = 6;
    }
    ∷ record {
      site = personal "/personal/dan" "dan" "";
      user_reply = api_error (message "x");
      profile_reply = api_error (message "y");
      site_start = 3;
      site_end = 7;
    }
    ∷ []

visits_test :
    let d = process_sites texts visits nothing_done in
    (d.counters.succeeded ≡ 3)
    × (d.counters.failed ≡ 1)
    × (d.counters.locked_sites ≡ 1)
    × (d.counters.no_owner_sites ≡ 1)
    × (d.counters.orphaned_sites ≡ 1)
    × (map (λ p. p.personal_url) d.profiles ≡ "/personal/ann" ∷ [])
unfolding process_sites process_site process_users count_locked fetch_user_profile accept_profile
    normalize_personal_url send_profile complete record_od_outcome
visits_test = (refl, refl, refl, refl, refl, refl)

process_sites-accounts_example :
    let e = process_sites texts visits nothing_done in
    Accounted 0 0 e
    × (e.sites ≡ map (λ v. v.site) visits)
    × (e.counters.sites_completed ≡ length visits)
process_sites-accounts_example = process_sites-accounts texts visits
