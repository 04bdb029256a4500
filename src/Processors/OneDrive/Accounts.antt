-- ===== src/Processors/OneDrive/Accounts.antt =====
-- What the counters and the recorded outcomes of internal/processors/onedrive.go say together.
use sprawler.Common.{
  ℕ, ◌+◌, ◌≡◌, Option, List, [], ◌∷◌, ◌++◌, length, length-append, total, map, suc, append_assoc,
  append-nil, sym, ap, ◌∙◌, total-append, arith,
}
use sprawler.Model.{Site, SiteUser, UserProfile, OdSiteOutcome}
use sprawler.Errors.{Reply, api_error, fetched}
use sprawler.Processors.Outcomes.{record_od_outcome, failures}
use sprawler.Processors.OneDrive.Defs.{
  OneDriveCounters, OneDrive, ProfileInput, Texts, Visit, count_locked, fetch_user_profile,
  accept_profile, normalize_personal_url, process_users, send_profile, complete, process_site,
  process_sites, failure_of, od_outcome_of, nothing_done, build_profile_data_from_site,
}

abbrev pub profile_failures : OneDrive → ℕ
profile_failures d = total (λ o. failures o.profile_failure) d.collector.od_outcomes

-- Every completed site succeeded or failed, each failed one has an outcome, the counts are those of
-- what was sent, and every completed site accounts for its profile: it has no owner, is orphaned,
-- sent its profile, or has a recorded failure. `owed` sites are at work, past their profile.
abbrev pub Accounted : ℕ → ℕ → OneDrive → Type 0
Accounted owed failing d =
    (d.counters.sites_completed ≡ d.counters.succeeded + d.counters.failed)
    × (length d.collector.od_outcomes ≡ d.counters.failed)
    × (length d.users ≡ d.counters.users)
    × (length d.profiles ≡ d.counters.ups_profiles)
    × (d.counters.sites_completed + owed
        ≡ d.counters.no_owner_sites
          + d.counters.orphaned_sites
          + d.counters.ups_profiles
          + profile_failures d
          + failing)

process_users-Accounted :
    (x : Texts) (site : Site) (r : Reply (List SiteUser)) (d : OneDrive)
    → Accounted 0 0 d
    → Accounted 0 0 (process_users x site r d).2
unfolding process_users count_locked
process_users-Accounted x site (api_error e) d h = ground arith
process_users-Accounted x site (fetched us) d h = ground (arith, length-append d.users us)

fetched-Accounted :
    (x : Texts) (input : ProfileInput) (r : Reply UserProfile) (d : OneDrive)
    → Accounted 0 0 d
    → (let f = fetch_user_profile x input r d.counters in
        Accounted 1
          (failures (failure_of x f.error))
          (send_profile f.profile (record d { counters = f.counters })))
unfolding fetch_user_profile accept_profile send_profile
fetched-Accounted x input (api_error e) d h = ground arith
fetched-Accounted x input (fetched p) d h =
    let sent = record p { personal_url = normalize_personal_url x input.personal_url } in
    ground (arith, length-append d.profiles (sent ∷ []))

complete-Accounted :
    (o : OdSiteOutcome) (d : OneDrive)
    → Accounted 1 (failures o.profile_failure) d
    → Accounted 0 0 (complete o d)
unfolding complete record_od_outcome
complete-Accounted o d h = ground (
  arith,
  length-append d.collector.od_outcomes (o ∷ []),
  total-append (λ z. failures z.profile_failure) d.collector.od_outcomes (o ∷ []),
)

process_site-Accounted :
    (x : Texts) (v : Visit) (d : OneDrive) → Accounted 0 0 d → Accounted 0 0 (process_site x v d)
unfolding process_site
process_site-Accounted x v d h =
    let sent = record d { sites = d.sites ++ v.site ∷ [] } in
    let (users_failure, users_fetched, d2) = process_users x v.site v.user_reply sent in
    let input = build_profile_data_from_site v.site in
    let f = fetch_user_profile x input v.profile_reply d2.counters in
    complete-Accounted (od_outcome_of x v users_failure users_fetched f)
      (send_profile f.profile (record d2 { counters = f.counters }))
      (fetched-Accounted x input v.profile_reply d2
        (process_users-Accounted x v.site v.user_reply sent h))

-- What a site's processing does to the sites that are sent on and to the number of completed ones.
process_users-sites :
    (x : Texts) (site : Site) (r : Reply (List SiteUser)) (d : OneDrive)
    → (let e = (process_users x site r d).2 in
        (e.sites ≡ d.sites) × (e.counters.sites_completed ≡ d.counters.sites_completed))
unfolding process_users count_locked
process_users-sites x site r d = ground arith

fetch-completed :
    (x : Texts) (input : ProfileInput) (r : Reply UserProfile) (c : OneDriveCounters)
    → (fetch_user_profile x input r c).counters.sites_completed ≡ c.sites_completed
unfolding fetch_user_profile accept_profile
fetch-completed x input r c = ground arith

send_profile-sites :
    (p : Option UserProfile) (d : OneDrive)
    → ((send_profile p d).sites ≡ d.sites)
      × ((send_profile p d).counters.sites_completed ≡ d.counters.sites_completed)
unfolding send_profile
send_profile-sites p d = ground arith

complete-sites :
    (o : OdSiteOutcome) (d : OneDrive)
    → ((complete o d).sites ≡ d.sites)
      × ((complete o d).counters.sites_completed ≡ suc d.counters.sites_completed)
unfolding complete
complete-sites o d = ground arith

process_site-sites :
    (x : Texts) (v : Visit) (d : OneDrive)
    → ((process_site x v d).sites ≡ d.sites ++ v.site ∷ [])
      × ((process_site x v d).counters.sites_completed ≡ suc d.counters.sites_completed)
unfolding process_site
process_site-sites x v d =
    let sent = record d { sites = d.sites ++ v.site ∷ [] } in
    let (users_failure, users_fetched, d2) = process_users x v.site v.user_reply sent in
    let input = build_profile_data_from_site v.site in
    let f = fetch_user_profile x input v.profile_reply d2.counters in
    let d3 = record d2 { counters = f.counters } in
    let done =
      complete-sites (od_outcome_of x v users_failure users_fetched f)
        (send_profile f.profile d3) in
    let profile_sent = send_profile-sites f.profile d3 in
    let users_done = process_users-sites x v.site v.user_reply sent in
    (
      done.0 ∙ (profile_sent.0 ∙ users_done.0),
      done.1
          ∙ ap suc (
              profile_sent.1
              ∙ (fetch-completed x input v.profile_reply d2.counters ∙ users_done.1)),
    )

process_on-accounts :
    (x : Texts) (vs : List Visit) (d : OneDrive)
    → Accounted 0 0 d
    → (let e = process_sites x vs d in
        Accounted 0 0 e
        × (e.sites ≡ d.sites ++ map (λ v. v.site) vs)
        × (e.counters.sites_completed ≡ d.counters.sites_completed + length vs))
unfolding process_sites
process_on-accounts x [] d h = (h, sym (append-nil d.sites), omega arith)
process_on-accounts x (v ∷ vs) d h =
    let (a, b, c) =
      process_on-accounts x vs (process_site x v d) (process_site-Accounted x v d h) in
    let (sites, completed) = process_site-sites x v d in
    (
      a,
      b
          ∙ (ap (λ ss. ss ++ map (λ v. v.site) vs) sites
              ∙ append_assoc d.sites (v.site ∷ []) (map (λ v. v.site) vs)),
      omega (arith, c, completed),
    )

-- Whatever the API replies, when the sites are processed each is sent on once, in the order of
-- processing, and completed once; every completed site succeeded or failed, and the recorded
-- outcomes are as many as the failed ones; the counts of users and profiles are those of what was
-- sent; and the sites without owner, the orphaned ones, the profiles sent and the recorded failures
-- of a profile add up to the completed sites.
pub process_sites-accounts :
    (x : Texts) (vs : List Visit)
    → (let e = process_sites x vs nothing_done in
        Accounted 0 0 e
        × (e.sites ≡ map (λ v. v.site) vs)
        × (e.counters.sites_completed ≡ length vs))
process_sites-accounts x vs =
    let (a, b, c) = process_on-accounts x vs nothing_done (ground arith) in (a, b, omega (arith, c))
