-- ===== src/Processors/SharePoint/Finished.antt =====
-- The end of a run of internal/processors/sharepoint.go, when its channels are empty and no worker
-- is at work, and what reached the run past `filterSites`.
use sprawler.Common.{
  ℕ, ◌+◌, ◌≤◌, ◌≡◌, refl, ap, Bool, true, false, Option, none, some, List, [], ◌∷◌, String, length,
  total, keep, if◌then◌else◌, eq_refl, arith,
}
use sprawler.Common.Dict.{Dict, lookup}
use sprawler.Model.{Site, SiteUser, GroupFetchResult}
use sprawler.Processors.Filter.{SkipReason, template, tenant_root}
use sprawler.Errors.{Reply, api_error, fetched}
use sprawler.Processors.SharePoint.Defs.{
  Counters, State, Tracker, Options, dispatch_site, skip_site, finish_users, finish_groups,
  finalize, settle, send_members, filter_sites, count_skip,
}
use sprawler.Processors.SharePoint.Pipeline.{
  Job, Pipeline, Event, site_found, user_start, group_start, user_reply, group_reply, dispatch,
  start_users, start_groups, pick, step, run, started, front, can_start,
}
use sprawler.Processors.SharePoint.Books.{Tracked}
use sprawler.Processors.SharePoint.Sound.{pending, found_at}
use sprawler.Processors.SharePoint.Runs.{run-Sound}

finalize-dispatched :
    (now q : ℕ) (s : State)
    → (finalize now q s).counters.sites_dispatched ≡ s.counters.sites_dispatched
unfolding finalize settle
finalize-dispatched now q s = ground arith

finish_users-dispatched :
    (o : Options) (now q : ℕ) (r : Reply (List SiteUser)) (s : State)
    → (finish_users o now q r s).counters.sites_dispatched ≡ s.counters.sites_dispatched
unfolding finish_users finalize settle
finish_users-dispatched o now q (api_error e) s = ground arith
finish_users-dispatched o now q (fetched us) s = ground arith

finish_groups-dispatched :
    (o : Options) (now q : ℕ) (r : Reply GroupFetchResult) (s : State)
    → (finish_groups o now q r s).counters.sites_dispatched ≡ s.counters.sites_dispatched
unfolding finish_groups finalize settle send_members
finish_groups-dispatched o now q (api_error e) s = ground arith
finish_groups-dispatched o now q (fetched r) s = ground arith

abbrev pub is_found : Event → ℕ
is_found (site_found now site) = 1
is_found _ = 0

step-dispatched :
    (o : Options) (e : Event) (p : Pipeline)
    → (step o e p).state.counters.sites_dispatched ≡ p.state.counters.sites_dispatched + is_found e
unfolding step dispatch dispatch_site start_users start_groups skip_site
step-dispatched o (site_found now site) p = refl
step-dispatched o (user_start i tokens) p =
    go (can_start o.user_workers (length p.user_jobs) i tokens p) (front i p.user_sites)
  where
    go :
        (ok : Bool) (ss : List Site)
        → (if ok then start_users ss p else p).state.counters.sites_dispatched
          ≡ p.state.counters.sites_dispatched + 0
    go false ss = omega arith
    go true [] = omega arith
    go true (site ∷ rest) = ground arith
step-dispatched o (group_start i tokens) p =
    go (can_start o.group_workers (length p.group_jobs) i tokens p) (front i p.group_sites)
  where
    go :
        (ok : Bool) (ss : List Site)
        → (if ok then start_groups ss p else p).state.counters.sites_dispatched
          ≡ p.state.counters.sites_dispatched + 0
    go false ss = omega arith
    go true [] = omega arith
    go true (site ∷ rest) = ground arith
step-dispatched o (user_reply now i r) p = go (pick i p.user_jobs)
  where
    go :
        (found : Option (Job × List Job))
        → (elim found as (λ x. Pipeline) [
          | none ↦ p
          | some (j, js) ↦ record p {
            user_jobs = js;
            state = finish_users o now j.tracker r p.state;
          }
        ]).state.counters.sites_dispatched
          ≡ p.state.counters.sites_dispatched + 0
    go none = omega arith
    go (some (j, js)) = omega (arith, finish_users-dispatched o now j.tracker r p.state)
step-dispatched o (group_reply now i r) p = go (pick i p.group_jobs)
  where
    go :
        (found : Option (Job × List Job))
        → (elim found as (λ x. Pipeline) [
          | none ↦ p
          | some (j, js) ↦ record p {
            group_jobs = js;
            state = finish_groups o now j.tracker r p.state;
          }
        ]).state.counters.sites_dispatched
          ≡ p.state.counters.sites_dispatched + 0
    go none = omega arith
    go (some (j, js)) = omega (arith, finish_groups-dispatched o now j.tracker r p.state)

run-dispatched :
    (o : Options) (es : List Event) (p : Pipeline)
    → (run o es p).state.counters.sites_dispatched
      ≡ p.state.counters.sites_dispatched + total is_found es
unfolding run
run-dispatched o [] p = omega arith
run-dispatched o (e ∷ es) p = omega (arith, step-dispatched o e p, run-dispatched o es (step o e p))

-- Every channel to the workers is empty, and no worker is at work.
abbrev pub Quiet : Pipeline → Type 0
Quiet p = (p.user_sites ≡ []) × (p.group_sites ≡ []) × (p.user_jobs ≡ []) × (p.group_jobs ≡ [])

none_listed : (d : Dict ℕ) → ((v : String) → lookup v d ≡ none) → d ≡ []
unfolding lookup
none_listed [] h = refl
none_listed ((k, q) ∷ d) h = ground (arith, h k, eq_refl k)

Quiet-pending : (p : Pipeline) → Quiet p → (v : String) → pending p v ≡ 0
Quiet-pending p (us, gs, uj, gj) v = rw (us, gs, uj, gj) refl

untracked :
    (heap : ℕ → Tracker) (next : ℕ) (v : String) (o : Option ℕ) (n : ℕ)
    → Tracked heap next v o n
    → n ≡ 0
    → o ≡ none
untracked heap next v none n t e = refl
untracked heap next v (some q) n t e = ground arith

-- If no two of the sites that the listing finds have one URL, then once the channels to the workers
-- are empty and no worker is at work, every site that was found is completed, and counts once, as
-- succeeded or as failed; the failed ones are as many as the recorded outcomes; and the outcome map
-- is empty.
pub run-settles :
    (o : Options) (es : List Event) (heap : ℕ → Tracker)
    → ((v : String) → total (found_at v) es ≤ 1)
    → Quiet (run o es (started heap))
    → (let s = (run o es (started heap)).state in
        (s.counters.sites_completed ≡ total is_found es)
        × (s.counters.succeeded + s.counters.failed ≡ total is_found es)
        × (length s.collector.sp_outcomes ≡ s.counters.failed)
        × (s.outcomes ≡ []))
run-settles o es heap once quiet =
    let p = run o es (started heap) in
    let sound = run-Sound o es heap once in
    let books = sound.0 in
    let alone : (v : String) → lookup v p.state.outcomes ≡ none = λ v.
      untracked p.state.heap p.state.next v (lookup v p.state.outcomes) (pending p v) (books.2 v)
        (Quiet-pending p quiet v) in
    let gone : p.state.outcomes ≡ [] = none_listed p.state.outcomes alone in
    let empty : length p.state.outcomes ≡ 0 = ap length gone in
    let found : p.state.counters.sites_dispatched ≡ total is_found es =
      omega (arith, run-dispatched o es (started heap)) in
    (
      omega (arith, empty, found, books.1.0),
      omega (arith, empty, found, books.1.0, books.1.1),
      books.1.2,
      gone,
    )

abbrev pub is_processable : Option SkipReason → Bool
is_processable none = true
is_processable (some why) = false

abbrev pub for_template : Option SkipReason → ℕ
for_template (some template) = 1
for_template _ = 0

abbrev pub for_tenant_root : Option SkipReason → ℕ
for_tenant_root (some tenant_root) = 1
for_tenant_root _ = 0

module _ (skip : Site → Option SkipReason) where
  -- The filter passes the sites that have no reason to be skipped, all of them and in their order;
  -- each other site is counted under its reason, and no other counter changes.
  pub filter_sites-keep :
      (ss : List Site) (c : Counters)
      → filter_sites skip ss c ≡ (
        keep (λ s. is_processable (skip s)) ss,
        record c {
          skip_template = c.skip_template + total (λ s. for_template (skip s)) ss;
          skip_tenant_root = c.skip_tenant_root + total (λ s. for_tenant_root (skip s)) ss;
        },
      )
  unfolding filter_sites count_skip
  filter_sites-keep [] c = ground arith
  filter_sites-keep (s ∷ ss) c = ground (
    arith,
    filter_sites-keep ss c,
    filter_sites-keep ss (count_skip template c),
    filter_sites-keep ss (count_skip tenant_root c),
  )
