-- ===== src/Processors/SharePoint/Runs.antt =====
-- Runs of the pipeline of internal/processors/sharepoint.go: every site is settled exactly once, as
-- long as no URL is found twice.
use sprawler.Common.{
  ℕ, Bool, true, false, sym, length, if◌then◌else◌, ◌+◌, ◌≤◌, ◌≡◌, refl, subst, Option, none, some,
  List, [], ◌∷◌, String, total, eq_refl, arith,
}
use sprawler.Common.Dict.{lookup, lookup-insert}
use sprawler.Model.{Site, SiteUser, GroupFetchResult}
use sprawler.Errors.{Reply}
use sprawler.Processors.SharePoint.Defs.{
  State, Tracker, Options, dispatch_site, skip_site, finish_users, finish_groups,
}
use sprawler.Processors.SharePoint.Pipeline.{
  Job, Pipeline, Event, site_found, user_start, group_start, user_reply, group_reply, dispatch,
  start_users, start_groups, pick, step, run, started, front, can_start,
}
use sprawler.Processors.SharePoint.Books.{Books, Tracked, at}
use sprawler.Processors.SharePoint.Workers.{
  finish_users-Books, finish_groups-Books, finish_users-Shrinks, finish_groups-Shrinks,
}
use sprawler.Processors.SharePoint.Sound.{
  Sound, pending, found_at, live, dispatch-Sound, Picked, pick-Picked, kept_Linked, users_started,
  total-front, site_at, groups_started,
}

start_users-Sound :
    (ok : Bool) (i : ℕ) (p : Pipeline)
    → Sound p
    → Sound (if ok then start_users (front i p.user_sites) p else p)
unfolding start_users
start_users-Sound false i p h = h
start_users-Sound true i p h = go (front i p.user_sites) (λ v. total-front i v p.user_sites)
  where
    go :
        (ss : List Site)
        → ((v : String) → total (site_at v) ss ≡ total (site_at v) p.user_sites)
        → Sound (start_users ss p)
    go [] e = h
    go (site ∷ rest) e =
        users_started p site rest (lookup site.site_url p.state.outcomes) (λ v. sym (e v)) refl h

start_groups-Sound :
    (ok : Bool) (i : ℕ) (p : Pipeline)
    → Sound p
    → Sound (if ok then start_groups (front i p.group_sites) p else p)
unfolding start_groups
start_groups-Sound false i p h = h
start_groups-Sound true i p h = go (front i p.group_sites) (λ v. total-front i v p.group_sites)
  where
    go :
        (ss : List Site)
        → ((v : String) → total (site_at v) ss ≡ total (site_at v) p.group_sites)
        → Sound (start_groups ss p)
    go [] e = h
    go (site ∷ rest) e =
        groups_started p site rest (lookup site.site_url p.state.outcomes) (λ v. sym (e v)) refl h

-- A site without tracker has no pending worker.
pub free :
    (s : State) (n : String → ℕ) (v : String) → Books n s → lookup v s.outcomes ≡ none → n v ≡ 0
free s n v b e = subst (λ o. Tracked s.heap s.next v o (n v)) e (b.2 v)

module _ (o : Options) (now : ℕ) (p : Pipeline) where
  users_replied :
      (r : Reply (List SiteUser)) (found : Option (Job × List Job))
      → Picked p.user_jobs found
      → Sound p
      → Sound (elim found [
        | none ↦ p
        | some (j, js) ↦ record p { user_jobs = js; state = finish_users o now j.tracker r p.state }
      ])
  users_replied r none h sound = sound
  users_replied r (some (j, js)) (sums, links) (books, us, gs) =
      let p2 = record p { user_jobs = js; state = finish_users o now j.tracker r p.state } in
      let owed : (v : String) → pending p v ≡ pending p2 v + at j.site.site_url v =
        λ v. omega (arith, sums v) in
      let due : Books (λ v. pending p2 v + at j.site.site_url v) p.state = (
        books.0,
        books.1,
        λ v.
            subst (Tracked p.state.heap p.state.next v (lookup v p.state.outcomes)) (owed v)
              (books.2 v),
      ) in
      let kept =
        finish_users-Books (pending p2) o now j.tracker j.site.site_url p.state r
          (links p.state.outcomes us).0 due in
      let sh = finish_users-Shrinks o now j.tracker r p.state in
      (
        kept,
        kept_Linked p.state.outcomes p2.state.outcomes (pending p2) js sh
            (λ v. free p2.state (pending p2) v kept) (λ v. omega arith)
            (links p.state.outcomes us).1,
        kept_Linked p.state.outcomes p2.state.outcomes (pending p2) p.group_jobs sh
            (λ v. free p2.state (pending p2) v kept) (λ v. omega arith) gs,
      )

  groups_replied :
      (r : Reply GroupFetchResult) (found : Option (Job × List Job))
      → Picked p.group_jobs found
      → Sound p
      → Sound (elim found [
        | none ↦ p
        | some (j, js) ↦ record p {
          group_jobs = js;
          state = finish_groups o now j.tracker r p.state;
        }
      ])
  groups_replied r none h sound = sound
  groups_replied r (some (j, js)) (sums, links) (books, us, gs) =
      let p2 = record p { group_jobs = js; state = finish_groups o now j.tracker r p.state } in
      let owed : (v : String) → pending p v ≡ pending p2 v + at j.site.site_url v =
        λ v. omega (arith, sums v) in
      let due : Books (λ v. pending p2 v + at j.site.site_url v) p.state = (
        books.0,
        books.1,
        λ v.
            subst (Tracked p.state.heap p.state.next v (lookup v p.state.outcomes)) (owed v)
              (books.2 v),
      ) in
      let kept =
        finish_groups-Books (pending p2) o now j.tracker j.site.site_url p.state r
          (links p.state.outcomes gs).0 due in
      let sh = finish_groups-Shrinks o now j.tracker r p.state in
      (
        kept,
        kept_Linked p.state.outcomes p2.state.outcomes (pending p2) p.user_jobs sh
            (λ v. free p2.state (pending p2) v kept) (λ v. omega arith) us,
        kept_Linked p.state.outcomes p2.state.outcomes (pending p2) js sh
            (λ v. free p2.state (pending p2) v kept) (λ v. omega arith)
            (links p.state.outcomes gs).1,
      )

-- A step adds the found site to the sites in flight and no other.
step-live :
    (o : Options) (e : Event) (p : Pipeline) (v : String)
    → live (lookup v (step o e p).state.outcomes) ≤ live (lookup v p.state.outcomes) + found_at v e
unfolding step dispatch dispatch_site start_users start_groups skip_site
step-live o (site_found now site) p v =
    ground (arith, lookup-insert site.site_url v p.state.next p.state.outcomes)
step-live o (user_start i tokens) p v =
    go (can_start o.user_workers (length p.user_jobs) i tokens p) (front i p.user_sites)
  where
    go :
        (ok : Bool) (ss : List Site)
        → live (lookup v (if ok then start_users ss p else p).state.outcomes)
          ≤ live (lookup v p.state.outcomes) + 0
    go false ss = omega arith
    go true [] = omega arith
    go true (site ∷ rest) = ground arith
step-live o (group_start i tokens) p v =
    go (can_start o.group_workers (length p.group_jobs) i tokens p) (front i p.group_sites)
  where
    go :
        (ok : Bool) (ss : List Site)
        → live (lookup v (if ok then start_groups ss p else p).state.outcomes)
          ≤ live (lookup v p.state.outcomes) + 0
    go false ss = omega arith
    go true [] = omega arith
    go true (site ∷ rest) = ground arith
step-live o (user_reply now i r) p v = go (pick i p.user_jobs)
  where
    go :
        (found : Option (Job × List Job))
        → live (
            lookup v
              (elim found as (λ x. Pipeline) [
                | none ↦ p
                | some (j, js) ↦ record p {
                  user_jobs = js;
                  state = finish_users o now j.tracker r p.state;
                }
              ]).state.outcomes)
          ≤ live (lookup v p.state.outcomes) + 0
    go none = omega arith
    go (some (j, js)) = ground (arith, finish_users-Shrinks o now j.tracker r p.state v)
step-live o (group_reply now i r) p v = go (pick i p.group_jobs)
  where
    go :
        (found : Option (Job × List Job))
        → live (
            lookup v
              (elim found as (λ x. Pipeline) [
                | none ↦ p
                | some (j, js) ↦ record p {
                  group_jobs = js;
                  state = finish_groups o now j.tracker r p.state;
                }
              ]).state.outcomes)
          ≤ live (lookup v p.state.outcomes) + 0
    go none = omega arith
    go (some (j, js)) = ground (arith, finish_groups-Shrinks o now j.tracker r p.state v)

step-Sound :
    (o : Options) (e : Event) (p : Pipeline)
    → ((v : String) → live (lookup v p.state.outcomes) + found_at v e ≤ 1)
    → Sound p
    → Sound (step o e p)
unfolding step
step-Sound o (site_found now site) p room h = dispatch-Sound o now site p fresh h
  where
    fresh : lookup site.site_url p.state.outcomes ≡ none
    fresh = ground (arith, room site.site_url, eq_refl site.site_url)
step-Sound o (user_start i tokens) p room h =
    start_users-Sound (can_start o.user_workers (length p.user_jobs) i tokens p) i p h
step-Sound o (group_start i tokens) p room h =
    start_groups-Sound (can_start o.group_workers (length p.group_jobs) i tokens p) i p h
step-Sound o (user_reply now i r) p room h =
    users_replied o now p r (pick i p.user_jobs) (pick-Picked i p.user_jobs) h
step-Sound o (group_reply now i r) p room h =
    groups_replied o now p r (pick i p.group_jobs) (pick-Picked i p.group_jobs) h

run_on-Sound :
    (o : Options) (es : List Event) (p : Pipeline)
    → ((v : String) → live (lookup v p.state.outcomes) + total (found_at v) es ≤ 1)
    → Sound p
    → Sound (run o es p)
unfolding run
run_on-Sound o [] p room h = h
run_on-Sound o (e ∷ es) p room h =
    run_on-Sound o es (step o e p) (λ v. omega (arith, room v, step-live o e p v))
      (step-Sound o e p (λ v. omega (arith, room v)) h)

-- If no two of the sites that the listing finds have one URL, then after any events, in any order
-- and with any replies of the API, the books of the run hold: the outcome map has one entry for
-- each site in flight, whose tracker counts the workers that wait for the site or are at work
-- there, at least one; every other site has no pending worker; the completed sites and those in
-- flight are the dispatched ones; every completed site succeeded or failed, and each failed one
-- has one recorded outcome; and each worker at work holds the tracker of its own site.
pub run-Sound :
    (o : Options) (es : List Event) (heap : ℕ → Tracker)
    → ((v : String) → total (found_at v) es ≤ 1)
    → Sound (run o es (started heap))
unfolding lookup
run-Sound o es heap once =
    run_on-Sound o es (started heap) (λ v. omega (arith, once v))
      ((tt, (refl, refl, refl), λ v. refl), tt, tt)
