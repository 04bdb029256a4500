-- ===== src/Processors/SharePoint/Pipeline.antt =====
-- The pipeline of internal/processors/sharepoint.go as steps of its goroutines: the dispatcher, and
-- user and group workers, of pools of a fixed size, that first acquire a token of the throttle
-- scaler and load a site's tracker, and later have the reply of the API. A send of the dispatcher
-- that waits for a full channel is the same as one that is made at once and received later, so that
-- a dispatch is one step; so is a worker's part after the reply, whose stores touch fields of its
-- own until the atomic decrement.
use sprawler.Common.{
  ℕ, zero, suc, Option, none, some, List, [], ◌∷◌, ◌++◌, ◌+◌, ◌&&◌, Bool, ltb, length,
  if◌then◌else◌,
}
use sprawler.Common.Dict.{lookup}
use sprawler.Model.{Site, SiteUser, GroupFetchResult}
use sprawler.Processors.Outcomes.{empty}
use sprawler.Errors.{Reply}
use sprawler.Processors.SharePoint.Defs.{
  Counters, Tracker, State, Options, dispatch_site, skip_site, finish_users, finish_groups,
}

-- A worker at a site, with the tracker that it loaded.
pub record Job : Type 0 where
  pub site : Site
  pub tracker : ℕ

pub record Pipeline : Type 0 where
  pub state : State
  pub user_sites : List Site
  pub group_sites : List Site
  pub user_jobs : List Job
  pub group_jobs : List Job

-- What happens next: a site arrives; a worker that has received a site, by the site's place among
-- those that are not at work, acquires a token of the scaler, which has so many live ones, and
-- starts; or a worker, by its place among those at work, has its reply and gives its token back.
pub data Event : Type 0 where
  site_found : ℕ → Site → Event
  user_start group_start : ℕ → ℕ → Event
  user_reply : ℕ → ℕ → Reply (List SiteUser) → Event
  group_reply : ℕ → ℕ → Reply GroupFetchResult → Event

unfoldable pub dispatch : Options → ℕ → Site → Pipeline → Pipeline
unfolding dispatch_site
dispatch o now site p = record p {
  state = dispatch_site o now site p.state;
  user_sites = p.user_sites ++ site ∷ [];
  group_sites = if o.process_groups then p.group_sites ++ site ∷ [] else p.group_sites;
}

unfoldable pub start_users : List Site → Pipeline → Pipeline
unfolding lookup skip_site
start_users [] p = p
start_users (site ∷ rest) p = elim (lookup site.site_url p.state.outcomes) [
  | none ↦ record p { state = skip_site p.state; user_sites = rest }
  | some q ↦ record p {
    user_sites = rest;
    user_jobs = record { site = site; tracker = q } ∷ p.user_jobs;
  }
]

unfoldable pub start_groups : List Site → Pipeline → Pipeline
unfolding lookup skip_site
start_groups [] p = p
start_groups (site ∷ rest) p = elim (lookup site.site_url p.state.outcomes) [
  | none ↦ record p { state = skip_site p.state; group_sites = rest }
  | some q ↦ record p {
    group_sites = rest;
    group_jobs = record { site = site; tracker = q } ∷ p.group_jobs;
  }
]

-- The job at a place, and the others.
unfoldable pub pick : ℕ → List Job → Option (Job × List Job)
pick i [] = none
pick zero (j ∷ js) = some (j, js)
pick (suc i) (j ∷ js) = elim (pick i js) [ none ↦ none | some (k, ks) ↦ some (k, j ∷ ks) ]

-- The site at a place, before the others.
abbrev pub put_first : Site → List Site → List Site
put_first s [] = s ∷ []
put_first s (t ∷ ts) = t ∷ s ∷ ts

unfoldable pub front : ℕ → List Site → List Site
front i [] = []
front zero (s ∷ ss) = s ∷ ss
front (suc i) (s ∷ ss) = put_first s (front i ss)

-- Of a pool of `workers`, those at work hold their sites, and the free ones hold the first of the
-- others. A token is free if the workers at work, each of which holds one, hold fewer than are live.
unfoldable pub can_start : ℕ → ℕ → ℕ → ℕ → Pipeline → Bool
can_start workers at_work place tokens p =
    ltb (at_work + place) workers && ltb (length p.user_jobs + length p.group_jobs) tokens

unfoldable pub step : Options → Event → Pipeline → Pipeline
unfolding front can_start dispatch start_users start_groups pick finish_users finish_groups
step o (site_found now site) p = dispatch o now site p
step o (user_start i tokens) p =
    if can_start o.user_workers (length p.user_jobs) i tokens p
    then start_users (front i p.user_sites) p
    else p
step o (group_start i tokens) p =
    if can_start o.group_workers (length p.group_jobs) i tokens p
    then start_groups (front i p.group_sites) p
    else p
step o (user_reply now i r) p = elim (pick i p.user_jobs) [
  | none ↦ p
  | some (j, js) ↦ record p { user_jobs = js; state = finish_users o now j.tracker r p.state }
]
step o (group_reply now i r) p = elim (pick i p.group_jobs) [
  | none ↦ p
  | some (j, js) ↦ record p { group_jobs = js; state = finish_groups o now j.tracker r p.state }
]

unfoldable pub run : Options → List Event → Pipeline → Pipeline
unfolding step
run o [] p = p
run o (e ∷ es) p = run o es (step o e p)

abbrev pub no_counts : Counters
no_counts = record {
  sites_discovered = 0;
  sites_dispatched = 0;
  sites_completed = 0;
  succeeded = 0;
  failed = 0;
  users = 0;
  groups = 0;
  members = 0;
  skip_template = 0;
  skip_tenant_root = 0;
}

-- The start of a run. What the heap holds does not matter.
abbrev pub started : (ℕ → Tracker) → Pipeline
started heap = record {
  state = record {
    counters = no_counts;
    heap = heap;
    next = 0;
    outcomes = [];
    collector = empty;
    sent = record { sites = []; users = []; groups = []; members = [] };
  };
  user_sites = [];
  group_sites = [];
  user_jobs = [];
  group_jobs = [];
}
