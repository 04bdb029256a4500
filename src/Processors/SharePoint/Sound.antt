-- ===== src/Processors/SharePoint/Sound.antt =====
-- The invariant of the pipeline of internal/processors/sharepoint.go, for its steps one by one: the
-- books hold with the workers that wait or are at work, and each worker holds its tracker.
use sprawler.Common.{
  ℕ, zero, suc, ◌+◌, ◌≤◌, ◌≡◌, refl, subst, Option, none, some, List, [], ◌∷◌, String,
  if◌then◌else◌, total, total-append, All, str_eq, eq_iff, eq_refl, arith, ==_iff,
}
use sprawler.Common.Dict.{Dict, lookup, insert, insert-Distinct, length-insert, lookup-insert}
use sprawler.Model.{Site}
use sprawler.Processors.SharePoint.Defs.{
  State, Options, put, dispatch_site, workers_per_site, new_tracker, skip_site,
}
use sprawler.Processors.SharePoint.Pipeline.{
  Job, Pipeline, Event, site_found, dispatch, pick, front, put_first,
}
use sprawler.Processors.SharePoint.Books.{Books, Tracked, at}
use sprawler.Processors.SharePoint.Workers.{Shrinks}

-- The workers that have still to finish the site with a URL: those that wait for it in a channel
-- and those at work.
abbrev pub site_at : String → Site → ℕ
site_at v s = at s.site_url v

abbrev pub job_at : String → Job → ℕ
job_at v j = at j.site.site_url v

abbrev pub pending : Pipeline → String → ℕ
pending p v =
    total (site_at v) p.user_sites
    + total (site_at v) p.group_sites
    + total (job_at v) p.user_jobs
    + total (job_at v) p.group_jobs

abbrev pub Linked : Dict ℕ → Job → Type 0
Linked d j = lookup j.site.site_url d ≡ some j.tracker

abbrev pub Sound : Pipeline → Type 0
Sound p =
    Books (pending p) p.state
    × All (Linked p.state.outcomes) p.user_jobs
    × All (Linked p.state.outcomes) p.group_jobs

-- How often a site with a URL is still to be found.
abbrev pub found_at : String → Event → ℕ
found_at v (site_found now site) = at site.site_url v
found_at v _ = 0

abbrev pub live : Option ℕ → ℕ
live none = 0
live (some q) = 1

inserted_Linked :
    (u : String) (q : ℕ) (d : Dict ℕ) (js : List Job)
    → lookup u d ≡ none
    → All (Linked d) js
    → All (Linked (insert u q d)) js
inserted_Linked u q d [] e h = h
inserted_Linked u q d (j ∷ js) e (a, b) = (
  ground (arith, eq_iff u j.site.site_url, lookup-insert u j.site.site_url q d),
  inserted_Linked u q d js e b,
)

dispatched-Tracked :
    (s : State) (now k : ℕ) (site : Site) (v : String) (o : Option ℕ) (n : ℕ)
    → lookup site.site_url s.outcomes ≡ none
    → lookup v s.outcomes ≡ o
    → 1 ≤ k
    → Tracked s.heap s.next v o n
    → Tracked
        (put s.next (new_tracker k site now) s.heap)
        (s.next + 1)
        v
        (if str_eq site.site_url v then some s.next else o)
        (n + (if str_eq site.site_url v then k else 0))
dispatched-Tracked s now k site v none n e f pos_k t =
    ground (arith, eq_iff site.site_url v, ==_iff s.next s.next)
dispatched-Tracked s now k site v (some q) n e f pos_k t =
    ground (arith, eq_iff site.site_url v, ==_iff s.next s.next, ==_iff q s.next)

pending-dispatch :
    (o : Options) (now : ℕ) (site : Site) (p : Pipeline) (v : String)
    → pending (dispatch o now site p) v
      ≡ pending p v + (if str_eq site.site_url v then workers_per_site o else 0)
unfolding dispatch
pending-dispatch o now site p v = ground (
  arith,
  total-append (site_at v) p.user_sites (site ∷ []),
  total-append (site_at v) p.group_sites (site ∷ []),
)

pub dispatch-Sound :
    (o : Options) (now : ℕ) (site : Site) (p : Pipeline)
    → lookup site.site_url p.state.outcomes ≡ none
    → Sound p
    → Sound (dispatch o now site p)
unfolding dispatch dispatch_site
dispatch-Sound o now site p e ((d, (a, b, c), tracked), us, gs) =
    let s = p.state in
    let grown = length-insert site.site_url s.next s.outcomes e in
    (
      (
        insert-Distinct site.site_url s.next s.outcomes d,
        (omega (arith, grown), b, c),
        λ v.
            rw (pending-dispatch o now site p v, lookup-insert site.site_url v s.next s.outcomes)
              (dispatched-Tracked s now (workers_per_site o) site v (lookup v s.outcomes)
                (pending p v) e refl (ground arith) (tracked v)),
      ),
      inserted_Linked site.site_url s.next s.outcomes p.user_jobs e us,
      inserted_Linked site.site_url s.next s.outcomes p.group_jobs e gs,
    )

-- A picked job and the others are all the jobs.
abbrev pub Picked : List Job → Option (Job × List Job) → Type 0
Picked js none = Unit
Picked js (some (j, rest)) =
    ((v : String) → total (job_at v) js ≡ job_at v j + total (job_at v) rest)
    × ((d : Dict ℕ) → All (Linked d) js → Linked d j × All (Linked d) rest)

pub pick-Picked : (i : ℕ) (js : List Job) → Picked js (pick i js)
unfolding pick
pick-Picked i [] = tt
pick-Picked zero (j ∷ js) = (λ v. refl, λ d h. h)
pick-Picked (suc i) (k ∷ ks) = go (pick i ks) (pick-Picked i ks)
  where
    go :
        (o : Option (Job × List Job))
        → Picked ks o
        → Picked (k ∷ ks) (elim o [ none ↦ none | some (j, rest) ↦ some (j, k ∷ rest) ])
    go none h = tt
    go (some (j, rest)) (sums, links) =
        (λ v. omega (arith, sums v), λ d (a, b). ((links d b).0, (a, (links d b).1)))

pub kept_Linked :
    (d e : Dict ℕ) (n : String → ℕ) (js : List Job)
    → Shrinks d e
    → ((v : String) → lookup v e ≡ none → n v ≡ 0)
    → ((v : String) → total (job_at v) js ≤ n v)
    → All (Linked d) js
    → All (Linked e) js
kept_Linked d e n [] sh free le h = h
kept_Linked d e n (j ∷ js) sh free le (a, b) =
    let u = j.site.site_url in
    let here : Linked e j = ground (arith, sh u, free u, le u, eq_refl u) in
    (here, kept_Linked d e n js sh free (λ v. omega (arith, le v)) b)

module _ (p : Pipeline) (site : Site) (rest : List Site) where
  pub users_started :
      (o : Option ℕ)
      → ((v : String) → total (site_at v) p.user_sites ≡ site_at v site + total (site_at v) rest)
      → lookup site.site_url p.state.outcomes ≡ o
      → Sound p
      → Sound (elim o [
        | none ↦ record p { state = skip_site p.state; user_sites = rest }
        | some q ↦ record p {
          user_sites = rest;
          user_jobs = record { site = site; tracker = q } ∷ p.user_jobs;
        }
      ])
  users_started none e f ((d, tallied, tracked), us, gs) =
      let u = site.site_url in
      let none_pending : pending p u ≡ 0 =
        subst (λ o. Tracked p.state.heap p.state.next u o (pending p u)) f (tracked u) in
      let some_here : 1 ≤ total (site_at u) p.user_sites = ground (arith, e u, eq_refl u) in
      ground arith
  users_started (some q) e f ((d, tallied, tracked), us, gs) = (
    (
      d,
      tallied,
      λ v.
          subst (Tracked p.state.heap p.state.next v (lookup v p.state.outcomes)) (moved v)
            (tracked v),
    ),
    (f, us),
    gs,
  )
    where
      moved :
          (v : String)
          → pending p v
            ≡ total (site_at v) rest
              + total (site_at v) p.group_sites
              + total (job_at v) (record { site = site; tracker = q } ∷ p.user_jobs)
              + total (job_at v) p.group_jobs
      moved v = omega (arith, e v)

  pub groups_started :
      (o : Option ℕ)
      → ((v : String) → total (site_at v) p.group_sites ≡ site_at v site + total (site_at v) rest)
      → lookup site.site_url p.state.outcomes ≡ o
      → Sound p
      → Sound (elim o [
        | none ↦ record p { state = skip_site p.state; group_sites = rest }
        | some q ↦ record p {
          group_sites = rest;
          group_jobs = record { site = site; tracker = q } ∷ p.group_jobs;
        }
      ])
  groups_started none e f ((d, tallied, tracked), us, gs) =
      let u = site.site_url in
      let none_pending : pending p u ≡ 0 =
        subst (λ o. Tracked p.state.heap p.state.next u o (pending p u)) f (tracked u) in
      let some_here : 1 ≤ total (site_at u) p.group_sites = ground (arith, e u, eq_refl u) in
      ground arith
  groups_started (some q) e f ((d, tallied, tracked), us, gs) = (
    (
      d,
      tallied,
      λ v.
          subst (Tracked p.state.heap p.state.next v (lookup v p.state.outcomes)) (moved v)
            (tracked v),
    ),
    us,
    (f, gs),
  )
    where
      moved :
          (v : String)
          → pending p v
            ≡ total (site_at v) p.user_sites
              + total (site_at v) rest
              + total (job_at v) p.user_jobs
              + total (job_at v) (record { site = site; tracker = q } ∷ p.group_jobs)
      moved v = omega (arith, e v)

-- To put a site first moves no site to another URL.
pub total-front :
    (i : ℕ) (v : String) (ss : List Site) → total (site_at v) (front i ss) ≡ total (site_at v) ss
unfolding front
total-front i v [] = refl
total-front zero v (s ∷ ss) = refl
total-front (suc i) v (s ∷ ss) = go (front i ss) (total-front i v ss)
  where
    go :
        (ts : List Site)
        → total (site_at v) ts ≡ total (site_at v) ss
        → total (site_at v) (put_first s ts) ≡ site_at v s + total (site_at v) ss
    go [] h = omega (arith, h)
    go (t ∷ ts) h = omega (arith, h)
