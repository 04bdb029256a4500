-- ===== src/Processors/SharePoint/Progress.antt =====
-- The workers of internal/processors/sharepoint.go always have a step to take until the channels to
-- them are empty, and take finitely many of them, whatever the API replies.
use sprawler.Common.{
  Bool, true, false, ◌⊎◌, inl, inr, if◌then◌else◌, ℕ, zero, suc, ◌+◌, ◌*◌, ◌≤◌, ◌<◌, ◌≡◌, refl,
  Option, none, some, List, [], ◌∷◌, ◌++◌, ◌∙◌, String, length, arith, total, total-append, sym,
  subst,
}
use sprawler.Model.{Site, SiteUser, GroupFetchResult}
use sprawler.Errors.{Reply}
use sprawler.Processors.SharePoint.Defs.{Tracker, Options, finish_users, finish_groups}
use sprawler.Processors.SharePoint.Pipeline.{
  Job, Pipeline, Event, site_found, user_start, group_start, user_reply, group_reply, start_users,
  start_groups, pick, step, run, started, front, put_first, can_start,
}
use sprawler.Processors.SharePoint.Finished.{Quiet, is_found, run-settles}
use sprawler.Processors.SharePoint.Sound.{found_at}

-- A waiting site is received and replied to, and a worker at work has its reply to come.
abbrev pub work : Pipeline → ℕ
work p =
    2 * length p.user_sites + 2 * length p.group_sites + length p.user_jobs + length p.group_jobs

length-front : (i : ℕ) (ss : List Site) → length (front i ss) ≡ length ss
unfolding front
length-front i [] = refl
length-front zero (s ∷ ss) = refl
length-front (suc i) (s ∷ ss) = go (front i ss) (length-front i ss)
  where
    go : (ts : List Site) → length ts ≡ length ss → length (put_first s ts) ≡ suc (length ss)
    go [] h = omega (arith, h)
    go (t ∷ ts) h = omega (arith, h)

abbrev pub PickedLess : List Job → Option (Job × List Job) → Type 0
PickedLess js none = Unit
PickedLess js (some (j, rest)) = length js ≡ length rest + 1

pick-PickedLess : (i : ℕ) (js : List Job) → PickedLess js (pick i js)
unfolding pick
pick-PickedLess i [] = tt
pick-PickedLess zero (j ∷ js) = omega arith
pick-PickedLess (suc i) (k ∷ ks) = go (pick i ks) (pick-PickedLess i ks)
  where
    go :
        (o : Option (Job × List Job))
        → PickedLess ks o
        → PickedLess (k ∷ ks) (elim o [ none ↦ none | some (j, rest) ↦ some (j, k ∷ rest) ])
    go none h = tt
    go (some (j, rest)) h = omega (arith, h)

-- A step that does nothing, or one that leaves less work.
abbrev pub Works : Pipeline → Pipeline → Type 0
Works p q = (q ≡ p) ⊎ (work q < work p)

start_users-Works :
    (ok : Bool) (p : Pipeline) (ss : List Site)
    → length ss ≡ length p.user_sites
    → Works p (if ok then start_users ss p else p)
unfolding start_users
start_users-Works false p ss h = inl refl
start_users-Works true p [] h = inl refl
start_users-Works true p (site ∷ rest) h = inr (ground (arith, h))

start_groups-Works :
    (ok : Bool) (p : Pipeline) (ss : List Site)
    → length ss ≡ length p.group_sites
    → Works p (if ok then start_groups ss p else p)
unfolding start_groups
start_groups-Works false p ss h = inl refl
start_groups-Works true p [] h = inl refl
start_groups-Works true p (site ∷ rest) h = inr (ground (arith, h))

-- What a worker does is nothing, or leaves less work.
step-Works : (o : Options) (e : Event) (p : Pipeline) → is_found e ≡ 0 → Works p (step o e p)
unfolding step
step-Works o (site_found now site) p h = absurd (omega (arith, h))
step-Works o (user_start i tokens) p h =
    start_users-Works (can_start o.user_workers (length p.user_jobs) i tokens p) p
      (front i p.user_sites) (length-front i p.user_sites)
step-Works o (group_start i tokens) p h =
    start_groups-Works (can_start o.group_workers (length p.group_jobs) i tokens p) p
      (front i p.group_sites) (length-front i p.group_sites)
step-Works o (user_reply now i r) p h = go (pick i p.user_jobs) (pick-PickedLess i p.user_jobs)
  where
    go :
        (found : Option (Job × List Job))
        → PickedLess p.user_jobs found
        → Works p (elim found [
          | none ↦ p
          | some (j, js) ↦ record p {
            user_jobs = js;
            state = finish_users o now j.tracker r p.state;
          }
        ])
    go none k = inl refl
    go (some (j, js)) k = inr (omega (arith, k))
step-Works o (group_reply now i r) p h = go (pick i p.group_jobs) (pick-PickedLess i p.group_jobs)
  where
    go :
        (found : Option (Job × List Job))
        → PickedLess p.group_jobs found
        → Works p (elim found [
          | none ↦ p
          | some (j, js) ↦ record p {
            group_jobs = js;
            state = finish_groups o now j.tracker r p.state;
          }
        ])
    go none k = inl refl
    go (some (j, js)) k = inr (omega (arith, k))

module _ (o : Options) (tokens now : ℕ) (users : Job → Reply (List SiteUser))
    (groups : Job → Reply GroupFetchResult) where
  -- A step that some worker can take: one at work has its reply, or, when none is, one starts.
  abbrev pub next_event : List Site → List Site → List Job → List Job → Option Event
  next_event us gs (j ∷ js) gj = some (user_reply now 0 (users j))
  next_event us gs [] (j ∷ js) = some (group_reply now 0 (groups j))
  next_event (s ∷ ss) gs [] [] = some (user_start 0 tokens)
  next_event [] (s ∷ ss) [] [] = some (group_start 0 tokens)
  next_event [] [] [] [] = none

  abbrev pub Advances : Pipeline → Option Event → Type 0
  Advances p none = Quiet p
  Advances p (some e) = work (step o e p) < work p

  -- Both pools have a worker, and the scaler a live token.
  abbrev pub IsStaffed : Type 0
  IsStaffed = (0 < o.user_workers) × (0 < o.group_workers) × (0 < tokens)

  users_start-less :
      (p : Pipeline) (site : Site) (rest : List Site)
      → IsStaffed
      → p.user_sites ≡ site ∷ rest
      → p.user_jobs ≡ []
      → p.group_jobs ≡ []
      → work (step o (user_start 0 tokens) p) < work p
  unfolding step can_start start_users
  users_start-less p site rest (a, b, c) us uj gj =
      let free : can_start o.user_workers (length p.user_jobs) 0 tokens p ≡ true =
        rw (uj, gj, can_start) (ground (arith, a, c)) in
      rw free (rw us (ground arith))

  groups_start-less :
      (p : Pipeline) (site : Site) (rest : List Site)
      → IsStaffed
      → p.group_sites ≡ site ∷ rest
      → p.user_jobs ≡ []
      → p.group_jobs ≡ []
      → work (step o (group_start 0 tokens) p) < work p
  unfolding step can_start start_groups
  groups_start-less p site rest (a, b, c) gs uj gj =
      let free : can_start o.group_workers (length p.group_jobs) 0 tokens p ≡ true =
        rw (uj, gj, can_start) (ground (arith, b, c)) in
      rw free (rw gs (ground arith))

  next_event-Advances :
      IsStaffed
      → (p : Pipeline) → Advances p (next_event p.user_sites p.group_sites p.user_jobs p.group_jobs)
  unfolding step pick
  next_event-Advances staffed p =
      go p.user_sites p.group_sites p.user_jobs p.group_jobs refl refl refl refl
    where
      go :
          (us gs : List Site) (uj gj : List Job)
          → p.user_sites ≡ us
          → p.group_sites ≡ gs
          → p.user_jobs ≡ uj
          → p.group_jobs ≡ gj
          → Advances p (next_event us gs uj gj)
      go us gs (j ∷ js) gj a b c d = rw c (omega arith)
      go us gs [] (j ∷ js) a b c d = rw d (omega arith)
      go (s ∷ ss) gs [] [] a b c d = users_start-less p s ss staffed a c d
      go [] (s ∷ ss) [] [] a b c d = groups_start-less p s ss staffed b c d
      go [] [] [] [] a b c d = (a, b, c, d)

  -- At most so many steps of the workers, and none once there is nothing left.
  unfoldable pub drain : ℕ → Pipeline → List Event
  unfolding step
  drain zero p = []
  drain (suc n) p = elim (next_event p.user_sites p.group_sites p.user_jobs p.group_jobs) [
    | none ↦ []
    | some e ↦ e ∷ drain n (step o e p)
  ]

  -- Wherever the pipeline stands, and whatever the API replies, if both pools have a worker and the
  -- scaler a live token, twice as many steps of the workers as sites wait for them, and one for each
  -- worker at work, are enough to empty the channels to the workers and to finish those at work.
  pub drain-Quiet : IsStaffed → (n : ℕ) (p : Pipeline) → work p ≤ n → Quiet (run o (drain n p) p)
  unfolding drain run
  drain-Quiet staffed zero p h =
      go (next_event p.user_sites p.group_sites p.user_jobs p.group_jobs)
        (next_event-Advances staffed p)
    where
      go : (found : Option Event) → Advances p found → Quiet p
      go none quiet = quiet
      go (some e) less = ground arith
  drain-Quiet staffed (suc n) p h =
      go (λ q. drain-Quiet staffed n q)
        (next_event p.user_sites p.group_sites p.user_jobs p.group_jobs)
        (next_event-Advances staffed p)
    where
      go :
          ((q : Pipeline) → work q ≤ n → Quiet (run o (drain n q) q))
          → (found : Option Event) → Advances p found
          → Quiet (run o (elim found [ none ↦ [] | some e ↦ e ∷ drain n (step o e p) ]) p)
      go rec none quiet = quiet
      go rec (some e) less = rec (step o e p) (omega (arith, less))

  -- The workers find no sites.
  next_event-finds :
      (v : String) (us gs : List Site) (uj gj : List Job) (e : Event)
      → next_event us gs uj gj ≡ some e
      → (found_at v e ≡ 0) × (is_found e ≡ 0)
  next_event-finds v us gs (j ∷ js) gj e q = ground arith
  next_event-finds v us gs [] (j ∷ js) e q = ground arith
  next_event-finds v (s ∷ ss) gs [] [] e q = ground arith
  next_event-finds v [] (s ∷ ss) [] [] e q = ground arith
  next_event-finds v [] [] [] [] e q = ground arith

  drain-finds :
      (v : String) (n : ℕ) (p : Pipeline)
      → (total (found_at v) (drain n p) ≡ 0) × (total is_found (drain n p) ≡ 0)
  unfolding drain
  drain-finds v zero p = (refl, refl)
  drain-finds v (suc n) p =
      go (λ q. drain-finds v n q) (next_event p.user_sites p.group_sites p.user_jobs p.group_jobs)
        (next_event-finds v p.user_sites p.group_sites p.user_jobs p.group_jobs)
    where
      go :
          ((q : Pipeline) → (total (found_at v) (drain n q) ≡ 0) × (total is_found (drain n q) ≡ 0))
          → (found : Option Event)
          → ((e : Event) → found ≡ some e → (found_at v e ≡ 0) × (is_found e ≡ 0))
          → (let es = elim found as (λ x. List Event) [
            | none ↦ []
            | some e ↦ e ∷ drain n (step o e p)
          ] in
              (total (found_at v) es ≡ 0) × (total is_found es ≡ 0))
      go rec none none_found = (refl, refl)
      go rec (some e) none_found =
          let (a, b) = none_found e refl in
          let (c, d) = rec (step o e p) in (omega arith, omega arith)

  run-append : (es fs : List Event) (p : Pipeline) → run o (es ++ fs) p ≡ run o fs (run o es p)
  unfolding run
  run-append [] fs p = refl
  run-append (e ∷ es) fs p = run-append es fs (step o e p)

  -- The run goes on until the workers are done.
  abbrev pub to_the_end : List Event → (ℕ → Tracker) → List Event
  to_the_end es heap = es ++ drain (work (run o es (started heap))) (run o es (started heap))

  -- If no two of the sites that the listing finds have one URL, both pools have a worker and the
  -- scaler has a live token, then after any events each further step of a worker does nothing or
  -- leaves less work, and the workers can go on, one at a time, whatever the API replies to them, to
  -- an end at which every site that was found is completed, once, as succeeded or as failed, with
  -- one recorded outcome for each failed one and nothing left in the outcome map.
  pub run-drains :
      (es : List Event) (heap : ℕ → Tracker) (e : Event)
      → ((v : String) → total (found_at v) es ≤ 1)
      → IsStaffed
      → is_found e ≡ 0
      → Works (run o es (started heap)) (step o e (run o es (started heap)))
        × (let s = (run o (to_the_end es heap) (started heap)).state in
            (s.counters.sites_completed ≡ total is_found es)
            × (s.counters.succeeded + s.counters.failed ≡ total is_found es)
            × (length s.collector.sp_outcomes ≡ s.counters.failed)
            × (s.outcomes ≡ []))
  run-drains es heap e once staffed worker =
      let p = run o es (started heap) in
      let more = drain (work p) p in
      let once_more : (v : String) → total (found_at v) (es ++ more) ≤ 1 = λ v.
        omega (arith, once v, total-append (found_at v) es more, (drain-finds v (work p) p).0) in
      let quiet : Quiet (run o (es ++ more) (started heap)) =
        subst Quiet (sym (run-append es more (started heap)))
          (drain-Quiet staffed (work p) p (omega arith)) in
      let found : total is_found (es ++ more) ≡ total is_found es =
        omega (arith, total-append is_found es more, (drain-finds "" (work p) p).1) in
      let (a, b, c, d) = run-settles o (es ++ more) heap once_more quiet in
      (step-Works o e p worker, (a ∙ found, b ∙ found, c, d))
