-- ===== src/Main/Order.antt =====
-- What a run comes to: which processors run, and what is done to the storage after them.
use sprawler.Common.{
  String, ℕ, zero, suc, ◌≤◌, ◌<◌, ◌≡◌, refl, ap, ◌∙◌, true, false, List, [], ◌∷◌, ◌⊎◌, inl, inr,
  length, take, if◌then◌else◌, arith, Bool-cases, Option-cases,
}
use sprawler.Config.Defs.{Config}
use sprawler.Errors.{Reply-cases, GoError, api_error, fetched}
use sprawler.Storage.Files.{Machine, Handle, close_once, archive_database}
use sprawler.Main.Defs.{
  storage_config, Processor, Parts, Exit, finished, fatal, Fallible, or_fatal, check_health,
  run_processors, finalize_run, run_to_end, run_with, main,
}

module _ {S : Type 0} (m : Machine S) where
  close_once-closed : (h : Handle S) → (close_once m h).0.closed_once ≡ true
  unfolding close_once
  close_once-closed h = ground arith

  close_once_again : (h : Handle S) → h.closed_once ≡ true → (close_once m h).0 ≡ h
  unfolding close_once
  close_once_again h c = rw c

  archive_database-closed : (h : Handle S) → (archive_database m h).0.closed_once ≡ true
  unfolding archive_database
  archive_database-closed h = elim (Option-cases (close_once m h).1) [
    | inl none_there ↦ rw (none_there, archive_database) (close_once-closed h)
    | inr (e, failed) ↦ rw (failed, archive_database) (close_once-closed h)
  ]

-- The state after processors, one after the other.
abbrev pub process_all : {S : Type 0} → List (Processor S) → S → S
process_all [] s = s
process_all (p ∷ ps) s = process_all ps (p.process s).0

abbrev pub fresh_handle : {S : Type 0} → S → Handle S
fresh_handle s = record { closed_once = false; state = s }

module _ {S : Type 0} (parts : Parts S) where
  -- The first `k` processors run before the context ends, or all of them.
  pub record Ran (ps : List (Processor S)) (s : S) (k : ℕ) : Type 0 where
    pub enough : k ≤ length ps
    pub undisturbed : (j : ℕ) → j < k → parts.interrupted (process_all (take j ps) s) ≡ false
    pub ran : run_processors parts ps s ≡ process_all (take k ps) s
    pub ended : (k ≡ length ps) ⊎ (parts.interrupted (process_all (take k ps) s) ≡ true)

  first-undisturbed :
      (p : Processor S) (ps : List (Processor S)) (s : S) (k : ℕ)
      → parts.interrupted s ≡ false
      → ((j : ℕ) → j < k → parts.interrupted (process_all (take j ps) (p.process s).0) ≡ false)
      → (j : ℕ) → j < suc k
      → parts.interrupted (process_all (take j (p ∷ ps)) s) ≡ false
  first-undisturbed p ps s k h later zero lt = h
  first-undisturbed p ps s k h later (suc j) lt = later j (omega arith)

  stopped :
      (p : Processor S) (ps : List (Processor S)) (s : S)
      → parts.interrupted s ≡ true
      → run_processors parts (p ∷ ps) s ≡ s
  unfolding run_processors
  stopped p ps s h = rw h

  goes_on :
      (p : Processor S) (ps : List (Processor S)) (s : S)
      → parts.interrupted s ≡ false
      → run_processors parts (p ∷ ps) s ≡ run_processors parts ps (p.process s).0
  unfolding run_processors
  goes_on p ps s h = rw h

  run_processors-Ran : (ps : List (Processor S)) (s : S) → (k : ℕ) × Ran ps s k
  run_processors-Ran [] s = (
    0,
    record {
      enough = omega arith;
      undisturbed = λ j lt. absurd (omega arith);
      ran = unfold run_processors in refl;
      ended = inl refl;
    },
  )
  run_processors-Ran (p ∷ ps) s = elim (Bool-cases (parts.interrupted s)) [
    | inl over ↦ (
      0,
      record {
        enough = omega arith;
        undisturbed = λ j lt. absurd (omega arith);
        ran = stopped p ps s over;
        ended = inr over;
      },
    )
    | inr on ↦
        let (k, r) = run_processors-Ran ps (p.process s).0 in
        (
          suc k,
          record {
            enough = omega (arith, r.enough);
            undisturbed = first-undisturbed p ps s k on r.undisturbed;
            ran = goes_on p ps s on ∙ r.ran;
            ended = elim r.ended [ inl e ↦ inl (ap suc e) | inr e ↦ inr e ];
          },
        )
  ]

  -- What is left of a run whose processors have come to a state.
  abbrev pub left_by : S → S
  left_by s =
      if parts.interrupted s
      then (close_once parts.machine (fresh_handle s)).0.state
      else (archive_database parts.machine (fresh_handle (parts.mark_run_completed s).0)).0.state

  run_to_end-left_by :
      (ps : List (Processor S)) (s : S)
      → run_to_end parts ps s ≡ (left_by (run_processors parts ps s), finished)
  unfolding run_to_end finalize_run
  run_to_end-left_by ps s =
      let r = run_processors parts ps s in
      elim (Bool-cases (parts.interrupted r)) [
        | inl over ↦ rw over
        | inr on ↦
            let h =
              (archive_database parts.machine (fresh_handle (parts.mark_run_completed r).0)).0 in
            let c : h.closed_once ≡ true =
              archive_database-closed parts.machine (fresh_handle (parts.mark_run_completed r).0) in
            rw on (
              ap (λ (x : Handle S). (x.state, finished))
                (ap (λ (x : Handle S). (close_once parts.machine x).0)
                    (close_once_again parts.machine h c)
                  ∙ close_once_again parts.machine h c))
      ]

  run_to_end-Ran :
      (ps : List (Processor S)) (s : S)
      → (k : ℕ) × Ran ps s k
        × (run_to_end parts ps s ≡ (left_by (process_all (take k ps) s), finished))
  run_to_end-Ran ps s =
      let (k, r) = run_processors-Ran ps s in
      (k, r, run_to_end-left_by ps s ∙ ap (λ t. (left_by t, finished)) r.ran)

  -- The state in which the processors are checked: storage, two clients and the status are there.
  abbrev pub prepared : Config → S → S
  prepared cfg s =
      (parts.initialize_run_status
        (parts.new_client cfg
          (parts.new_client cfg (parts.new_storage (storage_config cfg.database) s).0).0).0).0

  abbrev pub IsFatal : S × Exit → Type 0
  IsFatal r = (text : String) × (e : GoError) × (r.1 ≡ fatal text e)

  -- A call ends the program, or the rest goes on after it.
  or_fatal-cases :
      (text : String) (call : Fallible S) (rest : S → S × Exit) (s : S)
      → IsFatal (or_fatal text call rest s) ⊎ (or_fatal text call rest s ≡ rest (call s).0)
  unfolding or_fatal
  or_fatal-cases text call rest s = elim (Option-cases (call s).1) [
    | inl done ↦ inr (rw (done, or_fatal))
    | inr (e, failed) ↦ inl (text, e, rw (failed, or_fatal))
  ]

  check_health-cases :
      (ps : List (Processor S)) (rest : S → S × Exit) (s : S)
      → IsFatal (check_health ps rest s) ⊎ (check_health ps rest s ≡ rest s)
  unfolding check_health
  check_health-cases [] rest s = inr refl
  check_health-cases (p ∷ ps) rest s = elim (Option-cases (p.health s)) [
    | inl well ↦ elim (check_health-cases ps rest s) [
      | inl (text, e, h) ↦ inl (text, e, rw (well, check_health) h)
      | inr h ↦ inr (rw (well, check_health) h)
    ]
    | inr (e, ill) ↦ inl ("Health check failed", e, rw (ill, check_health))
  ]

  ends_or_goes_on :
      {r t u : S × Exit} → IsFatal r ⊎ (r ≡ t) → IsFatal t ⊎ (t ≡ u) → IsFatal r ⊎ (r ≡ u)
  ends_or_goes_on (inl f) next = inl f
  ends_or_goes_on (inr e) (inl f) = inl (f.0, f.1, ap (λ r. r.1) e ∙ f.2)
  ends_or_goes_on (inr e) (inr h) = inr (e ∙ h)

  run_with-cases :
      (cfg : Config) (s : S)
      → IsFatal (run_with parts cfg s)
        ⊎ (run_with parts cfg s ≡ run_to_end parts (parts.processors cfg) (prepared cfg s))
  unfolding run_with
  run_with-cases cfg s =
      let ps = parts.processors cfg in
      let s1 = (parts.new_storage (storage_config cfg.database) s).0 in
      let s2 = (parts.new_client cfg s1).0 in
      let s3 = (parts.new_client cfg s2).0 in
      let to_end = check_health ps (run_to_end parts ps) in
      let status_on =
        or_fatal "Failed to initialize run status" parts.initialize_run_status to_end in
      let od_on =
        or_fatal "Failed to create OneDrive API client" (parts.new_client cfg) status_on in
      let sp_on = or_fatal "Failed to create SharePoint API client" (parts.new_client cfg) od_on in
      ends_or_goes_on
        (or_fatal-cases "Failed to initialize storage"
          (parts.new_storage (storage_config cfg.database)) sp_on s)
        (ends_or_goes_on
          (or_fatal-cases "Failed to create SharePoint API client" (parts.new_client cfg) od_on s1)
          (ends_or_goes_on
            (or_fatal-cases "Failed to create OneDrive API client" (parts.new_client cfg) status_on
              s2)
            (ends_or_goes_on
              (or_fatal-cases "Failed to initialize run status" parts.initialize_run_status to_end
                s3)
              (check_health-cases ps (run_to_end parts ps) (prepared cfg s)))))

  main-loaded :
      (cfg : Config) (s : S) → parts.load_config ≡ fetched cfg → main parts s ≡ run_with parts cfg s
  unfolding main
  main-loaded cfg s got = rw got

  main-lost :
      (e : GoError) (s : S)
      → parts.load_config ≡ api_error e
      → main parts s ≡ (s, fatal "Failed to load configuration" e)
  unfolding main
  main-lost e s lost = rw lost

  -- A run of the program ends with a fatal error, or it has a configuration and goes, whatever
  -- the processors give and leave, through the first `k` of them, where `k` is the first place at
  -- which the context has ended, or through all. If the context has ended then, the store is
  -- closed, and nothing is marked or archived; if not, all processors have run, the run is marked
  -- as completed, and the database is closed once, with its archiving attempted. No result of a
  -- processor and no error of the mark changes this.
  pub main-Ran :
      (s : S)
      → IsFatal (main parts s)
        ⊎ ((cfg : Config) × (k : ℕ) × (parts.load_config ≡ fetched cfg)
            × Ran (parts.processors cfg) (prepared cfg s) k
            × (main parts s ≡ (
              left_by (process_all (take k (parts.processors cfg)) (prepared cfg s)),
              finished,
            )))
  main-Ran s = elim (Reply-cases parts.load_config) [
    | inl (e, lost) ↦ inl ("Failed to load configuration", e, ap (λ r. r.1) (main-lost e s lost))
    | inr (cfg, got) ↦ elim (run_with-cases cfg s) [
      | inl (text, e, f) ↦ inl (text, e, ap (λ r. r.1) (main-loaded cfg s got) ∙ f)
      | inr goes ↦
          let (k, r, e) = run_to_end-Ran (parts.processors cfg) (prepared cfg s) in
          inr (cfg, k, got, r, main-loaded cfg s got ∙ goes ∙ e)
    ]
  ]
