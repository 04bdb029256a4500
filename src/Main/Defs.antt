-- ===== src/Main/Defs.antt =====
-- cmd/sprawler/main.go: the order of a run. What the parts do to the state of the machine is a
-- parameter; the storage's handle, its closing and its archiving are those of sqlite_storage.go.
-- `log.Fatalf` ends the process at once, without the deferred `Close`. The second interrupt, which
-- ends the process, and the log lines are left out.
use sprawler.Common.{String, Bool, false, Option, none, some, List, [], ◌∷◌, if◌then◌else◌}
use sprawler.Config.Defs.{Config, DatabaseConfig}
use sprawler.Errors.{GoError, Reply, api_error, fetched}
use sprawler.Processors.Results.{ProcessorResult}
use sprawler.Storage.Opening.{StorageConfig}
use sprawler.Storage.Files.{Machine, Handle, close_once, archive_database}

-- A call that can fail.
abbrev pub Fallible : Type 0 → Type 0
Fallible S = S → S × Option GoError

-- A processor of the list: its health check, and its run, which always gives a result.
pub record Processor (S : Type 0) : Type 0 where
  pub health : S → Option GoError
  pub process : S → S × ProcessorResult

pub record Parts (S : Type 0) : Type 0 where
  pub load_config : Reply Config
  pub new_storage : StorageConfig → Fallible S
  pub new_client : Config → Fallible S
  pub initialize_run_status : Fallible S
  pub processors : Config → List (Processor S)
  pub mark_run_completed : Fallible S
  pub machine : Machine S
  -- Whether the context has ended.
  pub interrupted : S → Bool

-- The storage's configuration, field by field.
unfoldable pub storage_config : DatabaseConfig → StorageConfig
storage_config c = record {
  db_type = c.db_type;
  path = c.path;
  name = c.name;
  max_conns = c.max_conns;
  recreate = c.recreate;
  batch_size = c.batch_size;
  flush_interval = c.flush_interval;
  queue_capacity = c.queue_capacity;
  enable_failure_log = c.enable_failure_log;
  failure_log_path = c.failure_log_path;
  busy_timeout = c.busy_timeout;
  cache_size = c.cache_size;
}

pub data Exit : Type 0 where
  fatal : String → GoError → Exit
  finished : Exit

module _ {S : Type 0} where
  unfoldable pub or_fatal : String → Fallible S → (S → S × Exit) → S → S × Exit
  or_fatal text call rest s =
      let (s', e) = call s in elim e [ some err ↦ (s', fatal text err) | none ↦ rest s' ]

  -- The first health check that fails ends the program.
  unfoldable pub check_health : List (Processor S) → (S → S × Exit) → S → S × Exit
  check_health [] rest s = rest s
  check_health (p ∷ ps) rest s =
      let more = check_health ps rest s in
      elim (p.health s) [ some err ↦ (s, fatal "Health check failed" err) | none ↦ more ]

module _ {S : Type 0} (parts : Parts S) where
  open parts use {
    load_config, new_storage, new_client, initialize_run_status, processors, mark_run_completed,
    machine, interrupted,
  }

  -- The result of a processor is only logged.
  unfoldable pub run_processors : List (Processor S) → S → S
  run_processors [] s = s
  run_processors (p ∷ ps) s =
      let rest = run_processors ps (p.process s).0 in if interrupted s then s else rest

  abbrev with_state : Handle S → S → Handle S
  with_state h s = record h { state = s }

  -- The mark's error and the archive's are only logged; the store is closed once more.
  unfoldable pub finalize_run : Handle S → Handle S
  unfolding close_once archive_database
  finalize_run h =
      if interrupted h.state
      then h
      else (close_once machine
          (archive_database machine (with_state h (mark_run_completed h.state).0)).0).0

  -- From the processors on, with the deferred `Close` at the end.
  unfoldable pub run_to_end : List (Processor S) → S → S × Exit
  unfolding run_processors finalize_run
  run_to_end ps s =
      let h = finalize_run (record { closed_once = false; state = run_processors ps s }) in
      ((close_once machine h).0.state, finished)

  unfoldable pub run_with : Config → S → S × Exit
  unfolding or_fatal check_health run_to_end
  run_with cfg =
      or_fatal "Failed to initialize storage" (new_storage (storage_config cfg.database)) (
        or_fatal "Failed to create SharePoint API client" (new_client cfg) (
          or_fatal "Failed to create OneDrive API client" (new_client cfg) (
            or_fatal "Failed to initialize run status" initialize_run_status
              (check_health (processors cfg) (run_to_end (processors cfg))))))

  unfoldable pub main : S → S × Exit
  unfolding run_with
  main s = elim load_config [
    | api_error e ↦ (s, fatal "Failed to load configuration" e)
    | fetched cfg ↦ run_with cfg s
  ]
