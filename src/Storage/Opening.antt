-- ===== src/Storage/Opening.antt =====
-- The opening of the storage: `NewStorage` of factory.go, `NewSQLiteStorage` with its pragmas and its
-- schema, and the run's status, of sqlite_storage.go. What a call of the database or of the file
-- system does to the state of the machine is a parameter.
use Prim.Native.String.{◌++◌}
use sprawler.Common.{
  ℕ, zero, suc, String, Bool, true, false, ◌||◌, Option, none, some, List, [], ◌∷◌, str_eq,
  if◌then◌else◌,
}
use sprawler.Common.Int.{ℤ, pos, negsuc, pos_part}
use sprawler.Common.Text.{show_int}
use sprawler.BatchWriter.Defs.{Writer, new, enable_failure_json}
use sprawler.Errors.{GoError, message, wrapped, Reply, api_error, fetched}
use sprawler.Storage.Defs.{Entity, Db, World, register_sqlc_operations}
use sprawler.Storage.Files.{Stat, exists, not_there, stat_error}

-- `Config` of storage.go.
pub record StorageConfig : Type 0 where
  pub db_type : String
  pub path : String
  pub name : String
  pub max_conns : ℤ
  pub recreate : Bool
  pub batch_size : ℤ
  pub flush_interval : ℤ
  pub queue_capacity : ℤ
  pub enable_failure_log : Bool
  pub failure_log_path : String
  pub busy_timeout : ℤ
  pub cache_size : ℤ

-- The calls of the opening and of the run's status.
pub record Calls (S : Type 0) : Type 0 where
  pub join_path : String → String → String
  pub make_directory : String → S → S × Option GoError
  pub stat : String → S → Stat
  pub remove : String → S → S × Option GoError
  pub open_db : String → ℤ → S → S × Option GoError
  pub ping : S → S × Option GoError
  pub exec_sql : String → S → S × Option GoError
  pub schema_sql : String
  pub create_run_status : ℕ → Bool → S → S × Option GoError
  pub update_run_status : ℕ → Bool → S → S × Option GoError

-- The storage that is opened, less the handles of the database.
pub record SqliteStorage (D : Type 0) : Type 0 where
  pub db_path : String
  pub base_path : String
  pub queue : Writer (World D) Entity

-- A call whose error is wrapped.
unfoldable pub wrapping : {S : Type 0} → String → (S → S × Option GoError) → S → S × Option GoError
wrapping text call s =
    let (s', e) = call s in elim e [ some err ↦ (s', some (wrapped text err)) | none ↦ (s', none) ]

-- The pragmas are set one after the other, up to one that fails.
unfoldable pub set_pragmas :
    {S : Type 0} → (String → S → S × Option GoError) → List String → S → S × Option GoError
unfolding wrapping
set_pragmas exec [] s = (s, none)
set_pragmas exec (p ∷ ps) s =
    let (s', e) = wrapping ("failed to set pragma " ++ p) (exec p) s in
    elim e [ some err ↦ (s', some err) | none ↦ set_pragmas exec ps s' ]

abbrev pub timeout_or_default : ℤ → ℤ
timeout_or_default (pos zero) = pos 5000
timeout_or_default (pos (suc n)) = pos (suc n)
timeout_or_default (negsuc n) = pos 5000

abbrev pub cache_or_default : ℤ → ℤ
cache_or_default (pos zero) = negsuc 262143
cache_or_default (pos (suc n)) = pos (suc n)
cache_or_default (negsuc n) = negsuc n

abbrev pub setting : String → ℤ → String
setting name value = name ++ show_int value

unfoldable pub pragmas : ℤ → ℤ → List String
unfolding show_int
pragmas busy_timeout cache_size =
    "PRAGMA journal_mode = WAL"
    ∷ "PRAGMA synchronous = OFF"
    ∷ setting "PRAGMA busy_timeout = " (timeout_or_default busy_timeout)
    ∷ setting "PRAGMA cache_size = " (cache_or_default cache_size)
    ∷ "PRAGMA temp_store = MEMORY"
    ∷ "PRAGMA mmap_size = 268435456"
    ∷ "PRAGMA wal_autocheckpoint = 4000"
    ∷ []

-- A step of the opening, and the rest where it has no error.
unfoldable pub and_then :
    {S A : Type 0} → (S → S × Option GoError) → (S → S × Reply A) → S → S × Reply A
and_then call rest s =
    let (s', e) = call s in elim e [ some err ↦ (s', api_error err) | none ↦ rest s' ]

module _ {D : Type 0} (db : Db D) (err_label : Entity → String) where
  abbrev pub failure_log_path_of : StorageConfig → String
  failure_log_path_of cfg =
      if str_eq cfg.failure_log_path "" then "./failed_writes.ndjson" else cfg.failure_log_path

  -- The queue, with its operations and the failure log.
  unfoldable pub queue_of : StorageConfig → Writer (World D) Entity
  unfolding new register_sqlc_operations enable_failure_json
  queue_of cfg =
      let queue : Writer (World D) Entity =
        register_sqlc_operations db cfg.recreate err_label
          (new (pos_part cfg.batch_size) (pos_part cfg.queue_capacity)) in
      if cfg.enable_failure_log
      then enable_failure_json (failure_log_path_of cfg) true queue
      else queue

module _ {S : Type 0} (calls : Calls S) where
  open calls use {
    join_path, make_directory, stat, remove, open_db, ping, exec_sql, schema_sql, create_run_status,
    update_run_status,
  }

  -- The database of an earlier run is removed where it is to be created again.
  unfoldable pub remove_existing : Bool → String → S → S × Option GoError
  unfolding wrapping
  remove_existing recreate db_path s =
      if recreate
      then elim (stat db_path s) [
        | exists ↦ wrapping "failed to remove existing database" (remove db_path) s
        | not_there ↦ (s, none)
        | stat_error e ↦ (s, some (wrapped "error checking existing database" e))
      ]
      else (s, none)

  unfoldable pub configure_pragmas : ℤ → ℤ → S → S × Option GoError
  unfolding set_pragmas pragmas
  configure_pragmas busy_timeout cache_size = set_pragmas exec_sql (pragmas busy_timeout cache_size)

  unfoldable pub migrate : S → S × Option GoError
  unfolding wrapping
  migrate = wrapping "failed to execute schema" (exec_sql schema_sql)

  module _ {D : Type 0} (db : Db D) (err_label : Entity → String) where
    unfoldable pub new_sqlite_storage : StorageConfig → S → S × Reply (SqliteStorage D)
    new_sqlite_storage cfg =
        let db_path : String = join_path cfg.path cfg.name in
        and_then (wrapping "failed to create database directory" (make_directory cfg.path)) (
          and_then (remove_existing cfg.recreate db_path) (
            and_then (wrapping "failed to open database" (open_db db_path cfg.max_conns)) (
              and_then (wrapping "failed to ping database" ping) (
                and_then
                  (wrapping "failed to configure database pragmas"
                    (configure_pragmas cfg.busy_timeout cfg.cache_size))
                  (and_then (wrapping "failed to run migrations" migrate) (λ s. (
                    s,
                    fetched (record {
                      db_path = db_path;
                      base_path = cfg.path;
                      queue = queue_of db err_label cfg;
                    }),
                  )))))))

    unfoldable pub new_storage : StorageConfig → S → S × Reply (SqliteStorage D)
    unfolding new_sqlite_storage
    new_storage cfg s =
        if str_eq cfg.db_type "sqlite" || str_eq cfg.db_type ""
        then new_sqlite_storage cfg s
        else (s, api_error (message ("unsupported storage type: " ++ cfg.db_type)))

  -- The run's status is one row, which is made when the run starts and marked when it is done.
  unfoldable pub initialize_run_status : S → S × Option GoError
  unfolding wrapping
  initialize_run_status = wrapping "failed to initialize run status" (create_run_status 1 false)

  unfoldable pub mark_run_completed : S → S × Option GoError
  unfolding wrapping
  mark_run_completed = wrapping "failed to mark run completed" (update_run_status 1 true)
