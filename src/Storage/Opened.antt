-- ===== src/Storage/Opened.antt =====
-- A storage that has been opened, and what its runs leave.
use Prim.Native.String.{◌++◌ as append}
use sprawler.Common.{
  ◌<◌, ◌≡◌, refl, ap, ◌∙◌, String, Bool, true, false, ◌||◌, Option, none, List, [], ◌∷◌, ◌⊎◌, inl,
  inr, str_eq, if◌then◌else◌, arith, Option-cases, Bool-cases,
}
use sprawler.Common.Int.{ℤ, pos_part}
use sprawler.BatchWriter.Defs.{Surroundings}
use sprawler.BatchWriter.Loop.{Event}
use sprawler.Errors.{message, GoError, Reply, api_error, fetched}
use sprawler.Storage.Defs.{Entity, Db}
use sprawler.Storage.Batches.{start_fresh}
use sprawler.Storage.Files.{Stat, exists, not_there, stat_error}
use sprawler.Storage.Opening.{
  StorageConfig, Calls, SqliteStorage, wrapping, set_pragmas, pragmas, remove_existing,
  configure_pragmas, migrate, and_then, queue_of, new_sqlite_storage, new_storage,
}
use sprawler.Storage.Queue.{queue_of-SameRun, plain-sizes}
use sprawler.Storage.Stored.{IsAtomic, Stores, run-Stores}

abbrev pub is_supported : StorageConfig → Bool
is_supported cfg = str_eq cfg.db_type "sqlite" || str_eq cfg.db_type ""

module _ {S A : Type 0} where
  abbrev IsLost : S × Reply A → Type 0
  IsLost r = (e : GoError) × (r.1 ≡ api_error e)

  and_then-cases :
      (call : S → S × Option GoError) (rest : S → S × Reply A) (s : S)
      → IsLost (and_then call rest s)
        ⊎ (((call s).1 ≡ none) × (and_then call rest s ≡ rest (call s).0))
  unfolding and_then
  and_then-cases call rest s = elim (Option-cases (call s).1) [
    | inl h ↦ inr (h, rw (h, and_then) refl)
    | inr (e, h) ↦ inl (e, rw (h, and_then) refl)
  ]

module _ {S : Type 0} where
  wrapping-state :
      (text : String) (call : S → S × Option GoError) (s : S)
      → (wrapping text call s).0 ≡ (call s).0
  unfolding wrapping
  wrapping-state text call s = elim (Option-cases (call s).1) [
    | inl k ↦ rw (k, wrapping) refl
    | inr (e, k) ↦ rw (k, wrapping) refl
  ]

  wrapping-none :
      (text : String) (call : S → S × Option GoError) (s : S)
      → (wrapping text call s).1 ≡ none
      → (call s).1 ≡ none
  unfolding wrapping
  wrapping-none text call s h = elim (Option-cases (call s).1) [
    | inl k ↦ k
    | inr (e, k) ↦ ground (arith, h, k)
  ]

  -- What a list of statements does, whatever their errors.
  abbrev exec_all : (String → S → S × Option GoError) → List String → S → S
  exec_all exec [] s = s
  exec_all exec (p ∷ ps) s = exec_all exec ps (exec p s).0

  set_pragmas-all :
      (exec : String → S → S × Option GoError) (ps : List String) (s : S)
      → (set_pragmas exec ps s).1 ≡ none
      → (set_pragmas exec ps s).0 ≡ exec_all exec ps s
  unfolding set_pragmas wrapping
  set_pragmas-all exec [] s h = refl
  set_pragmas-all exec (p ∷ ps) s h = elim (Option-cases (exec p s).1) [
    | inl k ↦ ground (arith, h, k, set_pragmas-all exec ps (exec p s).0)
    | inr (e, k) ↦ ground (arith, h, k)
  ]

Stat-cases : (x : Stat) → (x ≡ exists) ⊎ ((x ≡ not_there) ⊎ ((e : GoError) × (x ≡ stat_error e)))
Stat-cases exists = inl refl
Stat-cases not_there = inr (inl refl)
Stat-cases (stat_error e) = inr (inr (e, refl))

-- The machine when all went well: the directory made, the earlier database removed where it is to be
-- created again and there is one, the database opened and reached, and the statements executed.
module _ {S : Type 0} (calls : Calls S) where
  open calls use {join_path, make_directory, stat, remove, open_db, ping, exec_sql, schema_sql}

  abbrev removed : Bool → String → S → S
  removed recreate db_path s =
      if recreate
      then elim (stat db_path s) [
        | exists ↦ (remove db_path s).0
        | not_there ↦ s
        | stat_error e ↦ s
      ]
      else s

  abbrev pub prepared : StorageConfig → S → S
  prepared cfg s =
      (exec_sql schema_sql (
        exec_all exec_sql (pragmas cfg.busy_timeout cfg.cache_size) (
          (ping
            (open_db (join_path cfg.path cfg.name) cfg.max_conns (
              removed cfg.recreate (join_path cfg.path cfg.name)
                (make_directory cfg.path s).0)).0).0))).0

  remove_existing-removed :
      (recreate : Bool) (db_path : String) (s : S)
      → (remove_existing calls recreate db_path s).0 ≡ removed recreate db_path s
  unfolding remove_existing wrapping
  remove_existing-removed false db_path s = refl
  remove_existing-removed true db_path s = elim (Stat-cases (stat db_path s)) [
    | inl k ↦ rw k (wrapping-state "failed to remove existing database" (remove db_path) s)
    | inr (inl k) ↦ rw k refl
    | inr (inr (e, k)) ↦ rw k refl
  ]

module _ {S D : Type 0} (calls : Calls S) (db : Db D) (err_label : Entity → String) where
  open calls use {join_path, make_directory, open_db, ping, exec_sql, schema_sql}

  and_then-or :
      {A : Type 0} (call : S → S × Option GoError) (rest : S → S × Reply A) (s after : S)
      (goal : S × Reply A)
      → ((call s).1 ≡ none → (call s).0 ≡ after)
      → IsLost (rest after) ⊎ (rest after ≡ goal)
      → IsLost (and_then call rest s) ⊎ (and_then call rest s ≡ goal)
  and_then-or call rest s after goal done next = elim (and_then-cases call rest s) [
    | inl lost ↦ inl lost
    | inr (h, e) ↦ elim next [
      | inl (err, k) ↦ inl (err, ap (λ r. r.1) (e ∙ ap rest (done h)) ∙ k)
      | inr k ↦ inr (e ∙ ap rest (done h) ∙ k)
    ]
  ]

  configure_pragmas-all :
      (busy_timeout cache_size : ℤ) (s : S)
      → (configure_pragmas calls busy_timeout cache_size s).1 ≡ none
      → (configure_pragmas calls busy_timeout cache_size s).0
        ≡ exec_all exec_sql (pragmas busy_timeout cache_size) s
  unfolding configure_pragmas
  configure_pragmas-all busy_timeout cache_size =
      set_pragmas-all exec_sql (pragmas busy_timeout cache_size)

  migrate-state : (s : S) → (migrate calls s).0 ≡ (exec_sql schema_sql s).0
  unfolding migrate
  migrate-state = wrapping-state "failed to execute schema" (exec_sql schema_sql)

  abbrev storage_of : StorageConfig → SqliteStorage D
  storage_of cfg = record {
    db_path = join_path cfg.path cfg.name;
    base_path = cfg.path;
    queue = queue_of db err_label cfg;
  }

  new_sqlite_storage-cases :
      (cfg : StorageConfig) (s : S)
      → IsLost (new_sqlite_storage calls db err_label cfg s)
        ⊎ (new_sqlite_storage calls db err_label cfg s
            ≡ (prepared calls cfg s, fetched (storage_of cfg)))
  unfolding new_sqlite_storage
  new_sqlite_storage-cases cfg s =
      let path : String = join_path cfg.path cfg.name in
      let s1 = (make_directory cfg.path s).0 in
      let s2 = removed calls cfg.recreate path s1 in
      let s3 = (open_db path cfg.max_conns s2).0 in
      let s4 = (ping s3).0 in
      let s5 = exec_all exec_sql (pragmas cfg.busy_timeout cfg.cache_size) s4 in
      let s6 = (exec_sql schema_sql s5).0 in
      and_then-or _ _ s s1 _ (λ _. wrapping-state _ (make_directory cfg.path) s)
        (and_then-or _ _ s1 s2 _ (λ _. remove_existing-removed calls cfg.recreate path s1)
          (and_then-or _ _ s2 s3 _ (λ _. wrapping-state _ (open_db path cfg.max_conns) s2)
            (and_then-or _ _ s3 s4 _ (λ _. wrapping-state _ ping s3)
              (and_then-or _ _ s4 s5 _
                (λ h.
                  wrapping-state _ (configure_pragmas calls cfg.busy_timeout cfg.cache_size) s4
                  ∙ configure_pragmas-all cfg.busy_timeout cfg.cache_size s4 (
                      wrapping-none _ (configure_pragmas calls cfg.busy_timeout cfg.cache_size) s4
                        h))
                (and_then-or _ _ s5 s6 _
                  (λ _. wrapping-state _ (migrate calls) s5 ∙ migrate-state s5) (inr refl))))))

  module _ (atomic : IsAtomic db) where
    -- Opening the storage ends with an error, or its type is supported, and then the machine is left
    -- with the directory made, an earlier database removed where it is to be created again, the
    -- database opened, and each pragma and the schema executed; the queue takes at least one item
    -- and flushes at least one; and every run of it leaves a content with some batches stored, each
    -- as a whole or not at all, which are, joined, the accepted items in their order less those
    -- still waiting, and counts as written the items of those that were stored.
    pub new_storage-Stores :
        (cfg : StorageConfig) (s : S) (env : Surroundings Entity) (es : List (Event Entity)) (d : D)
        → ((e : GoError) × ((new_storage calls db err_label cfg s).1 ≡ api_error e))
          ⊎ ((is_supported cfg ≡ true)
              × ((st : SqliteStorage D) × (new_storage calls db err_label cfg s
                    ≡ (prepared calls cfg s, fetched st))
                  × (0 < st.queue.max_batch_size)
                  × (0 < st.queue.input_cap)
                  × Stores db cfg.recreate err_label atomic env es st.queue d))
    unfolding new_storage
    new_storage-Stores cfg s env es d = elim (Bool-cases (is_supported cfg)) [
      | inl known ↦ elim (new_sqlite_storage-cases cfg s) [
        | inl (e, h) ↦ inl (e, rw known h)
        | inr h ↦
            let (hk, os, bf, good, bad, size, room) = queue_of-SameRun db err_label cfg in
            let (hk', bf', good', bad') =
              start_fresh db cfg.recreate err_label (pos_part cfg.batch_size)
                (pos_part cfg.queue_capacity) in
            let (one, place) = plain-sizes db err_label cfg in
            inr (
              known,
              (
                storage_of cfg,
                rw known h,
                omega (arith, size, one),
                omega (arith, room, place),
                run-Stores db cfg.recreate err_label atomic env (pos_part cfg.batch_size)
                    (pos_part cfg.queue_capacity) d es (queue_of db err_label cfg) (hk ∙ hk') os
                    (bf ∙ bf') (good ∙ good') (bad ∙ bad'),
              ),
            )
      ]
      | inr other ↦ inl (message (append "unsupported storage type: " cfg.db_type), rw other refl)
    ]
