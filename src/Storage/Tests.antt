-- ===== src/Storage/Tests.antt =====
-- A small database, and the storage's theorems at runs over it.
use sprawler.Common.{
  ℕ, ◌≡◌, ◌<◌, ◌⊎◌, refl, ap, str_eq, String, true, false, Option, none, some, List, [], ◌∷◌, ◌++◌,
  ◌==◌, if◌then◌else◌, arith,
}
use sprawler.Model.{SiteGroup}
use sprawler.BatchWriter.Defs.{Item, Surroundings}
use sprawler.BatchWriter.Loop.{Event, adds, rounds, take_input}
use sprawler.Storage.Defs.{Entity, site_group, Row, site_group_row, row_of, Db, enqueued}
use sprawler.Storage.Kept.{entity_of, entity_of-row_of}
use sprawler.Storage.Batches.{store}
use sprawler.Common.Int.{pos, negsuc}
use sprawler.Common.Text.{show_int}
use sprawler.Errors.{GoError, eof, api_error, fetched}
use sprawler.Storage.Files.{exists, OutcomeRow, OutcomeItem, OutcomeDb, sharepoint, save_outcomes}
use sprawler.Storage.Outcomes.{OutcomeTable, is_row_of, Saved, save_outcomes-Saved}
use sprawler.Storage.Stored.{IsAtomic, Stores}
use sprawler.Storage.Opening.{
  StorageConfig, Calls, SqliteStorage, new_storage, new_sqlite_storage, and_then, wrapping,
  remove_existing, configure_pragmas, set_pragmas, pragmas, migrate,
}
use sprawler.Storage.Opened.{is_supported, prepared, new_storage-Stores}

abbrev group : ℕ → SiteGroup
group n = record {
  id = n;
  title = "Owners";
  login_name = "owners";
  description = "";
  owner_title = "Anna";
  site_id = "a";
  updated = "";
}

-- The ids of groups are kept in a list; the row of group 13 is refused, and other rows are ignored.
abbrev write : Row → List ℕ → List ℕ × Option String
write (site_group_row g) d =
    if g.id == 13 then (d, some "constraint failed") else (d ++ g.id ∷ [], none)
write _ d = (d, none)

abbrev memory : Db (List ℕ)
memory = record {
  begin = λ n. none;
  exec = λ n inserts row d. write row d;
  commit = λ n c v. if n == 3 then (c, some "disk full") else (v, none);
  rollback = λ n c v. c;
}

memory-IsAtomic : IsAtomic memory
memory-IsAtomic = record {
  commits = λ n c v h. ground (arith, h);
  fails = λ n c v e h. ground (arith, h);
  rolls_back = λ n c v. refl;
}

abbrev label : Entity → String
label e = "group"

abbrev surroundings : Surroundings Entity
surroundings = record { elapsed = λ k. 1; now = λ k. k; json_safe = λ v. v }

abbrev pair : ℕ → ℕ → List (Event Entity) → List (Event Entity)
pair a b es =
    adds (enqueued (site_group (group a)))
    ∷ adds (enqueued (site_group (group b)))
    ∷ rounds take_input
    ∷ rounds take_input
    ∷ es

-- Batches of two: the second has a row that is refused, and the third cannot be committed.
abbrev events : List (Event Entity)
events = pair 1 2 (pair 3 13 (pair 4 5 (pair 6 7 [])))

abbrev two : ℕ → ℕ → List (Item Entity)
two a b = enqueued (site_group (group a)) ∷ enqueued (site_group (group b)) ∷ []

store_test :
    store memory true 0 (two 1 2 ∷ two 3 13 ∷ two 4 5 ∷ two 6 7 ∷ []) [] ≡ 1 ∷ 2 ∷ 6 ∷ 7 ∷ []
unfolding store enqueued row_of
store_test = refl

-- A machine that records what is done to it.
abbrev Deeds : Type 0
Deeds = List String

abbrev does : String → Deeds → Deeds × Option GoError
does what s = (s ++ what ∷ [], none)

abbrev calls : Calls Deeds
calls = record {
  join_path = λ path name. name;
  make_directory = does;
  stat = λ path s. exists;
  remove = λ path. does "remove";
  open_db = λ path conns. does "open";
  ping = does "ping";
  exec_sql = does;
  schema_sql = "schema";
  create_run_status = λ id done. does "create";
  update_run_status = λ id done. does "update";
}

-- Batches of two, and the default capacity.
abbrev config : StorageConfig
config = record {
  db_type = "sqlite";
  path = "./data";
  name = "export.db";
  max_conns = pos 1;
  recreate = true;
  batch_size = pos 2;
  flush_interval = pos 0;
  queue_capacity = negsuc 0;
  enable_failure_log = true;
  failure_log_path = "";
  busy_timeout = negsuc 4;
  cache_size = pos 0;
}

opening_test :
    (new_storage calls memory label config []).0
    ≡ "./data" ∷ "remove" ∷ "open" ∷ "ping" ∷ "PRAGMA journal_mode = WAL"
      ∷ "PRAGMA synchronous = OFF" ∷ "PRAGMA busy_timeout = 5000" ∷ "PRAGMA cache_size = -262144"
      ∷ "PRAGMA temp_store = MEMORY" ∷ "PRAGMA mmap_size = 268435456"
      ∷ "PRAGMA wal_autocheckpoint = 4000" ∷ "schema" ∷ []
unfolding new_storage new_sqlite_storage and_then wrapping remove_existing configure_pragmas
    set_pragmas pragmas migrate show_int
opening_test = refl

new_storage-Stores_example :
    ((e : GoError) × ((new_storage calls memory label config []).1 ≡ api_error e))
    ⊎ ((is_supported config ≡ true)
        × ((st : SqliteStorage (List ℕ)) × (new_storage calls memory label config []
              ≡ (prepared calls config [], fetched st))
            × (0 < st.queue.max_batch_size)
            × (0 < st.queue.input_cap)
            × Stores memory true label memory-IsAtomic surroundings events st.queue []))
new_storage-Stores_example =
    new_storage-Stores calls memory label memory-IsAtomic config [] surroundings events []

entity_of-row_of_example : entity_of (row_of (site_group (group 3))) ≡ site_group (group 3)
entity_of-row_of_example = entity_of-row_of (site_group (group 3))

-- A table of outcomes that refuses the rows of one site, with a commit that succeeds.
abbrev OutcomeContent : Type 0
OutcomeContent = String → String → Option OutcomeRow

abbrev put_row : OutcomeRow → OutcomeContent → OutcomeContent × Option GoError
put_row row d =
    if str_eq row.site_id "bad"
    then (d, some eof)
    else (λ id p. if is_row_of row id p then some row else d id p, none)

abbrev outcome_db : OutcomeDb OutcomeContent
outcome_db = record {
  begin = none;
  prepare = none;
  marshal = λ o. some "json";
  exec = put_row;
  commit = λ d v. (v, none);
}

put_row-refused :
    (row : OutcomeRow) (d : OutcomeContent)
    → str_eq row.site_id "bad" ≡ true
    → put_row row d ≡ (d, some eof)
put_row-refused row d h = rw h

put_row-put :
    (row : OutcomeRow) (d : OutcomeContent)
    → str_eq row.site_id "bad" ≡ false
    → put_row row d ≡ (λ id p. if is_row_of row id p then some row else d id p, none)
put_row-put row d h = rw h

outcome_table : OutcomeTable outcome_db
outcome_table = record {
  read = λ d. d;
  refused = λ row. str_eq row.site_id "bad";
  exec_refused = λ row d id p h. ap (λ r. r.0 id p) (put_row-refused row d h);
  exec_put = λ row d id p h. ap (λ r. r.0 id p) (put_row-put row d h);
  commit_done = λ d v h. refl;
  commit_failed = λ d v e h. cc;
}

abbrev outcome_item : String → OutcomeItem
outcome_item id = record {
  site_url = "https://a/";
  site_id = id;
  value = sharepoint (record {
    site_url = "https://a/";
    site_id = id;
    timestamp = 1;
    duration = 2;
    users_failure = none;
    groups_failure = none;
    users_fetched = 0;
    groups_fetched = 0;
    members_fetched = 0;
    member_errors = 0;
    member_timeout_errors = 0;
  });
}

save_outcomes-Saved_example :
    Saved outcome_db outcome_table "sharepoint"
      (outcome_item "a" ∷ outcome_item "bad" ∷ [])
      (λ id p. none)
      (save_outcomes outcome_db "sharepoint"
        (outcome_item "a" ∷ outcome_item "bad" ∷ [])
        (λ id p. none))
save_outcomes-Saved_example =
    save_outcomes-Saved outcome_db outcome_table "sharepoint"
      (outcome_item "a" ∷ outcome_item "bad" ∷ []) (λ id p. none)
