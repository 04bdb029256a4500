-- ===== src/BatchWriter/Tests.antt =====
-- Runs of the writer of batch_writer.go over a list of numbers as the database, and its theorems
-- at concrete runs.
use sprawler.Common.{
  ℕ, ◌+◌, ◌≡◌, refl, true, none, some, List, [], ◌∷◌, ◌++◌, arith, length, if◌then◌else◌, ◌==◌,
}
use sprawler.BatchWriter.Defs.{
  Item, reported, Action, Writer, Surroundings, new, register, enable_failure_json, dispatch,
  count_by_kind, bump, bump_stats, bump_kind, bump_kinds, run_before, run_after,
  append_failure_ndjson, record_flush_failure, fail_flush, succeed_flush, settle, flush_items,
  flush_batch, flush_locked,
}
use sprawler.BatchWriter.Loop.{
  Loop, started, Event, adds, rounds, take_input, take_flush, take_tick, add, close, flush,
  buffered, flush_full, receive, drain, select_input, select, round, step, accepted, run,
}
use sprawler.BatchWriter.Accounts.{Accounts, run-started-Accounts}
use sprawler.BatchWriter.Kinds.{KindsAgree, run-KindsAgree}
use sprawler.BatchWriter.History.{History, run-History}
use sprawler.BatchWriter.Closing.{Drained, reads, close_drains}
use sprawler.Common.Dict.{lookup, insert, add_at}

abbrev surroundings : Surroundings ℕ
surroundings = record { elapsed = λ k. k + 1; now = λ k. 100 + k; json_safe = λ v. v }

-- An operation that stores its number, but refuses thirteen.
abbrev store : ℕ → Action (List ℕ)
store v db = if v == 13 then (db, some (reported "unlucky")) else (db ++ v ∷ [], none)

abbrev item : ℕ → Item ℕ
item n = record { kind = "number"; value = n }

-- A writer of batches of two.
abbrev small : Writer (List ℕ) ℕ
small = register "number" store (enable_failure_json "log" true (new 2 3))

abbrev busy : List (Event ℕ)
busy =
    adds (item 1)
    ∷ adds (item 2)
    ∷ rounds take_input
    ∷ adds (item 3)
    ∷ rounds take_input
    ∷ adds (item 13)
    ∷ rounds take_flush
    ∷ adds (item 5)
    ∷ rounds take_tick
    ∷ []

result : Loop (List ℕ) ℕ
unfolding run step add close flush buffered flush_full receive drain select_input select round new
    register enable_failure_json dispatch count_by_kind bump bump_stats bump_kind bump_kinds
    run_before run_after append_failure_ndjson record_flush_failure fail_flush succeed_flush settle
    flush_items flush_batch flush_locked lookup insert add_at
result = run surroundings busy (started small [])

-- The second batch stops at its refused item, whose companion is stored all the same: nothing
-- undoes an operation where no hook does.
stored : result.world ≡ 1 ∷ 2 ∷ 3 ∷ []
unfolding result
stored = refl

counted : (result.success_count ≡ 2) × (result.failure_count ≡ 2) × (result.flush_count ≡ 2)
unfolding result
counted = (refl, refl, refl)

waiting : (length result.input ≡ 1) × (result.total_queued ≡ 5)
unfolding result
waiting = (refl, refl)

run-started-Accounts_example : Accounts (run surroundings busy (started small []))
unfolding new register enable_failure_json
run-started-Accounts_example =
    run-started-Accounts surroundings small [] busy (omega arith) refl refl

run-KindsAgree_example : KindsAgree (run surroundings busy (started small [])).writer
unfolding new register enable_failure_json
run-KindsAgree_example =
    run-KindsAgree surroundings busy (started small [])
      (record { successful = refl; failed = refl })

run-History_example :
    let l = run surroundings busy (started small []) in
    (received : List (Item ℕ)) × (received ++ l.input
      ≡ accepted surroundings busy (started small []))
    × History small.hooks small.ops [] received l.writer l.world
unfolding new register enable_failure_json
run-History_example =
    run-History surroundings small.hooks small.ops [] busy small refl refl refl refl refl

-- Two items in the channel when the writer is closed.
abbrev closing : Loop (List ℕ) ℕ
closing = record (started small []) {
  input = item 7 ∷ item 13 ∷ [];
  closed = true;
  total_queued = 2;
}

close_drains_example : Drained 2 (run surroundings (reads 3) closing)
unfolding new register enable_failure_json
close_drains_example =
    close_drains surroundings (item 7 ∷ item 13 ∷ []) closing (omega arith) refl refl refl
