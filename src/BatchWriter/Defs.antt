-- ===== src/BatchWriter/Defs.antt =====
-- The flush of batch_writer.go. A registered operation and a hook act on a world of the caller's
-- (the database), which is passed along; a Go map is an association list, whose order nothing
-- observes; the clock's readings are taken by the number of flushes done.
use sprawler.Common.{
  ℕ, zero, suc, ◌+◌, String, Bool, true, false, not, ◌||◌, Option, none, some, List, [], ◌∷◌, ◌++◌,
  map, if◌then◌else◌, str_eq, length,
}
use sprawler.Common.Dict.{Dict, lookup, insert, add_at}

pub record Item (V : Type 0) : Type 0 where
  pub kind : String
  pub value : V

-- The errors of a flush: the writer's own two, and those of an operation or a hook.
pub data Error : Type 0 where
  before_hook : Error → Error
  no_operation : String → Error
  reported : String → Error

abbrev pub Action : Type 0 → Type 0
Action W = W → W × Option Error

pub record FlushHooks (W : Type 0) : Type 0 where
  pub before : Option (Action W)
  pub after : Option (Option Error → Action W)

pub record FailedBatch (V : Type 0) : Type 0 where
  pub when : ℕ
  pub batch_size : ℕ
  pub error : Error
  pub items : List V

pub record KindStats : Type 0 where
  pub successful : ℕ
  pub failed : ℕ

abbrev pub no_stats : KindStats
no_stats = record { successful = 0; failed = 0 }

-- `failures` holds the batches handed to the failure log, oldest first.
pub record Writer (W V : Type 0) : Type 0 where
  pub max_batch_size : ℕ
  pub input_cap : ℕ
  pub ops : Dict (V → Action W)
  pub hooks : FlushHooks W
  pub buf : List (Item V)
  pub success_count : ℕ
  pub failure_count : ℕ
  pub flush_count : ℕ
  pub total_write_time : ℕ
  pub kind_stats : Dict KindStats
  pub fail_file_path : String
  pub fail_file_nd : Bool
  pub failures : List (FailedBatch V)

-- What the writer asks of its surroundings: the time that a flush takes and the time of day, by
-- the number of flushes before it, and the copy of a value that can be encoded.
pub record Surroundings (V : Type 0) : Type 0 where
  pub elapsed : ℕ → ℕ
  pub now : ℕ → ℕ
  pub json_safe : V → V

-- `new` takes the sizes as natural numbers: a negative one is handled as zero is.
unfoldable pub or_default : ℕ → ℕ → ℕ
or_default zero d = d
or_default (suc n) d = suc n

unfoldable pub count_by_kind : {V : Type 0} → List (Item V) → Dict ℕ
count_by_kind [] = []
count_by_kind (it ∷ its) = add_at it.kind 1 (count_by_kind its)

unfoldable pub add_stats : Bool → ℕ → KindStats → KindStats
add_stats success n st =
    if success
    then record st { successful = st.successful + n }
    else record st { failed = st.failed + n }

unfoldable pub bump_stats : String → Bool → ℕ → Dict KindStats → Dict KindStats
unfolding add_stats
bump_stats k success n [] = (k, add_stats success n no_stats) ∷ []
bump_stats k success n ((j, st) ∷ d) =
    if str_eq j k then (j, add_stats success n st) ∷ d else (j, st) ∷ bump_stats k success n d

unfoldable pub run_before : {W : Type 0} → FlushHooks W → Action W
run_before h world = elim h.before [ none ↦ (world, none) | some f ↦ f world ]

unfoldable pub run_after : {W : Type 0} → FlushHooks W → Option Error → Action W
run_after h err world = elim h.after [ none ↦ (world, err) | some f ↦ f err world ]

module _ {W V : Type 0} where
  unfoldable pub new : ℕ → ℕ → Writer W V
  unfolding or_default
  new max_batch_size input_cap = record {
    max_batch_size = or_default max_batch_size 1000;
    input_cap =
        or_default input_cap (or_default max_batch_size 1000 + or_default max_batch_size 1000);
    ops = [];
    hooks = record { before = none; after = none };
    buf = [];
    success_count = 0;
    failure_count = 0;
    flush_count = 0;
    total_write_time = 0;
    kind_stats = [];
    fail_file_path = "";
    fail_file_nd = false;
    failures = [];
  }

  unfoldable pub register : String → (V → Action W) → Writer W V → Writer W V
  register kind exec w = record w { ops = insert kind exec w.ops }

  unfoldable pub set_flush_hooks : FlushHooks W → Writer W V → Writer W V
  set_flush_hooks h w = record w { hooks = h }

  unfoldable pub enable_failure_json : String → Bool → Writer W V → Writer W V
  enable_failure_json path ndjson w = record w { fail_file_path = path; fail_file_nd = ndjson }

  unfoldable pub bump : Bool → ℕ → ℕ → Writer W V → Writer W V
  bump success n elapsed w =
      if success
      then record w {
        flush_count = w.flush_count + 1;
        success_count = w.success_count + n;
        total_write_time = w.total_write_time + elapsed;
      }
      else record w { flush_count = w.flush_count + 1; failure_count = w.failure_count + n }

  unfoldable pub bump_kind : String → Bool → ℕ → Writer W V → Writer W V
  bump_kind kind success n w = record w { kind_stats = bump_stats kind success n w.kind_stats }

  unfoldable pub bump_kinds : Bool → Dict ℕ → Writer W V → Writer W V
  bump_kinds success [] w = w
  bump_kinds success ((kind, n) ∷ ns) w = bump_kinds success ns (bump_kind kind success n w)

  -- The loop over the batch: it stops at the first item that fails.
  unfoldable pub dispatch : Dict (V → Action W) → List (Item V) → Action W
  dispatch ops [] world = (world, none)
  dispatch ops (it ∷ its) world = elim (lookup it.kind ops) [
    | none ↦ (world, some (no_operation it.kind))
    | some fn ↦
        let (world', err) = fn it.value world in
        elim err [ none ↦ dispatch ops its world' | some e ↦ (world', some e) ]
  ]

  module _ (env : Surroundings V) where
    open env use {elapsed, now, json_safe}

    unfoldable pub append_failure_ndjson : FailedBatch V → Writer W V → Writer W V
    append_failure_ndjson fb w =
        if str_eq w.fail_file_path "" || not w.fail_file_nd
        then w
        else record w { failures = w.failures ++ record fb { items = map json_safe fb.items } ∷ [] }

    unfoldable pub record_flush_failure : List (Item V) → Error → Writer W V → Writer W V
    unfolding append_failure_ndjson
    record_flush_failure batch err w =
        append_failure_ndjson
          (record {
            when = now w.flush_count;
            batch_size = length batch;
            error = err;
            items = map (λ it. it.value) batch;
          })
          w

    unfoldable pub fail_flush : List (Item V) → Error → Writer W V → Writer W V
    fail_flush batch err w =
        bump_kinds false (count_by_kind batch)
          (bump false (length batch) 0 (record_flush_failure batch err w))

    unfoldable pub succeed_flush : List (Item V) → Writer W V → Writer W V
    succeed_flush batch w =
        bump_kinds true (count_by_kind batch) (bump true (length batch) (elapsed w.flush_count) w)

    unfoldable pub settle : List (Item V) → Option Error → Writer W V → Writer W V
    settle batch none w = succeed_flush batch w
    settle batch (some e) w = fail_flush batch e w

    -- The part of a flush that follows a `Before` hook that did not fail.
    unfoldable pub flush_items : List (Item V) → Writer W V → W → Writer W V × W
    flush_items batch w world =
        let (done, err) = dispatch w.ops batch world in
        let (closed, verdict) = run_after w.hooks err done in (settle batch verdict w, closed)

    unfoldable pub flush_batch : List (Item V) → Writer W V → W → Writer W V × W
    flush_batch batch w world =
        let (opened, err) = run_before w.hooks world in
        elim err [
          | none ↦ flush_items batch w opened
          | some e ↦ (fail_flush batch (before_hook e) w, opened)
        ]

    unfoldable pub flush_locked : Writer W V → W → Writer W V × W
    flush_locked w world = elim w.buf [
      | [] ↦ (w, world)
      | it ∷ its ↦ flush_batch (it ∷ its) (record w { buf = [] }) world
    ]
