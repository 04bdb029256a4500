-- ===== src/BatchWriter/Counts.antt =====
-- The statistics of batch_writer.go account for every item, and the buffer stays below its bound.
use sprawler.Common.{
  ℕ, ◌+◌, ◌≤◌, ◌≡◌, refl, ◌∙◌, Bool, false, Option, none, some, List, [], ◌∷◌, arith, length,
  Option-cases, inl, inr, ◌⊎◌,
}
use sprawler.Common.Dict.{Dict}
use sprawler.BatchWriter.Defs.{
  Item, Error, Writer, KindStats, Surroundings, bump_stats, bump_kind, bump_kinds, count_by_kind,
  bump, record_flush_failure, fail_flush, succeed_flush, settle, dispatch, run_before, run_after,
  before_hook, flush_items, flush_batch, flush_locked,
}

unfoldable pub bump_all : Bool → Dict ℕ → Dict KindStats → Dict KindStats
bump_all success [] d = d
bump_all success ((k, n) ∷ ns) d = bump_all success ns (bump_stats k success n d)

module _ {W V : Type 0} where
  pub bump_kinds-eq :
      (success : Bool) (ns : Dict ℕ) (w : Writer W V)
      → bump_kinds success ns w ≡ record w { kind_stats = bump_all success ns w.kind_stats }
  unfolding bump_kinds bump_all
  bump_kinds-eq success [] w = refl
  bump_kinds-eq success ((k, n) ∷ ns) w =
      bump_kinds-eq success ns (bump_kind k success n w) ∙ unfold bump_kind in refl

  -- What settling a batch leaves alone, and what it counts.
  pub record Settled (n : ℕ) (w w' : Writer W V) : Type 0 where
    pub max_batch_size : w'.max_batch_size ≡ w.max_batch_size
    pub input_cap : w'.input_cap ≡ w.input_cap
    pub ops : w'.ops ≡ w.ops
    pub hooks : w'.hooks ≡ w.hooks
    pub buf : w'.buf ≡ w.buf
    pub flush_count : w'.flush_count ≡ w.flush_count + 1
    pub counted : w'.success_count + w'.failure_count ≡ w.success_count + w.failure_count + n
    pub fewer : w.failure_count ≤ w'.failure_count

  -- The same of a whole flush, which counts the buffer and empties it.
  pub record Flushed (w w' : Writer W V) : Type 0 where
    pub max_batch_size : w'.max_batch_size ≡ w.max_batch_size
    pub input_cap : w'.input_cap ≡ w.input_cap
    pub ops : w'.ops ≡ w.ops
    pub hooks : w'.hooks ≡ w.hooks
    pub buf : w'.buf ≡ []
    pub counted :
        w'.success_count + w'.failure_count ≡ w.success_count + w.failure_count + length w.buf
    pub fewer : w.failure_count ≤ w'.failure_count

  module _ (env : Surroundings V) where
    pub record_flush_failure-eq :
        (batch : List (Item V)) (e : Error) (w : Writer W V)
        → record_flush_failure env batch e w
          ≡ record w { failures = (record_flush_failure env batch e w).failures }
    unfolding record_flush_failure
    record_flush_failure-eq batch e w = ground arith

    bump_failed-Settled :
        (n : ℕ) (ns : Dict ℕ) (w : Writer W V)
        → Settled n w (bump_kinds false ns (bump false n 0 w))
    unfolding bump
    bump_failed-Settled n ns w = rw bump_kinds-eq (ground arith)

    pub fail_flush-Settled :
        (batch : List (Item V)) (e : Error) (w : Writer W V)
        → Settled (length batch) w (fail_flush env batch e w)
    unfolding fail_flush
    fail_flush-Settled batch e w = rw (record_flush_failure-eq batch e w) (
        let s =
          bump_failed-Settled (length batch) (count_by_kind batch)
            (record w { failures = (record_flush_failure env batch e w).failures }) in
        record {
          max_batch_size = s.max_batch_size;
          input_cap = s.input_cap;
          ops = s.ops;
          hooks = s.hooks;
          buf = s.buf;
          flush_count = s.flush_count;
          counted = s.counted;
          fewer = s.fewer;
        })

    pub succeed_flush-Settled :
        (batch : List (Item V)) (w : Writer W V)
        → Settled (length batch) w (succeed_flush env batch w)
    unfolding succeed_flush bump
    succeed_flush-Settled batch w = rw bump_kinds-eq (ground arith)

    pub settle-Settled :
        (batch : List (Item V)) (e : Option Error) (w : Writer W V)
        → Settled (length batch) w (settle env batch e w)
    unfolding settle
    settle-Settled batch none w = succeed_flush-Settled batch w
    settle-Settled batch (some e) w = fail_flush-Settled batch e w

    flush_batch-settles :
        (batch : List (Item V)) (w : Writer W V) (world : W)
        → (v : Option Error) × ((flush_batch env batch w world).0 ≡ settle env batch v w)
    unfolding flush_batch flush_items settle
    flush_batch-settles batch w world = elim (Option-cases (run_before w.hooks world).1) [
      | inl e ↦ (verdict, rw (e, flush_batch))
      | inr (x, e) ↦ (some (before_hook x), rw (e, flush_batch))
    ]
      where
        done : W × Option Error
        done = dispatch w.ops batch (run_before w.hooks world).0

        verdict : Option Error
        verdict = (run_after w.hooks done.1 done.0).1

    -- A flush leaves the writer alone when the buffer is empty, and settles the buffer's items.
    pub flush_locked-settles :
        (w : Writer W V) (world : W)
        → ((w.buf ≡ []) × ((flush_locked env w world).0 ≡ w))
          ⊎ ((v : Option Error) × ((flush_locked env w world).0
                ≡ settle env w.buf v (record w { buf = [] })))
    unfolding flush_locked
    flush_locked-settles w world = go w.buf refl
      where
        flushed : List (Item V) → Writer W V × W
        flushed b = elim b [
          | [] ↦ (w, world)
          | it ∷ its ↦ flush_batch env (it ∷ its) (record w { buf = [] }) world
        ]

        go :
            (b : List (Item V))
            → w.buf ≡ b
            → ((b ≡ []) × ((flushed b).0 ≡ w))
              ⊎ ((v : Option Error) × ((flushed b).0 ≡ settle env b v (record w { buf = [] })))
        go [] e = inl (refl, refl)
        go (it ∷ its) e = inr (flush_batch-settles (it ∷ its) (record w { buf = [] }) world)

    -- Every flush counts each buffered item once, as written or as failed, and leaves the buffer
    -- empty; the bounds, the operations and the hooks stay.
    pub flush_locked-Flushed : (w : Writer W V) (world : W) → Flushed w (flush_locked env w world).0
    flush_locked-Flushed w world = elim (flush_locked-settles w world) [
      | inl (b, e) ↦ rw e (ground arith)
      | inr (v, e) ↦ rw e (ground (arith, settle-Settled w.buf v (record w { buf = [] })))
    ]
