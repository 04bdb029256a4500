-- ===== src/BatchWriter/History.antt =====
-- The history of a run of batch_writer.go: which batches it executed, in which order.
use sprawler.BatchWriter.Order.{
  written, failed, transact, replay, all_written, all_failed, joined, joined-snoc, replay-snoc,
  counts-snoc, flush_batch-transact, settle_counts,
}
use sprawler.Common.{
  subst, ◌+◌, ◌≡◌, refl, sym, ap, ◌∙◌, Option, List, [], ◌∷◌, ◌++◌, append-nil, append_assoc, arith,
  length,
}
use sprawler.Common.Dict.{Dict}
use sprawler.BatchWriter.Defs.{
  Item, Error, Action, FlushHooks, Writer, Surroundings, settle, flush_batch, flush_locked,
}
use sprawler.BatchWriter.Loop.{Event, accepted, run, started}
use sprawler.BatchWriter.Counts.{Settled, settle-Settled}
use sprawler.BatchWriter.Rule.{run_rule}

module _ {W V : Type 0} where
  -- The batches executed so far, from the world at the start: joined, they are what was received
  -- less the buffer; replayed, they give the world; and the counts are theirs.
  pub record History (h : FlushHooks W) (ops : Dict (V → Action W)) (start : W)
      (received : List (Item V)) (w : Writer W V) (world : W) : Type 0 where
    pub same_hooks : w.hooks ≡ h
    pub same_ops : w.ops ≡ ops
    pub batches : List (List (Item V))
    pub in_order : joined batches ++ w.buf ≡ received
    pub replayed : replay h ops batches start ≡ world
    pub counted_written : w.success_count ≡ all_written h ops batches start
    pub counted_failed : w.failure_count ≡ all_failed h ops batches start

  module _ (env : Surroundings V) (h : FlushHooks W) (ops : Dict (V → Action W)) (start : W) where
    settled-History :
        (received b : List (Item V)) (w : Writer W V) (world : W)
        → History h ops start received w world
        → w.buf ≡ b
        → History h ops start received
            (settle env b (transact h ops b world).1 (record w { buf = [] }))
            (transact h ops b world).0
    settled-History received b w world past e = record {
      same_hooks = kept.hooks ∙ past.same_hooks;
      same_ops = kept.ops ∙ past.same_ops;
      batches = past.batches ++ b ∷ [];
      in_order =
          ap (◌++◌ (joined (past.batches ++ b ∷ []))) kept.buf
          ∙ append-nil (joined (past.batches ++ b ∷ []))
          ∙ joined-snoc past.batches b
          ∙ ap (◌++◌ (joined past.batches)) (sym e)
          ∙ past.in_order;
      replayed =
          replay-snoc h ops past.batches b start ∙ ap (λ x. (transact h ops b x).0) past.replayed;
      counted_written = omega (
        arith,
        counts.0,
        snoc.0,
        past.counted_written,
        ap (λ x. written (length b) (transact h ops b x).1) past.replayed,
      );
      counted_failed = omega (
        arith,
        counts.1,
        snoc.1,
        past.counted_failed,
        ap (λ x. failed (length b) (transact h ops b x).1) past.replayed,
      );
    }
      where
        verdict : Option Error
        verdict = (transact h ops b world).1

        kept :
            Settled
              (length b)
              (record w { buf = [] })
              (settle env b verdict (record w { buf = [] }))
        kept = settle-Settled env b verdict (record w { buf = [] })

        counts :
            ((settle env b verdict (record w { buf = [] })).success_count
              ≡ w.success_count + written (length b) verdict)
            × ((settle env b verdict (record w { buf = [] })).failure_count
                ≡ w.failure_count + failed (length b) verdict)
        counts = settle_counts env b verdict (record w { buf = [] })

        snoc :
            (all_written h ops (past.batches ++ b ∷ []) start
              ≡ all_written h ops past.batches start
                + written (length b) (transact h ops b (replay h ops past.batches start)).1)
            × (all_failed h ops (past.batches ++ b ∷ []) start
                ≡ all_failed h ops past.batches start
                  + failed (length b) (transact h ops b (replay h ops past.batches start)).1)
        snoc = counts-snoc h ops past.batches b start

    flush_locked-History :
        (received : List (Item V)) (w : Writer W V) (world : W)
        → History h ops start received w world
        → History h ops start received (flush_locked env w world).0 (flush_locked env w world).1
    unfolding flush_locked
    flush_locked-History received w world past = go w.buf refl
      where
        flushed : List (Item V) → Writer W V × W
        flushed b = elim b [
          | [] ↦ (w, world)
          | it ∷ its ↦ flush_batch env (it ∷ its) (record w { buf = [] }) world
        ]

        go :
            (b : List (Item V))
            → w.buf ≡ b
            → History h ops start received (flushed b).0 (flushed b).1
        go [] e = past
        go (it ∷ its) e = rw (flush_batch-transact env (it ∷ its) (record w { buf = [] }) world) (
            subst (λ c. Next w.hooks c) (sym past.same_ops)
              (subst (λ a. Next a ops) (sym past.same_hooks)
                (settled-History received (it ∷ its) w world past e)))
          where
            Next : FlushHooks W → Dict (V → Action W) → Type 0
            Next a c =
                History h ops start received
                  (settle env (it ∷ its) (transact a c (it ∷ its) world).1 (record w { buf = [] }))
                  (transact a c (it ∷ its) world).0

    buffered-History :
        (received : List (Item V)) (it : Item V) (w : Writer W V) (world : W)
        → History h ops start received w world
        → History h ops start (received ++ it ∷ []) (record w { buf = w.buf ++ it ∷ [] }) world
    buffered-History received it w world past = record {
      same_hooks = past.same_hooks;
      same_ops = past.same_ops;
      batches = past.batches;
      in_order =
          sym (append_assoc (joined past.batches) w.buf (it ∷ []))
          ∙ ap (λ xs. xs ++ it ∷ []) past.in_order;
      replayed = past.replayed;
      counted_written = past.counted_written;
      counted_failed = past.counted_failed;
    }

    -- Every run of a writer that starts with an empty buffer and no counts comes to a history:
    -- batches that, joined, are the accepted items in the order of their adds, less the buffer and
    -- the channel's content; executed one after the other from the first world, each between the
    -- hooks, they give the world that the run leaves; and the items of those that end without an
    -- error are the written ones, of the others the failed ones.
    pub run-History :
        (es : List (Event V)) (w : Writer W V)
        → w.hooks ≡ h
        → w.ops ≡ ops
        → w.buf ≡ []
        → w.success_count ≡ 0
        → w.failure_count ≡ 0
        → let l = run env es (started w start) in
          (received : List (Item V)) × (received ++ l.input ≡ accepted env es (started w start))
          × History h ops start received l.writer l.world
    unfolding replay all_written all_failed
    run-History es w hk os empty good bad =
        run_rule env (History h ops start) flush_locked-History buffered-History es []
          (started w start)
          (
            [],
            refl,
            record {
              same_hooks = hk;
              same_ops = os;
              batches = [];
              in_order = empty;
              replayed = refl;
              counted_written = good;
              counted_failed = bad;
            },
          )
