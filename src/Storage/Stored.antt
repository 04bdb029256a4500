-- ===== src/Storage/Stored.antt =====
-- What the database holds after a run of the batch writer with the storage's hooks and operations.
use Prim.Native.String.{◌++◌ as append}
use sprawler.Common.{
  ℕ, ◌+◌, ◌≡◌, refl, sym, ap, ◌∙◌, subst, String, Bool, true, false, Option, none, some, List, [],
  ◌∷◌, ◌++◌, inl, inr, if◌then◌else◌, length, arith, Option-cases,
}
use sprawler.Common.Dict.{Dict}
use sprawler.BatchWriter.Defs.{
  Item, Error, reported, before_hook, Action, Writer, Surroundings, dispatch, run_before, run_after,
}
use sprawler.BatchWriter.Loop.{Event, run, started, accepted}
use sprawler.BatchWriter.Order.{transact, replay, joined, written, all_written}
use sprawler.BatchWriter.History.{run-History}
use sprawler.Storage.Defs.{Entity, Db, World, idle, begin_tx, end_tx, flush_hooks}
use sprawler.Storage.Batches.{
  committed_if, content_or, count_if, write_rows, attempt, store, stored_items, start, start_fresh,
  Dispatched, dispatch-Dispatched,
}

-- As database/sql documents it: a commit that succeeds makes the transaction's content the
-- database's, and one that fails, like a rollback, leaves the database as it was.
pub record IsAtomic {D : Type 0} (db : Db D) : Type 0 where
  pub commits : (n : ℕ) (c v : D) → (db.commit n c v).1 ≡ none → (db.commit n c v).0 ≡ v
  pub fails :
      (n : ℕ) (c v : D) (e : String) → (db.commit n c v).1 ≡ some e → (db.commit n c v).0 ≡ c
  pub rolls_back : (n : ℕ) (c v : D) → db.rollback n c v ≡ c

module _ {D : Type 0} (db : Db D) (use_inserts : Bool) where
  module _ (err_label : Entity → String) where
    abbrev after_begin :
        Dict (Entity → Action (World D))
        → List (Item Entity)
        → World D × Option Error
        → World D × Option Error
    after_begin d b r = elim r.1 [
      | none ↦ (let (done, verdict) = dispatch d b r.0 in end_tx db verdict done)
      | some e ↦ (r.0, some (before_hook e))
    ]

    transact-after_begin :
        (d : Dict (Entity → Action (World D))) (b : List (Item Entity)) (w : World D)
        → transact (flush_hooks db) d b w ≡ after_begin d b (begin_tx db w)
    unfolding transact flush_hooks run_before run_after
    transact-after_begin d b w = refl

    -- A transaction that is over: what it has left, and its verdict.
    abbrev Over : World D → Option D → ℕ → World D × Option Error → Type 0
    Over w o n r =
        (r.0.committed ≡ content_or w.committed o)
        × (w.is_active ≡ false → r.0.is_active ≡ false)
        × (r.0.begun ≡ w.begun + 1)
        × (written n r.1 ≡ count_if n o)

    begin_fails :
        (w : World D) (e : String)
        → db.begin w.begun ≡ some e
        → (err : Error) × (begin_tx db w ≡ (record w { begun = w.begun + 1 }, some err))
    unfolding begin_tx
    begin_fails w e h = (reported (append "begin tx: " e), rw (h, begin_tx) refl)

    abbrev opened : World D → World D
    opened w = record w { view = w.committed; is_active = true; begun = w.begun + 1 }

    begin_opens : (w : World D) → db.begin w.begun ≡ none → begin_tx db w ≡ (opened w, none)
    unfolding begin_tx
    begin_opens w h = rw (h, begin_tx) refl

    module _ (atomic : IsAtomic db) where
      commit-Over :
          (w : World D) (n : ℕ) (v : D)
          → Over w
              (committed_if (db.commit (w.begun + 1) w.committed v).1 v)
              n
              (end_tx db none (record (opened w) { view = v }))
      unfolding end_tx
      commit-Over w n v = elim (Option-cases (db.commit (w.begun + 1) w.committed v).1) [
        | inl h ↦ ground (arith, h, atomic.commits (w.begun + 1) w.committed v h)
        | inr (e, h) ↦ ground (arith, h, atomic.fails (w.begun + 1) w.committed v e h)
      ]

      end_tx-Over :
          (w : World D) (n : ℕ) (v : D) (ok : Bool) (r : World D × Option Error)
          → Dispatched db use_inserts err_label (opened w) (v, ok) r
          → Over w
              (if ok then committed_if (db.commit (w.begun + 1) w.committed v).1 v else none)
              n
              (end_tx db r.1 r.0)
      unfolding end_tx
      end_tx-Over w n v true r (h, k) =
          subst
            (λ x.
              Over w (committed_if (db.commit (w.begun + 1) w.committed v).1 v) n (end_tx db r.1 x))
            (sym h)
            (subst
              (λ y.
                Over w (committed_if (db.commit (w.begun + 1) w.committed v).1 v) n
                  (end_tx db y (record (opened w) { view = v })))
              (sym k) (commit-Over w n v))
      end_tx-Over w n v false r (h, (e, k)) =
          subst (λ x. Over w none n (end_tx db r.1 x)) (sym h)
            (subst (λ y. Over w none n (end_tx db y (record (opened w) { view = v }))) (sym k)
              (atomic.rolls_back (w.begun + 1) w.committed v, λ _. refl, refl, refl))

      attempt-opens :
          (n : ℕ) (b : List (Item Entity)) (d : D)
          → db.begin n ≡ none
          → attempt db use_inserts n b d ≡ (
              let (v, ok) = write_rows db use_inserts (n + 1) b d in
              if ok then committed_if (db.commit (n + 1) d v).1 v else none)
      unfolding attempt
      attempt-opens n b d h = rw (h, attempt) refl

      attempt-fails :
          (n : ℕ) (b : List (Item Entity)) (d : D) (e : String)
          → db.begin n ≡ some e
          → attempt db use_inserts n b d ≡ none
      unfolding attempt
      attempt-fails n b d e h = rw (h, attempt) refl

      -- A batch between the storage's hooks is stored as a whole, or not at all.
      pub transact-Over :
          (size room n : ℕ) (b : List (Item Entity)) (w : World D)
          → Over w
              (attempt db use_inserts w.begun b w.committed)
              n
              (transact (flush_hooks db) (start db use_inserts err_label size room).ops b w)
      transact-Over size room n b w =
          let d = (start db use_inserts err_label size room).ops in
          let o = attempt db use_inserts w.begun b w.committed in
          elim (Option-cases (db.begin w.begun)) [
            | inl h ↦
                let (v, ok) = write_rows db use_inserts (w.begun + 1) b w.committed in
                subst (λ r. Over w o n r)
                  (sym (transact-after_begin d b w ∙ ap (after_begin d b) (begin_opens w h)))
                  (subst (λ x. Over w x n (after_begin d b (opened w, none)))
                    (sym (attempt-opens w.begun b w.committed h))
                    (end_tx-Over w n v ok (dispatch d b (opened w))
                      (dispatch-Dispatched db use_inserts err_label size room b (opened w) refl)))
            | inr (e, h) ↦
                let (err, k) = begin_fails w e h in
                subst (λ r. Over w o n r)
                  (sym (transact-after_begin d b w ∙ ap (after_begin d b) k))
                  (subst
                    (λ x. Over w x n (record w { begun = w.begun + 1 }, some (before_hook err)))
                    (sym (attempt-fails w.begun b w.committed e h)) (refl, λ i. i, refl, refl))
          ]

      replay-stores :
          (size room : ℕ) (bs : List (List (Item Entity))) (w : World D)
          → ((replay (flush_hooks db) (start db use_inserts err_label size room).ops bs w).committed
              ≡ store db use_inserts w.begun bs w.committed)
            × (all_written (flush_hooks db) (start db use_inserts err_label size room).ops bs w
                ≡ stored_items db use_inserts w.begun bs w.committed)
      unfolding replay all_written store stored_items
      replay-stores size room [] w = (refl, refl)
      replay-stores size room (b ∷ bs) w = ground (
        arith,
        transact-Over size room (length b) b w,
        replay-stores size room bs
            (transact (flush_hooks db) (start db use_inserts err_label size room).ops b w).0,
      )

      -- What a run of a writer leaves of a content: some batches stored, and the rest still waiting.
      abbrev pub Stores :
          Surroundings Entity → List (Event Entity) → Writer (World D) Entity → D → Type 0
      Stores env es q d =
          let l = run env es (started q (idle d)) in
          (batches : List (List (Item Entity))) × ((joined batches ++ l.writer.buf) ++ l.input
            ≡ accepted env es (started q (idle d)))
          × (l.world.committed ≡ store db use_inserts 0 batches d)
          × (l.writer.success_count ≡ stored_items db use_inserts 0 batches d)

      -- A run of any writer that has the storage's hooks and operations, an empty buffer and no
      -- counts stores its batches.
      pub run-Stores :
          (env : Surroundings Entity) (size room : ℕ) (d : D) (es : List (Event Entity))
          (q : Writer (World D) Entity)
          → q.hooks ≡ flush_hooks db
          → q.ops ≡ (start db use_inserts err_label size room).ops
          → q.buf ≡ []
          → q.success_count ≡ 0
          → q.failure_count ≡ 0
          → Stores env es q d
      run-Stores env size room d es q hk os bf good bad =
          let (received, all, past) =
            run-History env (flush_hooks db) (start db use_inserts err_label size room).ops (idle d)
              es q hk os bf good bad in
          let (k, c) = replay-stores size room past.batches (idle d) in
          (
            past.batches,
            ap (λ r. r ++ (run env es (started q (idle d))).input) past.in_order ∙ all,
            sym (ap (λ x. x.committed) past.replayed) ∙ k,
            past.counted_written ∙ c,
          )

      -- Every run of the batch writer with the storage's hooks and operations leaves the database
      -- with some batches stored one after the other, each as a whole or, when it could not begin,
      -- write all its rows or commit, not at all; the batches are, joined, the accepted items in
      -- their order less those still in the buffer and the channel; and the count of the written
      -- items is the number of items of the batches that were stored.
      pub run-stores :
          (env : Surroundings Entity) (size room : ℕ) (d : D) (es : List (Event Entity))
          → let l = run env es (started (start db use_inserts err_label size room) (idle d)) in
            (batches : List (List (Item Entity))) × ((joined batches ++ l.writer.buf) ++ l.input
              ≡ accepted env es (started (start db use_inserts err_label size room) (idle d)))
            × (l.world.committed ≡ store db use_inserts 0 batches d)
            × (l.writer.success_count ≡ stored_items db use_inserts 0 batches d)
      run-stores env size room d es =
          let (hk, bf, good, bad) = start_fresh db use_inserts err_label size room in
          run-Stores env size room d es (start db use_inserts err_label size room) hk refl bf good
            bad
