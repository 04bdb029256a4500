-- ===== src/BatchWriter/Accounts.antt =====
-- The run loop of batch_writer.go loses no item and never buffers more than a batch.
use sprawler.Common.{
  ℕ, ◌+◌, ◌≤◌, ◌<◌, ◌≡◌, refl, true, Option, none, some, List, [], ◌∷◌, arith, length,
  length-append, Bool-cases, Option-cases, inl, inr, if◌then◌else◌,
}
use sprawler.BatchWriter.Defs.{Item, Writer, Surroundings}
use sprawler.BatchWriter.Loop.{
  Loop, Choice, take_input, take_flush, take_tick, Event, adds, rounds, closes, add, close, flush,
  buffered, flush_full, receive, drain, select_input, select, round, step, run, started,
}
use sprawler.BatchWriter.Counts.{flush_locked-Flushed}

-- The items that have left the channel: written, failed, or buffered.
abbrev pub received : {W V : Type 0} → Loop W V → ℕ
received l = l.success_count + l.failure_count + length l.buf

pub record Accounts {W V : Type 0} (l : Loop W V) : Type 0 where
  pub some_room : 0 < l.max_batch_size
  pub conserved : received l + length l.input ≡ l.total_queued
  pub below : length l.buf < l.max_batch_size
  pub capped : length l.input ≤ l.input_cap

module _ {W V : Type 0} (env : Surroundings V) where
  -- `l'` has received `n` items more than `l`; the channel is not looked at.
  pub record Took (n : ℕ) (l l' : Loop W V) : Type 0 where
    pub max_batch_size : l'.max_batch_size ≡ l.max_batch_size
    pub input_cap : l'.input_cap ≡ l.input_cap
    pub received_more : received l' ≡ received l + n
    pub below : length l.buf < l.max_batch_size → length l'.buf < l'.max_batch_size
    pub input : l'.input ≡ l.input
    pub total_queued : l'.total_queued ≡ l.total_queued
    pub closed : l'.closed ≡ l.closed
    pub exited : l'.exited ≡ l.exited

  pub flush-Took : (l : Loop W V) → 0 < l.max_batch_size → Took 0 l (flush env l)
  unfolding flush
  flush-Took l h =
      let f = flush_locked-Flushed env l.writer l.world in
      record {
        max_batch_size = f.max_batch_size;
        input_cap = f.input_cap;
        received_more = ground (arith, f.counted, f.buf);
        below = λ _. ground (arith, f.buf, f.max_batch_size);
        input = refl;
        total_queued = refl;
        closed = refl;
        exited = refl;
      }

  pub flush-empties : (l : Loop W V) → (flush env l).buf ≡ []
  unfolding flush
  flush-empties l = (flush_locked-Flushed env l.writer l.world).buf

  pub receive-Took :
      (it : Item V) (l : Loop W V) → 0 < l.max_batch_size → Took 1 l (receive env it l)
  unfolding receive flush_full buffered
  receive-Took it l h = ground (
    arith,
    length-append l.buf (it ∷ []),
    flush-Took (buffered it l) h,
    flush-empties (buffered it l),
  )

  Took-trans :
      {m n : ℕ} (k : ℕ) {l l' l'' : Loop W V}
      → k ≡ m + n
      → Took m l l'
      → Took n l' l''
      → Took k l l''
  Took-trans k e a b = record {
    max_batch_size = ground (arith, a.max_batch_size, b.max_batch_size);
    input_cap = ground (arith, a.input_cap, b.input_cap);
    received_more = omega (arith, e, a.received_more, b.received_more);
    below = λ h. b.below (a.below h);
    input = ground (arith, a.input, b.input);
    total_queued = ground (arith, a.total_queued, b.total_queued);
    closed = ground (arith, a.closed, b.closed);
    exited = ground (arith, a.exited, b.exited);
  }

  pub drain-Took :
      (its : List (Item V)) (l : Loop W V)
      → 0 < l.max_batch_size
      → Took (length its) l (drain env its l)
  unfolding drain
  drain-Took [] l h = ground arith
  drain-Took (it ∷ its) l h =
      let first = receive-Took it l h in
      Took-trans _ (omega arith) first
        (drain-Took its (receive env it l) (omega (arith, first.max_batch_size)))

  flush_full-Took : (l : Loop W V) → 0 < l.max_batch_size → Took 0 l (flush_full env l)
  unfolding flush_full
  flush_full-Took l h = ground (arith, flush-Took l h)

  -- A case of the select receives what it takes out of the channel.
  select-Accounts :
      (c : Choice) (l l' : Loop W V) → Accounts l → select env c l ≡ some l' → Accounts l'
  unfolding select select_input
  select-Accounts take_tick l l' a e = ground (arith, flush-Took l a.some_room)
  select-Accounts take_flush l l' a e =
      let d = drain-Took l.input (record l { input = [] }) a.some_room in
      let f =
        flush-Took (drain env l.input (record l { input = [] }))
          (omega (arith, d.max_batch_size)) in
      ground (arith, d, f, a)
  select-Accounts take_input l l' a e = go l.input refl e
    where
      go :
          (b : List (Item V))
          → l.input ≡ b
          → (elim b as (λ _. Option (Loop W V)) [
            | [] ↦ if l.closed then some (record (flush env l) { exited = true }) else none
            | it ∷ its ↦ some (receive env it (record l { input = its }))
          ])
            ≡ some l'
          → Accounts l'
      go [] i q = ground (arith, flush-Took l a.some_room, a)
      go (it ∷ its) i q = ground (arith, receive-Took it (record l { input = its }) a.some_room, a)

  round-Accounts :
      (c : Choice) (l l' : Loop W V) → Accounts l → round env c l ≡ some l' → Accounts l'
  unfolding round
  round-Accounts c l l' a e = elim (Bool-cases l.exited) [
    | inl out ↦ absurd (ground arith)
    | inr live ↦
        select-Accounts c (flush_full env l) l'
          (let f = flush_full-Took l a.some_room in ground (arith, f, a)) (ground arith)
  ]

  -- Every event of a run keeps the accounts: each queued item is in the channel, in the buffer,
  -- or counted once as written or failed; the buffer stays below the batch size and the channel
  -- within its capacity.
  pub step-Accounts : (e : Event V) (l : Loop W V) → Accounts l → Accounts (step env e l)
  unfolding step
  step-Accounts (adds it) l a = unfold add in ground (arith, length-append l.input (it ∷ []), a)
  step-Accounts (rounds c) l a = elim (Option-cases (round env c l)) [
    | inl blocked ↦ rw blocked a
    | inr (l', e) ↦ rw e (round-Accounts c l l' a e)
  ]
  step-Accounts closes l a = unfold close in ground (arith, a)

  run-Accounts : (es : List (Event V)) (l : Loop W V) → Accounts l → Accounts (run env es l)
  unfolding run
  run-Accounts [] l a = a
  run-Accounts (e ∷ es) l a = run-Accounts es (step env e l) (step-Accounts e l a)

  -- In every run of a writer that starts with an empty buffer, no counts and room for an item, the
  -- items written, failed, in the buffer and in the channel are together those that were queued;
  -- between two events the buffer is below the batch size, and the channel within its capacity.
  pub run-started-Accounts :
      (w : Writer W V) (world : W) (es : List (Event V))
      → 0 < w.max_batch_size
      → w.buf ≡ []
      → w.success_count + w.failure_count ≡ 0
      → Accounts (run env es (started w world))
  run-started-Accounts w world es pos empty zeroed =
      run-Accounts es (started w world) (ground arith)
