-- ===== src/BatchWriter/Rule.antt =====
-- First in, first out, as a rule for the run loop of batch_writer.go: what holds of the items
-- received so far, the writer and its world, and is kept by flushing and by buffering one item
-- more, holds after every run, of the accepted items less those still in the channel.
use sprawler.Common.{
  ◌+◌, ◌≡◌, refl, sym, ap, ◌∙◌, Bool, true, false, Option, none, some, List, [], ◌∷◌, ◌++◌,
  append-nil, append_assoc, if◌then◌else◌, leb, ltb, length,
}
use sprawler.BatchWriter.Defs.{Item, Writer, Surroundings, flush_locked}
use sprawler.BatchWriter.Loop.{
  Loop, Choice, take_input, take_flush, take_tick, Event, adds, rounds, closes, sent, blocks,
  panics, AddResult, add, close, flush, buffered, flush_full, receive, drain, select_input, select,
  round, after_round, after_add, taken, taken_by, accepted, step, run,
}

module _ {W V : Type 0} (env : Surroundings V) (P : List (Item V) → Writer W V → W → Type 0)
    (flush_keeps : (xs : List (Item V)) (w : Writer W V) (world : W)
      → P xs w world
      → P xs (flush_locked env w world).0 (flush_locked env w world).1)
    (buffer_keeps : (xs : List (Item V)) (it : Item V) (w : Writer W V) (world : W)
      → P xs w world
      → P (xs ++ it ∷ []) (record w { buf = w.buf ++ it ∷ [] }) world) where
  -- `P` holds of what `l` has received, when `its` and the channel's content make up the rest.
  abbrev Pending : List (Item V) → List (Item V) → Loop W V → Type 0
  Pending its all l = (xs : List (Item V)) × (xs ++ (its ++ l.input) ≡ all) × P xs l.writer l.world

  flush_rule :
      (its all : List (Item V)) (l : Loop W V) → Pending its all l → Pending its all (flush env l)
  unfolding flush
  flush_rule its all l (xs, e, p) = (xs, e, flush_keeps xs l.writer l.world p)

  flush_full_rule :
      (its all : List (Item V)) (l : Loop W V)
      → Pending its all l
      → Pending its all (flush_full env l)
  unfolding flush_full
  flush_full_rule its all l p = go (leb l.max_batch_size (length l.buf))
    where
      go : (full : Bool) → Pending its all (if full then flush env l else l)
      go true = flush_rule its all l p
      go false = p

  receive_rule :
      (it : Item V) (its all : List (Item V)) (l : Loop W V)
      → Pending (it ∷ its) all l
      → Pending its all (receive env it l)
  unfolding receive buffered
  receive_rule it its all l (xs, e, p) = flush_full_rule its all (buffered it l) (
    xs ++ it ∷ [],
    append_assoc xs (it ∷ []) (its ++ l.input) ∙ e,
    buffer_keeps xs it l.writer l.world p,
  )

  drain_rule :
      (its all : List (Item V)) (l : Loop W V)
      → Pending its all l
      → Pending [] all (drain env its l)
  unfolding drain
  drain_rule [] all l p = p
  drain_rule (it ∷ its) all l p =
      drain_rule its all (receive env it l) (receive_rule it its all l p)

  abbrev AllPending : List (Item V) → Option (Loop W V) → Type 0
  AllPending all none = Unit
  AllPending all (some l) = Pending [] all l

  select_rule :
      (c : Choice) (all : List (Item V)) (l : Loop W V)
      → Pending [] all l
      → AllPending all (select env c l)
  unfolding select select_input
  select_rule take_tick all l p = flush_rule [] all l p
  select_rule take_flush all l (xs, e, p) =
      let emptied = record l { input = [] } in
      flush_rule [] all (drain env l.input emptied)
        (drain_rule l.input all emptied (xs, ap (◌++◌ xs) (append-nil l.input) ∙ e, p))
  select_rule take_input all l (xs, e, p) = go l.input refl l.closed
    where
      go :
          (b : List (Item V))
          → l.input ≡ b
          → (closed : Bool)
          → AllPending all (elim b [
            | [] ↦ if closed then some (record (flush env l) { exited = true }) else none
            | it ∷ its ↦ some (receive env it (record l { input = its }))
          ])
      go [] i true = flush_rule [] all l (xs, e, p)
      go [] i false = tt
      go (it ∷ its) i closed =
          receive_rule it [] all (record l { input = its }) (xs, ap (◌++◌ xs) (sym i) ∙ e, p)

  after_round_rule :
      (all : List (Item V)) (l : Loop W V) (o : Option (Loop W V))
      → Pending [] all l
      → AllPending all o
      → Pending [] all (after_round l o)
  unfolding after_round
  after_round_rule all l none p h = p
  after_round_rule all l (some l') p h = h

  round_rule :
      (c : Choice) (all : List (Item V)) (l : Loop W V)
      → Pending [] all l
      → Pending [] all (after_round l (round env c l))
  unfolding round
  round_rule c all l p = go l.exited
    where
      go :
          (out : Bool)
          → Pending [] all (after_round l (if out then none else select env c (flush_full env l)))
      go true = after_round_rule all l none p tt
      go false =
          after_round_rule all l _ p
            (select_rule c all (flush_full env l) (flush_full_rule [] all l p))

  add_rule :
      (it : Item V) (all : List (Item V)) (l : Loop W V)
      → Pending [] all l
      → Pending [] (all ++ taken it (add it l)) (after_add l (add it l))
  unfolding add taken after_add
  add_rule it all l (xs, e, p) = go l.closed (ltb (length l.input) l.input_cap)
    where
      unsent : Pending [] (all ++ []) l
      unsent = (xs, e ∙ sym (append-nil all), p)

      result : Bool → Bool → AddResult W V
      result closed room =
          if closed
          then panics
          else if room
          then sent (record l { input = l.input ++ it ∷ []; total_queued = l.total_queued + 1 })
          else blocks

      go :
          (closed room : Bool)
          → Pending [] (all ++ taken it (result closed room)) (after_add l (result closed room))
      go true room = unsent
      go false true = (xs, sym (append_assoc xs l.input (it ∷ [])) ∙ ap (λ ys. ys ++ it ∷ []) e, p)
      go false false = unsent

  step_rule :
      (e : Event V) (all : List (Item V)) (l : Loop W V)
      → Pending [] all l
      → Pending [] (all ++ taken_by e l) (step env e l)
  unfolding step taken_by
  step_rule (rounds c) all l p =
      let (xs, e, q) = round_rule c all l p in (xs, e ∙ sym (unfold taken_by in append-nil all), q)
  step_rule closes all l (xs, e, p) =
      unfold close in (xs, e ∙ sym (unfold taken_by in append-nil all), p)
  step_rule (adds it) all l p = add_rule it all l p

  pub run_rule :
      (es : List (Event V)) (all : List (Item V)) (l : Loop W V)
      → Pending [] all l
      → Pending [] (all ++ accepted env es l) (run env es l)
  unfolding run accepted
  run_rule [] all l (xs, e, p) = (xs, e ∙ sym (append-nil all), p)
  run_rule (e ∷ es) all l p =
      let (xs, q, r) = run_rule es (all ++ taken_by e l) (step env e l) (step_rule e all l p) in
      (xs, q ∙ append_assoc all (taken_by e l) (accepted env es (step env e l)), r)
