-- ===== src/BatchWriter/Loop.antt =====
-- The run loop of batch_writer.go, `Add`, `Flush` and `Close`. A round of the loop is one select;
-- which of its ready cases it takes is the round's choice. A send and the count that follows it are
-- one step.
use sprawler.Common.{
  ℕ, ◌+◌, Bool, true, false, Option, none, some, List, [], ◌∷◌, ◌++◌, ltb, leb, if◌then◌else◌,
  length,
}
use sprawler.BatchWriter.Defs.{Item, Writer, Surroundings, flush_locked}

-- `input` is the content of the channel.
pub record Loop (W V : Type 0) : Type 0 where
  pub writer : Writer W V
  pub open writer use *
  pub world : W
  pub input : List (Item V)
  pub closed : Bool
  pub exited : Bool
  pub total_queued : ℕ

abbrev pub started : {W V : Type 0} → Writer W V → W → Loop W V
started w world = record {
  writer = w;
  world = world;
  input = [];
  closed = false;
  exited = false;
  total_queued = 0;
}

pub data AddResult (W V : Type 0) : Type 0 where
  sent : Loop W V → AddResult W V
  blocks panics : AddResult W V

pub data Choice : Type 0 where
  take_input take_flush take_tick : Choice

-- What happens to a writer, in order.
pub data Event (V : Type 0) : Type 0 where
  adds : Item V → Event V
  rounds : Choice → Event V
  closes : Event V

module _ {W V : Type 0} where
  unfoldable pub add : Item V → Loop W V → AddResult W V
  add it l =
      if l.closed
      then panics
      else if ltb (length l.input) l.input_cap
      then sent (record l { input = l.input ++ it ∷ []; total_queued = l.total_queued + 1 })
      else blocks

  unfoldable pub close : Loop W V → Loop W V
  close l = record l { closed = true }

  unfoldable pub after_add : Loop W V → AddResult W V → Loop W V
  after_add l (sent l') = l'
  after_add l blocks = l
  after_add l panics = l

  unfoldable pub buffered : Item V → Loop W V → Loop W V
  buffered it l = record l { writer = record (l.writer) { buf = l.buf ++ it ∷ [] } }

  unfoldable pub after_round : Loop W V → Option (Loop W V) → Loop W V
  after_round l none = l
  after_round l (some l') = l'

  unfoldable pub taken : Item V → AddResult W V → List (Item V)
  taken it (sent l) = it ∷ []
  taken it blocks = []
  taken it panics = []

  -- The items that `Add` took, in order.
  unfoldable pub taken_by : Event V → Loop W V → List (Item V)
  unfolding taken
  taken_by (adds it) l = taken it (add it l)
  taken_by (rounds c) l = []
  taken_by closes l = []

module _ {W V : Type 0} (env : Surroundings V) where
  unfoldable pub flush : Loop W V → Loop W V
  flush l =
      let (w, world) = flush_locked env l.writer l.world in record l { writer = w; world = world }

  unfoldable pub flush_full : Loop W V → Loop W V
  flush_full l = if leb l.max_batch_size (length l.buf) then flush l else l

  unfoldable pub receive : Item V → Loop W V → Loop W V
  receive it l = flush_full (buffered it l)

  -- The loop labelled `Drain`, over what the channel holds.
  unfoldable pub drain : List (Item V) → Loop W V → Loop W V
  drain [] l = l
  drain (it ∷ its) l = drain its (receive it l)

  -- `none`: the case is not ready.
  unfoldable pub select_input : Loop W V → Option (Loop W V)
  select_input l = elim l.input [
    | [] ↦ if l.closed then some (record (flush l) { exited = true }) else none
    | it ∷ its ↦ some (receive it (record l { input = its }))
  ]

  unfoldable pub select : Choice → Loop W V → Option (Loop W V)
  select take_input l = select_input l
  select take_flush l = some (flush (drain l.input (record l { input = [] })))
  select take_tick l = some (flush l)

  -- One turn of the `for` loop.
  unfoldable pub round : Choice → Loop W V → Option (Loop W V)
  round c l = if l.exited then none else select c (flush_full l)

  -- An event that cannot happen leaves the writer as it is.
  unfoldable pub step : Event V → Loop W V → Loop W V
  unfolding after_add after_round
  step (adds it) l = after_add l (add it l)
  step (rounds c) l = after_round l (round c l)
  step closes l = close l

  unfoldable pub run : List (Event V) → Loop W V → Loop W V
  run [] l = l
  run (e ∷ es) l = run es (step e l)

  unfoldable pub accepted : List (Event V) → Loop W V → List (Item V)
  unfolding taken_by
  accepted [] l = []
  accepted (e ∷ es) l = taken_by e l ++ accepted es (step e l)
