-- ===== src/BatchWriter/Order.antt =====
-- The order of execution in batch_writer.go: a run of the writer comes to executing batches one
-- after the other, which together are the received items in the order in which they were added.
use sprawler.Common.{
  ℕ, ◌+◌, ◌≡◌, refl, sym, ap, ◌∙◌, Option, none, some, List, [], ◌∷◌, ◌++◌, append-nil,
  append_assoc, arith, length, Option-cases, inl, inr,
}
use sprawler.Common.Dict.{Dict}
use sprawler.BatchWriter.Defs.{
  Item, Error, Action, FlushHooks, Writer, Surroundings, before_hook, dispatch, run_before,
  run_after, bump, fail_flush, succeed_flush, settle, flush_items, flush_batch,
}
use sprawler.BatchWriter.Counts.{bump_kinds-eq, record_flush_failure-eq}

abbrev pub written : ℕ → Option Error → ℕ
written n none = n
written n (some e) = 0

abbrev pub failed : ℕ → Option Error → ℕ
failed n none = 0
failed n (some e) = n

abbrev pub joined {ℓ} : {A : Type ℓ} → List (List A) → List A
joined [] = []
joined (b ∷ bs) = b ++ joined bs

pub joined-snoc {ℓ} :
    {A : Type ℓ} (bs : List (List A)) (b : List A) → joined (bs ++ b ∷ []) ≡ joined bs ++ b
joined-snoc [] b = append-nil b
joined-snoc (c ∷ bs) b = ap (◌++◌ c) (joined-snoc bs b) ∙ sym (append_assoc c (joined bs) b)

module _ {W V : Type 0} where
  -- One batch between its hooks: the world that it leaves, and its verdict.
  unfoldable pub transact : FlushHooks W → Dict (V → Action W) → List (Item V) → Action W
  transact h ops batch world =
      let (opened, err) = run_before h world in
      elim err [
        | none ↦ (let (done, verdict) = dispatch ops batch opened in run_after h verdict done)
        | some e ↦ (opened, some (before_hook e))
      ]

  module _ (h : FlushHooks W) (ops : Dict (V → Action W)) where
    unfoldable pub replay : List (List (Item V)) → W → W
    replay [] world = world
    replay (b ∷ bs) world = replay bs (transact h ops b world).0

    unfoldable pub all_written : List (List (Item V)) → W → ℕ
    all_written [] world = 0
    all_written (b ∷ bs) world =
        written (length b) (transact h ops b world).1 + all_written bs (transact h ops b world).0

    unfoldable pub all_failed : List (List (Item V)) → W → ℕ
    all_failed [] world = 0
    all_failed (b ∷ bs) world =
        failed (length b) (transact h ops b world).1 + all_failed bs (transact h ops b world).0

    pub replay-snoc :
        (bs : List (List (Item V))) (b : List (Item V)) (world : W)
        → replay (bs ++ b ∷ []) world ≡ (transact h ops b (replay bs world)).0
    unfolding replay
    replay-snoc [] b world = refl
    replay-snoc (c ∷ bs) b world = replay-snoc bs b (transact h ops c world).0

    pub counts-snoc :
        (bs : List (List (Item V))) (b : List (Item V)) (world : W)
        → (all_written (bs ++ b ∷ []) world
            ≡ all_written bs world + written (length b) (transact h ops b (replay bs world)).1)
          × (all_failed (bs ++ b ∷ []) world
              ≡ all_failed bs world + failed (length b) (transact h ops b (replay bs world)).1)
    unfolding replay all_written all_failed
    counts-snoc [] b world = (omega arith, omega arith)
    counts-snoc (c ∷ bs) b world =
        let (w, f) = counts-snoc bs b (transact h ops c world).0 in (omega arith, omega arith)

  module _ (env : Surroundings V) where
    pub flush_batch-transact :
        (batch : List (Item V)) (w : Writer W V) (world : W)
        → flush_batch env batch w world ≡ (
          settle env batch (transact w.hooks w.ops batch world).1 w,
          (transact w.hooks w.ops batch world).0,
        )
    unfolding flush_batch flush_items transact settle
    flush_batch-transact batch w world = elim (Option-cases (run_before w.hooks world).1) [
      | inl e ↦ rw (e, flush_batch, transact)
      | inr (x, e) ↦ rw (e, flush_batch, transact)
    ]

    pub settle_counts :
        (batch : List (Item V)) (v : Option Error) (w : Writer W V)
        → ((settle env batch v w).success_count ≡ w.success_count + written (length batch) v)
          × ((settle env batch v w).failure_count ≡ w.failure_count + failed (length batch) v)
    unfolding settle succeed_flush fail_flush bump
    settle_counts batch none w = rw bump_kinds-eq (ground arith)
    settle_counts batch (some e) w =
        rw (bump_kinds-eq, record_flush_failure-eq env batch e w) (ground arith)
