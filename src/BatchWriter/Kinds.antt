-- ===== src/BatchWriter/Kinds.antt =====
-- The statistics by kind in batch_writer.go agree with the totals.
use sprawler.Common.{
  ℕ, ◌+◌, ◌≡◌, refl, String, Bool, true, false, Option, none, some, List, [], ◌∷◌, arith, length,
  if◌then◌else◌, inl, inr,
}
use sprawler.Common.Dict.{Dict, sum_values, sum_values-add_at}
use sprawler.BatchWriter.Defs.{
  Item, Error, Writer, KindStats, Surroundings, bump_stats, bump_kinds, count_by_kind, bump,
  fail_flush, succeed_flush, settle, flush_locked,
}
use sprawler.BatchWriter.Loop.{Loop, Event, run}
use sprawler.BatchWriter.Rule.{run_rule}
use sprawler.BatchWriter.Counts.{
  bump_all, bump_kinds-eq, record_flush_failure-eq, flush_locked-settles,
}

abbrev pub sum_successful : Dict KindStats → ℕ
sum_successful [] = 0
sum_successful ((k, st) ∷ d) = st.successful + sum_successful d

abbrev pub sum_failed : Dict KindStats → ℕ
sum_failed [] = 0
sum_failed ((k, st) ∷ d) = st.failed + sum_failed d

sum-bump_stats :
    (k : String) (success : Bool) (n : ℕ) (d : Dict KindStats)
    → (sum_successful (bump_stats k success n d) ≡ sum_successful d + (if success then n else 0))
      × (sum_failed (bump_stats k success n d) ≡ sum_failed d + (if success then 0 else n))
unfolding bump_stats
sum-bump_stats k success n [] = ground arith
sum-bump_stats k success n ((j, st) ∷ d) = ground (arith, sum-bump_stats k success n d)

sum-bump_all :
    (success : Bool) (ns : Dict ℕ) (d : Dict KindStats)
    → (sum_successful (bump_all success ns d)
        ≡ sum_successful d + (if success then sum_values ns else 0))
      × (sum_failed (bump_all success ns d) ≡ sum_failed d + (if success then 0 else sum_values ns))
unfolding bump_all
sum-bump_all success [] d = ground arith
sum-bump_all success ((k, n) ∷ ns) d =
    ground (arith, sum-bump_stats k success n d, sum-bump_all success ns (bump_stats k success n d))

sum-count_by_kind :
    {V : Type 0} (batch : List (Item V)) → sum_values (count_by_kind batch) ≡ length batch
unfolding count_by_kind
sum-count_by_kind [] = refl
sum-count_by_kind (it ∷ its) =
    omega (arith, sum_values-add_at it.kind 1 (count_by_kind its), sum-count_by_kind its)

-- The counts by kind add up to the totals.
pub record KindsAgree {W V : Type 0} (w : Writer W V) : Type 0 where
  pub successful : sum_successful w.kind_stats ≡ w.success_count
  pub failed : sum_failed w.kind_stats ≡ w.failure_count

module _ {W V : Type 0} where
  bumped-KindsAgree :
      (success : Bool) (batch : List (Item V)) (t : ℕ) (w : Writer W V)
      → KindsAgree w
      → KindsAgree (bump_kinds success (count_by_kind batch) (bump success (length batch) t w))
  unfolding bump
  bumped-KindsAgree success batch t w a = rw bump_kinds-eq (
      ground
        (arith, sum-bump_all success (count_by_kind batch) w.kind_stats, sum-count_by_kind batch))

  module _ (env : Surroundings V) where
    fail_flush-KindsAgree :
        (batch : List (Item V)) (e : Error) (w : Writer W V)
        → KindsAgree w
        → KindsAgree (fail_flush env batch e w)
    unfolding fail_flush
    fail_flush-KindsAgree batch e w a =
        rw (record_flush_failure-eq env batch e w)
          (bumped-KindsAgree false batch 0 _ (ground arith))

    settle-KindsAgree :
        (batch : List (Item V)) (e : Option Error) (w : Writer W V)
        → KindsAgree w
        → KindsAgree (settle env batch e w)
    unfolding settle succeed_flush
    settle-KindsAgree batch none w a = bumped-KindsAgree true batch _ w a
    settle-KindsAgree batch (some e) w a = fail_flush-KindsAgree batch e w a

    -- A flush keeps the counts by kind in agreement with the totals.
    pub flush_locked-KindsAgree :
        (w : Writer W V) (world : W) → KindsAgree w → KindsAgree (flush_locked env w world).0
    flush_locked-KindsAgree w world a = elim (flush_locked-settles env w world) [
      | inl (b, e) ↦ rw e a
      | inr (v, e) ↦ rw e (settle-KindsAgree w.buf v (record w { buf = [] }) (ground (arith, a)))
    ]

    -- In every run of a writer whose statistics start in agreement, the items written and failed
    -- by kind add up to the items written and failed.
    pub run-KindsAgree :
        (es : List (Event V)) (l : Loop W V)
        → KindsAgree l.writer
        → KindsAgree (run env es l).writer
    run-KindsAgree es l a =
        (run_rule env (λ xs w world. KindsAgree w)
          (λ xs w world p. flush_locked-KindsAgree w world p)
          (λ xs it w world p. record { successful = p.successful; failed = p.failed }) es l.input l
          ([], refl, a)).2
