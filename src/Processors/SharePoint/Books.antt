-- ===== src/Processors/SharePoint/Books.antt =====
-- The books that the handlers of internal/processors/sharepoint.go keep: what the counters, the
-- outcome map and the trackers say together, when `pending u` workers have still to finish the site
-- with URL `u`.
use sprawler.Common.{
  ℕ, zero, suc, ◌+◌, ◌≤◌, ◌<◌, ◌≡◌, ◌∙◌, refl, sym, subst, ap, Option, none, some, [], ◌∷◌, String,
  if◌then◌else◌, length, length-append, str_eq, eq_iff, eq_refl, arith, ==_iff,
}
use sprawler.Common.Int.{ℤ, pos, ◌-ℤ◌}
use sprawler.Common.Dict.{lookup, delete, Distinct, delete-Distinct, length-delete, lookup-delete}
use sprawler.Processors.Outcomes.{record_sp_outcome}
use sprawler.Processors.SharePoint.Defs.{State, Tracker, put, finalize, settle, outcome_of}

-- A site that is in flight has a tracker that counts its pending workers; another has none.
abbrev pub Tracked : (ℕ → Tracker) → ℕ → String → Option ℕ → ℕ → Type 0
Tracked heap next u none n = n ≡ 0
Tracked heap next u (some q) n =
    ((heap q).remaining ≡ pos n) × (1 ≤ n) × ((heap q).site.site_url ≡ u) × (q < next)

-- Every dispatched site is completed or in the map, every completed one succeeded or failed, and
-- every failed one has its outcome recorded.
abbrev pub Tallied : State → Type 0
Tallied s =
    (s.counters.sites_completed + length s.outcomes ≡ s.counters.sites_dispatched)
    × (s.counters.sites_completed ≡ s.counters.succeeded + s.counters.failed)
    × (length s.collector.sp_outcomes ≡ s.counters.failed)

abbrev pub Books : (String → ℕ) → State → Type 0
Books pending s =
    Distinct s.outcomes
    × Tallied s
    × ((u : String) → Tracked s.heap s.next u (lookup u s.outcomes) (pending u))

abbrev pub at : String → String → ℕ
at u v = if str_eq u v then 1 else 0

one_less : (n : ℕ) → pos (suc n) -ℤ pos 1 ≡ pos n
unfolding ◌-ℤ◌
one_less n = ground arith

-- The tracker of a site has its last worker done.
settle-Tallied :
    (now : ℕ) (t : Tracker) (s : State) (q : ℕ)
    → Distinct s.outcomes
    → lookup t.site.site_url s.outcomes ≡ some q
    → Tallied s
    → Tallied (settle now t s)
unfolding settle record_sp_outcome
settle-Tallied now t s q d e h = ground (
  arith,
  length-delete t.site.site_url q s.outcomes d e,
  length-append s.collector.sp_outcomes (outcome_of now t ∷ []),
)

settle-outcomes :
    (now : ℕ) (t : Tracker) (s : State)
    → (settle now t s).outcomes ≡ delete t.site.site_url s.outcomes
unfolding settle
settle-outcomes now t s = ground arith

settle-heap : (now : ℕ) (t : Tracker) (s : State) → (settle now t s).heap ≡ s.heap
unfolding settle
settle-heap now t s = ground arith

settle-next : (now : ℕ) (t : Tracker) (s : State) → (settle now t s).next ≡ s.next
unfolding settle
settle-next now t s = ground arith

abbrev pub left_with : ℤ → ℕ → (ℕ → Tracker) → ℕ → Tracker
left_with n q heap = put q (record (heap q) { remaining = n }) heap

finalize-more :
    (now q n : ℕ) (s : State)
    → (s.heap q).remaining ≡ pos (suc (suc n))
    → finalize now q s ≡ record s { heap = left_with (pos (suc n)) q s.heap }
unfolding finalize
finalize-more now q n s r = let down = ap (λ z. z -ℤ pos 1) r ∙ one_less (suc n) in rw down

finalize-last :
    (now q : ℕ) (s : State)
    → (s.heap q).remaining ≡ pos 1
    → finalize now q s
      ≡ settle now
          (record (s.heap q) { remaining = pos 0 })
          (record s { heap = left_with (pos 0) q s.heap })
unfolding finalize
finalize-last now q s r = let down = ap (λ z. z -ℤ pos 1) r ∙ one_less 0 in rw down

module _ (pending : String → ℕ) (heap : ℕ → Tracker) (next : ℕ) (u v : String) (q : ℕ) where
  -- Another worker of the site is still to finish.
  more-Tracked :
      (n : ℕ) (o : Option ℕ)
      → Tracked heap next u (some q) (suc n)
      → 1 ≤ n
      → pending u ≡ n
      → (u ≡ v → o ≡ some q)
      → Tracked heap next v o (pending v + at u v)
      → Tracked (left_with (pos n) q heap) next v o (pending v)
  more-Tracked n none tu pos_n p same tv = ground (arith, eq_iff u v)
  more-Tracked n (some k) tu pos_n p same tv = ground (arith, eq_iff u v, ==_iff k q)

  -- It was the last one.
  last-Tracked :
      (o : Option ℕ)
      → Tracked heap next u (some q) 1
      → pending u ≡ 0
      → (u ≡ v → o ≡ some q)
      → Tracked heap next v o (pending v + at u v)
      → Tracked (left_with (pos 0) q heap) next v (if str_eq u v then none else o) (pending v)
  last-Tracked none tu p same tv = ground (arith, eq_iff u v)
  last-Tracked (some k) tu p same tv = ground (arith, eq_iff u v, ==_iff k q)

module _ (pending : String → ℕ) (now q : ℕ) (u : String) (s : State) where
  here-Tracked :
      (n : ℕ)
      → lookup u s.outcomes ≡ some q
      → pending u ≡ n
      → Tracked s.heap s.next u (lookup u s.outcomes) (pending u + at u u)
      → Tracked s.heap s.next u (some q) (suc n)
  here-Tracked n e p t =
      let count : pending u + at u u ≡ suc n = ground (arith, eq_refl u) in
      subst (λ m. Tracked s.heap s.next u (some q) m) count
        (subst (λ o. Tracked s.heap s.next u o (pending u + at u u)) e t)

  last-Books :
      lookup u s.outcomes ≡ some q
      → pending u ≡ 0
      → Books (λ v. pending v + at u v) s
      → Books pending (
          settle now
            (record (s.heap q) { remaining = pos 0 })
            (record s { heap = left_with (pos 0) q s.heap }))
  last-Books e p (d, tallied, tracked) =
      let t = record (s.heap q) { remaining = pos 0 } in
      let s2 = record s { heap = left_with (pos 0) q s.heap } in
      let here = here-Tracked 0 e p (tracked u) in
      let url = here.2 in
      let found : lookup t.site.site_url s.outcomes ≡ some q = rw url e in
      let after : (settle now t s2).outcomes ≡ delete u s.outcomes =
        rw (settle-outcomes now t s2, url) refl in
      (
        subst Distinct (sym after) (delete-Distinct u s.outcomes d),
        settle-Tallied now t s2 q d found tallied,
        λ v.
            rw (settle-heap now t s2, settle-next now t s2, after, lookup-delete u v s.outcomes)
              (last-Tracked pending s.heap s.next u v q (lookup v s.outcomes) here p
                (λ same. ap (λ w. lookup w s.outcomes) (sym same) ∙ e) (tracked v)),
      )

  pub finalize-Books :
      lookup u s.outcomes ≡ some q
      → Books (λ v. pending v + at u v) s
      → Books pending (finalize now q s)
  finalize-Books e b = go (pending u) refl
    where
      go : (n : ℕ) → pending u ≡ n → Books pending (finalize now q s)
      go zero p =
          subst (Books pending) (sym (finalize-last now q s (here-Tracked 0 e p (b.2 u)).0))
            (last-Books e p b)
      go (suc n) p =
          subst (Books pending) (sym (finalize-more now q n s (here-Tracked (suc n) e p (b.2 u)).0))
            (
              b.0,
              b.1,
              λ v.
                  more-Tracked pending s.heap s.next u v q (suc n) (lookup v s.outcomes)
                    (here-Tracked (suc n) e p (b.2 u)) (ground arith) p
                    (λ same. ap (λ w. lookup w s.outcomes) (sym same) ∙ e) (b.2 v),
            )
