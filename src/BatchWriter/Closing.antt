-- ===== src/BatchWriter/Closing.antt =====
-- `Close` of batch_writer.go: the run loop drains the channel, flushes what is left and exits.
use sprawler.Common.{
  ℕ, zero, suc, ◌+◌, ◌≡◌, refl, sym, ap, subst, ◌∙◌, Bool, true, false, none, some, List, [], ◌∷◌,
  arith, length, if◌then◌else◌,
}
use sprawler.BatchWriter.Defs.{Item, Surroundings}
use sprawler.BatchWriter.Loop.{
  Loop, Event, rounds, take_input, flush, flush_full, receive, select, select_input, round,
  after_round, step, run,
}
use sprawler.BatchWriter.Accounts.{Accounts, flush-Took, flush-empties, receive-Took, step-Accounts}

abbrev pub reads : {V : Type 0} → ℕ → List (Event V)
reads zero = []
reads (suc n) = rounds take_input ∷ reads n

-- The loop has ended with nothing in hand and `n` items counted.
abbrev pub Drained : {W V : Type 0} → ℕ → Loop W V → Type 0
Drained n l =
    (l.exited ≡ true) × (l.input ≡ []) × (l.buf ≡ []) × (l.success_count + l.failure_count ≡ n)

module _ {W V : Type 0} (env : Surroundings V) where
  flush_full-idle : (l : Loop W V) → Accounts l → flush_full env l ≡ l
  unfolding flush_full
  flush_full-idle l a = ground (arith, a.below)

  -- A round of an open-ended loop below its batch size is its select.
  round_ready :
      (l : Loop W V)
      → Accounts l
      → l.exited ≡ false
      → step env (rounds take_input) l ≡ after_round l (select_input env l)
  unfolding step round select
  round_ready l a live = ap (after_round l) (ready l.exited live)
    where
      ready :
          (out : Bool)
          → out ≡ false
          → (if out then none else select_input env (flush_full env l)) ≡ select_input env l
      ready true e = absurd (ground arith)
      ready false e = ap (select_input env) (flush_full-idle l a)

  select_input-item :
      (it : Item V) (its : List (Item V)) (l : Loop W V)
      → l.input ≡ it ∷ its
      → select_input env l ≡ some (receive env it (record l { input = its }))
  unfolding select_input
  select_input-item it its l e = ground arith

  select_input-end :
      (l : Loop W V)
      → l.input ≡ []
      → l.closed ≡ true
      → select_input env l ≡ some (record (flush env l) { exited = true })
  unfolding select_input
  select_input-end l e c = ground arith

  -- After `Close`, one round for each item in the channel and one more end the loop: nothing is
  -- left in the channel or the buffer, and every item ever queued is counted as written or failed.
  pub close_drains :
      (its : List (Item V)) (l : Loop W V)
      → Accounts l
      → l.closed ≡ true
      → l.exited ≡ false
      → l.input ≡ its
      → Drained l.total_queued (run env (reads (suc (length its))) l)
  unfolding run after_round
  close_drains [] l a c live e =
      let final = record (flush env l) { exited = true } in
      let st = round_ready l a live ∙ ap (after_round l) (select_input-end l e c) in
      let f = flush-Took env l a.some_room in
      subst (Drained l.total_queued) (sym st) (
        refl,
        f.input ∙ e,
        flush-empties env l,
        ground (arith, f, flush-empties env l, a.conserved),
      )
  close_drains (it ∷ its) l a c live e =
      let next = receive env it (record l { input = its }) in
      let st = round_ready l a live ∙ ap (after_round l) (select_input-item it its l e) in
      let t = receive-Took env it (record l { input = its }) a.some_room in
      let a' = subst Accounts st (step-Accounts env (rounds take_input) l a) in
      let (out, inp, buf, all) =
        close_drains its next a' (t.closed ∙ c) (t.exited ∙ live) t.input in
      subst (λ m. Drained l.total_queued (run env (reads (suc (length its))) m)) (sym st)
        (out, inp, buf, all ∙ t.total_queued)
