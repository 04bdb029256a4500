-- ===== src/Processors/SharePoint/Workers.antt =====
-- The workers of internal/processors/sharepoint.go keep the books: whatever the API replies, a
-- worker that finishes leaves one pending worker less for its site.
use sprawler.Common.{
  ℕ, ◌+◌, ◌≡◌, refl, Option, none, some, List, ◌++◌, String, length, ◌∙◌, ap, subst, ◌⊎◌, inl, inr,
  Bool-cases, arith, ==_iff,
}
use sprawler.Common.Dict.{Dict, lookup, lookup-delete}
use sprawler.Model.{SiteUser, GroupMember, GroupFetchResult}
use sprawler.Errors.{new_operation_failure, Reply, api_error, fetched}
use sprawler.Processors.SharePoint.Defs.{
  State, Sent, Tracker, Options, put, finalize, settle, finish_users, finish_groups, send_members,
  note_member_errors,
}
use sprawler.Processors.SharePoint.Books.{Books, Tracked, at, finalize-Books}

put-Tracked :
    (heap : ℕ → Tracker) (next q : ℕ) (t : Tracker) (v : String) (o : Option ℕ) (n : ℕ)
    → t.remaining ≡ (heap q).remaining
    → t.site ≡ (heap q).site
    → Tracked heap next v o n
    → Tracked (put q t heap) next v o n
put-Tracked heap next q t v none n r s h = h
put-Tracked heap next q t v (some k) n r s h = ground (arith, ==_iff k q)

-- The state with a tracker stored again, and other entities sent and counted.
abbrev edited : ℕ → Tracker → Sent → ℕ → ℕ → ℕ → State → State
edited q t sent users groups members s = record s {
  heap = put q t s.heap;
  sent = sent;
  counters = record (s.counters) { users = users; groups = groups; members = members };
}

module _ (pending : String → ℕ) (q : ℕ) where
  edited-Books :
      (t : Tracker) (sent : Sent) (us gs ms : ℕ) (s : State)
      → t.remaining ≡ (s.heap q).remaining
      → t.site ≡ (s.heap q).site
      → Books pending s
      → Books pending (edited q t sent us gs ms s)
  edited-Books t sent us gs ms s r site (d, tallied, tracked) = (
    d,
    tallied,
    λ v. put-Tracked s.heap s.next q t v (lookup v s.outcomes) (pending v) r site (tracked v),
  )

  send_members-Books :
      (o : Options) (ms : List GroupMember) (s : State)
      → Books pending s
      → Books pending (send_members o q ms s)
  unfolding send_members
  send_members-Books o ms s b = elim (Bool-cases o.process_group_members) [
    | inl on ↦
        let t = record (s.heap q) { members_fetched = length ms } in
        let sent = record (s.sent) { members = s.sent.members ++ ms } in
        rw on (
          edited-Books t sent s.counters.users s.counters.groups (s.counters.members + length ms) s
            refl refl b)
    | inr off ↦ rw off b
  ]

send_members-outcomes :
    (o : Options) (q : ℕ) (ms : List GroupMember) (s : State)
    → (send_members o q ms s).outcomes ≡ s.outcomes
unfolding send_members
send_members-outcomes o q ms s = ground arith

module _ (pending : String → ℕ) (o : Options) (now q : ℕ) (u : String) (s : State) where
  pub finish_users-Books :
      (r : Reply (List SiteUser))
      → lookup u s.outcomes ≡ some q
      → Books (λ v. pending v + at u v) s
      → Books pending (finish_users o now q r s)
  unfolding finish_users
  finish_users-Books (api_error e) h b =
      let t = record (s.heap q) {
        users_failure = some (new_operation_failure o.text o.render e);
      } in
      let c = s.counters in
      finalize-Books pending now q u (edited q t s.sent c.users c.groups c.members s) h
        (edited-Books (λ v. pending v + at u v) q t s.sent c.users c.groups c.members s refl refl b)
  finish_users-Books (fetched us) h b =
      let t = record (s.heap q) { users_fetched = length us } in
      let sent = record (s.sent) { users = s.sent.users ++ us } in
      let c = s.counters in
      finalize-Books pending now q u (edited q t sent (c.users + length us) c.groups c.members s) h
        (edited-Books (λ v. pending v + at u v) q t sent (c.users + length us) c.groups c.members s
          refl refl b)

  pub finish_groups-Books :
      (r : Reply GroupFetchResult)
      → lookup u s.outcomes ≡ some q
      → Books (λ v. pending v + at u v) s
      → Books pending (finish_groups o now q r s)
  unfolding finish_groups
  finish_groups-Books (api_error e) h b =
      let t = record (s.heap q) {
        groups_failure = some (new_operation_failure o.text o.render e);
      } in
      let c = s.counters in
      finalize-Books pending now q u (edited q t s.sent c.users c.groups c.members s) h
        (edited-Books (λ v. pending v + at u v) q t s.sent c.users c.groups c.members s refl refl b)
  finish_groups-Books (fetched r) h b =
      let owed : String → ℕ = λ v. pending v + at u v in
      let c = s.counters in
      let sent = record (s.sent) { groups = s.sent.groups ++ r.groups } in
      let s2 = edited q (note_member_errors r (s.heap q)) sent c.users c.groups c.members s in
      let b2 =
        edited-Books owed q (note_member_errors r (s.heap q)) sent c.users c.groups c.members s refl
          refl b in
      let s3 = send_members o q r.members s2 in
      let t = record (s3.heap q) { groups_fetched = length r.groups } in
      let c3 = s3.counters in
      let groups = c3.groups + length r.groups in
      finalize-Books pending now q u (edited q t s3.sent c3.users groups c3.members s3)
        (ap (lookup u) (send_members-outcomes o q r.members s2) ∙ h)
        (edited-Books owed q t s3.sent c3.users groups c3.members s3 refl refl
          (send_members-Books owed q o r.members s2 b2))

-- A finished worker leaves the entry of a URL as it is, or removes it.
abbrev pub Shrinks : Dict ℕ → Dict ℕ → Type 0
Shrinks d e = (v : String) → (lookup v e ≡ lookup v d) ⊎ (lookup v e ≡ none)

finalize-Shrinks : (now q : ℕ) (s : State) → Shrinks s.outcomes (finalize now q s).outcomes
unfolding finalize settle
finalize-Shrinks now q s v = ground (arith, lookup-delete (s.heap q).site.site_url v s.outcomes)

pub finish_users-Shrinks :
    (o : Options) (now q : ℕ) (r : Reply (List SiteUser)) (s : State)
    → Shrinks s.outcomes (finish_users o now q r s).outcomes
unfolding finish_users
finish_users-Shrinks o now q (api_error e) s v =
    let t = record (s.heap q) { users_failure = some (new_operation_failure o.text o.render e) } in
    finalize-Shrinks now q (record s { heap = put q t s.heap }) v
finish_users-Shrinks o now q (fetched us) s v =
    let t = record (s.heap q) { users_fetched = length us } in
    let sent = record (s.sent) { users = s.sent.users ++ us } in
    let c = s.counters in
    finalize-Shrinks now q (edited q t sent (c.users + length us) c.groups c.members s) v

pub finish_groups-Shrinks :
    (o : Options) (now q : ℕ) (r : Reply GroupFetchResult) (s : State)
    → Shrinks s.outcomes (finish_groups o now q r s).outcomes
unfolding finish_groups
finish_groups-Shrinks o now q (api_error e) s v =
    let t = record (s.heap q) { groups_failure = some (new_operation_failure o.text o.render e) } in
    finalize-Shrinks now q (record s { heap = put q t s.heap }) v
finish_groups-Shrinks o now q (fetched r) s v =
    let c = s.counters in
    let sent = record (s.sent) { groups = s.sent.groups ++ r.groups } in
    let s2 = edited q (note_member_errors r (s.heap q)) sent c.users c.groups c.members s in
    let s3 = send_members o q r.members s2 in
    let t = record (s3.heap q) { groups_fetched = length r.groups } in
    let c3 = s3.counters in
    let s4 = edited q t s3.sent c3.users (c3.groups + length r.groups) c3.members s3 in
    subst (λ d. Shrinks d (finalize now q s4).outcomes) (send_members-outcomes o q r.members s2)
      (finalize-Shrinks now q s4) v
