-- ===== src/Processors/SharePoint/Defs.antt =====
-- The state and the handlers of internal/processors/sharepoint.go. A tracker is an object that two
-- workers share: the heap holds it under a number, and the concurrent map `outcomes` holds that
-- number under the site's URL. A channel of entities is the list of what was sent, and the reply
-- of the API is an input. The context of the pipeline is `WithoutCancel`, so no `ctx.Done()` branch
-- is ever taken. Counts of fetched entities stay far below 2^31, and their int32 copies are equal.
use sprawler.Common.{
  ℕ, zero, ◌+◌, ◌-◌, Bool, true, false, ◌||◌, Option, none, some, List, [], ◌∷◌, ◌++◌, String, ltb,
  ◌==◌, if◌then◌else◌, length,
}
use sprawler.Common.Int.{ℤ, pos, ◌-ℤ◌}
use sprawler.Common.Dict.{Dict, insert, delete}
use sprawler.Model.{
  Site, SiteUser, SiteGroup, GroupMember, OperationFailure, SpSiteOutcome, GroupFetchResult,
}
use sprawler.Errors.{GoError, Reply, api_error, fetched, new_operation_failure}
use sprawler.Processors.Outcomes.{OutcomeCollector, record_sp_outcome}
use sprawler.Processors.Filter.{SkipReason, template, tenant_root}

pub record Counters : Type 0 where
  pub sites_discovered : ℕ
  pub sites_dispatched : ℕ
  pub sites_completed : ℕ
  pub succeeded : ℕ
  pub failed : ℕ
  pub users : ℕ
  pub groups : ℕ
  pub members : ℕ
  pub skip_template : ℕ
  pub skip_tenant_root : ℕ

pub record Tracker : Type 0 where
  pub site : Site
  pub started_at : ℕ
  pub remaining : ℤ
  pub users_failure : Option OperationFailure
  pub users_fetched : ℕ
  pub groups_failure : Option OperationFailure
  pub groups_fetched : ℕ
  pub members_fetched : ℕ
  pub member_errors : ℕ
  pub member_timeout_errors : ℕ

-- The entities sent to the data writer.
pub record Sent : Type 0 where
  pub sites : List Site
  pub users : List SiteUser
  pub groups : List SiteGroup
  pub members : List GroupMember

pub record State : Type 0 where
  pub counters : Counters
  pub heap : ℕ → Tracker
  pub next : ℕ
  pub outcomes : Dict ℕ
  pub collector : OutcomeCollector
  pub sent : Sent

-- The options of `config.SharePoint` that the handlers read, and the texts of an error.
pub record Options : Type 0 where
  pub user_workers : ℕ
  pub group_workers : ℕ
  pub process_groups : Bool
  pub process_group_members : Bool
  pub text : GoError → List ℕ
  pub render : GoError → String

abbrev pub put : ℕ → Tracker → (ℕ → Tracker) → ℕ → Tracker
put p t h q = if q == p then t else h q

unfoldable pub count_skip : SkipReason → Counters → Counters
count_skip template c = record c { skip_template = c.skip_template + 1 }
count_skip tenant_root c = record c { skip_tenant_root = c.skip_tenant_root + 1 }

-- The sites that pass, in order, and the counters.
module _ (skip : Site → Option SkipReason) where
  unfoldable pub filter_sites : List Site → Counters → List Site × Counters
  unfolding count_skip
  filter_sites [] c = ([], c)
  filter_sites (s ∷ ss) c = elim (skip s) [
    | some why ↦ filter_sites ss (count_skip why c)
    | none ↦ let (passed, c2) = filter_sites ss c in (s ∷ passed, c2)
  ]

abbrev pub workers_per_site : Options → ℕ
workers_per_site o = if o.process_groups then 2 else 1

abbrev pub new_tracker : ℕ → Site → ℕ → Tracker
new_tracker workers site now = record {
  site = site;
  started_at = now;
  remaining = pos workers;
  users_failure = none;
  users_fetched = 0;
  groups_failure = none;
  groups_fetched = 0;
  members_fetched = 0;
  member_errors = 0;
  member_timeout_errors = 0;
}

-- The part of `dispatchSitesToWorkers` for one site, up to the sends to the workers.
unfoldable pub dispatch_site : Options → ℕ → Site → State → State
dispatch_site o now site s = record s {
  counters = record (s.counters) { sites_dispatched = s.counters.sites_dispatched + 1 };
  heap = put s.next (new_tracker (workers_per_site o) site now) s.heap;
  next = s.next + 1;
  outcomes = insert site.site_url s.next s.outcomes;
  sent = record (s.sent) { sites = s.sent.sites ++ site ∷ [] };
}

abbrev pub is_failure : Option OperationFailure → Bool
is_failure none = false
is_failure (some f) = true

abbrev pub has_failed : Tracker → Bool
has_failed t =
    is_failure t.users_failure
    || (is_failure t.groups_failure || (ltb 0 t.member_errors || ltb 0 t.member_timeout_errors))

abbrev pub outcome_of : ℕ → Tracker → SpSiteOutcome
outcome_of now t = record {
  site_url = t.site.site_url;
  site_id = t.site.site_id;
  timestamp = now;
  duration = now - t.started_at;
  users_failure = t.users_failure;
  groups_failure = t.groups_failure;
  users_fetched = t.users_fetched;
  groups_fetched = t.groups_fetched;
  members_fetched = t.members_fetched;
  member_errors = t.member_errors;
  member_timeout_errors = t.member_timeout_errors;
}

abbrev pub is_zero : ℤ → Bool
is_zero (pos zero) = true
is_zero _ = false

-- What `finalizeSiteOutcome` does after its early return.
unfoldable pub settle : ℕ → Tracker → State → State
unfolding record_sp_outcome
settle now t s =
    let c = record (s.counters) { sites_completed = s.counters.sites_completed + 1 } in
    let outcomes = delete t.site.site_url s.outcomes in
    if has_failed t
    then record s {
      outcomes = outcomes;
      collector = record_sp_outcome (outcome_of now t) s.collector;
      counters = record c { failed = c.failed + 1 };
    }
    else record s { outcomes = outcomes; counters = record c { succeeded = c.succeeded + 1 } }

unfoldable pub finalize : ℕ → ℕ → State → State
unfolding settle
finalize now p s =
    let t = record (s.heap p) { remaining = (s.heap p).remaining -ℤ pos 1 } in
    let s2 = record s { heap = put p t s.heap } in
    if is_zero t.remaining then settle now t s2 else s2

-- A worker that finds no tracker.
unfoldable pub skip_site : State → State
skip_site s = record s {
  counters = record (s.counters) {
    sites_completed = s.counters.sites_completed + 1;
    failed = s.counters.failed + 1;
  };
}

-- `processSiteUsers` from the reply of the API on.
unfoldable pub finish_users : Options → ℕ → ℕ → Reply (List SiteUser) → State → State
unfolding finalize
finish_users o now p (api_error e) s =
    let t = record (s.heap p) { users_failure = some (new_operation_failure o.text o.render e) } in
    finalize now p (record s { heap = put p t s.heap })
finish_users o now p (fetched us) s =
    let t = record (s.heap p) { users_fetched = length us } in
    finalize now p (record s {
      heap = put p t s.heap;
      sent = record (s.sent) { users = s.sent.users ++ us };
      counters = record (s.counters) { users = s.counters.users + length us };
    })

-- The stores of `processSiteGroups` for the fetch errors of single groups.
abbrev pub note_member_errors : GroupFetchResult → Tracker → Tracker
note_member_errors r t = record t {
  member_errors = if ltb 0 r.member_errors then r.member_errors else t.member_errors;
  member_timeout_errors =
      if ltb 0 r.member_timeout_errors then r.member_timeout_errors else t.member_timeout_errors;
}

-- The sends and counts of the members, where the options ask for them.
unfoldable pub send_members : Options → ℕ → List GroupMember → State → State
send_members o p ms s =
    if o.process_group_members
    then record s {
      heap = put p (record (s.heap p) { members_fetched = length ms }) s.heap;
      sent = record (s.sent) { members = s.sent.members ++ ms };
      counters = record (s.counters) { members = s.counters.members + length ms };
    }
    else s

-- `processSiteGroups` from the reply of the API on.
unfoldable pub finish_groups : Options → ℕ → ℕ → Reply GroupFetchResult → State → State
unfolding finalize send_members
finish_groups o now p (api_error e) s =
    let t = record (s.heap p) { groups_failure = some (new_operation_failure o.text o.render e) } in
    finalize now p (record s { heap = put p t s.heap })
finish_groups o now p (fetched r) s =
    let s2 = record s {
      heap = put p (note_member_errors r (s.heap p)) s.heap;
      sent = record (s.sent) { groups = s.sent.groups ++ r.groups };
    } in
    let s3 = send_members o p r.members s2 in
    finalize now p (record s3 {
      heap = put p (record (s3.heap p) { groups_fetched = length r.groups }) s3.heap;
      counters = record (s3.counters) { groups = s3.counters.groups + length r.groups };
    })
