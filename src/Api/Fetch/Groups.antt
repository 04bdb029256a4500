-- ===== src/Api/Fetch/Groups.antt =====
-- What `GetSiteGroups` returns.
use sprawler.Common.{
  ℕ, ◌+◌, ◌≡◌, refl, Bool, true, Option, none, some, List, [], ◌∷◌, ◌++◌, map, length, any_of, All,
  All-append, ◌==◌, if◌then◌else◌, arith,
}
use sprawler.Model.{Site, SiteGroup, GroupMember, GroupFetchResult}
use sprawler.Errors.{GoError, some_link, is_deadline}
use sprawler.Api.Fetch.Defs.{
  Answer, get_failed, not_decoded, decoded, tag_group, tag_member, add_group, cut_off, zero_group,
  fetch_members, get_site_groups,
}

abbrev pub fetched_of : Answer (List GroupMember) → List GroupMember
fetched_of (decoded ms) = ms
fetched_of _ = []

abbrev pub is_timeout : Answer (List GroupMember) → ℕ
is_timeout (get_failed e) = if some_link is_deadline e then 1 else 0
is_timeout _ = 0

abbrev pub is_other_error : Answer (List GroupMember) → ℕ
is_other_error (get_failed e) = if some_link is_deadline e then 0 else 1
is_other_error (not_decoded e) = 1
is_other_error (decoded ms) = 0

add_group-fields :
    (site : Site) (g : SiteGroup) (a : Answer (List GroupMember)) (r : GroupFetchResult)
    → add_group site g a r ≡ record {
      groups = tag_group site g ∷ r.groups;
      members = map (tag_member site g) (fetched_of a) ++ r.members;
      member_errors = is_other_error a + r.member_errors;
      member_timeout_errors = is_timeout a + r.member_timeout_errors;
    }
unfolding add_group
add_group-fields site g (get_failed e) r = ground arith
add_group-fields site g (not_decoded e) r = ground arith
add_group-fields site g (decoded ms) r = ground arith

module _ (get_members : ℕ → SiteGroup → Answer (List GroupMember)) (site : Site) where
  -- The members of each group in turn, and the failures.
  abbrev pub all_members : ℕ → List SiteGroup → List GroupMember
  all_members i [] = []
  all_members i (g ∷ gs) =
      map (tag_member site g) (fetched_of (get_members i g)) ++ all_members (i + 1) gs

  abbrev pub failures : (Answer (List GroupMember) → ℕ) → ℕ → List SiteGroup → ℕ
  failures count i [] = 0
  failures count i (g ∷ gs) = count (get_members i g) + failures count (i + 1) gs

  abbrev pub complete_from : ℕ → List SiteGroup → GroupFetchResult
  complete_from i gs = record {
    groups = map (tag_group site) gs;
    members = all_members i gs;
    member_errors = failures is_other_error i gs;
    member_timeout_errors = failures is_timeout i gs;
  }

  fetch_members_complete :
      (ctx_error : ℕ → Option GoError) (i : ℕ) (gs : List SiteGroup)
      → ((k : ℕ) → ctx_error k ≡ none)
      → fetch_members ctx_error get_members site i gs ≡ (complete_from i gs, none)
  unfolding fetch_members
  fetch_members_complete ctx_error i [] h = refl
  fetch_members_complete ctx_error i (g ∷ gs) h = rw (h i) (
      rw (fetch_members_complete ctx_error (i + 1) gs h)
        (rw (add_group-fields site g (get_members i g) (complete_from (i + 1) gs)) refl))

  -- In a context that does not end, `GetSiteGroups` returns without an error all groups, each with
  -- the site's id, and, in their order, the members of each group whose members were had, with the
  -- ids of the group and the site; a failure by a deadline is counted as a timeout, any other one
  -- and a reply that cannot be decoded as an error.
  pub get_site_groups_complete :
      (ctx_error : ℕ → Option GoError) (gs : List SiteGroup)
      → ((k : ℕ) → ctx_error k ≡ none)
      → get_site_groups ctx_error get_members site (decoded gs) ≡ (some (complete_from 0 gs), none)
  unfolding get_site_groups
  get_site_groups_complete ctx_error gs h = rw (fetch_members_complete ctx_error 0 gs h) refl

  abbrev pub has_id : ℕ → SiteGroup → Bool
  has_id n g = g.id == n

  -- A member belongs to one of the groups, and to the site.
  abbrev pub BelongsTo : List SiteGroup → GroupMember → Type 0
  BelongsTo gs m = (m.site_id ≡ site.site_id) × (any_of (has_id m.group_id) gs ≡ true)

  tagged-BelongsTo :
      (g : SiteGroup) (gs : List SiteGroup) (ms : List GroupMember)
      → All (BelongsTo (g ∷ gs)) (map (tag_member site g) ms)
  unfolding tag_member
  tagged-BelongsTo g gs [] = ground arith
  tagged-BelongsTo g gs (m ∷ ms) = (ground arith, tagged-BelongsTo g gs ms)

  later-BelongsTo :
      (g : SiteGroup) (gs : List SiteGroup) (ms : List GroupMember)
      → All (BelongsTo gs) ms
      → All (BelongsTo (g ∷ gs)) ms
  later-BelongsTo g gs [] h = ground arith
  later-BelongsTo g gs (m ∷ ms) (h, k) = (ground (arith, h), later-BelongsTo g gs ms k)

  length-zeros : (gs : List SiteGroup) → length (map (λ _. zero_group) gs) ≡ length gs
  length-zeros [] = refl
  length-zeros (g ∷ gs) = ground (arith, length-zeros gs)

  cut_off-BelongsTo :
      (c : Option GoError) (i : ℕ) (g : SiteGroup) (gs : List SiteGroup)
      (rest : GroupFetchResult × Option GoError)
      → All (BelongsTo gs) rest.0.members × (length rest.0.groups ≡ length gs)
      → All
          (BelongsTo (g ∷ gs))
          (cut_off c (g ∷ gs) (add_group site g (get_members i g) rest.0, rest.1)).0.members
        × (length (cut_off c (g ∷ gs) (add_group site g (get_members i g) rest.0, rest.1)).0.groups
            ≡ length (g ∷ gs))
  cut_off-BelongsTo none i g gs (r, e) (h, k) = rw (add_group-fields site g (get_members i g) r) (
    All-append (BelongsTo (g ∷ gs)) _ r.members
        (tagged-BelongsTo g gs (fetched_of (get_members i g))) (later-BelongsTo g gs r.members h),
    omega (arith, k),
  )
  cut_off-BelongsTo (some e) i g gs (r, d) h = (ground arith, length-zeros (g ∷ gs))

  fetch_members-BelongsTo :
      (ctx_error : ℕ → Option GoError) (i : ℕ) (gs : List SiteGroup)
      → All (BelongsTo gs) (fetch_members ctx_error get_members site i gs).0.members
        × (length (fetch_members ctx_error get_members site i gs).0.groups ≡ length gs)
  unfolding fetch_members
  fetch_members-BelongsTo ctx_error i [] = ground arith
  fetch_members-BelongsTo ctx_error i (g ∷ gs) =
      cut_off-BelongsTo (ctx_error i) i g gs (fetch_members ctx_error get_members site (i + 1) gs)
        (fetch_members-BelongsTo ctx_error (i + 1) gs)

  -- However `GetSiteGroups` ends after it has had the groups, its result has as many groups as there
  -- are, and each member of it has the site's id and the id of one of the groups.
  pub get_site_groups-BelongsTo :
      (ctx_error : ℕ → Option GoError) (gs : List SiteGroup)
      → (r : GroupFetchResult) × ((get_site_groups ctx_error get_members site (decoded gs)).0
          ≡ some r)
        × All (BelongsTo gs) r.members
        × (length r.groups ≡ length gs)
  unfolding get_site_groups
  get_site_groups-BelongsTo ctx_error gs =
      let (h, k) = fetch_members-BelongsTo ctx_error 0 gs in
      ((fetch_members ctx_error get_members site 0 gs).0, refl, h, k)
