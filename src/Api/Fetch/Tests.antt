-- ===== src/Api/Fetch/Tests.antt =====
-- A site with three groups, a user and a tenant, and the theorems at them.
use Prim.Native.String.{◌++◌}
use sprawler.Common.{
  ℕ, ◌≡◌, refl, Option, none, some, List, [], ◌∷◌, length, ◌==◌, str_eq, if◌then◌else◌,
}
use sprawler.Common.Int.{ℤ, pos}
use sprawler.Common.Text.{atoi}
use sprawler.Model.{float_zero, Site, SiteGroup, GroupMember}
use sprawler.Errors.{deadline_exceeded, canceled, wrapped, GoError, some_link}
use sprawler.Api.Fetch.Defs.{
  Answer, get_failed, decoded, ProfileProps, get_profile_property, get_site_groups, zero_group,
  clean_site_id,
}
use sprawler.Api.Fetch.Csom.{Times, parse_csom_date}
use sprawler.Api.Fetch.Groups.{complete_from, get_site_groups_complete}

abbrev site : Site
site = record {
  site_url = "https://contoso.sharepoint.com/a";
  time_created = "";
  modified = "";
  title = "";
  template_name = "";
  created_by_email = "";
  group_id = "";
  site_id = "a";
  last_activity_on = "";
  storage_used = float_zero;
  lock_state = "";
}

abbrev group_of : ℕ → SiteGroup
group_of n = record zero_group { id = n }

abbrev member : GroupMember
member = record {
  id = 7;
  title = "";
  login_name = "";
  email = "";
  principal_type = 1;
  user_principal_name = none;
  group_id = 0;
  site_id = "";
  updated = "";
}

abbrev three_groups : List SiteGroup
three_groups = group_of 3 ∷ group_of 4 ∷ group_of 5 ∷ []

-- The second group times out.
abbrev get_members : ℕ → SiteGroup → Answer (List GroupMember)
get_members i g =
    if i == 1 then get_failed (wrapped "members" deadline_exceeded) else decoded (member ∷ [])

abbrev no_end : ℕ → Option GoError
no_end k = none

abbrev ends_at_second : ℕ → Option GoError
ends_at_second k = if k == 1 then some canceled else none

complete_test : (complete_from get_members site 0 three_groups).member_timeout_errors ≡ 1
unfolding some_link
complete_test = refl

get_site_groups_complete_example :
    get_site_groups no_end get_members site (decoded three_groups)
    ≡ (some (complete_from get_members site 0 three_groups), none)
get_site_groups_complete_example =
    get_site_groups_complete get_members site no_end three_groups (λ k. refl)

abbrev props : ProfileProps
props = record {
  personal_url = "https://contoso-my.sharepoint.com/personal/anna";
  user_profile_properties =
      ("AccountName", "anna") ∷ ("SID", "i:0h.f|membership|1003@live.com") ∷ [];
}

sid_test :
    get_profile_property props.user_profile_properties "SID"
    ≡ "i:0h.f|membership|" ++ ("1003" ++ "@live.com")
unfolding get_profile_property
sid_test = refl

clean_site_id_test : clean_site_id "/Guid(0a1b)/" ≡ "0a1b"
unfolding clean_site_id
clean_site_id_test = refl

-- Times as the lists of their numbers, from which a match of a date is read.
abbrev times : Times (List ℤ)
times = record {
  find_submatch = λ s.
      if str_eq s "/Date(2024,0,15,10,30,0,5)/"
      then s ∷ "2024" ∷ "0" ∷ "15" ∷ "10" ∷ "30" ∷ "0" ∷ "5" ∷ []
      else [];
  zero_time = [];
  date = λ numbers. numbers;
  is_zero = λ t. length t == 0;
  format = λ t. "2024-01-15T10:30:00Z";
}

parse_csom_date_test :
    parse_csom_date times "/Date(2024,0,15,10,30,0,5)/"
    ≡ pos 2024 ∷ pos 1 ∷ pos 15 ∷ pos 10 ∷ pos 30 ∷ pos 0 ∷ pos 5000000 ∷ []
unfolding parse_csom_date atoi
parse_csom_date_test = refl
