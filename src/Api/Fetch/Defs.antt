-- ===== src/Api/Fetch/Defs.antt =====
-- `GetSiteUsers`, `GetSiteGroups`, `GetUserProfile` and the conversion of a personal site. The
-- replies of the service are inputs, and so is the context; regular expressions and times are the
-- parameters of a section. A null in an array of a reply is not modelled: it is read as a nil pointer.
use sprawler.Common.{
  ℕ, ◌+◌, String, Option, none, some, List, [], ◌∷◌, ◌++◌, map, str_eq, if◌then◌else◌,
}
use sprawler.Common.Int.{ℤ}
use sprawler.Common.Text.{trim_prefix, trim_suffix, remove_first, double_quotes}
use sprawler.Model.{Site, SiteUser, SiteGroup, GroupMember, UserProfile, GroupFetchResult}
use sprawler.Errors.{GoError, Reply, api_error, fetched, wrapped, some_link, is_deadline}

-- What a request comes to: it fails, or its reply cannot be decoded, or it is decoded.
pub data Answer (A : Type 0) : Type 0 where
  get_failed not_decoded : GoError → Answer A
  decoded : A → Answer A

unfoldable pub tag_user : Site → SiteUser → SiteUser
tag_user site user = record user { site_id = site.site_id }

unfoldable pub get_site_users : Site → Answer (List SiteUser) → Reply (List SiteUser)
unfolding tag_user
get_site_users site (get_failed e) = api_error (wrapped "failed to fetch users" e)
get_site_users site (not_decoded e) = api_error (wrapped "failed to unmarshal users" e)
get_site_users site (decoded users) = fetched (map (tag_user site) users)

unfoldable pub tag_group : Site → SiteGroup → SiteGroup
tag_group site group = record group { site_id = site.site_id }

unfoldable pub tag_member : Site → SiteGroup → GroupMember → GroupMember
tag_member site group member = record member { group_id = group.id; site_id = site.site_id }

-- The entry of a group that the loop has not come to.
abbrev pub zero_group : SiteGroup
zero_group = record {
  id = 0;
  title = "";
  login_name = "";
  description = "";
  owner_title = "";
  site_id = "";
  updated = "";
}

abbrev pub untouched : List SiteGroup → GroupFetchResult
untouched gs = record {
  groups = map (λ _. zero_group) gs;
  members = [];
  member_errors = 0;
  member_timeout_errors = 0;
}

-- What a group adds to the result of the groups after it.
unfoldable pub add_group :
    Site → SiteGroup → Answer (List GroupMember) → GroupFetchResult → GroupFetchResult
unfolding tag_group tag_member some_link
add_group site g (get_failed e) r =
    if some_link is_deadline e
    then record r {
      groups = tag_group site g ∷ r.groups;
      member_timeout_errors = r.member_timeout_errors + 1;
    }
    else record r { groups = tag_group site g ∷ r.groups; member_errors = r.member_errors + 1 }
add_group site g (not_decoded e) r = record r {
  groups = tag_group site g ∷ r.groups;
  member_errors = r.member_errors + 1;
}
add_group site g (decoded ms) r = record r {
  groups = tag_group site g ∷ r.groups;
  members = map (tag_member site g) ms ++ r.members;
}

-- A group and those after it, unless the context has ended.
abbrev pub cut_off :
    Option GoError
    → List SiteGroup
    → GroupFetchResult × Option GoError
    → GroupFetchResult × Option GoError
cut_off none gs r = r
cut_off (some e) gs r = (untouched gs, some (wrapped "parent context cancelled" e))

module _ (ctx_error : ℕ → Option GoError)
    (get_members : ℕ → SiteGroup → Answer (List GroupMember)) where
  -- The loop over the groups, from the i-th on.
  unfoldable pub fetch_members : Site → ℕ → List SiteGroup → GroupFetchResult × Option GoError
  unfolding add_group
  fetch_members site i [] = (untouched [], none)
  fetch_members site i (g ∷ gs) =
      let (r, e) = fetch_members site (i + 1) gs in
      cut_off (ctx_error i) (g ∷ gs) (add_group site g (get_members i g) r, e)

  -- The result, nil on a failure to get the groups, and the error.
  unfoldable pub get_site_groups :
      Site → Answer (List SiteGroup) → Option GroupFetchResult × Option GoError
  unfolding fetch_members
  get_site_groups site (get_failed e) = (none, some (wrapped "failed to fetch groups" e))
  get_site_groups site (not_decoded e) = (none, some (wrapped "failed to unmarshal groups" e))
  get_site_groups site (decoded gs) = let (r, e) = fetch_members site 0 gs in (some r, e)

-- The reply of the User Profile Service.
pub record ProfileProps : Type 0 where
  pub personal_url : String
  pub user_profile_properties : List (String × String)

unfoldable pub get_profile_property : List (String × String) → String → String
get_profile_property [] key = ""
get_profile_property ((k, v) ∷ props) key =
    let rest = get_profile_property props key in if str_eq k key then v else rest

-- The profile of a user. The fields that the code does not set are empty.
unfoldable pub profile_of : String → ProfileProps → UserProfile
unfolding get_profile_property trim_prefix trim_suffix remove_first
profile_of user_id props =
    let property = get_profile_property props.user_profile_properties in
    record {
      personal_url = props.personal_url;
      doc_id = "";
      aad_object_id = property "msOnline-ObjectId";
      account_name = user_id;
      personal_site_instantiation_state = property "SPS-PersonalSiteInstantiationState";
      profile_sid = trim_suffix (trim_prefix (property "SID") "i:0h.f|membership|") "@live.com";
      user_profile_guid = "";
      user_principal_name = remove_first "i:0#.f|membership|" user_id;
      last_modified_time = "";
    }

-- `get_properties` is the service: it is asked for the login name with its quotes doubled.
unfoldable pub get_user_profile : (String → Reply ProfileProps) → String → Reply UserProfile
unfolding profile_of double_quotes
get_user_profile get_properties user_id = elim (get_properties (double_quotes user_id)) [
  | api_error e ↦ api_error (wrapped "failed to get profile properties" e)
  | fetched props ↦ fetched (profile_of user_id props)
]

-- A site of a CSOM reply. The storage is taken as not negative.
pub record SiteProperties : Type 0 where
  pub created_time : String
  pub last_content_modified_date : String
  pub lock_state : String
  pub owner : String
  pub site_id : String
  pub storage_usage : ℤ
  pub template : String
  pub title : String
  pub url : String

unfoldable pub clean_site_id : String → String
unfolding trim_prefix trim_suffix
clean_site_id site_id = trim_suffix (trim_prefix site_id "/Guid(") ")/"
