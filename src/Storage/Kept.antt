-- ===== src/Storage/Kept.antt =====
-- The rows keep what the entities say: read back, they give the entities.
use sprawler.Common.{
  ℕ, ◌≡◌, refl, ap, String, Bool, false, Option, none, some, str_eq, eq_iff, if◌then◌else◌, arith,
  Bool-cases, inl, inr,
}
use sprawler.Model.{
  Float64, float_zero, is_positive, Site, SiteUser, UserProfile, SiteGroup, GroupMember,
}
use sprawler.Storage.Defs.{
  Entity, site, site_user, user_profile, site_group, group_member, Row, site_row, site_user_row,
  user_profile_row, site_group_row, group_member_row, row_of,
}
use sprawler.Storage.Rows.{
  UpsertSiteParams, UpsertSiteUserParams, UpsertUserProfileParams, UpsertSiteGroupsBatchParams,
  UpsertGroupMembersBatchParams, null_string, null_string_from_ptr, null_positive, site_params,
  site_user_params, user_profile_params, site_group_params, group_member_params,
}

-- How a column reads, with Go's zero value for NULL.
unfoldable pub text_of : Option String → String
text_of none = ""
text_of (some s) = s

unfoldable pub number_of : Option ℕ → ℕ
number_of none = 0
number_of (some n) = n

unfoldable pub float_of : Option Float64 → Float64
float_of none = float_zero
float_of (some x) = x

unfoldable pub flag_of : Option Bool → Bool
flag_of none = false
flag_of (some b) = b

unfoldable pub site_of : UpsertSiteParams → Site
unfolding text_of float_of
site_of r = record {
  site_id = r.site_id;
  site_url = r.site_url;
  time_created = text_of r.time_created;
  modified = text_of r.modified;
  title = text_of r.title;
  template_name = text_of r.template_name;
  created_by_email = text_of r.created_by_email;
  group_id = text_of r.group_id;
  last_activity_on = text_of r.last_activity_on;
  storage_used = float_of r.storage_used;
  lock_state = text_of r.lock_state;
}

unfoldable pub user_of : UpsertSiteUserParams → SiteUser
unfolding text_of number_of flag_of
user_of r = record {
  id = number_of r.id;
  site_id = text_of r.site_id;
  email = text_of r.email;
  expiration = text_of r.expiration;
  is_email_authentication_guest_user = flag_of r.is_email_authentication_guest_user;
  is_hidden_in_ui = flag_of r.is_hidden_in_ui;
  is_share_by_email_guest_user = flag_of r.is_share_by_email_guest_user;
  is_site_admin = flag_of r.is_site_admin;
  login_name = text_of r.login_name;
  principal_type = number_of r.principal_type;
  title = text_of r.title;
  user_id = record {
    name_id = text_of r.user_id_name_id;
    name_id_issuer = text_of r.user_id_name_id_issuer;
  };
  user_principal_name = r.user_principal_name;
  updated = text_of r.updated;
}

unfoldable pub profile_from : UpsertUserProfileParams → UserProfile
unfolding text_of number_of flag_of
profile_from r = record {
  personal_url = r.personal_url;
  doc_id = text_of r.doc_id;
  aad_object_id = text_of r.aad_object_id;
  account_name = text_of r.account_name;
  personal_site_instantiation_state = text_of r.personal_site_instantiation_state;
  profile_sid = text_of r.profile_sid;
  user_profile_guid = text_of r.user_profile_guid;
  user_principal_name = text_of r.user_principal_name;
  last_modified_time = text_of r.last_modified_time;
}

unfoldable pub group_from : UpsertSiteGroupsBatchParams → SiteGroup
unfolding text_of number_of flag_of
group_from r = record {
  id = r.id;
  title = r.title;
  login_name = r.login_name;
  description = text_of r.description;
  owner_title = text_of r.owner_title;
  site_id = r.site_id;
  updated = r.updated;
}

unfoldable pub member_of : UpsertGroupMembersBatchParams → GroupMember
unfolding text_of number_of flag_of
member_of r = record {
  id = r.id;
  title = r.title;
  login_name = r.login_name;
  email = text_of r.email;
  principal_type = r.principal_type;
  user_principal_name = r.user_principal_name;
  group_id = r.group_id;
  site_id = r.site_id;
  updated = r.updated;
}

text-null_string : (s : String) → text_of (null_string s) ≡ s
unfolding text_of null_string
text-null_string s = ground (arith, eq_iff s "")

-- A size of zero or below is stored as none at all.
abbrev pub counted : Float64 → Float64
counted x = if is_positive x then x else float_zero

float-null_positive : (x : Float64) → float_of (null_positive x) ≡ counted x
unfolding float_of null_positive
float-null_positive x = elim (Bool-cases (is_positive x)) [ inl h ↦ rw h refl | inr h ↦ rw h refl ]

-- An address of an empty text is stored as none at all.
abbrev pub filled : Option String → Option String
filled none = none
filled (some s) = if str_eq s "" then none else some s

ptr-filled : (o : Option String) → null_string_from_ptr o ≡ filled o
unfolding null_string_from_ptr null_string
ptr-filled none = refl
ptr-filled (some s) = refl

site_kept :
    (s : Site) → site_of (site_params s) ≡ record s { storage_used = counted s.storage_used }
unfolding site_of site_params
site_kept s = simp (text-null_string, float-null_positive)

user_kept :
    (u : SiteUser)
    → user_of (site_user_params u) ≡ record u { user_principal_name = filled u.user_principal_name }
unfolding user_of site_user_params
user_kept u = simp (text-null_string, ptr-filled)

-- An entity whose optional address, if it has one, is not the empty text, and whose size is not below
-- zero: an empty address and such a size are stored as none.
abbrev pub normal : Entity → Entity
normal (site s) = site (record s { storage_used = counted s.storage_used })
normal (site_user u) = site_user (record u { user_principal_name = filled u.user_principal_name })
normal (user_profile p) = user_profile p
normal (site_group g) = site_group g
normal (group_member m) =
    group_member (record m { user_principal_name = filled m.user_principal_name })

-- What a row says, with Go's zero value for NULL.
unfoldable pub entity_of : Row → Entity
unfolding site_of user_of profile_from group_from member_of
entity_of (site_row r) = site (site_of r)
entity_of (site_user_row r) = site_user (user_of r)
entity_of (user_profile_row r) = user_profile (profile_from r)
entity_of (site_group_row r) = site_group (group_from r)
entity_of (group_member_row r) = group_member (member_of r)

-- The row of any entity, read back, is the entity, but for an address with an empty text, which
-- comes back as none, and a site's storage size that is not positive, which comes back as 0.
pub entity_of-row_of : (e : Entity) → entity_of (row_of e) ≡ normal e
unfolding entity_of row_of
entity_of-row_of (site s) = ap site (site_kept s)
entity_of-row_of (site_user u) = ap site_user (user_kept u)
entity_of-row_of (user_profile p) = unfold user_profile_params in simp text-null_string
entity_of-row_of (site_group g) = unfold site_group_params in simp text-null_string
entity_of-row_of (group_member m) =
    unfold group_member_params in simp (text-null_string, ptr-filled)
