-- ===== src/Storage/Rows.antt =====
-- The rows of the database and the converters of sqlite_batch_operations.go. A column that may be
-- NULL is an `Option`. Ids fit into an int64.
use sprawler.Common.{ℕ, String, Bool, Option, none, some, str_eq, if◌then◌else◌}
use sprawler.Model.{Float64, is_positive, Site, SiteUser, UserProfile, SiteGroup, GroupMember}

pub record UpsertSiteParams : Type 0 where
  pub site_id : String
  pub site_url : String
  pub time_created : Option String
  pub modified : Option String
  pub title : Option String
  pub template_name : Option String
  pub created_by_email : Option String
  pub group_id : Option String
  pub last_activity_on : Option String
  pub storage_used : Option Float64
  pub lock_state : Option String

pub record UpsertSiteUserParams : Type 0 where
  pub id : Option ℕ
  pub site_id : Option String
  pub email : Option String
  pub expiration : Option String
  pub is_email_authentication_guest_user : Option Bool
  pub is_hidden_in_ui : Option Bool
  pub is_share_by_email_guest_user : Option Bool
  pub is_site_admin : Option Bool
  pub login_name : Option String
  pub principal_type : Option ℕ
  pub title : Option String
  pub user_id_name_id : Option String
  pub user_id_name_id_issuer : Option String
  pub user_principal_name : Option String
  pub updated : Option String

pub record UpsertUserProfileParams : Type 0 where
  pub personal_url : String
  pub doc_id : Option String
  pub aad_object_id : Option String
  pub account_name : Option String
  pub personal_site_instantiation_state : Option String
  pub profile_sid : Option String
  pub user_profile_guid : Option String
  pub user_principal_name : Option String
  pub last_modified_time : Option String

pub record UpsertSiteGroupsBatchParams : Type 0 where
  pub id : ℕ
  pub title : String
  pub login_name : String
  pub description : Option String
  pub owner_title : Option String
  pub site_id : String
  pub updated : String

pub record UpsertGroupMembersBatchParams : Type 0 where
  pub id : ℕ
  pub title : String
  pub login_name : String
  pub email : Option String
  pub principal_type : ℕ
  pub user_principal_name : Option String
  pub group_id : ℕ
  pub site_id : String
  pub updated : String

-- `sql.NullString{String: s, Valid: s != ""}`.
unfoldable pub null_string : String → Option String
null_string s = if str_eq s "" then none else some s

unfoldable pub null_string_from_ptr : Option String → Option String
unfolding null_string
null_string_from_ptr none = none
null_string_from_ptr (some s) = null_string s

-- `sql.NullFloat64{Float64: x, Valid: x > 0}`.
unfoldable pub null_positive : Float64 → Option Float64
null_positive x = if is_positive x then some x else none

unfoldable pub site_params : Site → UpsertSiteParams
unfolding null_string null_positive
site_params s = record {
  site_id = s.site_id;
  site_url = s.site_url;
  time_created = null_string s.time_created;
  modified = null_string s.modified;
  title = null_string s.title;
  template_name = null_string s.template_name;
  created_by_email = null_string s.created_by_email;
  group_id = null_string s.group_id;
  last_activity_on = null_string s.last_activity_on;
  storage_used = null_positive s.storage_used;
  lock_state = null_string s.lock_state;
}

unfoldable pub site_user_params : SiteUser → UpsertSiteUserParams
unfolding null_string null_string_from_ptr
site_user_params s = record {
  id = some s.id;
  site_id = null_string s.site_id;
  email = null_string s.email;
  expiration = null_string s.expiration;
  is_email_authentication_guest_user = some s.is_email_authentication_guest_user;
  is_hidden_in_ui = some s.is_hidden_in_ui;
  is_share_by_email_guest_user = some s.is_share_by_email_guest_user;
  is_site_admin = some s.is_site_admin;
  login_name = null_string s.login_name;
  principal_type = some s.principal_type;
  title = null_string s.title;
  user_id_name_id = null_string s.user_id.name_id;
  user_id_name_id_issuer = null_string s.user_id.name_id_issuer;
  user_principal_name = null_string_from_ptr s.user_principal_name;
  updated = null_string s.updated;
}

unfoldable pub user_profile_params : UserProfile → UpsertUserProfileParams
unfolding null_string
user_profile_params u = record {
  personal_url = u.personal_url;
  doc_id = null_string u.doc_id;
  aad_object_id = null_string u.aad_object_id;
  account_name = null_string u.account_name;
  personal_site_instantiation_state = null_string u.personal_site_instantiation_state;
  profile_sid = null_string u.profile_sid;
  user_profile_guid = null_string u.user_profile_guid;
  user_principal_name = null_string u.user_principal_name;
  last_modified_time = null_string u.last_modified_time;
}

unfoldable pub site_group_params : SiteGroup → UpsertSiteGroupsBatchParams
unfolding null_string
site_group_params s = record {
  id = s.id;
  title = s.title;
  login_name = s.login_name;
  description = null_string s.description;
  owner_title = null_string s.owner_title;
  site_id = s.site_id;
  updated = s.updated;
}

unfoldable pub group_member_params : GroupMember → UpsertGroupMembersBatchParams
unfolding null_string null_string_from_ptr
group_member_params g = record {
  id = g.id;
  title = g.title;
  login_name = g.login_name;
  email = null_string g.email;
  principal_type = g.principal_type;
  user_principal_name = null_string_from_ptr g.user_principal_name;
  group_id = g.group_id;
  site_id = g.site_id;
  updated = g.updated;
}
