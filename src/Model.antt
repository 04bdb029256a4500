-- ===== src/Model.antt =====
-- internal/model/model.go and types.go: the entities of a SharePoint tenant and the outcomes of
-- processing a site. A nil pointer is `none`. A site's `StorageUsed` is a float64, which the
-- program copies and compares with zero; ids, instants and durations are natural numbers.
use sprawler.Common.{ℕ, String, Bool, Option, List}
use sprawler.Common.Int.{ℤ, pos, ltb_ℤ}

-- A finite float64, `mantissa * 2 ^ exponent`. JSON has no others.
pub record Float64 : Type 0 where
  pub mantissa : ℤ
  pub exponent : ℤ

abbrev pub float_zero : Float64
float_zero = record { mantissa = pos 0; exponent = pos 0 }

-- `x > 0`.
abbrev pub is_positive : Float64 → Bool
is_positive x = ltb_ℤ (pos 0) x.mantissa

-- `float64(n)`, for the integers of up to 53 bits, which it does not round.
abbrev pub float_of_int : ℤ → Float64
float_of_int n = record { mantissa = n; exponent = pos 0 }

pub record UserProfile : Type 0 where
  pub personal_url : String
  pub doc_id : String
  pub aad_object_id : String
  pub account_name : String
  pub personal_site_instantiation_state : String
  pub profile_sid : String
  pub user_profile_guid : String
  pub user_principal_name : String
  pub last_modified_time : String

pub record Site : Type 0 where
  pub site_url : String
  pub time_created : String
  pub modified : String
  pub title : String
  pub template_name : String
  pub created_by_email : String
  pub group_id : String
  pub site_id : String
  pub last_activity_on : String
  pub storage_used : Float64
  pub lock_state : String

pub record UserId : Type 0 where
  pub name_id : String
  pub name_id_issuer : String

pub record SiteUser : Type 0 where
  pub email : String
  pub expiration : String
  pub id : ℕ
  pub is_email_authentication_guest_user : Bool
  pub is_hidden_in_ui : Bool
  pub is_share_by_email_guest_user : Bool
  pub is_site_admin : Bool
  pub login_name : String
  pub principal_type : ℕ
  pub title : String
  pub user_id : UserId
  pub user_principal_name : Option String
  pub site_id : String
  pub updated : String

pub record SiteGroup : Type 0 where
  pub id : ℕ
  pub title : String
  pub login_name : String
  pub description : String
  pub owner_title : String
  pub site_id : String
  pub updated : String

pub record GroupMember : Type 0 where
  pub id : ℕ
  pub title : String
  pub login_name : String
  pub email : String
  pub principal_type : ℕ
  pub user_principal_name : Option String
  pub group_id : ℕ
  pub site_id : String
  pub updated : String

pub data ErrorCategory : Type 0 where
  throttle auth timeout server_error network unknown : ErrorCategory

pub record OperationFailure : Type 0 where
  pub category : ErrorCategory
  pub http_status : ℕ
  pub detail : String

pub record SpSiteOutcome : Type 0 where
  pub site_url : String
  pub site_id : String
  pub timestamp : ℕ
  pub duration : ℕ
  pub users_failure : Option OperationFailure
  pub groups_failure : Option OperationFailure
  pub users_fetched : ℕ
  pub groups_fetched : ℕ
  pub members_fetched : ℕ
  pub member_errors : ℕ
  pub member_timeout_errors : ℕ

pub record OdSiteOutcome : Type 0 where
  pub site_url : String
  pub site_id : String
  pub user_account : String
  pub timestamp : ℕ
  pub duration : ℕ
  pub users_failure : Option OperationFailure
  pub profile_failure : Option OperationFailure
  pub users_fetched : ℕ
  pub profile_fetched : Bool

-- The result of `GetSiteGroups` of internal/api/client.go.
pub record GroupFetchResult : Type 0 where
  pub groups : List SiteGroup
  pub members : List GroupMember
  pub member_errors : ℕ
  pub member_timeout_errors : ℕ
