-- ===== src/Api/Fetch/Texts.antt =====
-- Ids, claims and names that come off their wrappers, and dates that cannot be read.
use Prim.Native.Char.{Char}
use Prim.Native.String.{String, ◌++◌}
use sprawler.Common.{◌≡◌, ◌≢◌, refl, sym, true, false, length, arith, ◌∙◌, ap, str_eq, eq_iff}
use text.Mathlib.TextLemmas.{nil≢cons, nil-append, cons-append}
use sprawler.Common.Text.{double_quotes, trim_prefix, trim_suffix, remove_first, before}
use sprawler.Common.TextLaws.{
  trim_prefix-append, trim_suffix-append, remove_first-append, before-append, lacks,
}
use sprawler.Model.{UserProfile}
use sprawler.Errors.{Reply, fetched}
use sprawler.Api.Fetch.Defs.{
  ProfileProps, SiteProperties, get_profile_property, profile_of, get_user_profile, clean_site_id,
}
use sprawler.Api.Fetch.Csom.{
  Times, parse_csom_date, date_text, convert_csom_site_to_model, extract_tenant_domain,
}

-- The site id of a CSOM reply comes out of its wrapper.
pub clean_site_id_unwraps : (id : String) → clean_site_id ("/Guid(" ++ (id ++ ")/")) ≡ id
unfolding clean_site_id
clean_site_id_unwraps id =
    rw (trim_prefix-append "/Guid(" (id ++ ")/")) (trim_suffix-append id ")/")

upn_of_claim :
    (upn : String) → remove_first "i:0#.f|membership|" ("i:0#.f|membership|" ++ upn) ≡ upn
upn_of_claim upn = remove_first-append _ _ upn

sid_of_claim :
    (claim sid : String)
    → claim ≡ "i:0h.f|membership|" ++ (sid ++ "@live.com")
    → trim_suffix (trim_prefix claim "i:0h.f|membership|") "@live.com" ≡ sid
sid_of_claim claim sid h = rw h (
    rw (trim_prefix-append "i:0h.f|membership|" (sid ++ "@live.com"))
      (trim_suffix-append sid "@live.com"))

-- For a user by a claims name whose security id is a claim as well, `GetUserProfile` gives the
-- texts in the claims, and the name itself it keeps as it is.
pub get_user_profile-claims :
    (get_properties : String → Reply ProfileProps) (upn sid : String) (props : ProfileProps)
    → get_properties (double_quotes ("i:0#.f|membership|" ++ upn)) ≡ fetched props
    → get_profile_property props.user_profile_properties "SID"
      ≡ "i:0h.f|membership|" ++ (sid ++ "@live.com")
    → (profile : UserProfile) × (get_user_profile get_properties ("i:0#.f|membership|" ++ upn)
        ≡ fetched profile)
      × (profile.user_principal_name ≡ upn)
      × (profile.profile_sid ≡ sid)
      × (profile.account_name ≡ "i:0#.f|membership|" ++ upn)
unfolding get_user_profile
get_user_profile-claims get_properties upn sid props h k =
    let user_id = "i:0#.f|membership|" ++ upn in
    (
      profile_of user_id props,
      ground (arith, h),
      unfold profile_of in upn_of_claim upn,
      unfold profile_of in sid_of_claim _ sid k,
      unfold profile_of in refl,
    )

before_dot : (rest : String) → before b'.' ("-admin" ++ ("." ++ rest)) ≡ "-admin"
unfolding before
before_dot rest =
    before-append b'.' "-admin" ("." ++ rest) refl
    ∙ ap (λ s. "-admin" ++ before b'.' s) (cons-append _ _ rest)

tenant_of_host :
    (tenant rest : String)
    → lacks b'.' tenant ≡ true
    → trim_suffix (before b'.' (tenant ++ ("-admin" ++ ("." ++ rest)))) "-admin" ≡ tenant
tenant_of_host tenant rest h =
    rw (before-append b'.' tenant ("-admin" ++ ("." ++ rest)) h)
      (rw (before_dot rest) (trim_suffix-append tenant "-admin"))

cons≢empty : (c : Char) (s : String) → ◌≢◌ {A = String} (String.◌∷◌ c s) ""
cons≢empty c s h = nil≢cons (sym h)

cons_not_empty : (c : Char) (s : String) → str_eq (String.◌∷◌ c s) "" ≡ false
cons_not_empty c s = ground (arith, eq_iff (String.◌∷◌ c s) "", cons≢empty c s)

host_not_empty : (tenant rest : String) → str_eq (tenant ++ ("-admin" ++ ("." ++ rest))) "" ≡ false
host_not_empty String.[] rest =
    rw (nil-append ("-admin" ++ ("." ++ rest)))
      (rw (cons-append _ _ ("." ++ rest)) (cons_not_empty _ _))
host_not_empty (String.◌∷◌ c tenant) rest =
    rw (cons-append c tenant ("-admin" ++ ("." ++ rest))) (cons_not_empty _ _)

-- The personal sites of the tenant with the admin host `<tenant>-admin.<rest>` are asked for under
-- `https://<tenant>-my.sharepoint.com/`.
pub extract_tenant_domain-admin :
    (hostname : String → Reply String) (admin_url tenant rest : String)
    → admin_url ≢ ""
    → hostname admin_url ≡ fetched (tenant ++ ("-admin" ++ ("." ++ rest)))
    → lacks b'.' tenant ≡ true
    → extract_tenant_domain hostname admin_url
      ≡ fetched ("https://" ++ (tenant ++ "-my.sharepoint.com/"))
unfolding extract_tenant_domain
extract_tenant_domain-admin hostname admin_url tenant rest n h k = rw h (
    rw (host_not_empty tenant rest)
      (rw (tenant_of_host tenant rest k) (ground (arith, eq_iff admin_url ""))))

module _ {Time : Type 0} (times : Times Time) where
  date_text-malformed :
      (text : String)
      → length (times.find_submatch text) ≢ 8
      → times.is_zero times.zero_time ≡ true
      → date_text times text ≡ text
  unfolding date_text parse_csom_date
  date_text-malformed text h z = ground (arith, h, z)

  -- A personal site whose dates are not of the CSOM form keeps them as the texts that they are.
  pub convert_csom_site_to_model_malformed :
      (item : SiteProperties)
      → length (times.find_submatch item.created_time) ≢ 8
      → length (times.find_submatch item.last_content_modified_date) ≢ 8
      → times.is_zero times.zero_time ≡ true
      → let site = convert_csom_site_to_model times item in
        (site.time_created ≡ item.created_time)
        × (site.modified ≡ item.last_content_modified_date)
        × (site.last_activity_on ≡ item.last_content_modified_date)
  unfolding convert_csom_site_to_model
  convert_csom_site_to_model_malformed item h k z = (
    date_text-malformed item.created_time h z,
    date_text-malformed item.last_content_modified_date k z,
    date_text-malformed item.last_content_modified_date k z,
  )
