-- ===== src/Api/Fetch/Csom.antt =====
-- The personal sites: internal/api/csom, the conversion of a site, and the tenant's domain. The JSON
-- decoder, the regular expression's matches, times and URL parsing are parameters.
use sprawler.Common.{
  ◌+◌, ◌*◌, String, Bool, Option, none, some, List, [], ◌∷◌, ◌==◌, not, str_eq, if◌then◌else◌,
  length,
}
use Prim.Native.String.{◌++◌}
use sprawler.Common.Int.{residue, int64, ℤ}
use sprawler.Common.Text.{trim_suffix, before, atoi}
use sprawler.Model.{float_of_int, Site}
use sprawler.Errors.{Reply, api_error, fetched, wrapped, message}
use sprawler.Api.Fetch.Defs.{SiteProperties, clean_site_id}

-- The arguments of `time.Date` before the location: the months of a match start at 0, and its last
-- number is in milliseconds.
unfoldable pub date_arguments : List ℤ → List ℤ
unfolding int64
date_arguments (y ∷ mo ∷ d ∷ h ∷ mi ∷ s ∷ ms ∷ []) =
    y ∷ int64 (residue mo + 1) ∷ d ∷ h ∷ mi ∷ s ∷ int64 (residue ms * 1000000) ∷ []
date_arguments ns = ns

-- The loop over the matches: one that is not an int64 makes the date a zero time.
unfoldable pub values_of : List String → Option (List ℤ)
values_of [] = some []
values_of (m ∷ ms) =
    let rest = values_of ms in
    elim (atoi m) [ none ↦ none | some n ↦ elim rest [ none ↦ none | some ns ↦ some (n ∷ ns) ] ]

abbrev pub tail : List String → List String
tail [] = []
tail (m ∷ ms) = ms

-- What the code uses of the packages regexp and time: the submatches of the first match, the
-- empty list if there is none, and times.
pub record Times (Time : Type 0) : Type 0 where
  pub find_submatch : String → List String
  pub zero_time : Time
  pub date : List ℤ → Time
  pub is_zero : Time → Bool
  pub format : Time → String

module _ {Time : Type 0} (times : Times Time) where
  unfoldable pub parse_csom_date : String → Time
  unfolding values_of date_arguments
  parse_csom_date input =
      let matches = times.find_submatch input in
      if not (length matches == 8) then times.zero_time else elim (values_of (tail matches)) [
        | none ↦ times.zero_time
        | some values ↦ times.date (date_arguments values)
      ]

  -- A date, or the text that could not be read.
  unfoldable pub date_text : String → String
  unfolding parse_csom_date
  date_text text =
      let t = parse_csom_date text in if not (times.is_zero t) then times.format t else text

  unfoldable pub convert_csom_site_to_model : SiteProperties → Site
  unfolding date_text clean_site_id
  convert_csom_site_to_model item = record {
    site_url = item.url;
    time_created = date_text item.created_time;
    modified = date_text item.last_content_modified_date;
    title = item.title;
    template_name = item.template;
    created_by_email = item.owner;
    group_id = "";
    site_id = clean_site_id item.site_id;
    last_activity_on = date_text item.last_content_modified_date;
    storage_used = float_of_int item.storage_usage;
    lock_state = item.lock_state;
  }

-- The last value of the reply's array, through the JSON encoder and back.
module _ {J D : Type 0} (unmarshal_array : String → Reply (List J)) (marshal : J → Reply String)
    (unmarshal_data : String → Reply D) where
  unfoldable pub parse_data : Reply String → Reply D
  parse_data (api_error e) = api_error (wrapped "failed to marshal CSOM response data" e)
  parse_data (fetched text) = elim (unmarshal_data text) [
    | api_error e ↦ api_error (wrapped "failed to unmarshal SitePropertiesEnumerable" e)
    | fetched d ↦ fetched d
  ]

  unfoldable pub parse_last : List J → Reply D
  unfolding parse_data
  parse_last [] = api_error (message "empty CSOM response")
  parse_last (v ∷ []) = parse_data (marshal v)
  parse_last (v ∷ w ∷ vs) = parse_last (w ∷ vs)

  unfoldable pub parse_csom_response : String → Reply D
  unfolding parse_last
  parse_csom_response text = elim (unmarshal_array text) [
    | api_error e ↦ api_error (wrapped "failed to unmarshal CSOM response" e)
    | fetched vs ↦ parse_last vs
  ]

-- `hostname` is what URL parsing makes of the text.
unfoldable pub extract_tenant_domain : (String → Reply String) → String → Reply String
unfolding before trim_suffix
extract_tenant_domain hostname admin_url =
    if str_eq admin_url ""
    then api_error (message "admin URL is empty")
    else elim (hostname admin_url) [
      | api_error e ↦ api_error (wrapped "invalid admin URL" e)
      | fetched host ↦
          if str_eq host ""
          then api_error (message "admin URL has no hostname")
          else fetched
              ("https://" ++ trim_suffix (before b'.' host) "-admin" ++ "-my.sharepoint.com/")
    ]
