-- ===== src/Processors/Filter.antt =====
-- internal/processors/site_filter.go. `url_path` is `url.Parse` followed by `.Path`, `none` where
-- it fails, and `trim_space` is `strings.TrimSpace`: both are the standard library's.
use sprawler.Common.{
  String, Bool, false, ◌||◌, Option, none, some, List, str_eq, if◌then◌else◌, any_of,
}
use sprawler.Model.{Site}

pub data SkipReason : Type 0 where
  template tenant_root : SkipReason

-- The set is its list of members.
unfoldable pub is_skipped_template : List String → String → Bool
is_skipped_template templates name = any_of (λ t. str_eq t name) templates

module _ (url_path : String → Option String) (trim_space : String → String) where
  unfoldable pub is_tenant_root_site : String → Bool
  is_tenant_root_site site_url = if str_eq site_url "" then false else elim (url_path site_url) [
    | none ↦ false
    | some path ↦ str_eq (trim_space path) "" || str_eq (trim_space path) "/"
  ]

  -- `none` is the empty reason: the site is processed.
  unfoldable pub should_skip_site : Site → List String → Option SkipReason
  should_skip_site site templates =
      if is_skipped_template templates site.template_name
      then some template
      else if is_tenant_root_site site.site_url
      then some tenant_root
      else none
