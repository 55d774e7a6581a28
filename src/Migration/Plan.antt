-- ===== src/Migration/Plan.antt =====
-- BuildImportPlan of pkg/migration/migration.go, with its loops written as loops.
pub mod Spec
use sitebrush_v.Prelude.{List, [], ◌∷◌, ◌++◌, if◌then◌else◌}
use sitebrush_v.Prelude.Int.{ℤ, int_eq}
use sitebrush_v.Text.{Text, codes, Unicode}
use sitebrush_v.Data.{
  Domain, Post, Redirect, UriMap, User, Group, UserGroup, Media, Template, PostTemplate,
}
use sitebrush_v.Migration.Rows.{
  V1Domain, V1Post, V1Uri, V1User, V1Group, V1UserGroup, V1Media, V1Template, V1PostTemplate,
}
use sitebrush_v.Migration.Fields.{Warning, DomainMap, derived_join_domain}
use sitebrush_v.Migration.Entities.{
  map_domain, map_post, map_redirect, map_uri_map, map_user, map_group, map_user_group, map_media,
  map_template, map_post_template,
}

pub record SourceData : Type 0 where
  pub domains : List V1Domain
  pub posts : List V1Post
  pub uris : List V1Uri
  pub users : List V1User
  pub groups : List V1Group
  pub user_groups : List V1UserGroup
  pub media : List V1Media
  pub templates : List V1Template
  pub post_templates : List V1PostTemplate

pub record ImportPlan : Type 0 where
  pub domains : List Domain
  pub posts : List Post
  pub redirects : List Redirect
  pub uri_maps : List UriMap
  pub users : List User
  pub groups : List Group
  pub user_groups : List UserGroup
  pub media : List Media
  pub templates : List Template
  pub post_templates : List PostTemplate
  pub warnings : List Warning

abbrev empty_plan : ImportPlan
empty_plan = record {
  domains = [];
  posts = [];
  redirects = [];
  uri_maps = [];
  users = [];
  groups = [];
  user_groups = [];
  media = [];
  templates = [];
  post_templates = [];
  warnings = [];
}

-- domains[key] = value
unfoldable pub assign : DomainMap → ℤ → Text → DomainMap
assign domains key value k = if int_eq key k then value else domains k

-- The loop that domainsByUserID, domainsByGroupID, domainsByPostID and domainsByTemplateID share.
unfoldable pub domains_from {ℓ} :
    {R : Type ℓ} → (R → ℤ) → (R → Text) → DomainMap → List R → DomainMap
domains_from id domain domains [] = domains
domains_from id domain domains (row ∷ rows) =
    domains_from id domain (assign domains (id row) (domain row)) rows

abbrev pub empty_map : DomainMap
empty_map k = []

unfoldable pub domains_by_user_id : List V1User → DomainMap
domains_by_user_id = domains_from (λ r. r.id) (λ r. r.domain) empty_map

unfoldable pub domains_by_group_id : List V1Group → DomainMap
domains_by_group_id = domains_from (λ r. r.id) (λ r. r.domain) empty_map

unfoldable pub domains_by_post_id : List V1Post → DomainMap
domains_by_post_id = domains_from (λ r. r.id) (λ r. r.domain) empty_map

unfoldable pub domains_by_template_id : List V1Template → DomainMap
domains_by_template_id = domains_from (λ r. r.id) (λ r. r.domain) empty_map

-- The loops over the rows that map to one value each.
unfoldable pub add_domains : ImportPlan → List V1Domain → ImportPlan
add_domains plan [] = plan
add_domains plan (row ∷ rows) =
    add_domains (record plan { domains = plan.domains ++ map_domain row ∷ [] }) rows

unfoldable pub add_posts : Unicode → ImportPlan → List V1Post → ImportPlan
add_posts u plan [] = plan
add_posts u plan (row ∷ rows) =
    add_posts u (record plan { posts = plan.posts ++ map_post u row ∷ [] }) rows

unfoldable pub add_uris : ImportPlan → List V1Uri → ImportPlan
add_uris plan [] = plan
add_uris plan (row ∷ rows) =
    add_uris
      (record plan {
        redirects = plan.redirects ++ map_redirect row ∷ [];
        uri_maps = plan.uri_maps ++ map_uri_map row ∷ [];
      })
      rows

unfoldable pub add_users : ImportPlan → List V1User → ImportPlan
add_users plan [] = plan
add_users plan (row ∷ rows) =
    let (user, warnings) = map_user row in
    add_users
      (record plan { users = plan.users ++ user ∷ []; warnings = plan.warnings ++ warnings }) rows

unfoldable pub add_groups : ImportPlan → List V1Group → ImportPlan
add_groups plan [] = plan
add_groups plan (row ∷ rows) =
    add_groups (record plan { groups = plan.groups ++ map_group row ∷ [] }) rows

unfoldable pub add_user_groups : DomainMap → DomainMap → ImportPlan → List V1UserGroup → ImportPlan
add_user_groups user_domains group_domains plan [] = plan
add_user_groups user_domains group_domains plan (row ∷ rows) =
    let (domain, warnings) =
      derived_join_domain (codes "user_group") row.user_id row.group_id user_domains
        group_domains in
    add_user_groups user_domains group_domains
      (record plan {
        user_groups = plan.user_groups ++ map_user_group row domain ∷ [];
        warnings = plan.warnings ++ warnings;
      })
      rows

unfoldable pub add_media : Unicode → ImportPlan → List V1Media → ImportPlan
add_media u plan [] = plan
add_media u plan (row ∷ rows) =
    let (media, warnings) = map_media u row in
    add_media u
      (record plan { media = plan.media ++ media ∷ []; warnings = plan.warnings ++ warnings }) rows

unfoldable pub add_templates : ImportPlan → List V1Template → ImportPlan
add_templates plan [] = plan
add_templates plan (row ∷ rows) =
    add_templates (record plan { templates = plan.templates ++ map_template row ∷ [] }) rows

unfoldable pub add_post_templates :
    DomainMap → DomainMap → ImportPlan → List V1PostTemplate → ImportPlan
add_post_templates post_domains template_domains plan [] = plan
add_post_templates post_domains template_domains plan (row ∷ rows) =
    let (domain, warnings) =
      derived_join_domain (codes "post_template") row.post_id row.template_id post_domains
        template_domains in
    add_post_templates post_domains template_domains
      (record plan {
        post_templates = plan.post_templates ++ map_post_template row domain ∷ [];
        warnings = plan.warnings ++ warnings;
      })
      rows

unfoldable pub build_import_plan : Unicode → SourceData → ImportPlan
build_import_plan u source =
    let plan = add_domains empty_plan source.domains in
    let plan = add_posts u plan source.posts in
    let plan = add_uris plan source.uris in
    let plan = add_users plan source.users in
    let plan = add_groups plan source.groups in
    let user_domains = domains_by_user_id source.users in
    let group_domains = domains_by_group_id source.groups in
    let plan = add_user_groups user_domains group_domains plan source.user_groups in
    let plan = add_media u plan source.media in
    let plan = add_templates plan source.templates in
    let post_domains = domains_by_post_id source.posts in
    let template_domains = domains_by_template_id source.templates in
    add_post_templates post_domains template_domains plan source.post_templates
