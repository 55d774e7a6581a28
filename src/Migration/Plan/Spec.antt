-- ===== src/Migration/Plan/Spec.antt =====
-- What BuildImportPlan is to return, row by row and with no loop variable, and that it does.
use mathlib.Core.Path.{fun_ext}
use sitebrush_v.Prelude.{
  ◌≡◌, refl, List, [], ◌∷◌, ◌++◌, map, append_assoc, append-nil, if◌then◌else◌,
}
use sitebrush_v.Prelude.Int.{ℤ, int_eq}
use sitebrush_v.Text.{Text, codes, Unicode}
use sitebrush_v.Migration.Rows.{
  V1Domain, V1Post, V1Uri, V1User, V1Group, V1UserGroup, V1Media, V1Template, V1PostTemplate,
}
use sitebrush_v.Migration.Fields.{Warning, DomainMap, derived_join_domain}
use sitebrush_v.Migration.Entities.{
  map_domain, map_post, map_redirect, map_uri_map, map_user, map_group, map_user_group, map_media,
  map_template, map_post_template,
}
use sitebrush_v.Migration.Plan.{
  SourceData, ImportPlan, empty_map, assign, domains_from, domains_by_user_id, domains_by_group_id,
  domains_by_post_id, domains_by_template_id, add_domains, add_posts, add_uris, add_users,
  add_groups, add_user_groups, add_media, add_templates, add_post_templates, build_import_plan,
}

abbrev pub gather {ℓ} : {R : Type ℓ} → (R → List Warning) → List R → List Warning
gather f [] = []
gather f (row ∷ rows) = f row ++ gather f rows

-- The domain of the last row with the id, or "" if there is none.
module _ {ℓ} {R : Type ℓ} (id : R → ℤ) (domain : R → Text) where
  abbrev pub last_domain : Text → ℤ → List R → Text
  last_domain found key [] = found
  last_domain found key (row ∷ rows) =
      last_domain (if int_eq (id row) key then domain row else found) key rows

  pub domains_from-last_domain :
      (m : DomainMap) (rows : List R) (key : ℤ)
      → domains_from id domain m rows key ≡ last_domain (m key) key rows
  unfolding domains_from assign
  domains_from-last_domain m [] key = refl
  domains_from-last_domain m (row ∷ rows) key =
      domains_from-last_domain (assign m (id row) (domain row)) rows key

-- What the join of a user and a group gets: the domain and the warnings.
abbrev pub user_group_join : SourceData → V1UserGroup → Text × List Warning
user_group_join s row =
    derived_join_domain (codes "user_group") row.user_id row.group_id
      (λ k. last_domain (λ (r : V1User). r.id) (λ r. r.domain) [] k s.users)
      (λ k. last_domain (λ (r : V1Group). r.id) (λ r. r.domain) [] k s.groups)

abbrev pub post_template_join : SourceData → V1PostTemplate → Text × List Warning
post_template_join s row =
    derived_join_domain (codes "post_template") row.post_id row.template_id
      (λ k. last_domain (λ (r : V1Post). r.id) (λ r. r.domain) [] k s.posts)
      (λ k. last_domain (λ (r : V1Template). r.id) (λ r. r.domain) [] k s.templates)

abbrev pub spec_warnings : Unicode → SourceData → List Warning
spec_warnings u s =
    ((gather (λ r. (map_user r).1) s.users ++ gather (λ r. (user_group_join s r).1) s.user_groups)
      ++ gather (λ r. (map_media u r).1) s.media)
    ++ gather (λ r. (post_template_join s r).1) s.post_templates

abbrev pub import_spec : Unicode → SourceData → ImportPlan
import_spec u s = record {
  domains = map map_domain s.domains;
  posts = map (map_post u) s.posts;
  redirects = map map_redirect s.uris;
  uri_maps = map map_uri_map s.uris;
  users = map (λ r. (map_user r).0) s.users;
  groups = map map_group s.groups;
  user_groups = map (λ r. map_user_group r (user_group_join s r).0) s.user_groups;
  media = map (λ r. (map_media u r).0) s.media;
  templates = map map_template s.templates;
  post_templates = map (λ r. map_post_template r (post_template_join s r).0) s.post_templates;
  warnings = spec_warnings u s;
}

-- Each loop appends the mapped rows, and their warnings, to what the plan has.
add_domains-map :
    (plan : ImportPlan) (rows : List V1Domain)
    → add_domains plan rows ≡ record plan { domains = plan.domains ++ map map_domain rows }
unfolding add_domains
add_domains-map plan [] = simp append-nil
add_domains-map plan (row ∷ rows) = simp (
  add_domains-map (record plan { domains = plan.domains ++ map_domain row ∷ [] }) rows,
  append_assoc,
)

add_posts-map :
    (u : Unicode) (plan : ImportPlan) (rows : List V1Post)
    → add_posts u plan rows ≡ record plan { posts = plan.posts ++ map (map_post u) rows }
unfolding add_posts
add_posts-map u plan [] = simp append-nil
add_posts-map u plan (row ∷ rows) = simp (
  add_posts-map u (record plan { posts = plan.posts ++ (map_post u) row ∷ [] }) rows,
  append_assoc,
)

add_groups-map :
    (plan : ImportPlan) (rows : List V1Group)
    → add_groups plan rows ≡ record plan { groups = plan.groups ++ map map_group rows }
unfolding add_groups
add_groups-map plan [] = simp append-nil
add_groups-map plan (row ∷ rows) =
    simp (
      add_groups-map (record plan { groups = plan.groups ++ map_group row ∷ [] }) rows,
      append_assoc,
    )

add_templates-map :
    (plan : ImportPlan) (rows : List V1Template)
    → add_templates plan rows ≡ record plan { templates = plan.templates ++ map map_template rows }
unfolding add_templates
add_templates-map plan [] = simp append-nil
add_templates-map plan (row ∷ rows) = simp (
  add_templates-map (record plan { templates = plan.templates ++ map_template row ∷ [] }) rows,
  append_assoc,
)

add_uris-map :
    (plan : ImportPlan) (rows : List V1Uri)
    → add_uris plan rows ≡ record plan {
      redirects = plan.redirects ++ map map_redirect rows;
      uri_maps = plan.uri_maps ++ map map_uri_map rows;
    }
unfolding add_uris
add_uris-map plan [] = simp append-nil
add_uris-map plan (row ∷ rows) = simp (
  add_uris-map
      (record plan {
        redirects = plan.redirects ++ map_redirect row ∷ [];
        uri_maps = plan.uri_maps ++ map_uri_map row ∷ [];
      })
      rows,
  append_assoc,
)

add_users-map :
    (plan : ImportPlan) (rows : List V1User)
    → add_users plan rows ≡ record plan {
      users = plan.users ++ map (λ r. (map_user r).0) rows;
      warnings = plan.warnings ++ gather (λ r. (map_user r).1) rows;
    }
unfolding add_users
add_users-map plan [] = simp append-nil
add_users-map plan (row ∷ rows) = simp (
  add_users-map
      (record plan {
        users = plan.users ++ (map_user row).0 ∷ [];
        warnings = plan.warnings ++ (map_user row).1;
      })
      rows,
  append_assoc,
)

add_media-map :
    (u : Unicode) (plan : ImportPlan) (rows : List V1Media)
    → add_media u plan rows ≡ record plan {
      media = plan.media ++ map (λ r. (map_media u r).0) rows;
      warnings = plan.warnings ++ gather (λ r. (map_media u r).1) rows;
    }
unfolding add_media
add_media-map u plan [] = simp append-nil
add_media-map u plan (row ∷ rows) = simp (
  add_media-map u
      (record plan {
        media = plan.media ++ (map_media u row).0 ∷ [];
        warnings = plan.warnings ++ (map_media u row).1;
      })
      rows,
  append_assoc,
)

add_user_groups-map :
    (a b : DomainMap) (plan : ImportPlan) (rows : List V1UserGroup)
    → add_user_groups a b plan rows ≡ record plan {
      user_groups =
          plan.user_groups
          ++ map
              (λ r.
                map_user_group r
                  (derived_join_domain (codes "user_group") r.user_id r.group_id a b).0)
              rows;
      warnings =
          plan.warnings
          ++ gather
              (λ r. (derived_join_domain (codes "user_group") r.user_id r.group_id a b).1)
              rows;
    }
unfolding add_user_groups
add_user_groups-map a b plan [] = simp append-nil
add_user_groups-map a b plan (row ∷ rows) = simp (
  add_user_groups-map a b
      (record plan {
        user_groups =
            plan.user_groups
            ++ map_user_group row
                (derived_join_domain (codes "user_group") row.user_id row.group_id a b).0
              ∷ [];
        warnings =
            plan.warnings
            ++ (derived_join_domain (codes "user_group") row.user_id row.group_id a b).1;
      })
      rows,
  append_assoc,
)

add_post_templates-map :
    (a b : DomainMap) (plan : ImportPlan) (rows : List V1PostTemplate)
    → add_post_templates a b plan rows ≡ record plan {
      post_templates =
          plan.post_templates
          ++ map
              (λ r.
                map_post_template r
                  (derived_join_domain (codes "post_template") r.post_id r.template_id a b).0)
              rows;
      warnings =
          plan.warnings
          ++ gather
              (λ r. (derived_join_domain (codes "post_template") r.post_id r.template_id a b).1)
              rows;
    }
unfolding add_post_templates
add_post_templates-map a b plan [] = simp append-nil
add_post_templates-map a b plan (row ∷ rows) = simp (
  add_post_templates-map a b
      (record plan {
        post_templates =
            plan.post_templates
            ++ map_post_template row
                (derived_join_domain (codes "post_template") row.post_id row.template_id a b).0
              ∷ [];
        warnings =
            plan.warnings
            ++ (derived_join_domain (codes "post_template") row.post_id row.template_id a b).1;
      })
      rows,
  append_assoc,
)

-- Reading the maps that the join loops are given.
users-last_domain :
    (rows : List V1User)
    → domains_by_user_id rows ≡ (λ k. last_domain (λ (r : V1User). r.id) (λ r. r.domain) [] k rows)
unfolding domains_by_user_id
users-last_domain rows = fun_ext (domains_from-last_domain _ _ empty_map rows)

groups-last_domain :
    (rows : List V1Group)
    → domains_by_group_id rows
      ≡ (λ k. last_domain (λ (r : V1Group). r.id) (λ r. r.domain) [] k rows)
unfolding domains_by_group_id
groups-last_domain rows = fun_ext (domains_from-last_domain _ _ empty_map rows)

posts-last_domain :
    (rows : List V1Post)
    → domains_by_post_id rows ≡ (λ k. last_domain (λ (r : V1Post). r.id) (λ r. r.domain) [] k rows)
unfolding domains_by_post_id
posts-last_domain rows = fun_ext (domains_from-last_domain _ _ empty_map rows)

templates-last_domain :
    (rows : List V1Template)
    → domains_by_template_id rows
      ≡ (λ k. last_domain (λ (r : V1Template). r.id) (λ r. r.domain) [] k rows)
unfolding domains_by_template_id
templates-last_domain rows = fun_ext (domains_from-last_domain _ _ empty_map rows)

ruleset loops = (
  add_domains-map, add_posts-map, add_uris-map, add_users-map, add_groups-map, add_user_groups-map,
  add_media-map, add_templates-map, add_post_templates-map, users-last_domain, groups-last_domain,
  posts-last_domain, templates-last_domain,
)

-- The plan has each table's rows mapped in order, with nothing dropped, added or reordered; a
-- redirect row gives a redirect and a URI map; a join row gets its domain from the last user, group,
-- post or template row with its id; the warnings are those of the users, then of the user-group
-- joins, of the media and of the post-template joins, in row order.
pub build_import_plan-eq-import_spec :
    (u : Unicode) (s : SourceData) → build_import_plan u s ≡ import_spec u s
unfolding build_import_plan
build_import_plan-eq-import_spec u s = simp loops
