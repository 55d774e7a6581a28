-- ===== src/Migration/Passwords.antt =====
-- Legacy passwords in MapUser and BuildImportPlan of pkg/migration/migration.go.
use sitebrush_v.Prelude.{
  ℕ, ◌≡◌, refl, Bool, true, false, not, List, [], ◌∷◌, Option, none, some, arith, if◌then◌else◌,
  count_if, count_if-append, All, All-map,
}
use sitebrush_v.Text.{Text, Unicode, is_empty}
use sitebrush_v.Data.{User}
use sitebrush_v.Migration.Rows.{V1User, V1Media}
use sitebrush_v.Migration.Fields.{
  Warning, legacy_password, invalid_integer, unsafe_media_location, missing_domain, domain_mismatch,
  accept_int, parse_trimmed, parse_legacy_int, media_storage_path, derived_join_domain,
  choose_domain, DomainMap,
}
use sitebrush_v.Prelude.Int.{ℤ, pos, negsuc}
use sitebrush_v.Text.{trim_space, is_empty, atoi}
use sitebrush_v.Migration.Entities.{map_user, user_of, map_media}
use sitebrush_v.Migration.Plan.{SourceData, build_import_plan}
use sitebrush_v.Migration.Plan.Spec.{
  gather, user_group_join, post_template_join, build_import_plan-eq-import_spec,
}

abbrev pub is_password_warning : Warning → Bool
is_password_warning w = elim w.code [
  | legacy_password ↦ true
  | invalid_integer ↦ false
  | unsafe_media_location ↦ false
  | missing_domain ↦ false
  | domain_mismatch ↦ false
]

abbrev pub password_warnings : List Warning → ℕ
password_warnings = count_if is_password_warning

abbrev pub has_password : V1User → Bool
has_password row = not (is_empty row.password)

map_user-no_hash : (row : V1User) → (map_user row).0.password_hash ≡ []
unfolding map_user user_of
map_user-no_hash row = ground arith

map_user-warnings :
    (row : V1User) → password_warnings (map_user row).1 ≡ (if has_password row then 1 else 0)
unfolding map_user
map_user-warnings row = ground arith

gather-users :
    (rows : List V1User)
    → password_warnings (gather (λ r. (map_user r).1) rows) ≡ count_if has_password rows
gather-users [] = refl
gather-users (row ∷ rows) = ground (
  arith,
  map_user-warnings row,
  gather-users rows,
  count_if-append is_password_warning (map_user row).1 (gather (λ r. (map_user r).1) rows),
)

-- No other row gives such a warning.
gather-silent {ℓ} :
    {R : Type ℓ} (f : R → List Warning)
    → ((row : R) → password_warnings (f row) ≡ 0)
    → (rows : List R) → password_warnings (gather f rows) ≡ 0
gather-silent f silent [] = refl
gather-silent f silent (row ∷ rows) = omega (
  arith,
  silent row,
  gather-silent f silent rows,
  count_if-append is_password_warning (f row) (gather f rows),
)

accept_int-silent :
    (entity : Text) (id : ℤ) (field value : Text) (r : Option ℤ)
    → password_warnings (accept_int entity id field value r).1 ≡ 0
unfolding accept_int
accept_int-silent entity id field value (some (pos n)) = refl
accept_int-silent entity id field value (some (negsuc n)) = refl
accept_int-silent entity id field value none = refl

parse_legacy_int-silent :
    (entity : Text) (id : ℤ) (field value : Text)
    → password_warnings (parse_legacy_int entity id field value).1 ≡ 0
unfolding parse_legacy_int parse_trimmed
parse_legacy_int-silent entity id field value =
    ground (arith, accept_int-silent entity id field (trim_space value) (atoi (trim_space value)))

media_storage_path-silent :
    (u : Unicode) (id : ℤ) (hash format : Text)
    → password_warnings (media_storage_path u id hash format).1 ≡ 0
unfolding media_storage_path
media_storage_path-silent u id hash format = ground arith

map_media-silent : (u : Unicode) (row : V1Media) → password_warnings (map_media u row).1 ≡ 0
unfolding map_media
map_media-silent u row = simp (count_if-append, parse_legacy_int-silent, media_storage_path-silent)

derived_join_domain-silent :
    (entity : Text) (left right : ℤ) (a b : DomainMap)
    → password_warnings (derived_join_domain entity left right a b).1 ≡ 0
unfolding derived_join_domain choose_domain
derived_join_domain-silent entity left right a b = ground arith

-- No imported user has a password hash, so no v1 password opens an account; and the plan asks for a
-- password reset, by a legacy-password warning, exactly as often as a v1 user has a password.
pub import_resets_passwords :
    (u : Unicode) (s : SourceData)
    → All (λ user. user.password_hash ≡ []) (build_import_plan u s).users
      × (password_warnings (build_import_plan u s).warnings ≡ count_if has_password s.users)
import_resets_passwords u s = rw (build_import_plan-eq-import_spec u s) (
  All-map (λ (user : User). user.password_hash ≡ []) (λ r. (map_user r).0) map_user-no_hash s.users,
  simp
      (
        count_if-append,
        gather-users s.users,
        gather-silent (λ r. (user_group_join s r).1) (λ r. derived_join_domain-silent _ _ _ _ _)
            s.user_groups,
        gather-silent (λ r. (map_media u r).1) (map_media-silent u) s.media,
        gather-silent (λ r. (post_template_join s r).1) (λ r. derived_join_domain-silent _ _ _ _ _)
            s.post_templates,
      )
      (omega arith),
)
