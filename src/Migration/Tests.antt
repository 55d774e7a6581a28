-- ===== src/Migration/Tests.antt =====
-- Witnesses on one small v1 site for the laws of the import.
use sitebrush_v.Prelude.{◌≡◌, ◌≢◌, refl, [], ◌∷◌, All, count_if}
use sitebrush_v.Prelude.Int.{pos}
use sitebrush_v.Text.{
  is_digit, to_lower, to_lower_rune, trim_prefix, strip_prefix, trim_both, trim_left, trim_right,
  text_eq, Text, codes, ascii_only, trim_space, one_of, is_space,
}
use sitebrush_v.Migration.Rows.{V1User, V1Group, V1Media}
use sitebrush_v.Migration.Fields.{
  media_storage_path, media_mime_type, is_md5_hash, normal_format, is_hash_rune, all_hash_runes,
  mime_of, is_safe_public_media_format,
}
use sitebrush_v.Migration.Plan.{SourceData, build_import_plan}
use sitebrush_v.Migration.Plan.Spec.{import_spec, build_import_plan-eq-import_spec}
use sitebrush_v.Migration.Passwords.{has_password, password_warnings, import_resets_passwords}
use sitebrush_v.Migration.MediaPaths.{IsStoragePath, media_storage_path-IsStoragePath}

abbrev sample_user : V1User
sample_user = record {
  id = pos 7;
  session_id = [];
  old_id = pos 0;
  avatar_id = pos 0;
  email = codes "ann@example.org";
  password = codes "secret";
  nickname = [];
  first_name = [];
  last_name = [];
  gender = [];
  phone = [];
  date_of_registration = pos 0;
  date_of_birth = pos 0;
  last_visit_time = pos 0;
  grinvich_time_offset = pos 0;
  activated = [];
  verification_code = [];
  domain = codes "example.org";
  status = codes "active";
  language = [];
  current_ip = [];
  profile = [];
  preferences = [];
  security_log = [];
  invited_by = [];
  invites_ammount = pos 0;
  quota_bytes = [];
  quota_originals = [];
  quota_bytes_used = pos 0;
  quota_originals_used = pos 0;
  auto_grab = [];
  domain_to_grab = [];
}

abbrev sample_group : V1Group
sample_group = record {
  id = pos 3;
  owner_id = pos 7;
  name = codes "Editors";
  title = [];
  comment = [];
  date = pos 0;
  status = [];
  domain = codes "example.com";
}

abbrev sample_hash : Text
sample_hash = codes "0123456789abcdef0123456789ABCDEF"

abbrev sample_media : V1Media
sample_media = record {
  id = pos 5;
  type = [];
  hash = sample_hash;
  original_hash = [];
  format = codes "PNG";
  width = codes "640";
  height = codes "many";
  status = [];
  domain = [];
  day = pos 0;
  date = pos 0;
  sizes_array = [];
  rating = 0;
  rating_count = pos 0;
  rating_ip = [];
  views = pos 0;
  bytes_used = pos 0;
}

abbrev sample_site : SourceData
sample_site = record {
  domains = [];
  posts = [];
  uris = [];
  users = sample_user ∷ [];
  groups = sample_group ∷ [];
  user_groups = record { user_id = pos 7; group_id = pos 3 } ∷ [];
  media = sample_media ∷ [];
  templates = [];
  post_templates = [];
}

build_import_plan-eq-import_spec_example :
    build_import_plan ascii_only sample_site ≡ import_spec ascii_only sample_site
build_import_plan-eq-import_spec_example = build_import_plan-eq-import_spec ascii_only sample_site

import_resets_passwords_example :
    All (λ user. user.password_hash ≡ []) (build_import_plan ascii_only sample_site).users
    × (password_warnings (build_import_plan ascii_only sample_site).warnings
        ≡ count_if has_password sample_site.users)
import_resets_passwords_example = import_resets_passwords ascii_only sample_site

sample_format : normal_format ascii_only (codes " .PNG") ≡ codes "png"
unfolding normal_format is_md5_hash all_hash_runes is_hash_rune is_digit media_storage_path
    is_safe_public_media_format media_mime_type mime_of to_lower to_lower_rune trim_prefix
    strip_prefix trim_space trim_both trim_left trim_right is_space one_of text_eq
sample_format = refl

sample_path : (media_storage_path ascii_only (pos 5) sample_hash (codes "PNG")).0 ≢ []
unfolding normal_format is_md5_hash all_hash_runes is_hash_rune is_digit media_storage_path
    is_safe_public_media_format media_mime_type mime_of to_lower to_lower_rune trim_prefix
    strip_prefix trim_space trim_both trim_left trim_right is_space one_of text_eq
sample_path = λ e. cc

media_storage_path-IsStoragePath_example :
    IsStoragePath ascii_only
      (trim_space sample_hash)
      (normal_format ascii_only (codes "PNG"))
      (media_storage_path ascii_only (pos 5) sample_hash (codes "PNG")).0
media_storage_path-IsStoragePath_example =
    media_storage_path-IsStoragePath ascii_only (pos 5) sample_hash (codes "PNG") sample_path
