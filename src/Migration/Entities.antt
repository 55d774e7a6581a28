-- ===== src/Migration/Entities.antt =====
-- MapDomain to MapPostTemplate of pkg/migration/migration.go. A field that the source's literal
-- leaves out has its zero value.
use sitebrush_v.Prelude.{List, [], ◌∷◌, ◌++◌, if◌then◌else◌}
use sitebrush_v.Prelude.Int.{pos, is_nonzero}
use sitebrush_v.Text.{Text, codes, Unicode, is_empty}
use sitebrush_v.Data.{
  Domain, Post, Redirect, UriMap, User, Group, UserGroup, Media, Template, PostTemplate,
}
use sitebrush_v.Migration.Rows.{
  V1Domain, V1Post, V1Uri, V1User, V1Group, V1UserGroup, V1Media, V1Template, V1PostTemplate,
}
use sitebrush_v.Migration.Fields.{
  Warning, legacy_password, password_not_imported, legacy_bool, parse_legacy_int, media_mime_type,
  media_storage_path,
}

unfoldable pub map_domain : V1Domain → Domain
map_domain row = record {
  id = row.id;
  name = row.name;
  dns_zone_data = row.dns_zone_data;
  cname_secret = row.cname_secret;
  email_secret_hash = row.email_secret;
  status = row.status;
  frozen = is_nonzero row.freezed;
}

unfoldable pub map_post : Unicode → V1Post → Post
map_post u row = record {
  id = row.id;
  owner_id = row.owner_id;
  editor_id = pos 0;
  deleter_id = row.deleter_id;
  request_uri = row.request_uri;
  type = row.type;
  date = row.date;
  title = row.title;
  body = row.text;
  header = [];
  summary = row.short_text;
  short_text = row.short_text;
  tags = row.tags;
  revision = row.version;
  domain = row.domain;
  status = row.status;
  published = legacy_bool u row.published;
}

unfoldable pub map_redirect : V1Uri → Redirect
map_redirect row = record {
  id = row.id;
  old_uri = row.old_uri;
  new_uri = row.new_uri;
  date = row.date;
  status = row.status;
  domain = row.domain;
}

unfoldable pub map_uri_map : V1Uri → UriMap
map_uri_map row = record {
  id = row.id;
  old_uri = row.old_uri;
  new_uri = row.new_uri;
  date = row.date;
  status = row.status;
  domain = row.domain;
}

-- The user that MapUser builds before it looks at the password.
unfoldable pub user_of : V1User → User
user_of row = record {
  id = row.id;
  session_id = row.session_id;
  old_id = row.old_id;
  avatar_id = row.avatar_id;
  email = row.email;
  password_hash = [];
  nickname = row.nickname;
  first_name = row.first_name;
  last_name = row.last_name;
  gender = row.gender;
  phone = row.phone;
  date_of_registration = row.date_of_registration;
  date_of_birth = row.date_of_birth;
  last_visit_time = row.last_visit_time;
  greenwich_offset = row.grinvich_time_offset;
  activated = row.activated;
  verification_code = row.verification_code;
  domain = row.domain;
  status = row.status;
  language = row.language;
  current_ip = row.current_ip;
  profile = row.profile;
  preferences = row.preferences;
  security_log = row.security_log;
  invited_by = row.invited_by;
  invites_amount = row.invites_ammount;
  quota_bytes = row.quota_bytes;
  quota_originals = row.quota_originals;
  quota_bytes_used = row.quota_bytes_used;
  quota_originals_used = row.quota_originals_used;
  auto_grab = row.auto_grab;
  domain_to_grab = row.domain_to_grab;
}

unfoldable pub map_user : V1User → User × List Warning
map_user row = if is_empty row.password then (user_of row, []) else (
  user_of row,
  record {
    code = legacy_password;
    entity = codes "user";
    entity_id = row.id;
    field = codes "password";
    message = password_not_imported;
  }
      ∷ [],
)

unfoldable pub map_group : V1Group → Group
map_group row = record {
  id = row.id;
  owner_id = row.owner_id;
  name = row.name;
  title = row.title;
  comment = row.comment;
  date = row.date;
  status = row.status;
  domain = row.domain;
}

unfoldable pub map_user_group : V1UserGroup → Text → UserGroup
map_user_group row domain = record {
  user_id = row.user_id;
  group_id = row.group_id;
  status = codes "active";
  domain = domain;
}

unfoldable pub map_media : Unicode → V1Media → Media × List Warning
map_media u row =
    let width = parse_legacy_int (codes "media") row.id (codes "width") row.width in
    let height = parse_legacy_int (codes "media") row.id (codes "height") row.height in
    let path = media_storage_path u row.id row.hash row.format in
    (
      record {
        id = row.id;
        type = row.type;
        hash = row.hash;
        original_hash = row.original_hash;
        format = row.format;
        mime_type = media_mime_type u row.format;
        storage_path = path.0;
        width = width.0;
        height = height.0;
        status = row.status;
        domain = row.domain;
        day = row.day;
        date = row.date;
        sizes_array = row.sizes_array;
        rating = row.rating;
        rating_count = row.rating_count;
        rating_ip = row.rating_ip;
        views = row.views;
        bytes_used = row.bytes_used;
      },
      (width.1 ++ height.1) ++ path.1,
    )

unfoldable pub map_template : V1Template → Template
map_template row = record {
  id = row.id;
  name = row.name;
  template_data = row.template_data;
  status = row.status;
  domain = row.domain;
}

unfoldable pub map_post_template : V1PostTemplate → Text → PostTemplate
map_post_template row domain = record {
  post_id = row.post_id;
  template_id = row.template_id;
  status = codes "active";
  domain = domain;
}
