-- ===== src/Migration/Fields.antt =====
-- The column conversions of pkg/migration/migration.go, from legacyBool to derivedJoinDomain.
use sitebrush_v.Prelude.{
  ℕ, Bool, true, false, not, ◌&&◌, ◌||◌, List, [], ◌∷◌, ◌++◌, Option, some, ltb, ◌==◌,
  if◌then◌else◌,
}
use sitebrush_v.Prelude.Int.{ℤ, pos}
use sitebrush_v.Text.{
  Text, codes, Unicode, text_eq, is_empty, one_of, trim_prefix, to_lower, trim_space, byte_len,
  is_digit, atoi,
}

-- The constants Warning…
pub data WarningCode : Type 0 where
  legacy_password invalid_integer unsafe_media_location missing_domain domain_mismatch : WarningCode

-- The message: one constructor for each text or format of the source, with its arguments.
pub data Message : Type 0 where
  password_not_imported hash_not_hex format_not_allowed different_domains no_domain : Message
  not_an_integer : Text → Text → Message

pub record Warning : Type 0 where
  pub code : WarningCode
  pub entity : Text
  pub entity_id : ℤ
  pub field : Text
  pub message : Message

unfoldable pub legacy_bool : Unicode → Text → Bool
legacy_bool u value = one_of (to_lower u (trim_space value)) (
    codes "1"
    ∷ codes "true"
    ∷ codes "yes"
    ∷ codes "y"
    ∷ codes "on"
    ∷ codes "published"
    ∷ codes "public"
    ∷ codes "active"
    ∷ [])

-- The test on one rune of isMD5Hash, as the loop passes it.
unfoldable pub is_hash_rune : Unicode → ℕ → Bool
is_hash_rune u r =
    not (not (is_digit u r) && (ltb r b'a' || ltb b'f' r) && (ltb r b'A' || ltb b'F' r))

unfoldable pub all_hash_runes : Unicode → Text → Bool
all_hash_runes u [] = true
all_hash_runes u (r ∷ s) = is_hash_rune u r && all_hash_runes u s

unfoldable pub is_md5_hash : Unicode → Text → Bool
is_md5_hash u value = if byte_len value == 32 then all_hash_runes u value else false

-- The `switch` of parseLegacyInt on what Atoi returned.
unfoldable pub accept_int : Text → ℤ → Text → Text → Option ℤ → ℤ × List Warning
accept_int entity entity_id field value (some (pos n)) = (pos n, [])
accept_int entity entity_id field value _ = (
  pos 0,
  record {
    code = invalid_integer;
    entity = entity;
    entity_id = entity_id;
    field = field;
    message = not_an_integer field value;
  }
      ∷ [],
)

-- parseLegacyInt once the value is trimmed.
unfoldable pub parse_trimmed : Text → ℤ → Text → Text → ℤ × List Warning
parse_trimmed entity entity_id field value =
    if is_empty value then (pos 0, []) else accept_int entity entity_id field value (atoi value)

unfoldable pub parse_legacy_int : Text → ℤ → Text → Text → ℤ × List Warning
parse_legacy_int entity entity_id field value =
    parse_trimmed entity entity_id field (trim_space value)

-- strings.ToLower(strings.TrimPrefix(strings.TrimSpace(format), "."))
unfoldable pub normal_format : Unicode → Text → Text
normal_format u format = to_lower u (trim_prefix (codes ".") (trim_space format))

-- The `switch` of mediaMIMEType.
unfoldable pub mime_of : Text → Text
mime_of f =
    if one_of f (codes "jpg" ∷ codes "jpeg" ∷ [])
    then codes "image/jpeg"
    else if text_eq f (codes "png")
    then codes "image/png"
    else if text_eq f (codes "gif")
    then codes "image/gif"
    else if text_eq f (codes "webp")
    then codes "image/webp"
    else []

unfoldable pub media_mime_type : Unicode → Text → Text
media_mime_type u format = mime_of (normal_format u format)

abbrev pub safe_formats : List Text
safe_formats = codes "jpg" ∷ codes "jpeg" ∷ codes "png" ∷ codes "gif" ∷ codes "webp" ∷ []

unfoldable pub is_safe_public_media_format : Unicode → Text → Bool
is_safe_public_media_format u format = one_of (normal_format u format) safe_formats

abbrev unsafe_location : ℤ → Text → Message → Warning
unsafe_location entity_id field message = record {
  code = unsafe_media_location;
  entity = codes "media";
  entity_id = entity_id;
  field = field;
  message = message;
}

unfoldable pub media_storage_path : Unicode → ℤ → Text → Text → Text × List Warning
media_storage_path u entity_id hash format =
    let hash = trim_space hash in
    let format = normal_format u format in
    if is_empty hash || is_empty format
    then ([], [])
    else if not (is_md5_hash u hash)
    then ([], unsafe_location entity_id (codes "hash") hash_not_hex ∷ [])
    else if not (is_safe_public_media_format u format)
    then ([], unsafe_location entity_id (codes "format") format_not_allowed ∷ [])
    else (codes "/f/" ++ (hash ++ (codes "." ++ format)), [])

-- A map[int64]string by its reading function: a missing key reads as "".
abbrev pub DomainMap : Type 0
DomainMap = ℤ → Text

abbrev underived : WarningCode → Text → ℤ → Message → Text × List Warning
underived code entity left_id message = (
  [],
  record {
    code = code;
    entity = entity;
    entity_id = left_id;
    field = codes "domain";
    message = message;
  }
      ∷ [],
)

-- derivedJoinDomain once the two domains are read from the maps and trimmed.
unfoldable pub choose_domain : Text → ℤ → Text → Text → Text × List Warning
choose_domain entity left_id left_domain right_domain =
    if not (is_empty left_domain) && not (is_empty right_domain)
    then (if text_eq left_domain right_domain
        then (left_domain, [])
        else underived domain_mismatch entity left_id different_domains)
    else if not (is_empty left_domain)
    then (left_domain, [])
    else if not (is_empty right_domain)
    then (right_domain, [])
    else underived missing_domain entity left_id no_domain

unfoldable pub derived_join_domain : Text → ℤ → ℤ → DomainMap → DomainMap → Text × List Warning
derived_join_domain entity left_id right_id left_domains right_domains =
    choose_domain entity left_id (trim_space (left_domains left_id))
      (trim_space (right_domains right_id))
