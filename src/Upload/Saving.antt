-- ===== src/Upload/Saving.antt =====
-- upload and saveUploadedMedia of pkg/webserver/upload.go. A file is named by its name under the media
-- root of the request's domain; its metadata file has the same name with ".json" behind it.
use sitebrush_v.Prelude.{
  ℕ, Bool, true, false, not, ◌&&◌, ◌||◌, List, [], ◌∷◌, ◌++◌, Option, none, some, if◌then◌else◌,
  length,
}
use sitebrush_v.Prelude.Int.{pos}
use sitebrush_v.Text.{Text, codes, text_eq, is_empty, trim_prefix}
use sitebrush_v.Data.{Media}
use sitebrush_v.Files.{written, atomic_write_file}
use sitebrush_v.Database.Media.{save_media}
use sitebrush_v.Sessions.{OperatorSession}
use sitebrush_v.Upload.Names.{sanitize_upload_file_name}
use sitebrush_v.Upload.Validation.{
  Content, UploadError, too_large, missing_file, bad_multipart, bad_host, bad_path,
  media_not_written, sidecar_not_written, media_not_saved, Result, ok, err, Validation,
  read_upload_part, validate_upload_content,
}
use sitebrush_v.Upload.Records.{Sidecar, Archive, Part, Request, Surroundings, Response, put}

-- nextUploadPart
unfoldable pub next_upload_part : List Part → Bool → Result Part
next_upload_part [] ends_well = if ends_well then err missing_file else err bad_multipart
next_upload_part (part ∷ parts) ends_well =
    let later = next_upload_part parts ends_well in
    if not (text_eq part.form_name (codes "upload")) && not (text_eq part.form_name (codes "file"))
    then later
    else if is_empty part.file_name
    then later
    else ok part

-- readUploadPart
unfoldable pub read_part : Part → Result Content
read_part part = elim part.content [
  | none ↦ err bad_multipart
  | some content ↦ read_upload_part content
]

-- What the first half of saveUploadedMedia finds out.
pub record Upload : Type 0 where
  pub file_name : Text
  pub content : Content
  pub validation : Validation
  pub domain : Text

-- saveUploadedMedia up to the domain's directories.
unfoldable pub check_upload : Surroundings → Request → Result Upload
check_upload w request =
    if not request.is_multipart
    then err bad_multipart
    else elim (next_upload_part request.parts request.ends_well) [
      | err e ↦ err e
      | ok part ↦ elim (read_part part) [
        | err e ↦ err e
        | ok content ↦
            elim (validate_upload_content w.unicode w.sniff w.decode request.upload_kind
              part.file_name content) [
                | err e ↦ err e
                | ok validation ↦ elim request.host [
                  | none ↦ err bad_host
                  | some domain ↦
                      if not w.domain_is_safe
                      then err bad_host
                      else ok (record {
                        file_name = part.file_name;
                        content = content;
                        validation = validation;
                        domain = domain;
                      })
                ]
              ]
      ]
    ]

abbrev pub stored_name : Surroundings → Upload → Text
stored_name w up = w.hash up.content ++ up.validation.ext

abbrev pub sidecar_of : Surroundings → Upload → Sidecar
sidecar_of w up = record {
  type = up.validation.kind;
  hash = w.hash up.content;
  original_hash = w.hash up.content;
  format = trim_prefix (codes ".") up.validation.ext;
  mime_type = up.validation.mime_type;
  storage_path = codes "/f/" ++ stored_name w up;
  original_file_name = sanitize_upload_file_name up.file_name;
  safe_file_name = sanitize_upload_file_name up.file_name;
  size = up.validation.size;
  bytes_used = length up.content;
  domain = up.domain;
  status = codes "active";
  created_at = w.now;
}

abbrev pub media_of : Surroundings → Upload → Media
media_of w up = record {
  id = pos 0;
  type = up.validation.kind;
  hash = w.hash up.content;
  original_hash = w.hash up.content;
  format = trim_prefix (codes ".") up.validation.ext;
  mime_type = up.validation.mime_type;
  storage_path = codes "/f/" ++ stored_name w up;
  width = up.validation.size.0;
  height = up.validation.size.1;
  status = codes "active";
  domain = up.domain;
  day = w.year_day w.now;
  date = w.now;
  sizes_array = [];
  rating = 0;
  rating_count = pos 0;
  rating_ip = [];
  views = pos 0;
  bytes_used = pos (length up.content);
}

abbrev pub response_of : Surroundings → Upload → Response
response_of w up = record {
  url = codes "/f/" ++ stored_name w up;
  file_name = sanitize_upload_file_name up.file_name;
  size = length up.content;
  warnings = elim w.database [
    | none ↦ codes "database is not configured; media metadata stored in sidecar only" ∷ []
    | some _ ↦ []
  ];
}

-- os.Remove in cleanupWrittenUpload, for a file that was there before (`old`) or not; `removes` is whether it works.
abbrev pub put_back {ℓ} :
    {A : Type ℓ} → Bool → (Text → Option A) → Text → Option A → Text → Option A
put_back removes files name none = if removes then put files name none else files
put_back removes files name (some old) = files

-- The row for a configured database: the table, and whether SaveMediaFromConfig reports no error.
unfoldable pub record_media : Surroundings → Upload → List Media → List Media × Bool
record_media w up rows = elim w.database [
  | none ↦ (rows, true)
  | some (t, a) ↦
      let (table, saved) = save_media w.year_day t a w.now rows (media_of w up) in
      (table, elim saved.error [ none ↦ true | some _ ↦ false ])
]

-- saveUploadedMedia from the first write on.
unfoldable pub store_upload : Surroundings → Upload → Archive → Archive × Result Response
store_upload w up s =
    let name = stored_name w up in
    let media =
      put s.media name (atomic_write_file w.media_write (s.media name) (some up.content)) in
    let sidecars =
      put s.sidecars name
        (atomic_write_file w.sidecar_write (s.sidecars name) (some (sidecar_of w up))) in
    let (rows, saved) = record_media w up s.rows in
    if not w.media_path_is_safe
    then (s, err bad_path)
    else if not (written w.media_write)
    then (record s { media = media }, err media_not_written)
    else if not w.sidecar_path_is_safe
    then (record s { media = put_back w.removes_media media name (s.media name) }, err bad_path)
    else if not (written w.sidecar_write)
    then (
      record s { media = put_back w.removes_media media name (s.media name); sidecars = sidecars },
      err sidecar_not_written,
    )
    else if saved
    then (record { media = media; sidecars = sidecars; rows = rows }, ok (response_of w up))
    else (
      record {
        media = put_back w.removes_media media name (s.media name);
        sidecars = put_back w.removes_sidecar sidecars name (s.sidecars name);
        rows = rows;
      },
      err media_not_saved,
    )

unfoldable pub save_uploaded_media : Surroundings → Request → Archive → Archive × Result Response
save_uploaded_media w request s = elim (check_upload w request) [
  | err e ↦ (s, err e)
  | ok up ↦ store_upload w up s
]

-- The status for an error of saveUploadedMedia.
unfoldable pub error_status : UploadError → ℕ
error_status too_large = 413
error_status media_not_saved = 500
error_status media_not_written = 500
error_status sidecar_not_written = 500
error_status _ = 400

-- upload; `session` is what requireAuth finds, and without one it answers by itself. The result is the
-- status and the response.
unfoldable pub upload :
    Surroundings
    → Option OperatorSession
    → Request
    → Archive
    → Archive × Option (ℕ × Option Response)
upload w none request s = (s, none)
upload w (some session) request s =
    let (after, result) = save_uploaded_media w request s in
    if not request.is_post
    then (s, some (405, none))
    else if is_empty request.csrf_token || not (text_eq request.csrf_token session.csrf_token)
    then (s, some (403, none))
    else if not (text_eq request.upload_kind (codes "file"))
        && not (text_eq request.upload_kind (codes "image"))
    then (s, some (400, none))
    else (
      after,
      elim result [ err e ↦ some (error_status e, none) | ok response ↦ some (200, some response) ],
    )
