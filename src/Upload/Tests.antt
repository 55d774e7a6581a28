-- ===== src/Upload/Tests.antt =====
-- Witnesses for uploads: a text file that is stored, and one that cannot be recorded.
use sitebrush_v.Prelude.{◌≡◌, ◌≢◌, ◌⊎◌, refl, Bool, true, false, [], ◌∷◌, Option, none, some}
use sitebrush_v.Prelude.Int.{pos}
use sitebrush_v.Text.{Text, codes, contains, ascii_only, text_eq, one_of, to_lower, to_lower_rune}
use sitebrush_v.Upload.Names.{ext_of, sanitize_upload_file_name}
use sitebrush_v.Upload.SafeNames.{IsSafeName, sanitize_upload_file_name-IsSafeName}
use sitebrush_v.Upload.Validation.{
  Content, ImageConfig, ok, err, bad_path, Validation, read_upload_part, rejected_upload_extension,
  file_mimes, validate_file_upload, validate_upload_content,
}
use sitebrush_v.Upload.Accepted.{ImageAccepted, AllowedFile, validate_upload_content-accepts}
use sitebrush_v.Upload.Records.{Archive, Request, Surroundings}
use sitebrush_v.Upload.Saving.{
  Upload, next_upload_part, read_part, check_upload, response_of, record_media, store_upload,
  save_uploaded_media,
}
use sitebrush_v.Upload.Outcome.{Undone, save_uploaded_media-Undone}
use sitebrush_v.Upload.Checks.{IsAccepted}
use sitebrush_v.Upload.Stored.{Stored, save_uploaded_media-Stored}

sanitize_upload_file_name-IsSafeName_example :
    IsSafeName (sanitize_upload_file_name (codes "../my notes.txt"))
sanitize_upload_file_name-IsSafeName_example =
    sanitize_upload_file_name-IsSafeName (codes "../my notes.txt")

abbrev sample_sniff : Content → Text
sample_sniff content = codes "text/plain; charset=utf-8"

abbrev no_image : Content → Option ImageConfig
no_image content = none

abbrev sample_content : Content
sample_content = 104 ∷ 105 ∷ []

abbrev sample_validation : Validation
sample_validation = record {
  kind = codes "file";
  ext = codes ".txt";
  mime_type = codes "text/plain; charset=utf-8";
  size = (pos 0, pos 0);
}

sample_accepted :
    validate_upload_content ascii_only sample_sniff no_image
      (codes "file")
      (codes "Notes.TXT")
      sample_content
    ≡ ok sample_validation
unfolding validate_upload_content validate_file_upload rejected_upload_extension file_mimes one_of
    text_eq ext_of contains to_lower to_lower_rune
sample_accepted = refl

validate_upload_content-accepts_example :
    (sample_validation.ext ≡ to_lower ascii_only (ext_of (codes "Notes.TXT")))
    × (((codes "file" ≡ codes "image")
          × ((config : ImageConfig) × (no_image sample_content ≡ some config)
              × ImageAccepted (sample_sniff sample_content) config sample_validation))
        ⊎ ((codes "file" ≢ codes "image")
            × (sample_validation.kind ≡ codes "file")
            × (sample_validation.mime_type ≡ sample_sniff sample_content)
            × AllowedFile sample_validation.ext sample_validation.mime_type))
validate_upload_content-accepts_example =
    validate_upload_content-accepts ascii_only sample_sniff no_image (codes "file")
      (codes "Notes.TXT") sample_content sample_validation sample_accepted

abbrev surroundings : Bool → Surroundings
surroundings sidecar_path_is_safe = record {
  unicode = ascii_only;
  hash = λ content. codes "h";
  sniff = sample_sniff;
  decode = no_image;
  domain_is_safe = true;
  media_path_is_safe = true;
  sidecar_path_is_safe = sidecar_path_is_safe;
  media_write = record { renames = true; syncs = true };
  sidecar_write = record { renames = true; syncs = true };
  removes_media = true;
  removes_sidecar = true;
  database = none;
  now = pos 5;
  year_day = λ d. pos 1;
}

abbrev sample_request : Request
sample_request = record {
  is_post = true;
  csrf_token = codes "c1";
  upload_kind = codes "file";
  is_multipart = true;
  parts =
      record {
        form_name = codes "upload";
        file_name = codes "Notes.TXT";
        content = some sample_content;
      }
      ∷ [];
  ends_well = true;
  host = some (codes "example.org");
}

abbrev sample_archive : Archive
sample_archive = record { media = λ name. none; sidecars = λ name. none; rows = [] }

abbrev sample_upload : Upload
sample_upload = record {
  file_name = codes "Notes.TXT";
  content = sample_content;
  validation = sample_validation;
  domain = codes "example.org";
}

sample_stored :
    (save_uploaded_media (surroundings true) sample_request sample_archive).1
    ≡ ok (response_of (surroundings true) sample_upload)
unfolding save_uploaded_media check_upload next_upload_part read_part read_upload_part
    validate_upload_content validate_file_upload rejected_upload_extension file_mimes one_of text_eq
    ext_of contains to_lower to_lower_rune store_upload record_media
sample_stored = refl

save_uploaded_media-Stored_example :
    (up : Upload) × (IsAccepted (surroundings true) sample_request up)
    × Stored
        (surroundings true)
        up
        sample_archive
        (save_uploaded_media (surroundings true) sample_request sample_archive).0
        (response_of (surroundings true) sample_upload)
save_uploaded_media-Stored_example =
    save_uploaded_media-Stored (surroundings true) sample_request sample_archive
      (response_of (surroundings true) sample_upload) sample_stored

sample_undone :
    (save_uploaded_media (surroundings false) sample_request sample_archive).1 ≡ err bad_path
unfolding save_uploaded_media check_upload next_upload_part read_part read_upload_part
    validate_upload_content validate_file_upload rejected_upload_extension file_mimes one_of text_eq
    ext_of contains to_lower to_lower_rune store_upload record_media
sample_undone = refl

save_uploaded_media-Undone_example :
    ((save_uploaded_media (surroundings false) sample_request sample_archive).0 ≡ sample_archive)
    ⊎ ((up : Upload) × (check_upload (surroundings false) sample_request ≡ ok up)
        × Undone
            (surroundings false)
            up
            sample_archive
            (save_uploaded_media (surroundings false) sample_request sample_archive).0)
save_uploaded_media-Undone_example =
    save_uploaded_media-Undone (surroundings false) sample_request sample_archive bad_path
      sample_undone
