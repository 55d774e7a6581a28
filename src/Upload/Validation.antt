-- ===== src/Upload/Validation.antt =====
-- The tests of pkg/webserver/upload.go on an upload: its size, its extension and its content.
-- http.DetectContentType and image.DecodeConfig enter as arguments.
use sitebrush_v.Prelude.{
  ℕ, ◌*◌, Bool, not, ◌&&◌, ◌||◌, List, [], ◌∷◌, Option, none, some, if◌then◌else◌, ltb, length,
}
use sitebrush_v.Prelude.Int.{ℤ, pos}
use sitebrush_v.Text.{Text, Unicode, codes, text_eq, is_empty, one_of, to_lower}
use sitebrush_v.Upload.Names.{ext_of}

-- The bytes of a file.
abbrev pub Content : Type 0
Content = List ℕ

-- What image.DecodeConfig returns.
pub record ImageConfig : Type 0 where
  pub format : Text
  pub width : ℤ
  pub height : ℤ

pub data UploadError : Type 0 where
  too_large missing_file not_allowed empty_upload bad_multipart bad_host bad_path media_not_written
        sidecar_not_written media_not_saved :
      UploadError

pub data Result {ℓ} (A : Type ℓ) : Type ℓ where
  ok : A → Result A
  err : UploadError → Result A

-- uploadValidation
pub record Validation : Type 0 where
  pub kind : Text
  pub ext : Text
  pub mime_type : Text
  pub size : ℤ × ℤ

-- 10 MiB
abbrev pub max_upload_bytes : ℕ
max_upload_bytes = 10 * 1024 * 1024

-- The tests of readUploadPart, behind the reader that stops one byte after the limit.
unfoldable pub read_upload_part : Content → Result Content
read_upload_part content =
    if ltb max_upload_bytes (length content)
    then err too_large
    else if ltb 0 (length content)
    then ok content
    else err empty_upload

abbrev pub rejected_extensions : List Text
rejected_extensions =
    codes ".html"
    ∷ codes ".htm"
    ∷ codes ".js"
    ∷ codes ".css"
    ∷ codes ".svg"
    ∷ codes ".svgz"
    ∷ codes ".exe"
    ∷ codes ".dll"
    ∷ codes ".so"
    ∷ codes ".dylib"
    ∷ codes ".bat"
    ∷ codes ".cmd"
    ∷ codes ".com"
    ∷ codes ".msi"
    ∷ codes ".sh"
    ∷ codes ".bash"
    ∷ codes ".zsh"
    ∷ codes ".fish"
    ∷ codes ".zip"
    ∷ codes ".tar"
    ∷ codes ".gz"
    ∷ codes ".tgz"
    ∷ codes ".bz2"
    ∷ codes ".xz"
    ∷ codes ".7z"
    ∷ codes ".rar"
    ∷ codes ".jar"
    ∷ codes ".war"
    ∷ codes ".apk"
    ∷ codes ".iso"
    ∷ []

unfoldable pub rejected_upload_extension : Text → Bool
rejected_upload_extension ext = one_of ext rejected_extensions

-- The map `expected` of validateImageUpload.
unfoldable pub image_mime : Text → Option Text
image_mime ext =
    if text_eq ext (codes ".gif")
    then some (codes "image/gif")
    else if text_eq ext (codes ".jpg")
    then some (codes "image/jpeg")
    else if text_eq ext (codes ".jpeg")
    then some (codes "image/jpeg")
    else if text_eq ext (codes ".png")
    then some (codes "image/png")
    else none

abbrev pub plain_text : Text
plain_text = codes "text/plain; charset=utf-8"

-- The map `allowed` of validateFileUpload; an extension that is no key has no MIME type.
unfoldable pub file_mimes : Text → List Text
file_mimes ext =
    if text_eq ext (codes ".csv")
    then plain_text ∷ []
    else if text_eq ext (codes ".json")
    then plain_text ∷ codes "application/json" ∷ []
    else if text_eq ext (codes ".md")
    then plain_text ∷ []
    else if text_eq ext (codes ".pdf")
    then codes "application/pdf" ∷ []
    else if text_eq ext (codes ".txt")
    then plain_text ∷ []
    else []

-- validateImageUpload, for what image.DecodeConfig returns.
unfoldable pub validate_image_upload : Text → Text → Option ImageConfig → Result Validation
validate_image_upload ext sniffed decoded = elim (image_mime ext) [
  | none ↦ err not_allowed
  | some want ↦ if not (text_eq sniffed want) then err not_allowed else elim decoded [
    | none ↦ err not_allowed
    | some config ↦
        let accepted : Validation = record {
          kind = codes "image";
          ext = ext;
          mime_type = want;
          size = (config.width, config.height);
        } in
        if text_eq config.format (codes "jpeg")
          && (text_eq ext (codes ".jpg") || text_eq ext (codes ".jpeg"))
        then ok accepted
        else if text_eq (b'.' ∷ config.format) ext
        then ok accepted
        else err not_allowed
  ]
]

unfoldable pub validate_file_upload : Text → Text → Result Validation
validate_file_upload ext sniffed =
    if one_of sniffed (file_mimes ext)
    then ok (record { kind = codes "file"; ext = ext; mime_type = sniffed; size = (pos 0, pos 0) })
    else err not_allowed

unfoldable pub validate_upload_content :
    Unicode
    → (Content → Text)
    → (Content → Option ImageConfig)
    → Text
    → Text
    → Content
    → Result Validation
validate_upload_content u sniff decode upload_kind file_name content =
    let ext = to_lower u (ext_of file_name) in
    if is_empty ext
    then err not_allowed
    else if rejected_upload_extension ext
    then err not_allowed
    else if text_eq upload_kind (codes "image")
    then validate_image_upload ext (sniff content) (decode content)
    else validate_file_upload ext (sniff content)
