-- ===== src/Upload/Accepted.antt =====
-- What pkg/webserver/upload.go accepts.
use sitebrush_v.Prelude.{
  ◌≡◌, ◌≢◌, ◌⊎◌, refl, true, [], ◌∷◌, Option, none, some, if◌then◌else◌, arith, All, Bool-cases,
  inl, inr,
}
use sitebrush_v.Text.{
  Text, Unicode, codes, text_eq, text_eq_iff, text_eq_sound, one_of, one_of-All, to_lower, is_empty,
}
use sitebrush_v.Upload.Names.{ext_of}
use sitebrush_v.Upload.Validation.{
  Content, ImageConfig, ok, err, not_allowed, Validation, rejected_upload_extension, image_mime,
  file_mimes, plain_text, rejected_extensions, validate_image_upload, validate_file_upload,
  validate_upload_content,
}

-- An extension and a sniffed MIME type that may be stored as a file.
abbrev pub AllowedFile : Text → Text → Type 0
AllowedFile ext mime =
    ((mime ≡ plain_text)
      × ((ext ≡ codes ".csv")
          ⊎ ((ext ≡ codes ".json") ⊎ ((ext ≡ codes ".md") ⊎ (ext ≡ codes ".txt")))))
    ⊎ (((mime ≡ codes "application/json") × (ext ≡ codes ".json"))
        ⊎ ((mime ≡ codes "application/pdf") × (ext ≡ codes ".pdf")))

-- An extension, a sniffed MIME type and the decoder's format that may be stored as an image.
abbrev pub AllowedImage : Text → Text → Text → Type 0
AllowedImage ext mime format =
    ((mime ≡ codes "image/jpeg")
      × ((ext ≡ codes ".jpg") ⊎ (ext ≡ codes ".jpeg"))
      × ((format ≡ codes "jpeg") ⊎ ((b'.' ∷ format) ≡ ext)))
    ⊎ (((mime ≡ codes "image/gif") × (ext ≡ codes ".gif") × ((b'.' ∷ format) ≡ ext))
        ⊎ ((mime ≡ codes "image/png") × (ext ≡ codes ".png") × ((b'.' ∷ format) ≡ ext)))

file_mimes-AllowedFile :
    (ext mime : Text) → one_of mime (file_mimes ext) ≡ true → AllowedFile ext mime
unfolding file_mimes one_of
file_mimes-AllowedFile ext mime h = ground (
  arith,
  text_eq_iff ext (codes ".csv"),
  text_eq_iff ext (codes ".json"),
  text_eq_iff ext (codes ".md"),
  text_eq_iff ext (codes ".pdf"),
  text_eq_iff ext (codes ".txt"),
  text_eq_iff mime plain_text,
  text_eq_iff mime (codes "application/json"),
  text_eq_iff mime (codes "application/pdf"),
)

-- What an accepted image upload is, for what the decoder returns.
abbrev pub ImageAccepted : Text → ImageConfig → Validation → Type 0
ImageAccepted sniffed config v =
    (v.kind ≡ codes "image")
    × (v.mime_type ≡ sniffed)
    × (v.size ≡ (config.width, config.height))
    × AllowedImage v.ext v.mime_type config.format

validate_image_upload-decoded :
    (ext sniffed : Text) (config : ImageConfig) (v : Validation)
    → validate_image_upload ext sniffed (some config) ≡ ok v
    → (v.ext ≡ ext) × ImageAccepted sniffed config v
unfolding validate_image_upload image_mime
validate_image_upload-decoded ext sniffed config v h = ground (
  arith,
  text_eq_iff ext (codes ".gif"),
  text_eq_iff ext (codes ".jpg"),
  text_eq_iff ext (codes ".jpeg"),
  text_eq_iff ext (codes ".png"),
  text_eq_iff sniffed (codes "image/gif"),
  text_eq_iff sniffed (codes "image/jpeg"),
  text_eq_iff sniffed (codes "image/png"),
  text_eq_iff (b'.' ∷ config.format) ext,
  text_eq_iff config.format (codes "jpeg"),
)

validate_image_upload-ImageAccepted :
    (ext sniffed : Text) (decoded : Option ImageConfig) (v : Validation)
    → validate_image_upload ext sniffed decoded ≡ ok v
    → (v.ext ≡ ext)
      × ((config : ImageConfig) × (decoded ≡ some config) × ImageAccepted sniffed config v)
unfolding validate_image_upload
validate_image_upload-ImageAccepted ext sniffed none v h = ground arith
validate_image_upload-ImageAccepted ext sniffed (some config) v h =
    let (same, accepted) = validate_image_upload-decoded ext sniffed config v h in
    (same, (config, refl, accepted))

validate_file_upload-AllowedFile :
    (ext sniffed : Text) (v : Validation)
    → validate_file_upload ext sniffed ≡ ok v
    → (v.ext ≡ ext)
      × (v.kind ≡ codes "file")
      × (v.mime_type ≡ sniffed)
      × AllowedFile v.ext v.mime_type
unfolding validate_file_upload
validate_file_upload-AllowedFile ext sniffed v h =
    ground (arith, file_mimes-AllowedFile ext sniffed)

none_listed : All (λ e. (image_mime e ≡ none) × (file_mimes e ≡ [])) rejected_extensions
unfolding image_mime file_mimes text_eq
none_listed = (
  (refl, refl),
  (
    (refl, refl),
    (
      (refl, refl),
      (
        (refl, refl),
        (
          (refl, refl),
          (
            (refl, refl),
            (
              (refl, refl),
              (
                (refl, refl),
                (
                  (refl, refl),
                  (
                    (refl, refl),
                    (
                      (refl, refl),
                      (
                        (refl, refl),
                        (
                          (refl, refl),
                          (
                            (refl, refl),
                            (
                              (refl, refl),
                              (
                                (refl, refl),
                                (
                                  (refl, refl),
                                  (
                                    (refl, refl),
                                    (
                                      (refl, refl),
                                      (
                                        (refl, refl),
                                        (
                                          (refl, refl),
                                          (
                                            (refl, refl),
                                            (
                                              (refl, refl),
                                              (
                                                (refl, refl),
                                                (
                                                  (refl, refl),
                                                  (
                                                    (refl, refl),
                                                    (
                                                      (refl, refl),
                                                      (
                                                        (refl, refl),
                                                        ((refl, refl), ((refl, refl), tt)),
                                                      ),
                                                    ),
                                                  ),
                                                ),
                                              ),
                                            ),
                                          ),
                                        ),
                                      ),
                                    ),
                                  ),
                                ),
                              ),
                            ),
                          ),
                        ),
                      ),
                    ),
                  ),
                ),
              ),
            ),
          ),
        ),
      ),
    ),
  ),
)

-- No rejected extension is on an allowlist.
rejected-unlisted :
    (ext : Text)
    → rejected_upload_extension ext ≡ true
    → (image_mime ext ≡ none) × (file_mimes ext ≡ [])
unfolding rejected_upload_extension
rejected-unlisted ext h =
    one_of-All (λ e. (image_mime e ≡ none) × (file_mimes e ≡ [])) ext rejected_extensions
      none_listed h

module _ (u : Unicode) (sniff : Content → Text) (decode : Content → Option ImageConfig)
    (upload_kind file_name : Text) (content : Content) where
  -- An accepted upload has the lower-case extension of its file name and one of the listed pairs of extension
  -- and sniffed MIME type. Under the kind "image" it is an image that the decoder reads, of the format of the
  -- extension, with the size that the decoder gives; under any other kind it is a file.
  pub validate_upload_content-accepts :
      (v : Validation)
      → validate_upload_content u sniff decode upload_kind file_name content ≡ ok v
      → (v.ext ≡ to_lower u (ext_of file_name))
        × (((upload_kind ≡ codes "image")
              × ((config : ImageConfig) × (decode content ≡ some config)
                  × ImageAccepted (sniff content) config v))
            ⊎ ((upload_kind ≢ codes "image")
                × (v.kind ≡ codes "file")
                × (v.mime_type ≡ sniff content)
                × AllowedFile v.ext v.mime_type))
  unfolding validate_upload_content
  validate_upload_content-accepts v h = elim (Bool-cases (text_eq upload_kind (codes "image"))) [
    | inl e ↦
        let (same, accepted) =
          validate_image_upload-ImageAccepted (to_lower u (ext_of file_name)) (sniff content)
            (decode content) v (ground arith) in
        (same, inl (text_eq_sound _ _ e, accepted))
    | inr e ↦
        let (same, kind, mime, allowed) =
          validate_file_upload-AllowedFile (to_lower u (ext_of file_name)) (sniff content) v
            (ground arith) in
        (
          same,
          inr (λ q. cc (e, (text_eq_iff upload_kind (codes "image")).1 q), kind, mime, allowed),
        )
  ]

  -- The test for a rejected extension decides nothing that the two allowlists do not: without it the same
  -- uploads are accepted and refused.
  pub rejected_upload_extension-redundant :
      validate_upload_content u sniff decode upload_kind file_name content ≡ (
        if is_empty (to_lower u (ext_of file_name))
        then err not_allowed
        else if text_eq upload_kind (codes "image")
        then validate_image_upload (to_lower u (ext_of file_name)) (sniff content) (decode content)
        else validate_file_upload (to_lower u (ext_of file_name)) (sniff content))
  unfolding validate_upload_content validate_image_upload validate_file_upload one_of
  rejected_upload_extension-redundant =
      ground (arith, rejected-unlisted (to_lower u (ext_of file_name)))
