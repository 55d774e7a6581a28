-- ===== src/Upload/Checks.antt =====
-- What saveUploadedMedia of pkg/webserver/upload.go has let through when it comes to its writes.
use sitebrush_v.Prelude.{
  Bool, ◌||◌, ◌<◌, ◌≤◌, ◌≡◌, ◌≢◌, ◌⊎◌, refl, ap, sym, subst, true, false, List, [], ◌∷◌, ◌++◌, some,
  arith, inl, inr, All, Bool-cases, Option-cases, length, not, ◌&&◌, if◌then◌else◌,
}
use sitebrush_v.Text.{
  Text, codes, text_eq, text_eq_iff, to_lower, is_empty, trim_prefix, strip_prefix,
}
use sitebrush_v.Upload.Names.{ext_of}
use sitebrush_v.Upload.Validation.{
  Content, ImageConfig, ok, Validation, max_upload_bytes, read_upload_part, validate_upload_content,
}
use sitebrush_v.Upload.Records.{Part, Request, Surroundings}
use sitebrush_v.Upload.Saving.{Upload, next_upload_part, read_part, check_upload}
use sitebrush_v.Upload.Accepted.{
  AllowedFile, AllowedImage, ImageAccepted, validate_upload_content-accepts,
}
use sitebrush_v.Upload.Outcome.{checked}

-- A part of the body that may be the upload.
abbrev pub IsUploadPart : Part → Type 0
IsUploadPart part =
    ((part.form_name ≡ codes "upload") ⊎ (part.form_name ≡ codes "file")) × (part.file_name ≢ [])

-- The first part that may be the upload has the file name and the content.
abbrev pub FirstPart : List Part → Text → Content → Type 0
FirstPart parts file_name content =
    (before : List Part) × (part : Part) × (after : List Part) × (parts ≡ before ++ part ∷ after)
    × All (λ p. ¬ (IsUploadPart p)) before
    × IsUploadPart part
    × (part.file_name ≡ file_name)
    × (part.content ≡ some content)

-- What is accepted under a kind of upload.
abbrev pub Allowed : Surroundings → Text → Content → Validation → Type 0
Allowed w kind content v =
    ((kind ≡ codes "image")
      × ((config : ImageConfig) × (w.decode content ≡ some config)
          × ImageAccepted (w.sniff content) config v))
    ⊎ ((kind ≢ codes "image")
        × (v.kind ≡ codes "file")
        × (v.mime_type ≡ w.sniff content)
        × AllowedFile v.ext v.mime_type)

-- What a request has passed whose upload is stored.
pub record IsAccepted (w : Surroundings) (request : Request) (up : Upload) : Type 0 where
  pub multipart : request.is_multipart ≡ true
  pub part : FirstPart request.parts up.file_name up.content
  pub size : (0 < length up.content) × (length up.content ≤ max_upload_bytes)
  pub extension : up.validation.ext ≡ to_lower w.unicode (ext_of up.file_name)
  pub allowed : Allowed w request.upload_kind up.content up.validation
  pub host : request.host ≡ some up.domain
  pub domain : w.domain_is_safe ≡ true

-- The test of nextUploadPart on one part.
abbrev picks : Part → Bool
picks part =
    (text_eq part.form_name (codes "upload") || text_eq part.form_name (codes "file"))
    && not (is_empty part.file_name)

picks-IsUploadPart : (part : Part) → picks part ≡ true → IsUploadPart part
picks-IsUploadPart part h = (
  ground (
    arith,
    text_eq_iff part.form_name (codes "upload"),
    text_eq_iff part.form_name (codes "file"),
  ),
  λ e. absurd (ground (arith, ap is_empty e)),
)

picks-skips : (part : Part) → picks part ≡ false → ¬ (IsUploadPart part)
picks-skips part h upload = ground (
  arith,
  text_eq_iff part.form_name (codes "upload"),
  text_eq_iff part.form_name (codes "file"),
  upload.0,
  full part.file_name upload.1,
)
  where
    full : (s : Text) → s ≢ [] → is_empty s ≡ false
    full [] n = absurd (n refl)
    full (c ∷ s) n = refl

next_upload_part-step :
    (part : Part) (parts : List Part) (ends_well : Bool)
    → next_upload_part (part ∷ parts) ends_well
      ≡ (if picks part then ok part else next_upload_part parts ends_well)
unfolding next_upload_part
next_upload_part-step part parts ends_well = ground arith

-- The part that nextUploadPart finds is the first that may be the upload.
next_upload_part-first :
    (parts : List Part) (ends_well : Bool) (part : Part)
    → next_upload_part parts ends_well ≡ ok part
    → (content : Content) → part.content ≡ some content
    → FirstPart parts part.file_name content
unfolding next_upload_part
next_upload_part-first [] ends_well part h content c = absurd (ground arith)
next_upload_part-first (p ∷ parts) ends_well part h content c = elim (Bool-cases (picks p)) [
  | inl t ↦
      let same : p ≡ part = ground (arith, t, next_upload_part-step p parts ends_well) in
      subst (λ x. FirstPart (p ∷ parts) x.file_name content) {x = p} {y = part} same
        (
          [],
          p,
          parts,
          refl,
          tt,
          picks-IsUploadPart p t,
          refl,
          subst (λ x. x.content ≡ some content) {x = part} {y = p} (sym same) c,
        )
  | inr t ↦
      let (before, q, after, e, skipped, found, name, read) =
        next_upload_part-first parts ends_well part
          (ground (arith, t, next_upload_part-step p parts ends_well)) content c in
      (p ∷ before, q, after, ap (λ r. p ∷ r) e, (picks-skips p t, skipped), found, name, read)
]

read_upload_part-bounds :
    (content read : Content)
    → read_upload_part content ≡ ok read
    → (read ≡ content) × (0 < length content) × (length content ≤ max_upload_bytes)
unfolding read_upload_part
read_upload_part-bounds content read h = (ground arith, ground arith, ground arith)

module _ (w : Surroundings) (request : Request) where
  -- check_upload, test by test.
  abbrev Passed : Part → Content → Validation → Text → Upload → Type 0
  Passed part content v domain up =
      (request.is_multipart ≡ true)
      × (next_upload_part request.parts request.ends_well ≡ ok part)
      × (part.content ≡ some content)
      × (read_upload_part content ≡ ok content)
      × (validate_upload_content w.unicode w.sniff w.decode request.upload_kind part.file_name
            content
          ≡ ok v)
      × (request.host ≡ some domain)
      × (w.domain_is_safe ≡ true)
      × (up ≡ record {
        file_name = part.file_name;
        content = content;
        validation = v;
        domain = domain;
      })

  check_upload-Passed :
      (up : Upload)
      → check_upload w request ≡ ok up
      → (part : Part) × (content : Content) × (v : Validation) × (domain : Text) × Passed part
          content v domain up
  unfolding check_upload read_part
  check_upload-Passed up h = elim (checked (next_upload_part request.parts request.ends_well)) [
    | inr (e, p) ↦ absurd (ground (arith, p))
    | inl (part, p) ↦ elim (Option-cases part.content) [
      | inl c ↦ absurd (ground (arith, p, c))
      | inr (content, c) ↦ elim (checked (read_upload_part content)) [
        | inr (e, r) ↦ absurd (ground (arith, p, c, r))
        | inl (read, r) ↦
            elim (checked (
              validate_upload_content w.unicode w.sniff w.decode request.upload_kind part.file_name
                read)) [
                  | inr (e, k) ↦ absurd (ground (arith, p, c, r, k))
                  | inl (v, k) ↦ elim (Option-cases request.host) [
                    | inl t ↦ absurd (ground (arith, p, c, r, k, t))
                    | inr (domain, t) ↦
                        let same = (read_upload_part-bounds content read r).0 in
                        (
                          part,
                          content,
                          v,
                          domain,
                          (
                            ground (arith, p, c, r, k, t),
                            p,
                            c,
                            ground (arith, r, same),
                            ground (arith, k, same),
                            t,
                            ground (arith, p, c, r, k, t),
                            ground (arith, p, c, r, k, t, same),
                          ),
                        )
                  ]
                ]
      ]
    ]
  ]

  pub check_upload-IsAccepted :
      (up : Upload) → check_upload w request ≡ ok up → IsAccepted w request up
  check_upload-IsAccepted up h =
      let (part, content, v, domain, (multipart, first, read, bounds, valid, host, safe, e)) =
        check_upload-Passed up h in
      let accepted =
        validate_upload_content-accepts w.unicode w.sniff w.decode request.upload_kind
          part.file_name content v valid in
      let (same, above, below) = read_upload_part-bounds content content bounds in
      subst (IsAccepted w request) (sym e) (record {
        multipart = multipart;
        part = next_upload_part-first request.parts request.ends_well part first content read;
        size = (above, below);
        extension = accepted.0;
        allowed = accepted.1;
        host = host;
        domain = safe;
      })

abbrev pub HasDot : Text → Type 0
HasDot ext = ext ≡ b'.' ∷ trim_prefix (codes ".") ext

AllowedFile-HasDot : (ext mime : Text) → AllowedFile ext mime → HasDot ext
unfolding trim_prefix strip_prefix
AllowedFile-HasDot ext mime (inl (m, inl e)) = subst HasDot (sym e) refl
AllowedFile-HasDot ext mime (inl (m, inr (inl e))) = subst HasDot (sym e) refl
AllowedFile-HasDot ext mime (inl (m, inr (inr (inl e)))) = subst HasDot (sym e) refl
AllowedFile-HasDot ext mime (inl (m, inr (inr (inr e)))) = subst HasDot (sym e) refl
AllowedFile-HasDot ext mime (inr (inl (m, e))) = subst HasDot (sym e) refl
AllowedFile-HasDot ext mime (inr (inr (m, e))) = subst HasDot (sym e) refl

AllowedImage-HasDot : (ext mime format : Text) → AllowedImage ext mime format → HasDot ext
unfolding trim_prefix strip_prefix
AllowedImage-HasDot ext mime format (inl (m, inl e, f)) = subst HasDot (sym e) refl
AllowedImage-HasDot ext mime format (inl (m, inr e, f)) = subst HasDot (sym e) refl
AllowedImage-HasDot ext mime format (inr (inl (m, e, f))) = subst HasDot (sym e) refl
AllowedImage-HasDot ext mime format (inr (inr (m, e, f))) = subst HasDot (sym e) refl

-- An extension that is allowed starts with its dot.
pub Allowed-HasDot :
    (w : Surroundings) (kind : Text) (content : Content) (v : Validation)
    → Allowed w kind content v
    → HasDot v.ext
Allowed-HasDot w kind content v (inl (k, (config, c, (n, m, z, allowed)))) =
    AllowedImage-HasDot v.ext v.mime_type config.format allowed
Allowed-HasDot w kind content v (inr (k, n, m, allowed)) =
    AllowedFile-HasDot v.ext v.mime_type allowed
