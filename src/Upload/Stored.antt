-- ===== src/Upload/Stored.antt =====
-- What an upload that succeeds has passed and leaves behind, by saveUploadedMedia of pkg/webserver/upload.go.
use sitebrush_v.Prelude.{
  ◌≡◌, ◌≢◌, ◌⊎◌, refl, subst, true, List, [], ◌∷◌, ◌++◌, Option, none, some, arith, inl, inr,
  length,
}
use sitebrush_v.Prelude.Int.{pos}
use sitebrush_v.Text.{Text, codes, text_eq_self, text_eq_iff, trim_prefix}
use sitebrush_v.Data.{Media}
use sitebrush_v.Files.{atomic_write_file}
use sitebrush_v.Database.Sql.{DbType, Answers}
use sitebrush_v.Database.Media.{media_row, save_media_outcome, media_defaults}
use sitebrush_v.Upload.Validation.{Result, ok}
use sitebrush_v.Upload.Records.{Sidecar, Archive, Request, Surroundings, Response}
use sitebrush_v.Upload.Names.{sanitize_upload_file_name}
use sitebrush_v.Upload.Saving.{
  Upload, check_upload, stored_name, sidecar_of, media_of, record_media, store_upload,
  save_uploaded_media,
}
use sitebrush_v.Upload.Outcome.{checked, through_store}
use sitebrush_v.Upload.Checks.{IsAccepted, check_upload-IsAccepted, Allowed-HasDot}

-- The metadata file of an upload under a name.
pub record Describes (w : Surroundings) (up : Upload) (name : Text) (x : Sidecar) : Type 0 where
  pub kind : x.type ≡ up.validation.kind
  pub hashes : (x.hash ≡ w.hash up.content) × (x.original_hash ≡ w.hash up.content)
  pub format : up.validation.ext ≡ b'.' ∷ x.format
  pub mime : x.mime_type ≡ up.validation.mime_type
  pub path : x.storage_path ≡ codes "/f/" ++ name
  pub names :
      (x.original_file_name ≡ sanitize_upload_file_name up.file_name)
      × (x.safe_file_name ≡ sanitize_upload_file_name up.file_name)
  pub size : (x.size ≡ up.validation.size) × (x.bytes_used ≡ length up.content)
  pub domain : x.domain ≡ up.domain
  pub status : x.status ≡ codes "active"
  pub time : x.created_at ≡ w.now

-- A row describes what a metadata file describes.
pub record SameMedia (row : Media) (x : Sidecar) : Type 0 where
  pub kind : row.type ≡ x.type
  pub hashes : (row.hash ≡ x.hash) × (row.original_hash ≡ x.original_hash)
  pub format : (row.format ≡ x.format) × (row.mime_type ≡ x.mime_type)
  pub path : row.storage_path ≡ x.storage_path
  pub size : ((row.width, row.height) ≡ x.size) × (row.bytes_used ≡ pos x.bytes_used)
  pub domain : row.domain ≡ x.domain
  pub status : row.status ≡ x.status

-- What an accepted upload leaves.
pub record Stored (w : Surroundings) (up : Upload) (old new : Archive) (response : Response)
    : Type 0 where
  pub name : Text
  pub named : name ≡ w.hash up.content ++ up.validation.ext
  pub answered :
      (response.url ≡ codes "/f/" ++ name)
      × (response.file_name ≡ sanitize_upload_file_name up.file_name)
      × (response.size ≡ length up.content)
  pub kept : new.media name ≡ some up.content
  pub sidecar : Sidecar
  pub written : new.sidecars name ≡ some sidecar
  pub described : Describes w up name sidecar
  pub others :
      (other : Text)
      → name ≢ other
      → (new.media other ≡ old.media other) × (new.sidecars other ≡ old.sidecars other)
  pub recorded :
      ((w.database ≡ none) × (new.rows ≡ old.rows))
      ⊎ ((w.database ≢ none)
          × ((row : Media) × (new.rows ≡ old.rows ++ row ∷ []) × SameMedia row sidecar))

module _ (w : Surroundings) (up : Upload) (s : Archive) where
  SameMedia-row :
      (t : DbType) (a : Answers)
      → SameMedia (media_row w.year_day t a w.now (media_of w up)) (sidecar_of w up)
  unfolding media_defaults
  SameMedia-row t a = record {
    kind = refl;
    hashes = (refl, refl);
    format = (refl, refl);
    path = refl;
    size = (refl, refl);
    domain = refl;
    status = refl;
  }

  abbrev Recorded : List Media → Type 0
  Recorded new =
      ((w.database ≡ none) × (new ≡ s.rows))
      ⊎ ((w.database ≢ none)
          × ((row : Media) × (new ≡ s.rows ++ row ∷ []) × SameMedia row (sidecar_of w up)))

  record_media-Recorded :
      (o : Option (DbType × Answers))
      → w.database ≡ o
      → (record_media w up s.rows).1 ≡ true
      → Recorded (record_media w up s.rows).0
  unfolding record_media
  record_media-Recorded none e h = inl (e, ground arith)
  record_media-Recorded (some (t, a)) e h = inr (
    λ n. absurd (ground (arith, e, n)),
    (
      media_row w.year_day t a w.now (media_of w up),
      ground (arith, save_media_outcome w.year_day t a w.now s.rows (media_of w up)),
      SameMedia-row t a,
    ),
  )

  store_upload-Stored :
      (response : Response)
      → up.validation.ext ≡ b'.' ∷ trim_prefix (codes ".") up.validation.ext
      → (store_upload w up s).1 ≡ ok response
      → Stored w up s (store_upload w up s).0 response
  unfolding store_upload atomic_write_file
  store_upload-Stored response dot h = record {
    name = stored_name w up;
    named = refl;
    answered = (ground arith, ground arith, ground arith);
    kept = ground (arith, text_eq_self (stored_name w up));
    sidecar = sidecar_of w up;
    written = ground (arith, text_eq_self (stored_name w up));
    described = record {
      kind = refl;
      hashes = (refl, refl);
      format = dot;
      mime = refl;
      path = refl;
      names = (refl, refl);
      size = (refl, refl);
      domain = refl;
      status = refl;
      time = refl;
    };
    others = λ other n. ground (arith, text_eq_iff (stored_name w up) other);
    recorded =
        subst {A = List Media} Recorded (ground arith)
          (record_media-Recorded w.database refl (ground arith));
  }

module _ (w : Surroundings) (request : Request) (s : Archive) where
  -- An upload that succeeds was accepted: its part is the first of the body that may be the upload, its size is within
  -- bounds, its extension and sniffed type are an allowed pair, and its host is known. It leaves, under its hash and its
  -- extension, the file with its content and a metadata file that describes it, and with a database one row of the same
  -- description; the response names that file; and no file of another name changes.
  pub save_uploaded_media-Stored :
      (response : Response)
      → (save_uploaded_media w request s).1 ≡ ok response
      → (up : Upload) × (IsAccepted w request up)
        × Stored w up s (save_uploaded_media w request s).0 response
  unfolding save_uploaded_media
  save_uploaded_media-Stored response h = elim (checked (check_upload w request)) [
    | inl (up, c) ↦
        let accepted = check_upload-IsAccepted w request up c in
        let dot = Allowed-HasDot w request.upload_kind up.content up.validation accepted.allowed in
        (
          up,
          accepted,
          subst {A = Archive × Result Response} (λ out. Stored w up s out.0 response)
              (through_store w request s up c)
              (store_upload-Stored w up s response dot (ground arith)),
        )
    | inr (e, c) ↦ absurd (ground arith)
  ]
