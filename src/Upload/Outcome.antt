-- ===== src/Upload/Outcome.antt =====
-- What an upload leaves behind, by pkg/webserver/upload.go.
use sitebrush_v.Prelude.{
  ◌≡◌, ◌≢◌, ◌⊎◌, refl, subst, true, false, [], Option, none, some, arith, inl, inr,
}
use sitebrush_v.Text.{Text, codes, text_eq, text_eq_self, text_eq_iff}
use sitebrush_v.Files.{unsynced, atomic_write_file}
use sitebrush_v.Sessions.{OperatorSession}
use sitebrush_v.Upload.Validation.{UploadError, Result, ok, err}
use sitebrush_v.Upload.Records.{Archive, Request, Surroundings, Response}
use sitebrush_v.Upload.Saving.{
  Upload, check_upload, stored_name, store_upload, save_uploaded_media, upload,
}

-- What a failed upload leaves: no file that was not there before, but for a write whose last sync failed and a removal
-- that did not work; and every file that was there.
pub record Undone (w : Surroundings) (up : Upload) (old new : Archive) : Type 0 where
  pub no_file :
      (name : Text)
      → old.media name ≡ none
      → (new.media name ≡ none) ⊎ ((unsynced w.media_write ≡ true) ⊎ (w.removes_media ≡ false))
  pub no_sidecar :
      (name : Text)
      → old.sidecars name ≡ none
      → (new.sidecars name ≡ none)
        ⊎ ((unsynced w.sidecar_write ≡ true) ⊎ (w.removes_sidecar ≡ false))
  pub others :
      (name : Text)
      → text_eq (stored_name w up) name ≡ false
      → (new.media name ≡ old.media name) × (new.sidecars name ≡ old.sidecars name)
  pub same_or_new :
      (new.media (stored_name w up) ≡ old.media (stored_name w up))
      ⊎ (new.media (stored_name w up) ≡ some up.content)

module _ (w : Surroundings) (up : Upload) (s : Archive) where
  store_upload-Undone :
      (e : UploadError) → (store_upload w up s).1 ≡ err e → Undone w up s (store_upload w up s).0
  unfolding store_upload atomic_write_file
  store_upload-Undone e h = record {
    no_file = λ name missing. ground (arith, text_eq_iff (stored_name w up) name);
    no_sidecar = λ name missing. ground (arith, text_eq_iff (stored_name w up) name);
    others = λ name other. ground arith;
    same_or_new = ground (arith, text_eq_self (stored_name w up));
  }

pub checked :
    {A : Type 0} (r : Result A) → ((a : A) × (r ≡ ok a)) ⊎ ((e : UploadError) × (r ≡ err e))
checked (ok a) = inl (a, refl)
checked (err e) = inr (e, refl)

module _ (w : Surroundings) (request : Request) (s : Archive) where
  pub through_store :
      (up : Upload)
      → check_upload w request ≡ ok up
      → store_upload w up s ≡ save_uploaded_media w request s
  unfolding save_uploaded_media
  through_store up c = ground arith

  -- An upload that fails leaves no file and no metadata file where there was none, unless the sync behind that
  -- file's rename failed or its removal did; it changes no other file; and a media file that was there is as it was or has the content
  -- of the upload.
  pub save_uploaded_media-Undone :
      (e : UploadError)
      → (save_uploaded_media w request s).1 ≡ err e
      → ((save_uploaded_media w request s).0 ≡ s)
        ⊎ ((up : Upload) × (check_upload w request ≡ ok up)
            × Undone w up s (save_uploaded_media w request s).0)
  unfolding save_uploaded_media
  save_uploaded_media-Undone e h = elim (checked (check_upload w request)) [
    | inl (up, c) ↦ inr (
      up,
      c,
      subst {A = Archive × Result Response} (λ out. Undone w up s out.0) (through_store up c)
          (store_upload-Undone w up s e (ground arith)),
    )
    | inr (e', c) ↦ inl (ground arith)
  ]

  -- With a session, an upload by another method than POST, without the session's CSRF token in the header or
  -- of an unknown kind changes nothing, and its status is not 200.
  pub upload-guarded :
      (o : OperatorSession)
      → ((request.is_post ≡ false)
          ⊎ ((request.csrf_token ≡ [])
              ⊎ ((request.csrf_token ≢ o.csrf_token)
                  ⊎ ((request.upload_kind ≢ codes "file")
                      × (request.upload_kind ≢ codes "image")))))
      → ((upload w (some o) request s).0 ≡ s)
        × ((r : Option Response) → (upload w (some o) request s).1 ≢ some (200, r))
  unfolding upload
  upload-guarded o why = (
    ground (
      arith,
      text_eq_iff request.csrf_token o.csrf_token,
      text_eq_iff request.upload_kind (codes "file"),
      text_eq_iff request.upload_kind (codes "image"),
    ),
    λ r. ground (
      arith,
      text_eq_iff request.csrf_token o.csrf_token,
      text_eq_iff request.upload_kind (codes "file"),
      text_eq_iff request.upload_kind (codes "image"),
    ),
  )
