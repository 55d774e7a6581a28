-- ===== src/Routes/Legacy.antt =====
-- How handleLegacyStatic of pkg/webserver/functions.go answers.
use sitebrush_v.Prelude.{
  ◌≡◌, refl, inl, inr, Bool, true, false, not, ◌||◌, Option, none, some, if◌then◌else◌, arith,
  Option-cases,
}
use sitebrush_v.Text.{Text, codes, text_eq, is_empty, trim_prefix}
use sitebrush_v.Paths.{AbsPath}
use sitebrush_v.Sessions.{get}
use sitebrush_v.Routes.Interface.{
  Request, Site, Surroundings, World, Response, file, status, redirect, MediaFile, media_file,
  bad_host, outside_media,
}
use sitebrush_v.Routes.Dispatch.{
  snapshot_file, snapshot_media, is_under, media_answer, legacy_page, legacy_media, legacy_static,
}

-- A response that is no redirect.
abbrev pub Stays : Response → Type 0
Stays (redirect n target) = ⊥
Stays _ = Unit

module _ {S : Type 0} (o : Site S) (d : Surroundings) where
  -- The site is the same and the response is no redirect.
  abbrev pub Shows : World S → World S × Response → Type 0
  Shows w r = (r.0.site ≡ w.site) × Stays r.1

  pub snapshot_file-site : (q : Request) (w : World S) → (snapshot_file o d q w).0.site ≡ w.site
  unfolding snapshot_file
  snapshot_file-site q w = elim (Option-cases (get d.hash_token d.now w.sessions q.cookie).1) [
    | inl e ↦ ground (arith, e)
    | inr (session, e) ↦ ground (arith, e)
  ]

  snapshot_media-site :
      (path : Text) (q : Request) (w : World S) → (snapshot_media o d path q w).0.site ≡ w.site
  unfolding snapshot_media
  snapshot_media-site path q w =
      elim (Option-cases (get d.hash_token d.now w.sessions q.cookie).1) [
        | inl e ↦ ground (arith, e)
        | inr (session, e) ↦ ground (arith, e)
      ]

  shown_or_missing : (b : Bool) (name : AbsPath) → Stays (if b then file name else status 404)
  shown_or_missing true name = tt
  shown_or_missing false name = tt

  legacy_page-Shows : (q : Request) (w : World S) → Shows w (legacy_page o d q w)
  unfolding legacy_page
  legacy_page-Shows q w = by (o.file_of q.path)
    where
      by :
          (name : Option AbsPath)
          → Shows w (elim name as (λ _. World S × Response) [
            | none ↦ (w, status 403)
            | some n ↦
                let (known, published) = snapshot_file o d q w in
                let shown : AbsPath = elim published [ none ↦ n | some p ↦ p ] in
                (known, (if o.is_file known.site shown then file shown else status 404))
          ])
      by none = (refl, tt)
      by (some n) =
          let known = (snapshot_file o d q w).0 in
          let shown : AbsPath = elim (snapshot_file o d q w).1 [ none ↦ n | some p ↦ p ] in
          (snapshot_file-site q w, shown_or_missing (o.is_file known.site shown) shown)

  media_of-Stays :
      (site : S) (found : MediaFile)
      → Stays (elim found as (λ _. Response) [
        | media_file name ↦ media_answer o d site name
        | bad_host ↦ status 400
        | outside_media ↦ status 403
      ])
  media_of-Stays site (media_file name) = shown_or_missing (o.has_content site name) name
  media_of-Stays site bad_host = tt
  media_of-Stays site outside_media = tt

  media-Stays :
      (site : S) (published : Option AbsPath) (found : MediaFile)
      → Stays (elim published as (λ _. Response) [
        | some name ↦ media_answer o d site name
        | none ↦ elim found [
          | media_file name ↦ media_answer o d site name
          | bad_host ↦ status 400
          | outside_media ↦ status 403
        ]
      ])
  media-Stays site none found = media_of-Stays site found
  media-Stays site (some name) found = shown_or_missing (o.has_content site name) name

  either :
      (w : World S) (b : Bool) (r s : World S × Response)
      → Shows w r
      → Shows w s
      → Shows w (if b then r else s)
  either w true r s h k = h
  either w false r s h k = k

  legacy_media-Shows :
      (path : Text) (q : Request) (w : World S) → Shows w (legacy_media o d path q w)
  unfolding legacy_media
  legacy_media-Shows path q w =
      let (known, published) = snapshot_media o d path q w in
      either w (is_empty path || text_eq path (codes "/")) _ _ (refl, tt)
        (snapshot_media-site path q w, media-Stays known.site published (o.media_of path))

  -- What legacy_static shows if it takes the request.
  abbrev pub ShowsIf : World S → Option (World S × Response) → Type 0
  ShowsIf w none = Unit
  ShowsIf w (some r) = Shows w r

  either_taken :
      (w : World S) (b : Bool) (r s : Option (World S × Response))
      → ShowsIf w r
      → ShowsIf w s
      → ShowsIf w (if b then r else s)
  either_taken w true r s h k = h
  either_taken w false r s h k = k

  -- A request that handleLegacyStatic takes changes nothing of the site, and is answered by a file or a status.
  pub legacy_static-ShowsIf : (q : Request) (w : World S) → ShowsIf w (legacy_static o d q w)
  unfolding legacy_static
  legacy_static-ShowsIf q w = either_taken w (not (is_empty q.raw_query)) _ _ tt (
      either_taken w (is_under o d (codes "/b") q.path) _ _ (refl, tt)
        (either_taken w (is_under o d (codes "/p") q.path || is_under o d (codes "/d") q.path) _ _
          (legacy_page-Shows q w)
          (either_taken w (is_under o d (codes "/f") q.path) _ _
            (legacy_media-Shows (trim_prefix (codes "/f") q.path) q w) tt)))
