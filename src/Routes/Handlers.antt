-- ===== src/Routes/Handlers.antt =====
-- The handlers of pkg/webserver that need a session, and the guards in each.
use sitebrush_v.Prelude.{Bool, not, ◌&&◌, ◌||◌, none, some, if◌then◌else◌, ◌++◌}
use sitebrush_v.Prelude.Int.{is_nonzero}
use sitebrush_v.Text.{codes, text_eq, is_empty}
use sitebrush_v.Paths.{AbsPath}
use sitebrush_v.Sessions.{OperatorSession, get, destroy, valid_csrf}
use sitebrush_v.Routes.Interface.{
  get_method, head_method, post_method, other_method, Request, done, is_unsafe, exists_already,
  is_missing, changed, wrong_password, weak_password, change_failed, Site, Surroundings, World,
  Response, redirect, status,
}

module _ {S : Type 0} (o : Site S) (d : Surroundings) where
  -- validCSRF
  abbrev pub token_is_valid : Request → OperatorSession → Bool
  unfolding valid_csrf
  token_is_valid q session = valid_csrf q.csrf_header q.parses (q.form (codes "csrf")) session

  -- requireAuth, and what comes after it.
  unfoldable pub require_auth :
      Request → World S → (OperatorSession → World S → World S × Response) → World S × Response
  unfolding get
  require_auth q w continue =
      let (sessions, session) = get d.hash_token d.now w.sessions q.cookie in
      let known = record w { sessions = sessions } in
      elim session [ none ↦ (known, status 401) | some s ↦ continue s known ]

  -- A POST with the session's token; anything else is refused.
  unfoldable pub on_post :
      Request → OperatorSession → World S → (World S → World S × Response) → World S × Response
  on_post q session w act = if token_is_valid q session then act w else (w, status 403)

  -- The site after an operation.
  abbrev pub put_site : World S → S → World S
  put_site w site = record w { site = site }

  -- A page for GET, of what is looked up for it.
  abbrev pub show : (S → S × Bool) → World S → World S × Response
  show look_up w =
      let (site, fine) = look_up w.site in (put_site w site, status (if fine then 200 else 500))

  -- A page for GET that needs nothing.
  abbrev pub show_form : World S → World S × Response
  show_form w = (w, status 200)

  -- switch request.Method, with a page for GET.
  unfoldable pub answer_form :
      Request
      → (World S → World S × Response)
      → (OperatorSession → World S → World S × Response)
      → OperatorSession
      → World S
      → World S × Response
  unfolding on_post
  answer_form q shown act session w = elim q.method [
    | get_method ↦ shown w
    | post_method ↦ on_post q session w (act session)
    | head_method ↦ (w, status 405)
    | other_method ↦ (w, status 405)
  ]

  unfoldable pub get_or_post :
      Request
      → World S
      → (World S → World S × Response)
      → (OperatorSession → World S → World S × Response)
      → World S × Response
  unfolding require_auth answer_form
  get_or_post q w shown act = require_auth q w (answer_form q shown act)

  -- request.Method != http.MethodPost is refused.
  unfoldable pub answer_post :
      Request
      → (OperatorSession → World S → World S × Response)
      → OperatorSession
      → World S
      → World S × Response
  unfolding on_post
  answer_post q act session w = elim q.method [
    | post_method ↦ on_post q session w (act session)
    | get_method ↦ (w, status 405)
    | head_method ↦ (w, status 405)
    | other_method ↦ (w, status 405)
  ]

  unfoldable pub post_only :
      Request → World S → (OperatorSession → World S → World S × Response) → World S × Response
  unfolding require_auth answer_post
  post_only q w act = require_auth q w (answer_post q act)

  -- The POST branch of edit.
  unfoldable pub post_edit : Request → AbsPath → OperatorSession → World S → World S × Response
  post_edit q name session known =
      let (site, saved) = o.save_page session name (q.form (codes "content")) known.site in
      if not q.parses
      then (known, status 400)
      else if saved
      then (put_site known site, redirect 303 (q.path ++ codes "?revisions"))
      else (put_site known site, status 500)

  unfoldable pub edit : Request → AbsPath → World S → World S × Response
  unfolding get_or_post post_edit
  edit q name w = get_or_post q w (show (o.load_page name)) (post_edit q name)

  -- The POST branch of revisions.
  unfoldable pub post_revision : Request → AbsPath → OperatorSession → World S → World S × Response
  post_revision q name session known =
      let revision = q.form (codes "revision") in
      let (site, outcome) = o.restore_page session name revision known.site in
      if not q.parses
      then (known, status 400)
      else if is_empty revision
      then (known, status 400)
      else (
        put_site known site,
        elim outcome [
          | done ↦ redirect 303 (q.path ++ codes "?revisions")
          | is_missing ↦ status 404
          | _ ↦ status 500
        ],
      )

  unfoldable pub revisions : Request → AbsPath → World S → World S × Response
  unfolding get_or_post post_revision
  revisions q name w = get_or_post q w (show (o.list_revisions name)) (post_revision q name)

  -- The POST branch of subpages.
  unfoldable pub post_subpage : Request → AbsPath → OperatorSession → World S → World S × Response
  post_subpage q name session known =
      let (site, outcome) =
        o.create_subpage name (q.form (codes "path")) (q.form (codes "title")) known.site in
      if not q.parses then (known, status 400) else (
        put_site known site,
        elim outcome [
          | done ↦ redirect 303 (q.path ++ codes "?subpages")
          | is_unsafe ↦ status 403
          | exists_already ↦ status 409
          | _ ↦ status 500
        ],
      )

  unfoldable pub subpages : Request → AbsPath → World S → World S × Response
  unfolding get_or_post post_subpage
  subpages q name w = get_or_post q w (show (o.list_subpages name)) (post_subpage q name)

  -- The POST branch of properties.
  unfoldable pub post_properties :
      Request → AbsPath → OperatorSession → World S → World S × Response
  post_properties q name session known =
      let (site, (outcome, uri)) = o.update_properties name q.form known.site in
      if not q.parses then (known, status 400) else (
        put_site known site,
        elim outcome [
          | done ↦ redirect 303 (uri ++ codes "?properties")
          | is_unsafe ↦ status 403
          | exists_already ↦ status 409
          | _ ↦ status 500
        ],
      )

  unfoldable pub properties : Request → AbsPath → World S → World S × Response
  unfolding get_or_post post_properties
  properties q name w = get_or_post q w (show (o.load_properties name)) (post_properties q name)

  -- The POST branch of set_freeze.
  unfoldable pub post_freeze : Bool → Request → OperatorSession → World S → World S × Response
  post_freeze frozen q session known =
      let (published, ok) = o.publish_snapshot known.site in
      let (written, fine) = o.write_site_state frozen published in
      if not ok
      then (put_site known published, status 500)
      else if not fine
      then (put_site known written, status 500)
      else (put_site known written, status 200)

  unfoldable pub set_freeze : Bool → Request → World S → World S × Response
  unfolding post_only post_freeze
  set_freeze frozen q w = post_only q w (post_freeze frozen q)

  -- The POST branch of backup.
  unfoldable pub post_backup : Request → OperatorSession → World S → World S × Response
  post_backup q session known =
      let (restored, outcome) = o.restore_backup (q.form (codes "path")) known.site in
      let (saved, ok) = o.create_backup known.site in
      if not (is_empty (q.form (codes "restore")))
      then (
        put_site known restored,
        elim outcome [
          | done ↦ status 200
          | is_unsafe ↦ status 403
          | is_missing ↦ status 404
          | _ ↦ status 400
        ],
      )
      else (put_site known saved, status (if ok then 200 else 500))

  unfoldable pub backup : Request → World S → World S × Response
  unfolding post_only post_backup
  backup q w = post_only q w (post_backup q)

  -- The POST branch of profile.
  unfoldable pub post_profile : Request → OperatorSession → World S → World S × Response
  post_profile q session known =
      let current = q.form (codes "current_password") in
      let new = q.form (codes "new_password") in
      let (site, outcome) = o.change_password session.user_id current new known.site in
      if not (text_eq session.auth_source (codes "persistent")) || not (is_nonzero session.user_id)
      then (known, status 501)
      else if not q.parses
      then (known, status 400)
      else if is_empty current || is_empty new
      then (known, status 400)
      else (
        put_site known site,
        elim outcome [
          | changed ↦ status 200
          | wrong_password ↦ status 401
          | weak_password ↦ status 400
          | change_failed ↦ status 500
        ],
      )

  unfoldable pub profile : Request → World S → World S × Response
  unfolding get_or_post post_profile
  profile q w = get_or_post q w show_form (post_profile q)

  -- The POST branch of logout.
  unfoldable pub post_logout : Request → OperatorSession → World S → World S × Response
  unfolding destroy
  post_logout q session known = (
    record known { sessions = destroy d.hash_token known.sessions q.cookie },
    redirect 303 (codes "/?login"),
  )

  unfoldable pub logout : Request → World S → World S × Response
  unfolding get_or_post post_logout
  logout q w = get_or_post q w show_form (post_logout q)

  -- The POST branch of not_implemented_mutation.
  unfoldable pub post_not_implemented : Request → OperatorSession → World S → World S × Response
  post_not_implemented q session known = (known, status 501)

  unfoldable pub not_implemented_mutation : Request → World S → World S × Response
  unfolding post_only post_not_implemented
  not_implemented_mutation q w = post_only q w (post_not_implemented q)

  unfoldable pub not_implemented_public : Request → World S → World S × Response
  not_implemented_public q w = elim q.method [
    | get_method ↦ (w, status 501)
    | post_method ↦ (w, status 501)
    | head_method ↦ (w, status 405)
    | other_method ↦ (w, status 405)
  ]

  -- The POST branch of grab.
  unfoldable pub post_grab : Request → AbsPath → OperatorSession → World S → World S × Response
  post_grab q name session known = elim (o.grab_target name (q.form (codes "target_path"))) [
    | none ↦ (known, status (if q.parses then 403 else 400))
    | some target ↦
        let (site, answer) = o.import_page session target (q.form (codes "url")) known.site in
        if not q.parses then (known, status 400) else (put_site known site, status answer)
  ]

  unfoldable pub grab : Request → AbsPath → World S → World S × Response
  unfolding get_or_post post_grab
  grab q name w = get_or_post q w show_form (post_grab q name)

  -- The POST branch of upload: its token stands in the header alone.
  unfoldable pub accept_upload : Request → OperatorSession → World S → World S × Response
  accept_upload q session w =
      let (site, answer) = o.save_upload session q.upload_kind w.site in
      if is_empty q.csrf_header || not (text_eq q.csrf_header session.csrf_token)
      then (w, status 403)
      else if not (text_eq q.upload_kind (codes "file"))
          && not (text_eq q.upload_kind (codes "image"))
      then (w, status 400)
      else (put_site w site, status answer)

  unfoldable pub answer_upload : Request → OperatorSession → World S → World S × Response
  unfolding accept_upload
  answer_upload q session w = elim q.method [
    | post_method ↦ accept_upload q session w
    | get_method ↦ (w, status 405)
    | head_method ↦ (w, status 405)
    | other_method ↦ (w, status 405)
  ]

  unfoldable pub upload : Request → World S → World S × Response
  unfolding require_auth answer_upload
  upload q w = require_auth q w (answer_upload q)
