-- ===== src/Routes/Dispatch.antt =====
-- handle of pkg/webserver/functions.go and the handlers that need no session: the login, the first admin, and
-- the pages that a visitor sees.
use sitebrush_v.Prelude.{
  ◌++◌, Bool, true, false, not, ◌&&◌, ◌||◌, [], Option, none, some, if◌then◌else◌,
}
use sitebrush_v.Prelude.Int.{pos}
use sitebrush_v.Text.{has_prefix, trim_prefix, Text, codes, text_eq, is_empty}
use sitebrush_v.Paths.{AbsPath}
use sitebrush_v.Sessions.{get, create_for_user, redirect_after_login}
use sitebrush_v.Routes.Query.{parse_action}
use sitebrush_v.Routes.Targets.{valid_internal_redirect_target}
use sitebrush_v.Routes.Interface.{
  media_file, bad_host, outside_media, get_method, head_method, post_method, other_method, Request,
  SignedIn, SignIn, signed_in, refused, sign_in_failed, Creation, created, users_exist, not_created,
  Site, Surroundings, World, Response, file, redirect, status,
}
use sitebrush_v.Routes.Handlers.{
  put_site, edit, revisions, subpages, properties, set_freeze, backup, profile, logout,
  not_implemented_mutation, not_implemented_public, grab, upload,
}

module _ {S : Type 0} (o : Site S) (d : Surroundings) where
  -- A new session for a user, and where the browser is sent.
  unfoldable pub start_session : SignedIn → Text → Text → World S → World S × Response
  unfolding create_for_user
  start_session user source next w =
      let (sessions, made) =
        create_for_user d.hash_token d.now d.token d.csrf w.sessions user.name user.email user.id
          source in
      let begun = record w { sessions = sessions } in
      elim made [ none ↦ (begun, status 500) | some _ ↦ (begun, redirect 303 next) ]

  -- displayUserName and the session of a user who signed in.
  unfoldable pub sign_in : Request → World S → SignIn → World S × Response
  unfolding start_session redirect_after_login
  sign_in q w (signed_in user) =
      start_session user (codes "persistent") (redirect_after_login (q.form (codes "next"))) w
  sign_in q w refused = (w, status 401)
  sign_in q w sign_in_failed = (w, status 500)

  -- The admin of the environment.
  abbrev pub admin : SignedIn
  admin = record { name = codes "admin"; email = []; id = pos 0 }

  -- The POST branch of login.
  unfoldable pub log_in : Request → World S → World S × Response
  unfolding sign_in start_session redirect_after_login
  log_in q w =
      let email = d.normalize_email (q.form (codes "email")) in
      let password = q.form (codes "password") in
      let (site, answer) = o.authenticate email password w.site in
      if not q.parses then (w, status 400) else elim (o.has_users w.site) [
        | none ↦ (w, status 500)
        | some users ↦
            if users && not (is_empty email)
            then sign_in q (put_site o d w site) answer
            else if not d.admin_configured
            then (w, status 401)
            else if not (d.admin_password password)
            then (w, status 401)
            else start_session admin (codes "env") (redirect_after_login (q.form (codes "next"))) w
      ]

  unfoldable pub login : Request → World S → World S × Response
  unfolding log_in
  login q w = elim q.method [
    | get_method ↦ (
      w,
      elim (o.has_users w.site) [
        | none ↦ status 500
        | some users ↦
            if not users && (not d.admin_configured && not d.bootstrap_configured)
            then status 503
            else status 200
      ],
    )
    | post_method ↦ log_in q w
    | head_method ↦ (w, status 405)
    | other_method ↦ (w, status 405)
  ]

  -- What join answers to createFirstAdmin.
  unfoldable pub admin_made : Creation → World S → World S × Response
  unfolding start_session
  admin_made (created user) w = start_session user (codes "persistent") (codes "/?profile") w
  admin_made users_exist w = (w, status 403)
  admin_made not_created w = (w, status 400)

  -- The POST branch of join.
  unfoldable pub create_admin : Request → World S → World S × Response
  unfolding admin_made
  create_admin q w =
      let (site, made) =
        o.create_first_admin (q.form (codes "email")) (q.form (codes "password")) w.site in
      let after = put_site o d w site in
      if not q.parses
      then (w, status 400)
      else if not (d.bootstrap_token (q.form (codes "bootstrap_token")))
      then (w, status 403)
      else admin_made made after

  unfoldable pub join : Request → World S → World S × Response
  unfolding create_admin
  join q w = elim (o.has_users w.site) [
    | none ↦ (w, status 500)
    | some users ↦
        if users
        then (w, status 403)
        else if not d.bootstrap_configured
        then (w, status 503)
        else elim q.method [
          | get_method ↦ (w, status 200)
          | post_method ↦ create_admin q w
          | head_method ↦ (w, status 405)
          | other_method ↦ (w, status 405)
        ]
  ]

  -- recover
  unfoldable pub recover : Request → World S → World S × Response
  unfolding not_implemented_public
  recover q w = not_implemented_public o d q w

  -- The answer of health by checkReadiness.
  abbrev pub readiness : World S → World S × Response
  readiness w =
      let (site, ready) = o.check_readiness w.site in
      (put_site o d w site, status (if ready then 200 else 503))

  unfoldable pub health : Request → World S → World S × Response
  health q w = elim q.method [
    | get_method ↦ readiness w
    | head_method ↦ readiness w
    | post_method ↦ (w, status 405)
    | other_method ↦ (w, status 405)
  ]

  -- snapshotFileForAnonymousRequest: the sessions, as get leaves them, and the file of the snapshot.
  unfoldable pub snapshot_file : Request → World S → World S × Option AbsPath
  unfolding get
  snapshot_file q w =
      let (sessions, session) = get d.hash_token d.now w.sessions q.cookie in
      let known = record w { sessions = sessions } in
      elim session [
        | some _ ↦ (known, none)
        | none ↦ (known, (if o.frozen w.site then o.published_file q.path else none))
      ]

  -- A stored redirect, if its target is safe.
  unfoldable pub send_to : Text → World S → World S × Response
  unfolding valid_internal_redirect_target
  send_to target w =
      (w, (if valid_internal_redirect_target target then redirect 301 target else status 404))

  -- What findRedirect found.
  unfoldable pub answer_lookup : Option (Option Text) → World S → World S × Response
  unfolding send_to
  answer_lookup none w = (w, status 500)
  answer_lookup (some none) w = (w, status 404)
  answer_lookup (some (some target)) w = send_to target w

  -- A page that is not there.
  unfoldable pub follow_redirect : AbsPath → World S → World S × Response
  unfolding answer_lookup
  follow_redirect name w = elim (o.uri_of name) [
    | none ↦ (w, status 403)
    | some uri ↦
        let (site, found) = o.find_redirect uri w.site in answer_lookup found (put_site o d w site)
  ]

  -- The empty action: a page.
  unfoldable pub show_page : Request → AbsPath → World S → World S × Response
  unfolding snapshot_file follow_redirect
  show_page q name w =
      let (known, published) = snapshot_file q w in
      let shown : AbsPath = elim published [ none ↦ name | some p ↦ p ] in
      if o.is_file known.site shown then (known, file shown) else follow_redirect name known

  -- The switch of handle on the action.
  unfoldable pub dispatch : Text → Request → AbsPath → World S → World S × Response
  unfolding show_page login edit not_implemented_mutation revisions subpages properties set_freeze
      backup profile logout health join recover not_implemented_public upload grab text_eq
  dispatch action q name w =
      if is_empty action
      then show_page q name w
      else if text_eq action (codes "login")
      then login q w
      else if text_eq action (codes "edit")
      then edit o d q name w
      else if text_eq action (codes "delete")
      then not_implemented_mutation o d q w
      else if text_eq action (codes "revisions")
      then revisions o d q name w
      else if text_eq action (codes "subpages")
      then subpages o d q name w
      else if text_eq action (codes "properties")
      then properties o d q name w
      else if text_eq action (codes "freeze")
      then set_freeze o d true q w
      else if text_eq action (codes "unfreeze")
      then set_freeze o d false q w
      else if text_eq action (codes "backup")
      then backup o d q w
      else if text_eq action (codes "profile")
      then profile o d q w
      else if text_eq action (codes "logout")
      then logout o d q w
      else if text_eq action (codes "health")
      then health q w
      else if text_eq action (codes "join")
      then join q w
      else if text_eq action (codes "recover")
      then recover q w
      else if text_eq action (codes "verify") || text_eq action (codes "captcha")
      then not_implemented_public o d q w
      else if text_eq action (codes "upload")
      then upload o d q w
      else if text_eq action (codes "grab")
      then grab o d q name w
      else if text_eq action (codes "domains") || text_eq action (codes "undelete")
      then not_implemented_mutation o d q w
      else (w, status 404)

  -- snapshotMediaFileForAnonymousRequest
  unfoldable pub snapshot_media : Text → Request → World S → World S × Option AbsPath
  unfolding get
  snapshot_media path q w =
      let (sessions, session) = get d.hash_token d.now w.sessions q.cookie in
      let known = record w { sessions = sessions } in
      elim session [
        | some _ ↦ (known, none)
        | none ↦ (known, (if o.frozen w.site then o.published_media path else none))
      ]

  -- A path is a directory of version 1, or in it.
  abbrev pub is_under : Text → Text → Bool
  unfolding text_eq has_prefix
  is_under dir path = text_eq path dir || has_prefix (dir ++ codes "/") path

  unfoldable pub legacy_page : Request → World S → World S × Response
  unfolding snapshot_file
  legacy_page q w = elim (o.file_of q.path) [
    | none ↦ (w, status 403)
    | some name ↦
        let (known, published) = snapshot_file q w in
        let shown : AbsPath = elim published [ none ↦ name | some p ↦ p ] in
        (known, (if o.is_file known.site shown then file shown else status 404))
  ]

  abbrev pub media_answer : S → AbsPath → Response
  media_answer site name = if o.has_content site name then file name else status 404

  unfoldable pub legacy_media : Text → Request → World S → World S × Response
  unfolding snapshot_media text_eq
  legacy_media path q w =
      let (known, published) = snapshot_media path q w in
      if is_empty path || text_eq path (codes "/") then (w, status 404) else (
        known,
        elim published [
          | some name ↦ media_answer known.site name
          | none ↦ elim (o.media_of path) [
            | media_file name ↦ media_answer known.site name
            | bad_host ↦ status 400
            | outside_media ↦ status 403
          ]
        ],
      )

  -- handleLegacyStatic: `none` for a request that it does not take.
  unfoldable pub legacy_static : Request → World S → Option (World S × Response)
  unfolding legacy_page legacy_media trim_prefix
  legacy_static q w =
      if not (is_empty q.raw_query)
      then none
      else if is_under (codes "/b") q.path
      then some (w, status 404)
      else if is_under (codes "/p") q.path || is_under (codes "/d") q.path
      then some (legacy_page q w)
      else if is_under (codes "/f") q.path
      then some (legacy_media (trim_prefix (codes "/f") q.path) q w)
      else none

  -- handle, from safeRequestedFilePath on.
  unfoldable pub answer_action : Request → World S → World S × Response
  unfolding parse_action dispatch
  answer_action q w = elim (o.file_of q.path) [
    | none ↦ (w, status 403)
    | some name ↦ elim (parse_action q.raw_query) [
      | none ↦ (w, status 404)
      | some action ↦ dispatch action q name w
    ]
  ]

  unfoldable pub handle : Request → World S → World S × Response
  unfolding health legacy_static answer_action text_eq
  handle q w =
      if text_eq q.path (codes "/sitebrush-healthz")
      then health q w
      else elim (legacy_static q w) [ some r ↦ r | none ↦ answer_action q w ]
