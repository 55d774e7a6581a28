-- ===== src/Routes/Guard.antt =====
-- Which requests can change the site, by the handlers of pkg/webserver.
use sitebrush_v.Prelude.{
  ◌≡◌, ◌⊎◌, refl, ap, ◌∙◌, inl, inr, true, false, not, ◌&&◌, ◌||◌, Option, none, some, arith,
  Bool-cases, Option-cases,
}
use sitebrush_v.Text.{Text, codes, text_eq, is_empty}
use sitebrush_v.Paths.{AbsPath}
use sitebrush_v.Sessions.{redirect_after_login, create_for_user}
use sitebrush_v.Routes.Query.{parse_action}
use sitebrush_v.Routes.Interface.{
  Request, Site, Surroundings, World, Response, status, SignIn, signed_in, refused, sign_in_failed,
  SignedIn, Creation, created, users_exist, not_created,
}
use sitebrush_v.Routes.Handlers.{not_implemented_public, put_site}
use sitebrush_v.Routes.Legacy.{snapshot_file-site, ShowsIf, legacy_static-ShowsIf}
use sitebrush_v.Routes.Dispatch.{
  legacy_static, answer_action, start_session, admin, admin_made, log_in, login, create_admin, join,
  recover, health, snapshot_file, answer_lookup, follow_redirect, show_page, dispatch, handle,
  sign_in,
}
use sitebrush_v.Routes.Authorised.{
  KeepsView, Authorised, Guarded, Method-cases, upload-Guarded, edit-Guarded, revisions-Guarded,
  subpages-Guarded, properties-Guarded, set_freeze-Guarded, backup-Guarded, profile-Guarded,
  logout-Guarded, grab-Guarded, not_implemented_mutation-Guarded, either,
}

module _ {S : Type 0} (o : Site S) (d : Surroundings) {V : Type 0} (view : S → V) where
  module _ (keeps : KeepsView o d view) where
    start_session-site :
        (user : SignedIn) (source next : Text) (w : World S)
        → (start_session o d user source next w).0.site ≡ w.site
    unfolding start_session
    start_session-site user source next w =
        elim (Option-cases
          (create_for_user d.hash_token d.now d.token d.csrf w.sessions user.name user.email user.id
            source).1) [ inl e ↦ ground (arith, e) | inr (made, e) ↦ ground (arith, e) ]

    sign_in-site :
        (q : Request) (w : World S) (answer : SignIn) → (sign_in o d q w answer).0.site ≡ w.site
    unfolding sign_in
    sign_in-site q w (signed_in user) = start_session-site user _ _ w
    sign_in-site q w refused = refl
    sign_in-site q w sign_in_failed = refl

    log_in-view : (q : Request) (w : World S) → view (log_in o d q w).0.site ≡ view w.site
    unfolding log_in
    log_in-view q w =
        let email = d.normalize_email (q.form (codes "email")) in
        let password = q.form (codes "password") in
        let signed =
          ap view (
            sign_in-site q (put_site o d w (o.authenticate email password w.site).0)
              (o.authenticate email password w.site).1)
          ∙ keeps.signing_in email password w.site in
        let as_admin = ap view (
          start_session-site (admin o d) (codes "env")
            (redirect_after_login (q.form (codes "next"))) w) in
        elim (Option-cases (o.has_users w.site)) [
          | inl e ↦ ground (arith, e)
          | inr (users, e) ↦ elim (Bool-cases (users && not (is_empty email))) [
            | inl f ↦ ground (arith, e, f, signed)
            | inr f ↦ ground (arith, e, f, as_admin)
          ]
        ]

    admin_made-site : (made : Creation) (w : World S) → (admin_made o d made w).0.site ≡ w.site
    unfolding admin_made
    admin_made-site (created user) w = start_session-site user _ _ w
    admin_made-site users_exist w = refl
    admin_made-site not_created w = refl

    create_admin-view :
        (q : Request) (w : World S) → view (create_admin o d q w).0.site ≡ view w.site
    unfolding create_admin
    create_admin-view q w =
        let email = q.form (codes "email") in
        let password = q.form (codes "password") in
        let made =
          ap view (
            admin_made-site (o.create_first_admin email password w.site).1
              (put_site o d w (o.create_first_admin email password w.site).0))
          ∙ keeps.first_admin email password w.site in
        ground (arith, made)

    login-view : (q : Request) (w : World S) → view (login o d q w).0.site ≡ view w.site
    unfolding login
    login-view q w = elim (Method-cases o d view q.method) [
      | inl m ↦ ground (arith, m, log_in-view q w)
      | inr (inl m) ↦ ground (arith, m)
      | inr (inr (inl m)) ↦ ground (arith, m)
      | inr (inr (inr m)) ↦ ground (arith, m)
    ]

    join-view : (q : Request) (w : World S) → view (join o d q w).0.site ≡ view w.site
    unfolding join
    join-view q w = elim (Option-cases (o.has_users w.site)) [
      | inl e ↦ ground (arith, e)
      | inr (users, e) ↦ elim (Method-cases o d view q.method) [
        | inl m ↦ ground (arith, e, m, create_admin-view q w)
        | inr (inl m) ↦ ground (arith, e, m)
        | inr (inr (inl m)) ↦ ground (arith, e, m)
        | inr (inr (inr m)) ↦ ground (arith, e, m)
      ]
    ]

    health-view : (q : Request) (w : World S) → view (health o d q w).0.site ≡ view w.site
    unfolding health
    health-view q w = elim (Method-cases o d view q.method) [
      | inl m ↦ ground (arith, m)
      | inr (inl m) ↦ ground (arith, m, keeps.readiness w.site)
      | inr (inr (inl m)) ↦ ground (arith, m, keeps.readiness w.site)
      | inr (inr (inr m)) ↦ ground (arith, m)
    ]

    not_implemented_public-site :
        (q : Request) (w : World S) → (not_implemented_public o d q w).0.site ≡ w.site
    unfolding not_implemented_public
    not_implemented_public-site q w = elim (Method-cases o d view q.method) [
      | inl m ↦ ground (arith, m)
      | inr (inl m) ↦ ground (arith, m)
      | inr (inr (inl m)) ↦ ground (arith, m)
      | inr (inr (inr m)) ↦ ground (arith, m)
    ]

    answer_lookup-site :
        (found : Option (Option Text)) (w : World S) → (answer_lookup o d found w).0.site ≡ w.site
    unfolding answer_lookup
    answer_lookup-site none w = refl
    answer_lookup-site (some none) w = refl
    answer_lookup-site (some (some target)) w = refl

    follow_redirect-view :
        (name : AbsPath) (w : World S) → view (follow_redirect o d name w).0.site ≡ view w.site
    unfolding follow_redirect
    follow_redirect-view name w = elim (Option-cases (o.uri_of name)) [
      | inl e ↦ ground (arith, e)
      | inr (uri, e) ↦
          let (site, found) = o.find_redirect uri w.site in
          let looked_up =
            ap view (answer_lookup-site found (put_site o d w site)) ∙ keeps.redirects uri w.site in
          ground (arith, e, looked_up)
    ]

    show_page-view :
        (q : Request) (name : AbsPath) (w : World S)
        → view (show_page o d q name w).0.site ≡ view w.site
    unfolding show_page
    show_page-view q name w = ground (
      arith,
      ap view (snapshot_file-site o d q w),
      follow_redirect-view name (snapshot_file o d q w).0,
    )

    -- Each case of the switch.
    dispatch-Guarded :
        (action : Text) (q : Request) (name : AbsPath) (w : World S)
        → Guarded o d view q w (dispatch o d action q name w)
    unfolding dispatch recover
    dispatch-Guarded action q name w =
        either o d view q w (is_empty action) _ _ (inl (show_page-view q name w)) (
          either o d view q w (text_eq action (codes "login")) _ _ (inl (login-view q w)) (
            either o d view q w (text_eq action (codes "edit")) _ _
              (edit-Guarded o d view keeps q name w)
              (either o d view q w (text_eq action (codes "delete")) _ _
                (not_implemented_mutation-Guarded o d view q w)
                (either o d view q w (text_eq action (codes "revisions")) _ _
                  (revisions-Guarded o d view keeps q name w)
                  (either o d view q w (text_eq action (codes "subpages")) _ _
                    (subpages-Guarded o d view keeps q name w)
                    (either o d view q w (text_eq action (codes "properties")) _ _
                      (properties-Guarded o d view keeps q name w)
                      (either o d view q w (text_eq action (codes "freeze")) _ _
                        (set_freeze-Guarded o d view true q w)
                        (either o d view q w (text_eq action (codes "unfreeze")) _ _
                          (set_freeze-Guarded o d view false q w)
                          (either o d view q w (text_eq action (codes "backup")) _ _
                            (backup-Guarded o d view q w)
                            (either o d view q w (text_eq action (codes "profile")) _ _
                              (profile-Guarded o d view q w)
                              (either o d view q w (text_eq action (codes "logout")) _ _
                                (logout-Guarded o d view q w)
                                (either o d view q w (text_eq action (codes "health")) _ _
                                  (inl (health-view q w))
                                  (either o d view q w (text_eq action (codes "join")) _ _
                                    (inl (join-view q w))
                                    (either o d view q w (text_eq action (codes "recover")) _ _
                                      (inl (ap view (not_implemented_public-site q w)))
                                      (either o d view q w
                                        (text_eq action (codes "verify")
                                          || text_eq action (codes "captcha"))
                                        _ _ (inl (ap view (not_implemented_public-site q w)))
                                        (either o d view q w (text_eq action (codes "upload")) _ _
                                          (upload-Guarded o d view q w)
                                          (either o d view q w (text_eq action (codes "grab")) _ _
                                            (grab-Guarded o d view q name w)
                                            (either o d view q w
                                              (text_eq action (codes "domains")
                                                || text_eq action (codes "undelete"))
                                              _ _ (not_implemented_mutation-Guarded o d view q w)
                                              (inl refl)))))))))))))))))))

    answer_action-Guarded :
        (q : Request) (w : World S) → Guarded o d view q w (answer_action o d q w)
    unfolding answer_action
    answer_action-Guarded q w = found (o.file_of q.path)
      where
        acted :
            (name : AbsPath) (action : Option Text)
            → Guarded o d view q w
                (elim action [ none ↦ (w, status 404) | some a ↦ dispatch o d a q name w ])
        acted name none = inl refl
        acted name (some a) = dispatch-Guarded a q name w

        found :
            (name : Option AbsPath)
            → Guarded o d view q w (elim name [
              | none ↦ (w, status 403)
              | some n ↦ elim (parse_action q.raw_query) [
                | none ↦ (w, status 404)
                | some a ↦ dispatch o d a q n w
              ]
            ])
        found none = inl refl
        found (some n) = acted n (parse_action q.raw_query)

    -- A request changes nothing that the view sees unless it is a POST with a session that is in the store and has not
    -- ended and with that session's token. The view is one that is left alone by signing in, by making the first admin,
    -- by the readiness check, and by the lookups of a page, its revisions, subpages and properties and of a redirect.
    pub handle-Guarded :
        (q : Request) (w : World S)
        → (view (handle o d q w).0.site ≡ view w.site) ⊎ Authorised o d view q w
    unfolding handle
    handle-Guarded q w =
        either o d view q w (text_eq q.path (codes "/sitebrush-healthz")) _ _
          (inl (health-view q w)) (taken (legacy_static o d q w) (legacy_static-ShowsIf o d q w))
      where
        taken :
            (r : Option (World S × Response))
            → ShowsIf o d w r
            → Guarded o d view q w (elim r [ some r ↦ r | none ↦ answer_action o d q w ])
        taken none h = answer_action-Guarded q w
        taken (some r) h = inl (ap view h.0)
