-- ===== src/Routes/Redirects.antt =====
-- Where a visitor of a page is sent, by handle of pkg/webserver/functions.go.
use sitebrush_v.Prelude.{
  ◌≡◌, refl, subst, inl, inr, true, [], Option, none, some, arith, Bool-cases, Option-cases, ℕ,
}
use sitebrush_v.Text.{Text, codes, text_eq, is_empty}
use sitebrush_v.Paths.{AbsPath}
use sitebrush_v.Routes.Query.{parse_action}
use sitebrush_v.Routes.Targets.{
  IsInternal, valid_internal_redirect_target, valid_internal_redirect_target-IsInternal,
}
use sitebrush_v.Routes.Interface.{
  Request, Site, Surroundings, World, Response, redirect, status, file, get_method, post_method,
  head_method, other_method, Method,
}
use sitebrush_v.Routes.Legacy.{Stays, ShowsIf, legacy_static-ShowsIf}
use sitebrush_v.Routes.Handlers.{put_site}
use sitebrush_v.Routes.Dispatch.{
  legacy_static, answer_action, snapshot_file, send_to, answer_lookup, follow_redirect, show_page,
  dispatch, handle, health, readiness,
}

module _ {S : Type 0} (o : Site S) (d : Surroundings) where
  -- A response sends the browser nowhere but to a target on the site, for good.
  abbrev StaysHere : Response → Type 0
  StaysHere (file name) = Unit
  StaysHere (redirect n target) = (n ≡ 301) × IsInternal target
  StaysHere (status n) = Unit

  send_to-StaysHere : (target : Text) (w : World S) → StaysHere (send_to o d target w).1
  unfolding send_to
  send_to-StaysHere target w = elim (Bool-cases (valid_internal_redirect_target target)) [
    | inl e ↦
        subst StaysHere {x = redirect 301 target} {y = (send_to o d target w).1} (ground (arith, e))
          (refl, valid_internal_redirect_target-IsInternal target e)
    | inr e ↦ subst StaysHere {x = status 404} {y = (send_to o d target w).1} (ground (arith, e)) tt
  ]

  answer_lookup-StaysHere :
      (found : Option (Option Text)) (w : World S) → StaysHere (answer_lookup o d found w).1
  unfolding answer_lookup
  answer_lookup-StaysHere none w = tt
  answer_lookup-StaysHere (some none) w = tt
  answer_lookup-StaysHere (some (some target)) w = send_to-StaysHere target w

  follow_redirect-StaysHere :
      (name : AbsPath) (w : World S) → StaysHere (follow_redirect o d name w).1
  unfolding follow_redirect
  follow_redirect-StaysHere name w = elim (Option-cases (o.uri_of name)) [
    | inl e ↦
        subst StaysHere {x = status 403} {y = (follow_redirect o d name w).1} (ground (arith, e)) tt
    | inr (uri, e) ↦
        let (site, found) = o.find_redirect uri w.site in
        let after = put_site o d w site in
        subst StaysHere {x = (answer_lookup o d found after).1} {y = (follow_redirect o d name w).1}
          (ground (arith, e)) (answer_lookup-StaysHere found after)
  ]

  show_page-StaysHere :
      (q : Request) (name : AbsPath) (w : World S) → StaysHere (show_page o d q name w).1
  unfolding show_page
  show_page-StaysHere q name w =
      let known = (snapshot_file o d q w).0 in
      let shown : AbsPath = elim (snapshot_file o d q w).1 [ none ↦ name | some p ↦ p ] in
      elim (Bool-cases (o.is_file known.site shown)) [
        | inl e ↦
            subst StaysHere {x = file shown} {y = (show_page o d q name w).1} (ground (arith, e)) tt
        | inr e ↦
            subst StaysHere {x = (follow_redirect o d name known).1}
              {y = (show_page o d q name w).1} (ground (arith, e))
              (follow_redirect-StaysHere name known)
      ]

  health-StaysHere : (q : Request) (w : World S) → StaysHere (health o d q w).1
  unfolding health
  health-StaysHere q w = by q.method
    where
      by :
          (m : Method)
          → StaysHere
              (elim m as (λ _. World S × Response) [
                | get_method ↦ readiness o d w
                | head_method ↦ readiness o d w
                | post_method ↦ (w, status 405)
                | other_method ↦ (w, status 405)
              ]).1
      by get_method = tt
      by head_method = tt
      by post_method = tt
      by other_method = tt

  dispatch-page :
      (q : Request) (name : AbsPath) (w : World S)
      → dispatch o d [] q name w ≡ show_page o d q name w
  unfolding dispatch
  dispatch-page q name w = refl

  plain_query : (q : Request) → is_empty q.raw_query ≡ true → parse_action q.raw_query ≡ some []
  unfolding parse_action
  plain_query q e = ground (arith, e)

  answer_action-StaysHere :
      (q : Request) (w : World S)
      → is_empty q.raw_query ≡ true
      → StaysHere (answer_action o d q w).1
  unfolding answer_action
  answer_action-StaysHere q w e = elim (Option-cases (o.file_of q.path)) [
    | inl g ↦
        subst StaysHere {x = status 403} {y = (answer_action o d q w).1} (ground (arith, g)) tt
    | inr (name, g) ↦
        subst StaysHere {x = (show_page o d q name w).1} {y = (answer_action o d q w).1}
          (ground (arith, g, plain_query q e, dispatch-page q name w))
          (show_page-StaysHere q name w)
  ]

  Stays-StaysHere : (r : Response) → Stays r → StaysHere r
  Stays-StaysHere (file name) h = tt
  Stays-StaysHere (status n) h = tt
  Stays-StaysHere (redirect n target) h = absurd h

  -- A request for a page sends the browser nowhere, or, with status 301, to a target on the site itself, whatever
  -- redirects are stored.
  pub handle-IsInternal :
      (q : Request) (w : World S) (n : ℕ) (target : Text)
      → is_empty q.raw_query ≡ true
      → (handle o d q w).1 ≡ redirect n target
      → (n ≡ 301) × IsInternal target
  unfolding handle
  handle-IsInternal q w n target e h = subst StaysHere h stays
    where
      stays : StaysHere (handle o d q w).1
      stays = elim (Bool-cases (text_eq q.path (codes "/sitebrush-healthz"))) [
        | inl f ↦
            subst StaysHere {x = (health o d q w).1} {y = (handle o d q w).1} (ground (arith, f))
              (health-StaysHere q w)
        | inr f ↦ elim (Option-cases (legacy_static o d q w)) [
          | inl g ↦
              subst StaysHere {x = (answer_action o d q w).1} {y = (handle o d q w).1}
                (ground (arith, f, g)) (answer_action-StaysHere q w e)
          | inr (r, g) ↦
              let shows = subst (ShowsIf o d w) g (legacy_static-ShowsIf o d q w) in
              subst StaysHere {x = r.1} {y = (handle o d q w).1} (ground (arith, f, g))
                (Stays-StaysHere r.1 shows.1)
        ]
      ]
