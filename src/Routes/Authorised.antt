-- ===== src/Routes/Authorised.antt =====
-- What the handlers of pkg/webserver that need a session can change.
use sitebrush_v.Prelude.{
  ◌≡◌, ◌⊎◌, refl, subst, inl, inr, Bool, true, false, not, ◌||◌, some, if◌then◌else◌, arith,
  Bool-cases, Option-cases,
}
use sitebrush_v.Text.{Text, text_eq, is_empty}
use sitebrush_v.Paths.{AbsPath}
use sitebrush_v.Sessions.{OperatorSession, get, valid_csrf}
use sitebrush_v.Routes.Interface.{
  Method, get_method, head_method, post_method, other_method, Request, Site, Surroundings, World,
  Response, status,
}
use sitebrush_v.Routes.Handlers.{
  show, show_form, post_edit, post_revision, post_subpage, post_properties, post_freeze,
  post_backup, post_profile, post_logout, post_not_implemented, post_grab, token_is_valid,
  require_auth, on_post, answer_form, get_or_post, answer_post, post_only, accept_upload,
  answer_upload, edit, revisions, subpages, properties, set_freeze, backup, profile, logout,
  not_implemented_mutation, grab, upload,
}

module _ {S : Type 0} (o : Site S) (d : Surroundings) {V : Type 0} (view : S → V) where
  -- A POST with a session that is in the store and has not ended, and with the token of that session.
  abbrev pub Authorised : Request → World S → Type 0
  Authorised q w =
      (session : OperatorSession) × ((get d.hash_token d.now w.sessions q.cookie).1 ≡ some session)
      × (q.method ≡ post_method)
      × (token_is_valid o d q session ≡ true)

  -- What a request may change without one, which the view leaves out: signing in and making the first admin change the
  -- users, and a lookup makes directories and tables.
  pub record KeepsView : Type 0 where
    pub signing_in :
        (email password : Text) (site : S) → view (o.authenticate email password site).0 ≡ view site
    pub first_admin :
        (email password : Text) (site : S)
        → view (o.create_first_admin email password site).0 ≡ view site
    pub readiness : (site : S) → view (o.check_readiness site).0 ≡ view site
    pub redirects : (uri : Text) (site : S) → view (o.find_redirect uri site).0 ≡ view site
    pub pages : (name : AbsPath) (site : S) → view (o.load_page name site).0 ≡ view site
    pub revision_lists :
        (name : AbsPath) (site : S) → view (o.list_revisions name site).0 ≡ view site
    pub subpage_lists : (name : AbsPath) (site : S) → view (o.list_subpages name site).0 ≡ view site
    pub properties_of :
        (name : AbsPath) (site : S) → view (o.load_properties name site).0 ≡ view site

  abbrev pub Guarded : Request → World S → World S × Response → Type 0
  Guarded q w r = (view r.0.site ≡ view w.site) ⊎ Authorised q w

  pub Method-cases :
      (m : Method)
      → (m ≡ post_method) ⊎ ((m ≡ get_method) ⊎ ((m ≡ head_method) ⊎ (m ≡ other_method)))
  Method-cases post_method = inl refl
  Method-cases get_method = inr (inl refl)
  Method-cases head_method = inr (inr (inl refl))
  Method-cases other_method = inr (inr (inr refl))

  -- The world as get leaves it has the same site.
  abbrev known : Request → World S → World S
  known q w = record w { sessions = (get d.hash_token d.now w.sessions q.cookie).0 }

  require_auth-Guarded :
      (q : Request) (w : World S) (continue : OperatorSession → World S → World S × Response)
      → ((session : OperatorSession)
          → (get d.hash_token d.now w.sessions q.cookie).1 ≡ some session
          → Guarded q w (continue session (known q w)))
      → Guarded q w (require_auth o d q w continue)
  unfolding require_auth
  require_auth-Guarded q w continue h =
      elim (Option-cases (get d.hash_token d.now w.sessions q.cookie).1) [
        | inl e ↦ inl (ground (arith, e))
        | inr (session, e) ↦
            subst (Guarded q w) {x = continue session (known q w)}
              {y = require_auth o d q w continue} (ground (arith, e)) (h session e)
      ]

  on_post-Guarded :
      (q : Request) (w : World S) (session : OperatorSession) (act : World S → World S × Response)
      → (get d.hash_token d.now w.sessions q.cookie).1 ≡ some session
      → q.method ≡ post_method
      → Guarded q w (on_post o d q session (known q w) act)
  unfolding on_post
  on_post-Guarded q w session act e m = elim (Bool-cases (token_is_valid o d q session)) [
    | inl t ↦ inr (session, e, m, t)
    | inr t ↦ inl (ground (arith, t))
  ]

  answer_form-Guarded :
      (q : Request) (w : World S) (shown : World S → World S × Response)
      (act : OperatorSession → World S → World S × Response) (session : OperatorSession)
      → (get d.hash_token d.now w.sessions q.cookie).1 ≡ some session
      → ((u : World S) → view (shown u).0.site ≡ view u.site)
      → Guarded q w (answer_form o d q shown act session (known q w))
  unfolding answer_form
  answer_form-Guarded q w shown act session e kept = by q.method refl
    where
      by :
          (m : Method)
          → q.method ≡ m
          → Guarded q w (elim m [
            | get_method ↦ shown (known q w)
            | post_method ↦ on_post o d q session (known q w) (act session)
            | head_method ↦ (known q w, status 405)
            | other_method ↦ (known q w, status 405)
          ])
      by get_method m = inl (kept (known q w))
      by post_method m = on_post-Guarded q w session (act session) e m
      by head_method m = inl refl
      by other_method m = inl refl

  get_or_post-Guarded :
      (q : Request) (w : World S) (shown : World S → World S × Response)
      (act : OperatorSession → World S → World S × Response)
      → ((u : World S) → view (shown u).0.site ≡ view u.site)
      → Guarded q w (get_or_post o d q w shown act)
  unfolding get_or_post
  get_or_post-Guarded q w shown act kept =
      require_auth-Guarded q w (answer_form o d q shown act)
        (λ session e. answer_form-Guarded q w shown act session e kept)

  answer_post-Guarded :
      (q : Request) (w : World S) (act : OperatorSession → World S → World S × Response)
      (session : OperatorSession)
      → (get d.hash_token d.now w.sessions q.cookie).1 ≡ some session
      → Guarded q w (answer_post o d q act session (known q w))
  unfolding answer_post
  answer_post-Guarded q w act session e = by q.method refl
    where
      by :
          (m : Method)
          → q.method ≡ m
          → Guarded q w (elim m [
            | post_method ↦ on_post o d q session (known q w) (act session)
            | get_method ↦ (known q w, status 405)
            | head_method ↦ (known q w, status 405)
            | other_method ↦ (known q w, status 405)
          ])
      by get_method m = inl refl
      by post_method m = on_post-Guarded q w session (act session) e m
      by head_method m = inl refl
      by other_method m = inl refl

  post_only-Guarded :
      (q : Request) (w : World S) (act : OperatorSession → World S → World S × Response)
      → Guarded q w (post_only o d q w act)
  unfolding post_only
  post_only-Guarded q w act =
      require_auth-Guarded q w (answer_post o d q act) (answer_post-Guarded q w act)

  accept_upload-Guarded :
      (q : Request) (w : World S) (session : OperatorSession)
      → (get d.hash_token d.now w.sessions q.cookie).1 ≡ some session
      → q.method ≡ post_method
      → Guarded q w (accept_upload o d q session (known q w))
  unfolding accept_upload valid_csrf
  accept_upload-Guarded q w session e m =
      elim (Bool-cases (is_empty q.csrf_header || not (text_eq q.csrf_header session.csrf_token))) [
        | inl t ↦ inl (ground (arith, t))
        | inr t ↦ inr (session, e, m, ground (arith, t))
      ]

  pub upload-Guarded : (q : Request) (w : World S) → Guarded q w (upload o d q w)
  unfolding upload answer_upload
  upload-Guarded q w =
      require_auth-Guarded q w (answer_upload o d q) (λ session e. by session e q.method refl)
    where
      by :
          (session : OperatorSession)
          → (get d.hash_token d.now w.sessions q.cookie).1 ≡ some session
          → (m : Method) → q.method ≡ m
          → Guarded q w (elim m [
            | post_method ↦ accept_upload o d q session (known q w)
            | get_method ↦ (known q w, status 405)
            | head_method ↦ (known q w, status 405)
            | other_method ↦ (known q w, status 405)
          ])
      by session e get_method m = inl refl
      by session e post_method m = accept_upload-Guarded q w session e m
      by session e head_method m = inl refl
      by session e other_method m = inl refl

  pub edit-Guarded :
      KeepsView → (q : Request) (name : AbsPath) (w : World S) → Guarded q w (edit o d q name w)
  unfolding edit
  edit-Guarded keeps q name w =
      get_or_post-Guarded q w (show o d (o.load_page name)) (post_edit o d q name)
        (λ u. keeps.pages name u.site)

  pub revisions-Guarded :
      KeepsView
      → (q : Request) (name : AbsPath) (w : World S) → Guarded q w (revisions o d q name w)
  unfolding revisions
  revisions-Guarded keeps q name w =
      get_or_post-Guarded q w (show o d (o.list_revisions name)) (post_revision o d q name)
        (λ u. keeps.revision_lists name u.site)

  pub subpages-Guarded :
      KeepsView → (q : Request) (name : AbsPath) (w : World S) → Guarded q w (subpages o d q name w)
  unfolding subpages
  subpages-Guarded keeps q name w =
      get_or_post-Guarded q w (show o d (o.list_subpages name)) (post_subpage o d q name)
        (λ u. keeps.subpage_lists name u.site)

  pub properties-Guarded :
      KeepsView
      → (q : Request) (name : AbsPath) (w : World S) → Guarded q w (properties o d q name w)
  unfolding properties
  properties-Guarded keeps q name w =
      get_or_post-Guarded q w (show o d (o.load_properties name)) (post_properties o d q name)
        (λ u. keeps.properties_of name u.site)

  pub set_freeze-Guarded :
      (frozen : Bool) (q : Request) (w : World S) → Guarded q w (set_freeze o d frozen q w)
  unfolding set_freeze
  set_freeze-Guarded frozen q w = post_only-Guarded q w (post_freeze o d frozen q)

  pub backup-Guarded : (q : Request) (w : World S) → Guarded q w (backup o d q w)
  unfolding backup
  backup-Guarded q w = post_only-Guarded q w (post_backup o d q)

  pub profile-Guarded : (q : Request) (w : World S) → Guarded q w (profile o d q w)
  unfolding profile
  profile-Guarded q w = get_or_post-Guarded q w (show_form o d) (post_profile o d q) (λ u. refl)

  pub logout-Guarded : (q : Request) (w : World S) → Guarded q w (logout o d q w)
  unfolding logout
  logout-Guarded q w = get_or_post-Guarded q w (show_form o d) (post_logout o d q) (λ u. refl)

  pub grab-Guarded : (q : Request) (name : AbsPath) (w : World S) → Guarded q w (grab o d q name w)
  unfolding grab
  grab-Guarded q name w = get_or_post-Guarded q w (show_form o d) (post_grab o d q name) (λ u. refl)

  pub not_implemented_mutation-Guarded :
      (q : Request) (w : World S) → Guarded q w (not_implemented_mutation o d q w)
  unfolding not_implemented_mutation
  not_implemented_mutation-Guarded q w = post_only-Guarded q w (post_not_implemented o d q)

  pub either :
      (q : Request) (w : World S) (b : Bool) (r s : World S × Response)
      → Guarded q w r
      → Guarded q w s
      → Guarded q w (if b then r else s)
  either q w true r s h k = h
  either q w false r s h k = k
