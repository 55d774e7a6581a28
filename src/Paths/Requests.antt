-- ===== src/Paths/Requests.antt =====
-- canonicalRequestURIForFile and safePathUnderRoot of pkg/webserver/functions.go undo each other.
use sitebrush_v.Prelude.{
  ℕ, ◌≡◌, ◌≢◌, ◌⊎◌, refl, sym, ap, ap₂, subst, ◌∙◌, Bool, true, false, ◌&&◌, ◌||◌, List, [], ◌∷◌,
  ◌++◌, append_assoc, Option, none, some, arith, All, All-append, All-imp, Bool-cases, inl, inr,
  if◌then◌else◌,
}
use sitebrush_v.Text.{
  Text, codes, text_eq, text_eq_self, contains, has_prefix, trim_prefix, strip_prefix,
  text_eq_sound, contains-append, split_on, split_on-append,
}
use sitebrush_v.Paths.{
  AbsPath, path_ok, segments, segments_safe, absolute, join_under, join_index, relative_path,
  check_target, path_is_inside_root, safe_path_under_root, clean_from, ends_with_slash, is_root,
  join_slash, canonical_request_uri_for_file, request_uri, last_of, drop_last, rel_text, enter,
}
use sitebrush_v.Paths.Clean.{
  IsComponent, HasNoSlash, clean_from_components, segments-join_slash, last_of_cons, drop_last-All,
}
use sitebrush_v.Paths.Inside.{path_is_inside_root_iff, rel-append}
use sitebrush_v.Paths.Safe.{LinksInside, check_target_passes}
use sitebrush_v.Paths.Joined.{
  IsPlain, unescape_plain, contains-join_slash, segments_safe_plain, segments_safe-append,
  ends_with_slash-append, ends_with_slash-join_slash, trim_both-join_slash, trim_prefix-join_slash,
  join_slash-head,
}

plain-components : (cs : List Text) → All IsPlain cs → All IsComponent cs
plain-components = All-imp (λ c h. h.component)

no_slashes : (cs : List Text) → All IsComponent cs → All HasNoSlash cs
no_slashes = All-imp (λ c h. h.no_slash)

-- The path from the root, without the name of the index file at its end.
abbrev served : Text → List Text → Text
served index_file cs = elim (last_of cs) [
  | none ↦ []
  | some base ↦
      if text_eq base index_file
      then (if is_root (drop_last cs) then [] else join_slash (drop_last cs) ++ b'/' ∷ [])
      else join_slash cs
]

has_slash : (c d : Text) (cs : List Text) → contains b'/' (join_slash (c ∷ d ∷ cs)) ≡ true
unfolding contains join_slash
has_slash c d cs = ground (arith, contains-append b'/' c (b'/' ∷ join_slash (d ∷ cs)))

only_index :
    (index_file c d : Text) (cs : List Text)
    → contains b'/' index_file ≡ false
    → text_eq (join_slash (c ∷ d ∷ cs)) index_file ≡ false
unfolding join_slash
only_index index_file c d cs h = elim (Bool-cases (text_eq (join_slash (c ∷ d ∷ cs)) index_file)) [
  | inr e ↦ e
  | inl e ↦ absurd (
      ground (
        arith,
        h,
        ap (contains b'/') (text_eq_sound (join_slash (c ∷ d ∷ cs)) index_file e),
        has_slash c d cs,
      ))
]

request_uri_served :
    (index_file c : Text) (cs : List Text)
    → contains b'/' index_file ≡ false
    → All IsComponent (c ∷ cs)
    → request_uri index_file (c ∷ cs) ≡ b'/' ∷ served index_file (c ∷ cs)
unfolding request_uri last_of drop_last rel_text
request_uri_served index_file c [] n h = ground (arith, trim_prefix-join_slash c [] h.0)
request_uri_served index_file c (d ∷ cs) n h =
    let (l, e) = last_of_cons d cs in
    ground (
      arith,
      e,
      only_index index_file c d cs n,
      trim_prefix-join_slash c (d ∷ cs) h.0,
      trim_both-join_slash (drop_last (c ∷ d ∷ cs)) (drop_last-All IsComponent (c ∷ d ∷ cs) h),
    )

module _ (cwd : Option AbsPath) (eval_symlinks : AbsPath → Option AbsPath) (root : Text)
    (root_path : AbsPath) (found : absolute cwd root ≡ some root_path) (index_file : Text) where
  -- A request path that is spelled as it is goes straight to the last tests.
  request_plain :
      (c : ℕ) (t : Text)
      → contains b'%' (c ∷ t) ≡ false
      → contains b'\\' (c ∷ t) ≡ false
      → has_prefix (codes "//") (c ∷ t) ≡ false
      → segments_safe (segments (c ∷ t)) ≡ true
      → safe_path_under_root cwd eval_symlinks root (c ∷ t) index_file true
        ≡ check_target eval_symlinks root_path
            (join_under root_path (relative_path (c ∷ t) index_file true))
  unfolding safe_path_under_root
  request_plain c t p b d s = ground (arith, unescape_plain (c ∷ t) p, p, b, d, s, found)

segments-slash : (s : Text) → segments (b'/' ∷ s) ≡ [] ∷ segments s
unfolding segments split_on
segments-slash s = refl

segments-join_slash-end :
    (c : Text) (cs : List Text)
    → All IsComponent (c ∷ cs)
    → segments (join_slash (c ∷ cs) ++ b'/' ∷ []) ≡ (c ∷ cs) ++ [] ∷ []
unfolding segments split_on join_slash
segments-join_slash-end c [] h = ground (arith, split_on-append b'/' c [] (h.0).no_slash)
segments-join_slash-end c (d ∷ cs) h = ground (
  arith,
  append_assoc c (b'/' ∷ join_slash (d ∷ cs)) (b'/' ∷ []),
  split_on-append b'/' c (join_slash (d ∷ cs) ++ b'/' ∷ []) (h.0).no_slash,
  segments-join_slash-end d cs h.1,
)

clean_from-append :
    (rooted : Bool) (done ss ts : List Text)
    → clean_from rooted done (ss ++ ts) ≡ clean_from rooted (clean_from rooted done ss) ts
unfolding clean_from
clean_from-append rooted done [] ts = refl
clean_from-append rooted done (s ∷ ss) ts = clean_from-append rooted (enter rooted done s) ss ts

clean_from-end :
    (rooted : Bool) (done cs : List Text)
    → All IsComponent cs
    → clean_from rooted done (cs ++ [] ∷ []) ≡ done ++ cs
unfolding clean_from enter
clean_from-end rooted done cs h =
    clean_from-append rooted done cs ([] ∷ []) ∙ clean_from_components rooted done cs h

module _ (index_file : Text) (index : IsComponent index_file) where
  join_index_component : (cs : List Text) → join_index cs index_file ≡ cs ++ index_file ∷ []
  unfolding join_index segments join_slash
  join_index_component [] =
      ap (clean_from (has_prefix (codes "/") index_file) [])
        (segments-join_slash index_file [] (index.no_slash, tt))
      ∙ clean_from_components (has_prefix (codes "/") index_file) [] (index_file ∷ []) (index, tt)
  join_index_component (c ∷ cs) =
      ap (clean_from false (c ∷ cs)) (segments-join_slash index_file [] (index.no_slash, tt))
      ∙ clean_from_components false (c ∷ cs) (index_file ∷ []) (index, tt)

  -- The last step of relative_path.
  abbrev choose : List Text → Bool → List Text
  choose path ends = if is_root path || ends then join_index path index_file else path

  relative_path-choose :
      (u : Text)
      → relative_path (b'/' ∷ u) index_file true
        ≡ choose (clean_from true [] (segments u)) (ends_with_slash (b'/' ∷ u))
  unfolding relative_path trim_prefix strip_prefix
  relative_path-choose u = refl

  relative_file :
      (c : Text) (cs : List Text)
      → All IsComponent (c ∷ cs)
      → relative_path (b'/' ∷ join_slash (c ∷ cs)) index_file true ≡ c ∷ cs
  relative_file c cs h =
      let (x, t, e, n) = join_slash-head c cs h.0 in
      let path =
        ap (clean_from true []) (segments-join_slash c cs (no_slashes (c ∷ cs) h))
        ∙ clean_from_components true [] (c ∷ cs) h in
      let ends =
        ap (λ r. ends_with_slash (b'/' ∷ r)) e
        ∙ ends_with_slash-append (b'/' ∷ []) x t
        ∙ ap ends_with_slash (sym e)
        ∙ ends_with_slash-join_slash (c ∷ cs) h in
      relative_path-choose (join_slash (c ∷ cs)) ∙ ap₂ choose path ends

  relative_dir :
      (c : Text) (cs : List Text)
      → All IsComponent (c ∷ cs)
      → relative_path (b'/' ∷ (join_slash (c ∷ cs) ++ b'/' ∷ [])) index_file true
        ≡ (c ∷ cs) ++ index_file ∷ []
  unfolding ends_with_slash
  relative_dir c cs h =
      let path =
        ap (clean_from true []) (segments-join_slash-end c cs h)
        ∙ clean_from-end true [] (c ∷ cs) h in
      relative_path-choose (join_slash (c ∷ cs) ++ b'/' ∷ [])
      ∙ ap₂ choose path (ends_with_slash-append (b'/' ∷ join_slash (c ∷ cs)) b'/' [])
      ∙ join_index_component (c ∷ cs)

  relative_root : relative_path (codes "/") index_file true ≡ index_file ∷ []
  unfolding relative_path trim_prefix strip_prefix segments split_on clean_from enter
  relative_root = ground (arith, join_index_component [])

-- What a request path needs to go straight to the last tests.
record IsRequest (u : Text) : Type 0 where
  percent : contains b'%' (b'/' ∷ u) ≡ false
  backslash : contains b'\\' (b'/' ∷ u) ≡ false
  slashes : has_prefix (codes "//") (b'/' ∷ u) ≡ false
  safe : segments_safe (segments (b'/' ∷ u)) ≡ true

segments_safe-empty : (ss : List Text) → segments_safe ([] ∷ ss) ≡ segments_safe ss
unfolding segments_safe text_eq contains
segments_safe-empty ss = refl

IsRequest-file :
    (c : Text) (cs : List Text) → All IsPlain (c ∷ cs) → IsRequest (join_slash (c ∷ cs))
unfolding has_prefix strip_prefix contains
IsRequest-file c cs h =
    let names = plain-components (c ∷ cs) h in
    let (x, t, e, n) = join_slash-head c cs (names.0) in
    record {
      percent = contains-join_slash b'%' refl (c ∷ cs) (All-imp (λ c h. h.no_percent) (c ∷ cs) h);
      backslash =
          contains-join_slash b'\\' refl (c ∷ cs) (All-imp (λ c h. h.no_backslash) (c ∷ cs) h);
      slashes = rw e (ground (arith, n));
      safe =
          ap segments_safe (
            segments-slash (join_slash (c ∷ cs))
            ∙ ap (λ r. [] ∷ r) (segments-join_slash c cs (no_slashes (c ∷ cs) names)))
          ∙ segments_safe-empty (c ∷ cs)
          ∙ segments_safe_plain (c ∷ cs) h;
    }

IsRequest-dir :
    (c : Text) (cs : List Text)
    → All IsPlain (c ∷ cs)
    → IsRequest (join_slash (c ∷ cs) ++ b'/' ∷ [])
unfolding has_prefix strip_prefix contains
IsRequest-dir c cs h =
    let names = plain-components (c ∷ cs) h in
    let u = join_slash (c ∷ cs) in
    let (x, t, e, n) = join_slash-head c cs (names.0) in
    record {
      percent =
          contains-append b'%' u (b'/' ∷ [])
          ∙ ground (
            arith,
            contains-join_slash b'%' refl (c ∷ cs) (All-imp (λ c h. h.no_percent) (c ∷ cs) h),
          );
      backslash =
          contains-append b'\\' u (b'/' ∷ [])
          ∙ ground (
            arith,
            contains-join_slash b'\\' refl (c ∷ cs) (All-imp (λ c h. h.no_backslash) (c ∷ cs) h),
          );
      slashes = rw e (ground (arith, n));
      safe =
          ap segments_safe (
            segments-slash (u ++ b'/' ∷ []) ∙ ap (λ r. [] ∷ r) (segments-join_slash-end c cs names))
          ∙ segments_safe-empty ((c ∷ cs) ++ [] ∷ [])
          ∙ segments_safe-append (c ∷ cs) ([] ∷ [])
          ∙ ap₂ ◌&&◌ (segments_safe_plain (c ∷ cs) h)
              (segments_safe-empty [] ∙ segments_safe_plain [] tt);
    }

IsRequest-root : IsRequest []
unfolding has_prefix strip_prefix contains segments split_on segments_safe text_eq
IsRequest-root = record { percent = refl; backslash = refl; slashes = refl; safe = refl }

drop_last-snoc :
    (c : Text) (cs : List Text) (l : Text)
    → last_of (c ∷ cs) ≡ some l
    → c ∷ cs ≡ drop_last (c ∷ cs) ++ l ∷ []
unfolding last_of drop_last
drop_last-snoc c [] l e = ap (λ r. r ∷ []) (ground arith)
drop_last-snoc c (d ∷ cs) l e = ap (λ r. c ∷ r) (drop_last-snoc d cs l e)

-- The request path of a file: that of its directory, with a slash behind it, for an index file, else its own.
abbrev pub NamedBy : Text → Text → List Text → Type 0
NamedBy index_file uri path =
    ((last_of path ≡ some index_file)
      × (uri
          ≡ b'/'
            ∷ (if is_root (drop_last path) then [] else join_slash (drop_last path) ++ b'/' ∷ [])))
    ⊎ ((last_of path ≢ some index_file) × (uri ≡ b'/' ∷ join_slash path))

NamedBy-served :
    (index_file c : Text) (cs : List Text)
    → NamedBy index_file (b'/' ∷ served index_file (c ∷ cs)) (c ∷ cs)
NamedBy-served index_file c cs =
    let (l, e) = last_of_cons c cs in
    elim (Bool-cases (text_eq l index_file)) [
      | inl t ↦ inl (e ∙ ap some (text_eq_sound l index_file t), ground (arith, e, t))
      | inr t ↦ inr (λ h. absurd (ground (arith, e, h, t, text_eq_self l)), ground (arith, e, t))
    ]

module _ (index_file : Text) (index : IsPlain index_file) where
  -- A request path leads to a file.
  abbrev Serves : Text → List Text → Type 0
  Serves u path = IsRequest u × (relative_path (b'/' ∷ u) index_file true ≡ path)

  Serves-dir :
      (dir : List Text)
      → All IsPlain dir
      → Serves (if is_root dir then [] else join_slash dir ++ b'/' ∷ []) (dir ++ index_file ∷ [])
  Serves-dir [] h = (IsRequest-root, relative_root index_file index.component)
  Serves-dir (c ∷ cs) h = (
    IsRequest-dir c cs h,
    relative_dir index_file index.component c cs (plain-components (c ∷ cs) h),
  )

  Serves-served :
      (c : Text) (cs : List Text)
      → All IsPlain (c ∷ cs)
      → Serves (served index_file (c ∷ cs)) (c ∷ cs)
  Serves-served c cs h =
      let (l, e) = last_of_cons c cs in
      let dir = drop_last (c ∷ cs) in
      elim (Bool-cases (text_eq l index_file)) [
        | inl t ↦
            let whole = drop_last-snoc c cs l e in
            let spelled : (if is_root dir then [] else join_slash dir ++ b'/' ∷ [])
                ≡ served index_file (c ∷ cs) =
              ground (arith, e, t) in
            let here =
              subst (λ b. dir ++ b ∷ [] ≡ c ∷ cs) (text_eq_sound l index_file t) (sym whole) in
            subst (λ u. Serves u (c ∷ cs)) spelled
              (subst (Serves (if is_root dir then [] else join_slash dir ++ b'/' ∷ [])) here
                (Serves-dir dir (drop_last-All IsPlain (c ∷ cs) h)))
        | inr t ↦
            let spelled : join_slash (c ∷ cs) ≡ served index_file (c ∷ cs) = ground (arith, e, t) in
            subst (λ u. Serves u (c ∷ cs)) spelled
              (
                IsRequest-file c cs h,
                relative_file index_file index.component c cs (plain-components (c ∷ cs) h),
              )
      ]

  module _ (cwd : Option AbsPath) (eval_symlinks : AbsPath → Option AbsPath) (root : Text)
      (root_path : AbsPath) (found : absolute cwd root ≡ some root_path)
      (names : All IsComponent root_path) where
    -- A file under the root whose path has plain names, and no links that lead out of the root, has a request path,
    -- and that request path names the file again. It is the file's path from the root, but for an index file, which goes by
    -- its directory with a slash behind it, and by a slash alone in the root.
    pub safe_path_under_root-canonical_request_uri_for_file :
        (c : Text) (cs : List Text)
        → All IsPlain (c ∷ cs)
        → LinksInside eval_symlinks root_path (root_path ++ c ∷ cs)
        → (uri : Text) × (canonical_request_uri_for_file index_file root_path (root_path ++ c ∷ cs)
            ≡ some uri)
          × (safe_path_under_root cwd eval_symlinks root uri index_file true
              ≡ path_ok (root_path ++ c ∷ cs))
          × NamedBy index_file uri (c ∷ cs)
    unfolding canonical_request_uri_for_file join_under
    safe_path_under_root-canonical_request_uri_for_file c cs h links =
        let components = plain-components (c ∷ cs) h in
        let target = root_path ++ c ∷ cs in
        let inside : path_is_inside_root root_path target ≡ true =
          (path_is_inside_root_iff root_path target
              (All-append IsComponent root_path (c ∷ cs) names components)).1
            (c ∷ cs, refl) in
        let (request, leads) = Serves-served c cs h in
        let u = served index_file (c ∷ cs) in
        (
          b'/' ∷ u,
          ground (
            arith,
            inside,
            rel-append root_path (c ∷ cs),
            (index.component).named,
            request_uri_served index_file c cs (index.component).no_slash components,
          ),
          request_plain cwd eval_symlinks root root_path found index_file b'/' u request.percent
                request.backslash request.slashes request.safe
              ∙ ap (λ r. check_target eval_symlinks root_path (clean_from true root_path r)) leads
              ∙ ap (check_target eval_symlinks root_path)
                  (clean_from_components true root_path (c ∷ cs) components)
              ∙ check_target_passes eval_symlinks root_path target inside links,
          NamedBy-served index_file c cs,
        )
