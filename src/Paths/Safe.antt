-- ===== src/Paths/Safe.antt =====
-- Which file safePathUnderRoot of pkg/webserver/functions.go lets a request name.
use sitebrush_v.Prelude.{
  ◌≡◌, refl, sym, subst, Bool, true, false, ◌&&◌, ◌||◌, List, [], ◌∷◌, Option, none, some, arith,
  All, Bool-cases, Option-cases, inl, inr, if◌then◌else◌,
}
use sitebrush_v.Text.{Text, codes, is_empty, contains, has_prefix, trim_prefix}
use sitebrush_v.Paths.{
  AbsPath, path_ok, segments, absolute, join_under, join_index, relative_path, check_target,
  path_is_inside_root, path_unescape, safe_path_under_root, clean_from, ends_with_slash, is_root,
}
use sitebrush_v.Paths.Clean.{
  IsComponent, HasNoSlash, segments-HasNoSlash, clean_from-IsComponent, clean_from-All,
}
use sitebrush_v.Paths.Inside.{Inside, path_is_inside_root_iff}

-- An absolute path of file names.
absolute-IsComponent :
    (cwd : Option AbsPath) (s : Text) (path : AbsPath)
    → ((dir : AbsPath) → cwd ≡ some dir → All IsComponent dir)
    → absolute cwd s ≡ some path
    → All IsComponent path
unfolding absolute
absolute-IsComponent none s path h e =
    subst (All IsComponent) (ground arith)
      (clean_from-IsComponent [] (segments s) (segments-HasNoSlash s) tt)
absolute-IsComponent (some dir) s path h e = elim (Bool-cases (has_prefix (codes "/") s)) [
  | inl r ↦
      subst (All IsComponent) (ground arith)
        (clean_from-IsComponent [] (segments s) (segments-HasNoSlash s) tt)
  | inr r ↦
      subst (All IsComponent) (ground arith)
        (clean_from-IsComponent dir (segments s) (segments-HasNoSlash s) (h dir refl))
]

module _ (eval_symlinks : AbsPath → Option AbsPath) where
  -- When the system follows the links of both, the real target is under the real root.
  abbrev pub LinksInside : AbsPath → AbsPath → Type 0
  LinksInside root target =
      (real_root real_target : AbsPath)
      → eval_symlinks root ≡ some real_root
      → eval_symlinks target ≡ some real_target
      → path_is_inside_root real_root real_target ≡ true

  check_target_ok :
      (root target found : AbsPath)
      → check_target eval_symlinks root target ≡ path_ok found
      → (found ≡ target) × (path_is_inside_root root target ≡ true) × LinksInside root target
  unfolding check_target
  check_target_ok root target found h =
      (ground arith, ground arith, λ real_root real_target e e'. ground arith)

  pub check_target_passes :
      (root target : AbsPath)
      → path_is_inside_root root target ≡ true
      → LinksInside root target
      → check_target eval_symlinks root target ≡ path_ok target
  unfolding check_target
  check_target_passes root target h links = elim (Option-cases (eval_symlinks root)) [
    | inl e ↦ ground (arith, h, e)
    | inr (real_root, e) ↦ elim (Option-cases (eval_symlinks target)) [
      | inl f ↦ ground (arith, h, e, f)
      | inr (real_target, f) ↦ ground (arith, h, e, f, links real_root real_target e f)
    ]
  ]

up-HasNoSlash : HasNoSlash (codes "..")
unfolding contains
up-HasNoSlash = refl

join_index-HasNoSlash :
    (path : List Text) (index_file : Text)
    → All HasNoSlash path
    → All HasNoSlash (join_index path index_file)
unfolding join_index
join_index-HasNoSlash [] index_file h =
    clean_from-All HasNoSlash up-HasNoSlash (has_prefix (codes "/") index_file) []
      (segments index_file) (segments-HasNoSlash index_file) tt
join_index-HasNoSlash (c ∷ cs) index_file h =
    clean_from-All HasNoSlash up-HasNoSlash false (c ∷ cs) (segments index_file)
      (segments-HasNoSlash index_file) h

relative_path-HasNoSlash :
    (unescaped index_file : Text) (append_index : Bool)
    → All HasNoSlash (relative_path unescaped index_file append_index)
unfolding relative_path
relative_path-HasNoSlash unescaped index_file append_index =
    let path = clean_from true [] (segments (trim_prefix (codes "/") unescaped)) in
    let h =
      clean_from-All HasNoSlash up-HasNoSlash true [] (segments (trim_prefix (codes "/") unescaped))
        (segments-HasNoSlash (trim_prefix (codes "/") unescaped)) tt in
    elim (Bool-cases (append_index && (is_root path || ends_with_slash unescaped))) [
      | inl e ↦ rw e (join_index-HasNoSlash path index_file h)
      | inr e ↦ rw e h
    ]

module _ (cwd : Option AbsPath) (eval_symlinks : AbsPath → Option AbsPath)
    (components : (dir : AbsPath) → cwd ≡ some dir → All IsComponent dir) where
  -- What a path that was let through comes from.
  safe_path_parts :
      (root request_path index_file : Text) (append_index : Bool) (target : AbsPath)
      → safe_path_under_root cwd eval_symlinks root request_path index_file append_index
        ≡ path_ok target
      → (root_path : AbsPath) × (unescaped : Text) × (absolute cwd root ≡ some root_path)
        × (check_target eval_symlinks root_path
              (join_under root_path (relative_path unescaped index_file append_index))
            ≡ path_ok target)
  unfolding safe_path_under_root
  safe_path_parts root request_path index_file append_index target h =
      elim (Option-cases
        (path_unescape (if is_empty request_path then codes "/" else request_path))) [
          | inl e ↦ absurd (ground arith)
          | inr (unescaped, e) ↦ elim (Option-cases (absolute cwd root)) [
            | inl e' ↦ absurd (ground arith)
            | inr (root_path, e') ↦ (root_path, unescaped, e', ground arith)
          ]
        ]

  -- A file that a request names, for every working directory, links, index file and request: it is the root
  -- or lies under it, every component of its path is the name of a file, and if the system follows the links
  -- of both, the real file is under the real root.
  pub safe_path_under_root-Inside :
      (root request_path index_file : Text) (append_index : Bool) (target : AbsPath)
      → safe_path_under_root cwd eval_symlinks root request_path index_file append_index
        ≡ path_ok target
      → (root_path : AbsPath) × (absolute cwd root ≡ some root_path)
        × Inside root_path target
        × All IsComponent target
        × LinksInside eval_symlinks root_path target
  unfolding join_under clean_from
  safe_path_under_root-Inside root request_path index_file append_index target h =
      let (root_path, unescaped, e, k) =
        safe_path_parts root request_path index_file append_index target h in
      let path = join_under root_path (relative_path unescaped index_file append_index) in
      let (same, inside, links) = check_target_ok eval_symlinks root_path path target k in
      let names : All IsComponent path =
        clean_from-IsComponent root_path (relative_path unescaped index_file append_index)
          (relative_path-HasNoSlash unescaped index_file append_index)
          (absolute-IsComponent cwd root root_path components e) in
      (
        root_path,
        e,
        subst (Inside root_path) (sym same)
            ((path_is_inside_root_iff root_path path names).0 inside),
        subst (All IsComponent) (sym same) names,
        subst (LinksInside eval_symlinks root_path) (sym same) links,
      )
