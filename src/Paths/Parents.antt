-- ===== src/Paths/Parents.antt =====
-- The loop of validateExistingParentSymlinkSafe in pkg/webserver/functions.go: it ends, at the lowest
-- directory above the file that is there.
use sitebrush_v.Prelude.{
  ℕ, zero, suc, ◌<◌, ◌≡◌, ◌⊎◌, refl, sym, ap, subst, ◌∙◌, true, List, [], ◌∷◌, ◌++◌, Option, none,
  some, arith, inl, inr, length, length-append, append_assoc, append-nil, Option-cases,
}
use sitebrush_v.Text.{Text}
use sitebrush_v.Paths.{
  AbsPath, drop_last, Stat, exists, missing, unreadable, ParentResult, parent_is, parent_err,
  out_of_fuel, existing_parent, check_parent, validate_existing_parent_symlink_safe,
  safe_writable_static_file_path, safe_path_under_root, absolute, PathResult, PathError, path_ok,
  path_err, path_is_inside_root,
}

length-drop_last : (c : Text) (cs : List Text) → suc (length (drop_last (c ∷ cs))) ≡ length (c ∷ cs)
unfolding drop_last
length-drop_last c [] = refl
length-drop_last c (d ∷ cs) = ap suc (length-drop_last d cs)

drop_last-append : (path : AbsPath) → (l : List Text) × (path ≡ drop_last path ++ l)
unfolding drop_last
drop_last-append [] = ([], refl)
drop_last-append (c ∷ []) = (c ∷ [], refl)
drop_last-append (c ∷ d ∷ cs) = let (l, e) = drop_last-append (d ∷ cs) in (l, ap (λ r. c ∷ r) e)

module _ (lstat : AbsPath → Stat) where
  Stat-cases :
      (path : AbsPath)
      → (lstat path ≡ exists) ⊎ ((lstat path ≡ missing) ⊎ (lstat path ≡ unreadable))
  Stat-cases path = go (lstat path)
    where
      go : (s : Stat) → (s ≡ exists) ⊎ ((s ≡ missing) ⊎ (s ≡ unreadable))
      go exists = inl refl
      go missing = inr (inl refl)
      go unreadable = inr (inr refl)

  -- Every path from below `top` down to `path` is missing.
  abbrev pub MissingBelow : AbsPath → AbsPath → Type 0
  MissingBelow top path =
      (between : AbsPath) (rest : List Text)
      → path ≡ between ++ rest
      → length top < length between
      → lstat between ≡ missing

  -- Why the walk up stops without a directory: a path that cannot be read, or the root of the file system is missing.
  abbrev pub NoWayUp : AbsPath → Type 0
  NoWayUp stuck = (lstat stuck ≡ unreadable) ⊎ ((stuck ≡ []) × (lstat stuck ≡ missing))

  -- The nearest directory at or above a path that is there, or the path above it where the walk up stops. All that is
  -- between is missing.
  abbrev pub Nearest : AbsPath → ParentResult → Type 0
  Nearest path (parent_is parent) =
      (lstat parent ≡ exists)
      × ((below : List Text) × (path ≡ parent ++ below) × MissingBelow parent path)
  Nearest path parent_err =
      (stuck : AbsPath) × (NoWayUp stuck
        × ((below : List Text) × (path ≡ stuck ++ below) × MissingBelow stuck path))
  Nearest path out_of_fuel = ⊥

  drop_last-prefix :
      (between : AbsPath) (c : Text) (rest : List Text)
      → drop_last (between ++ c ∷ rest) ≡ between ++ drop_last (c ∷ rest)
  unfolding drop_last
  drop_last-prefix [] c rest = refl
  drop_last-prefix (b ∷ []) c rest = refl
  drop_last-prefix (b ∷ d ∷ between) c rest =
      ap (λ r. b ∷ r) (drop_last-prefix (d ∷ between) c rest)

  MissingBelow-up :
      (top path : AbsPath)
      → lstat path ≡ missing
      → MissingBelow top (drop_last path)
      → MissingBelow top path
  MissingBelow-up top path gone h between [] q lt =
      subst (λ b. lstat b ≡ missing) (q ∙ append-nil between) gone
  MissingBelow-up top path gone h between (c ∷ rest) q lt =
      h between (drop_last (c ∷ rest)) (ap drop_last q ∙ drop_last-prefix between c rest) lt

  -- What is nearest to the directory of a missing path is nearest to the path.
  Nearest-missing :
      (path : AbsPath) (r : ParentResult)
      → lstat path ≡ missing
      → Nearest (drop_last path) r
      → Nearest path r
  Nearest-missing path (parent_is parent) gone (there, (below, e, between_missing)) =
      let (l, p) = drop_last-append path in
      (
        there,
        (
          below ++ l,
          p ∙ ap (λ r. r ++ l) e ∙ append_assoc parent below l,
          MissingBelow-up parent path gone between_missing,
        ),
      )
  Nearest-missing path parent_err gone (stuck, (why, (below, e, between_missing))) =
      let (l, p) = drop_last-append path in
      (
        stuck,
        (
          why,
          (
            below ++ l,
            p ∙ ap (λ r. r ++ l) e ∙ append_assoc stuck below l,
            MissingBelow-up stuck path gone between_missing,
          ),
        ),
      )
  Nearest-missing path out_of_fuel gone h = h

  nothing_below : (path : AbsPath) → MissingBelow path path
  nothing_below path between rest p lt = absurd (longer between rest p lt)
    where
      longer :
          (between : AbsPath) (rest : List Text)
          → path ≡ between ++ rest
          → length path < length between
          → ⊥
      longer between rest p lt = omega (arith, ap length p, length-append between rest)

  here_exists : (path : AbsPath) → lstat path ≡ exists → Nearest path (parent_is path)
  here_exists path e = (e, ([], sym (append-nil path), nothing_below path))

  here_stuck : (path : AbsPath) → NoWayUp path → Nearest path parent_err
  here_stuck path n = (path, (n, ([], sym (append-nil path), nothing_below path)))

  -- The loop ends, for every system and path, with more rounds than the path has components: it finds the longest
  -- path at or above that is there, or it stops with an error at the first that cannot be read, or at a root of the file
  -- system that is missing; every path between that and the given one is missing, and the given one too unless it is that.
  pub existing_parent-Nearest :
      (fuel : ℕ) (path : AbsPath)
      → length path < fuel
      → Nearest path (existing_parent lstat fuel path)
  unfolding existing_parent
  existing_parent-Nearest zero path h = absurd (omega arith)
  existing_parent-Nearest (suc fuel) [] h = elim (Stat-cases []) [
    | inl e ↦ subst (Nearest []) {x = parent_is []} (ground (arith, e)) (here_exists [] e)
    | inr (inl e) ↦
        subst (Nearest []) {x = parent_err} (ground (arith, e)) (here_stuck [] (inr (refl, e)))
    | inr (inr e) ↦ subst (Nearest []) {x = parent_err} (ground (arith, e)) (here_stuck [] (inl e))
  ]
  existing_parent-Nearest (suc fuel) (c ∷ path) h = elim (Stat-cases (c ∷ path)) [
    | inl e ↦
        subst (Nearest (c ∷ path)) {x = parent_is (c ∷ path)} (ground (arith, e))
          (here_exists (c ∷ path) e)
    | inr (inl e) ↦
        subst (Nearest (c ∷ path)) {x = existing_parent lstat fuel (drop_last (c ∷ path))}
          (ground (arith, e))
          (Nearest-missing (c ∷ path) (existing_parent lstat fuel (drop_last (c ∷ path))) e (
            existing_parent-Nearest fuel (drop_last (c ∷ path))
              (omega (arith, length-drop_last c path))))
    | inr (inr e) ↦
        subst (Nearest (c ∷ path)) {x = parent_err} (ground (arith, e))
          (here_stuck (c ∷ path) (inl e))
  ]

module _ (lstat : AbsPath → Stat) (eval_symlinks : AbsPath → Option AbsPath) where
  -- The directory that a new file would be made in is really under the root.
  abbrev pub ParentInside : AbsPath → AbsPath → Type 0
  ParentInside root target =
      (parent real_root real_parent : AbsPath) × Nearest lstat (drop_last target) (parent_is parent)
      × (eval_symlinks root ≡ some real_root)
      × (eval_symlinks parent ≡ some real_parent)
      × (path_is_inside_root real_root real_parent ≡ true)

  check_parent_passed :
      (real_root : AbsPath) (r : ParentResult)
      → check_parent eval_symlinks real_root r ≡ none
      → (parent real_parent : AbsPath) × (r ≡ parent_is parent)
        × (eval_symlinks parent ≡ some real_parent)
        × (path_is_inside_root real_root real_parent ≡ true)
  unfolding check_parent
  check_parent_passed real_root (parent_is parent) h = elim (Option-cases (eval_symlinks parent)) [
    | inl e ↦ absurd (ground arith)
    | inr (real, e) ↦ (parent, real, refl, e, ground arith)
  ]
  check_parent_passed real_root parent_err h = absurd (ground arith)
  check_parent_passed real_root out_of_fuel h = absurd (ground arith)

  validate-ParentInside :
      (root target : AbsPath)
      → validate_existing_parent_symlink_safe lstat eval_symlinks root target ≡ none
      → ParentInside root target
  unfolding validate_existing_parent_symlink_safe
  validate-ParentInside root target h =
      let dir = drop_last target in
      let found = existing_parent lstat (suc (length dir)) dir in
      elim (Option-cases (eval_symlinks root)) [
        | inl e ↦ absurd (ground arith)
        | inr (real_root, e) ↦
            let (parent, real_parent, p, q, i) =
              check_parent_passed real_root found (ground arith) in
            (
              parent,
              real_root,
              real_parent,
              subst (Nearest lstat dir) p
                  (existing_parent-Nearest lstat (suc (length dir)) dir (omega arith)),
              e,
              q,
              i,
            )
      ]

  result-cases :
      (r : PathResult)
      → ((path : AbsPath) × (r ≡ path_ok path)) ⊎ ((e : PathError) × (r ≡ path_err e))
  result-cases (path_ok path) = inl (path, refl)
  result-cases (path_err e) = inr (e, refl)

  -- A file that may be written is one that a request names, and the lowest directory above it that is there is,
  -- with its links followed, under the root with its links followed.
  pub safe_writable_static_file_path-ParentInside :
      (cwd : Option AbsPath) (root request_path index_file : Text) (target : AbsPath)
      → safe_writable_static_file_path cwd lstat eval_symlinks root request_path index_file
        ≡ path_ok target
      → (root_path : AbsPath) × (absolute cwd root ≡ some root_path)
        × (safe_path_under_root cwd eval_symlinks root request_path index_file true
            ≡ path_ok target)
        × ParentInside root_path target
  unfolding safe_writable_static_file_path
  safe_writable_static_file_path-ParentInside cwd root request_path index_file target h =
      elim (result-cases
        (safe_path_under_root cwd eval_symlinks root request_path index_file true)) [
          | inr (e, f) ↦ absurd (ground arith)
          | inl (path, e) ↦ elim (Option-cases (absolute cwd root)) [
            | inl f ↦ absurd (ground arith)
            | inr (root_path, f) ↦
                elim (Option-cases
                  (validate_existing_parent_symlink_safe lstat eval_symlinks root_path path)) [
                    | inr (x, g) ↦ absurd (ground arith)
                    | inl g ↦
                        let same : path ≡ target = ground arith in
                        (
                          root_path,
                          f,
                          e ∙ ap path_ok same,
                          subst (ParentInside root_path) same
                              (validate-ParentInside root_path path g),
                        )
                  ]
          ]
        ]
