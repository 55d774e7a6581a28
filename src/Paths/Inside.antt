-- ===== src/Paths/Inside.antt =====
-- pathIsInsideRoot of pkg/webserver/functions.go against what it means.
use sitebrush_v.Prelude.{
  ◌≡◌, ◌↔◌, ◌⊎◌, append-nil, ap₂, refl, sym, subst, Bool, true, false, not, ◌&&◌, ◌||◌, List, [],
  ◌∷◌, ◌++◌, map, arith, All, Bool-cases, inl, inr,
}
use sitebrush_v.Text.{
  Text, codes, text_eq, contains, has_prefix, strip_prefix, text_eq_self, text_eq_sound,
}
use sitebrush_v.Paths.{AbsPath, join_slash, rel, rel_text, path_is_inside_root}
use sitebrush_v.Paths.Clean.{IsComponent}

-- The target is the root or lies under it.
abbrev pub Inside : AbsPath → AbsPath → Type 0
Inside root target = (rest : AbsPath) × (target ≡ root ++ rest)

-- What is under the root by name is so relative to it.
pub rel-append : (root rest : AbsPath) → rel root (root ++ rest) ≡ rest
unfolding rel
rel-append [] rest = refl
rel-append (r ∷ root) rest = ground (arith, text_eq_self r, rel-append root rest)

-- The text of a relative path that stays inside.
abbrev stays : List Text → Bool
stays path =
    let r = rel_text path in
    text_eq r (codes ".")
    || (not (has_prefix (codes "/") r)
        && not (text_eq r (codes ".."))
        && not (has_prefix (codes "../") r))

-- A text that begins with a name, and goes on with a slash or not at all, is not "..", "../…" or absolute.
name_stays :
    (c r : Text)
    → IsComponent c
    → (r ≡ []) ⊎ ((s : Text) × (r ≡ b'/' ∷ s))
    → (has_prefix (codes "/") (c ++ r) ≡ false)
      × (text_eq (c ++ r) (codes "..") ≡ false)
      × (has_prefix (codes "../") (c ++ r) ≡ false)
unfolding has_prefix strip_prefix text_eq contains
name_stays [] r h k = absurd (ground (arith, h.named))
name_stays (x ∷ []) r h (inl e) = rw e (ground (arith, h.no_slash), ground arith, ground arith)
name_stays (x ∷ []) r h (inr (s, e)) =
    rw e (ground (arith, h.no_slash), ground (arith, h.not_dot), ground (arith, h.not_dot))
name_stays (x ∷ y ∷ []) r h (inl e) =
    rw e (ground (arith, h.no_slash), ground (arith, h.not_dots), ground arith)
name_stays (x ∷ y ∷ []) r h (inr (s, e)) =
    rw e (ground (arith, h.no_slash), ground (arith, h.not_dots), ground (arith, h.not_dots))
name_stays (x ∷ y ∷ z ∷ c) r h k =
    (ground (arith, h.no_slash), ground arith, ground (arith, h.no_slash))

-- A relative path of names stays inside.
stays_components : (cs : List Text) → All IsComponent cs → stays cs ≡ true
unfolding rel_text join_slash text_eq
stays_components [] h = refl
stays_components (c ∷ []) h =
    let k = name_stays c [] h.0 (inl refl) in
    let k' =
      subst
        (λ t.
          (has_prefix (codes "/") t ≡ false)
          × (text_eq t (codes "..") ≡ false)
          × (has_prefix (codes "../") t ≡ false))
        (append-nil c) k in
    ground (arith, k')
stays_components (c ∷ d ∷ cs) h =
    ground (arith, name_stays c (b'/' ∷ join_slash (d ∷ cs)) h.0 (inr (join_slash (d ∷ cs), refl)))

-- A relative path that begins with ".." does not.
leaves : (cs : List Text) → stays (codes ".." ∷ cs) ≡ false
unfolding rel_text join_slash has_prefix strip_prefix text_eq
leaves [] = refl
leaves (c ∷ cs) = refl

stays-Inside : (root target : AbsPath) → stays (rel root target) ≡ true → Inside root target
unfolding rel
stays-Inside [] target h = (target, refl)
stays-Inside (r ∷ root) [] h = absurd (ground (arith, leaves (map (λ _. codes "..") root)))
stays-Inside (r ∷ root) (t ∷ target) h = elim (Bool-cases (text_eq r t)) [
  | inl e ↦
      let (rest, p) = stays-Inside root target (ground arith) in
      (rest, ap₂ ◌∷◌ (sym (text_eq_sound r t e)) p)
  | inr e ↦ absurd (ground (arith, leaves (map (λ _. codes "..") root ++ t ∷ target)))
]

All-back : (root rest : AbsPath) → All IsComponent (root ++ rest) → All IsComponent rest
All-back [] rest h = h
All-back (r ∷ root) rest h = All-back root rest h.1

-- The test by filepath.Rel finds the paths that have the root's components in front, for a path of file
-- names below.
pub path_is_inside_root_iff :
    (root target : AbsPath)
    → All IsComponent target
    → (path_is_inside_root root target ≡ true) ↔ Inside root target
unfolding path_is_inside_root
path_is_inside_root_iff root target h = (
  stays-Inside root target,
  λ (w : Inside root target).
      let k : All IsComponent w.0 = All-back root w.0 (subst (All IsComponent) w.1 h) in
      ground (arith, stays_components w.0 k, rel-append root w.0, w.1),
)
