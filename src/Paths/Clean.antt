-- ===== src/Paths/Clean.antt =====
-- What path.Clean leaves of the segments of a path.
use sitebrush_v.Prelude.{
  ◌≡◌, refl, sym, ap, subst, ◌∙◌, Bool, true, false, not, ◌||◌, List, [], ◌∷◌, ◌++◌, append_assoc,
  append-nil, some, arith, All, All-append, Bool-cases, inl, inr, keep, ◌==◌,
}
use sitebrush_v.Text.{
  Text, codes, text_eq, is_empty, contains, split_on, split_on_whole, split_on-append,
}
use sitebrush_v.Paths.{segments, drop_last, last_of, go_up, enter, clean_from, join_slash}

-- The name of one file: not empty, no slash, and neither "." nor "..".
pub record IsComponent (s : Text) : Type 0 where
  pub named : is_empty s ≡ false
  pub no_slash : contains b'/' s ≡ false
  pub not_dot : text_eq s (codes ".") ≡ false
  pub not_dots : text_eq s (codes "..") ≡ false

-- A segment between slashes.
abbrev pub HasNoSlash : Text → Type 0
HasNoSlash s = contains b'/' s ≡ false

split_on-HasNoSlash :
    (s : Text) → HasNoSlash (split_on b'/' s).0 × All HasNoSlash (split_on b'/' s).1
unfolding split_on contains
split_on-HasNoSlash [] = (refl, tt)
split_on-HasNoSlash (c ∷ s) = elim (Bool-cases (c == b'/')) [
  | inl e ↦ rw e (refl, split_on-HasNoSlash s)
  | inr e ↦ rw (e, e) (split_on-HasNoSlash s)
]

pub segments-HasNoSlash : (s : Text) → All HasNoSlash (segments s)
unfolding segments
segments-HasNoSlash s = split_on-HasNoSlash s

module _ {ℓ} (P : Text → Type ℓ) where
  pub drop_last-All : (cs : List Text) → All P cs → All P (drop_last cs)
  unfolding drop_last
  drop_last-All [] h = tt
  drop_last-All (c ∷ []) h = tt
  drop_last-All (c ∷ d ∷ cs) h = (h.0, drop_last-All (d ∷ cs) h.1)

  pub last_of-All : (cs : List Text) (c : Text) → All P cs → last_of cs ≡ some c → P c
  unfolding last_of
  last_of-All [] c h e = absurd (ground arith)
  last_of-All (b ∷ []) c h e = subst P (ground arith) h.0
  last_of-All (b ∷ d ∷ cs) c h e = last_of-All (d ∷ cs) c h.1 e

-- A path that is not the root has a last component.
pub last_of_cons : (c : Text) (cs : List Text) → (l : Text) × (last_of (c ∷ cs) ≡ some l)
unfolding last_of
last_of_cons c [] = (c, refl)
last_of_cons c (d ∷ cs) = last_of_cons d cs

-- ".." takes the last component off a clean absolute path.
pub go_up_components : (cs : List Text) → All IsComponent cs → go_up true cs ≡ drop_last cs
unfolding go_up drop_last last_of
go_up_components [] h = refl
go_up_components (c ∷ cs) h =
    let (l, e) = last_of_cons c cs in
    ground (arith, e, (last_of-All IsComponent (c ∷ cs) l h e).not_dots)

enter-IsComponent :
    (done : List Text) (s : Text)
    → HasNoSlash s
    → All IsComponent done
    → All IsComponent (enter true done s)
unfolding enter
enter-IsComponent done s n h = elim (Bool-cases (is_empty s || text_eq s (codes "."))) [
  | inl e ↦ rw e h
  | inr e ↦ elim (Bool-cases (text_eq s (codes ".."))) [
    | inl up ↦ rw (e, up, go_up_components done h) (drop_last-All IsComponent done h)
    | inr down ↦
        rw (e, down)
          (All-append IsComponent done (s ∷ []) h (
            record { named = ground arith; no_slash = n; not_dot = ground arith; not_dots = down },
            tt,
          ))
  ]
]

-- A cleaned absolute path is made of the names of files.
pub clean_from-IsComponent :
    (done ss : List Text)
    → All HasNoSlash ss
    → All IsComponent done
    → All IsComponent (clean_from true done ss)
unfolding clean_from
clean_from-IsComponent done [] n h = h
clean_from-IsComponent done (s ∷ ss) n h =
    clean_from-IsComponent (enter true done s) ss n.1 (enter-IsComponent done s n.0 h)

-- The segments that stay where there is no "..".
abbrev pub proper : Text → Bool
proper s = not (is_empty s || text_eq s (codes "."))

abbrev pub IsNotUp : Text → Type 0
IsNotUp s = text_eq s (codes "..") ≡ false

pub clean_from-proper :
    (rooted : Bool) (done ss : List Text)
    → All IsNotUp ss
    → clean_from rooted done ss ≡ done ++ keep proper ss
unfolding clean_from enter
clean_from-proper rooted done [] h = sym (append-nil done)
clean_from-proper rooted done (s ∷ ss) h = elim (Bool-cases (is_empty s || text_eq s (codes "."))) [
  | inl e ↦ ground (arith, e, clean_from-proper rooted done ss h.1)
  | inr e ↦ ground (
    arith,
    e,
    h.0,
    clean_from-proper rooted (done ++ s ∷ []) ss h.1,
    append_assoc done (s ∷ []) (keep proper ss),
  )
]

keep-components : (cs : List Text) → All IsComponent cs → keep proper cs ≡ cs
keep-components [] h = refl
keep-components (c ∷ cs) h = ground (arith, (h.0).named, (h.0).not_dot, keep-components cs h.1)

components-IsNotUp : (cs : List Text) → All IsComponent cs → All IsNotUp cs
components-IsNotUp [] h = tt
components-IsNotUp (c ∷ cs) h = ((h.0).not_dots, components-IsNotUp cs h.1)

-- Cleaning does not change what is clean.
pub clean_from_components :
    (rooted : Bool) (done cs : List Text)
    → All IsComponent cs
    → clean_from rooted done cs ≡ done ++ cs
clean_from_components rooted done cs h =
    clean_from-proper rooted done cs (components-IsNotUp cs h)
    ∙ ap (λ r. done ++ r) (keep-components cs h)

split_on-append_slash : (c s : Text) → HasNoSlash c → segments (c ++ b'/' ∷ s) ≡ c ∷ segments s
unfolding segments
split_on-append_slash c s h = rw (split_on-append b'/' c s h) refl

-- Splitting the components that were joined by slashes gives them back.
pub segments-join_slash :
    (c : Text) (cs : List Text) → All HasNoSlash (c ∷ cs) → segments (join_slash (c ∷ cs)) ≡ c ∷ cs
unfolding join_slash segments
segments-join_slash c [] h = rw (split_on_whole b'/' c h.0) refl
segments-join_slash c (d ∷ cs) h =
    split_on-append_slash c (join_slash (d ∷ cs)) h.0
    ∙ ap (λ r. c ∷ r) (segments-join_slash d cs h.1)

module _ {ℓ} (P : Text → Type ℓ) (up : P (codes "..")) where
  go_up-All : (rooted : Bool) (done : List Text) → All P done → All P (go_up rooted done)
  unfolding go_up last_of drop_last
  go_up-All true [] h = tt
  go_up-All false [] h = (up, tt)
  go_up-All rooted (c ∷ cs) h =
      let (l, e) = last_of_cons c cs in
      elim (Bool-cases (text_eq l (codes ".."))) [
        | inl t ↦
            subst (All P) {x = (c ∷ cs) ++ codes ".." ∷ []} {y = go_up rooted (c ∷ cs)}
              (ground (arith, e, t)) (All-append P (c ∷ cs) (codes ".." ∷ []) h (up, tt))
        | inr t ↦
            subst (All P) {x = drop_last (c ∷ cs)} {y = go_up rooted (c ∷ cs)}
              (ground (arith, e, t)) (drop_last-All P (c ∷ cs) h)
      ]

  enter-All :
      (rooted : Bool) (done : List Text) (s : Text) → P s → All P done → All P (enter rooted done s)
  unfolding enter
  enter-All rooted done s n h = elim (Bool-cases (is_empty s || text_eq s (codes "."))) [
    | inl e ↦ rw e h
    | inr e ↦ elim (Bool-cases (text_eq s (codes ".."))) [
      | inl t ↦ rw (e, t) (go_up-All rooted done h)
      | inr t ↦ rw (e, t) (All-append P done (s ∷ []) h (n, tt))
    ]
  ]

  -- Cleaning a path adds ".." and nothing else.
  pub clean_from-All :
      (rooted : Bool) (done ss : List Text)
      → All P ss
      → All P done
      → All P (clean_from rooted done ss)
  unfolding clean_from
  clean_from-All rooted done [] n h = h
  clean_from-All rooted done (s ∷ ss) n h =
      clean_from-All rooted (enter rooted done s) ss n.1 (enter-All rooted done s n.0 h)
