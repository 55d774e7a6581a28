-- ===== src/Paths/Joined.antt =====
-- Texts of names joined by slashes, for the paths of pkg/webserver/functions.go.
use sitebrush_v.Prelude.{
  ℕ, ◌≡◌, refl, sym, ap, subst, ◌∙◌, Bool, true, false, ◌&&◌, List, [], ◌∷◌, ◌++◌, some, arith, All,
  ◌==◌,
}
use sitebrush_v.Text.{
  Text, codes, is_empty, contains, trim_prefix, strip_prefix, trim_both, trim_left, trim_right,
  put_left, contains-append,
}
use sitebrush_v.Paths.{segments_safe, path_unescape, ends_with_slash, join_slash}
use sitebrush_v.Paths.Clean.{IsComponent}

-- The name of a file that a request may spell as it is: no "%", ":" and "\".
pub record IsPlain (s : Text) : Type 0 where
  pub component : IsComponent s
  pub no_percent : contains b'%' s ≡ false
  pub no_colon : contains b':' s ≡ false
  pub no_backslash : contains b'\\' s ≡ false

pub contains-cons :
    (b c : ℕ) (s : Text) → contains b (c ∷ s) ≡ false → (c == b ≡ false) × (contains b s ≡ false)
unfolding contains
contains-cons b c s h = (ground arith, ground arith)

-- A text without "%" is its own unescaped form.
pub unescape_plain : (s : Text) → contains b'%' s ≡ false → path_unescape s ≡ some s
unfolding path_unescape
unescape_plain [] h = refl
unescape_plain (c ∷ []) h = ground (arith, contains-cons b'%' c [] h)
unescape_plain (c ∷ a ∷ []) h =
    let (here, there) = contains-cons b'%' c (a ∷ []) h in
    ground (arith, here, unescape_plain (a ∷ []) there)
unescape_plain (c ∷ a ∷ b ∷ s) h =
    let (here, there) = contains-cons b'%' c (a ∷ b ∷ s) h in
    ground (arith, here, unescape_plain (a ∷ b ∷ s) there)

module _ (b : ℕ) (other : b'/' == b ≡ false) where
  pub contains-join_slash :
      (cs : List Text) → All (λ c. contains b c ≡ false) cs → contains b (join_slash cs) ≡ false
  unfolding join_slash contains
  contains-join_slash [] h = refl
  contains-join_slash (c ∷ []) h = h.0
  contains-join_slash (c ∷ d ∷ cs) h = ground (
    arith,
    contains-append b c (b'/' ∷ join_slash (d ∷ cs)),
    h.0,
    contains-join_slash (d ∷ cs) h.1,
  )

pub segments_safe_plain : (cs : List Text) → All IsPlain cs → segments_safe cs ≡ true
unfolding segments_safe
segments_safe_plain [] h = refl
segments_safe_plain (c ∷ cs) h =
    ground (arith, ((h.0).component).not_dots, (h.0).no_colon, segments_safe_plain cs h.1)

pub segments_safe-append :
    (ss ts : List Text) → segments_safe (ss ++ ts) ≡ (segments_safe ss && segments_safe ts)
unfolding segments_safe
segments_safe-append [] ts = refl
segments_safe-append (s ∷ ss) ts = ground (arith, segments_safe-append ss ts)

nonempty : (s : Text) → is_empty s ≡ false → (c : ℕ) × (t : Text) × (s ≡ c ∷ t)
nonempty [] h = absurd (ground arith)
nonempty (c ∷ t) h = (c, t, refl)

is_empty-append : (s t : Text) → is_empty s ≡ false → is_empty (s ++ t) ≡ false
is_empty-append [] t h = absurd (ground arith)
is_empty-append (c ∷ s) t h = refl

is_empty-join_slash :
    (c : Text) (cs : List Text) → is_empty c ≡ false → is_empty (join_slash (c ∷ cs)) ≡ false
unfolding join_slash
is_empty-join_slash c [] h = h
is_empty-join_slash c (d ∷ cs) h = is_empty-append c (b'/' ∷ join_slash (d ∷ cs)) h

pub ends_with_slash-append :
    (s : Text) (c : ℕ) (t : Text) → ends_with_slash (s ++ c ∷ t) ≡ ends_with_slash (c ∷ t)
unfolding ends_with_slash
ends_with_slash-append [] c t = refl
ends_with_slash-append (a ∷ []) c t = refl
ends_with_slash-append (a ∷ b ∷ s) c t = ends_with_slash-append (b ∷ s) c t

ends_with_slash-name : (s : Text) → contains b'/' s ≡ false → ends_with_slash s ≡ false
unfolding ends_with_slash contains
ends_with_slash-name [] h = refl
ends_with_slash-name (c ∷ []) h = ground arith
ends_with_slash-name (c ∷ d ∷ s) h = ends_with_slash-name (d ∷ s) (ground arith)

pub ends_with_slash-join_slash :
    (cs : List Text) → All IsComponent cs → ends_with_slash (join_slash cs) ≡ false
unfolding join_slash contains
ends_with_slash-join_slash [] h = ends_with_slash-name [] refl
ends_with_slash-join_slash (c ∷ []) h = ends_with_slash-name c (h.0).no_slash
ends_with_slash-join_slash (c ∷ d ∷ cs) h =
    let (x, t, e) = nonempty (join_slash (d ∷ cs)) (is_empty-join_slash d cs ((h.1).0).named) in
    ends_with_slash-append c b'/' (join_slash (d ∷ cs))
    ∙ ap (λ r. ends_with_slash (b'/' ∷ r)) e
    ∙ ends_with_slash-append (b'/' ∷ []) x t
    ∙ ap ends_with_slash (sym e)
    ∙ ends_with_slash-join_slash (d ∷ cs) h.1

-- Trimming slashes leaves joined names alone.
abbrev pub is_slash : ℕ → Bool
is_slash c = c == b'/'

trim_right-name : (s : Text) → contains b'/' s ≡ false → trim_right is_slash s ≡ s
unfolding trim_right put_left contains
trim_right-name [] h = refl
trim_right-name (c ∷ []) h = ground arith
trim_right-name (c ∷ d ∷ s) h =
    ap (put_left (is_slash c) c) (trim_right-name (d ∷ s) (ground arith))

trim_right-append :
    (s : Text) (c : ℕ) (t : Text)
    → trim_right is_slash (c ∷ t) ≡ c ∷ t
    → trim_right is_slash (s ++ c ∷ t) ≡ s ++ c ∷ t
unfolding trim_right put_left
trim_right-append [] c t h = h
trim_right-append (a ∷ []) c t h = ap (put_left (is_slash a) a) h
trim_right-append (a ∷ b ∷ s) c t h = ap (put_left (is_slash a) a) (trim_right-append (b ∷ s) c t h)

trim_right-join_slash :
    (cs : List Text) → All IsComponent cs → trim_right is_slash (join_slash cs) ≡ join_slash cs
unfolding join_slash contains
trim_right-join_slash [] h = trim_right-name [] refl
trim_right-join_slash (c ∷ []) h = trim_right-name c (h.0).no_slash
trim_right-join_slash (c ∷ d ∷ cs) h =
    let (x, t, e) = nonempty (join_slash (d ∷ cs)) (is_empty-join_slash d cs ((h.1).0).named) in
    trim_right-append c b'/' (join_slash (d ∷ cs)) (
      subst (λ r. trim_right is_slash (b'/' ∷ r) ≡ b'/' ∷ r) (sym e)
        (trim_right-append (b'/' ∷ []) x t
          (subst (λ r. trim_right is_slash r ≡ r) e (trim_right-join_slash (d ∷ cs) h.1))))

-- The first character of joined names is no slash.
pub join_slash-head :
    (c : Text) (cs : List Text)
    → IsComponent c
    → (x : ℕ) × (t : Text) × (join_slash (c ∷ cs) ≡ x ∷ t) × (x == b'/' ≡ false)
unfolding join_slash
join_slash-head [] cs h = absurd (ground (arith, h.named))
join_slash-head (x ∷ c) [] h = (x, c, refl, (contains-cons b'/' x c h.no_slash).0)
join_slash-head (x ∷ c) (d ∷ cs) h =
    (x, c ++ b'/' ∷ join_slash (d ∷ cs), refl, (contains-cons b'/' x c h.no_slash).0)

pub trim_both-join_slash :
    (cs : List Text) → All IsComponent cs → trim_both is_slash (join_slash cs) ≡ join_slash cs
unfolding trim_both trim_left join_slash
trim_both-join_slash [] h = trim_right-join_slash [] tt
trim_both-join_slash (c ∷ cs) h =
    let (x, t, e, n) = join_slash-head c cs h.0 in
    ap (trim_right is_slash) (ap (trim_left is_slash) e ∙ ground (arith, n) ∙ sym e)
    ∙ trim_right-join_slash (c ∷ cs) h

pub trim_prefix-join_slash :
    (c : Text) (cs : List Text)
    → IsComponent c
    → trim_prefix (codes "/") (join_slash (c ∷ cs)) ≡ join_slash (c ∷ cs)
unfolding trim_prefix strip_prefix
trim_prefix-join_slash c cs h =
    let (x, t, e, n) = join_slash-head c cs h in
    ap (trim_prefix (codes "/")) e ∙ ground (arith, n) ∙ sym e
