-- ===== src/Upload/SafeNames.antt =====
-- The names that uploads are kept under.
use sitebrush_v.Prelude.{
  ℕ, zero, suc, ◌+◌, ◌-◌, ◌≤◌, ◌<◌, ◌≡◌, ◌≢◌, refl, ap, true, false, not, ◌&&◌, [], ◌∷◌, ◌++◌,
  if◌then◌else◌, ltb, ◌==◌, arith, length, length-append, take, All, All-append, Bool-cases, inl,
  inr,
}
use sitebrush_v.Text.{
  Text, codes, is_empty, contains, is_space, trim_both-All, trim_both-HeadClear, HeadClear,
}
use sitebrush_v.Upload.Names.{
  ext_of, is_name_rune, name_runes, is_edge, shorten, sanitize_upload_file_name,
}

-- Nothing but runes that a stored name keeps.
abbrev NameRunes : Text → Type 0
NameRunes = All (λ c. is_name_rune c ≡ true)

-- A name of 1 to 128 runes, each of them a letter, a digit, ".", "-" or "_", and the first none of the
-- two in front.
pub record IsSafeName (s : Text) : Type 0 where
  pub named : s ≢ []
  pub runes : All (λ c. is_name_rune c ≡ true) s
  pub short : length s ≤ 128
  pub begins : HeadClear is_edge s

name_runes-NameRunes : (s : Text) → NameRunes (name_runes s)
unfolding name_runes is_name_rune
name_runes-NameRunes [] = tt
name_runes-NameRunes (c ∷ s) = elim (Bool-cases (is_name_rune c)) [
  | inl e ↦ rw e (e, name_runes-NameRunes s)
  | inr e ↦ elim (Bool-cases (is_space c)) [
    | inl f ↦ rw (e, f) (refl, name_runes-NameRunes s)
    | inr f ↦ rw (e, f) (name_runes-NameRunes s)
  ]
]

ext_of-length : (s : Text) → length (ext_of s) ≤ length s
unfolding ext_of
ext_of-length [] = omega arith
ext_of-length (c ∷ s) = ground (arith, ext_of-length s)

ext_of-shorter : (c : ℕ) (s : Text) → is_edge c ≡ false → length (ext_of (c ∷ s)) < length (c ∷ s)
unfolding ext_of
ext_of-shorter c s h = ground (arith, ext_of-length s)

ext_of-NameRunes : (s : Text) → NameRunes s → NameRunes (ext_of s)
unfolding ext_of
ext_of-NameRunes [] h = tt
ext_of-NameRunes (c ∷ s) h = elim (Bool-cases (is_empty (ext_of s))) [
  | inr e ↦ rw e (ext_of-NameRunes s h.1)
  | inl e ↦ elim (Bool-cases (c == b'.' && not (contains b'/' s))) [
    | inl f ↦ rw (e, f) h
    | inr f ↦ rw (e, f) tt
  ]
]

take-NameRunes : (n : ℕ) (s : Text) → NameRunes s → NameRunes (take n s)
take-NameRunes zero s h = tt
take-NameRunes (suc n) [] h = tt
take-NameRunes (suc n) (c ∷ s) h = (h.0, take-NameRunes n s h.1)

length-take : (n : ℕ) (s : Text) → length (take n s) ≤ n
length-take zero s = omega arith
length-take (suc n) [] = omega arith
length-take (suc n) (c ∷ s) = omega (arith, length-take n s)

take-first : (n c : ℕ) (s : Text) → 0 < n → take n (c ∷ s) ≡ c ∷ take (n - 1) s
take-first zero c s h = absurd (omega arith)
take-first (suc n) c s h = ap (λ m. c ∷ take m s) (omega arith)

joined-IsSafeName :
    (c : ℕ) (t ext : Text)
    → is_edge c ≡ false
    → NameRunes (c ∷ t)
    → NameRunes ext
    → length (c ∷ t) + length ext ≤ 128
    → IsSafeName ((c ∷ t) ++ ext)
joined-IsSafeName c t ext edge runes more fits = record {
  named = λ e. cc;
  runes = All-append _ (c ∷ t) ext runes more;
  short = omega (arith, length-append (c ∷ t) ext);
  begins = edge;
}

cut-IsSafeName :
    (c : ℕ) (t ext : Text) (room : ℕ)
    → is_edge c ≡ false
    → NameRunes (c ∷ t)
    → NameRunes ext
    → 0 < room
    → room + length ext ≤ 128
    → IsSafeName ((if ltb room (length (c ∷ t)) then take room (c ∷ t) else (c ∷ t)) ++ ext)
cut-IsSafeName c t ext zero edge runes more some fits = absurd (omega arith)
cut-IsSafeName c t ext (suc room) edge runes more some fits =
    elim (Bool-cases (ltb (suc room) (length (c ∷ t)))) [
      | inl e ↦ rw e (
          joined-IsSafeName c (take room t) ext edge (take-NameRunes (suc room) (c ∷ t) runes) more
            (omega (arith, length-take room t)))
      | inr e ↦ rw e (joined-IsSafeName c t ext edge runes more (ground arith))
    ]

shorten-IsSafeName :
    (c : ℕ) (s : Text) → is_edge c ≡ false → NameRunes (c ∷ s) → IsSafeName (shorten (c ∷ s))
unfolding shorten
shorten-IsSafeName c s edge runes =
    rw
      (take-first (length (c ∷ s) - length (ext_of (c ∷ s))) c s
        (omega (arith, ext_of-shorter c s edge)))
      (elim (Bool-cases (ltb 16 (length (ext_of (c ∷ s))))) [
        | inl e ↦ rw e (
            cut-IsSafeName c _ [] 128 edge (runes.0, take-NameRunes _ s runes.1) tt (omega arith)
              (omega arith))
        | inr e ↦ rw e (
            cut-IsSafeName c _ (ext_of (c ∷ s)) _ edge (runes.0, take-NameRunes _ s runes.1)
              (ext_of-NameRunes (c ∷ s) runes) (ground arith) (ground arith))
      ])

upload-IsSafeName : IsSafeName (codes "upload")
unfolding is_name_rune
upload-IsSafeName = record {
  named = λ e. cc;
  runes = (refl, (refl, (refl, (refl, (refl, (refl, tt))))));
  short = omega arith;
  begins = refl;
}

settled-IsSafeName :
    (name : Text)
    → NameRunes name
    → HeadClear is_edge name
    → IsSafeName (
        if is_empty name
        then codes "upload"
        else if ltb 128 (length name)
        then shorten name
        else name)
settled-IsSafeName [] runes begins = upload-IsSafeName
settled-IsSafeName (c ∷ s) runes begins = elim (Bool-cases (ltb 128 (length (c ∷ s)))) [
  | inl e ↦ rw e (shorten-IsSafeName c s begins runes)
  | inr e ↦ rw e (record { named = λ q. cc; runes = runes; short = ground arith; begins = begins })
]

-- Whatever an upload is called, its name in the metadata has 1 to 128 runes, each of them a letter, a digit, ".",
-- "-" or "_", and begins neither with "." nor with "-".
pub sanitize_upload_file_name-IsSafeName :
    (file_name : Text) → IsSafeName (sanitize_upload_file_name file_name)
unfolding sanitize_upload_file_name
sanitize_upload_file_name-IsSafeName file_name =
    settled-IsSafeName _ (trim_both-All _ is_edge _ (name_runes-NameRunes _))
      (trim_both-HeadClear is_edge _)
