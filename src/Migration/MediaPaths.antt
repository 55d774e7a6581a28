-- ===== src/Migration/MediaPaths.antt =====
-- Where mediaStoragePath and mediaMIMEType of pkg/migration/migration.go put an imported file.
use sitebrush_v.Prelude.{
  ℕ, ◌≤◌, ◌<◌, ◌≡◌, ◌≢◌, ◌⊎◌, refl, ◌∙◌, Bool, true, false, ◌||◌, [], ◌∷◌, ◌++◌, arith, Bool-cases,
  inl, inr, replicate, length, ◌==◌,
}
use sitebrush_v.Prelude.Int.{ℤ}
use sitebrush_v.Text.{
  Text, codes, Unicode, text_eq, is_empty, one_of, trim_prefix, strip_prefix, to_lower, trim_space,
  trim_both, trim_both-contains, trim_left, trim_right, is_digit, contains, contains-append,
  to_lower-contains, one_of-All, is_space, to_lower_rune,
}
use sitebrush_v.Migration.Fields.{
  is_hash_rune, all_hash_runes, is_md5_hash, normal_format, mime_of, media_mime_type, safe_formats,
  is_safe_public_media_format, media_storage_path,
}

-- A hash rune is no slash, whatever the table of digits.
all_hash_runes-no_slash :
    (u : Unicode) (s : Text) → all_hash_runes u s ≡ true → contains b'/' s ≡ false
unfolding all_hash_runes is_hash_rune is_digit contains
all_hash_runes-no_slash u [] h = refl
all_hash_runes-no_slash u (c ∷ s) h = elim (Bool-cases (c == b'/')) [
  | inl e ↦ ground arith
  | inr e ↦ ground (arith, all_hash_runes-no_slash u s)
]

is_md5_hash-no_slash : (u : Unicode) (s : Text) → is_md5_hash u s ≡ true → contains b'/' s ≡ false
unfolding is_md5_hash
is_md5_hash-no_slash u s h = ground (arith, all_hash_runes-no_slash u s)

-- A slash in a format is still there when the format has been normalised.
trim_prefix-slash :
    (s : Text) → contains b'/' s ≡ true → contains b'/' (trim_prefix (codes ".") s) ≡ true
unfolding trim_prefix strip_prefix contains
trim_prefix-slash [] h = h
trim_prefix-slash (c ∷ s) h = ground arith

trim_space-slash : (s : Text) → contains b'/' s ≡ true → contains b'/' (trim_space s) ≡ true
unfolding trim_space
trim_space-slash s h = trim_both-contains is_space b'/' (unfold is_space in refl) s ∙ h

normal_format-slash :
    (u : Unicode) (s : Text) → contains b'/' s ≡ true → contains b'/' (normal_format u s) ≡ true
unfolding normal_format
normal_format-slash u s h =
    to_lower-contains u b'/' refl refl (trim_prefix (codes ".") (trim_space s))
      (trim_prefix-slash (trim_space s) (trim_space-slash s h))

safe_format-no_slash :
    (u : Unicode) (f : Text) → is_safe_public_media_format u f ≡ true → contains b'/' f ≡ false
unfolding is_safe_public_media_format
safe_format-no_slash u f h = elim (Bool-cases (contains b'/' f)) [
  | inl e ↦ cc (
    normal_format-slash u f e,
    one_of-All (λ t. contains b'/' t ≡ false) (normal_format u f) safe_formats
        (unfold contains in (refl, (refl, (refl, (refl, (refl, tt)))))) h,
  )
  | inr e ↦ e
]

-- A storage path is made of a hash and a format.
pub record IsStoragePath (u : Unicode) (hash format p : Text) : Type 0 where
  pub made_of : p ≡ codes "/f/" ++ (hash ++ (codes "." ++ format))
  pub is_hash : is_md5_hash u hash ≡ true
  pub is_format : is_safe_public_media_format u format ≡ true
  pub one_component : contains b'/' (hash ++ (codes "." ++ format)) ≡ false

component-no_slash :
    (hash format : Text)
    → contains b'/' hash ≡ false
    → contains b'/' format ≡ false
    → contains b'/' (hash ++ (codes "." ++ format)) ≡ false
component-no_slash hash format h k =
    contains-append b'/' hash (codes "." ++ format) ∙ rw h (unfold contains in k)

module _ (u : Unicode) (id : ℤ) (hash format : Text) where
  -- The path that is derived is /f/ followed by one file name: the trimmed hash, a dot and the
  -- normalised format; the hash passes isMD5Hash, the format is on the allowlist, and the name has no
  -- slash, whatever the v1 columns hold. Where there is no such path, it is "".
  pub media_storage_path-IsStoragePath :
      (media_storage_path u id hash format).0 ≢ []
      → IsStoragePath u
          (trim_space hash)
          (normal_format u format)
          (media_storage_path u id hash format).0
  unfolding media_storage_path
  media_storage_path-IsStoragePath h = elim (Bool-cases nothing) [
    | inl e ↦ absurd (h (rw e))
    | inr e ↦ elim (Bool-cases (is_md5_hash u hash')) [
      | inr m ↦ absurd (h (rw (e, m)))
      | inl m ↦ elim (Bool-cases (is_safe_public_media_format u format')) [
        | inr s ↦ absurd (h (rw (e, m, s)))
        | inl s ↦
            rw (e, m, s)
              (record {
                made_of = refl;
                is_hash = m;
                is_format = s;
                one_component =
                    component-no_slash hash' format' (is_md5_hash-no_slash u hash' m)
                      (safe_format-no_slash u format' s);
              })
      ]
    ]
  ]
    where
      hash' : Text
      hash' = trim_space hash

      format' : Text
      format' = normal_format u format

      nothing : Bool
      nothing = is_empty hash' || is_empty format'

  -- If the trimmed hash or the normalised format is empty there is neither a path nor a warning;
  -- otherwise there is either a path and no warning, or no path and one warning.
  pub media_storage_path_outcome :
      ((is_empty (trim_space hash) || is_empty (normal_format u format)) ≡ true
        → media_storage_path u id hash format ≡ ([], []))
      × ((is_empty (trim_space hash) || is_empty (normal_format u format)) ≡ false
          → (((media_storage_path u id hash format).0 ≢ [])
              × ((media_storage_path u id hash format).1 ≡ []))
            ⊎ (((media_storage_path u id hash format).0 ≡ [])
                × (length (media_storage_path u id hash format).1 ≡ 1)))
  unfolding media_storage_path
  media_storage_path_outcome = (λ e. rw e, λ e. ground arith)

-- The formats of the allowlist are normal, so that a second normalisation keeps them.
listed-normal : (u : Unicode) (f : Text) → one_of f safe_formats ≡ true → normal_format u f ≡ f
unfolding normal_format to_lower to_lower_rune trim_prefix strip_prefix trim_space trim_both
    trim_left trim_right is_space
listed-normal u f h =
    one_of-All (λ t. normal_format u t ≡ t) f safe_formats
      (refl, (refl, (refl, (refl, (refl, tt))))) h

mime_of-listed : (f : Text) → mime_of f ≢ [] → one_of f safe_formats ≡ true
unfolding mime_of one_of
mime_of-listed f h = ground arith

mime_format : (u : Unicode) (f : Text) → mime_of f ≢ [] → is_safe_public_media_format u f ≡ true
unfolding is_safe_public_media_format
mime_format u f h = rw (listed-normal u f (mime_of-listed f h)) (mime_of-listed f h)

mime_of-empty : (f : Text) → mime_of f ≢ [] → is_empty f ≡ false
unfolding mime_of one_of text_eq
mime_of-empty [] h = absurd (h refl)
mime_of-empty (c ∷ f) h = refl

is_md5_hash-empty : (u : Unicode) (s : Text) → is_md5_hash u s ≡ true → is_empty s ≡ false
unfolding is_md5_hash
is_md5_hash-empty u [] h = cc
is_md5_hash-empty u (c ∷ s) h = refl

-- An image type that is known is imported: with a valid hash the path is derived, with no warning.
pub mime_type_imported :
    (u : Unicode) (id : ℤ) (hash format : Text)
    → media_mime_type u format ≢ []
    → is_md5_hash u (trim_space hash) ≡ true
    → media_storage_path u id hash format
      ≡ (codes "/f/" ++ (trim_space hash ++ (codes "." ++ normal_format u format)), [])
unfolding media_storage_path media_mime_type
mime_type_imported u id hash format h m = rw (
  is_md5_hash-empty u (trim_space hash) m,
  mime_of-empty (normal_format u format) h,
  m,
  mime_format u (normal_format u format) h,
)

one_dot-normal :
    (u : Unicode) (f : Text)
    → one_of f safe_formats ≡ true
    → (normal_format u (codes ".." ++ f) ≡ codes "." ++ f) × (normal_format u (codes "." ++ f) ≡ f)
unfolding normal_format to_lower to_lower_rune trim_prefix strip_prefix trim_space trim_both
    trim_left trim_right is_space
one_dot-normal u f h =
    one_of-All
      (λ t.
        (normal_format u (codes ".." ++ t) ≡ codes "." ++ t)
        × (normal_format u (codes "." ++ t) ≡ t))
      f safe_formats
      ((refl, refl), ((refl, refl), ((refl, refl), ((refl, refl), ((refl, refl), tt))))) h

dotted-mime : (f : Text) → mime_of (codes "." ++ f) ≡ []
unfolding mime_of one_of text_eq
dotted-mime f = refl

dotted_is_safe :
    (u : Unicode) (f : Text)
    → one_of f safe_formats ≡ true
    → is_safe_public_media_format u (codes "." ++ f) ≡ true
unfolding is_safe_public_media_format
dotted_is_safe u f h = rw ((one_dot-normal u f h).1) h

-- The format is normalised twice for the allowlist and once for the path and the MIME type: a
-- format with a second dot in front passes, is kept with that dot in the path, and has no MIME type.
pub doubled_dot_accepted :
    (u : Unicode) (id : ℤ) (hash format : Text)
    → one_of format safe_formats ≡ true
    → is_md5_hash u (trim_space hash) ≡ true
    → (media_storage_path u id hash (codes ".." ++ format)
        ≡ (codes "/f/" ++ (trim_space hash ++ (codes ".." ++ format)), []))
      × (media_mime_type u (codes ".." ++ format) ≡ [])
unfolding media_storage_path media_mime_type
doubled_dot_accepted u id hash format listed m = rw ((one_dot-normal u format listed).0) (
  rw (is_md5_hash-empty u (trim_space hash) m, m, dotted_is_safe u format listed),
  dotted-mime format,
)

-- isMD5Hash takes digits beyond ASCII: sixteen of two bytes each make a 32-byte hash.
pub wide_digits_accepted :
    (u : Unicode) (c : ℕ)
    → 128 ≤ c
    → c < 0x800
    → is_digit u c ≡ true
    → is_md5_hash u (replicate 16 c) ≡ true
unfolding is_md5_hash all_hash_runes is_hash_rune
wide_digits_accepted u c lo hi h = ground arith
