-- ===== src/Migration/Integers.antt =====
-- parseLegacyInt of pkg/migration/migration.go: the widths and heights of v1 media.
use sitebrush_v.Prelude.{
  ℕ, zero, suc, ◌≤◌, ◌≡◌, ◌≢◌, refl, Bool, true, false, List, [], ◌∷◌, ◌++◌, Option, none, some,
  arith, All, All-imp,
}
use sitebrush_v.Prelude.Int.{ℤ, pos, negsuc}
use sitebrush_v.Text.{
  Text, is_empty, trim_space, trim_both_between, is_space, atoi, unsigned, signed, max_int64,
  decimal, decimal-All, decimal-ne-nil, atoi-decimal, IsDigitRune,
}
use sitebrush_v.Migration.Fields.{Warning, accept_int, parse_trimmed, parse_legacy_int}

digit-not-space : (c : ℕ) → IsDigitRune c → is_space c ≡ false
unfolding is_space
digit-not-space c h = ground arith

not-empty : (s : Text) → s ≢ [] → is_empty s ≡ false
not-empty [] h = absurd (h refl)
not-empty (c ∷ s) h = refl

-- A number of v1 in decimal, with white space around it or none, is imported as that number and
-- without a warning, up to the largest int64.
pub parse_legacy_int-decimal :
    (entity : Text) (id : ℤ) (field l r : Text) (n : ℕ)
    → All (λ c. is_space c ≡ true) l
    → All (λ c. is_space c ≡ true) r
    → n ≤ max_int64
    → parse_legacy_int entity id field (l ++ (decimal n ++ r)) ≡ (pos n, [])
unfolding parse_legacy_int parse_trimmed accept_int trim_space
parse_legacy_int-decimal entity id field l r n hl hr small = rw (
  trim_both_between is_space l (decimal n) r hl hr
      (All-imp digit-not-space (decimal n) (decimal-All n)) (decimal-ne-nil n),
  not-empty (decimal n) (decimal-ne-nil n),
  atoi-decimal n small,
)

-- What parseLegacyInt returns: a number that Atoi accepts, or 0, and then a warning unless the column is
-- blank.
pub data Parsed (value : Text) : ℤ → List Warning → Type 0 where
  accepted : {n : ℕ} → n ≤ max_int64 → atoi value ≡ some (pos n) → Parsed value (pos n) []
  blank : value ≡ [] → Parsed value (pos 0) []
  refused :
      {w : Warning}
      → value ≢ []
      → ((n : ℕ) → atoi value ≢ some (pos n))
      → Parsed value (pos 0) (w ∷ [])

signed-max : (neg : Bool) (o : Option ℕ) (n : ℕ) → signed neg o ≡ some (pos n) → n ≤ max_int64
unfolding signed
signed-max neg none n h = cc
signed-max true (some zero) n h = ground arith
signed-max true (some (suc m)) n h = ground arith
signed-max false (some m) n h = ground arith

atoi-max : (s : Text) (n : ℕ) → atoi s ≡ some (pos n) → n ≤ max_int64
unfolding atoi
atoi-max [] n h = cc
atoi-max (c ∷ s) n h = ground (
  arith,
  signed-max true (unsigned s) n,
  signed-max false (unsigned s) n,
  signed-max false (unsigned (c ∷ s)) n,
)

accept_int-Parsed :
    (entity : Text) (id : ℤ) (field value : Text) (o : Option ℤ)
    → value ≢ []
    → atoi value ≡ o
    → Parsed value (accept_int entity id field value o).0 (accept_int entity id field value o).1
unfolding accept_int
accept_int-Parsed entity id field value (some (pos n)) ne e = accepted (atoi-max value n e) e
accept_int-Parsed entity id field value (some (negsuc n)) ne e = refused ne (λ m h. cc)
accept_int-Parsed entity id field value none ne e = refused ne (λ m h. cc)

parse_trimmed-Parsed :
    (entity : Text) (id : ℤ) (field value : Text)
    → Parsed value (parse_trimmed entity id field value).0 (parse_trimmed entity id field value).1
unfolding parse_trimmed
parse_trimmed-Parsed entity id field [] = blank refl
parse_trimmed-Parsed entity id field (c ∷ value) =
    accept_int-Parsed entity id field (c ∷ value) (atoi (c ∷ value)) (cc) refl

-- Every column value is accepted, blank or refused: a value that Atoi reads as a number from 0 to the
-- largest int64 is imported with no warning, a blank one gives 0 with none, any other 0 with one.
pub parse_legacy_int-Parsed :
    (entity : Text) (id : ℤ) (field value : Text)
    → Parsed
        (trim_space value)
        (parse_legacy_int entity id field value).0
        (parse_legacy_int entity id field value).1
unfolding parse_legacy_int
parse_legacy_int-Parsed entity id field value =
    parse_trimmed-Parsed entity id field (trim_space value)
