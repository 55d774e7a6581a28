-- ===== src/Text/Contains.antt =====
-- Which characters survive trimming and lower case.
use sitebrush_v.Prelude.{
  ℕ, ◌≡◌, refl, Bool, true, false, ◌||◌, List, [], ◌∷◌, ◌++◌, arith, ltb, between, ◌==◌, Bool-cases,
  subst, sym, ==_iff, ◌∙◌, inl, inr, ap, All,
}
use sitebrush_v.Text.Chars.{Text, Unicode, to_lower_rune}
use sitebrush_v.Text.Basic.{text_eq, one_of, contains, to_lower, text_eq_sound}
use sitebrush_v.Text.Trim.{trim_left, put_left, trim_right, trim_both}

module _ (b : ℕ) where
  pub contains-append : (s t : Text) → contains b (s ++ t) ≡ (contains b s || contains b t)
  unfolding contains
  contains-append [] t = refl
  contains-append (c ∷ s) t = ground (arith, contains-append s t)

module _ (p : ℕ → Bool) (b : ℕ) (kept : p b ≡ false) where
  -- What is trimmed is another character.
  trimmed_other : (c : ℕ) → p c ≡ true → (c == b) ≡ false
  trimmed_other c h = elim (Bool-cases (c == b)) [
    | inl e ↦ cc (h, kept, ap p ((==_iff c b).0 e))
    | inr e ↦ e
  ]

  trim_left-contains : (s : Text) → contains b (trim_left p s) ≡ contains b s
  unfolding contains trim_left
  trim_left-contains [] = refl
  trim_left-contains (c ∷ s) = elim (Bool-cases (p c)) [
    | inl e ↦ rw (e, trimmed_other c e) (trim_left-contains s)
    | inr e ↦ rw e
  ]

  put_left-contains : (c : ℕ) (t : Text) → contains b (put_left (p c) c t) ≡ contains b (c ∷ t)
  unfolding contains put_left
  put_left-contains c [] = elim (Bool-cases (p c)) [
    | inl e ↦ rw (e, trimmed_other c e)
    | inr e ↦ rw e
  ]
  put_left-contains c (d ∷ t) = refl

  cons-contains :
      (c : ℕ) (s t : Text) → contains b s ≡ contains b t → contains b (c ∷ s) ≡ contains b (c ∷ t)
  unfolding contains
  cons-contains c s t h = ap (λ r. (c == b) || r) h

  trim_right-contains : (s : Text) → contains b (trim_right p s) ≡ contains b s
  unfolding trim_right
  trim_right-contains [] = refl
  trim_right-contains (c ∷ s) =
      put_left-contains c (trim_right p s)
      ∙ cons-contains c (trim_right p s) s (trim_right-contains s)

  pub trim_both-contains : (s : Text) → contains b (trim_both p s) ≡ contains b s
  unfolding trim_both
  trim_both-contains s = rw trim_right-contains (trim_left-contains s)

-- An ASCII character that is no capital letter is still there in lower case.
module _ (u : Unicode) (b : ℕ) (ascii : ltb b 128 ≡ true)
    (small : between b'A' b'Z' b ≡ false) where
  pub to_lower-contains : (s : Text) → contains b s ≡ true → contains b (to_lower u s) ≡ true
  unfolding contains to_lower to_lower_rune
  to_lower-contains [] h = h
  to_lower-contains (c ∷ s) h = elim (Bool-cases (c == b)) [
    | inl e ↦ ground arith
    | inr e ↦ ground (arith, to_lower-contains s)
  ]

-- What holds of each listed text holds of a text that is listed.
pub one_of-All {ℓ} :
    (P : Text → Type ℓ) (s : Text) (ts : List Text) → All P ts → one_of s ts ≡ true → P s
unfolding one_of
one_of-All P s [] h e = absurd (cc e)
one_of-All P s (t ∷ ts) (h, hs) e = elim (Bool-cases (text_eq s t)) [
  | inl same ↦ subst P (sym (text_eq_sound s t same)) h
  | inr other ↦ one_of-All P s ts hs (rw other at e)
]
