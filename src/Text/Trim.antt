-- ===== src/Text/Trim.antt =====
-- strings.TrimSpace and strings.Trim.
use sitebrush_v.Prelude.{
  ℕ, ◌≡◌, refl, inl, inr, Bool, true, false, [], ◌∷◌, arith, if◌then◌else◌, Bool-cases, ap, All,
  ◌++◌, ◌≢◌,
}
use sitebrush_v.Text.Chars.{Text, is_space}

-- strings.TrimLeftFunc
unfoldable pub trim_left : (ℕ → Bool) → Text → Text
trim_left p [] = []
trim_left p (c ∷ s) = let rest = trim_left p s in if p c then rest else c ∷ s

-- One step of the walk from the right: `c` goes if nothing behind it stayed.
unfoldable pub put_left : Bool → ℕ → Text → Text
put_left drop c [] = if drop then [] else c ∷ []
put_left drop c (d ∷ s) = c ∷ d ∷ s

-- strings.TrimRightFunc
unfoldable pub trim_right : (ℕ → Bool) → Text → Text
unfolding put_left
trim_right p [] = []
trim_right p (c ∷ s) = put_left (p c) c (trim_right p s)

-- strings.Trim and strings.TrimFunc
unfoldable pub trim_both : (ℕ → Bool) → Text → Text
unfolding trim_left trim_right
trim_both p s = trim_right p (trim_left p s)

-- strings.TrimSpace
unfoldable pub trim_space : Text → Text
unfolding trim_both is_space
trim_space s = trim_both is_space s

-- No end of the text is in the set.
abbrev pub HeadClear : (ℕ → Bool) → Text → Type 0
HeadClear p [] = Unit
HeadClear p (c ∷ s) = p c ≡ false

trim_left-HeadClear : (p : ℕ → Bool) (s : Text) → HeadClear p (trim_left p s)
unfolding trim_left
trim_left-HeadClear p [] = tt
trim_left-HeadClear p (c ∷ s) = elim (Bool-cases (p c)) [
  | inl e ↦ rw e (trim_left-HeadClear p s)
  | inr e ↦ rw e e
]

pub trim_left_of_HeadClear : (p : ℕ → Bool) (s : Text) → HeadClear p s → trim_left p s ≡ s
unfolding trim_left
trim_left_of_HeadClear p [] h = refl
trim_left_of_HeadClear p (c ∷ s) h = rw h

put_left-HeadClear :
    (p : ℕ → Bool) (c : ℕ) (t : Text) → p c ≡ false → HeadClear p (put_left (p c) c t)
unfolding put_left
put_left-HeadClear p c [] h = rw h h
put_left-HeadClear p c (d ∷ t) h = h

trim_right-HeadClear : (p : ℕ → Bool) (s : Text) → HeadClear p s → HeadClear p (trim_right p s)
unfolding trim_right
trim_right-HeadClear p [] h = tt
trim_right-HeadClear p (c ∷ s) h = put_left-HeadClear p c (trim_right p s) h

pub trim_both-HeadClear : (p : ℕ → Bool) (s : Text) → HeadClear p (trim_both p s)
unfolding trim_both
trim_both-HeadClear p s = trim_right-HeadClear p (trim_left p s) (trim_left-HeadClear p s)

put_left_again :
    (p : ℕ → Bool) (c : ℕ) (t : Text)
    → trim_right p t ≡ t
    → trim_right p (put_left (p c) c t) ≡ put_left (p c) c t
unfolding trim_right
put_left_again p c [] h = ground arith
put_left_again p c (d ∷ t) h = ap (put_left (p c) c) h

trim_right_idem : (p : ℕ → Bool) (s : Text) → trim_right p (trim_right p s) ≡ trim_right p s
unfolding trim_right
trim_right_idem p [] = refl
trim_right_idem p (c ∷ s) = put_left_again p c (trim_right p s) (trim_right_idem p s)

pub trim_both_idem : (p : ℕ → Bool) (s : Text) → trim_both p (trim_both p s) ≡ trim_both p s
unfolding trim_both
trim_both_idem p s =
    rw (trim_left_of_HeadClear p _ (trim_right-HeadClear p _ (trim_left-HeadClear p s)))
      (trim_right_idem p (trim_left p s))

pub trim_space_idem : (s : Text) → trim_space (trim_space s) ≡ trim_space s
unfolding trim_space
trim_space_idem s = trim_both_idem is_space s

-- A predicate on the characters survives trimming.
module _ {ℓ} (P : ℕ → Type ℓ) (p : ℕ → Bool) where
  trim_left-All : (s : Text) → All P s → All P (trim_left p s)
  unfolding trim_left
  trim_left-All [] h = tt
  trim_left-All (c ∷ s) h = elim (Bool-cases (p c)) [
    | inl e ↦ rw e (trim_left-All s h.1)
    | inr e ↦ rw e h
  ]

  put_left-All : (b : Bool) (c : ℕ) (t : Text) → P c → All P t → All P (put_left b c t)
  unfolding put_left
  put_left-All true c [] h k = tt
  put_left-All false c [] h k = (h, tt)
  put_left-All b c (d ∷ t) h k = (h, k)

  trim_right-All : (s : Text) → All P s → All P (trim_right p s)
  unfolding trim_right
  trim_right-All [] h = tt
  trim_right-All (c ∷ s) h = put_left-All (p c) c (trim_right p s) h.0 (trim_right-All s h.1)

  pub trim_both-All : (s : Text) → All P s → All P (trim_both p s)
  unfolding trim_both
  trim_both-All s h = trim_right-All (trim_left p s) (trim_left-All s h)

-- A text of no trimmed character is left alone.
trim_right_of_clear : (p : ℕ → Bool) (s : Text) → All (λ c. p c ≡ false) s → trim_right p s ≡ s
unfolding trim_right put_left
trim_right_of_clear p [] h = refl
trim_right_of_clear p (c ∷ []) h = rw (h.0)
trim_right_of_clear p (c ∷ d ∷ s) h = ap (put_left (p c) c) (trim_right_of_clear p (d ∷ s) h.1)

clear_head : (p : ℕ → Bool) (s : Text) → All (λ c. p c ≡ false) s → HeadClear p s
clear_head p [] h = tt
clear_head p (c ∷ s) h = h.0

pub trim_both_of_clear : (p : ℕ → Bool) (s : Text) → All (λ c. p c ≡ false) s → trim_both p s ≡ s
unfolding trim_both
trim_both_of_clear p s h =
    rw (trim_left_of_HeadClear p s (clear_head p s h)) (trim_right_of_clear p s h)

-- Trimmed characters in front and behind go.
trim_left-append :
    (p : ℕ → Bool) (l s : Text) → All (λ c. p c ≡ true) l → trim_left p (l ++ s) ≡ trim_left p s
unfolding trim_left
trim_left-append p [] s h = refl
trim_left-append p (c ∷ l) s h = rw (h.0) (trim_left-append p l s h.1)

trim_right_gone : (p : ℕ → Bool) (r : Text) → All (λ c. p c ≡ true) r → trim_right p r ≡ []
unfolding trim_right put_left
trim_right_gone p [] h = refl
trim_right_gone p (c ∷ r) h = rw (trim_right_gone p r h.1, h.0)

trim_right-append :
    (p : ℕ → Bool) (s r : Text) → All (λ c. p c ≡ true) r → trim_right p (s ++ r) ≡ trim_right p s
unfolding trim_right
trim_right-append p [] r h = trim_right_gone p r h
trim_right-append p (c ∷ s) r h = ap (put_left (p c) c) (trim_right-append p s r h)

HeadClear-append : (p : ℕ → Bool) (s r : Text) → s ≢ [] → HeadClear p s → HeadClear p (s ++ r)
HeadClear-append p [] r ne h = absurd (ne refl)
HeadClear-append p (c ∷ s) r ne h = h

-- A text of no trimmed character comes back from between characters that are trimmed.
pub trim_both_between :
    (p : ℕ → Bool) (l s r : Text)
    → All (λ c. p c ≡ true) l
    → All (λ c. p c ≡ true) r
    → All (λ c. p c ≡ false) s
    → s ≢ []
    → trim_both p (l ++ (s ++ r)) ≡ s
unfolding trim_both
trim_both_between p l s r hl hr hs ne =
    rw
      (
        trim_left-append p l (s ++ r) hl,
        trim_left_of_HeadClear p (s ++ r) (HeadClear-append p s r ne (clear_head p s hs)),
        trim_right-append p s r hr,
      )
      (trim_right_of_clear p s hs)
