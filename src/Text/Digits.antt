-- ===== src/Text/Digits.antt =====
-- Decimal notation (strconv.Itoa, %d) and what Atoi reads back.
use mathlib.Core.List.{concat-ne-nil}
use sitebrush_v.Prelude.{
  ℕ, zero, suc, ◌+◌, ◌-◌, ◌*◌, ◌/◌, ◌%◌, ◌≤◌, ◌<◌, ◌≡◌, ◌≢◌, refl, true, false, [], ◌∷◌, ◌++◌, some,
  arith, ltb, between, ◌==◌, if◌then◌else◌, Bool-cases, inl, inr, ap, ◌∙◌, All, All-append,
  append_assoc, append-nil, sym,
}
use sitebrush_v.Prelude.Int.{ℤ, pos, negsuc}
use sitebrush_v.Text.Chars.{Text}
use sitebrush_v.Text.Decimal.{digits_value, unsigned, max_int64, signed, atoi}

-- The digits of n, most significant first; the fuel bounds their number.
unfoldable pub decimal_from : ℕ → ℕ → Text
decimal_from zero n = []
decimal_from (suc f) n =
    let more = decimal_from f (n / 10) ++ (n % 10 + b'0') ∷ [] in
    if ltb n 10 then (n + b'0') ∷ [] else more

unfoldable pub decimal : ℕ → Text
unfolding decimal_from
decimal n = decimal_from (suc n) n

abbrev pub IsDigitRune : ℕ → Type 0
IsDigitRune c = (b'0' ≤ c) × (c ≤ b'9')

decimal_from-All : (f n : ℕ) → All IsDigitRune (decimal_from f n)
unfolding decimal_from
decimal_from-All zero n = tt
decimal_from-All (suc f) n = elim (Bool-cases (ltb n 10)) [
  | inl e ↦ rw e (ground arith, tt)
  | inr e ↦ rw e (
      All-append IsDigitRune (decimal_from f (n / 10)) ((n % 10 + b'0') ∷ [])
        (decimal_from-All f (n / 10)) (omega arith, tt))
]

pub decimal-All : (n : ℕ) → All IsDigitRune (decimal n)
unfolding decimal
decimal-All n = decimal_from-All (suc n) n

digit_range : (d : ℕ) → d < 10 → between b'0' b'9' (d + b'0') ≡ true
digit_range d h = ground arith

digit_value : (m d : ℕ) → m * 10 + (d + b'0' - b'0') ≡ m * 10 + d
digit_value m d = omega arith

pub digits_value-digit :
    (m d : ℕ) (s : Text) → d < 10 → digits_value m ((d + b'0') ∷ s) ≡ digits_value (m * 10 + d) s
unfolding digits_value
digits_value-digit m d s h = rw (digit_range d h, digit_value m d)

digits_value-decimal_from :
    (f n : ℕ) (s : Text) → n < f → digits_value 0 (decimal_from f n ++ s) ≡ digits_value n s
unfolding decimal_from
digits_value-decimal_from zero n s h = absurd (omega arith)
digits_value-decimal_from (suc f) n s h = elim (Bool-cases (ltb n 10)) [
  | inl e ↦ rw e (
      digits_value-digit 0 n s (ground arith)
      ∙ ap (λ k. digits_value k s) (let p : 0 * 10 + n ≡ n = omega arith in p))
  | inr e ↦
      rw
        (e, append_assoc, digits_value-decimal_from f (n / 10) ((n % 10 + b'0') ∷ s) (ground arith))
        (digits_value-digit (n / 10) (n % 10) s (omega arith)
          ∙ ap (λ k. digits_value k s) (let p : n / 10 * 10 + n % 10 ≡ n = omega arith in p))
]

pub digits_value-decimal : (n : ℕ) → digits_value 0 (decimal n) ≡ some n
unfolding decimal digits_value
digits_value-decimal n =
    ap (digits_value 0) (sym (append-nil (decimal n)))
    ∙ digits_value-decimal_from (suc n) n [] (omega arith)

signed_small : (n : ℕ) → n ≤ max_int64 → signed false (some n) ≡ some (pos n)
unfolding signed
signed_small n h = ground arith

no_sign : (c b : ℕ) → IsDigitRune c → b < b'0' → (c == b) ≡ false
no_sign c b d h = ground arith

atoi_of_digits :
    (s : Text) (n : ℕ)
    → All IsDigitRune s
    → digits_value 0 s ≡ some n
    → s ≢ []
    → n ≤ max_int64
    → atoi s ≡ some (pos n)
unfolding atoi unsigned
atoi_of_digits [] n ds v h small = absurd (h refl)
atoi_of_digits (c ∷ s) n ds v h small =
    rw (no_sign c b'-' ds.0 (omega arith), no_sign c b'+' ds.0 (omega arith), v)
      (signed_small n small)

pub decimal-ne-nil : (n : ℕ) → decimal n ≢ []
unfolding decimal decimal_from
decimal-ne-nil n e = elim (Bool-cases (ltb n 10)) [
  | inl small ↦ cc (rw small at e)
  | inr large ↦ concat-ne-nil _ _ (rw large at e)
]

-- Atoi reads a printed number back, up to the largest int64.
pub atoi-decimal : (n : ℕ) → n ≤ max_int64 → atoi (decimal n) ≡ some (pos n)
atoi-decimal n h =
    atoi_of_digits (decimal n) n (decimal-All n) (digits_value-decimal n) (decimal-ne-nil n) h

-- %d of an int64
abbrev pub decimal_ℤ : ℤ → Text
decimal_ℤ (pos n) = decimal n
decimal_ℤ (negsuc n) = b'-' ∷ decimal (suc n)
