-- ===== src/Text/Decimal.antt =====
-- strconv.Atoi, and the decimal digits of a number.
use sitebrush_v.Prelude.{
  ℕ, ◌+◌, ◌-◌, ◌*◌, ◌^◌, Bool, true, false, [], ◌∷◌, Option, none, some, leb, between, ◌==◌,
  if◌then◌else◌,
}
use sitebrush_v.Prelude.Int.{ℤ, pos, negate}
use sitebrush_v.Text.Chars.{Text}

-- The value of a run of ASCII digits; `none` at any other character.
unfoldable pub digits_value : ℕ → Text → Option ℕ
digits_value n [] = some n
digits_value n (c ∷ s) =
    let rest = digits_value (n * 10 + (c - b'0')) s in if between b'0' b'9' c then rest else none

-- One digit at least.
unfoldable pub unsigned : Text → Option ℕ
unsigned [] = none
unsigned (c ∷ s) = digits_value 0 (c ∷ s)

abbrev pub max_int64 : ℕ
max_int64 = 2 ^ 63 - 1

-- The value within int64, at the given sign.
unfoldable pub signed : Bool → Option ℕ → Option ℤ
signed neg none = none
signed true (some n) = if leb n (max_int64 + 1) then some (negate n) else none
signed false (some n) = if leb n max_int64 then some (pos n) else none

-- strconv.Atoi; `none` stands for an error.
unfoldable pub atoi : Text → Option ℤ
atoi [] = none
atoi (c ∷ s) =
    if c == b'-'
    then signed true (unsigned s)
    else if c == b'+'
    then signed false (unsigned s)
    else signed false (unsigned (c ∷ s))
