-- ===== src/Text/Chars.antt =====
-- Code points: package unicode. Two of its tables enter as an argument, beyond ASCII only.
use Prim.Native.Char.{code}
use sitebrush_v.Prelude.{
  ℕ, ◌+◌, ◌<◌, ◌≡◌, Bool, false, ◌||◌, List, [], ◌∷◌, String, arith, ltb, between, ◌==◌,
  if◌then◌else◌,
}

abbrev pub Text : Type 0
Text = List ℕ

-- The code points of a literal.
abbrev pub codes : String → Text
codes String.[] = []
codes (String.◌∷◌ c s) = code c ∷ codes s

-- `unicode.ToLower` and `unicode.IsDigit` on the code points from 128 on.
pub record Unicode : Type 0 where
  pub wide_lower : ℕ → ℕ
  pub wide_digit : ℕ → Bool

-- A table without letters or digits beyond ASCII.
abbrev pub ascii_only : Unicode
ascii_only = record { wide_lower = λ c. c; wide_digit = λ c. false }

-- unicode.IsSpace: White_Space, in full.
unfoldable pub is_space : ℕ → Bool
is_space c =
    between 9 13 c
    || (c == 32)
    || (c == 0x85)
    || (c == 0xA0)
    || (c == 0x1680)
    || between 0x2000 0x200A c
    || (c == 0x2028)
    || (c == 0x2029)
    || (c == 0x202F)
    || (c == 0x205F)
    || (c == 0x3000)

-- unicode.IsControl: the category Cc.
unfoldable pub is_control : ℕ → Bool
is_control c = ltb c 32 || between 0x7F 0x9F c

-- unicode.ToLower
unfoldable pub to_lower_rune : Unicode → ℕ → ℕ
to_lower_rune u c =
    if ltb c 128 then (if between b'A' b'Z' c then c + 32 else c) else u.wide_lower c

-- unicode.IsDigit
unfoldable pub is_digit : Unicode → ℕ → Bool
is_digit u c = if ltb c 128 then between b'0' b'9' c else u.wide_digit c

-- utf8.RuneLen
abbrev pub rune_len : ℕ → ℕ
rune_len c = if ltb c 0x80 then 1 else if ltb c 0x800 then 2 else if ltb c 0x10000 then 3 else 4

-- len(s)
abbrev pub byte_len : Text → ℕ
byte_len [] = 0
byte_len (c ∷ s) = rune_len c + byte_len s

pub is_space-lower-ascii :
    (u : Unicode) (c : ℕ) → c < 128 → is_space (to_lower_rune u c) ≡ is_space c
unfolding is_space to_lower_rune
is_space-lower-ascii u c h = ground arith
