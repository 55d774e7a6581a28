-- ===== src/Routes/Runes.antt =====
-- The runes of a string of bytes, as Go's range loop decodes them.
use sitebrush_v.Prelude.{
  ℕ, false, not, zero, suc, ◌+◌, ◌-◌, ◌*◌, Bool, ◌&&◌, [], ◌∷◌, if◌then◌else◌, between, ltb, ◌==◌,
}
use sitebrush_v.Text.{Text, is_space, trim_both}

abbrev continues : ℕ → Bool
continues c = between 0x80 0xBF c

-- Whether the first continuation byte may stand behind a byte that begins three or four of them.
abbrev fits : ℕ → ℕ → Bool
fits c a =
    if c == 0xE0
    then between 0xA0 0xBF a
    else if c == 0xED
    then between 0x80 0x9F a
    else if c == 0xF0
    then between 0x90 0xBF a
    else if c == 0xF4
    then between 0x80 0x8F a
    else continues a

-- The first rune and its width in bytes; an invalid encoding is U+FFFD, one byte wide.
unfoldable pub decode_rune : ℕ → Text → ℕ × ℕ
decode_rune c [] = if ltb c 0x80 then (c, 1) else (0xFFFD, 1)
decode_rune c (a ∷ []) =
    if ltb c 0x80
    then (c, 1)
    else if between 0xC2 0xDF c && continues a
    then ((c - 0xC0) * 0x40 + (a - 0x80), 2)
    else (0xFFFD, 1)
decode_rune c (a ∷ b ∷ []) =
    if ltb c 0x80
    then (c, 1)
    else if between 0xC2 0xDF c && continues a
    then ((c - 0xC0) * 0x40 + (a - 0x80), 2)
    else if between 0xE0 0xEF c && (fits c a && continues b)
    then ((c - 0xE0) * 0x1000 + (a - 0x80) * 0x40 + (b - 0x80), 3)
    else (0xFFFD, 1)
decode_rune c (a ∷ b ∷ d ∷ s) =
    if ltb c 0x80
    then (c, 1)
    else if between 0xC2 0xDF c && continues a
    then ((c - 0xC0) * 0x40 + (a - 0x80), 2)
    else if between 0xE0 0xEF c && (fits c a && continues b)
    then ((c - 0xE0) * 0x1000 + (a - 0x80) * 0x40 + (b - 0x80), 3)
    else if between 0xF0 0xF4 c && (fits c a && (continues b && continues d))
    then ((c - 0xF0) * 0x40000 + (a - 0x80) * 0x1000 + (b - 0x80) * 0x40 + (d - 0x80), 4)
    else (0xFFFD, 1)

-- The runes of what follows the bytes of the last one.
unfoldable pub runes_after : ℕ → Text → Text
unfolding decode_rune
runes_after skip [] = []
runes_after (suc skip) (c ∷ s) = runes_after skip s
runes_after zero (c ∷ s) = let (rune, width) = decode_rune c s in rune ∷ runes_after (width - 1) s

unfoldable pub runes : Text → Text
unfolding runes_after
runes s = runes_after 0 s

-- Every byte of a rune that unicode.IsSpace holds of gets 256 more; the first `skip` bytes are the rest of a rune that is
-- one or not.
unfoldable pub mark_spaces : ℕ → Bool → Text → Text
unfolding decode_rune is_space
mark_spaces skip inside [] = []
mark_spaces (suc skip) inside (c ∷ s) = (if inside then c + 256 else c) ∷ mark_spaces skip inside s
mark_spaces zero inside (c ∷ s) =
    let (rune, width) = decode_rune c s in
    (if is_space rune then c + 256 else c) ∷ mark_spaces (width - 1) (is_space rune) s

unfoldable pub unmark_spaces : Text → Text
unmark_spaces [] = []
unmark_spaces (c ∷ s) = (if ltb c 256 then c else c - 256) ∷ unmark_spaces s

-- strings.TrimSpace of a string of bytes.
unfoldable pub trim_space_bytes : Text → Text
unfolding mark_spaces unmark_spaces trim_both
trim_space_bytes s = unmark_spaces (trim_both (λ c. not (ltb c 256)) (mark_spaces 0 false s))
