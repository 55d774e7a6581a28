-- ===== src/Pages/Json.antt =====
-- What is left of a string of bytes that encoding/json writes and reads again.
use sitebrush_v.Prelude.{
  ℕ, false, zero, suc, ◌-◌, ◌<◌, ◌≡◌, refl, ap, ◌∙◌, ◌&&◌, [], ◌∷◌, ◌==◌, if◌then◌else◌, All, arith,
}
use sitebrush_v.Text.{Text}
use sitebrush_v.Routes.Runes.{decode_rune, trim_space_bytes}

-- The bytes of U+FFFD stand for every byte that is not part of valid UTF-8; the first `skip` bytes are the rest of a rune.
unfoldable pub as_utf8_after : ℕ → Text → Text
unfolding decode_rune
as_utf8_after skip [] = []
as_utf8_after (suc skip) (c ∷ s) = c ∷ as_utf8_after skip s
as_utf8_after zero (c ∷ s) =
    let (rune, width) = decode_rune c s in
    let replaced = as_utf8_after 0 s in
    let kept = as_utf8_after (width - 1) s in
    if rune == 0xFFFD && width == 1 then 0xEF ∷ 0xBF ∷ 0xBD ∷ replaced else c ∷ kept

unfoldable pub as_utf8 : Text → Text
unfolding as_utf8_after
as_utf8 s = as_utf8_after 0 s

decode_rune-ascii : (c : ℕ) (s : Text) → c < 0x80 → decode_rune c s ≡ (c, 1)
unfolding decode_rune
decode_rune-ascii c [] h = ground arith
decode_rune-ascii c (a ∷ []) h = ground arith
decode_rune-ascii c (a ∷ b ∷ []) h = ground arith
decode_rune-ascii c (a ∷ b ∷ d ∷ s) h = ground arith

-- One step, for the rune that the first byte begins.
abbrev step : ℕ → Text → ℕ × ℕ → Text
step c s (rune, width) =
    let replaced = as_utf8_after 0 s in
    let kept = as_utf8_after (width - 1) s in
    if rune == 0xFFFD && width == 1 then 0xEF ∷ 0xBF ∷ 0xBD ∷ replaced else c ∷ kept

as_utf8_after-step : (c : ℕ) (s : Text) → as_utf8_after 0 (c ∷ s) ≡ step c s (decode_rune c s)
unfolding as_utf8_after
as_utf8_after-step c s = refl

step-ascii : (c : ℕ) (s : Text) → c < 0x80 → step c s (c, 1) ≡ c ∷ as_utf8_after 0 s
step-ascii c s h = ground (arith, small)
  where
    small : (c == 0xFFFD) ≡ false
    small = ground arith

as_utf8_after-ascii :
    (c : ℕ) (s : Text) → c < 0x80 → as_utf8_after 0 (c ∷ s) ≡ c ∷ as_utf8_after 0 s
as_utf8_after-ascii c s h =
    as_utf8_after-step c s ∙ ap (step c s) (decode_rune-ascii c s h) ∙ step-ascii c s h

-- Text in ASCII stays as it is.
pub as_utf8-ascii : (s : Text) → All (λ c. c < 0x80) s → as_utf8 s ≡ s
unfolding as_utf8 as_utf8_after
as_utf8-ascii [] h = refl
as_utf8-ascii (c ∷ s) h = as_utf8_after-ascii c s h.0 ∙ ap (λ r. c ∷ r) (as_utf8-ascii s h.1)

-- A byte that starts no rune is written as U+FFFD, and a two-byte rune is kept.
sample_invalid : as_utf8 (0x61 ∷ 0xE9 ∷ 0x62 ∷ []) ≡ 0x61 ∷ 0xEF ∷ 0xBF ∷ 0xBD ∷ 0x62 ∷ []
unfolding as_utf8
sample_invalid = refl

sample_valid : as_utf8 (0xC3 ∷ 0xA9 ∷ []) ≡ 0xC3 ∷ 0xA9 ∷ []
unfolding as_utf8
sample_valid = refl

-- A no-break space is trimmed, and a letter whose last byte is 0xA0 is kept.
sample_trim :
    trim_space_bytes (0x20 ∷ 0xC2 ∷ 0xA0 ∷ 0x61 ∷ 0x20 ∷ 0xC3 ∷ 0xA0 ∷ 0x20 ∷ [])
    ≡ 0x61 ∷ 0x20 ∷ 0xC3 ∷ 0xA0 ∷ []
unfolding trim_space_bytes
sample_trim = refl
