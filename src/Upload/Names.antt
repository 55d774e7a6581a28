-- ===== src/Upload/Names.antt =====
-- sanitizeUploadFileName of pkg/webserver/upload.go, with filepath.Ext and path.Base.
use sitebrush_v.Prelude.{
  ℕ, ◌-◌, Bool, not, ◌&&◌, ◌||◌, [], ◌∷◌, ◌++◌, if◌then◌else◌, ltb, between, ◌==◌, length, take,
}
use sitebrush_v.Text.{
  Text, codes, is_empty, text_eq, contains, is_space, trim_right, trim_both, trim_space,
}

-- filepath.Ext: the text from the last dot on, if no slash follows it.
unfoldable pub ext_of : Text → Text
ext_of [] = []
ext_of (c ∷ s) =
    let rest = ext_of s in
    if is_empty rest then (if c == b'.' && not (contains b'/' s) then c ∷ s else []) else rest

-- The text behind the last slash.
unfoldable pub after_slash : Text → Text
after_slash [] = []
after_slash (c ∷ s) =
    let rest = after_slash s in if contains b'/' s then rest else if c == b'/' then s else c ∷ s

-- path.Base
unfoldable pub base_of : Text → Text
base_of p =
    let last = after_slash (trim_right (λ c. c == b'/') p) in
    if is_empty p then codes "." else if is_empty last then codes "/" else last

-- The runes that a stored name keeps.
unfoldable pub is_name_rune : ℕ → Bool
is_name_rune c =
    between b'a' b'z' c
    || between b'A' b'Z' c
    || between b'0' b'9' c
    || c == b'.'
    || c == b'-'
    || c == b'_'

-- The loop over the runes: white space becomes "-", and other runes go.
unfoldable pub name_runes : Text → Text
name_runes [] = []
name_runes (c ∷ s) =
    let rest = name_runes s in
    if is_name_rune c then c ∷ rest else if is_space c then b'-' ∷ rest else rest

abbrev pub is_edge : ℕ → Bool
is_edge c = c == b'.' || c == b'-'

-- A name of more than 128 runes is cut, which are one byte each by then: the extension stays if it has at most 16.
unfoldable pub shorten : Text → Text
shorten name =
    let dotted = ext_of name in
    let stem = take (length name - length dotted) name in
    let ext = if ltb 16 (length dotted) then [] else dotted in
    let room = 128 - length ext in (if ltb room (length stem) then take room stem else stem) ++ ext

unfoldable pub sanitize_upload_file_name : Text → Text
sanitize_upload_file_name file_name =
    let trimmed = trim_space (base_of file_name) in
    let base =
      if text_eq trimmed (codes ".") || text_eq trimmed (codes "/") || is_empty trimmed
      then codes "upload"
      else trimmed in
    let name = trim_both is_edge (name_runes base) in
    if is_empty name then codes "upload" else if ltb 128 (length name) then shorten name else name
