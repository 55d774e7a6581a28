-- ===== src/Hosts.antt =====
-- canonicalHost of pkg/webserver/functions.go: the name of a request's host, which becomes the name of
-- a directory. net.ParseIP enters as an argument.
pub mod Names
pub mod Trusted
pub mod Domains
mod Tests
use sitebrush_v.Prelude.{
  ℕ, ◌+◌, ◌≡◌, Bool, true, false, not, ◌&&◌, ◌||◌, List, [], ◌∷◌, ◌++◌, Option, none, some,
  if◌then◌else◌, ltb, between, ◌==◌, count_if,
}
use sitebrush_v.Text.{
  Text, codes, Unicode, text_eq, is_empty, has_prefix, contains, byte_len, is_space, is_control,
  trim_space, to_lower, split_on,
}

pub data HostError : Type 0 where
  empty_host host_too_long invalid_whitespace path_like invalid_host invalid_bracketed invalid_port
        invalid_label invalid_character :
      HostError

pub data HostResult : Type 0 where
  host_ok : Text → HostResult
  host_err : HostError → HostResult

-- The text before and behind the first `sep`: strings.Index with the two slices.
unfoldable pub split_first_at : ℕ → Text → Option (Text × Text)
split_first_at sep [] = none
split_first_at sep (c ∷ s) =
    let rest = split_first_at sep s in
    if c == sep
    then some ([], s)
    else elim rest [ none ↦ none | some (before, behind) ↦ some (c ∷ before, behind) ]

-- The text before and behind the last `sep`: strings.LastIndex with the two slices.
unfoldable pub split_last_at : ℕ → Text → Option (Text × Text)
split_last_at sep [] = none
split_last_at sep (c ∷ s) =
    let rest = split_last_at sep s in
    elim rest [
      | some (before, behind) ↦ some (c ∷ before, behind)
      | none ↦ if c == sep then some ([], s) else none
    ]

-- The loop of allDigits.
unfoldable pub digits_only : Text → Bool
digits_only [] = true
digits_only (c ∷ s) = between b'0' b'9' c && digits_only s

unfoldable pub all_digits : Text → Bool
all_digits value = not (is_empty value) && digits_only value

-- strings.IndexFunc(host, …) >= 0
unfoldable pub has_blank : Text → Bool
has_blank [] = false
has_blank (c ∷ s) = is_control c || is_space c || has_blank s

-- net.SplitHostPort of a text that does not begin with "[": one colon and no bracket.
unfoldable pub split_host_port : Text → Option (Text × Text)
split_host_port host = elim (split_last_at b':' host) [
  | none ↦ none
  | some (before, port) ↦
      if contains b':' before || contains b'[' host || contains b']' host
      then none
      else some (before, port)
]

-- strings.TrimSuffix(s, ".")
unfoldable pub trim_last_dot : Text → Text
trim_last_dot [] = []
trim_last_dot (c ∷ s) =
    let rest = trim_last_dot s in
    if is_empty s then (if c == b'.' then [] else c ∷ []) else c ∷ rest

unfoldable pub is_label_rune : ℕ → Bool
is_label_rune c = between b'a' b'z' c || between b'0' b'9' c || c == b'-'

unfoldable pub label_runes : Text → Bool
label_runes [] = true
label_runes (c ∷ s) = is_label_rune c && label_runes s

-- strings.HasSuffix(s, "-")
unfoldable pub ends_with_dash : Text → Bool
ends_with_dash [] = false
ends_with_dash (c ∷ s) = let rest = ends_with_dash s in if is_empty s then c == b'-' else rest

-- The tests on one label.
unfoldable pub check_label : Text → Option HostError
check_label label =
    if is_empty label || ltb 63 (byte_len label)
    then some invalid_label
    else if has_prefix (codes "-") label || ends_with_dash label
    then some invalid_label
    else if label_runes label
    then none
    else some invalid_character

-- The loop over the labels: the first error.
unfoldable pub check_labels : List Text → Option HostError
check_labels [] = none
check_labels (label ∷ labels) =
    let rest = check_labels labels in elim (check_label label) [ some e ↦ some e | none ↦ rest ]

-- The host without its port and brackets.
unfoldable pub host_only : (Text → Bool) → Text → HostResult
host_only is_ip [] = host_err empty_host
host_only is_ip (c ∷ s) =
    let host = c ∷ s in
    if c == b'['
    then elim (split_first_at b']' s) [
      | none ↦ host_err invalid_host
      | some (literal, remainder) ↦
          if is_empty literal
          then host_err invalid_host
          else if not (is_ip literal)
          then host_err invalid_bracketed
          else elim remainder [
            | [] ↦ host_ok literal
            | d ∷ port ↦
                if not (d == b':') || not (all_digits port)
                then host_err invalid_port
                else host_ok literal
          ]
    ]
    else elim (split_host_port host) [
      | some (before, port) ↦ if all_digits port then host_ok before else host_err invalid_port
      | none ↦ elim (split_last_at b':' host) [
        | none ↦ host_ok host
        | some (before, port) ↦
            if count_if (λ d. d == b':') host == 1 && (not (is_empty before) && all_digits port)
            then host_ok before
            else if is_ip host
            then host_ok host
            else host_err invalid_host
      ]
    ]

-- From the lower-case name on.
unfoldable pub check_name : (Text → Bool) → Text → HostResult
check_name is_ip name =
    let (first, others) = split_on b'.' name in
    if is_empty name
    then host_err empty_host
    else if ltb 253 (byte_len name)
    then host_err host_too_long
    else if is_ip name
    then host_ok name
    else if text_eq name (codes "localhost")
    then host_ok name
    else if contains b'_' name
    then host_err invalid_character
    else elim (check_labels (first ∷ others)) [ none ↦ host_ok name | some e ↦ host_err e ]

unfoldable pub canonical_host : Unicode → (Text → Bool) → Text → HostResult
canonical_host u is_ip host =
    if is_empty host
    then host_err empty_host
    else if ltb 255 (byte_len host)
    then host_err host_too_long
    else if not (text_eq (trim_space host) host)
    then host_err invalid_whitespace
    else if contains b'/' host || contains b'\\' host
    then host_err path_like
    else if has_blank host
    then host_err invalid_character
    else elim (host_only is_ip host) [
      | host_err e ↦ host_err e
      | host_ok name ↦ check_name is_ip (trim_last_dot (to_lower u name))
    ]
