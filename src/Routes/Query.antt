-- ===== src/Routes/Query.antt =====
-- parseAction of pkg/webserver/functions.go, over url.ParseQuery.
use sitebrush_v.Prelude.{
  ℕ, ◌≡◌, ◌⊎◌, refl, subst, sym, ◌∙◌, inl, inr, Bool, true, false, not, ◌&&◌, ◌||◌, List, [], ◌∷◌,
  Option, none, some, if◌then◌else◌, ◌==◌, arith, Bool-cases, Option-cases,
}
use sitebrush_v.Text.{Text, codes, text_eq, is_empty, contains, one_of, split_on}
use sitebrush_v.Hosts.{split_first_at}
use sitebrush_v.Paths.{path_unescape}

-- "+" in a query is a space.
unfoldable pub plus_to_space : Text → Text
plus_to_space [] = []
plus_to_space (c ∷ s) = let rest = plus_to_space s in if c == b'+' then b' ' ∷ rest else c ∷ rest

-- url.QueryUnescape
unfoldable pub query_unescape : Text → Option Text
unfolding plus_to_space path_unescape
query_unescape s = path_unescape (plus_to_space s)

-- strings.Cut(s, sep) of one byte
unfoldable pub cut_at : ℕ → Text → Text × Text
unfolding split_first_at
cut_at sep s = elim (split_first_at sep s) [ none ↦ (s, []) | some parts ↦ parts ]

-- One part of a query: `none` where url.ParseQuery reports an error.
unfoldable pub parse_pair : Text → Option (Text × Text)
unfolding query_unescape cut_at
parse_pair part =
    let (key, value) = cut_at b'=' part in
    if contains b';' part then none else elim (query_unescape key) [
      | none ↦ none
      | some k ↦ elim (query_unescape value) [ none ↦ none | some v ↦ some (k, v) ]
    ]

-- The pairs of the parts that are not empty.
unfoldable pub parse_pairs : List Text → Option (List (Text × Text))
unfolding parse_pair
parse_pairs [] = some []
parse_pairs (part ∷ parts) =
    let rest = parse_pairs parts in
    if is_empty part then rest else elim (parse_pair part) [
      | none ↦ none
      | some pair ↦ elim rest [ none ↦ none | some pairs ↦ some (pair ∷ pairs) ]
    ]

-- url.ParseQuery
unfoldable pub parse_query : Text → Option (List (Text × Text))
unfolding parse_pairs split_on
parse_query query = let (first, others) = split_on b'&' query in parse_pairs (first ∷ others)

-- len(values) == 1, for the key of the first pair: every pair has that key.
unfoldable pub one_key : Text → List (Text × Text) → Bool
one_key key [] = true
one_key key ((k, v) ∷ pairs) = text_eq k key && one_key key pairs

abbrev pub known_actions : List Text
known_actions =
    codes "login"
    ∷ codes "edit"
    ∷ codes "delete"
    ∷ codes "revisions"
    ∷ codes "subpages"
    ∷ codes "properties"
    ∷ codes "freeze"
    ∷ codes "unfreeze"
    ∷ codes "backup"
    ∷ codes "profile"
    ∷ codes "logout"
    ∷ codes "health"
    ∷ codes "join"
    ∷ codes "verify"
    ∷ codes "recover"
    ∷ codes "grab"
    ∷ codes "domains"
    ∷ codes "undelete"
    ∷ codes "captcha"
    ∷ []

-- The one key with its values, of which the first is `value` and the others `more`.
unfoldable pub action_of : Text → Text → List (Text × Text) → Option Text
action_of key value [] =
    if text_eq key (codes "upload")
    then (if is_empty value || text_eq value (codes "file") || text_eq value (codes "image")
        then some key
        else none)
    else if not (is_empty value)
    then none
    else if one_of key known_actions
    then some key
    else none
action_of key value (_ ∷ more) = none

-- The loop over the values: it returns in its first round.
unfoldable pub action_of_pairs : List (Text × Text) → Option Text
unfolding one_key action_of
action_of_pairs [] = none
action_of_pairs ((key, value) ∷ pairs) =
    if one_key key pairs then action_of key value pairs else none

-- parseAction; `none` is an error.
unfoldable pub parse_action : Text → Option Text
unfolding parse_query action_of_pairs
parse_action raw_query =
    if is_empty raw_query
    then some []
    else elim (parse_query raw_query) [ none ↦ none | some pairs ↦ action_of_pairs pairs ]

one_of_cons : (s t : Text) (ts : List Text) → one_of s (t ∷ ts) ≡ (text_eq s t || one_of s ts)
unfolding one_of
one_of_cons s t ts = refl

-- The conditions under which a key is an action.
action_of_key :
    (key value : Text) (more : List (Text × Text)) (action : Text)
    → action_of key value more ≡ some action
    → (action ≡ key) × ((text_eq key (codes "upload") || one_of key known_actions) ≡ true)
unfolding action_of
action_of_key key value [] action h = elim (Bool-cases (text_eq key (codes "upload"))) [
  | inl e ↦ (ground (arith, e), ground (arith, e))
  | inr e ↦ elim (Bool-cases (one_of key known_actions)) [
    | inl f ↦ (ground (arith, e, f), ground (arith, e, f))
    | inr f ↦ absurd (ground (arith, e, f))
  ]
]
action_of_key key value (p ∷ more) action h = absurd (ground arith)

action_of_known :
    (key value : Text) (more : List (Text × Text)) (action : Text)
    → action_of key value more ≡ some action
    → one_of action (codes "upload" ∷ known_actions) ≡ true
action_of_known key value more action h =
    let (same, known) = action_of_key key value more action h in
    subst (λ a. one_of a (codes "upload" ∷ known_actions) ≡ true) (sym same)
      (one_of_cons key (codes "upload") known_actions ∙ known)

parsed_known :
    (pairs : List (Text × Text)) (action : Text)
    → action_of_pairs pairs ≡ some action
    → one_of action (codes "upload" ∷ known_actions) ≡ true
unfolding action_of_pairs
parsed_known [] action h = absurd (ground arith)
parsed_known ((key, value) ∷ pairs) action h = elim (Bool-cases (one_key key pairs)) [
  | inl e ↦ action_of_known key value pairs action (ground (arith, e))
  | inr e ↦ absurd (ground (arith, e))
]

-- The action of a query is empty for the empty query alone, and else one of the names that handle has a case for.
pub parse_action-known :
    (raw_query action : Text)
    → parse_action raw_query ≡ some action
    → ((is_empty raw_query ≡ true) × (action ≡ []))
      ⊎ ((is_empty raw_query ≡ false) × (one_of action (codes "upload" ∷ known_actions) ≡ true))
unfolding parse_action
parse_action-known raw_query action h = elim (Bool-cases (is_empty raw_query)) [
  | inl e ↦ inl (e, ground (arith, e))
  | inr e ↦ elim (Option-cases (parse_query raw_query)) [
    | inl q ↦ absurd (ground (arith, e, q))
    | inr (pairs, q) ↦ inr (e, parsed_known pairs action (ground (arith, e, q)))
  ]
]
