-- ===== src/Hosts/Names.antt =====
-- The names that canonicalHost of pkg/webserver/functions.go lets through.
use sitebrush_v.Prelude.{
  ℕ, ◌≤◌, ◌≡◌, ◌≢◌, ◌⊎◌, refl, sym, subst, All-imp, Bool, true, false, List, [], ◌∷◌, none, arith,
  All, Bool-cases, inl, inr, ◌==◌,
}
use sitebrush_v.Text.{
  split_on, Text, codes, Unicode, text_eq_sound, contains, byte_len, has_prefix, to_lower,
}
use sitebrush_v.Hosts.{
  HostError, HostResult, host_ok, host_err, is_label_rune, label_runes, ends_with_dash, check_label,
  check_labels, host_only, check_name, canonical_host, trim_last_dot,
}

-- A label of a host name.
pub record IsLabel (label : Text) : Type 0 where
  pub named : label ≢ []
  pub short : byte_len label ≤ 63
  pub runes : label_runes label ≡ true
  pub begins : has_prefix (codes "-") label ≡ false
  pub ends : ends_with_dash label ≡ false

check_label-IsLabel : (label : Text) → check_label label ≡ none → IsLabel label
unfolding check_label
check_label-IsLabel [] h = absurd (ground arith)
check_label-IsLabel (c ∷ s) h = record {
  named = λ e. cc;
  short = ground arith;
  runes = ground arith;
  begins = ground arith;
  ends = ground arith;
}

check_labels-IsLabel : (labels : List Text) → check_labels labels ≡ none → All IsLabel labels
unfolding check_labels
check_labels-IsLabel [] h = tt
check_labels-IsLabel (label ∷ labels) h =
    (check_label-IsLabel label (ground arith), check_labels-IsLabel labels (ground arith))

-- A host name is an IP address, "localhost", or labels with dots between them.
abbrev pub IsHostName : (Text → Bool) → Text → Type 0
IsHostName is_ip name =
    (is_ip name ≡ true)
    ⊎ ((name ≡ codes "localhost") ⊎ All IsLabel ((split_on b'.' name).0 ∷ (split_on b'.' name).1))

module _ (is_ip : Text → Bool) where
  check_name_same : (name found : Text) → check_name is_ip name ≡ host_ok found → found ≡ name
  unfolding check_name
  check_name_same name found h = ground arith

  check_name-IsHostName :
      (name : Text)
      → check_name is_ip name ≡ host_ok name
      → (name ≢ []) × (byte_len name ≤ 253) × IsHostName is_ip name
  unfolding check_name
  check_name-IsHostName name h = (
    λ e. ground arith,
    ground arith,
    ground (
      arith,
      text_eq_sound name (codes "localhost"),
      check_labels-IsLabel ((split_on b'.' name).0 ∷ (split_on b'.' name).1),
    ),
  )

split_on-sep :
    (sep c : ℕ) (s : Text)
    → c == sep ≡ true
    → split_on sep (c ∷ s) ≡ ([], (split_on sep s).0 ∷ (split_on sep s).1)
unfolding split_on
split_on-sep sep c s e = ground arith

split_on-other :
    (sep c : ℕ) (s : Text)
    → c == sep ≡ false
    → split_on sep (c ∷ s) ≡ (c ∷ (split_on sep s).0, (split_on sep s).1)
unfolding split_on
split_on-other sep c s e = ground arith

-- The runes of every label pass.
abbrev LabelRunes : Text × List Text → Type 0
LabelRunes parts = All (λ label. label_runes label ≡ true) (parts.0 ∷ parts.1)

first_rune :
    (c : ℕ) (s : Text)
    → label_runes (c ∷ s) ≡ true
    → (is_label_rune c ≡ true) × (label_runes s ≡ true)
unfolding label_runes
first_rune c s h = (ground arith, ground arith)

label_rune-no_slash : (c : ℕ) → is_label_rune c ≡ true → c == b'/' ≡ false
unfolding is_label_rune
label_rune-no_slash c h = ground arith

-- A name whose labels have no slash has none.
split_on-no_slash : (s : Text) → LabelRunes (split_on b'.' s) → contains b'/' s ≡ false
unfolding contains
split_on-no_slash [] h = refl
split_on-no_slash (c ∷ s) h = elim (Bool-cases (c == b'.')) [
  | inl e ↦
      let runes = subst LabelRunes (split_on-sep b'.' c s e) h in
      ground (arith, split_on-no_slash s runes.1)
  | inr e ↦
      let runes = subst LabelRunes (split_on-other b'.' c s e) h in
      let (here, there) = first_rune c (split_on b'.' s).0 runes.0 in
      ground (arith, label_rune-no_slash c here, split_on-no_slash s (there, runes.1))
]

host_cases :
    (r : HostResult) → ((name : Text) × (r ≡ host_ok name)) ⊎ ((e : HostError) × (r ≡ host_err e))
host_cases (host_ok name) = inl (name, refl)
host_cases (host_err e) = inr (e, refl)

IsLabel-label_runes :
    (labels : List Text) → All IsLabel labels → All (λ label. label_runes label ≡ true) labels
IsLabel-label_runes labels = All-imp (λ label l. l.runes) labels

-- What net.ParseIP accepts: no text with a slash, and neither "." nor "..".
pub record ParsesIp (is_ip : Text → Bool) : Type 0 where
  pub no_slash : (s : Text) → is_ip s ≡ true → contains b'/' s ≡ false
  pub not_dot : is_ip (codes ".") ≡ false
  pub not_dots : is_ip (codes "..") ≡ false

no_dot : (is_ip : Text → Bool) → ParsesIp is_ip → IsHostName is_ip (codes ".") → ⊥
unfolding split_on
no_dot is_ip p (inl ip) = ground (arith, ip, p.not_dot)
no_dot is_ip p (inr (inl local)) = ground arith
no_dot is_ip p (inr (inr labels)) = (labels.0).named refl

no_dots : (is_ip : Text → Bool) → ParsesIp is_ip → IsHostName is_ip (codes "..") → ⊥
unfolding split_on
no_dots is_ip p (inl ip) = ground (arith, ip, p.not_dots)
no_dots is_ip p (inr (inl local)) = ground arith
no_dots is_ip p (inr (inr labels)) = (labels.0).named refl

localhost-no_slash : contains b'/' (codes "localhost") ≡ false
unfolding contains
localhost-no_slash = refl

no_slash_in :
    (is_ip : Text → Bool) (name : Text)
    → ParsesIp is_ip
    → IsHostName is_ip name
    → contains b'/' name ≡ false
no_slash_in is_ip name p (inl ip) = p.no_slash name ip
no_slash_in is_ip name p (inr (inl local)) =
    subst (λ n. contains b'/' n ≡ false) (sym local) localhost-no_slash
no_slash_in is_ip name p (inr (inr labels)) =
    split_on-no_slash name
      (IsLabel-label_runes ((split_on b'.' name).0 ∷ (split_on b'.' name).1) labels)

module _ (u : Unicode) (is_ip : Text → Bool) (host name : Text) where
  checked_name : canonical_host u is_ip host ≡ host_ok name → check_name is_ip name ≡ host_ok name
  unfolding canonical_host
  checked_name h = elim (host_cases (host_only is_ip host)) [
    | inl (only, e) ↦
        let last : check_name is_ip (trim_last_dot (to_lower u only)) ≡ host_ok name =
          ground arith in
        subst (λ n. check_name is_ip n ≡ host_ok name)
          (sym (check_name_same is_ip (trim_last_dot (to_lower u only)) name last)) last
    | inr (e, failed) ↦ absurd (ground arith)
  ]

  -- A canonical host is not empty, has at most 253 bytes, and is an IP address, "localhost", or labels with dots
  -- between them, each of 1 to 63 bytes, of lower-case letters, digits and dashes, with no dash at an end.
  pub canonical_host-IsHostName :
      canonical_host u is_ip host ≡ host_ok name
      → (name ≢ []) × (byte_len name ≤ 253) × IsHostName is_ip name
  canonical_host-IsHostName h = check_name-IsHostName is_ip name (checked_name h)

  -- A canonical host is the name of one directory: it has no slash, and is neither "." nor "..", for a parser of IP
  -- addresses that accepts no such text.
  pub canonical_host-component :
      ParsesIp is_ip
      → canonical_host u is_ip host ≡ host_ok name
      → (contains b'/' name ≡ false) × (name ≢ codes ".") × (name ≢ codes "..")
  canonical_host-component p h =
      let (named, short, what) = canonical_host-IsHostName h in
      (
        no_slash_in is_ip name p what,
        λ e. no_dot is_ip p (subst (IsHostName is_ip) e what),
        λ e. no_dots is_ip p (subst (IsHostName is_ip) e what),
      )
