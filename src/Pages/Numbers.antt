-- ===== src/Pages/Numbers.antt =====
-- Revision records in the order of their numbers, for loadRevisions, nextRevision and findRevision of
-- pkg/webserver/functions.go.
use sitebrush_v.Prelude.{
  ℕ, ◌≡◌, refl, sym, ap, subst, ◌∙◌, true, false, List, [], ◌∷◌, ◌++◌, Option, none, some, arith,
  inl, inr, Bool-cases,
}
use sitebrush_v.Prelude.Int.{ℤ, pos, negsuc, ltb_ℤ}
use sitebrush_v.Text.{
  text_eq, text_eq_self, text_eq_sound, decimal, decimal_ℤ, digits_value, digits_value-decimal,
}
use sitebrush_v.Pages.{
  RevisionRecord, Entry, is_json, read_entries, insert_revision, sort_revisions, max_from,
  first_numbered,
}

-- Every number is above the one before, and the first is above `m`.
abbrev pub Ascending : ℤ → List RevisionRecord → Type 0
Ascending m [] = Unit
Ascending m (r ∷ rs) = (ltb_ℤ m r.revision ≡ true) × Ascending r.revision rs

-- The last number, or `m`.
abbrev pub last_from : ℤ → List RevisionRecord → ℤ
last_from m [] = m
last_from m (r ∷ rs) = last_from r.revision rs

pub max_from-Ascending :
    (m : ℤ) (rs : List RevisionRecord) → Ascending m rs → max_from m rs ≡ last_from m rs
unfolding max_from
max_from-Ascending m [] h = refl
max_from-Ascending m (r ∷ rs) h = ground (arith, h.0, max_from-Ascending r.revision rs h.1)

pub Ascending-append :
    (m : ℤ) (rs : List RevisionRecord) (r : RevisionRecord)
    → Ascending m rs
    → ltb_ℤ (last_from m rs) r.revision ≡ true
    → Ascending m (rs ++ r ∷ [])
Ascending-append m [] r h k = (k, tt)
Ascending-append m (s ∷ rs) r h k = (h.0, Ascending-append s.revision rs r h.1 k)

ltb_ℤ_asym : (a b : ℤ) → ltb_ℤ a b ≡ true → ltb_ℤ b a ≡ false
ltb_ℤ_asym (pos a) (pos b) h = ground arith
ltb_ℤ_asym (pos a) (negsuc b) h = ground arith
ltb_ℤ_asym (negsuc a) (pos b) h = ground arith
ltb_ℤ_asym (negsuc a) (negsuc b) h = ground arith

ltb_ℤ_trans : (a b c : ℤ) → ltb_ℤ a b ≡ true → ltb_ℤ b c ≡ true → ltb_ℤ a c ≡ true
ltb_ℤ_trans a b c h k = ground arith

insert-Ascending :
    (r : RevisionRecord) (rs : List RevisionRecord)
    → Ascending r.revision rs
    → insert_revision r rs ≡ r ∷ rs
unfolding insert_revision
insert-Ascending r [] h = refl
insert-Ascending r (s ∷ rs) h = ground (arith, ltb_ℤ_asym r.revision s.revision h.0)

pub sort-Ascending : (m : ℤ) (rs : List RevisionRecord) → Ascending m rs → sort_revisions rs ≡ rs
unfolding sort_revisions
sort-Ascending m [] h = refl
sort-Ascending m (r ∷ rs) h =
    ap (insert_revision r) (sort-Ascending r.revision rs h.1) ∙ insert-Ascending r rs h.1

abbrev snoc : Option (List RevisionRecord) → RevisionRecord → Option (List RevisionRecord)
snoc none r = none
snoc (some rs) r = some (rs ++ r ∷ [])

-- One more record at the end.
read_entries-snoc :
    (es : List Entry) (e : Entry) (r : RevisionRecord)
    → e.is_dir ≡ false
    → is_json e.name ≡ true
    → e.content ≡ some r
    → read_entries (es ++ e ∷ []) ≡ snoc (read_entries es) r
unfolding read_entries
read_entries-snoc [] e r d j c = ground arith
read_entries-snoc (x ∷ es) e r d j c = ground (arith, read_entries-snoc es e r d j c)

pub read_entries-append :
    (es : List Entry) (e : Entry) (rs : List RevisionRecord) (r : RevisionRecord)
    → read_entries es ≡ some rs
    → e.is_dir ≡ false
    → is_json e.name ≡ true
    → e.content ≡ some r
    → read_entries (es ++ e ∷ []) ≡ some (rs ++ r ∷ [])
read_entries-append es e rs r h d j c = read_entries-snoc es e r d j c ∙ ap (λ o. snoc o r) h

-- Two numbers that are printed alike are one.
decimal-inj : (m n : ℕ) → decimal m ≡ decimal n → m ≡ n
decimal-inj m n h =
    let e : some m ≡ some n =
      sym (digits_value-decimal m) ∙ ap (digits_value 0) h ∙ digits_value-decimal n in
    ground arith

decimal_above :
    (m n : ℕ)
    → ltb_ℤ (pos m) (pos n) ≡ true
    → text_eq (decimal_ℤ (pos m)) (decimal_ℤ (pos n)) ≡ false
decimal_above m n h = elim (Bool-cases (text_eq (decimal m) (decimal n))) [
  | inr e ↦ e
  | inl e ↦ absurd (ground (arith, decimal-inj m n (text_eq_sound (decimal m) (decimal n) e)))
]

positive : (k : ℕ) (z : ℤ) → ltb_ℤ (pos k) z ≡ true → (n : ℕ) × (z ≡ pos n)
positive k (pos n) h = (n, refl)
positive k (negsuc n) h = absurd (ground arith)

Ascending-above :
    (m : ℤ) (before : List RevisionRecord) (r : RevisionRecord) (after : List RevisionRecord)
    → Ascending m (before ++ r ∷ after)
    → ltb_ℤ m r.revision ≡ true
Ascending-above m [] r after h = h.0
Ascending-above m (s ∷ before) r after h =
    ltb_ℤ_trans m s.revision r.revision h.0 (Ascending-above s.revision before r after h.1)

-- Where the numbers are ascending, the record with a number is found by it.
pub first_numbered-Ascending :
    (k : ℕ) (before : List RevisionRecord) (r : RevisionRecord) (after : List RevisionRecord)
    → Ascending (pos k) (before ++ r ∷ after)
    → first_numbered (decimal_ℤ r.revision) (before ++ r ∷ after) ≡ some r
unfolding first_numbered
first_numbered-Ascending k [] r after h = ground (arith, text_eq_self (decimal_ℤ r.revision))
first_numbered-Ascending k (s ∷ before) r after h =
    let (i, e) = positive k s.revision h.0 in
    let rest = subst (λ z. Ascending z (before ++ r ∷ after)) e h.1 in
    let above = Ascending-above (pos i) before r after rest in
    let (j, f) = positive i r.revision above in
    let other : text_eq (decimal_ℤ s.revision) (decimal_ℤ r.revision) ≡ false =
      rw (e, f) (decimal_above i j (subst (λ z. ltb_ℤ (pos i) z ≡ true) f above)) in
    ground (arith, other, first_numbered-Ascending i before r after rest)
