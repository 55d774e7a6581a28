-- ===== src/Migration/Joins.antt =====
-- derivedJoinDomain of pkg/migration/migration.go: the domain of a join row.
use sitebrush_v.Prelude.{◌≡◌, ◌≢◌, refl, List, [], ◌∷◌, Bool-cases, inl, inr, map}
use sitebrush_v.Prelude.Int.{ℤ}
use sitebrush_v.Text.{Text, text_eq, trim_space, text_eq_sound, text_eq_comm, text_eq_iff}
use sitebrush_v.Migration.Fields.{
  Warning, WarningCode, missing_domain, domain_mismatch, DomainMap, choose_domain,
  derived_join_domain,
}

abbrev pub warning_codes : List Warning → List WarningCode
warning_codes = map (λ w. w.code)

-- What the two related rows say of the domain: a blank one says nothing.
pub data Verdict : Text → Text → Text → List WarningCode → Type 0 where
  agreed : {d : Text} → d ≢ [] → Verdict d d d []
  left_only : {d : Text} → d ≢ [] → Verdict d [] d []
  right_only : {d : Text} → d ≢ [] → Verdict [] d d []
  neither : Verdict [] [] [] (missing_domain ∷ [])
  differ : {a b : Text} → a ≢ [] → b ≢ [] → a ≢ b → Verdict a b [] (domain_mismatch ∷ [])

choose_domain-Verdict :
    (entity : Text) (id : ℤ) (a b : Text)
    → Verdict a b (choose_domain entity id a b).0 (warning_codes (choose_domain entity id a b).1)
unfolding choose_domain
choose_domain-Verdict entity id [] [] = neither
choose_domain-Verdict entity id [] (c ∷ b) = right_only (cc)
choose_domain-Verdict entity id (c ∷ a) [] = left_only (cc)
choose_domain-Verdict entity id (c ∷ a) (d ∷ b) = elim (Bool-cases (text_eq (c ∷ a) (d ∷ b))) [
  | inl same ↦ rw (same, text_eq_sound (c ∷ a) (d ∷ b) same) (agreed (cc))
  | inr other ↦ rw other (differ (cc) (cc) (λ e. cc (other, (text_eq_iff (c ∷ a) (d ∷ b)).1 e)))
]

module _ (entity : Text) (left_id right_id : ℤ) (left right : DomainMap) where
  -- The join row gets the trimmed domain that both rows have, or that the one row has which has
  -- one, with no warning; it gets no domain, and one warning, if neither row has a domain
  -- (missing_domain) or if they differ (domain_mismatch).
  pub derived_join_domain-Verdict :
      Verdict
        (trim_space (left left_id))
        (trim_space (right right_id))
        (derived_join_domain entity left_id right_id left right).0
        (warning_codes (derived_join_domain entity left_id right_id left right).1)
  unfolding derived_join_domain
  derived_join_domain-Verdict =
      choose_domain-Verdict entity left_id (trim_space (left left_id)) (trim_space (right right_id))

choose_domain_comm :
    (entity : Text) (i j : ℤ) (a b : Text)
    → (choose_domain entity i a b).0 ≡ (choose_domain entity j b a).0
unfolding choose_domain
choose_domain_comm entity i j [] [] = refl
choose_domain_comm entity i j [] (c ∷ b) = refl
choose_domain_comm entity i j (c ∷ a) [] = refl
choose_domain_comm entity i j (c ∷ a) (d ∷ b) = elim (Bool-cases (text_eq (c ∷ a) (d ∷ b))) [
  | inl same ↦ rw (same, text_eq_comm (d ∷ b) (c ∷ a), same) (text_eq_sound (c ∷ a) (d ∷ b) same)
  | inr other ↦ rw (other, text_eq_comm (d ∷ b) (c ∷ a), other)
]

-- The derived domain does not depend on which row is the left one.
pub derived_join_domain_comm :
    (entity : Text) (i j : ℤ) (a b : DomainMap)
    → (derived_join_domain entity i j a b).0 ≡ (derived_join_domain entity j i b a).0
unfolding derived_join_domain
derived_join_domain_comm entity i j a b = choose_domain_comm entity i j _ _
