-- ===== src/Pages/Shared.antt =====
-- Which pages share a revision directory, by revisionDir of pkg/webserver/functions.go.
use sitebrush_v.Prelude.{
  ℕ, ◌≡◌, refl, ap, sym, ◌∙◌, true, false, [], ◌∷◌, ◌++◌, if◌then◌else◌, ◌==◌, arith,
}
use sitebrush_v.Text.{
  Text, codes, text_eq, is_empty, contains, trim_prefix, strip_prefix, contains-append, trim_both,
}
use sitebrush_v.Paths.{clean_from, join_slash}
use sitebrush_v.Paths.Clean.{IsComponent, segments-join_slash, clean_from_components}
use sitebrush_v.Pages.Names.{clean_uri, replace_rune, safe_name, revision_dir}

replace_rune-append :
    (a b : ℕ) (s t : Text) → replace_rune a b (s ++ t) ≡ replace_rune a b s ++ replace_rune a b t
unfolding replace_rune
replace_rune-append a b [] t = refl
replace_rune-append a b (c ∷ s) t = ground (arith, replace_rune-append a b s t)

clean_uri_component : (c : Text) → IsComponent c → clean_uri (b'/' ∷ c) ≡ b'/' ∷ c
unfolding clean_uri trim_prefix strip_prefix join_slash
clean_uri_component c h =
    ap (λ r. b'/' ∷ join_slash (clean_from true [] r)) (segments-join_slash c [] (h.no_slash, tt))
    ∙ ap (λ r. b'/' ∷ join_slash r) (clean_from_components true [] (c ∷ []) (h, tt))

clean_uri_components :
    (c d : Text)
    → IsComponent c
    → IsComponent d
    → clean_uri (b'/' ∷ (c ++ b'/' ∷ d)) ≡ b'/' ∷ (c ++ b'/' ∷ d)
unfolding clean_uri trim_prefix strip_prefix join_slash
clean_uri_components c d h k =
    ap (λ r. b'/' ∷ join_slash (clean_from true [] r))
      (segments-join_slash c (d ∷ []) (h.no_slash, (k.no_slash, tt)))
    ∙ ap (λ r. b'/' ∷ join_slash r) (clean_from_components true [] (c ∷ d ∷ []) (h, (k, tt)))

underscore-IsComponent : (c d : Text) → IsComponent c → IsComponent d → IsComponent (c ++ b'_' ∷ d)
unfolding contains text_eq
underscore-IsComponent [] d h k = absurd (ground (arith, h.named))
underscore-IsComponent (x ∷ c) d h k = record {
  named = refl;
  no_slash = ground (arith, h.no_slash, k.no_slash, contains-append b'/' (x ∷ c) (b'_' ∷ d));
  not_dot = no_dot c;
  not_dots = no_dots c;
}
  where
    no_dot : (c : Text) → text_eq (x ∷ (c ++ b'_' ∷ d)) (codes ".") ≡ false
    no_dot [] = ground arith
    no_dot (y ∷ c) = ground arith

    no_dots : (c : Text) → text_eq (x ∷ (c ++ b'_' ∷ d)) (codes "..") ≡ false
    no_dots [] = ground arith
    no_dots (y ∷ []) = ground arith
    no_dots (y ∷ z ∷ c) = ground arith

replaced :
    (c d : Text)
    → replace_rune b'/' b'_' (b'/' ∷ (c ++ b'/' ∷ d))
      ≡ replace_rune b'/' b'_' (b'/' ∷ (c ++ b'_' ∷ d))
unfolding replace_rune
replaced c d =
    ground (
      arith,
      replace_rune-append b'/' b'_' c (b'/' ∷ d),
      replace_rune-append b'/' b'_' c (b'_' ∷ d),
    )

same_name :
    (c d : Text)
    → IsComponent c
    → IsComponent d
    → replace_rune b'/' b'_' (clean_uri (b'/' ∷ (c ++ b'/' ∷ d)))
      ≡ replace_rune b'/' b'_' (clean_uri (b'/' ∷ (c ++ b'_' ∷ d)))
same_name c d h k =
    ap (replace_rune b'/' b'_') (clean_uri_components c d h k)
    ∙ replaced c d
    ∙ sym (
        ap (replace_rune b'/' b'_')
          (clean_uri_component (c ++ b'_' ∷ d) (underscore-IsComponent c d h k)))

-- A page in a directory has the revision directory of another page, whose name has an underscore where the path has
-- the slash: /a/b and /a_b keep their revisions in one place.
pub revision_dir_shared :
    (c d : Text)
    → IsComponent c
    → IsComponent d
    → revision_dir (b'/' ∷ (c ++ b'/' ∷ d)) ≡ revision_dir (b'/' ∷ (c ++ b'_' ∷ d))
unfolding revision_dir safe_name
revision_dir_shared c d h k =
    ap
      (λ s.
        let name = trim_both (λ c. c == b'_') s in if is_empty name then codes "index" else name)
      (same_name c d h k)
