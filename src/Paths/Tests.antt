-- ===== src/Paths/Tests.antt =====
-- Witnesses for the files of requests: a site in /srv/web whose directories are there and whose files are not.
use sitebrush_v.Prelude.{
  ◌≡◌, ◌↔◌, refl, arith, true, false, [], ◌∷◌, Option, some, length, All, subst, if◌then◌else◌, ltb,
}
use sitebrush_v.Text.{
  Text, codes, text_eq, contains, has_prefix, strip_prefix, trim_prefix, split_on,
}
use sitebrush_v.Paths.{
  AbsPath, segments, go_up, enter, clean_from, join_slash, absolute, join_under, join_index, rel,
  rel_text, path_is_inside_root, path_unescape, path_ok, segments_safe, ends_with_slash,
  relative_path, check_target, safe_path_under_root, canonical_request_uri_for_file, Stat, exists,
  missing, existing_parent,
}
use sitebrush_v.Paths.Clean.{IsComponent}
use sitebrush_v.Paths.Inside.{Inside, path_is_inside_root_iff}
use sitebrush_v.Paths.Joined.{IsPlain}
use sitebrush_v.Paths.Safe.{LinksInside, safe_path_under_root-Inside}
use sitebrush_v.Paths.Parents.{Nearest, existing_parent-Nearest}
use sitebrush_v.Paths.Requests.{NamedBy, safe_path_under_root-canonical_request_uri_for_file}

abbrev srv : AbsPath
srv = codes "srv" ∷ []

abbrev site : AbsPath
site = codes "srv" ∷ codes "web" ∷ []

abbrev news : AbsPath
news = codes "srv" ∷ codes "web" ∷ codes "news" ∷ []

abbrev no_links : AbsPath → Option AbsPath
no_links path = some path

abbrev directories : AbsPath → Stat
directories path = if ltb (length path) 3 then exists else missing

srv-IsComponent : IsComponent (codes "srv")
unfolding text_eq contains
srv-IsComponent = record { named = refl; no_slash = refl; not_dot = refl; not_dots = refl }

web-IsComponent : IsComponent (codes "web")
unfolding text_eq contains
web-IsComponent = record { named = refl; no_slash = refl; not_dot = refl; not_dots = refl }

news-IsComponent : IsComponent (codes "news")
unfolding text_eq contains
news-IsComponent = record { named = refl; no_slash = refl; not_dot = refl; not_dots = refl }

news-IsPlain : IsPlain (codes "news")
unfolding contains
news-IsPlain = record {
  component = news-IsComponent;
  no_percent = refl;
  no_colon = refl;
  no_backslash = refl;
}

index-IsPlain : IsPlain (codes "index.html")
unfolding contains text_eq
index-IsPlain = record {
  component = record { named = refl; no_slash = refl; not_dot = refl; not_dots = refl };
  no_percent = refl;
  no_colon = refl;
  no_backslash = refl;
}

components_of_cwd : (dir : AbsPath) → some srv ≡ some dir → All IsComponent dir
components_of_cwd dir e =
    subst (All IsComponent) {x = srv} {y = dir} (ground (arith, e)) (srv-IsComponent, tt)

found_site : absolute (some srv) (codes "web") ≡ some site
unfolding absolute clean_from enter segments split_on go_up text_eq has_prefix strip_prefix
found_site = refl

sample_request :
    safe_path_under_root
      (some srv)
      no_links
      (codes "web")
      (codes "/news")
      (codes "index.html")
      false
    ≡ path_ok news
unfolding safe_path_under_root path_unescape contains has_prefix strip_prefix trim_prefix
    segments_safe segments split_on absolute clean_from enter go_up text_eq join_under relative_path
    join_index ends_with_slash check_target path_is_inside_root rel rel_text join_slash
sample_request = refl

safe_path_under_root-Inside_example :
    (root_path : AbsPath) × (absolute (some srv) (codes "web") ≡ some root_path)
    × Inside root_path news
    × All IsComponent news
    × LinksInside no_links root_path news
safe_path_under_root-Inside_example =
    safe_path_under_root-Inside (some srv) no_links components_of_cwd (codes "web") (codes "/news")
      (codes "index.html") false news sample_request

existing_parent-Nearest_example : Nearest directories news (existing_parent directories 4 news)
existing_parent-Nearest_example = existing_parent-Nearest directories 4 news (omega arith)

path_is_inside_root_iff_example : (path_is_inside_root site news ≡ true) ↔ Inside site news
path_is_inside_root_iff_example =
    path_is_inside_root_iff site news (srv-IsComponent, (web-IsComponent, (news-IsComponent, tt)))

no_links_inside : LinksInside no_links site news
unfolding path_is_inside_root rel rel_text join_slash text_eq has_prefix strip_prefix
no_links_inside real_root real_target e f = ground (arith, e, f)

safe_path_under_root-canonical_request_uri_for_file_example :
    (uri : Text) × (canonical_request_uri_for_file (codes "index.html") site news ≡ some uri)
    × (safe_path_under_root (some srv) no_links (codes "web") uri (codes "index.html") true
        ≡ path_ok news)
    × NamedBy (codes "index.html") uri (codes "news" ∷ [])
safe_path_under_root-canonical_request_uri_for_file_example =
    safe_path_under_root-canonical_request_uri_for_file (codes "index.html") index-IsPlain
      (some srv) no_links (codes "web") site found_site (srv-IsComponent, (web-IsComponent, tt))
      (codes "news") [] (news-IsPlain, tt) no_links_inside
