-- ===== src/Pages/Titles.antt =====
-- titleFromRequestURI of pkg/webserver/functions.go.
use sitebrush_v.Prelude.{true, ◌||◌, [], none, some, if◌then◌else◌}
use sitebrush_v.Routes.Runes.{trim_space_bytes}
use sitebrush_v.Text.{Text, codes, text_eq, is_empty, trim_prefix}
use sitebrush_v.Hosts.{split_last_at}
use sitebrush_v.Paths.{segments, clean_from, last_of}
use sitebrush_v.Pages.Names.{clean_uri, replace_rune}

-- strings.TrimSuffix(base, path.Ext(base))
unfoldable pub without_ext : Text → Text
unfolding split_last_at
without_ext base = elim (split_last_at b'.' base) [ none ↦ base | some (before, ext) ↦ before ]

unfoldable pub title_from_request_uri : Text → Text
unfolding clean_uri clean_from segments last_of trim_prefix without_ext replace_rune
    trim_space_bytes
title_from_request_uri uri =
    elim (last_of (clean_from true [] (segments (trim_prefix (codes "/") uri)))) [
      | none ↦ codes "Home"
      | some base ↦
          let title =
            trim_space_bytes (replace_rune b'_' b' ' (replace_rune b'-' b' ' (without_ext base))) in
          if is_empty title || text_eq title (codes ".") then clean_uri uri else title
    ]
