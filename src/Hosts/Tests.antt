-- ===== src/Hosts/Tests.antt =====
-- Witnesses for canonical hosts, with one IP address that the parser knows.
use sitebrush_v.Prelude.{◌↔◌, ◌⊎◌, true, Option, none, some, ◌≤◌, ◌≡◌, ◌≢◌, refl, Bool, []}
use sitebrush_v.Text.{
  split_on, Text, codes, ascii_only, text_eq, contains, byte_len, has_prefix, strip_prefix,
  is_space, is_control, trim_space, trim_both, trim_left, trim_right, to_lower, to_lower_rune,
}
use sitebrush_v.Hosts.{
  host_ok, split_first_at, split_last_at, digits_only, all_digits, has_blank, split_host_port,
  trim_last_dot, is_label_rune, label_runes, ends_with_dash, check_label, check_labels, host_only,
  check_name, canonical_host,
}
use sitebrush_v.Hosts.Trusted.{trusted_db_revision_domain}
use sitebrush_v.Hosts.Domains.{IsListed, IsLocal, entries, trusted_db_revision_domain_iff}
use sitebrush_v.Hosts.Names.{IsHostName, canonical_host-IsHostName}

abbrev loopback : Text → Bool
loopback s = text_eq s (codes "127.0.0.1")

sample_host :
    canonical_host ascii_only loopback (codes "Example.ORG:8080") ≡ host_ok (codes "example.org")
unfolding canonical_host split_first_at split_last_at split_on digits_only all_digits has_blank
    split_host_port trim_last_dot is_label_rune label_runes ends_with_dash check_label check_labels
    host_only check_name text_eq contains has_prefix strip_prefix is_space is_control trim_space
    trim_both trim_left trim_right to_lower to_lower_rune
sample_host = refl

canonical_host-IsHostName_example :
    (codes "example.org" ≢ [])
    × (byte_len (codes "example.org") ≤ 253)
    × IsHostName loopback (codes "example.org")
canonical_host-IsHostName_example =
    canonical_host-IsHostName ascii_only loopback (codes "Example.ORG:8080") (codes "example.org")
      sample_host

-- The part before the last colon.
abbrev remote_host : Text → Option Text
unfolding split_host_port
remote_host address = elim (split_host_port address) [ none ↦ none | some (host, port) ↦ some host ]

abbrev request_host : Text
request_host = codes "Example.ORG:8080"

abbrev allowed_hosts : Text
allowed_hosts = codes "other.org, example.org"

trusted_db_revision_domain_iff_example :
    (trusted_db_revision_domain ascii_only loopback loopback remote_host allowed_hosts request_host
        (codes "9.9.9.9:1")
      ≡ (codes "example.org", true))
    ↔ ((canonical_host ascii_only loopback request_host ≡ host_ok (codes "example.org"))
        × (IsListed ascii_only loopback loopback remote_host
              (codes "example.org")
              (entries ascii_only loopback loopback remote_host allowed_hosts)
            ⊎ IsLocal ascii_only loopback loopback remote_host
                (codes "example.org")
                (codes "9.9.9.9:1")))
trusted_db_revision_domain_iff_example =
    trusted_db_revision_domain_iff ascii_only loopback loopback remote_host allowed_hosts
      request_host (codes "9.9.9.9:1") (codes "example.org")
