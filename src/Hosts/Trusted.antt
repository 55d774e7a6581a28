-- ===== src/Hosts/Trusted.antt =====
-- trustedDBRevisionDomain of pkg/webserver/functions.go: the domain under which a request's rows are stored.
-- net.ParseIP with IsLoopback, and net.SplitHostPort, enter as arguments.
use sitebrush_v.Prelude.{
  ℕ, ◌==◌, Bool, true, false, not, ◌&&◌, ◌||◌, List, [], ◌∷◌, Option, none, some, if◌then◌else◌,
}
use sitebrush_v.Text.{Text, codes, Unicode, text_eq, is_empty, trim_space, trim_both, split_on}
use sitebrush_v.Hosts.{host_ok, host_err, canonical_host}

abbrev pub default_db_domain : Text
default_db_domain = codes "default"

module _ (u : Unicode) (is_ip is_loopback : Text → Bool) (remote_host : Text → Option Text) where
  -- The loop over SITEBRUSH_ALLOWED_HOSTS.
  unfoldable pub is_allowed : Text → List Text → Bool
  unfolding canonical_host trim_space text_eq
  is_allowed host [] = false
  is_allowed host (allowed ∷ hosts) =
      let rest = is_allowed host hosts in
      let trimmed = trim_space allowed in
      if is_empty trimmed then rest else elim (canonical_host u is_ip trimmed) [
        | host_err e ↦ rest
        | host_ok canonical ↦ text_eq canonical host || rest
      ]

  unfoldable pub is_local_dev_host : Text → Bool
  unfolding text_eq
  is_local_dev_host host = text_eq host (codes "localhost") || is_loopback host

  -- strings.Trim(host, "[]")
  abbrev pub is_bracket : ℕ → Bool
  is_bracket c = c == b'[' || c == b']'

  unfoldable pub is_loopback_remote_addr : Text → Bool
  unfolding trim_both
  is_loopback_remote_addr address =
      let host : Text = elim (remote_host address) [ none ↦ address | some h ↦ h ] in
      not (is_empty address) && is_loopback (trim_both is_bracket host)

  -- The domain, and whether it is trusted, for the environment's text, the request's host and its remote address.
  unfoldable pub trusted_db_revision_domain : Text → Text → Text → Text × Bool
  unfolding is_allowed is_local_dev_host is_loopback_remote_addr split_on canonical_host
  trusted_db_revision_domain allowed request_host address =
      let (first, others) = split_on b',' allowed in
      elim (canonical_host u is_ip request_host) [
        | host_err e ↦ (default_db_domain, false)
        | host_ok host ↦
            if is_allowed host (first ∷ others)
              || (is_local_dev_host host && is_loopback_remote_addr address)
            then (host, true)
            else (default_db_domain, false)
      ]
