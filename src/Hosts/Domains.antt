-- ===== src/Hosts/Domains.antt =====
-- Which domains trustedDBRevisionDomain of pkg/webserver/functions.go trusts.
use sitebrush_v.Prelude.{
  ◌≡◌, ◌↔◌, ◌⊎◌, refl, ap, sym, subst, ◌∙◌, inl, inr, Bool, true, ◌&&◌, ◌||◌, List, [], ◌∷◌, ◌++◌,
  Option, arith, Bool-cases,
}
use sitebrush_v.Text.{
  Text, Unicode, text_eq, text_eq_sound, text_eq_self, is_empty, trim_space, split_on,
}
use sitebrush_v.Hosts.{HostError, HostResult, host_ok, host_err, empty_host, canonical_host}
use sitebrush_v.Hosts.Trusted.{
  is_allowed, is_local_dev_host, is_loopback_remote_addr, trusted_db_revision_domain,
}

HostResult-cases :
    (r : HostResult) → ((host : Text) × (r ≡ host_ok host)) ⊎ ((e : HostError) × (r ≡ host_err e))
HostResult-cases (host_ok host) = inl (host, refl)
HostResult-cases (host_err e) = inr (e, refl)

module _ (u : Unicode) (is_ip is_loopback : Text → Bool) (remote_host : Text → Option Text) where
  -- One of the entries is a spelling of the host.
  abbrev pub IsListed : Text → List Text → Type 0
  IsListed host hosts =
      (before behind : List Text) × (allowed : Text) × (hosts ≡ before ++ allowed ∷ behind)
      × (canonical_host u is_ip (trim_space allowed) ≡ host_ok host)

  later :
      (host allowed : Text) (hosts : List Text)
      → IsListed host hosts
      → IsListed host (allowed ∷ hosts)
  later host allowed hosts (before, behind, a, e, c) =
      (allowed ∷ before, behind, a, ap (λ r. allowed ∷ r) e, c)

  is_allowed-IsListed :
      (host : Text) (hosts : List Text)
      → is_allowed u is_ip is_loopback remote_host host hosts ≡ true
      → IsListed host hosts
  unfolding is_allowed
  is_allowed-IsListed host [] h = absurd (ground (arith, h))
  is_allowed-IsListed host (allowed ∷ hosts) h = elim (Bool-cases (is_empty (trim_space allowed))) [
    | inl e ↦ later host allowed hosts (is_allowed-IsListed host hosts (ground (arith, h, e)))
    | inr e ↦ elim (HostResult-cases (canonical_host u is_ip (trim_space allowed))) [
      | inr (x, c) ↦
          later host allowed hosts (is_allowed-IsListed host hosts (ground (arith, h, e, c)))
      | inl (canonical, c) ↦ elim (Bool-cases (text_eq canonical host)) [
        | inl t ↦ ([], hosts, allowed, refl, c ∙ ap host_ok (text_eq_sound canonical host t))
        | inr t ↦
            later host allowed hosts (is_allowed-IsListed host hosts (ground (arith, h, e, c, t)))
      ]
    ]
  ]

  empty_unlisted :
      (s host : Text) → is_empty s ≡ true → canonical_host u is_ip s ≡ host_err empty_host
  unfolding canonical_host
  empty_unlisted s host e = ground (arith, e)

  listed_here :
      (host allowed : Text) (hosts : List Text)
      → canonical_host u is_ip (trim_space allowed) ≡ host_ok host
      → is_allowed u is_ip is_loopback remote_host host (allowed ∷ hosts) ≡ true
  unfolding is_allowed
  listed_here host allowed hosts c = elim (Bool-cases (is_empty (trim_space allowed))) [
    | inl e ↦ absurd (ground (arith, c, empty_unlisted (trim_space allowed) host e))
    | inr e ↦ ground (arith, c, e, text_eq_self host)
  ]

  listed_later :
      (host allowed : Text) (hosts : List Text)
      → is_allowed u is_ip is_loopback remote_host host hosts ≡ true
      → is_allowed u is_ip is_loopback remote_host host (allowed ∷ hosts) ≡ true
  unfolding is_allowed
  listed_later host allowed hosts h =
      elim (HostResult-cases (canonical_host u is_ip (trim_space allowed))) [
        | inr (x, c) ↦ ground (arith, h, c)
        | inl (canonical, c) ↦ ground (arith, h, c)
      ]

  IsListed-is_allowed :
      (host : Text) (before behind : List Text) (allowed : Text)
      → canonical_host u is_ip (trim_space allowed) ≡ host_ok host
      → is_allowed u is_ip is_loopback remote_host host (before ++ allowed ∷ behind) ≡ true
  IsListed-is_allowed host [] behind allowed c = listed_here host allowed behind c
  IsListed-is_allowed host (b ∷ before) behind allowed c =
      listed_later host b (before ++ allowed ∷ behind)
        (IsListed-is_allowed host before behind allowed c)

  -- The entries of the environment's text, between its commas.
  abbrev pub entries : Text → List Text
  entries allowed = (split_on b',' allowed).0 ∷ (split_on b',' allowed).1

  -- A host of the machine itself, in a request from the machine itself.
  abbrev pub IsLocal : Text → Text → Type 0
  IsLocal host address =
      (is_local_dev_host u is_ip is_loopback remote_host host ≡ true)
      × (is_loopback_remote_addr u is_ip is_loopback remote_host address ≡ true)

  trusts : (allowed address domain : Text) → Bool
  trusts allowed address domain =
      is_allowed u is_ip is_loopback remote_host domain (entries allowed)
      || (is_local_dev_host u is_ip is_loopback remote_host domain
          && is_loopback_remote_addr u is_ip is_loopback remote_host address)

  trusted_from :
      (allowed request_host address domain : Text)
      → trusted_db_revision_domain u is_ip is_loopback remote_host allowed request_host address
        ≡ (domain, true)
      → (canonical_host u is_ip request_host ≡ host_ok domain)
        × (trusts allowed address domain ≡ true)
  unfolding trusted_db_revision_domain trusts
  trusted_from allowed request_host address domain h =
      elim (HostResult-cases (canonical_host u is_ip request_host)) [
        | inr (x, c) ↦ absurd (ground (arith, h, c))
        | inl (host, c) ↦ elim (Bool-cases (trusts allowed address host)) [
          | inr t ↦ absurd (ground (arith, h, c, t))
          | inl t ↦
              let same : host ≡ domain = ground (arith, h, c, t) in
              (c ∙ ap host_ok same, subst (λ host. trusts allowed address host ≡ true) same t)
        ]
      ]

  trusted_to :
      (allowed request_host address domain : Text)
      → canonical_host u is_ip request_host ≡ host_ok domain
      → trusts allowed address domain ≡ true
      → trusted_db_revision_domain u is_ip is_loopback remote_host allowed request_host address
        ≡ (domain, true)
  unfolding trusted_db_revision_domain trusts
  trusted_to allowed request_host address domain c t = ground (arith, c, t)

  trusts-cases :
      (allowed address domain : Text)
      → trusts allowed address domain ≡ true
      → IsListed domain (entries allowed) ⊎ IsLocal domain address
  unfolding trusts
  trusts-cases allowed address domain t =
      elim (Bool-cases (is_allowed u is_ip is_loopback remote_host domain (entries allowed))) [
        | inl a ↦ inl (is_allowed-IsListed domain (entries allowed) a)
        | inr a ↦ inr (ground (arith, t, a), ground (arith, t, a))
      ]

  trusts-listed :
      (allowed address domain : Text)
      → IsListed domain (entries allowed)
      → trusts allowed address domain ≡ true
  unfolding trusts
  trusts-listed allowed address domain (before, behind, entry, e, c) =
      let listed =
        subst (λ hosts. is_allowed u is_ip is_loopback remote_host domain hosts ≡ true)
          {x = before ++ entry ∷ behind} {y = entries allowed} (sym e)
          (IsListed-is_allowed domain before behind entry c) in
      ground (arith, listed)

  trusts-local :
      (allowed address domain : Text)
      → IsLocal domain address
      → trusts allowed address domain ≡ true
  unfolding trusts
  trusts-local allowed address domain (local, here) =
      elim (Bool-cases (is_allowed u is_ip is_loopback remote_host domain (entries allowed))) [
        | inl a ↦ ground (arith, a)
        | inr a ↦ ground (arith, a, local, here)
      ]

  -- A domain is trusted if and only if it is the canonical form of the request's host, and the environment lists a
  -- spelling of that host, or it is the machine's own and the request comes from the machine itself.
  pub trusted_db_revision_domain_iff :
      (allowed request_host address domain : Text)
      → (trusted_db_revision_domain u is_ip is_loopback remote_host allowed request_host address
          ≡ (domain, true))
        ↔ ((canonical_host u is_ip request_host ≡ host_ok domain)
            × (IsListed domain (entries allowed) ⊎ IsLocal domain address))
  trusted_db_revision_domain_iff allowed request_host address domain = (
    λ h.
        let (c, t) = trusted_from allowed request_host address domain h in
        (c, trusts-cases allowed address domain t),
    back,
  )
    where
      back :
          (canonical_host u is_ip request_host ≡ host_ok domain)
            × (IsListed domain (entries allowed) ⊎ IsLocal domain address)
          → trusted_db_revision_domain u is_ip is_loopback remote_host allowed request_host address
            ≡ (domain, true)
      back (c, inl l) =
          trusted_to allowed request_host address domain c (trusts-listed allowed address domain l)
      back (c, inr l) =
          trusted_to allowed request_host address domain c (trusts-local allowed address domain l)
