-- ===== src/Grab/Octets.antt =====
-- The IPv4 addresses that validateGrabIP of pkg/webserver/grab.go lets through, by their octets.
use sitebrush_v.Prelude.{
  ℕ, ◌+◌, ◌*◌, ◌/◌, ◌%◌, ◌^◌, ◌<◌, ◌≡◌, refl, Bool, true, false, not, ◌&&◌, ◌||◌, List, [], ◌∷◌,
  some, ◌==◌, leb, arith, between, ap, ◌∙◌, inl, inr, Bool-cases,
}
use sitebrush_v.Grab.Addresses.{
  v4, v6, quad, special_use_v4, special_use_v6, any_contains, grab_special_use_ip,
  is_global_unicast, validate_grab_ip, addr_from_slice, number_of, unmap,
}

-- The networks that are no part of the public internet, by their octets.
abbrev pub reserved : ℕ → ℕ → ℕ → Bool
reserved a b c =
    a == 0
    || a == 10
    || a == 127
    || (a == 100 && between 64 127 b)
    || (a == 169 && b == 254)
    || (a == 172 && between 16 31 b)
    || (a == 192 && (b == 0 && (c == 0 || c == 2)))
    || (a == 192 && (b == 88 && c == 99))
    || (a == 192 && b == 168)
    || (a == 198 && (b == 18 || b == 19))
    || (a == 198 && (b == 51 && c == 100))
    || (a == 203 && (b == 0 && c == 113))
    || leb 224 a

or_false : (b : Bool) → (b || false) ≡ b
or_false true = refl
or_false false = refl

and_false : (b : Bool) → (b && false) ≡ false
and_false true = refl
and_false false = refl

module _ (a b c d : ℕ) (ha : a < 256) (hb : b < 256) (hc : c < 256) (hd : d < 256) where
  -- Each prefix by the octets.
  this_network : (quad a b c d / 2 ^ 24 == quad 0 0 0 0 / 2 ^ 24) ≡ (a == 0)
  this_network = ground arith

  private_10 : (quad a b c d / 2 ^ 24 == quad 10 0 0 0 / 2 ^ 24) ≡ (a == 10)
  private_10 = ground arith

  shared : (quad a b c d / 2 ^ 22 == quad 100 64 0 0 / 2 ^ 22) ≡ (a == 100 && between 64 127 b)
  shared = ground arith

  loopback : (quad a b c d / 2 ^ 24 == quad 127 0 0 0 / 2 ^ 24) ≡ (a == 127)
  loopback = ground arith

  link_local : (quad a b c d / 2 ^ 16 == quad 169 254 0 0 / 2 ^ 16) ≡ (a == 169 && b == 254)
  link_local = ground arith

  private_172 : (quad a b c d / 2 ^ 20 == quad 172 16 0 0 / 2 ^ 20) ≡ (a == 172 && between 16 31 b)
  private_172 = ground arith

  protocol : (quad a b c d / 2 ^ 8 == quad 192 0 0 0 / 2 ^ 8) ≡ (a == 192 && (b == 0 && c == 0))
  protocol = ground arith

  test_1 : (quad a b c d / 2 ^ 8 == quad 192 0 2 0 / 2 ^ 8) ≡ (a == 192 && (b == 0 && c == 2))
  test_1 = ground arith

  relay : (quad a b c d / 2 ^ 8 == quad 192 88 99 0 / 2 ^ 8) ≡ (a == 192 && (b == 88 && c == 99))
  relay = ground arith

  private_192 : (quad a b c d / 2 ^ 16 == quad 192 168 0 0 / 2 ^ 16) ≡ (a == 192 && b == 168)
  private_192 = ground arith

  benchmark :
      (quad a b c d / 2 ^ 17 == quad 198 18 0 0 / 2 ^ 17) ≡ (a == 198 && (b == 18 || b == 19))
  benchmark = ground arith

  test_2 : (quad a b c d / 2 ^ 8 == quad 198 51 100 0 / 2 ^ 8) ≡ (a == 198 && (b == 51 && c == 100))
  test_2 = ground arith

  test_3 : (quad a b c d / 2 ^ 8 == quad 203 0 113 0 / 2 ^ 8) ≡ (a == 203 && (b == 0 && c == 113))
  test_3 = ground arith

  multicast : (quad a b c d / 2 ^ 28 == quad 224 0 0 0 / 2 ^ 28) ≡ (between 224 239 a)
  multicast = ground arith

  future : (quad a b c d / 2 ^ 28 == quad 240 0 0 0 / 2 ^ 28) ≡ (leb 240 a)
  future = ground arith

  broadcast :
      (quad a b c d / 2 ^ 0 == quad 255 255 255 255 / 2 ^ 0)
      ≡ (a == 255 && (b == 255 && (c == 255 && d == 255)))
  broadcast = ground arith

  -- The prefixes one after the other, by the octets.
  abbrev tests : Bool
  tests =
      (a == 0)
      || ((a == 10)
          || ((a == 100 && between 64 127 b)
              || ((a == 127)
                  || ((a == 169 && b == 254)
                      || ((a == 172 && between 16 31 b)
                          || ((a == 192 && (b == 0 && c == 0))
                              || ((a == 192 && (b == 0 && c == 2))
                                  || ((a == 192 && (b == 88 && c == 99))
                                      || ((a == 192 && b == 168)
                                          || ((a == 198 && (b == 18 || b == 19))
                                              || ((a == 198 && (b == 51 && c == 100))
                                                  || ((a == 203 && (b == 0 && c == 113))
                                                      || ((between 224 239 a)
                                                          || ((leb 240 a)
                                                            || ((a == 255
                                                            && (b == 255 && (c == 255 && d == 255)))
                                                            || false)))))))))))))))

  in_v4 : any_contains special_use_v4 (v4 (quad a b c d)) ≡ tests
  unfolding any_contains
  in_v4 =
      rw
        (
          this_network, private_10, shared, loopback, link_local, private_172, protocol, test_1,
          relay, private_192, benchmark, test_2, test_3, multicast, future, broadcast,
        )
        refl

  tests-reserved : tests ≡ reserved a b c
  tests-reserved = ground arith

  in_v6 : any_contains special_use_v6 (v4 (quad a b c d)) ≡ false
  unfolding any_contains
  in_v6 = refl

  no_zero : reserved a b c ≡ false → (quad a b c d == 0) ≡ false
  no_zero h = ground arith

  no_broadcast : reserved a b c ≡ false → (quad a b c d == 0xFFFFFFFF) ≡ false
  no_broadcast h = ground arith

  no_loopback : reserved a b c ≡ false → (quad a b c d / 2 ^ 24 == 127) ≡ false
  no_loopback h = ground arith

  no_multicast : reserved a b c ≡ false → (quad a b c d / 2 ^ 28 == 0xE) ≡ false
  no_multicast h = ground arith

  no_link_local : reserved a b c ≡ false → (quad a b c d / 2 ^ 16 == 169 * 2 ^ 8 + 254) ≡ false
  no_link_local h = ground arith

  unicast : reserved a b c ≡ false → is_global_unicast (v4 (quad a b c d)) ≡ true
  unfolding is_global_unicast
  unicast h = rw (no_zero h, no_broadcast h, no_loopback h, no_multicast h, no_link_local h) refl

  special : grab_special_use_ip (v4 (quad a b c d)) ≡ reserved a b c
  unfolding grab_special_use_ip
  special = rw (in_v4, in_v6) (or_false tests ∙ tests-reserved)

  admitted :
      (is_global_unicast (v4 (quad a b c d)) && not (grab_special_use_ip (v4 (quad a b c d))))
      ≡ not (reserved a b c)
  admitted = elim (Bool-cases (reserved a b c)) [
    | inl e ↦ rw (special, e) (and_false (is_global_unicast (v4 (quad a b c d))))
    | inr e ↦ rw (special, e, unicast e) refl
  ]

  number-quad : number_of 0 (a ∷ b ∷ c ∷ d ∷ []) ≡ quad a b c d
  unfolding number_of
  number-quad = omega arith

  abbrev pub mapped : List ℕ
  mapped = 0 ∷ 0 ∷ 0 ∷ 0 ∷ 0 ∷ 0 ∷ 0 ∷ 0 ∷ 0 ∷ 0 ∷ 255 ∷ 255 ∷ a ∷ b ∷ c ∷ d ∷ []

  number-mapped : number_of 0 mapped ≡ 0xFFFF * 2 ^ 32 + quad a b c d
  unfolding number_of
  number-mapped = omega arith

  unmap-mapped : unmap (v6 (0xFFFF * 2 ^ 32 + quad a b c d)) ≡ v4 (quad a b c d)
  unfolding unmap
  unmap-mapped =
      let high : ((0xFFFF * 2 ^ 32 + quad a b c d) / 2 ^ 32 == 0xFFFF) ≡ true = ground arith in
      let low : (0xFFFF * 2 ^ 32 + quad a b c d) % 2 ^ 32 ≡ quad a b c d = omega arith in
      rw high (ap v4 low)

  -- An IPv4 address is let through if and only if its octets are in none of the reserved networks, and so is an
  -- IPv6 address that an IPv4 address is mapped to.
  pub validate_grab_ip-reserved :
      (validate_grab_ip false (some (a ∷ b ∷ c ∷ d ∷ [])) ≡ not (reserved a b c))
      × (validate_grab_ip false (some mapped) ≡ not (reserved a b c))
  unfolding validate_grab_ip addr_from_slice unmap
  validate_grab_ip-reserved = (
    ap (λ n. is_global_unicast (v4 n) && not (grab_special_use_ip (v4 n))) number-quad ∙ admitted,
    ap (λ n. is_global_unicast (unmap (v6 n)) && not (grab_special_use_ip (unmap (v6 n))))
          number-mapped
        ∙ ap (λ r. is_global_unicast r && not (grab_special_use_ip r)) unmap-mapped
        ∙ admitted,
  )
