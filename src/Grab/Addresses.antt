-- ===== src/Grab/Addresses.antt =====
-- validateGrabIP, grabSpecialUseIP and grabSpecialUsePrefixes of pkg/webserver/grab.go, over net/netip. An
-- address is its number, of 32 or 128 bits.
use sitebrush_v.Prelude.{
  ℕ, ◌+◌, ◌-◌, ◌*◌, ◌/◌, ◌%◌, ◌^◌, Bool, true, false, not, ◌&&◌, ◌||◌, List, [], ◌∷◌, Option, none,
  some, if◌then◌else◌, ◌==◌, length,
}

-- netip.Addr without a zone.
pub data Addr : Type 0 where
  v4 v6 : ℕ → Addr

-- netip.Prefix: the address that was parsed, and the number of its leading bits.
pub data Prefix : Type 0 where
  prefix4 prefix6 : ℕ → ℕ → Prefix

abbrev pub quad : ℕ → ℕ → ℕ → ℕ → ℕ
quad a b c d = a * 2 ^ 24 + b * 2 ^ 16 + c * 2 ^ 8 + d

-- The number of an IPv6 address by its first four groups and its last two; the two between are zero.
abbrev pub groups : ℕ → ℕ → ℕ → ℕ → ℕ → ℕ → ℕ
groups a b c d g h = a * 2 ^ 112 + b * 2 ^ 96 + c * 2 ^ 80 + d * 2 ^ 64 + g * 2 ^ 16 + h

-- Prefix.Contains
unfoldable pub prefix_contains : Prefix → Addr → Bool
prefix_contains (prefix4 base bits) (v4 n) = n / 2 ^ (32 - bits) == base / 2 ^ (32 - bits)
prefix_contains (prefix6 base bits) (v6 n) = n / 2 ^ (128 - bits) == base / 2 ^ (128 - bits)
prefix_contains _ _ = false

abbrev pub special_use_v4 : List Prefix
special_use_v4 =
    prefix4 (quad 0 0 0 0) 8
    ∷ prefix4 (quad 10 0 0 0) 8
    ∷ prefix4 (quad 100 64 0 0) 10
    ∷ prefix4 (quad 127 0 0 0) 8
    ∷ prefix4 (quad 169 254 0 0) 16
    ∷ prefix4 (quad 172 16 0 0) 12
    ∷ prefix4 (quad 192 0 0 0) 24
    ∷ prefix4 (quad 192 0 2 0) 24
    ∷ prefix4 (quad 192 88 99 0) 24
    ∷ prefix4 (quad 192 168 0 0) 16
    ∷ prefix4 (quad 198 18 0 0) 15
    ∷ prefix4 (quad 198 51 100 0) 24
    ∷ prefix4 (quad 203 0 113 0) 24
    ∷ prefix4 (quad 224 0 0 0) 4
    ∷ prefix4 (quad 240 0 0 0) 4
    ∷ prefix4 (quad 255 255 255 255) 32
    ∷ []

abbrev pub special_use_v6 : List Prefix
special_use_v6 =
    prefix6 (groups 0 0 0 0 0 0) 128
    ∷ prefix6 (groups 0 0 0 0 0 1) 128
    ∷ prefix6 (0xFFFF * 2 ^ 32) 96
    ∷ prefix6 (groups 0x64 0xFF9B 0 0 0 0) 96
    ∷ prefix6 (groups 0x64 0xFF9B 1 0 0 0) 48
    ∷ prefix6 (groups 0x100 0 0 0 0 0) 64
    ∷ prefix6 (groups 0x2001 0 0 0 0 0) 23
    ∷ prefix6 (groups 0x2001 2 0 0 0 0) 48
    ∷ prefix6 (groups 0x2001 0xDB8 0 0 0 0) 32
    ∷ prefix6 (groups 0x2002 0 0 0 0 0) 16
    ∷ prefix6 (groups 0xFC00 0 0 0 0 0) 7
    ∷ prefix6 (groups 0xFE80 0 0 0 0 0) 10
    ∷ prefix6 (groups 0xFF00 0 0 0 0 0) 8
    ∷ []

unfoldable pub any_contains : List Prefix → Addr → Bool
unfolding prefix_contains
any_contains [] addr = false
any_contains (p ∷ ps) addr = prefix_contains p addr || any_contains ps addr

-- grabSpecialUseIP: the prefixes of grabSpecialUsePrefixes, those of IPv4 first.
unfoldable pub grab_special_use_ip : Addr → Bool
unfolding any_contains
grab_special_use_ip addr = any_contains special_use_v4 addr || any_contains special_use_v6 addr

-- Addr.IsGlobalUnicast
unfoldable pub is_global_unicast : Addr → Bool
is_global_unicast (v4 n) =
    not (n == 0 || n == 0xFFFFFFFF)
    && (not (n / 2 ^ 24 == 127)
        && (not (n / 2 ^ 28 == 0xE) && not (n / 2 ^ 16 == 169 * 2 ^ 8 + 254)))
is_global_unicast (v6 n) =
    not (n == 0)
    && (not (n == 1) && (not (n / 2 ^ 120 == 0xFF) && not (n / 2 ^ 118 == 0xFE80 / 2 ^ 6)))

-- The number of a slice of bytes.
unfoldable pub number_of : ℕ → List ℕ → ℕ
number_of n [] = n
number_of n (b ∷ bs) = number_of (n * 2 ^ 8 + b) bs

-- netip.AddrFromSlice
unfoldable pub addr_from_slice : List ℕ → Option Addr
unfolding number_of
addr_from_slice bs =
    if length bs == 4
    then some (v4 (number_of 0 bs))
    else if length bs == 16
    then some (v6 (number_of 0 bs))
    else none

-- Addr.Unmap of an Addr.Is4In6
unfoldable pub unmap : Addr → Addr
unmap (v4 n) = v4 n
unmap (v6 n) = if n / 2 ^ 32 == 0xFFFF then v4 (n % 2 ^ 32) else v6 n

-- Whether validateGrabIP reports no error, for an IP that is its bytes, or none at all.
unfoldable pub validate_grab_ip : Bool → Option (List ℕ) → Bool
unfolding addr_from_slice unmap is_global_unicast grab_special_use_ip
validate_grab_ip allow_private none = false
validate_grab_ip allow_private (some bytes) =
    if allow_private then true else elim (addr_from_slice bytes) [
      | none ↦ false
      | some addr ↦ is_global_unicast (unmap addr) && not (grab_special_use_ip (unmap addr))
    ]

-- The loop of resolveGrabHost over the addresses that the resolver returned: every one must pass.
unfoldable pub validate_all : Bool → List (List ℕ) → Bool
unfolding validate_grab_ip
validate_all allow_private [] = true
validate_all allow_private (ip ∷ ips) =
    validate_grab_ip allow_private (some ip) && validate_all allow_private ips

-- resolveGrabHost: `literal` is what net.ParseIP makes of the host, `resolved` what the resolver returns.
unfoldable pub resolve_grab_host :
    Bool → Option (List ℕ) → Option (List (List ℕ)) → Option (List (List ℕ))
unfolding validate_grab_ip validate_all
resolve_grab_host allow_private (some ip) resolved =
    if validate_grab_ip allow_private (some ip) then some (ip ∷ []) else none
resolve_grab_host allow_private none none = none
resolve_grab_host allow_private none (some []) = none
resolve_grab_host allow_private none (some (ip ∷ ips)) =
    if validate_all allow_private (ip ∷ ips) then some (ip ∷ ips) else none
