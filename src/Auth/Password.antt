-- ===== src/Auth/Password.antt =====
-- hashPassword and verifyPassword of pkg/webserver/auth_store.go, over HMAC-SHA-256 and
-- base64.RawURLEncoding. Passwords, salts and keys are lists of bytes.
pub mod Roundtrip
mod Tests
use Prim.Native.Nat.{bit_xor}
use sitebrush_v.Prelude.{
  ℕ, zero, suc, ◌+◌, ◌-◌, ◌/◌, ◌%◌, ◌≡◌, Bool, true, false, not, ◌||◌, List, [], ◌∷◌, ◌++◌, Option,
  none, some, if◌then◌else◌, ltb, length, take,
}
use sitebrush_v.Prelude.Int.{ℤ, pos, negsuc, int_eq}
use sitebrush_v.Text.{
  Text, codes, text_eq, is_empty, contains, strip_prefix, split_on, decimal, atoi,
}

abbrev pub Bytes : Type 0
Bytes = List ℕ

-- What the code calls: hmac of a key and a message, and base64.
pub record Crypto : Type 0 where
  pub hmac : Bytes → Bytes → Bytes
  pub encode : Bytes → Text
  pub decode : Text → Option Bytes

-- What it relies on: SHA-256 has 32 bytes, and base64 comes back and has no "$".
pub record CryptoLaws (k : Crypto) : Type 0 where
  pub hmac_size : (key message : Bytes) → length (k.hmac key message) ≡ 32
  pub decode-encode : (b : Bytes) → k.decode (k.encode b) ≡ some b
  pub encode_plain : (b : Bytes) → contains b'$' (k.encode b) ≡ false

abbrev pub hash_size : ℕ
hash_size = 32

abbrev pub salt_size : ℕ
salt_size = 16

abbrev pub hash_iterations : ℕ
hash_iterations = 120000

abbrev pub max_iterations : ℕ
max_iterations = 600000

abbrev pub hash_algorithm : Text
hash_algorithm = codes "sb-pbkdf2-sha256"

-- t[j] ^= u[j] for each j in t, where u has as many bytes.
unfoldable pub xor_bytes : Bytes → Bytes → Bytes
xor_bytes [] u = []
xor_bytes (a ∷ t) [] = a ∷ t
xor_bytes (a ∷ t) (b ∷ u) = bit_xor a b ∷ xor_bytes t u

-- binary.BigEndian.PutUint32
unfoldable pub big_endian : ℕ → Bytes
big_endian n = n / 16777216 % 256 ∷ n / 65536 % 256 ∷ n / 256 % 256 ∷ n % 256 ∷ []

module _ (k : Crypto) where
  -- The inner loop, for the rounds that are left.
  unfoldable pub mix : ℕ → Bytes → Bytes → Bytes → Bytes
  mix zero password u t = t
  mix (suc n) password u t = let next = k.hmac password u in mix n password next (xor_bytes t next)

  -- One round of the outer loop.
  unfoldable pub derive_block : Bytes → Bytes → ℕ → ℕ → Bytes
  derive_block password salt iterations block =
      let u = k.hmac password (salt ++ big_endian block) in mix (iterations - 1) password u u

  -- The outer loop from a block on, for the blocks that are left.
  unfoldable pub derive_blocks : Bytes → Bytes → ℕ → ℕ → ℕ → Bytes
  derive_blocks password salt iterations block zero = []
  derive_blocks password salt iterations block (suc n) =
      derive_block password salt iterations block
      ++ derive_blocks password salt iterations (block + 1) n

  unfoldable pub pbkdf2 : Bytes → Bytes → ℕ → ℕ → Bytes
  pbkdf2 password salt iterations key_size =
      take key_size
        (derive_blocks password salt iterations 1 ((key_size + hash_size - 1) / hash_size))

  -- hashPassword, for the salt that rand.Read gives.
  unfoldable pub hash_password : Bytes → Bytes → Text
  hash_password password salt =
      let fields =
        (codes "v=" ++ decimal 1)
        ++ b'$'
          ∷ ((codes "i=" ++ decimal hash_iterations)
              ++ b'$'
                ∷ ((codes "s=" ++ k.encode salt)
                    ++ b'$'
                      ∷ (codes "h=" ++ k.encode (pbkdf2 password salt hash_iterations 32)))) in
      hash_algorithm ++ b'$' ∷ fields

  -- parsePasswordHashInt, with `key` and its "=".
  unfoldable pub parse_hash_int : Text → Text → Option ℤ
  parse_hash_int part key = elim (strip_prefix key part) [ none ↦ none | some rest ↦ atoi rest ]

  unfoldable pub parse_hash_bytes : Text → Text → Option Bytes
  parse_hash_bytes part key = elim (strip_prefix key part) [
    | none ↦ none
    | some rest ↦ k.decode rest
  ]

  -- The bounds on the iterations.
  abbrev pub allowed_iterations : ℤ → Option ℕ
  allowed_iterations (pos n) = if ltb n 10000 || ltb max_iterations n then none else some n
  allowed_iterations (negsuc n) = none

  -- From the iterations on.
  unfoldable pub verify_key : Bytes → ℕ → Text → Text → Option Bool
  verify_key password iterations s h = elim (parse_hash_bytes s (codes "s=")) [
    | none ↦ none
    | some salt ↦
        if ltb (length salt) salt_size then none else elim (parse_hash_bytes h (codes "h=")) [
          | none ↦ none
          | some want ↦
              if is_empty want
              then none
              else some (text_eq (pbkdf2 password salt iterations (length want)) want)
        ]
  ]

  -- The five parts.
  unfoldable pub verify_parts : Bytes → Text × List Text → Option Bool
  verify_parts password (algorithm, v ∷ i ∷ s ∷ h ∷ []) =
      if not (text_eq algorithm hash_algorithm)
      then none
      else elim (parse_hash_int v (codes "v=")) [
        | none ↦ none
        | some version ↦
            if not (int_eq version (pos 1)) then none else elim (parse_hash_int i (codes "i=")) [
              | none ↦ none
              | some number ↦ elim (allowed_iterations number) [
                | none ↦ none
                | some iterations ↦ verify_key password iterations s h
              ]
            ]
      ]
  verify_parts password _ = none

  -- verifyPassword; `none` is an error.
  unfoldable pub verify_password : Bytes → Text → Option Bool
  verify_password password encoded = verify_parts password (split_on b'$' encoded)
