-- ===== src/Auth/Password/Roundtrip.antt =====
-- What verifyPassword says of a hash that hashPassword made.
use sitebrush_v.Prelude.{
  ℕ, zero, suc, ◌≤◌, ◌≡◌, ◌-◌, ◌==◌, refl, true, false, [], ◌∷◌, ◌++◌, some, arith, length,
  length-append, take,
}
use sitebrush_v.Prelude.Int.{pos}
use sitebrush_v.Text.{
  Text, codes, text_eq, text_eq_self, contains, strip_prefix, split_on, split_on_whole,
  split_on-append, decimal, atoi-decimal,
}
use sitebrush_v.Auth.Password.{
  Bytes, big_endian, Crypto, CryptoLaws, hash_iterations, xor_bytes, mix, derive_block,
  derive_blocks, pbkdf2, hash_password, parse_hash_int, parse_hash_bytes, verify_key, verify_parts,
  verify_password,
}

length-xor_bytes : (t u : Bytes) → length (xor_bytes t u) ≡ length t
unfolding xor_bytes
length-xor_bytes [] u = refl
length-xor_bytes (a ∷ t) [] = refl
length-xor_bytes (a ∷ t) (b ∷ u) = omega (arith, length-xor_bytes t u)

length-take_all : (n : ℕ) (s : Bytes) → n ≤ length s → length (take n s) ≡ n
length-take_all zero s h = refl
length-take_all (suc n) [] h = absurd (omega arith)
length-take_all (suc n) (c ∷ s) h = omega (arith, length-take_all n s (omega arith))

plain :
    (contains b'$' (codes "sb-pbkdf2-sha256") ≡ false)
    × (contains b'$' (codes "v=" ++ decimal 1) ≡ false)
    × (contains b'$' (codes "i=" ++ decimal hash_iterations) ≡ false)
unfolding contains decimal
plain = (refl, refl, refl)

split_on-five :
    (sep : ℕ) (a v i s h : Text)
    → contains sep a ≡ false
    → contains sep v ≡ false
    → contains sep i ≡ false
    → contains sep s ≡ false
    → contains sep h ≡ false
    → split_on sep (a ++ sep ∷ (v ++ sep ∷ (i ++ sep ∷ (s ++ sep ∷ h)))) ≡ (a, v ∷ i ∷ s ∷ h ∷ [])
split_on-five sep a v i s h pa pv pi ps ph = rw (
  split_on-append sep a (v ++ sep ∷ (i ++ sep ∷ (s ++ sep ∷ h))) pa,
  split_on-append sep v (i ++ sep ∷ (s ++ sep ∷ h)) pv,
  split_on-append sep i (s ++ sep ∷ h) pi,
  split_on-append sep s h ps,
  split_on_whole sep h ph,
)

module _ (k : Crypto) (laws : CryptoLaws k) where
  length-mix : (n : ℕ) (password u t : Bytes) → length (mix k n password u t) ≡ length t
  unfolding mix
  length-mix zero password u t = refl
  length-mix (suc n) password u t = omega (
    arith,
    length-mix n password (k.hmac password u) (xor_bytes t (k.hmac password u)),
    length-xor_bytes t (k.hmac password u),
  )

  length-pbkdf2 :
      (password salt : Bytes) (iterations : ℕ) → length (pbkdf2 k password salt iterations 32) ≡ 32
  unfolding pbkdf2 derive_blocks derive_block
  length-pbkdf2 password salt iterations = length-take_all 32 _ (
      omega (
        arith,
        length-append
            (mix k (iterations - 1) password (k.hmac password (salt ++ big_endian 1))
              (k.hmac password (salt ++ big_endian 1)))
            [],
        length-mix (iterations - 1) password (k.hmac password (salt ++ big_endian 1))
            (k.hmac password (salt ++ big_endian 1)),
        laws.hmac_size password (salt ++ big_endian 1),
      ))

  field_plain :
      (b : Bytes) (c : ℕ) → c == b'$' ≡ false → contains b'$' (c ∷ b'=' ∷ k.encode b) ≡ false
  unfolding contains
  field_plain b c h = ground (arith, laws.encode_plain b)

  hash_parts :
      (password salt : Bytes)
      → split_on b'$' (hash_password k password salt) ≡ (
        codes "sb-pbkdf2-sha256",
        (codes "v=" ++ decimal 1)
            ∷ (codes "i=" ++ decimal hash_iterations)
            ∷ (codes "s=" ++ k.encode salt)
            ∷ (codes "h=" ++ k.encode (pbkdf2 k password salt hash_iterations 32))
            ∷ [],
      )
  unfolding hash_password
  hash_parts password salt =
      split_on-five b'$' (codes "sb-pbkdf2-sha256") (codes "v=" ++ decimal 1)
        (codes "i=" ++ decimal hash_iterations) (codes "s=" ++ k.encode salt)
        (codes "h=" ++ k.encode (pbkdf2 k password salt hash_iterations 32)) plain.0 plain.1 plain.2
        (field_plain salt b's' refl)
        (field_plain (pbkdf2 k password salt hash_iterations 32) b'h' refl)

  version_parses : parse_hash_int k (codes "v=" ++ decimal 1) (codes "v=") ≡ some (pos 1)
  unfolding parse_hash_int strip_prefix
  version_parses = atoi-decimal 1 (omega arith)

  iterations_parse :
      parse_hash_int k (codes "i=" ++ decimal hash_iterations) (codes "i=")
      ≡ some (pos hash_iterations)
  unfolding parse_hash_int strip_prefix
  iterations_parse = atoi-decimal hash_iterations (omega arith)

  verify_key_lem :
      (given password salt : Bytes)
      → 16 ≤ length salt
      → verify_key k given hash_iterations
          (codes "s=" ++ k.encode salt)
          (codes "h=" ++ k.encode (pbkdf2 k password salt hash_iterations 32))
        ≡ some (
            text_eq
              (pbkdf2 k given salt hash_iterations 32)
              (pbkdf2 k password salt hash_iterations 32))
  unfolding verify_key parse_hash_bytes strip_prefix
  verify_key_lem given password salt long = ground (
    arith,
    laws.decode-encode salt,
    laws.decode-encode (pbkdf2 k password salt hash_iterations 32),
    length-pbkdf2 password salt hash_iterations,
  )

  verify_hash :
      (given password salt : Bytes)
      → 16 ≤ length salt
      → verify_password k given (hash_password k password salt)
        ≡ some (
            text_eq
              (pbkdf2 k given salt hash_iterations 32)
              (pbkdf2 k password salt hash_iterations 32))
  unfolding verify_password verify_parts
  verify_hash given password salt long = rw (hash_parts password salt) (
      ground (
        arith,
        text_eq_self (codes "sb-pbkdf2-sha256"),
        version_parses,
        iterations_parse,
        verify_key_lem given password salt long,
      ))

  -- A hash that was made from a salt of 16 bytes or more is accepted, and is matched by exactly the passwords from which
  -- PBKDF2 derives the same 32 bytes; so by the password that it was made from.
  pub verify_password-hash_password :
      (given password salt : Bytes)
      → 16 ≤ length salt
      → (verify_password k given (hash_password k password salt)
          ≡ some (
              text_eq
                (pbkdf2 k given salt hash_iterations 32)
                (pbkdf2 k password salt hash_iterations 32)))
        × (verify_password k password (hash_password k password salt) ≡ some true)
  verify_password-hash_password given password salt long = (
    verify_hash given password salt long,
    ground (
      arith,
      verify_hash password password salt long,
      text_eq_self (pbkdf2 k password salt hash_iterations 32),
    ),
  )
