-- ===== src/Auth/Password/Tests.antt =====
-- A witness for password hashes, with a keyed hash of 32 zeros and a code that adds 37 to each byte.
use sitebrush_v.Prelude.{
  ◌+◌, ◌-◌, ◌≡◌, refl, ap, ap₂, true, false, [], ◌∷◌, some, arith, replicate, map,
}
use sitebrush_v.Text.{text_eq, contains}
use sitebrush_v.Auth.Password.{
  Bytes, Crypto, CryptoLaws, hash_iterations, pbkdf2, hash_password, verify_password,
}
use sitebrush_v.Auth.Password.Roundtrip.{verify_password-hash_password}

abbrev sample_crypto : Crypto
sample_crypto = record {
  hmac = λ key message. replicate 32 0;
  encode = map (λ b. b + 37);
  decode = λ t. some (map (λ c. c - 37) t);
}

back_again : (b : Bytes) → map (λ c. c - 37) (map (λ c. c + 37) b) ≡ b
back_again [] = refl
back_again (c ∷ b) = ap₂ ◌∷◌ (omega arith) (back_again b)

no_dollar : (b : Bytes) → contains b'$' (map (λ c. c + 37) b) ≡ false
unfolding contains
no_dollar [] = refl
no_dollar (c ∷ b) = ground (arith, no_dollar b)

sample_laws : CryptoLaws sample_crypto
sample_laws = record {
  hmac_size = λ key message. refl;
  decode-encode = λ b. ap some (back_again b);
  encode_plain = no_dollar;
}

abbrev sample_password : Bytes
sample_password = 115 ∷ 51 ∷ []

abbrev other_password : Bytes
other_password = 115 ∷ 52 ∷ []

abbrev sample_salt : Bytes
sample_salt = replicate 16 7

verify_password-hash_password_example :
    (verify_password sample_crypto other_password
        (hash_password sample_crypto sample_password sample_salt)
      ≡ some (
          text_eq
            (pbkdf2 sample_crypto other_password sample_salt hash_iterations 32)
            (pbkdf2 sample_crypto sample_password sample_salt hash_iterations 32)))
    × (verify_password sample_crypto sample_password
          (hash_password sample_crypto sample_password sample_salt)
        ≡ some true)
verify_password-hash_password_example =
    verify_password-hash_password sample_crypto sample_laws other_password sample_password
      sample_salt (omega arith)
