-- ===== src/Auth/Recovery.antt =====
-- A recovery token of pkg/webserver/auth_store.go can be used once, by its user, until it expires.
use sitebrush_v.Prelude.{
  inl, ℕ, ◌+◌, ◌<◌, ◌≡◌, ◌⊎◌, refl, Bool, true, false, List, ◌∷◌, ◌++◌, Option, none, some,
  if◌then◌else◌, ◌==◌, arith, inr, count_if, count_if-append,
}
use sitebrush_v.Prelude.Int.{ℤ}
use sitebrush_v.Text.{Text}
use sitebrush_v.Files.{Write, written, unsynced, atomic_write_file}
use sitebrush_v.Auth.Store.{
  RecoveryToken, AuthStore, AuthFile, missing, unreadable, stored, load_auth_store, save_auth_store,
  split_first,
}
use sitebrush_v.Auth.Tokens.{is_usable, verify_recovery_token, use_token}
use sitebrush_v.Auth.Store.First.{split_first-some, split_first-none}

-- How many tokens of the file a user can use, for a token hash and a time.
abbrev pub usable : ℤ → Text → ℕ → AuthFile → ℕ
usable id hash now missing = 0
usable id hash now unreadable = 0
usable id hash now (stored store) = count_if (is_usable id hash now) store.recovery_tokens

-- The time that counts: a zero time is replaced by the clock.
abbrev pub time_of : ℕ → ℕ → ℕ
time_of clock at = if at == 0 then clock else at

used-not-usable :
    (id : ℤ) (hash : Text) (now at : ℕ) (t : RecoveryToken)
    → 0 < at
    → is_usable id hash now (record t { used_at = at }) ≡ false
unfolding is_usable
used-not-usable id hash now at t h = ground arith

spend :
    (id : ℤ) (hash : Text) (now at : ℕ) (before : List RecoveryToken) (t : RecoveryToken)
    (after : List RecoveryToken)
    → 0 < at
    → is_usable id hash now t ≡ true
    → count_if (is_usable id hash now) (before ++ record t { used_at = at } ∷ after) + 1
      ≡ count_if (is_usable id hash now) (before ++ t ∷ after)
spend id hash now at before t after h e = ground (
  arith,
  count_if-append (is_usable id hash now) before (record t { used_at = at } ∷ after),
  count_if-append (is_usable id hash now) before (t ∷ after),
  used-not-usable id hash now at t h,
)

module _ (hash_token : Text → Text) (writes : Write) (clock : ℕ) (file : AuthFile) (id : ℤ)
    (token : Text) (at : ℕ) where
  -- What verification leaves, and what it answers.
  abbrev pub TokenOutcome : AuthFile → AuthFile × Bool → Type 0
  TokenOutcome f out =
      ((out.1 ≡ true)
        × (written writes ≡ true)
        × (usable id (hash_token token) (time_of clock at) out.0 + 1
            ≡ usable id (hash_token token) (time_of clock at) f))
      ⊎ (((out.1 ≡ false)
            × (out.0 ≡ f)
            × ((writes.renames ≡ false) ⊎ (usable id (hash_token token) (time_of clock at) f ≡ 0)))
          ⊎ ((out.1 ≡ false)
              × (unsynced writes ≡ true)
              × (usable id (hash_token token) (time_of clock at) out.0 + 1
                  ≡ usable id (hash_token token) (time_of clock at) f)))

  use_token-TokenOutcome :
      (store : AuthStore) (found : Option (List RecoveryToken × RecoveryToken × List RecoveryToken))
      → 0 < time_of clock at
      → split_first (is_usable id (hash_token token) (time_of clock at)) store.recovery_tokens
        ≡ found
      → TokenOutcome
          (stored store)
          (use_token writes clock (stored store) store (time_of clock at) found)
  unfolding use_token save_auth_store atomic_write_file
  use_token-TokenOutcome store none pos e =
      inr (inl (refl, refl, inr (split_first-none _ store.recovery_tokens e)))
  use_token-TokenOutcome store (some (before, t, after)) pos e =
      let (cut, good) = split_first-some _ store.recovery_tokens before t after e in
      ground (
        arith,
        cut,
        good,
        spend id (hash_token token) (time_of clock at) (time_of clock at) before t after pos good,
      )

  recover :
      (f : AuthFile)
      → 0 < time_of clock at
      → TokenOutcome f (verify_recovery_token hash_token writes clock f id token at)
  unfolding verify_recovery_token load_auth_store use_token split_first
  recover missing pos = inr (inl (refl, refl, inr refl))
  recover unreadable pos = inr (inl (refl, refl, inr refl))
  recover (stored store) pos = use_token-TokenOutcome store _ pos refl

  -- Verification either says yes, and then the file is written and the user has one token less with the hash
  -- that is unused and not expired; or it says no and leaves the file as it was, and then the file cannot be
  -- written or there is no such token; or it says no because the sync of the directory failed behind the rename, and
  -- then the token is used up. The time is not the zero time.
  pub verify_recovery_token_outcome :
      0 < time_of clock at
      → TokenOutcome file (verify_recovery_token hash_token writes clock file id token at)
  verify_recovery_token_outcome pos = recover file pos
