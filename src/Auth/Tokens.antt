-- ===== src/Auth/Tokens.antt =====
-- createRecoveryToken and verifyRecoveryToken of pkg/webserver/auth_store.go.
use sitebrush_v.Prelude.{
  ℕ, ◌+◌, ◌*◌, Bool, false, not, ◌&&◌, ◌||◌, List, [], ◌∷◌, ◌++◌, Option, none, some, if◌then◌else◌,
  ltb, ◌==◌,
}
use sitebrush_v.Prelude.Int.{ℤ, int_eq}
use sitebrush_v.Text.{Text, text_eq}
use sitebrush_v.Files.{Write, written}
use sitebrush_v.Auth.Store.{
  AuthFile, AuthStore, RecoveryToken, Result, err, load_auth_store, load_failed, ok, random_failed,
  save_auth_store, save_failed, split_first,
}

-- One hour.
abbrev pub recovery_token_duration : ℕ
recovery_token_duration = 3600 * 1000000000

-- createRecoveryToken; `token` is what randomToken returns, with its hash.
unfoldable pub create_recovery_token :
    (Text → Text) → Write → ℕ → AuthFile → ℤ → ℕ → Option Text → AuthFile × Result Text
create_recovery_token hash_token writes clock file user_id expires_at none =
    (file, err random_failed)
create_recovery_token hash_token writes clock file user_id expires_at (some token) =
    elim (load_auth_store file) [
      | none ↦ (file, err load_failed)
      | some store ↦ (
        save_auth_store writes clock file (record store {
          recovery_tokens =
              store.recovery_tokens
              ++ record {
                user_id = user_id;
                token_hash = hash_token token;
                expires_at =
                    if expires_at == 0 then clock + recovery_token_duration else expires_at;
                used_at = 0;
              }
                ∷ [];
        }),
        if written writes then ok token else err save_failed,
      )
    ]

-- The token that verifyRecoveryToken's loop takes: it is the user's, unused, not expired, and has the
-- hash.
unfoldable pub is_usable : ℤ → Text → ℕ → RecoveryToken → Bool
is_usable user_id token_hash now t =
    not (not (int_eq t.user_id user_id) || not (t.used_at == 0) || ltb t.expires_at now)
    && text_eq t.token_hash token_hash

-- What verifyRecoveryToken does with the token it finds.
unfoldable pub use_token :
    Write
    → ℕ
    → AuthFile
    → AuthStore
    → ℕ
    → Option (List RecoveryToken × RecoveryToken × List RecoveryToken)
    → AuthFile × Bool
use_token writes clock file store now none = (file, false)
use_token writes clock file store now (some (before, t, after)) = (
  save_auth_store writes clock file
      (record store { recovery_tokens = before ++ record t { used_at = now } ∷ after }),
  written writes,
)

unfoldable pub verify_recovery_token :
    (Text → Text) → Write → ℕ → AuthFile → ℤ → Text → ℕ → AuthFile × Bool
verify_recovery_token hash_token writes clock file user_id token at =
    let now = if at == 0 then clock else at in
    elim (load_auth_store file) [
      | none ↦ (file, false)
      | some store ↦
          use_token writes clock file store now
            (split_first (is_usable user_id (hash_token token) now) store.recovery_tokens)
    ]
