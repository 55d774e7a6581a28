-- ===== src/Auth/Accounts.antt =====
-- authenticatePersistentUser and changePersistentPassword of pkg/webserver/auth_store.go.
use sitebrush_v.Prelude.{
  ℕ, Bool, true, false, not, ◌&&◌, List, ◌∷◌, ◌++◌, Option, none, some, if◌then◌else◌,
}
use sitebrush_v.Prelude.Int.{ℤ, int_eq}
use sitebrush_v.Text.{Text, Unicode, text_eq}
use sitebrush_v.Files.{Write, written}
use sitebrush_v.Data.{User}
use sitebrush_v.Auth.Store.{
  AuthError, AuthFile, AuthStore, Result, err, hash_failed, invalid_credentials, is_active,
  load_auth_store, load_failed, normalize_email, ok, save_auth_store, save_failed, split_first,
  strong_password, weak_password,
}

-- What authenticatePersistentUser does with the user it finds.
unfoldable pub sign_in :
    (Text → Text → Option Bool)
    → Write
    → ℕ
    → ℤ
    → AuthFile
    → AuthStore
    → Text
    → Option (List User × User × List User)
    → AuthFile × Result (Option User)
sign_in verify writes clock unix file store password none = (file, ok none)
sign_in verify writes clock unix file store password (some (before, user, after)) =
    elim (verify password user.password_hash) [
      | none ↦ (file, ok none)
      | some false ↦ (file, ok none)
      | some true ↦
          let seen = record user { last_visit_time = unix } in
          (
            save_auth_store writes clock file (record store { users = before ++ seen ∷ after }),
            if written writes then ok (some seen) else err save_failed,
          )
    ]

-- The user that authenticatePersistentUser's loop stops at.
unfoldable pub has_email : Unicode → Text → User → Bool
has_email u email user = text_eq (normalize_email u user.email) email && is_active user

-- authenticatePersistentUser. `verify` is verifyPassword, `none` its error. The result is the user, if the
-- password is right.
unfoldable pub authenticate_persistent_user :
    Unicode
    → (Text → Text → Option Bool)
    → Write
    → ℕ
    → ℤ
    → AuthFile
    → Text
    → Text
    → AuthFile × Result (Option User)
authenticate_persistent_user u verify writes clock unix file email password =
    elim (load_auth_store file) [
      | none ↦ (file, err load_failed)
      | some store ↦
          sign_in verify writes clock unix file store password
            (split_first (has_email u email) store.users)
    ]

-- What changePersistentPassword does with the user it finds; `hashed` is what hashPassword returns for the
-- new password.
unfoldable pub replace_password :
    (Text → Text → Option Bool)
    → Write
    → ℕ
    → AuthFile
    → AuthStore
    → Text
    → Option Text
    → Option (List User × User × List User)
    → AuthFile × Option AuthError
replace_password verify writes clock file store current hashed none =
    (file, some invalid_credentials)
replace_password verify writes clock file store current hashed (some (before, user, after)) =
    elim (verify current user.password_hash) [
      | none ↦ (file, some invalid_credentials)
      | some false ↦ (file, some invalid_credentials)
      | some true ↦ elim hashed [
        | none ↦ (file, some hash_failed)
        | some hash ↦ (
          save_auth_store writes clock file
              (record store { users = before ++ record user { password_hash = hash } ∷ after }),
          if written writes then none else some save_failed,
        )
      ]
    ]

-- The user that changePersistentPassword's loop stops at.
unfoldable pub has_id : ℤ → User → Bool
has_id user_id user = int_eq user.id user_id && is_active user

unfoldable pub change_persistent_password :
    (Text → Text → Option Bool)
    → Write
    → ℕ
    → AuthFile
    → ℤ
    → Text
    → Text
    → Option Text
    → AuthFile × Option AuthError
change_persistent_password verify writes clock file user_id current new hashed =
    if not (strong_password new) then (file, some weak_password) else elim (load_auth_store file) [
      | none ↦ (file, some load_failed)
      | some store ↦
          replace_password verify writes clock file store current hashed
            (split_first (has_id user_id) store.users)
    ]
