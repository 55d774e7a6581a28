-- ===== src/Auth/Store.antt =====
-- The operations of pkg/webserver/auth_store.go that read and write users.json. Times are
-- nanoseconds since the zero time.Time, which is 0; LastVisitTime and DateOfRegistration are taken
-- from `unix`. The lock authStoreMu makes each operation one step.
pub mod First
pub mod Changes
use sitebrush_v.Prelude.{
  ℕ, ◌+◌, ◌-◌, ◌*◌, ◌≤◌, ◌<◌, ◌≡◌, Bool, true, false, not, ◌&&◌, ◌||◌, List, [], ◌∷◌, ◌++◌, Option,
  none, some, if◌then◌else◌, ltb, ◌==◌, keep, length,
}
use sitebrush_v.Prelude.Int.{ℤ, pos, int_eq}
use sitebrush_v.Text.{
  Text, codes, Unicode, text_eq, one_of, is_empty, to_lower, trim_space, byte_len, contains,
  decimal_ℤ,
}
use sitebrush_v.Files.{Write, written, unsynced, atomic_write_file}
use sitebrush_v.Data.{User, Group, UserGroup}

pub record RecoveryToken : Type 0 where
  pub user_id : ℤ
  pub token_hash : Text
  pub expires_at : ℕ
  pub used_at : ℕ

pub record AuthStore : Type 0 where
  pub users : List User
  pub groups : List Group
  pub user_groups : List UserGroup
  pub recovery_tokens : List RecoveryToken
  pub updated_at : ℕ

-- users.json: not there, not readable as JSON, or a store.
pub data AuthFile : Type 0 where
  missing unreadable : AuthFile
  stored : AuthStore → AuthFile

pub data AuthError : Type 0 where
  invalid_email weak_password invalid_credentials users_exist load_failed save_failed hash_failed
        random_failed :
      AuthError

pub data Result {ℓ} (A : Type ℓ) : Type ℓ where
  ok : A → Result A
  err : AuthError → Result A

abbrev pub empty_store : AuthStore
empty_store = record {
  users = [];
  groups = [];
  user_groups = [];
  recovery_tokens = [];
  updated_at = 0;
}

-- loadAuthStore; `none` is an error.
unfoldable pub load_auth_store : AuthFile → Option AuthStore
load_auth_store missing = some empty_store
load_auth_store unreadable = none
load_auth_store (stored store) = some store

-- saveAuthStore; an error of json.MarshalIndent, os.MkdirAll or os.Chmod is one before the rename.
unfoldable pub save_auth_store : Write → ℕ → AuthFile → AuthStore → AuthFile
save_auth_store writes clock file store =
    atomic_write_file writes file (stored (record store { updated_at = clock }))

-- Status == "" || Status == "active"
unfoldable pub is_active : User → Bool
is_active user = is_empty user.status || text_eq user.status (codes "active")

unfoldable pub active_users : List User → List User
active_users users = keep is_active users

-- hasPersistentUsers; `none` is an error.
unfoldable pub has_persistent_users : AuthFile → Option Bool
has_persistent_users file = elim (load_auth_store file) [
  | none ↦ none
  | some store ↦ some (ltb 0 (length (active_users store.users)))
]

unfoldable pub normalize_email : Unicode → Text → Text
normalize_email u email = to_lower u (trim_space email)

-- The text behind the last "@", with whether something stands before it.
unfoldable pub after_last_at : Bool → Text → Option (Bool × Text)
after_last_at seen [] = none
after_last_at seen (c ∷ s) =
    let rest = after_last_at true s in
    elim rest [ some r ↦ some r | none ↦ if c == b'@' then some (seen, s) else none ]

unfoldable pub valid_email : Text → Bool
valid_email email =
    if is_empty email
      || ltb 254 (byte_len email)
      || (contains b' ' email || contains 9 email || contains 13 email || contains 10 email)
    then false
    else elim (after_last_at false email) [
      | none ↦ false
      | some (before, domain) ↦ before && (not (is_empty domain) && contains b'.' domain)
    ]

-- validatePassword accepts.
unfoldable pub strong_password : Text → Bool
strong_password password = not (ltb (byte_len password) 8)

unfoldable pub display_user_name : User → Text
display_user_name user =
    if not (is_empty user.nickname)
    then user.nickname
    else if not (is_empty user.email)
    then user.email
    else codes "user-" ++ decimal_ℤ user.id

-- The first element that passes a test, between those before and after it: `for i := range` with a
-- return at the first element that is not skipped.
unfoldable pub split_first {ℓ} : {A : Type ℓ} → (A → Bool) → List A → Option (List A × A × List A)
split_first p [] = none
split_first p (x ∷ xs) =
    let rest = split_first p xs in
    if p x
    then some ([], x, xs)
    else elim rest [ none ↦ none | some (before, y, after) ↦ some (x ∷ before, y, after) ]
