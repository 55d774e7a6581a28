-- ===== src/Auth/FirstAdmin.antt =====
-- createFirstAdmin makes one administrator, once.
use sitebrush_v.Prelude.{◌⊎◌, ℕ, ◌≡◌, ◌≢◌, true, false, [], ◌∷◌, Option, some, arith}
use sitebrush_v.Prelude.Int.{ℤ, pos}
use sitebrush_v.Text.{Text, codes, Unicode}
use sitebrush_v.Files.{Write, unsynced, atomic_write_file}
use sitebrush_v.Data.{User, Group, UserGroup}
use sitebrush_v.Auth.Store.{
  AuthStore, AuthFile, AuthError, ok, err, load_auth_store, save_auth_store, has_persistent_users,
  normalize_email,
}
use sitebrush_v.Auth.Admin.{admin_user, admin_group, admin_membership, create_first_admin}

module _ (u : Unicode) (writes : Write) (clock : ℕ) (unix : ℤ) (file : AuthFile)
    (email password : Text) where
  -- The administrator that is asked for.
  pub record IsAdmin (hashed : Option Text) (user : User) : Type 0 where
    pub id : user.id ≡ pos 1
    pub address : user.email ≡ normalize_email u email
    pub secret : some user.password_hash ≡ hashed
    pub status : user.status ≡ codes "active"

  -- A store whose users are this one alone, in one group, of which the user is a member.
  pub record OnlyAdmin (user : User) (after : AuthFile) : Type 0 where
    pub store : AuthStore
    pub loads : load_auth_store after ≡ some store
    pub users : store.users ≡ user ∷ []
    pub group : (g : Group) × ((store.groups ≡ g ∷ []) × (g.name ≡ codes "Superuser"))
    pub member :
        (m : UserGroup) × ((store.user_groups ≡ m ∷ [])
          × ((m.user_id ≡ user.id) × ((m.group_id ≡ pos 1) × (m.status ≡ codes "active"))))

  -- The store that is written over the one that was loaded.
  abbrev made_store : Text → AuthStore → AuthStore
  made_store hash store = record store {
    users = admin_user (normalize_email u email) hash unix ∷ [];
    groups = admin_group unix ∷ [];
    user_groups = admin_membership ∷ [];
    updated_at = clock;
  }

  -- Where there is an active user, or users.json cannot be read, no administrator is made and nothing
  -- is written.
  pub create_first_admin-refused :
      (hashed : Option Text)
      → has_persistent_users file ≢ some false
      → (user : User)
      → ((create_first_admin u writes clock unix file email password hashed).1 ≢ ok user)
        × ((create_first_admin u writes clock unix file email password hashed).0 ≡ file)
  unfolding create_first_admin has_persistent_users
  create_first_admin-refused hashed busy user = ground arith

  -- An attempt that fails leaves the file as it was, unless it was the sync of the directory behind a
  -- finished rename that failed.
  pub create_first_admin-failed :
      (hashed : Option Text) (e : AuthError)
      → (create_first_admin u writes clock unix file email password hashed).1 ≡ err e
      → ((create_first_admin u writes clock unix file email password hashed).0 ≡ file)
        ⊎ (unsynced writes ≡ true)
  unfolding create_first_admin save_auth_store atomic_write_file
  create_first_admin-failed hashed e h = ground arith
