-- ===== src/Auth/Store/Changes.antt =====
-- What reading users.json gives, and the change of one user in it.
use sitebrush_v.Prelude.{ℕ, ◌≡◌, ◌⊎◌, refl, Bool, true, List, ◌∷◌, ◌++◌, none, some, inl, inr}
use sitebrush_v.Data.{User}
use sitebrush_v.Auth.Store.{AuthStore, AuthFile, missing, unreadable, stored, load_auth_store}

-- The file holds one user that passes `good`, and the new file differs from it in that user alone.
pub record Replaces (good : User → Bool) (old new : AuthFile) (clock : ℕ) (user changed : User)
    : Type 0 where
  pub store : AuthStore
  pub before : List User
  pub after : List User
  pub loaded : load_auth_store old ≡ some store
  pub found : store.users ≡ before ++ user ∷ after
  pub chosen : good user ≡ true
  pub saved : new ≡ stored (record store { users = before ++ changed ∷ after; updated_at = clock })

pub loading :
    (file : AuthFile)
    → ((store : AuthStore) × (load_auth_store file ≡ some store)) ⊎ (load_auth_store file ≡ none)
unfolding load_auth_store
loading missing = inl (_, refl)
loading unreadable = inr refl
loading (stored store) = inl (store, refl)
