-- ===== src/Auth/PasswordChange.antt =====
-- changePersistentPassword in pkg/webserver/auth_store.go.
use sitebrush_v.Prelude.{
  ℕ, ◌≡◌, ◌≢◌, ◌⊎◌, refl, subst, Bool, true, List, Option, none, some, arith, inl, inr, Bool-cases,
}
use sitebrush_v.Prelude.Int.{ℤ}
use sitebrush_v.Text.{Text}
use sitebrush_v.Files.{Write, unsynced, atomic_write_file}
use sitebrush_v.Data.{User}
use sitebrush_v.Auth.Store.{
  AuthStore, AuthFile, AuthError, load_auth_store, save_auth_store, split_first, strong_password,
}
use sitebrush_v.Auth.Accounts.{has_id, replace_password, change_persistent_password}
use sitebrush_v.Auth.Store.First.{split_first-some}
use sitebrush_v.Auth.Store.Changes.{Replaces, loading}

outcome-cases :
    (r : Option AuthError) (hashed : Option Text)
    → ((r ≡ none) × (hash : Text) × (hashed ≡ some hash))
      ⊎ ((r ≢ none) ⊎ ((r ≡ none) × (hashed ≡ none)))
outcome-cases none (some hash) = inl (refl, hash, refl)
outcome-cases none none = inr (inr (refl, refl))
outcome-cases (some e) hashed = inr (inl (ground arith))

module _ (verify : Text → Text → Option Bool) (writes : Write) (clock : ℕ) (file : AuthFile) where
  module _ (id : ℤ) (current new : Text) (hashed : Option Text) where
    -- What a change of password leaves, and what it answers.
    abbrev pub ChangeOutcome : AuthFile × Option AuthError → Type 0
    ChangeOutcome out =
        ((user : User) × (hash : Text) × (out.1 ≡ none)
          × (strong_password new ≡ true)
          × (verify current user.password_hash ≡ some true)
          × (hashed ≡ some hash)
          × Replaces (has_id id) file out.0 clock user (record user { password_hash = hash }))
        ⊎ (((out.0 ≡ file) ⊎ (unsynced writes ≡ true)) × (out.1 ≢ none))

    replace_password-Replaces :
        (store : AuthStore) (before : List User) (user : User) (after : List User)
        → load_auth_store file ≡ some store
        → split_first (has_id id) store.users ≡ some (before, user, after)
        → (hash : Text) → hashed ≡ some hash
        → (replace_password verify writes clock file store current hashed
            (some (before, user, after))).1
          ≡ none
        → Replaces
            (has_id id)
            file
            (replace_password verify writes clock file store current hashed
              (some (before, user, after))).0
            clock
            user
            (record user { password_hash = hash })
    unfolding replace_password save_auth_store atomic_write_file
    replace_password-Replaces store before user after l e hash h none_said =
        let (cut, good) = split_first-some _ store.users before user after e in
        record {
          store = store;
          before = before;
          after = after;
          loaded = l;
          found = cut;
          chosen = good;
          saved = ground arith;
        }

    replace_password-kept :
        (store : AuthStore) (found : Option (List User × User × List User))
        → (replace_password verify writes clock file store current hashed found).1 ≢ none
        → ((replace_password verify writes clock file store current hashed found).0 ≡ file)
          ⊎ (unsynced writes ≡ true)
    unfolding replace_password save_auth_store atomic_write_file
    replace_password-kept store none h = inl refl
    replace_password-kept store (some (before, user, after)) h = ground arith

    replace_password_outcome :
        (store : AuthStore) (found : Option (List User × User × List User))
        → strong_password new ≡ true
        → load_auth_store file ≡ some store
        → split_first (has_id id) store.users ≡ found
        → ChangeOutcome (replace_password verify writes clock file store current hashed found)
    unfolding replace_password
    replace_password_outcome store none good l e = inr (inl refl, ground arith)
    replace_password_outcome store (some (before, user, after)) good l e =
        elim (outcome-cases
          (replace_password verify writes clock file store current hashed
            (some (before, user, after))).1
          hashed) [
            | inl (said, hash, h) ↦ inl (
              user,
              hash,
              said,
              good,
              ground arith,
              h,
              replace_password-Replaces store before user after l e hash h said,
            )
            | inr (inl said) ↦
                inr (replace_password-kept store (some (before, user, after)) said, said)
            | inr (inr (said, h)) ↦ ground arith
          ]

    -- A change of password either reports no error, and then the new password is long enough, the current one is
    -- that of the active user with the identifier, and the file is written with the new hash at that user
    -- alone; or it reports an error and leaves the file as it was, unless the sync of the directory
    -- failed behind the rename.
    pub change_persistent_password_outcome :
        ChangeOutcome (change_persistent_password verify writes clock file id current new hashed)
    unfolding change_persistent_password
    change_persistent_password_outcome = elim (loading file) [
      | inl (store, l) ↦ elim (Bool-cases (strong_password new)) [
        | inl good ↦
            subst ChangeOutcome (ground arith)
              (replace_password_outcome store (split_first (has_id id) store.users) good l refl)
        | inr weak ↦ inr (inl (ground arith), ground arith)
      ]
      | inr l ↦ inr (inl (ground arith), ground arith)
    ]
