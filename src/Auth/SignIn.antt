-- ===== src/Auth/SignIn.antt =====
-- Sign-in by the accounts of users.json: authenticatePersistentUser in pkg/webserver/auth_store.go.
use sitebrush_v.Prelude.{
  ℕ, ◌≡◌, ◌≢◌, ◌⊎◌, refl, sym, subst, Bool, true, List, ◌∷◌, ◌++◌, Option, none, some, arith, inl,
  inr, count_if,
}
use sitebrush_v.Prelude.Int.{ℤ}
use sitebrush_v.Text.{Text, Unicode}
use sitebrush_v.Files.{Write, written, unsynced, atomic_write_file}
use sitebrush_v.Data.{User}
use sitebrush_v.Auth.Store.{
  AuthStore, AuthFile, load_failed, Result, ok, err, load_auth_store, save_auth_store, split_first,
}
use sitebrush_v.Auth.Accounts.{has_email, sign_in, authenticate_persistent_user}
use sitebrush_v.Auth.Store.First.{split_first-some, split_first-append}
use sitebrush_v.Auth.Store.Changes.{Replaces, loading}

answer-cases :
    (r : Result (Option User))
    → ((signed : User) × (r ≡ ok (some signed))) ⊎ ((signed : User) → r ≢ ok (some signed))
answer-cases (ok (some signed)) = inl (signed, refl)
answer-cases (ok none) = inr (λ signed. ground arith)
answer-cases (err e) = inr (λ signed. ground arith)

module _ (verify : Text → Text → Option Bool) (writes : Write) (clock : ℕ) (file : AuthFile) where
  module _ (u : Unicode) (unix : ℤ) (email password : Text) where
    sign_in-Replaces :
        (store : AuthStore) (found : Option (List User × User × List User)) (signed : User)
        → load_auth_store file ≡ some store
        → split_first (has_email u email) store.users ≡ found
        → (sign_in verify writes clock unix file store password found).1 ≡ ok (some signed)
        → (user : User) × (verify password user.password_hash ≡ some true)
          × (signed ≡ record user { last_visit_time = unix })
          × Replaces
              (has_email u email)
              file
              (sign_in verify writes clock unix file store password found).0
              clock
              user
              signed
    unfolding sign_in save_auth_store atomic_write_file
    sign_in-Replaces store none signed l e h = ground arith
    sign_in-Replaces store (some (before, user, after)) signed l e h =
        let (cut, good) = split_first-some _ store.users before user after e in
        (
          user,
          ground arith,
          ground arith,
          record {
            store = store;
            before = before;
            after = after;
            loaded = l;
            found = cut;
            chosen = good;
            saved = ground arith;
          },
        )

    -- What sign-in leaves, and what it answers.
    abbrev pub SignInOutcome : AuthFile × Result (Option User) → Type 0
    SignInOutcome out =
        ((signed : User) × (user : User) × (out.1 ≡ ok (some signed))
          × (verify password user.password_hash ≡ some true)
          × (signed ≡ record user { last_visit_time = unix })
          × Replaces (has_email u email) file out.0 clock user signed)
        ⊎ (((out.0 ≡ file) ⊎ (unsynced writes ≡ true))
            × ((signed : User) → out.1 ≢ ok (some signed)))

    sign_in-kept :
        (store : AuthStore) (found : Option (List User × User × List User))
        → ((signed : User)
            → (sign_in verify writes clock unix file store password found).1 ≢ ok (some signed))
        → ((sign_in verify writes clock unix file store password found).0 ≡ file)
          ⊎ (unsynced writes ≡ true)
    unfolding sign_in save_auth_store atomic_write_file
    sign_in-kept store none nobody = inl refl
    sign_in-kept store (some (before, user, after)) nobody =
        ground (arith, nobody (record user { last_visit_time = unix }))

    sign_in_outcome :
        (store : AuthStore)
        → load_auth_store file ≡ some store
        → SignInOutcome (
            sign_in verify writes clock unix file store password
              (split_first (has_email u email) store.users))
    sign_in_outcome store l =
        elim (answer-cases
          (sign_in verify writes clock unix file store password
            (split_first (has_email u email) store.users)).1) [
              | inl (signed, said) ↦
                  let (user, right, seen, change) = sign_in-Replaces store _ signed l refl said in
                  inl (signed, user, said, right, seen, change)
              | inr nobody ↦ inr (sign_in-kept store _ nobody, nobody)
            ]

    sign_in_loaded :
        (store : AuthStore)
        → load_auth_store file ≡ some store
        → authenticate_persistent_user u verify writes clock unix file email password
          ≡ sign_in verify writes clock unix file store password
              (split_first (has_email u email) store.users)
    unfolding authenticate_persistent_user
    sign_in_loaded store l = ground arith

    sign_in_unloaded :
        load_auth_store file ≡ none
        → authenticate_persistent_user u verify writes clock unix file email password
          ≡ (file, err load_failed)
    unfolding authenticate_persistent_user
    sign_in_unloaded l = ground arith

    -- Sign-in either answers with a user of the file, found by the e-mail address, active and with the right
    -- password, and then the file is written with the time of the visit at that user alone; or it answers
    -- with no user and leaves the file as it was, unless the sync of the directory failed behind the rename.
    pub authenticate_persistent_user_outcome :
        SignInOutcome (authenticate_persistent_user u verify writes clock unix file email password)
    authenticate_persistent_user_outcome = elim (loading file) [
      | inl (store, l) ↦
          subst SignInOutcome (sym (sign_in_loaded store l)) (sign_in_outcome store l)
      | inr l ↦
          subst SignInOutcome (sym (sign_in_unloaded l)) (inr (inl refl, λ signed. ground arith))
    ]

    -- Where the file can be read and written, the first active user with the e-mail address signs in with
    -- the right password.
    pub authenticate_persistent_user-accepts :
        (store : AuthStore) (before : List User) (user : User) (after : List User)
        → written writes ≡ true
        → load_auth_store file ≡ some store
        → store.users ≡ before ++ user ∷ after
        → count_if (has_email u email) before ≡ 0
        → has_email u email user ≡ true
        → verify password user.password_hash ≡ some true
        → (authenticate_persistent_user u verify writes clock unix file email password).1
          ≡ ok (some (record user { last_visit_time = unix }))
    unfolding authenticate_persistent_user sign_in
    authenticate_persistent_user-accepts store before user after w l cut others good right =
        ground (arith, split_first-append (has_email u email) before user after others good)
