-- ===== src/Sessions/Laws.antt =====
-- What the handlers rely on: who is logged in, until when, and where a login leads.
use sitebrush_v.Prelude.{
  ℕ, ◌+◌, ◌≤◌, ◌≡◌, ◌≢◌, ◌⊎◌, ◌↔◌, ◌++◌, refl, Bool, true, false, [], ◌∷◌, Option, none, some,
  if◌then◌else◌, ltb, arith,
}
use sitebrush_v.Prelude.Int.{ℤ}
use sitebrush_v.Text.{
  Text, codes, text_eq, text_eq_iff, text_eq_self, is_empty, has_prefix, strip_prefix,
}
use sitebrush_v.Sessions.{
  OperatorSession, Store, lookup, delete, assign, session_duration, create_for_user, get_key, get,
  destroy, valid_csrf, redirect_after_login,
}

pub lookup-delete :
    (j k : Text) (store : Store)
    → lookup j (delete k store) ≡ (if text_eq k j then none else lookup j store)
unfolding lookup delete
lookup-delete j k [] = ground arith
lookup-delete j k ((i, x) ∷ rest) =
    ground (arith, lookup-delete j k rest, text_eq_iff i k, text_eq_iff i j, text_eq_iff k j)

-- The session that a cookie stands for at a time: the contract of the store.
abbrev pub unexpired : ℕ → Option OperatorSession → Option OperatorSession
unexpired now none = none
unexpired now (some session) = if ltb session.expires_at now then none else some session

module _ (hash_token : Text → Text) where
  abbrev pub view : ℕ → Store → Option Text → Option OperatorSession
  view now store none = none
  view now store (some value) =
      if is_empty value then none else unexpired now (lookup (hash_token value) store)

  get_lookup :
      (now : ℕ) (store : Store) (value : Text)
      → (get hash_token now store (some value)).1 ≡ view now store (some value)
  unfolding get get_key
  get_lookup now store value = ground arith

  -- What get leaves at a key.
  get_key-lookup :
      (now later : ℕ) (key j : Text) (store : Store)
      → now ≤ later
      → unexpired later (lookup j (get_key now key store (lookup key store)).0)
        ≡ unexpired later (lookup j store)
  unfolding get_key
  get_key-lookup now later key j store h =
      ground (arith, lookup-delete j key store, text_eq_iff key j)

  get_later :
      (now later : ℕ) (store : Store) (value : Text) (other : Option Text)
      → now ≤ later
      → view later (get hash_token now store (some value)).0 other ≡ view later store other
  unfolding get
  get_later now later store value none h = refl
  get_later now later store value (some v) h =
      ground (arith, get_key-lookup now later (hash_token value) (hash_token v) store h)

  -- get returns the view, so never a session past its expiry; and the entries that it drops change
  -- no view, of any cookie, from that time on.
  pub get-view :
      (now later : ℕ) (store : Store) (cookie other : Option Text)
      → now ≤ later
      → ((get hash_token now store cookie).1 ≡ view now store cookie)
        × (view later (get hash_token now store cookie).0 other ≡ view later store other)
  get-view now later store none other h = unfold get in (refl, refl)
  get-view now later store (some value) other h =
      (get_lookup now store value, get_later now later store value other h)

  -- After a login with the two random tokens, a non-empty cookie value with the new token's hash stands
  -- for the new session up to twelve hours later and for none after that; a cookie value with
  -- another hash stands for what it stood for.
  pub view-create_for_user :
      (now at : ℕ) (store : Store) (token csrf user email : Text) (id : ℤ) (source value : Text)
      → is_empty value ≡ false
      → view at
          (create_for_user hash_token now (some token) (some csrf) store user email id source).0
          (some value)
        ≡ (if text_eq (hash_token token) (hash_token value)
            then (if ltb (now + session_duration) at
                then none
                else some (record {
                  user = user;
                  email = email;
                  user_id = id;
                  auth_source = source;
                  csrf_token = csrf;
                  expires_at = now + session_duration;
                }))
            else view at store (some value))
  unfolding create_for_user assign lookup
  view-create_for_user now at store token csrf user email id source value h =
      ground (arith, lookup-delete (hash_token value) (hash_token token) store)

  -- After a logout the cookie stands for no session at any time, and a cookie value with another hash
  -- for what it stood for.
  pub view-destroy :
      (at : ℕ) (store : Store) (value other : Text)
      → (view at (destroy hash_token store (some value)) (some value) ≡ none)
        × (view at (destroy hash_token store (some value)) (some other) ≡ (
            if text_eq (hash_token value) (hash_token other)
            then none
            else view at store (some other)))
  unfolding destroy
  view-destroy at store value other = (
    ground (
      arith,
      lookup-delete (hash_token value) (hash_token value) store,
      text_eq_self (hash_token value),
    ),
    ground (arith, lookup-delete (hash_token other) (hash_token value) store),
  )

-- A request passes the CSRF test exactly if the token that counts is not empty and is the session's: the
-- header's if there is one, else the form's, which must parse.
pub valid_csrf_iff :
    (header : Text) (parsed : Bool) (form : Text) (session : OperatorSession)
    → (valid_csrf header parsed form session ≡ true) ↔ (
        ((header ≢ []) × (header ≡ session.csrf_token))
        ⊎ ((header ≡ []) × (parsed ≡ true) × (form ≢ []) × (form ≡ session.csrf_token)))
unfolding valid_csrf
valid_csrf_iff [] parsed [] session = ground arith
valid_csrf_iff [] parsed (c ∷ form) session =
    ground (arith, text_eq_iff (c ∷ form) session.csrf_token)
valid_csrf_iff (c ∷ header) parsed form session =
    ground (arith, text_eq_iff (c ∷ header) session.csrf_token)

profile_local :
    (has_prefix (codes "/") (codes "/?profile") ≡ true)
    × (has_prefix (codes "//") (codes "/?profile") ≡ false)
unfolding has_prefix strip_prefix
profile_local = (refl, refl)

-- The target of a login begins with "/" and not with "//", whatever the form asks for.
pub redirect_after_login-local :
    (next : Text)
    → (has_prefix (codes "/") (redirect_after_login next) ≡ true)
      × (has_prefix (codes "//") (redirect_after_login next) ≡ false)
unfolding redirect_after_login
redirect_after_login-local next = ground (arith, profile_local)

-- redirectAfterLogin lets a backslash through behind the first slash, which browsers read as "//".
pub redirect_after_login-backslash :
    (rest : Text) → redirect_after_login (codes "/\\" ++ rest) ≡ codes "/\\" ++ rest
unfolding redirect_after_login has_prefix strip_prefix
redirect_after_login-backslash rest = refl
