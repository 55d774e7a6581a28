-- ===== src/Sessions.antt =====
-- sessionStore of pkg/webserver/functions.go. Time is a number of nanoseconds since the zero
-- time.Time; the clock, the random tokens and hashToken (SHA-256) enter as arguments.
pub mod Laws
mod Tests
use sitebrush_v.Prelude.{
  ℕ, ◌+◌, ◌*◌, Bool, true, false, not, ◌&&◌, ◌||◌, List, [], ◌∷◌, Option, none, some, if◌then◌else◌,
  ltb,
}
use sitebrush_v.Prelude.Int.{ℤ}
use sitebrush_v.Text.{Text, codes, text_eq, is_empty, has_prefix}

pub record OperatorSession : Type 0 where
  pub user : Text
  pub email : Text
  pub user_id : ℤ
  pub auth_source : Text
  pub csrf_token : Text
  pub expires_at : ℕ

-- map[string]operatorSession
abbrev pub Store : Type 0
Store = List (Text × OperatorSession)

unfoldable pub lookup : Text → Store → Option OperatorSession
lookup key [] = none
lookup key ((k, session) ∷ rest) = if text_eq k key then some session else lookup key rest

-- delete(s.sessions, key)
unfoldable pub delete : Text → Store → Store
delete key [] = []
delete key ((k, session) ∷ rest) =
    let left = delete key rest in if text_eq k key then left else (k, session) ∷ left

-- s.sessions[key] = session
unfoldable pub assign : Text → OperatorSession → Store → Store
assign key session store = (key, session) ∷ delete key store

-- 12 hours
abbrev pub session_duration : ℕ
session_duration = 12 * 3600 * 1000000000

-- The part of get behind the cookie.
unfoldable pub get_key : ℕ → Text → Store → Option OperatorSession → Store × Option OperatorSession
get_key now key store none = (store, none)
get_key now key store (some session) =
    if ltb session.expires_at now then (delete key store, none) else (store, some session)

module _ (hash_token : Text → Text) where
  -- createForUser; `token` and `csrf` are what randomToken returns, `none` if it fails. The result is
  -- the session with the value of the cookie that is set.
  unfoldable pub create_for_user :
      ℕ
      → Option Text
      → Option Text
      → Store
      → Text
      → Text
      → ℤ
      → Text
      → Store × Option (OperatorSession × Text)
  create_for_user now none csrf store user email user_id auth_source = (store, none)
  create_for_user now (some token) none store user email user_id auth_source = (store, none)
  create_for_user now (some token) (some csrf) store user email user_id auth_source =
      let session : OperatorSession = record {
        user = user;
        email = email;
        user_id = user_id;
        auth_source = auth_source;
        csrf_token = csrf;
        expires_at = now + session_duration;
      } in
      (assign (hash_token token) session store, some (session, token))

  -- get; `none` is a request without the cookie.
  unfoldable pub get : ℕ → Store → Option Text → Store × Option OperatorSession
  get now store none = (store, none)
  get now store (some value) =
      let key = hash_token value in
      let found = get_key now key store (lookup key store) in
      if is_empty value then (store, none) else found

  -- destroy, but for the cookie that it clears.
  unfoldable pub destroy : Store → Option Text → Store
  destroy store none = store
  destroy store (some value) = delete (hash_token value) store

-- validCSRF; `header` and `form` are the two places where a token may stand, `parsed` whether
-- ParseForm succeeds.
unfoldable pub valid_csrf : Text → Bool → Text → OperatorSession → Bool
valid_csrf header parsed form session =
    if is_empty header
    then (if parsed then not (is_empty form) && text_eq form session.csrf_token else false)
    else text_eq header session.csrf_token

-- redirectAfterLogin: where the browser is sent.
unfoldable pub redirect_after_login : Text → Text
redirect_after_login next =
    if is_empty next || has_prefix (codes "//") next || not (has_prefix (codes "/") next)
    then codes "/?profile"
    else next
