-- ===== src/Routes/Environment.antt =====
-- The admin password and the bootstrap token that the environment sets, in pkg/webserver/functions.go.
-- SHA-256 enters as an argument.
use sitebrush_v.Prelude.{Bool, false, not, ◌||◌, if◌then◌else◌}
use sitebrush_v.Text.{Text, Unicode, text_eq, is_empty, to_lower}

-- The variables; an unset one is empty.
pub record Environment : Type 0 where
  pub admin_password_sha256 : Text
  pub admin_password : Text
  pub bootstrap_token : Text

unfoldable pub admin_password_configured : Environment → Bool
admin_password_configured e =
    not (is_empty e.admin_password_sha256) || not (is_empty e.admin_password)

unfoldable pub bootstrap_token_configured : Environment → Bool
bootstrap_token_configured e = not (is_empty e.bootstrap_token)

module _ (u : Unicode) (sha256 : Text → Text) (sha256_hex : Text → Text) where
  unfoldable pub validate_bootstrap_token : Environment → Text → Bool
  validate_bootstrap_token e token =
      if is_empty e.bootstrap_token || is_empty token
      then false
      else text_eq (sha256 e.bootstrap_token) (sha256 token)

  unfoldable pub validate_admin_password : Environment → Text → Bool
  unfolding to_lower
  validate_admin_password e password =
      if not (is_empty e.admin_password_sha256)
      then text_eq (to_lower u e.admin_password_sha256) (sha256_hex password)
      else if not (is_empty e.admin_password)
      then text_eq (sha256 e.admin_password) (sha256 password)
      else false
