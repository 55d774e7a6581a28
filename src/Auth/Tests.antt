-- ===== src/Auth/Tests.antt =====
-- Witnesses for the account store: a store with one user, ann, whose password hash is "#secret".
use sitebrush_v.Prelude.{Bool, true, [], ◌∷◌, Option, some, arith}
use sitebrush_v.Prelude.Int.{pos}
use sitebrush_v.Text.{Text, codes, ascii_only, text_eq}
use sitebrush_v.Data.{User}
use sitebrush_v.Files.{Write}
use sitebrush_v.Auth.Store.{AuthStore, stored}
use sitebrush_v.Auth.Accounts.{authenticate_persistent_user, change_persistent_password}
use sitebrush_v.Auth.Tokens.{verify_recovery_token}
use sitebrush_v.Auth.Recovery.{TokenOutcome, verify_recovery_token_outcome}
use sitebrush_v.Auth.SignIn.{SignInOutcome, authenticate_persistent_user_outcome}
use sitebrush_v.Auth.PasswordChange.{ChangeOutcome, change_persistent_password_outcome}

abbrev ann : User
ann = record {
  id = pos 1;
  session_id = [];
  old_id = pos 0;
  avatar_id = pos 0;
  email = codes "ann@example.org";
  password_hash = codes "#secret";
  nickname = [];
  first_name = [];
  last_name = [];
  gender = [];
  phone = [];
  date_of_registration = pos 0;
  date_of_birth = pos 0;
  last_visit_time = pos 0;
  greenwich_offset = pos 0;
  activated = [];
  verification_code = [];
  domain = [];
  status = codes "active";
  language = [];
  current_ip = [];
  profile = [];
  preferences = [];
  security_log = [];
  invited_by = [];
  invites_amount = pos 0;
  quota_bytes = [];
  quota_originals = [];
  quota_bytes_used = pos 0;
  quota_originals_used = pos 0;
  auto_grab = [];
  domain_to_grab = [];
}

abbrev sample_store : AuthStore
sample_store = record {
  users = ann ∷ [];
  groups = [];
  user_groups = [];
  recovery_tokens =
      record { user_id = pos 1; token_hash = codes "#t"; expires_at = 100; used_at = 0 } ∷ [];
  updated_at = 0;
}

abbrev sample_verify : Text → Text → Option Bool
sample_verify password hash = some (text_eq (b'#' ∷ password) hash)

abbrev all_well : Write
all_well = record { renames = true; syncs = true }

abbrev sample_hash : Text → Text
sample_hash token = b'#' ∷ token

verify_recovery_token_outcome_example :
    TokenOutcome sample_hash all_well 9
      (stored sample_store)
      (pos 1)
      (codes "t")
      0
      (stored sample_store)
      (verify_recovery_token sample_hash all_well 9 (stored sample_store) (pos 1) (codes "t") 0)
verify_recovery_token_outcome_example =
    verify_recovery_token_outcome sample_hash all_well 9 (stored sample_store) (pos 1) (codes "t") 0
      (omega arith)

authenticate_persistent_user_outcome_example :
    SignInOutcome sample_verify all_well 9
      (stored sample_store)
      ascii_only
      (pos 9)
      (codes "ann@example.org")
      (codes "wrong")
      (authenticate_persistent_user ascii_only sample_verify all_well 9
        (pos 9)
        (stored sample_store)
        (codes "ann@example.org")
        (codes "wrong"))
authenticate_persistent_user_outcome_example =
    authenticate_persistent_user_outcome sample_verify all_well 9 (stored sample_store) ascii_only
      (pos 9) (codes "ann@example.org") (codes "wrong")

change_persistent_password_outcome_example :
    ChangeOutcome sample_verify all_well 9
      (stored sample_store)
      (pos 1)
      (codes "secret")
      (codes "longenough")
      (some (codes "#longenough"))
      (change_persistent_password sample_verify all_well 9
        (stored sample_store)
        (pos 1)
        (codes "secret")
        (codes "longenough")
        (some (codes "#longenough")))
change_persistent_password_outcome_example =
    change_persistent_password_outcome sample_verify all_well 9 (stored sample_store) (pos 1)
      (codes "secret") (codes "longenough") (some (codes "#longenough"))
