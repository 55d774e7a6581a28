-- ===== src/Auth/Admin.antt =====
-- createFirstAdmin of pkg/webserver/auth_store.go, with what it makes.
use sitebrush_v.Prelude.{ℕ, not, [], ◌∷◌, Option, none, some, if◌then◌else◌, ltb, length}
use sitebrush_v.Prelude.Int.{ℤ, pos}
use sitebrush_v.Text.{Text, codes, Unicode}
use sitebrush_v.Files.{Write, written}
use sitebrush_v.Data.{User, Group, UserGroup}
use sitebrush_v.Auth.Store.{
  AuthFile, Result, active_users, err, hash_failed, invalid_email, load_auth_store, load_failed,
  normalize_email, ok, save_auth_store, save_failed, strong_password, users_exist, valid_email,
  weak_password,
}

abbrev pub superuser_group_name : Text
superuser_group_name = codes "Superuser"

-- The user, the group and the membership that createFirstAdmin makes.
abbrev pub admin_user : Text → Text → ℤ → User
admin_user email hash unix = record {
  id = pos 1;
  session_id = [];
  old_id = pos 0;
  avatar_id = pos 0;
  email = email;
  password_hash = hash;
  nickname = email;
  first_name = [];
  last_name = [];
  gender = [];
  phone = [];
  date_of_registration = unix;
  date_of_birth = pos 0;
  last_visit_time = unix;
  greenwich_offset = pos 0;
  activated = codes "yes";
  verification_code = [];
  domain = [];
  status = codes "active";
  language = codes "en";
  current_ip = [];
  profile = [];
  preferences = [];
  security_log = [];
  invited_by = [];
  invites_amount = pos 0;
  quota_bytes = [];
  quota_originals = [];
  quota_bytes_used = pos 0;
  quota_originals_used = pos 0;
  auto_grab = [];
  domain_to_grab = [];
}

abbrev pub admin_group : ℤ → Group
admin_group unix = record {
  id = pos 1;
  owner_id = pos 1;
  name = superuser_group_name;
  title = superuser_group_name;
  comment = [];
  date = unix;
  status = codes "active";
  domain = [];
}

abbrev pub admin_membership : UserGroup
admin_membership = record {
  user_id = pos 1;
  group_id = pos 1;
  status = codes "active";
  domain = [];
}

-- createFirstAdmin; `hashed` is what hashPassword returns.
unfoldable pub create_first_admin :
    Unicode → Write → ℕ → ℤ → AuthFile → Text → Text → Option Text → AuthFile × Result User
create_first_admin u writes clock unix file email password hashed =
    let email = normalize_email u email in
    if not (valid_email email)
    then (file, err invalid_email)
    else if not (strong_password password)
    then (file, err weak_password)
    else elim (load_auth_store file) [
      | none ↦ (file, err load_failed)
      | some store ↦
          if ltb 0 (length (active_users store.users))
          then (file, err users_exist)
          else elim hashed [
            | none ↦ (file, err hash_failed)
            | some hash ↦ (
              save_auth_store writes clock file (record store {
                users = admin_user email hash unix ∷ [];
                groups = admin_group unix ∷ [];
                user_groups = admin_membership ∷ [];
              }),
              if written writes then ok (admin_user email hash unix) else err save_failed,
            )
          ]
    ]
