-- ===== src/Routes/Tests.antt =====
-- Witnesses for the requests: a site that counts its changes and has one redirect, from the root to /new.
use sitebrush_v.Prelude.{ℕ, ◌+◌, ◌≡◌, ◌⊎◌, refl, true, false, [], ◌∷◌, none, some}
use sitebrush_v.Prelude.Int.{pos}
use sitebrush_v.Text.{codes, contains, has_prefix, is_control, is_space}
use sitebrush_v.Sessions.{Store}
use sitebrush_v.Routes.Targets.{IsInternal}
use sitebrush_v.Routes.Interface.{
  Request, Site, Surroundings, World, Response, redirect, get_method, post_method, refused,
  change_failed, users_exist,
}
use sitebrush_v.Routes.Interface
use sitebrush_v.Routes.Dispatch.{handle}
use sitebrush_v.Routes.Guard.{handle-Guarded}
use sitebrush_v.Routes.Authorised.{KeepsView, Authorised}
use sitebrush_v.Routes.Redirects.{handle-IsInternal}

abbrev counting : Site ℕ
counting = record {
  file_of = λ path. some [];
  is_file = λ n path. false;
  frozen = λ n. false;
  published_file = λ path. none;
  has_content = λ n path. false;
  published_media = λ path. none;
  media_of = λ path. Interface.bad_host;
  uri_of = λ path. some (codes "/");
  find_redirect = λ uri n. (n, some (some (codes "/new")));
  load_page = λ path n. (n, true);
  list_revisions = λ path n. (n, true);
  list_subpages = λ path n. (n, true);
  load_properties = λ path n. (n, true);
  check_readiness = λ n. (n, true);
  has_users = λ n. some true;
  save_page = λ session path text n. (n + 1, true);
  restore_page = λ session path revision n. (n + 1, Interface.done);
  create_subpage = λ path slug text n. (n + 1, Interface.done);
  update_properties = λ path form n. (n + 1, (Interface.done, codes "/"));
  publish_snapshot = λ n. (n + 1, true);
  write_site_state = λ frozen n. (n + 1, true);
  create_backup = λ n. (n + 1, true);
  restore_backup = λ name n. (n + 1, Interface.done);
  change_password = λ id old new n. (n, change_failed);
  grab_target = λ path url. some path;
  import_page = λ session path url n. (n + 1, 200);
  save_upload = λ session kind n. (n + 1, 200);
  authenticate = λ email password n. (n, refused);
  create_first_admin = λ email password n. (n, users_exist);
}

abbrev surroundings : Surroundings
surroundings = record {
  now = 5;
  hash_token = λ s. s;
  token = some (codes "t");
  csrf = some (codes "c");
  normalize_email = λ s. s;
  admin_configured = false;
  admin_password = λ s. false;
  bootstrap_configured = false;
  bootstrap_token = λ s. false;
}

abbrev signed_in_as : Store
signed_in_as =
    (
      codes "t",
      record {
        user = codes "ann";
        email = codes "a@x.org";
        user_id = pos 1;
        auth_source = codes "users";
        csrf_token = codes "c";
        expires_at = 9;
      },
    )
    ∷ []

abbrev world : World ℕ
world = record { sessions = signed_in_as; site = 0 }

abbrev save_request : Request
save_request = record {
  method = post_method;
  path = codes "/";
  raw_query = codes "edit";
  cookie = some (codes "t");
  csrf_header = codes "c";
  parses = true;
  form = λ name. codes "x";
  upload_kind = [];
}

abbrev page_request : Request
page_request = record {
  method = get_method;
  path = codes "/";
  raw_query = [];
  cookie = none;
  csrf_header = [];
  parses = true;
  form = λ name. [];
  upload_kind = [];
}

abbrev count : ℕ → ℕ
count n = n

count-KeepsView : KeepsView counting surroundings count
count-KeepsView = record {
  signing_in = λ email password n. refl;
  first_admin = λ email password n. refl;
  readiness = λ n. refl;
  redirects = λ uri n. refl;
  pages = λ name n. refl;
  revision_lists = λ name n. refl;
  subpage_lists = λ name n. refl;
  properties_of = λ name n. refl;
}

handle-Guarded_example :
    ((handle counting surroundings save_request world).0.site ≡ 0)
    ⊎ Authorised counting surroundings count save_request world
handle-Guarded_example =
    handle-Guarded counting surroundings count count-KeepsView save_request world

sample_redirect : (handle counting surroundings page_request world).1 ≡ redirect 301 (codes "/new")
unfolding handle has_prefix contains is_control is_space
sample_redirect = refl

abbrev moved : ℕ
moved = 301

handle-IsInternal_example : (moved ≡ 301) × IsInternal (codes "/new")
handle-IsInternal_example =
    handle-IsInternal counting surroundings page_request world moved (codes "/new") refl
      sample_redirect
