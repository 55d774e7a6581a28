-- ===== src/Routes/Interface.antt =====
-- What the handlers of pkg/webserver get from a request, and what they call: an interface over a state of the
-- site that they do not look into.
use sitebrush_v.Prelude.{ℕ, Bool, Option}
use sitebrush_v.Prelude.Int.{ℤ}
use sitebrush_v.Text.{Text}
use sitebrush_v.Paths.{AbsPath}
use sitebrush_v.Sessions.{OperatorSession, Store}

pub data Method : Type 0 where
  get_method head_method post_method other_method : Method

-- `csrf_header` is the header X-CSRF-Token, `parses` whether ParseForm succeeds, `form` FormValue, and `upload_kind`
-- what uploadKindFromRequest says.
pub record Request : Type 0 where
  pub method : Method
  pub path : Text
  pub raw_query : Text
  pub cookie : Option Text
  pub csrf_header : Text
  pub parses : Bool
  pub form : Text → Text
  pub upload_kind : Text

-- Why an operation did nothing, as far as the handlers tell it apart.
pub data Outcome : Type 0 where
  done is_unsafe exists_already is_missing failed : Outcome

-- A user who signed in.
pub record SignedIn : Type 0 where
  pub name : Text
  pub email : Text
  pub id : ℤ

pub data SignIn : Type 0 where
  signed_in : SignedIn → SignIn
  refused sign_in_failed : SignIn

pub data PasswordChange : Type 0 where
  changed wrong_password weak_password change_failed : PasswordChange

pub data Creation : Type 0 where
  created : SignedIn → Creation
  users_exist not_created : Creation

-- Where the media file of a path is.
pub data MediaFile : Type 0 where
  media_file : AbsPath → MediaFile
  bad_host outside_media : MediaFile

-- What the handlers call. `is_file` is checkFileExist, `has_content` holds of what is there and is no directory. What a
-- GET looks up can change the site too: checkReadiness makes the directories and a probe file, and a lookup opens the
-- database, which makes its tables.
pub record Site (S : Type 0) : Type 0 where
  pub file_of : Text → Option AbsPath
  pub is_file : S → AbsPath → Bool
  pub frozen : S → Bool
  pub published_file : Text → Option AbsPath
  pub has_content : S → AbsPath → Bool
  pub published_media : Text → Option AbsPath
  pub media_of : Text → MediaFile
  pub uri_of : AbsPath → Option Text
  pub find_redirect : Text → S → S × Option (Option Text)
  pub load_page : AbsPath → S → S × Bool
  pub list_revisions : AbsPath → S → S × Bool
  pub list_subpages : AbsPath → S → S × Bool
  pub load_properties : AbsPath → S → S × Bool
  pub check_readiness : S → S × Bool
  pub has_users : S → Option Bool
  pub save_page : OperatorSession → AbsPath → Text → S → S × Bool
  pub restore_page : OperatorSession → AbsPath → Text → S → S × Outcome
  pub create_subpage : AbsPath → Text → Text → S → S × Outcome
  pub update_properties : AbsPath → (Text → Text) → S → S × (Outcome × Text)
  pub publish_snapshot : S → S × Bool
  pub write_site_state : Bool → S → S × Bool
  pub create_backup : S → S × Bool
  pub restore_backup : Text → S → S × Outcome
  pub change_password : ℤ → Text → Text → S → S × PasswordChange
  pub grab_target : AbsPath → Text → Option AbsPath
  pub import_page : OperatorSession → AbsPath → Text → S → S × ℕ
  pub save_upload : OperatorSession → Text → S → S × ℕ
  pub authenticate : Text → Text → S → S × SignIn
  pub create_first_admin : Text → Text → S → S × Creation

-- The clock, the random tokens, hashToken and the environment's tests.
pub record Surroundings : Type 0 where
  pub now : ℕ
  pub hash_token : Text → Text
  pub token : Option Text
  pub csrf : Option Text
  pub normalize_email : Text → Text
  pub admin_configured : Bool
  pub admin_password : Text → Bool
  pub bootstrap_configured : Bool
  pub bootstrap_token : Text → Bool

pub record World (S : Type 0) : Type 0 where
  pub sessions : Store
  pub site : S

-- What the browser gets: a file, a redirect with its status and target, or a status with a page or a message.
pub data Response : Type 0 where
  file : AbsPath → Response
  redirect : ℕ → Text → Response
  status : ℕ → Response
