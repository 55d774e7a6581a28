-- ===== src/Data.antt =====
-- pkg/data/data.go: the rows that the database, the auth store and the importer exchange.
use Prim.Native.Nat.{ℕ}
use sitebrush_v.Prelude.{Bool}
use sitebrush_v.Prelude.Int.{ℤ}
use sitebrush_v.Text.{Text}

-- A float64 by its IEEE bit pattern: the code only copies it.
abbrev pub Float64 : Type 0
Float64 = ℕ

pub record Post : Type 0 where
  pub id : ℤ
  pub owner_id : ℤ
  pub editor_id : ℤ
  pub deleter_id : ℤ
  pub request_uri : Text
  pub type : Text
  pub date : ℤ
  pub title : Text
  pub body : Text
  pub header : Text
  pub summary : Text
  pub short_text : Text
  pub tags : Text
  pub revision : ℤ
  pub domain : Text
  pub status : Text
  pub published : Bool

pub record Domain : Type 0 where
  pub id : ℤ
  pub name : Text
  pub dns_zone_data : Text
  pub cname_secret : Text
  pub email_secret_hash : Text
  pub status : Text
  pub frozen : Bool

pub record User : Type 0 where
  pub id : ℤ
  pub session_id : Text
  pub old_id : ℤ
  pub avatar_id : ℤ
  pub email : Text
  pub password_hash : Text
  pub nickname : Text
  pub first_name : Text
  pub last_name : Text
  pub gender : Text
  pub phone : Text
  pub date_of_registration : ℤ
  pub date_of_birth : ℤ
  pub last_visit_time : ℤ
  pub greenwich_offset : ℤ
  pub activated : Text
  pub verification_code : Text
  pub domain : Text
  pub status : Text
  pub language : Text
  pub current_ip : Text
  pub profile : Text
  pub preferences : Text
  pub security_log : Text
  pub invited_by : Text
  pub invites_amount : ℤ
  pub quota_bytes : Text
  pub quota_originals : Text
  pub quota_bytes_used : ℤ
  pub quota_originals_used : ℤ
  pub auto_grab : Text
  pub domain_to_grab : Text

pub record Group : Type 0 where
  pub id : ℤ
  pub owner_id : ℤ
  pub name : Text
  pub title : Text
  pub comment : Text
  pub date : ℤ
  pub status : Text
  pub domain : Text

pub record UserGroup : Type 0 where
  pub user_id : ℤ
  pub group_id : ℤ
  pub status : Text
  pub domain : Text

pub record Redirect : Type 0 where
  pub id : ℤ
  pub old_uri : Text
  pub new_uri : Text
  pub date : ℤ
  pub status : Text
  pub domain : Text

pub record UriMap : Type 0 where
  pub id : ℤ
  pub old_uri : Text
  pub new_uri : Text
  pub date : ℤ
  pub status : Text
  pub domain : Text

pub record Media : Type 0 where
  pub id : ℤ
  pub type : Text
  pub hash : Text
  pub original_hash : Text
  pub format : Text
  pub mime_type : Text
  pub storage_path : Text
  pub width : ℤ
  pub height : ℤ
  pub status : Text
  pub domain : Text
  pub day : ℤ
  pub date : ℤ
  pub sizes_array : Text
  pub rating : Float64
  pub rating_count : ℤ
  pub rating_ip : Text
  pub views : ℤ
  pub bytes_used : ℤ

pub record Template : Type 0 where
  pub id : ℤ
  pub name : Text
  pub template_data : Text
  pub status : Text
  pub domain : Text

pub record PostTemplate : Type 0 where
  pub post_id : ℤ
  pub template_id : ℤ
  pub status : Text
  pub domain : Text

pub record Backup : Type 0 where
  pub id : ℤ
  pub domain : Text
  pub path : Text
  pub checksum : Text
  pub size : ℤ
  pub format : Text
  pub download_token : Text
  pub created_at : ℤ
  pub completed_at : ℤ
  pub status : Text
  pub error : Text
