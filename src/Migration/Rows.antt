-- ===== src/Migration/Rows.antt =====
-- The v1 rows that pkg/migration/migration.go reads.
use sitebrush_v.Prelude.Int.{ℤ}
use sitebrush_v.Text.{Text}
use sitebrush_v.Data.{Float64}

pub record V1Domain : Type 0 where
  pub id : ℤ
  pub name : Text
  pub dns_zone_data : Text
  pub cname_secret : Text
  pub status : Text
  pub email_secret : Text
  pub freezed : ℤ

pub record V1Post : Type 0 where
  pub id : ℤ
  pub owner_id : ℤ
  pub deleter_id : ℤ
  pub request_uri : Text
  pub type : Text
  pub date : ℤ
  pub title : Text
  pub text : Text
  pub short_text : Text
  pub tags : Text
  pub version : ℤ
  pub domain : Text
  pub status : Text
  pub published : Text

pub record V1Uri : Type 0 where
  pub id : ℤ
  pub old_uri : Text
  pub new_uri : Text
  pub date : ℤ
  pub status : Text
  pub domain : Text

pub record V1User : Type 0 where
  pub id : ℤ
  pub session_id : Text
  pub old_id : ℤ
  pub avatar_id : ℤ
  pub email : Text
  pub password : Text
  pub nickname : Text
  pub first_name : Text
  pub last_name : Text
  pub gender : Text
  pub phone : Text
  pub date_of_registration : ℤ
  pub date_of_birth : ℤ
  pub last_visit_time : ℤ
  pub grinvich_time_offset : ℤ
  pub activated : Text
  pub verification_code : Text
  pub domain : Text
  pub status : Text
  pub language : Text
  pub current_ip : Text
  pub profile : Text
  pub preferences : Text
  pub security_log : Text
  pub invited_by : Text
  pub invites_ammount : ℤ
  pub quota_bytes : Text
  pub quota_originals : Text
  pub quota_bytes_used : ℤ
  pub quota_originals_used : ℤ
  pub auto_grab : Text
  pub domain_to_grab : Text

pub record V1Group : Type 0 where
  pub id : ℤ
  pub owner_id : ℤ
  pub name : Text
  pub title : Text
  pub comment : Text
  pub date : ℤ
  pub status : Text
  pub domain : Text

pub record V1UserGroup : Type 0 where
  pub user_id : ℤ
  pub group_id : ℤ

pub record V1Media : Type 0 where
  pub id : ℤ
  pub type : Text
  pub hash : Text
  pub original_hash : Text
  pub format : Text
  pub width : Text
  pub height : Text
  pub status : Text
  pub domain : Text
  pub day : ℤ
  pub date : ℤ
  pub sizes_array : Text
  pub rating : Float64
  pub rating_count : ℤ
  pub rating_ip : Text
  pub views : ℤ
  pub bytes_used : ℤ

pub record V1Template : Type 0 where
  pub id : ℤ
  pub name : Text
  pub template_data : Text
  pub status : Text
  pub domain : Text

pub record V1PostTemplate : Type 0 where
  pub post_id : ℤ
  pub template_id : ℤ
