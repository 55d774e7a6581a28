-- ===== src/Upload/Records.antt =====
-- The data of an upload by pkg/webserver/upload.go: what it reads and what it leaves.
use sitebrush_v.Prelude.{ℕ, Bool, List, Option, if◌then◌else◌}
use sitebrush_v.Prelude.Int.{ℤ}
use sitebrush_v.Text.{Text, Unicode, text_eq}
use sitebrush_v.Data.{Media}
use sitebrush_v.Files.{Write}
use sitebrush_v.Database.Sql.{DbType, Answers}
use sitebrush_v.Upload.Validation.{Content, ImageConfig}

-- mediaSidecarMetadata, but for the warnings, which are in the response too.
pub record Sidecar : Type 0 where
  pub type : Text
  pub hash : Text
  pub original_hash : Text
  pub format : Text
  pub mime_type : Text
  pub storage_path : Text
  pub original_file_name : Text
  pub safe_file_name : Text
  pub size : ℤ × ℤ
  pub bytes_used : ℕ
  pub domain : Text
  pub status : Text
  pub created_at : ℤ

-- What is kept: the files, their metadata files, and the table Media.
pub record Archive : Type 0 where
  pub media : Text → Option Content
  pub sidecars : Text → Option Sidecar
  pub rows : List Media

-- A part of the multipart body; a content of `none` cannot be read.
pub record Part : Type 0 where
  pub form_name : Text
  pub file_name : Text
  pub content : Option Content

-- What a request carries; `ends_well` is whether the parts end in io.EOF.
pub record Request : Type 0 where
  pub is_post : Bool
  pub csrf_token : Text
  pub upload_kind : Text
  pub is_multipart : Bool
  pub parts : List Part
  pub ends_well : Bool
  pub host : Option Text

-- The surroundings: SHA-256 in hexadecimal, the sniffer and the decoder, whether the paths are safe, how the
-- system answers the two writes and whether it removes the two files again, the database if there is one, and the clock.
pub record Surroundings : Type 0 where
  pub unicode : Unicode
  pub hash : Content → Text
  pub sniff : Content → Text
  pub decode : Content → Option ImageConfig
  pub domain_is_safe : Bool
  pub media_path_is_safe : Bool
  pub sidecar_path_is_safe : Bool
  pub media_write : Write
  pub sidecar_write : Write
  pub removes_media : Bool
  pub removes_sidecar : Bool
  pub database : Option (DbType × Answers)
  pub now : ℤ
  pub year_day : ℤ → ℤ

pub record Response : Type 0 where
  pub url : Text
  pub file_name : Text
  pub size : ℕ
  pub warnings : List Text

-- One file of a directory is another.
abbrev pub put {ℓ} : {A : Type ℓ} → (Text → Option A) → Text → Option A → Text → Option A
put files name file other = if text_eq name other then file else files other
