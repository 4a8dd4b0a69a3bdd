-- ===== src/Config.antt =====
-- xotero/src/config.rs: the configuration that the handlers and stores read.
pub mod Load
pub mod Roles
use zhost.Prelude.{
  ℕ, String, Bool, Option, none, if◌then◌else◌, length, List, list_eq, nat_eq, nat_beq,
}
use zhost.Prelude.Table.{Table, lookup}
use zhost.Domain.{UserId, LibraryId, Permissions}
use zhost.Db.{Digest}

-- `s3::Config` of xotero/src/s3.rs.
pub record S3Config : Type 0 where
  pub endpoint : String
  pub region : String
  pub bucket : String
  pub access_key : String
  pub secret_key : String
  pub path_style : Bool
  pub presign_ttl : ℕ

pub record Config : Type 0 where
  pub keys : Table Digest Permissions
  pub login_kdf_key : List ℕ
  pub user_id : UserId
  pub username : String
  pub display_name : String
  pub library_id : LibraryId
  pub bind : String
  pub public_url : String
  pub database_url : String
  pub s3 : S3Config

-- A digest that has not 32 bytes matches no key.
unfoldable pub key_permissions : Table Digest Permissions → Digest → Option Permissions
key_permissions keys digest = if nat_beq (length digest) 32 then lookup digest keys else none

-- `Config::recovery_permissions`.
unfoldable pub recovery_permissions : Config → Digest → Option Permissions
unfolding key_permissions
recovery_permissions config digest = key_permissions config.keys digest
