-- ===== src/Tests.antt =====
-- A database on which the operations run: one user with a personal library, an attachment in it and
-- an upload whose bytes are there.
pub mod Sync
pub mod Objects
pub mod Uploads
pub mod Web
pub mod Handlers
pub mod Protocol
pub mod Router
use zhost.Prelude.{ℕ, String, Bool, true, false, Option, none, some, List, [], ◌∷◌}
use zhost.Prelude.Int.{ℤ, pos}
use zhost.Json.{Value, obj, str, arr, nil, cons, Fields, field, end}
use zhost.Domain.{LibraryId, UserId, LibraryAccess, RequestContext, Permissions, Principal}
use zhost.Config.{Config}
use zhost.Store.Objects.{Supplies}
use zhost.Db.{
  Db, Accounts, Library, Object, Digest, PendingRow, PendingUploadState, uploaded, LoginRow, User,
  ApiKey, Group, GroupPermission,
}

abbrev pub library_one : LibraryId
library_one = record { get = pos 1 }

abbrev pub full : Permissions
full = record { library = true; notes = true; write = true; files = true }

abbrev pub hash : String → Digest
hash s = 9 ∷ []

abbrev pub no_text : Value → Option String
no_text (str s) = some s
no_text v = none

-- No random device, and statements that succeed.
abbrev pub supplies : Supplies
supplies = record { random = λ i. none; stores = λ i v. true }

abbrev pub config : Config
config = record {
  keys = [];
  login_kdf_key = [];
  user_id = record { get = pos 7 };
  username = "ada";
  display_name = "Ada";
  library_id = library_one;
  bind = "";
  public_url = "";
  database_url = "";
  s3 = record {
    endpoint = "";
    region = "auto";
    bucket = "zotero";
    access_key = "";
    secret_key = "";
    path_style = true;
    presign_ttl = 300;
  };
}

abbrev pub ada : Principal
ada = record {
  user_id = record { get = pos 7 };
  username = "ada";
  display_name = "Ada";
  library_id = library_one;
}

abbrev pub context : RequestContext
context = record {
  presented_key = "secret";
  principal = ada;
  permissions = full;
  api_key_id = some (record { get = pos 3 });
}

abbrev pub access : LibraryAccess
access = record {
  library_id = library_one;
  group_id = none;
  permissions = full;
  is_admin = true;
  file_write = true;
}

abbrev pub attachment : Value
attachment = obj (
    field "itemType" (str "attachment") (
      field "linkMode" (str "imported_file")
        (field "tags" (arr (cons (obj (field "tag" (str "old") end)) nil)) end)))

abbrev pub session : LoginRow
session = record {
  user_id = none;
  api_key_id = none;
  client_type = "linux";
  status = "pending";
  created_at = 0;
  expires_at = 900;
  completed_at = none;
}

abbrev pub accounts : Accounts
accounts = record {
  users = (pos 7, record { username = "ada"; display_name = "Ada"; disabled_at = none }) ∷ [];
  personal_libraries = (pos 7, pos 1) ∷ [];
  external_identities = (("issuer", "ada"), pos 7) ∷ [];
  api_keys =
      (pos 3, record { user_id = pos 7; name = "key"; token_hash = 9 ∷ []; revoked_at = none })
      ∷ [];
  api_key_user_permissions = (pos 3, full) ∷ [];
  api_key_all_groups_permissions = (pos 3, record { library = true; write = true }) ∷ [];
  api_key_group_permissions = [];
  groups =
      (
        pos 4,
        record {
          library_id = pos 2;
          owner_user_id = pos 7;
          library_editing = "members";
          file_editing = "admins";
        },
      )
      ∷ [];
  group_memberships = ((pos 4, pos 7), "member") ∷ [];
  login_sessions = (5 ∷ [], session) ∷ [];
}

abbrev pub pending : PendingUploadState → PendingRow
pending state = record {
  library_id = pos 1;
  group_id = none;
  authorizer_key_hash = 9 ∷ [];
  bootstrap_user_id = none;
  item_key = "ABCD2345";
  expected_md5 = none;
  blob_key = "blob";
  md5 = "m";
  upload_md5 = "m";
  filename = "paper.pdf";
  filesize = pos 10;
  mtime = pos 20;
  compressed = false;
  state = state;
  expires_at = 1000;
  gc_attempted_at = none;
}

abbrev pub db_with : PendingUploadState → Db
db_with state = record {
  accounts = accounts;
  library =
      (pos 1, record { version = pos 5; kind = "personal" })
      ∷ (pos 2, record { version = pos 8; kind = "group" })
      ∷ [];
  object = ((pos 1, ("item", "ABCD2345")), record { version = pos 5; json = attachment }) ∷ [];
  setting = [];
  deletion = ((pos 1, ("setting", "colors")), pos 4) ∷ [];
  file = [];
  fulltext = [];
  pending_uploads = (1 ∷ [], pending state) ∷ [];
}

abbrev pub db : Db
db = db_with uploaded
