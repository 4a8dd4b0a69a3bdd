-- ===== src/Config/Load.antt =====
-- xotero/src/config.rs: loading the configuration from the environment. `env` gives a variable:
-- unset, set to what is no Unicode (`some none`), or set to a text; `read` and `read_bytes` give the
-- content of a file, an error as `none`.
use Prim.Native.Char.{Char}
use mathlib.Core.List.{reverse}
use zhost.Prelude.{
  ℕ, String, Bool, true, false, not, ◌&&◌, ◌||◌, Option, none, some, ◌==◌, if◌then◌else◌, string_eq,
  list_eq, nat_eq, List, [], ◌∷◌, any, and_then, unwrap_or, is_some_and, length, leb, ltb, nat_beq,
}
use zhost.Prelude.Int.{pos, negsuc}
use zhost.Prelude.Table.{Table, upsert}
use zhost.Prelude.Text.{chars, from_chars, codes, is_char, is_nonempty, trim, split, parse_i64}
use zhost.Prelude.Format.{concat}
use zhost.Domain.{UserId, Permissions, recovery, user_id_new}
use zhost.Db.{Digest}
use zhost.Config.{Config, S3Config, key_permissions}

-- A `Result` whose error is a text; a panic of the loading is such an error.
pub data Loaded {ℓ} (A : Type ℓ) : Type ℓ where
  refused : String → Loaded A
  loaded : A → Loaded A

abbrev pub then_load {ℓ κ} : {A : Type ℓ} {B : Type κ} → Loaded A → (A → Loaded B) → Loaded B
then_load (refused why) next = refused why
then_load (loaded a) next = next a

abbrev pub or_refuse {ℓ} : {A : Type ℓ} → String → Option A → Loaded A
or_refuse why none = refused why
or_refuse why (some a) = loaded a

abbrev pub has_line_break : String → Bool
has_line_break s = any (λ c. nat_beq c 13 || nat_beq c 10) (codes s)

abbrev pub split_once_from : ℕ → List Char → List Char → Option (String × String)
split_once_from sep before [] = none
split_once_from sep before (c ∷ cs) =
    if is_char sep c
    then some (from_chars (reverse before), from_chars cs)
    else split_once_from sep (c ∷ before) cs

-- `split_once` at one character.
abbrev pub split_once : ℕ → String → Option (String × String)
split_once sep s = split_once_from sep [] (chars s)

abbrev bool_beq : Bool → Bool → Bool
bool_beq true b = b
bool_beq false b = not b

abbrev pub permissions_beq : Permissions → Permissions → Bool
permissions_beq a b =
    bool_beq a.library b.library
    && bool_beq a.notes b.notes
    && bool_beq a.write b.write
    && bool_beq a.files b.files

abbrev pub role_write : String → Option Bool
role_write role = if role == "rw" then some true else if role == "ro" then some false else none

module _ (sha256 : String → Digest) (read : String → Option String) where
  unfoldable pub read_token : String → Loaded String
  read_token path =
      if not (is_nonempty path)
      then refused "recovery key file path must be nonempty"
      else elim (read path) [
        | none ↦ refused "cannot read recovery key file as UTF-8"
        | some value ↦
            if not (is_nonempty (trim value)) || has_line_break (trim value)
            then refused "recovery key file must contain one nonempty token"
            else loaded (trim value)
      ]

  unfoldable pub insert_key :
      String → Bool → Table Digest Permissions → Loaded (Table Digest Permissions)
  insert_key token write keys =
      if not (is_nonempty (trim token))
      then refused "recovery token must be nonempty"
      else if is_some_and (λ existing. not (permissions_beq existing (recovery write)))
          (key_permissions keys (sha256 token))
      then refused "recovery token has conflicting roles"
      else loaded (upsert (sha256 token) (recovery write) keys)

  -- One `role:path` entry of the manifest.
  unfoldable pub insert_entry :
      String → Table Digest Permissions → Loaded (Table Digest Permissions)
  unfolding read_token insert_key
  insert_entry entry keys =
      then_load
        (or_refuse "XOTERO_KEYS requires nonempty role:path entries" (split_once b':' entry))
        λ parts.
          then_load (or_refuse "XOTERO_KEYS role must be exactly rw or ro" (role_write parts.0))
            λ write. then_load (read_token parts.1) λ token. insert_key token write keys

  unfoldable pub insert_entries :
      List String → Table Digest Permissions → Loaded (Table Digest Permissions)
  insert_entries [] keys = loaded keys
  insert_entries (entry ∷ entries) keys =
      then_load (insert_entry entry keys) (λ more. insert_entries entries more)

  unfoldable pub load_keys_from :
      (String → Option (Option String)) → Loaded (Table Digest Permissions)
  unfolding insert_entries
  load_keys_from env = elim (env "XOTERO_KEYS") [
    | some manifest ↦
        then_load (or_refuse "XOTERO_KEYS must be Unicode" manifest)
          λ manifest. insert_entries (split b',' manifest) []
    | none ↦ elim (env "XOTERO_API_KEY_FILE") [
      | some path ↦
          then_load (or_refuse "XOTERO_API_KEY_FILE must be Unicode" path)
            λ path. then_load (read_token path) λ token. insert_key token true []
      | none ↦ elim (env "XOTERO_API_KEY") [
        | some token ↦
            then_load (or_refuse "XOTERO_API_KEY must be Unicode" token)
              λ token. insert_key token true []
        | none ↦ loaded []
      ]
    ]
  ]

abbrev pub drop_line_breaks : List ℕ → List ℕ
drop_line_breaks [] = []
drop_line_breaks (b ∷ bs) = if nat_beq b 10 || nat_beq b 13 then drop_line_breaks bs else b ∷ bs

-- The bytes of the file without the line breaks at its end.
unfoldable pub load_login_kdf_key :
    (String → Option (Option String)) → (String → Option (List ℕ)) → Loaded (List ℕ)
load_login_kdf_key env read_bytes =
    then_load
      (or_refuse "XOTERO_LOGIN_KDF_KEY_FILE must point to a stable login KDF credential"
        (and_then (env "XOTERO_LOGIN_KDF_KEY_FILE") (λ value. value)))
      λ path. then_load (or_refuse "read login KDF key" (read_bytes path)) λ raw.
        let key = reverse (drop_line_breaks (reverse raw)) in
        if leb 32 (length key)
        then loaded key
        else refused "login KDF credential must contain at least 32 bytes"

-- `std::env::var`: the value of a variable that is set to Unicode.
abbrev pub var : (String → Option (Option String)) → String → Option String
var env name = and_then (env name) (λ value. value)

abbrev pub var_or : (String → Option (Option String)) → String → String → String
var_or env name default = unwrap_or default (var env name)

-- A credential from the file that one variable names, or else from the other variable.
unfoldable pub from_file_or_env :
    (String → Option (Option String)) → (String → Option String) → String → String → Loaded String
from_file_or_env env read file name = elim (var env file) [
  | none ↦ loaded (var_or env name "")
  | some path ↦ then_load (or_refuse "read S3 key file" (read path)) (λ value. loaded (trim value))
]

-- `str::parse::<u32>`, which takes a plus sign and no minus sign.
abbrev pub parse_u32 : String → Option ℕ
parse_u32 s = elim (parse_i64 s) [
  | some (pos n) ↦
      if ltb n 4294967296 && not (any (λ c. nat_beq c b'-') (codes s)) then some n else none
  | some (negsuc n) ↦ none
  | none ↦ none
]

unfoldable pub load_s3 :
    (String → Option (Option String)) → (String → Option String) → Loaded S3Config
unfolding from_file_or_env
load_s3 env read =
    then_load (from_file_or_env env read "XOTERO_S3_ACCESS_KEY_FILE" "XOTERO_S3_ACCESS_KEY")
      λ access_key.
        then_load (from_file_or_env env read "XOTERO_S3_SECRET_KEY_FILE" "XOTERO_S3_SECRET_KEY")
          λ secret_key. loaded (record {
            endpoint = var_or env "XOTERO_S3_ENDPOINT" "http://127.0.0.1:9000";
            region = var_or env "XOTERO_S3_REGION" "auto";
            bucket = var_or env "XOTERO_S3_BUCKET" "zotero";
            access_key = access_key;
            secret_key = secret_key;
            path_style =
                unwrap_or true
                  (and_then (var env "XOTERO_S3_PATH_STYLE") (λ v. some (not (v == "false"))));
            presign_ttl = unwrap_or 300 (and_then (var env "XOTERO_S3_PRESIGN_TTL") parse_u32);
          })

abbrev default_user : UserId
default_user = record { get = pos 1 }

-- `parse_address` is std's parser of a socket address, with whether its address is loopback.
unfoldable pub from_env :
    (String → Digest)
    → (String → Option Bool)
    → (String → Option String)
    → (String → Option (List ℕ))
    → (String → Option (Option String))
    → Loaded Config
unfolding load_keys_from load_login_kdf_key load_s3
from_env sha256 parse_address read read_bytes env =
    then_load (load_keys_from sha256 read env) λ keys.
      let bind = var_or env "XOTERO_BIND" "127.0.0.1:8189" in
      then_load (or_refuse "XOTERO_BIND must be a socket address" (parse_address bind))
        λ is_loopback.
          if not is_loopback
          then refused
              "XOTERO_BIND must be loopback so only the trusted local proxy can set OIDC headers"
          else then_load (load_login_kdf_key env read_bytes) λ login_kdf_key.
            then_load (load_s3 env read) λ s3. loaded (record {
              keys = keys;
              login_kdf_key = login_kdf_key;
              user_id =
                  unwrap_or default_user
                    (and_then (and_then (var env "XOTERO_USER_ID") parse_i64) user_id_new);
              username = var_or env "XOTERO_USERNAME" "xotero";
              display_name = var_or env "XOTERO_DISPLAY_NAME" "xotero";
              library_id = record { get = pos 1 };
              bind = bind;
              public_url = var_or env "XOTERO_PUBLIC_URL" (concat ("http://" ∷ bind ∷ []));
              database_url =
                  var_or env "XOTERO_DATABASE_URL"
                    (var_or env "DATABASE_URL" "postgres://localhost/xotero");
              s3 = s3;
            })
