-- ===== src/Handlers/Keys.antt =====
-- xotero/src/handlers/keys.rs: what a key may do, as the client is told.
use zhost.Prelude.{
  String, Bool, true, false, Option, none, some, ◌==◌, if◌then◌else◌, List, [], ◌∷◌,
}
use zhost.Prelude.Int.{ℤ, int_eq, leb_ℤ}
use zhost.Prelude.Table.{Table, lookup}
use zhost.Prelude.Format.{int_to_string}
use zhost.Json.{Value, obj, bool, str, Fields, end, field, insert, from_int}
use zhost.Domain.{Permissions, RequestContext, ApiKeyId, GroupId, group_id_new}
use zhost.Db.{Db, GroupPermission, Result, ok, err, protocol, ◌>>=◌}
use zhost.Http.Headers.{Response, json_response, server_error}

-- `GroupGrant` of xotero/src/store/groups.rs.
pub record GroupGrant : Type 0 where
  pub group_id : Option GroupId
  pub library : Bool
  pub write : Bool

abbrev all_grant : Option GroupPermission → List GroupGrant → List GroupGrant
all_grant none grants = grants
all_grant (some p) grants =
    record { group_id = none; library = p.library; write = p.write } ∷ grants

-- `order by group_id`.
unfoldable pub insert_grant :
    ℤ × GroupPermission → Table ℤ GroupPermission → Table ℤ GroupPermission
insert_grant g [] = g ∷ []
insert_grant g (h ∷ grants) =
    let later = h ∷ insert_grant g grants in if leb_ℤ g.0 h.0 then g ∷ h ∷ grants else later

unfoldable pub explicit_grants : ℤ → Table (ℤ × ℤ) GroupPermission → Table ℤ GroupPermission
unfolding insert_grant
explicit_grants key [] = []
explicit_grants key (((k, g), p) ∷ rows) =
    let rest = explicit_grants key rows in if k == key then insert_grant (g, p) rest else rest

abbrev grant_from_row : ℤ → GroupPermission → Result GroupGrant
grant_from_row raw p = elim (group_id_new raw) [
  | none ↦ err (protocol "invalid group ID")
  | some id ↦ ok (record { group_id = some id; library = p.library; write = p.write })
]

unfoldable pub grants_from_rows : Table ℤ GroupPermission → Result (List GroupGrant)
grants_from_rows [] = ok []
grants_from_rows ((raw, p) ∷ rows) =
    grant_from_row raw p >>= λ grant. grants_from_rows rows >>= λ grants. ok (grant ∷ grants)

-- `api_key_group_grants` of xotero/src/store/groups.rs.
unfoldable pub api_key_group_grants : Db → ApiKeyId → Result (List GroupGrant)
unfolding explicit_grants grants_from_rows
api_key_group_grants db api_key_id =
    grants_from_rows (explicit_grants api_key_id.get db.accounts.api_key_group_permissions)
    >>= λ explicit.
        ok (all_grant (lookup api_key_id.get db.accounts.api_key_all_groups_permissions) explicit)

abbrev pub insert_if : String → Bool → Fields → Fields
insert_if name true fields = insert name (bool true) fields
insert_if name false fields = fields

unfoldable pub user_access : Permissions → Fields
user_access p =
    insert_if "write" p.write
      (insert_if "notes" p.notes (insert_if "files" p.files (insert_if "library" p.library end)))

abbrev pub grant_name : Option GroupId → String
grant_name none = "all"
grant_name (some id) = int_to_string id.get

unfoldable pub group_access : List GroupGrant → Fields → Fields
group_access [] groups = groups
group_access (g ∷ grants) groups = group_access grants (
    if g.library
    then insert (grant_name g.group_id)
        (obj (field "library" (bool true) (field "write" (bool g.write) end))) groups
    else groups)

abbrev insert_family : String → Fields → Fields → Fields
insert_family name end access = access
insert_family name (field k v fs) access = insert name (obj (field k v fs)) access

unfoldable pub access_payload : Permissions → List GroupGrant → Value
unfolding user_access group_access
access_payload permissions grants = obj (
    insert_family "groups" (group_access grants end)
      (insert_family "user" (user_access permissions) end))

-- The grants of a recovery key are its own permissions, for all groups.
abbrev pub grants_of_context : Db → RequestContext → Result (List GroupGrant)
grants_of_context db context = elim context.api_key_id [
  | some id ↦ api_key_group_grants db id
  | none ↦ ok (
      if context.permissions.library
      then record { group_id = none; library = true; write = context.permissions.write } ∷ []
      else [])
]

unfoldable pub key_current : Db → RequestContext → Response
unfolding api_key_group_grants access_payload
key_current db context = elim (grants_of_context db context) [
  | err error ↦ server_error error
  | ok grants ↦ json_response [] (
      obj (
        field "key" (str context.presented_key) (
          field "userID" (from_int context.principal.user_id.get) (
            field "username" (str context.principal.username) (
              field "displayName" (str context.principal.display_name)
                (field "access" (access_payload context.permissions grants) end))))))
]
