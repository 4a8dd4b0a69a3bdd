-- ===== src/Store/Groups.antt =====
-- xotero/src/store/groups.rs: what a key may do in a group's library.
use zhost.Prelude.{
  String, Bool, true, false, not, ◌&&◌, ◌||◌, Option, none, some, ◌==◌, if◌then◌else◌, string_eq,
  and_then, is_some_and, keep_if, pair_eq,
}
use zhost.Prelude.Int.{ℤ, int_eq}
use zhost.Prelude.Table.{lookup}
use zhost.Domain.{library_id_new, UserId, ApiKeyId, GroupId, Permissions, LibraryAccess}
use zhost.Db.{Db, GroupPermission, Result, ok, err, protocol}
use zhost.Store.Identity.{is_active}

pub data GroupLibraryResolution : Type 0 where
  missing denied : GroupLibraryResolution
  allowed : LibraryAccess → GroupLibraryResolution

-- The row of the joined query.
pub record GroupRow : Type 0 where
  pub library_id : ℤ
  pub library_editing : String
  pub file_editing : String
  pub role : Option String
  pub all_grant : Option GroupPermission
  pub explicit_grant : Option GroupPermission

-- `left join … on grant.api_key_id = $3 … and $4`.
abbrev pub grant_of : Bool → (ℤ → Option GroupPermission) → Option ApiKeyId → Option GroupPermission
grant_of joined find none = none
grant_of joined find (some key) = if joined then find key.get else none

unfoldable pub group_row : Db → GroupId → UserId → Option ApiKeyId → Bool × Bool → Option GroupRow
group_row db group_id user_id api_key_id grant_rows =
    and_then (lookup group_id.get db.accounts.groups) λ g.
      and_then (keep_if (λ l. l.kind == "group") (lookup g.library_id db.library)) λ l.
        and_then (keep_if is_active (lookup g.owner_user_id db.accounts.users)) λ owner.
          some (record {
            library_id = g.library_id;
            library_editing = g.library_editing;
            file_editing = g.file_editing;
            role = lookup (group_id.get, user_id.get) db.accounts.group_memberships;
            all_grant =
                grant_of grant_rows.0 (λ id. lookup id db.accounts.api_key_all_groups_permissions)
                  api_key_id;
            explicit_grant =
                grant_of grant_rows.1
                  (λ id. lookup (id, group_id.get) db.accounts.api_key_group_permissions)
                  api_key_id;
          })

abbrev pub may_read : Option GroupPermission → Bool
may_read = is_some_and (λ p. p.library)

abbrev pub may_write : Option GroupPermission → Bool
may_write = is_some_and (λ p. p.write)

abbrev pub is_admin_role : String → Bool
is_admin_role role = role == "owner" || role == "admin"

module _ (row : GroupRow) (static_permissions : Option Permissions) (role : String) where
  abbrev pub all_library : Bool
  all_library = is_some_and (λ p. p.library) static_permissions || may_read row.all_grant

  abbrev pub all_write : Bool
  all_write = is_some_and (λ p. p.write) static_permissions || may_write row.all_grant

  abbrev pub policy_write : Bool
  policy_write = is_admin_role role || (role == "member" && row.library_editing == "members")

  abbrev pub group_write : Bool
  group_write =
      (may_read row.explicit_grant && may_write row.explicit_grant)
      || (all_library && all_write && policy_write)

  abbrev pub group_file_write : Bool
  group_file_write =
      group_write
      && (if row.file_editing == "members"
          then true
          else if row.file_editing == "admins"
          then is_admin_role role
          else false)

  unfoldable pub decide_group : GroupId → Result GroupLibraryResolution
  decide_group group_id =
      if not all_library && not (may_read row.explicit_grant)
      then ok denied
      else elim (library_id_new row.library_id) [
        | none ↦ err (protocol "invalid group library ID")
        | some library_id ↦ ok (
            allowed (record {
              library_id = library_id;
              group_id = some group_id;
              permissions = record {
                library = true;
                notes = true;
                write = group_write;
                files = true;
              };
              is_admin = is_admin_role role;
              file_write = group_file_write;
            }))
      ]

abbrev decide_row : GroupId → Option Permissions → Option GroupRow → Result GroupLibraryResolution
decide_row group_id static_permissions none = ok missing
decide_row group_id static_permissions (some row) = elim row.role [
  | none ↦ ok denied
  | some role ↦ decide_group row static_permissions role group_id
]

unfoldable pub resolve_group_library_with_grants :
    Db
    → GroupId
    → UserId
    → Option ApiKeyId
    → Option Permissions
    → Bool × Bool
    → Result GroupLibraryResolution
resolve_group_library_with_grants db group_id user_id api_key_id static_permissions grant_rows =
    decide_row group_id static_permissions (group_row db group_id user_id api_key_id grant_rows)

unfoldable pub resolve_group_library :
    Db → GroupId → UserId → Option ApiKeyId → Option Permissions → Result GroupLibraryResolution
unfolding resolve_group_library_with_grants
resolve_group_library db group_id user_id api_key_id static_permissions =
    resolve_group_library_with_grants db group_id user_id api_key_id static_permissions (true, true)
