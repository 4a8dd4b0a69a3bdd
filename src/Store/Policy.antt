-- ===== src/Store/Policy.antt =====
-- From the decision on a group's library to the tables.
use zhost.Prelude.{
  ◌≡◌, ◌⊎◌, ◌↔◌, inl, inr, refl, sym, ◌∙◌, ap, Option, some, arith, true, ◌&&◌, ◌||◌, ◌==◌, String,
  string_eq, pair_eq, Option-cases, Bool, Bool-cases, is_some_and,
}
use zhost.Prelude.Int.{ℤ, int_eq}
use zhost.Prelude.Table.{lookup}
use zhost.Domain.{LibraryId, library_id_new, GroupId, Permissions, LibraryAccess, UserId, ApiKeyId}
use zhost.Db.{Db, ok, Group, GroupPermission}
use zhost.Store.Groups.{
  allowed, GroupRow, decide_group, may_read, may_write, is_admin_role, all_library, all_write,
  policy_write, group_write, group_file_write, group_row, grant_of, resolve_group_library,
  resolve_group_library_with_grants,
}
use zhost.Store.Granted.{
  Grants, Admin, Explicit, ReadsAll, WritesAll, Justified, Member, Granted, is_some_and_iff,
  both_iff, grant_of_iff, is_admin_role_iff,
}

-- The row that the query joins for a group that is there.
abbrev row_of : Db → GroupId → UserId → Option ApiKeyId → Group → GroupRow
row_of db group_id user_id api_key_id g = record {
  library_id = g.library_id;
  library_editing = g.library_editing;
  file_editing = g.file_editing;
  role = lookup (group_id.get, user_id.get) db.accounts.group_memberships;
  all_grant = grant_of true (λ id. lookup id db.accounts.api_key_all_groups_permissions) api_key_id;
  explicit_grant =
      grant_of true (λ id. lookup (id, group_id.get) db.accounts.api_key_group_permissions)
        api_key_id;
}

group_row-Member :
    (db : Db) (group_id : GroupId) (user_id : UserId) (api_key_id : Option ApiKeyId)
    (row : GroupRow) (role : String)
    → group_row db group_id user_id api_key_id (true, true) ≡ some row
    → row.role ≡ some role
    → (g : Group) × Member db group_id user_id g role
      × (row ≡ row_of db group_id user_id api_key_id g)
unfolding group_row
group_row-Member db group_id user_id api_key_id row role e r =
    elim (Option-cases (lookup group_id.get db.accounts.groups)) [
      | inl gone ↦ absurd (ground arith)
      | inr (g, e1) ↦ elim (Option-cases (lookup g.library_id db.library)) [
        | inl gone ↦ absurd (ground arith)
        | inr (l, e2) ↦ elim (Bool-cases (l.kind == "group")) [
          | inr other ↦ absurd (ground arith)
          | inl kind ↦ elim (Option-cases (lookup g.owner_user_id db.accounts.users)) [
            | inl gone ↦ absurd (ground arith)
            | inr (owner, e3) ↦ elim (Option-cases owner.disabled_at) [
              | inr (t, disabled) ↦ absurd (ground arith)
              | inl active ↦
                  let q : row ≡ row_of db group_id user_id api_key_id g = ground arith in
                  (
                    g,
                    (
                      e1,
                      (l, e2, (string_eq.beq_iff l.kind "group").0 kind),
                      (owner, e3, active),
                      sym (ap (λ r. r.role) q) ∙ r,
                    ),
                    q,
                  )
            ]
          ]
        ]
      ]
    ]

module _ (db : Db) (group_id : GroupId) (user_id : UserId) (api_key_id : Option ApiKeyId)
    (static_permissions : Option Permissions) (g : Group) (role : String) where
  abbrev row : GroupRow
  row = row_of db group_id user_id api_key_id g

  abbrev explicit : ℤ → Option GroupPermission
  explicit id = lookup (id, group_id.get) db.accounts.api_key_group_permissions

  abbrev overall : ℤ → Option GroupPermission
  overall id = lookup id db.accounts.api_key_all_groups_permissions

  -- A test of a grant of the row.
  grant_iff :
      (find : ℤ → Option GroupPermission) (f : GroupPermission → Bool)
      → (is_some_and f (grant_of true find api_key_id) ≡ true)
        ↔ ((p : GroupPermission) × Grants find api_key_id p × (f p ≡ true))
  grant_iff find f = (
    λ e.
        let (p, there, holds) = (is_some_and_iff f (grant_of true find api_key_id)).0 e in
        (p, (grant_of_iff find api_key_id p).0 there, holds),
    λ (p, there, holds).
        (is_some_and_iff f (grant_of true find api_key_id)).1
          (p, (grant_of_iff find api_key_id p).1 there, holds),
  )

  all_library_iff :
      (all_library row static_permissions role ≡ true)
      ↔ ReadsAll db group_id api_key_id static_permissions
  all_library_iff = ground (
    arith,
    is_some_and_iff (λ p. p.library) static_permissions,
    grant_iff overall (λ p. p.library),
  )

  all_write_iff :
      (all_write row static_permissions role ≡ true)
      ↔ WritesAll db group_id api_key_id static_permissions
  all_write_iff =
      ground
        (arith, is_some_and_iff (λ p. p.write) static_permissions, grant_iff overall (λ p. p.write))

  policy_write_iff :
      (policy_write row static_permissions role ≡ true)
      ↔ (Admin role ⊎ ((role ≡ "member") × (g.library_editing ≡ "members")))
  policy_write_iff = ground (
    arith,
    is_admin_role_iff role,
    string_eq.beq_iff role "member",
    string_eq.beq_iff g.library_editing "members",
  )

  -- Reading and writing of one grant.
  grant_both_iff : ((may_read row.explicit_grant && may_write row.explicit_grant) ≡ true) ↔ (
      (p : GroupPermission) × Explicit db group_id api_key_id static_permissions p
      × (p.library ≡ true)
      × (p.write ≡ true))
  grant_both_iff = (
    λ e.
        let (p, there, reads, writes) = (both_iff row.explicit_grant).0 e in
        (p, (grant_of_iff explicit api_key_id p).0 there, reads, writes),
    λ (p, there, reads, writes).
        (both_iff row.explicit_grant).1
          (p, (grant_of_iff explicit api_key_id p).1 there, reads, writes),
  )

  group_write_iff : (group_write row static_permissions role ≡ true) ↔ (
      ((p : GroupPermission) × Explicit db group_id api_key_id static_permissions p
        × (p.library ≡ true)
        × (p.write ≡ true))
      ⊎ (ReadsAll db group_id api_key_id static_permissions
          × WritesAll db group_id api_key_id static_permissions
          × (Admin role ⊎ ((role ≡ "member") × (g.library_editing ≡ "members")))))
  group_write_iff = ground (arith, grant_both_iff, all_library_iff, all_write_iff, policy_write_iff)

  group_file_write_iff : (group_file_write row static_permissions role ≡ true) ↔ (
      (group_write row static_permissions role ≡ true)
      × ((g.file_editing ≡ "members") ⊎ ((g.file_editing ≡ "admins") × Admin role)))
  group_file_write_iff = ground (
    arith,
    is_admin_role_iff role,
    string_eq.beq_iff g.file_editing "members",
    string_eq.beq_iff g.file_editing "admins",
  )

  given-Justified :
      (library_id : LibraryId)
      → (may_read row.explicit_grant || all_library row static_permissions role) ≡ true
      → Justified db group_id api_key_id static_permissions g role (record {
        library_id = library_id;
        group_id = some group_id;
        permissions = record {
          library = true;
          notes = true;
          write = group_write row static_permissions role;
          files = true;
        };
        is_admin = is_admin_role role;
        file_write = group_file_write row static_permissions role;
      })
  given-Justified library_id reads = (
    ground (arith, reads, grant_iff explicit (λ p. p.library), all_library_iff),
    group_write_iff,
    group_file_write_iff,
    is_admin_role_iff role,
  )

new-get : (id : ℤ) (l : LibraryId) → library_id_new id ≡ some l → l.get ≡ id
unfolding library_id_new
new-get id l h = ground arith

decide_group-Granted :
    (db : Db) (group_id : GroupId) (user_id : UserId) (api_key_id : Option ApiKeyId)
    (static_permissions : Option Permissions) (g : Group) (role : String) (access : LibraryAccess)
    → Member db group_id user_id g role
    → decide_group (row_of db group_id user_id api_key_id g) static_permissions role group_id
      ≡ ok (allowed access)
    → Granted db group_id user_id api_key_id static_permissions access
unfolding decide_group
decide_group-Granted db group_id user_id api_key_id static_permissions g role access member h =
    let r = row_of db group_id user_id api_key_id g in
    elim (Bool-cases (may_read r.explicit_grant || all_library r static_permissions role)) [
      | inr unreadable ↦ absurd (ground arith)
      | inl reads ↦ elim (Option-cases (library_id_new g.library_id)) [
        | inl invalid ↦ absurd (ground arith)
        | inr (library_id, e) ↦
            let given : LibraryAccess = record {
              library_id = library_id;
              group_id = some group_id;
              permissions = record {
                library = true;
                notes = true;
                write = group_write r static_permissions role;
                files = true;
              };
              is_admin = is_admin_role role;
              file_write = group_file_write r static_permissions role;
            } in
            let same : given ≡ access = ground arith in
            rw (← same) (
              g,
              role,
              member,
              new-get g.library_id library_id e,
              refl,
              refl,
              given-Justified db group_id user_id api_key_id static_permissions g role library_id
                  reads,
            )
      ]
    ]

-- Access to a group's library is given only to a member of the group, whose library is one of groups
-- and whose owner is active, for that library, and only with a grant for the group, a grant for all
-- groups or static permissions that allow reading. It writes exactly if the grant for the group
-- reads and writes, or grants for all groups or static permissions read and write and the role is an
-- owner's or an administrator's, or a member's in a group that its members may edit. It writes files
-- exactly if it writes and the group's files are edited by members, or by administrators and the
-- role is one. It is an administrator's exactly for such a role.
pub resolve_group_library-Justified :
    (db : Db) (group_id : GroupId) (user_id : UserId) (api_key_id : Option ApiKeyId)
    (static_permissions : Option Permissions) (access : LibraryAccess)
    → resolve_group_library db group_id user_id api_key_id static_permissions ≡ ok (allowed access)
    → Granted db group_id user_id api_key_id static_permissions access
unfolding resolve_group_library resolve_group_library_with_grants
resolve_group_library-Justified db group_id user_id api_key_id static_permissions access h =
    elim (Option-cases (group_row db group_id user_id api_key_id (true, true))) [
      | inl gone ↦ absurd (ground arith)
      | inr (row, e) ↦ elim (Option-cases row.role) [
        | inl stranger ↦ absurd (ground arith)
        | inr (role, e') ↦
            let (g, member, q) = group_row-Member db group_id user_id api_key_id row role e e' in
            let decided : decide_group row static_permissions role group_id ≡ ok (allowed access) =
              ground arith in
            decide_group-Granted db group_id user_id api_key_id static_permissions g role access
              member (rw (← q) decided)
      ]
    ]
