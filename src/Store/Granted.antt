-- ===== src/Store/Granted.antt =====
-- What a key gets in a group's library, in words of the tables, and the tests of its grants.
use zhost.Prelude.{
  ◌≡◌, ◌⊎◌, ◌↔◌, refl, Option, some, none, arith, true, ◌&&◌, String, string_eq, pair_eq, Bool,
  is_some_and,
}
use zhost.Prelude.Int.{ℤ, int_eq}
use zhost.Prelude.Table.{lookup}
use zhost.Domain.{GroupId, Permissions, LibraryAccess, UserId, ApiKeyId}
use zhost.Db.{Db, Group, GroupPermission, User, Library}
use zhost.Store.Groups.{may_read, may_write, is_admin_role, grant_of}

-- The key has this grant.
abbrev pub Grants : (ℤ → Option GroupPermission) → Option ApiKeyId → GroupPermission → Type 0
Grants find api_key_id p = (key : ApiKeyId) × (api_key_id ≡ some key) × (find key.get ≡ some p)

abbrev pub Admin : String → Type 0
Admin role = (role ≡ "owner") ⊎ (role ≡ "admin")

module _ (db : Db) (group_id : GroupId) (api_key_id : Option ApiKeyId)
    (static_permissions : Option Permissions) where
  -- The key's grant for this group.
  abbrev pub Explicit : GroupPermission → Type 0
  Explicit =
      Grants (λ id. lookup (id, group_id.get) db.accounts.api_key_group_permissions) api_key_id

  -- The key's grant for every group.
  abbrev pub Overall : GroupPermission → Type 0
  Overall = Grants (λ id. lookup id db.accounts.api_key_all_groups_permissions) api_key_id

  -- What a recovery key or a grant for every group lets the key do in any group.
  abbrev pub ReadsAll : Type 0
  ReadsAll =
      ((s : Permissions) × (static_permissions ≡ some s) × (s.library ≡ true))
      ⊎ ((p : GroupPermission) × Overall p × (p.library ≡ true))

  abbrev pub WritesAll : Type 0
  WritesAll =
      ((s : Permissions) × (static_permissions ≡ some s) × (s.write ≡ true))
      ⊎ ((p : GroupPermission) × Overall p × (p.write ≡ true))

  -- The rights of an access to the library of the group, for a role in the group.
  abbrev pub Justified : Group → String → LibraryAccess → Type 0
  Justified g role access =
      (((p : GroupPermission) × Explicit p × (p.library ≡ true)) ⊎ ReadsAll)
      × ((access.permissions.write ≡ true) ↔ (
          ((p : GroupPermission) × Explicit p × (p.library ≡ true) × (p.write ≡ true))
          ⊎ (ReadsAll
              × WritesAll
              × (Admin role ⊎ ((role ≡ "member") × (g.library_editing ≡ "members"))))))
      × ((access.file_write ≡ true) ↔ (
          (access.permissions.write ≡ true)
          × ((g.file_editing ≡ "members") ⊎ ((g.file_editing ≡ "admins") × Admin role))))
      × ((access.is_admin ≡ true) ↔ Admin role)

-- The group is there, its library is one of groups and its owner is active; the caller is a member.
abbrev pub Member : Db → GroupId → UserId → Group → String → Type 0
Member db group_id user_id g role =
    (lookup group_id.get db.accounts.groups ≡ some g)
    × ((l : Library) × (lookup g.library_id db.library ≡ some l) × (l.kind ≡ "group"))
    × ((owner : User) × (lookup g.owner_user_id db.accounts.users ≡ some owner)
        × (owner.disabled_at ≡ none))
    × (lookup (group_id.get, user_id.get) db.accounts.group_memberships ≡ some role)

-- The access is to the library of the group and justified by the caller's role and grants.
abbrev pub Granted :
    Db → GroupId → UserId → Option ApiKeyId → Option Permissions → LibraryAccess → Type 0
Granted db group_id user_id api_key_id static_permissions access =
    (g : Group) × (role : String) × Member db group_id user_id g role
    × (access.library_id.get ≡ g.library_id)
    × (access.group_id ≡ some group_id)
    × (access.permissions.library ≡ true)
    × Justified db group_id api_key_id static_permissions g role access

module _ {A : Type 0} where
  -- What a test of an optional value says.
  pub is_some_and_iff :
      (f : A → Bool) (o : Option A)
      → (is_some_and f o ≡ true) ↔ ((x : A) × (o ≡ some x) × (f x ≡ true))
  is_some_and_iff f none = (λ e. absurd (ground arith), λ h. absurd (ground (arith, h.1)))
  is_some_and_iff f (some x) =
      (λ e. (x, refl, e), λ h. let q : x ≡ h.0 = ground (arith, h.1) in rw q h.2)

pub both_iff :
    (o : Option GroupPermission)
    → ((may_read o && may_write o) ≡ true)
      ↔ ((p : GroupPermission) × (o ≡ some p) × (p.library ≡ true) × (p.write ≡ true))
both_iff none = (λ e. absurd (ground arith), λ h. absurd (ground (arith, h.1)))
both_iff (some p) = (
  λ e. (p, refl, ground arith, ground arith),
  λ (q, same, reads, writes).
      let one : p ≡ q = ground (arith, same) in rw one (ground (arith, reads, writes)),
)

pub grant_of_iff :
    (find : ℤ → Option GroupPermission) (api_key_id : Option ApiKeyId) (p : GroupPermission)
    → (grant_of true find api_key_id ≡ some p) ↔ Grants find api_key_id p
grant_of_iff find none p = (λ e. absurd (ground arith), λ h. absurd (ground (arith, h.1)))
grant_of_iff find (some key) p =
    (λ e. (key, refl, e), λ h. let q : key ≡ h.0 = ground (arith, h.1) in rw q h.2)

pub is_admin_role_iff : (role : String) → (is_admin_role role ≡ true) ↔ Admin role
is_admin_role_iff role =
    ground (arith, string_eq.beq_iff role "owner", string_eq.beq_iff role "admin")
