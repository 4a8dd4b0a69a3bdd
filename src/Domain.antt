-- ===== src/Domain.antt =====
-- xotero/src/domain.rs: identifiers, principals and permissions.
use zhost.Prelude.{String, Bool, true, Option, none, some, Eq, if◌then◌else◌, ◌≡◌, ◌↔◌, arith}
use zhost.Prelude.Int.{ℤ, pos, ltb_ℤ, beq_ℤ, beq_ℤ_iff}

pub record LibraryId : Type 0 where
  pub get : ℤ

pub record UserId : Type 0 where
  pub get : ℤ

pub record ApiKeyId : Type 0 where
  pub get : ℤ

pub record GroupId : Type 0 where
  pub get : ℤ

-- `LibraryId::new` and its three siblings.
unfoldable pub library_id_new : ℤ → Option LibraryId
library_id_new value = if ltb_ℤ (pos 0) value then some (record { get = value }) else none

unfoldable pub user_id_new : ℤ → Option UserId
user_id_new value = if ltb_ℤ (pos 0) value then some (record { get = value }) else none

unfoldable pub api_key_id_new : ℤ → Option ApiKeyId
api_key_id_new value = if ltb_ℤ (pos 0) value then some (record { get = value }) else none

unfoldable pub group_id_new : ℤ → Option GroupId
group_id_new value = if ltb_ℤ (pos 0) value then some (record { get = value }) else none

abbrev pub library_id_beq : LibraryId → LibraryId → Bool
library_id_beq a b = beq_ℤ a.get b.get

pub library_id_beq_iff : (a b : LibraryId) → (library_id_beq a b ≡ true) ↔ (a ≡ b)
library_id_beq_iff a b = ground (arith, beq_ℤ_iff a.get b.get)

instance abbrev pub library_id_eq : Eq LibraryId
library_id_eq = record { beq = library_id_beq; beq_iff = library_id_beq_iff }

abbrev pub user_id_beq : UserId → UserId → Bool
user_id_beq a b = beq_ℤ a.get b.get

pub user_id_beq_iff : (a b : UserId) → (user_id_beq a b ≡ true) ↔ (a ≡ b)
user_id_beq_iff a b = ground (arith, beq_ℤ_iff a.get b.get)

instance abbrev pub user_id_eq : Eq UserId
user_id_eq = record { beq = user_id_beq; beq_iff = user_id_beq_iff }

abbrev pub api_key_id_beq : ApiKeyId → ApiKeyId → Bool
api_key_id_beq a b = beq_ℤ a.get b.get

pub api_key_id_beq_iff : (a b : ApiKeyId) → (api_key_id_beq a b ≡ true) ↔ (a ≡ b)
api_key_id_beq_iff a b = ground (arith, beq_ℤ_iff a.get b.get)

instance abbrev pub api_key_id_eq : Eq ApiKeyId
api_key_id_eq = record { beq = api_key_id_beq; beq_iff = api_key_id_beq_iff }

abbrev pub group_id_beq : GroupId → GroupId → Bool
group_id_beq a b = beq_ℤ a.get b.get

pub group_id_beq_iff : (a b : GroupId) → (group_id_beq a b ≡ true) ↔ (a ≡ b)
group_id_beq_iff a b = ground (arith, beq_ℤ_iff a.get b.get)

instance abbrev pub group_id_eq : Eq GroupId
group_id_eq = record { beq = group_id_beq; beq_iff = group_id_beq_iff }

pub record Principal : Type 0 where
  pub user_id : UserId
  pub username : String
  pub display_name : String
  pub library_id : LibraryId

pub record Permissions : Type 0 where
  pub library : Bool
  pub notes : Bool
  pub write : Bool
  pub files : Bool

-- `Permissions::recovery`.
abbrev pub recovery : Bool → Permissions
recovery write = record { library = true; notes = true; write = write; files = true }

pub record LibraryAccess : Type 0 where
  pub library_id : LibraryId
  pub group_id : Option GroupId
  pub permissions : Permissions
  pub is_admin : Bool
  pub file_write : Bool

pub record RequestContext : Type 0 where
  pub presented_key : String
  pub principal : Principal
  pub permissions : Permissions
  pub api_key_id : Option ApiKeyId
