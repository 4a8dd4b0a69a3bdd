-- ===== src/Sync.antt =====
-- What an incremental sync relies on: a write stamps every object that it changes with the new
-- version of the library, or logs its deletion under that version.
pub mod Objects
pub mod Deletes
pub mod Metadata
pub mod Uploads
pub mod Replica
pub mod Report
pub mod Others
pub mod Attached
use zhost.Prelude.{◌≡◌, ◌≢◌, ◌⊎◌, inl, inr, ◌∙◌, none, some, String}
use zhost.Prelude.Int.{ℤ}
use zhost.Prelude.Table.{lookup}
use zhost.Prelude.{Eq, pair_eq, string_eq}
use zhost.Prelude.Int.{int_eq}
use zhost.Domain.{LibraryId}
use zhost.Db.{Db, Object, ObjectKey, Library}
use zhost.Store.{next_version, set_version}

-- The object has the version, or is gone and logged under it.
abbrev pub Marked : ℤ → ObjectKey → Db → Type 0
Marked v k db =
    ((o : Object) × (lookup k db.object ≡ some o) × (o.version ≡ v))
    ⊎ ((lookup k db.object ≡ none) × (lookup k db.deletion ≡ some v))

abbrev pub Unchanged : ObjectKey → Db → Db → Type 0
Unchanged k db db' =
    (lookup k db'.object ≡ lookup k db.object) × (lookup k db'.deletion ≡ lookup k db.deletion)

abbrev pub Touched : ℤ → ℤ → ObjectKey → Db → Db → Type 0
Touched id v k db db' = Unchanged k db db' ⊎ ((k.0 ≡ id) × Marked v k db')

pub Touched-trans :
    (id v : ℤ) (k : ObjectKey) (a b c : Db)
    → Touched id v k a b
    → Touched id v k b c
    → Touched id v k a c
Touched-trans id v k a b c (inl h) (inl g) = inl (g.0 ∙ h.0, g.1 ∙ h.1)
Touched-trans id v k a b c (inr (own, inl (o, l, h))) (inl g) = inr (own, inl (o, g.0 ∙ l, h))
Touched-trans id v k a b c (inr (own, inr (l, d))) (inl g) = inr (own, inr (g.0 ∙ l, g.1 ∙ d))
Touched-trans id v k a b c (inl _) (inr g) = inr g
Touched-trans id v k a b c (inr _) (inr g) = inr g

-- The keys of objects; the log also holds settings and tags.
abbrev pub IsObjectKey : ObjectKey → Type 0
IsObjectKey k = (k.1.0 ≢ "setting") × (k.1.0 ≢ "tag")

-- Nothing that a sync reads has changed.
abbrev pub Quiet : Db → Db → Type 0
Quiet db db' = (db'.library ≡ db.library) × (db'.object ≡ db.object) × (db'.deletion ≡ db.deletion)

-- The library has its next version, and what changed is stamped with it.
abbrev pub Bumped : LibraryId → Db → Db → Type 0
Bumped library_id db db' =
    (row : Library) × (lookup library_id.get db.library ≡ some row)
    × (db'.library ≡ (set_version db library_id row (next_version row.version)).library)
    × ((k : ObjectKey) → IsObjectKey k → Touched library_id.get (next_version row.version) k db db')

abbrev pub Effect : LibraryId → Db → Db → Type 0
Effect library_id db db' = Quiet db db' ⊎ Bumped library_id db db'
