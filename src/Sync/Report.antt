-- ===== src/Sync/Report.antt =====
-- What `versions` and `deleted` of xotero/src/store/versions.rs report to a client that syncs.
use zhost.Prelude.{
  ◌≡◌, ◌≢◌, ◌⊎◌, inl, inr, refl, Option, some, arith, Bool, true, List, [], ◌∷◌, String, ap, ◌↔◌,
  ◌∙◌, any, ◌==◌, string_eq, option_eq, pair_eq, if◌then◌else◌, eq_cases, Eq,
}
use text.Mathlib.TextEquality.{eq_iff}
use zhost.Prelude.Int.{ℤ, int_eq, ◌<ℤ◌, beq_ℤ_iff}
use zhost.Prelude.Table.{Table, lookup}
use zhost.Json.{Value, Fields, end, as_str, insert, contains_key, from_int}
use zhost.Json.Laws.{get_field-insert, contains_key-get_field}
use zhost.Domain.{LibraryId}
use zhost.Config.{Config}
use zhost.Db.{Db, Object, ObjectKey, Library, Digest}
use zhost.Store.Versions.{
  is_changed, version_map, versions, Deleted, push_deleted, deleted_rows, deleted,
}
use zhost.Sync.{Unchanged}
use zhost.Sync.Replica.{Reach, Reach-Follows}

abbrev object_key_eq : Eq ObjectKey
object_key_eq = pair_eq

object_key_iff : (a b : ObjectKey) → (object_key_eq.beq a b ≡ true) ↔ (a ≡ b)
object_key_iff a b = object_key_eq.beq_iff a b

insert-keeps :
    (j k : String) (v : Value) (fs : Fields)
    → contains_key k fs ≡ true
    → contains_key k (insert j v fs) ≡ true
insert-keeps j k v fs h = ground (
  arith,
  contains_key-get_field k fs,
  contains_key-get_field k (insert j v fs),
  get_field-insert j k v fs,
)

insert-has : (k : String) (v : Value) (fs : Fields) → contains_key k (insert k v fs) ≡ true
insert-has k v fs =
    ground (arith, contains_key-get_field k (insert k v fs), get_field-insert k k v fs, eq_iff k k)

module _ {V : Type 0} (k j : ObjectKey) (w : V) where
  head_row : (v : V) (rows : Table ObjectKey V) → j ≡ k → lookup k ((j, w) ∷ rows) ≡ some v → w ≡ v
  unfolding lookup
  head_row v rows same h = ground (arith, object_key_iff j k)

  tail_row : (rows : Table ObjectKey V) → j ≢ k → lookup k rows ≡ lookup k ((j, w) ∷ rows)
  unfolding lookup
  tail_row rows other = ground (arith, object_key_iff j k)

module _ (p : ObjectKey → Object → Bool) where
  version_map-keeps :
      (k : String) (rows : Table ObjectKey Object) (map : Fields)
      → contains_key k map ≡ true
      → contains_key k (version_map p rows map) ≡ true
  unfolding version_map
  version_map-keeps k [] map h = h
  version_map-keeps k ((j, o) ∷ rows) map h =
      version_map-keeps k rows _ (ground (arith, insert-keeps j.1.1 k (from_int o.version) map))

  version_map-has :
      (k : ObjectKey) (o : Object) (rows : Table ObjectKey Object) (map : Fields)
      → lookup k rows ≡ some o
      → p k o ≡ true
      → contains_key k.1.1 (version_map p rows map) ≡ true
  unfolding version_map lookup
  version_map-has k o [] map h q = absurd (ground arith)
  version_map-has k o ((j, w) ∷ rows) map h q = elim (eq_cases j k) [
    | inl same ↦
        let same_row : w ≡ o = head_row k j w o rows same h in
        let picked : p j w ≡ true = rw (same, same_row) q in
        version_map-keeps k.1.1 rows _
          (rw (picked, ← same) (insert-has j.1.1 (from_int w.version) map))
    | inr other ↦ version_map-has k o rows _ (tail_row k j w rows other ∙ h) q
  ]

abbrev pub lists : String → List Value → Bool
lists key values = any (λ v. as_str v == some key) values

-- The list of `Deleted` that a kind of objects is reported in.
abbrev pub deleted_of : String → Deleted → List Value
deleted_of kind d =
    if kind == "collection" then d.collections else if kind == "search" then d.searches else d.items

push_deleted-has :
    (kind key : String) (d : Deleted)
    → kind ≢ "setting"
    → kind ≢ "tag"
    → lists key (deleted_of kind (push_deleted kind key d)) ≡ true
unfolding push_deleted
push_deleted-has kind key d s t =
    ground (arith, eq_iff kind "setting", eq_iff kind "tag", eq_iff key key)

push_deleted-keeps :
    (kind key : String) (d : Deleted) (other name : String)
    → lists key (deleted_of kind d) ≡ true
    → lists key (deleted_of kind (push_deleted other name d)) ≡ true
unfolding push_deleted
push_deleted-keeps kind key d other name h = ground (arith)

deleted_rows-has :
    (l : LibraryId) (since : ℤ) (kind key : String) (rows : Table ObjectKey ℤ) (v : ℤ)
    → kind ≢ "setting"
    → kind ≢ "tag"
    → lookup (l.get, (kind, key)) rows ≡ some v
    → since <ℤ v
    → lists key (deleted_of kind (deleted_rows l since rows)) ≡ true
unfolding deleted_rows lookup
deleted_rows-has l since kind key [] v s t h lt = absurd (ground arith)
deleted_rows-has l since kind key (((i, (other, name)), w) ∷ rows) v s t h lt =
    let rest = deleted_rows l since rows in
    let wanted : ObjectKey = (l.get, (kind, key)) in
    let here : ObjectKey = (i, (other, name)) in
    elim (eq_cases here wanted) [
      | inl same ↦
          let same_row : w ≡ v = head_row (l.get, (kind, key)) (i, (other, name)) w v rows same h in
          let own : i ≡ l.get = ap (λ (x : ObjectKey). x.0) same in
          let same_kind : other ≡ kind = ap (λ (x : ObjectKey). x.1.0) same in
          let same_key : name ≡ key = ap (λ (x : ObjectKey). x.1.1) same in
          ground (arith, push_deleted-has kind key rest s t, beq_ℤ_iff i l.get)
      | inr different ↦
          let h' : lookup (l.get, (kind, key)) rows ≡ some v =
            tail_row (l.get, (kind, key)) (i, (other, name)) w rows different ∙ h in
          ground (
            arith,
            deleted_rows-has l since kind key rows v s t h' lt,
            push_deleted-keeps kind key rest other name,
          )
    ]

pub versions_complete :
    (db : Db) (l : LibraryId) (kind key : String) (since : ℤ) (o : Object)
    → lookup (l.get, (kind, key)) db.object ≡ some o
    → since <ℤ o.version
    → contains_key key (versions db l kind since true) ≡ true
unfolding versions
versions_complete db l kind key since o h lt =
    version_map-has (is_changed l kind since true) (l.get, (kind, key)) o db.object end h
      (ground (arith, beq_ℤ_iff l.get l.get, eq_iff kind kind))

pub deleted_complete :
    (db : Db) (l : LibraryId) (kind key : String) (since v : ℤ)
    → kind ≢ "setting"
    → kind ≢ "tag"
    → lookup (l.get, (kind, key)) db.deletion ≡ some v
    → since <ℤ v
    → lists key (deleted_of kind (deleted db l since)) ≡ true
unfolding deleted
deleted_complete db l kind key since v s t h lt =
    deleted_rows-has l since kind key db.deletion v s t h lt

module _ (sha256 : String → Digest) (json_text : Value → Option String) (config : Config) where
  -- However many writes, deletions and registrations on whichever libraries are committed after a
  -- client has synced a library at its version, as long as the version counters stay below the
  -- largest `bigint`: every object of the library is as it was, or `versions` since that version
  -- lists it, or `deleted` since that version does in the list of its kind.
  pub sync_complete :
      (l : LibraryId) (kind key : String) (start db : Db) (row : Library)
      → kind ≢ "setting"
      → kind ≢ "tag"
      → lookup l.get start.library ≡ some row
      → Reach sha256 json_text config start db
      → Unchanged (l.get, (kind, key)) start db
        ⊎ (contains_key key (versions db l kind row.version true) ≡ true)
        ⊎ (lists key (deleted_of kind (deleted db l row.version)) ≡ true)
  sync_complete l kind key start db row s t found reach =
      elim (Reach-Follows sha256 json_text config l row.version start (l.get, (kind, key)) db row
        refl (s, t) found (ground arith) reach).synced [
          | inl same ↦ inl same
          | inr (inl (o, there, lt)) ↦
              inr (inl (versions_complete db l kind key row.version o there lt))
          | inr (inr (v, gone, logged, lt)) ↦
              inr (inr (deleted_complete db l kind key row.version v s t logged lt))
        ]
