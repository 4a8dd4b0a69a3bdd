-- ===== src/Store/Attachments.antt =====
-- Stored files and stored-file attachments under writes and deletions of objects.
use zhost.Prelude.{
  ℕ, ◌+◌, ◌≡◌, ◌⊎◌, ◌∙◌, inl, inr, refl, ap, Option, none, some, arith, Eq, pair_eq, string_eq,
  eq_cases, ◌&&◌, ◌==◌, Bool, true, false, List, [], ◌∷◌, String, Bool-cases, Option-cases,
  is_some_and, if◌then◌else◌,
}
use zhost.Prelude.Int.{ℤ, int_eq}
use zhost.Prelude.Table.{
  Table, lookup, delete, upsert, lookup-upsert_self, lookup-delete_self, lookup-upsert_ne,
  lookup-delete_ne,
}
use zhost.Json.{Value, Fields}
use zhost.Domain.{LibraryId}
use zhost.Db.{Db, Object, ObjectKey, ItemKey, File}
use zhost.Store.{is_stored_file_attachment}
use zhost.Store.Objects.{
  wrote, BatchResult-cases, WriteCall, put_object, write_object, write_objects, object_key,
  item_key, stored_json, provided_key, new_object, delete_object, delete_objects, is_denied,
  json_of,
}

-- The item is a stored-file attachment.
abbrev pub stored_at : Db → ItemKey → Bool
stored_at db k =
    is_some_and is_stored_file_attachment (json_of (lookup (k.0, ("item", k.1)) db.object))

-- A file is that of a stored-file attachment.
abbrev pub Owned : ItemKey → Db → Type 0
Owned k db = (lookup k db.file ≡ none) ⊎ (stored_at db k ≡ true)

abbrev attachment_key : ItemKey → ObjectKey
attachment_key k = (k.0, ("item", k.1))

-- The file is as it was, or gone.
abbrev Kept : ItemKey → Db → Db → Type 0
Kept k db db' = (lookup k db'.file ≡ lookup k db.file) ⊎ (lookup k db'.file ≡ none)

keep-Owned :
    (k : ItemKey) (db db' : Db)
    → lookup (attachment_key k) db'.object ≡ lookup (attachment_key k) db.object
    → Kept k db db'
    → Owned k db
    → Owned k db'
keep-Owned k db db' same (inr gone) h = inl gone
keep-Owned k db db' same (inl file) (inl none_there) = inl (file ∙ none_there)
keep-Owned k db db' same (inl file) (inr stored) =
    inr
      (ap (λ (x : Option Object). is_some_and is_stored_file_attachment (json_of x)) same ∙ stored)

file_eq : Eq ItemKey
file_eq = pair_eq

deleted_file :
    (b : Bool) (i k : ItemKey) (t : Table ItemKey File)
    → (lookup k (if b then delete i t else t) ≡ lookup k t)
      ⊎ (lookup k (if b then delete i t else t) ≡ none)
deleted_file false i k t = inl refl
deleted_file true i k t = elim (eq_cases i k) [
  | inl same ↦ inr (rw same (lookup-delete_self k t))
  | inr other ↦ inl (lookup-delete_ne i k t other)
]

put_own :
    (c : WriteCall) (db : Db) (existing : Option Value) (object : Value) (k : ItemKey)
    → c.kind ≡ "item"
    → c.library_id.get ≡ k.0
    → Owned k (put_object c db k.1 existing object)
unfolding put_object
put_own c db existing object k kind own =
    let row : Object = record { version = c.version; json = object } in
    let stored : lookup (attachment_key k) (put_object c db k.1 existing object).object ≡ some row =
      rw (kind, own) (lookup-upsert_self (attachment_key k) row db.object) in
    elim (Bool-cases
      (is_some_and is_stored_file_attachment existing && is_stored_file_attachment object)) [
        | inl both ↦ inr (ground (arith, stored))
        | inr changed ↦ inl (rw (changed, kind, own) (lookup-delete_self k db.file))
      ]

pub put_object-Owned :
    (c : WriteCall) (db : Db) (key : String) (existing : Option Value) (object : Value)
    (k : ItemKey)
    → Owned k db
    → Owned k (put_object c db key existing object)
unfolding put_object
put_object-Owned c db key existing object k h =
    elim (eq_cases (object_key c.library_id c.kind key) (attachment_key k)) [
      | inl same ↦
          let own : c.library_id.get ≡ k.0 = ap (λ (x : ObjectKey). x.0) same in
          let kind : c.kind ≡ "item" = ap (λ (x : ObjectKey). x.1.0) same in
          let same_key : key ≡ k.1 = ap (λ (x : ObjectKey). x.1.1) same in
          rw same_key (put_own c db existing object k kind own)
      | inr other ↦
          keep-Owned k db (put_object c db key existing object)
            (lookup-upsert_ne _ (attachment_key k) _ db.object other)
            (deleted_file _ (item_key c.library_id key) k db.file) h
    ]

pub write_object-put :
    (c : WriteCall) (index : ℕ) (provided : Value) (db db' : Db) (s s' : Fields)
    → write_object c index provided (db, s) ≡ wrote (db', s')
    → (is_denied c
          (stored_json c db (provided_key c index provided))
          (new_object c db index provided)
        ≡ false)
      × (db'
          ≡ put_object c db
              (provided_key c index provided)
              (stored_json c db (provided_key c index provided))
              (new_object c db index provided))
unfolding write_object
write_object-put c index provided db db' s s' e = (ground arith, ground arith)

pub write_objects-Owned :
    (c : WriteCall) (index : ℕ) (batch : List Value) (db db' : Db) (s s' : Fields) (k : ItemKey)
    → write_objects c index batch (db, s) ≡ wrote (db', s')
    → Owned k db
    → Owned k db'
unfolding write_objects
write_objects-Owned c index [] db db' s s' k e h = let q : db ≡ db' = cc in rw (← q) h
write_objects-Owned c index (provided ∷ batch) db db' s s' k e h =
    elim (BatchResult-cases (write_object c index provided (db, s))) [
      | inl denied ↦ absurd (ground arith)
      | inr ((db1, s1), w) ↦
          let e' : write_objects c (index + 1) batch (db1, s1) ≡ wrote (db', s') = ground arith in
          let (_, put) = write_object-put c index provided db db1 s s1 w in
          write_objects-Owned c (index + 1) batch db1 db' s1 s' k e'
            (rw put (put_object-Owned c db _ _ _ k h))
    ]

module _ (l : LibraryId) (kind : String) (allow : Bool) where
  abbrev deleted_object : ℤ → String → Db → Db
  deleted_object version key db = record db {
    object = delete (object_key l kind key) db.object;
    file = if kind == "item" then delete (item_key l key) db.file else db.file;
    deletion = upsert (object_key l kind key) version db.deletion;
  }

  delete_object-eq :
      (version : ℤ) (key : String) (db db' : Db)
      → delete_object l kind allow version key db ≡ some db'
      → db' ≡ deleted_object version key db
  unfolding delete_object
  delete_object-eq version key db db' h = ground arith

  deleted_object-Owned :
      (version : ℤ) (key : String) (db : Db) (k : ItemKey)
      → Owned k db
      → Owned k (deleted_object version key db)
  deleted_object-Owned version key db k h =
      elim (eq_cases (object_key l kind key) (attachment_key k)) [
        | inl same ↦
            let own : l.get ≡ k.0 = ap (λ (x : ObjectKey). x.0) same in
            let same_kind : kind ≡ "item" = ap (λ (x : ObjectKey). x.1.0) same in
            let same_key : key ≡ k.1 = ap (λ (x : ObjectKey). x.1.1) same in
            inl (rw (same_kind, own, same_key) (lookup-delete_self k db.file))
        | inr other ↦
            keep-Owned k db (deleted_object version key db)
              (lookup-delete_ne _ (attachment_key k) db.object other)
              (deleted_file (kind == "item") (item_key l key) k db.file) h
      ]

  pub delete_objects-Owned :
      (version : ℤ) (keys : List String) (db db' : Db) (k : ItemKey)
      → delete_objects l kind allow version keys db ≡ some db'
      → Owned k db
      → Owned k db'
  unfolding delete_objects
  delete_objects-Owned version [] db db' k e h = let q : db ≡ db' = cc in rw (← q) h
  delete_objects-Owned version (key ∷ keys) db db' k e h =
      elim (Option-cases (delete_object l kind allow version key db)) [
        | inl denied ↦ absurd (ground arith)
        | inr (db1, d) ↦
            let e' : delete_objects l kind allow version keys db1 ≡ some db' = ground arith in
            delete_objects-Owned version keys db1 db' k e'
              (rw (delete_object-eq version key db db1 d) (deleted_object-Owned version key db k h))
      ]
