-- ===== src/Sync/Replica.antt =====
-- A client that has synced a library up to a version, and the transactions that commit after it.
-- The other transactions of xotero/src/store leave the tables of this module alone.
use zhost.Prelude.{
  ℕ, ◌^◌, ◌-◌, ◌≡◌, ◌≢◌, ◌⊎◌, inl, inr, refl, ◌∙◌, sym, ap, Option, none, some, arith, eq_cases,
  Bool, List, String, pair_eq, string_eq,
}
use zhost.Prelude.Int.{ℤ, negsuc, int_eq, ◌≤ℤ◌, ◌<ℤ◌, i64_max, add_i64_one}
use zhost.Prelude.Table.{lookup, lookup-upsert_self, lookup-upsert_ne}
use zhost.Json.{Value, Fields}
use zhost.Domain.{LibraryId, LibraryAccess, RequestContext}
use zhost.Config.{Config}
use zhost.Db.{Db, Object, ObjectKey, Library, Digest, ok}
use zhost.Store.{Outcome, next_version, set_version}
use zhost.Store.Objects.{Supplies, ObjectMutation, write, delete_keys}
use zhost.Store.Settings.{write_settings, delete_settings}
use zhost.Store.Tags.{delete_tags}
use zhost.Store.Fulltext.{write_fulltext}
use zhost.Store.Registration.{FileRegistrationOutcome, register_file}
use zhost.Sync.{IsObjectKey, Effect, Unchanged, Touched, Marked}
use zhost.Sync.Objects.{write-Effect}
use zhost.Sync.Deletes.{delete_keys-Effect}
use zhost.Sync.Metadata.{write_settings-Effect, delete_settings-Effect, delete_tags-Effect}
use zhost.Sync.Uploads.{register_file-Effect, write_fulltext-Effect}

-- A `bigint` that is not the largest one.
abbrev pub InRange : ℤ → Type 0
InRange v = (negsuc (2 ^ 63 - 1) ≤ℤ v) × (v <ℤ i64_max)

abbrev pub HasRoom : LibraryId → Db → Type 0
HasRoom l db = (row : Library) × (lookup l.get db.library ≡ some row) × InRange row.version

-- An object of the library that a sync since version `s` has to report.
abbrev pub Reported : ℤ → ObjectKey → Db → Type 0
Reported s k db =
    ((o : Object) × (lookup k db.object ≡ some o) × (s <ℤ o.version))
    ⊎ ((v : ℤ) × (lookup k db.object ≡ none) × (lookup k db.deletion ≡ some v) × (s <ℤ v))

below : (a b c : ℤ) → a ≤ℤ b → b <ℤ c → a <ℤ c
below a b c h g = ground arith

weaken : (a b : ℤ) → a <ℤ b → a ≤ℤ b
weaken a b h = ground arith

module _ (sha256 : String → Digest) (json_text : Value → Option String) (config : Config) where
  -- One call that returns, with the database before and after it.
  pub data Step : LibraryId → Db → Db → Type 0 where
    write_step :
        {l : LibraryId} {db db' : Db} (kind : String) (allow : Bool) (supplies : Supplies)
        (batch : List Value) (expected : Option ℤ) (out : ObjectMutation (ℤ × Fields))
        → write l kind allow supplies db batch expected ≡ ok (db', out)
        → Step l db db'
    delete_step :
        {l : LibraryId} {db db' : Db} (kind : String) (allow : Bool) (keys : List String)
        (expected : Option ℤ) (out : ObjectMutation ℤ)
        → delete_keys l kind allow db keys expected ≡ ok (db', out)
        → Step l db db'
    write_settings_step :
        {l : LibraryId} {db db' : Db} (body : Value) (expected : Option ℤ) (out : Outcome ℤ)
        → write_settings db l body expected ≡ ok (db', out)
        → Step l db db'
    delete_settings_step :
        {l : LibraryId} {db db' : Db} (keys : List String) (expected : Option ℤ) (out : Outcome ℤ)
        → delete_settings db l keys expected ≡ ok (db', out)
        → Step l db db'
    delete_tags_step :
        {l : LibraryId} {db db' : Db} (tags : List String) (expected : Option ℤ) (out : Outcome ℤ)
        → delete_tags json_text db l tags expected ≡ ok (db', out)
        → Step l db db'
    write_fulltext_step :
        {l : LibraryId} {db db' : Db} (batch : List Value) (expected : Option ℤ)
        (out : Outcome (ℤ × Fields))
        → write_fulltext db l batch expected ≡ ok (db', out)
        → Step l db db'
    register_file_step :
        {db db' : Db} (context : RequestContext) (seen : Db) (now : ℕ) (token_hash : Digest)
        (key : String) (access : LibraryAccess) (out : FileRegistrationOutcome)
        → register_file sha256 config context seen db now token_hash key access ≡ ok (db', out)
        → Step access.library_id db db'

  -- A write, a deletion or a registration of a file that returns leaves the versions, the objects
  -- and the log of deletions as they are, or gives its library the next version and leaves each
  -- object and its log entry alone, unless the object is of that library and either has the next
  -- version or is gone and logged under it.
  pub Step-Effect : (l : LibraryId) (db db' : Db) → Step l db db' → Effect l db db'
  Step-Effect l db db' (write_step kind allow supplies batch expected out h) =
      write-Effect l kind allow supplies db db' batch expected out h
  Step-Effect l db db' (delete_step kind allow keys expected out h) =
      delete_keys-Effect l kind allow db db' keys expected out h
  Step-Effect l db db' (write_settings_step body expected out h) =
      write_settings-Effect db db' l body expected out h
  Step-Effect l db db' (delete_settings_step keys expected out h) =
      delete_settings-Effect db db' l keys expected out h
  Step-Effect l db db' (delete_tags_step tags expected out h) =
      delete_tags-Effect json_text db db' l tags expected out h
  Step-Effect l db db' (write_fulltext_step batch expected out h) =
      write_fulltext-Effect db db' l batch expected out h
  Step-Effect l db db' (register_file_step context seen now token_hash key access out h) =
      register_file-Effect sha256 config context seen db db' now token_hash key access out h

  -- Transactions in the order of their commits, whichever libraries they are about.
  pub data Reach (start : Db) : Db → Type 0 where
    nothing : Reach start start
    commit :
        {db db' : Db} (l : LibraryId)
        → Reach start db
        → HasRoom l db
        → Step l db db'
        → Reach start db'

  module _ (mine : LibraryId) (s : ℤ) (start : Db) where
    abbrev pub Synced : ObjectKey → Db → Type 0
    Synced k db = Unchanged k start db ⊎ Reported s k db

    pub record Follows (k : ObjectKey) (db : Db) : Type 0 where
      pub row : Library
      pub found : lookup mine.get db.library ≡ some row
      pub later : s ≤ℤ row.version
      pub synced : Synced k db

    stays : (k : ObjectKey) (db db' : Db) → Unchanged k db db' → Synced k db → Synced k db'
    stays k db db' (o, d) (inl (p, q)) = inl (o ∙ p, d ∙ q)
    stays k db db' (o, d) (inr (inl (x, p, lt))) = inr (inl (x, o ∙ p, lt))
    stays k db db' (o, d) (inr (inr (v, p, q, lt))) = inr (inr (v, o ∙ p, d ∙ q, lt))

    marked : (v : ℤ) (k : ObjectKey) (db db' : Db) → s <ℤ v → Marked v k db' → Synced k db'
    marked v k db db' lt (inl (o, p, e)) = inr (inl (o, p, rw e lt))
    marked v k db db' lt (inr (p, q)) = inr (inr (v, p, q, lt))

    bumped_mine :
        (l : LibraryId) (k : ObjectKey) (db db' : Db) (row : Library)
        → l.get ≡ mine.get
        → lookup l.get db.library ≡ some row
        → InRange row.version
        → db'.library ≡ (set_version db l row (next_version row.version)).library
        → Touched l.get (next_version row.version) k db db'
        → Follows k db
        → Follows k db'
    bumped_mine l k db db' row same found room library touched f =
        let found' : lookup mine.get db.library ≡ some row = rw (← same) found in
        let same_row : f.row ≡ row = cc (f.found, found') in
        let grows : row.version <ℤ next_version row.version =
          add_i64_one row.version room.0 room.1 in
        let before : s ≤ℤ row.version = rw (← same_row) f.later in
        let after : s <ℤ next_version row.version = below s _ _ before grows in
        record {
          row = record row { version = next_version row.version };
          found = rw (library, ← same) (lookup-upsert_self l.get _ db.library);
          later = weaken s _ after;
          synced = elim touched [
            | inl same_object ↦ stays k db db' same_object f.synced
            | inr (_, mark) ↦ marked (next_version row.version) k db db' after mark
          ];
        }

    bumped_other :
        (l : LibraryId) (k : ObjectKey) (db db' : Db) (row : Library)
        → k.0 ≡ mine.get
        → l.get ≢ mine.get
        → db'.library ≡ (set_version db l row (next_version row.version)).library
        → Touched l.get (next_version row.version) k db db'
        → Follows k db
        → Follows k db'
    bumped_other l k db db' row own other library touched f = record {
      row = f.row;
      found = rw library (lookup-upsert_ne l.get mine.get _ db.library other ∙ f.found);
      later = f.later;
      synced = elim touched [
        | inl same_object ↦ stays k db db' same_object f.synced
        | inr (theirs, _) ↦ absurd (other (sym theirs ∙ own))
      ];
    }

    Effect-Follows :
        (l : LibraryId) (k : ObjectKey) (db db' : Db)
        → k.0 ≡ mine.get
        → IsObjectKey k
        → HasRoom l db
        → Effect l db db'
        → Follows k db
        → Follows k db'
    Effect-Follows l k db db' own kind room (inl (library, objects, deletions)) f = record {
      row = f.row;
      found = ap (lookup mine.get) library ∙ f.found;
      later = f.later;
      synced = stays k db db' (ap (lookup k) objects, ap (lookup k) deletions) f.synced;
    }
    Effect-Follows l k db db' own kind room (inr (row, found, library, touched)) f =
        elim (eq_cases l.get mine.get) [
          | inl same ↦
              let (row', found', in_range) = room in
              let same_row : row ≡ row' = cc (found, found') in
              bumped_mine l k db db' row same found (rw same_row in_range) library (touched k kind)
                f
          | inr other ↦ bumped_other l k db db' row own other library (touched k kind) f
        ]

    pub Reach-Follows :
        (k : ObjectKey) (db : Db) (row : Library)
        → k.0 ≡ mine.get
        → IsObjectKey k
        → lookup mine.get start.library ≡ some row
        → s ≤ℤ row.version
        → Reach start db
        → Follows k db
    Reach-Follows k db row own kind found later nothing = record {
      row = row;
      found = found;
      later = later;
      synced = inl (refl, refl);
    }
    Reach-Follows k db' row own kind found later (commit {db} l reach room step) =
        Effect-Follows l k db db' own kind room (Step-Effect l db db' step)
          (Reach-Follows k db row own kind found later reach)
