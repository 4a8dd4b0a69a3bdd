-- ===== src/Sync/Uploads.antt =====
-- What registering a file and writing full text touch.
use zhost.Prelude.{
  sym, ap, ℕ, ◌+◌, ◌≡◌, ◌∙◌, inl, inr, refl, Option, some, arith, eq_cases, List, [], ◌∷◌, String,
  pair_eq, string_eq, list_eq, nat_eq,
}
use zhost.Prelude.Int.{ℤ, int_eq}
use zhost.Prelude.Table.{lookup, lookup-upsert_self, lookup-upsert_ne}
use zhost.Json.{Value, Fields, end}
use zhost.Domain.{library_id_eq, LibraryId, LibraryAccess, RequestContext}
use zhost.Config.{Config}
use zhost.Db.{Db, Object, ObjectKey, Digest, ok, bind-eq-ok, Library}
use zhost.Store.{Outcome, next_version, set_version, no_change, guarded_version}
use zhost.Store.Guard.{guarded_version-Guarded}
use zhost.Store.Objects.{object_key}
use zhost.Store.Files.{PendingUpload, pending_upload_from_row}
use zhost.Store.Fulltext.{put_fulltext, write_fulltext}
use zhost.Store.Registration.{install, register_file, FileRegistrationOutcome}
use zhost.Store.Locks.{lock_upload_authorities-Locked}
use zhost.Store.Registered.{Registers, register_file-cases}
use zhost.Sync.{Bumped, Quiet, Touched, Effect}

install-Touched :
    (db : Db) (token_hash : Digest) (l : LibraryId) (key : String) (u : PendingUpload)
    (item : Object) (v : ℤ) (k : ObjectKey)
    → ((install db token_hash l key u item v).library ≡ db.library)
      × Touched l.get v k db (install db token_hash l key u item v)
unfolding install
install-Touched db token_hash l key u item v k = elim (eq_cases (object_key l "item" key) k) [
  | inl same ↦ (refl, rw (← same) (inr (refl, inl (_, lookup-upsert_self _ _ db.object, refl))))
  | inr other ↦ (refl, inl (lookup-upsert_ne _ k _ db.object other, refl))
]

module _ (sha256 : String → Digest) (config : Config) (context : RequestContext) (seen db db' : Db)
    (now : ℕ) (token_hash : Digest) (key : String) (access : LibraryAccess)
    (out : FileRegistrationOutcome) where
  -- The version that is given is the next one of the library as it is.
  registered_version :
      (g : Registers sha256 config context seen db db' now token_hash key access out)
      → g.version ≡ g.commits.lib.version
  registered_version g =
      let upload = pending_upload_from_row g.row in
      let same_library : upload.library_id ≡ access.library_id =
        (library_id_eq.beq_iff upload.library_id access.library_id).0 (ground arith) in
      let (l, there, version) =
        (lock_upload_authorities-Locked sha256 config context seen db upload g.version
          g.locked).version in
      let found : lookup access.library_id.get db.library ≡ some l = rw (← same_library) there in
      let same_row : g.commits.lib ≡ l = cc (g.commits.library, found) in
      sym version ∙ ap (λ (x : Library). x.version) (sym same_row)

  registers-Bumped :
      (g : Registers sha256 config context seen db db' now token_hash key access out)
      → Bumped access.library_id db db'
  registers-Bumped g =
      let c = g.commits in
      let v : g.version ≡ c.lib.version = registered_version g in
      let touched =
        install-Touched (set_version db access.library_id c.lib (next_version c.lib.version))
          token_hash access.library_id key (pending_upload_from_row g.row) c.item
          (next_version c.lib.version) in
      let same : db'
          ≡ install (set_version db access.library_id c.lib (next_version c.lib.version)) token_hash
              access.library_id key (pending_upload_from_row g.row) c.item
              (next_version c.lib.version) =
        rw (← v) c.committed in
      (
        c.lib,
        c.library,
        rw same ((touched (object_key access.library_id "item" key)).0),
        λ k _. rw same ((touched k).1),
      )

  pub register_file-Effect :
      register_file sha256 config context seen db now token_hash key access ≡ ok (db', out)
      → Effect access.library_id db db'
  register_file-Effect h =
      elim (register_file-cases sha256 config context seen db db' now token_hash key access out h) [
        | inl (_, inl same) ↦ inl (rw same (refl, refl, refl))
        | inl (_, inr (row, _, same)) ↦ inl (rw same (refl, refl, refl))
        | inr g ↦ inr (registers-Bumped g)
      ]

put_fulltext-Quiet :
    (l : LibraryId) (v : ℤ) (index : ℕ) (batch : List Value) (s : Db × Fields)
    → Quiet s.0 (put_fulltext l v index batch s).0
unfolding put_fulltext
put_fulltext-Quiet l v index [] s = (refl, refl, refl)
put_fulltext-Quiet l v index (item ∷ batch) (db, s) = put_fulltext-Quiet l v (index + 1) batch _

pub write_fulltext-Effect :
    (db db' : Db) (l : LibraryId) (batch : List Value) (expected : Option ℤ)
    (out : Outcome (ℤ × Fields))
    → write_fulltext db l batch expected ≡ ok (db', out)
    → Effect l db db'
unfolding write_fulltext
write_fulltext-Effect db db' l [] expected out h =
    let (outcome, _, body) = bind-eq-ok (no_change db l expected) _ h in
    let q : db ≡ db' = cc in inl (rw (← q) (refl, refl, refl))
write_fulltext-Effect db db' l (item ∷ batch) expected out h =
    let (g, guarded, body) = bind-eq-ok (guarded_version db l expected) _ h in
    let (row, found, result) = guarded_version-Guarded db l expected g guarded in
    elim result [
      | inl (stale, e) ↦ let q : db ≡ db' = ground arith in inl (rw (← q) (refl, refl, refl))
      | inr (fresh, e) ↦
          let v = next_version row.version in
          let tx = set_version db l row v in
          let q : (put_fulltext l v 0 (item ∷ batch) (tx, end)).0 ≡ db' = ground arith in
          let (library, objects, deletions) = put_fulltext-Quiet l v 0 (item ∷ batch) (tx, end) in
          inr (
            row,
            found,
            rw (← q) library,
            λ k _. rw (← q) (inl (ap (lookup k) objects, ap (lookup k) deletions)),
          )
    ]
