-- ===== src/Handlers/Echoed.antt =====
-- A write by a client that repeats the version of its last read.
use zhost.Prelude.{
  ℕ, ◌≡◌, refl, Option, none, some, true, false, arith, List, ◌∷◌, String, ◌^◌, ◌-◌,
}
use zhost.Prelude.Int.{ℤ, negsuc, ◌≤ℤ◌, i64_max, beq_ℤ_iff, int_eq}
use zhost.Prelude.Table.{lookup}
use zhost.Json.{Value, Fields}
use zhost.Domain.{LibraryAccess}
use zhost.Db.{Db, Library}
use zhost.Store.{next_version, is_stale}
use zhost.Store.Objects.{Supplies}
use zhost.Store.Accepted.{write-Accepted}
use zhost.Http.Headers.{HeaderMap, json_response, version_headers}
use zhost.Http.Echo.{Echoes, precondition-echo}
use zhost.Handlers.Objects.{
  find_bad_key, answer_write, write_batch, write, allows_stored_file_write, write_report,
}

is_stale-same : (v : ℤ) → is_stale (some v) v ≡ false
is_stale-same v = ground (arith, beq_ℤ_iff v v)

-- The write is answered 200 with the next version, which the library then has.
abbrev pub Succeeds :
    (List ℕ → Option (List Value))
    → Supplies
    → Db
    → LibraryAccess
    → String
    → HeaderMap
    → List ℕ
    → Library
    → Type 0
Succeeds from_slice supplies db access kind headers body row =
    (db' : Db) × (successful : Fields) × (write from_slice supplies db access kind headers body
      ≡ (db', json_response (version_headers (next_version row.version)) (write_report successful)))
    × (lookup access.library_id.get db'.library
        ≡ some (record row { version = next_version row.version }))

-- A write of at least one object, whose keys are valid, by a caller who may write files is answered
-- 200 at the next version, which the library then has, if its `If-Unmodified-Since-Version` is the
-- `Last-Modified-Version` that a read gives at the library's version, and if the statements that
-- store an object succeed.
pub write-echoed :
    (from_slice : List ℕ → Option (List Value)) (supplies : Supplies) (db : Db)
    (access : LibraryAccess) (kind : String) (headers : HeaderMap) (body : List ℕ) (row : Library)
    (provided : Value) (batch : List Value)
    → lookup access.library_id.get db.library ≡ some row
    → negsuc (2 ^ 63 - 1) ≤ℤ row.version
    → row.version ≤ℤ i64_max
    → Echoes headers row.version
    → allows_stored_file_write access ≡ true
    → from_slice body ≡ some (provided ∷ batch)
    → find_bad_key (provided ∷ batch) ≡ none
    → ((index : ℕ) (object : Value) → supplies.stores index object ≡ true)
    → Succeeds from_slice supplies db access kind headers body row
unfolding write write_batch answer_write
write-echoed from_slice supplies db access kind headers body row provided batch found low high echo
      allowed parsed clean stores =
    let (db', successful, run, version) =
      write-Accepted access.library_id kind supplies db provided batch (some row.version) row found
        (is_stale-same row.version) stores in
    (
      db',
      successful,
      rw
          (
            write,
            parsed,
            write_batch,
            clean,
            precondition-echo row.version headers low high echo,
            allowed,
            run,
          )
          refl,
      version,
    )
