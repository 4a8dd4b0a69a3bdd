-- ===== src/Lib.antt =====
-- The server xotero of this repository: a Zotero-compatible sync server that keeps libraries of
-- objects in PostgreSQL and stored files in an S3 bucket.
--
-- The program's parts and how they interact. A request passes the middleware (xotero/src/http), which
-- authenticates its key, selects the library that its path names and checks the rights for the method;
-- a handler then calls one operation of the store (xotero/src/store), which is one transaction. Every
-- write of a library takes its next version behind a guard on the version that the client expects, and
-- stamps what it changes with it; clients sync by asking for what changed and what was deleted since
-- a version. Files arrive in two steps: an upload token is created, claimed and its bytes are stored
-- under a candidate name, and `register_file` then makes the candidate the file of an attachment.
--
-- What models what.
--   * Db: the tables that the statements read and write, as association lists with a primary key
--     (Prelude.Table), and the result of a call.
--   * Json: `serde_json::Value`, with the order of fields that `preserve_order` keeps.
--   * Domain, Config: xotero/src/domain.rs and xotero/src/config.rs. Config.Load reads the environment.
--   * Store: xotero/src/store/mod.rs; Store.Objects, Versions, Settings, Tags, Fulltext, Identity,
--     Groups and Sessions are the files of that name there. Store.Files, Garbage, Authority and
--     Registration are xotero/src/store/files.rs: the states of an upload, its collection, the check
--     of rights under locks (`lock_upload_authorities`) and `register_file`. Store.Queries is the
--     filtered queries of items in xotero/src/store/objects.rs and versions.rs.
--   * Query: xotero/src/query.rs. Http.Validation, Body, Middleware and Headers: xotero/src/http.
--   * Handlers: xotero/src/handlers. Handlers.Objects and Items are objects.rs; Handlers.Metadata is
--     settings.rs, tags.rs and fulltext.rs; Handlers.Keys and Login are keys.rs, with the grants of
--     xotero/src/store/groups.rs, and login.rs. Handlers.Files is files.rs: Cleanup, Put and Post are
--     `cleanup_pending_uploads`, `upload_put` and the others; Storage is xotero/src/s3.rs.
--   * Prelude.Text, Format and Decimal: the strings of the standard library, and decimal numbers.
--   * Router: the table of routes of xotero/src/app.rs.
--   * Sync: the view of a client that syncs. `Step` is one call of an operation, `Reach` a sequence of
--     them in the order of their commits.
--   * Tests: an example database, on which the theorems are applied.
--
-- How state and operations correspond. A transaction is a function from the database before it to its
-- outcome and the database after it; a transaction that rolls back gives the database before it. The
-- statements of a transaction see one database, since each locks the rows that it depends on; only
-- `lock_upload_authorities` reads the credentials once before it takes its locks, and takes both
-- databases, the one it has `seen` and the one under the locks. Times are microseconds and an argument
-- `now`; the next value of an identity column is an argument. An error of the database driver ends a
-- call without a commit and is modelled where a missing row or an unacceptable stored value causes it,
-- where a write stores an object (`Supplies.stores`), since `jsonb` refuses some values, and in a
-- cleanup (`Rounds`), which goes on after it or returns. A `null` principal of a completed session is
-- such an error here and a panic in the source.
--
-- A handler is a function from the database to its response, and to the database after it where it
-- changes one. `upload_put` is several transactions with calls of the bucket between them, and other
-- requests may run between these: `meanwhile` is what they do to the database and the bucket while the
-- body is read and `during` what they do between the storing of the bytes and the last statement, and
-- both are arguments. A cleanup runs uninterrupted. The access that the middleware keeps for the task
-- is an argument. What is logged is left out.
--
-- Parameters. `sha256` is the digest of the sha2 crate, `gunzip` the decoder of flate2, `json_text`
-- PostgreSQL's `->>`, `from_str` and `to_string` the coding of serde_urlencoded, `from_slice` the parsing of
-- serde_json, `md5` and `hmac` the digests of their crates, and `random` the bytes that the random
-- device gives. `Postgres` is what PostgreSQL's matching and sorting of items give, and `Bucket` the
-- calls of the S3 client library with a state of its own. What a theorem assumes of them is one of
-- its hypotheses: that a digest has 32 bytes, that sorting keeps the number of rows, that a statement
-- that stores an object succeeds, and of a bucket what `BucketLaws` says, that what is put can be read.
-- `dispatch` is axum's choice of a route, of which `RouterLaws` says that it takes one that fits.
--
-- Bounds. `bigint` and `i64` are integers in range; the version counter wraps where the source would
-- fail, and what is said of sequences of operations asks that counters stay below the largest `bigint`.
-- All recursion is structural, but for three loops. Printing a natural number has fuel for the number
-- plus one, which is more than its digits. A cleanup has a round for each row of an upload and one
-- more, which is enough while its claims are within a minute; later the source claims rows again that
-- it could not delete, and may go on, where the model gives up without a change. The derivation of a login key has a round
-- for each value of its counter, a `u32`, and ends before if enough bytes are accepted.
--
-- Not modelled: the handlers of xotero/src/handlers/groups.rs and the listings of groups and tags,
-- which only read what SQL text aggregates; the start-up (main.rs); the connection
-- to the bucket in s3.rs; logging; the pool of decoder permits; and the loop that repeats a cleanup
-- each minute.
-- PostgreSQL's `jsonb` does not keep the order of fields; no theorem depends on it.
pub mod Prelude
pub mod Json
pub mod Domain
pub mod Config
pub mod Db
pub mod Store
pub mod Sync
pub mod Query
pub mod Http
pub mod Handlers
pub mod Router
pub mod Tests
