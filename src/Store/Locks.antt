-- ===== src/Store/Locks.antt =====
-- The version that `lock_upload_authorities` answers is the one of the upload's library.
use zhost.Prelude.{
  ◌≡◌, ◌⊎◌, inl, inr, Option, none, some, arith, Bool, true, false, List, [], ◌∷◌, String,
  Option-cases, Bool-cases, ◌==◌, ◌++◌, ◌&&◌, is_some, if◌then◌else◌,
}
use zhost.Prelude.Int.{ℤ, int_eq, beq_ℤ_iff}
use zhost.Prelude.Table.{lookup}
use zhost.Domain.{RequestContext}
use zhost.Config.{Config}
use zhost.Db.{Db, Library, Digest, Result, ok, bind-eq-ok, ◌>>=◌}
use zhost.Store.Files.{PendingUpload}
use zhost.Store.Authority.{
  UploadAuthority, lock_libraries, lock_and_recheck, lock_upload_authorities, resolve, uploader,
  caller, still_allows, sort, dedup, grants, key_list, recheck, with_libraries, group_locked,
  all_present, grants, key_list, recheck, with_libraries, group_locked, all_present,
}

abbrev pub HasVersion : Db → ℤ → ℤ → Type 0
HasVersion db id v = (l : Library) × (lookup id db.library ≡ some l) × (l.version ≡ v)

lock_libraries-version :
    (db : Db) (target : ℤ) (ids : List ℤ) (current : Option ℤ) (v : ℤ)
    → lock_libraries db target ids current ≡ some (some v)
    → (current ≡ some v) ⊎ HasVersion db target v
unfolding lock_libraries
lock_libraries-version db target [] current v h = inl cc
lock_libraries-version db target (id ∷ ids) current v h =
    elim (Option-cases (lookup id db.library)) [
      | inl gone ↦ absurd (ground arith)
      | inr (l, there) ↦ elim (Bool-cases (id == target)) [
        | inl hit ↦
            let h' : lock_libraries db target ids (some l.version) ≡ some (some v) = ground arith in
            elim (lock_libraries-version db target ids (some l.version) v h') [
              | inl e ↦ inr (l, rw (← (beq_ℤ_iff id target).0 hit) there, cc)
              | inr found ↦ inr found
            ]
        | inr miss ↦
            let h' : lock_libraries db target ids current ≡ some (some v) = ground arith in
            lock_libraries-version db target ids current v h'
      ]
    ]

module _ (sha256 : String → Digest) (config : Config) (context : RequestContext) where
  -- What both readings of the two credentials have established.
  pub record Locked (db : Db) (upload : PendingUpload) (v : ℤ) : Type 0 where
    pub version : HasVersion db upload.library_id.get v
    pub first : UploadAuthority
    pub second : UploadAuthority
    pub grant_ids : List ℤ × List ℤ
    pub uploader_allows :
        still_allows db config upload grant_ids (uploader sha256 config context upload) first
        ≡ ok true
    pub caller_allows :
        still_allows db config upload grant_ids (caller sha256 config context) second ≡ ok true

  recheck-Locked :
      (db : Db) (upload : PendingUpload) (grant_ids : List ℤ × List ℤ) (a b : UploadAuthority)
      (current : Option ℤ) (v : ℤ)
      → recheck sha256 config context db upload grant_ids a b current ≡ ok (some v)
      → (current ≡ some v → HasVersion db upload.library_id.get v)
      → Locked db upload v
  recheck-Locked db upload grant_ids a b current v h has =
      let (first, e, rest) = bind-eq-ok _ _ h in
      let (second, e', rest') = bind-eq-ok _ _ rest in settle first second e e' rest'
    where
      settle :
          (first second : Bool)
          → still_allows db config upload grant_ids (uploader sha256 config context upload) a
            ≡ ok first
          → (if first
              then still_allows db config upload grant_ids (caller sha256 config context) b
              else ok false)
            ≡ ok second
          → ◌≡◌ {A = Result (Option ℤ)} (ok (if second then current else none)) (ok (some v))
          → Locked db upload v
      settle true true e e' same = record {
        version = has (ground arith);
        first = a;
        second = b;
        grant_ids = grant_ids;
        uploader_allows = e;
        caller_allows = e';
      }
      settle true false e e' same = absurd (ground arith)
      settle false true e e' same = absurd (ground arith)
      settle false false e e' same = absurd (ground arith)

  with_libraries-Locked :
      (db : Db) (upload : PendingUpload) (a b : UploadAuthority) (found : Option (Option ℤ)) (v : ℤ)
      → with_libraries sha256 config context db upload a b found ≡ ok (some v)
      → (found ≡ some (some v) → HasVersion db upload.library_id.get v)
      → Locked db upload v
  unfolding with_libraries
  with_libraries-Locked db upload a b none v h has = absurd (ground arith)
  with_libraries-Locked db upload a b (some current) v h has =
      let owners = dedup (sort (a.principal.user_id.get ∷ b.principal.user_id.get ∷ [])) in
      let keys = dedup (sort (key_list a.api_key_id ++ key_list b.api_key_id)) in
      present
        (group_locked db upload owners
          && all_present (λ u. is_some (lookup u db.accounts.personal_libraries)) owners
          && all_present (λ k. is_some (lookup k db.accounts.api_keys)) keys
          && all_present (λ k. is_some (lookup k db.accounts.api_key_user_permissions)) keys)
        (grants db upload keys) h
    where
      present :
          (locked : Bool) (grant_ids : List ℤ × List ℤ)
          → (if locked
              then recheck sha256 config context db upload grant_ids a b current
              else ok none)
            ≡ ok (some v)
          → Locked db upload v
      present true grant_ids e =
          recheck-Locked db upload grant_ids a b current v e (λ hit. has (ground arith))
      present false grant_ids e = absurd (ground arith)

  lock_and_recheck-Locked :
      (db : Db) (upload : PendingUpload) (a b : UploadAuthority) (v : ℤ)
      → lock_and_recheck sha256 config context db upload a b ≡ ok (some v)
      → Locked db upload v
  unfolding lock_and_recheck
  lock_and_recheck-Locked db upload a b v h =
      with_libraries-Locked db upload a b _ v h (locked_version _)
    where
      locked_version :
          (libraries : List ℤ)
          → lock_libraries db upload.library_id.get libraries none ≡ some (some v)
          → HasVersion db upload.library_id.get v
      locked_version libraries e =
          elim (lock_libraries-version db upload.library_id.get libraries none v e) [
            | inl impossible ↦ absurd (ground arith)
            | inr found ↦ found
          ]

  second_found :
      (db : Db) (upload : PendingUpload) (v : ℤ) (a : UploadAuthority) (o : Option UploadAuthority)
      → (elim o [ none ↦ ok none | some b ↦ lock_and_recheck sha256 config context db upload a b ])
        ≡ ok (some v)
      → Locked db upload v
  second_found db upload v a none h = absurd (ground arith)
  second_found db upload v a (some b) h = lock_and_recheck-Locked db upload a b v h

  first_found :
      (seen db : Db) (upload : PendingUpload) (v : ℤ) (o : Option UploadAuthority)
      → (elim o [
        | none ↦ ok none
        | some a ↦
            (resolve seen config (caller sha256 config context).0 (caller sha256 config context).1
              >>= λ second. elim second [
                | none ↦ ok none
                | some b ↦ lock_and_recheck sha256 config context db upload a b
              ])
      ])
        ≡ ok (some v)
      → Locked db upload v
  first_found seen db upload v none h = absurd (ground arith)
  first_found seen db upload v (some a) h =
      let (second, _, rest) =
        bind-eq-ok
          (resolve seen config (caller sha256 config context).0 (caller sha256 config context).1) _
          h in
      second_found db upload v a second rest

  pub lock_upload_authorities-Locked :
      (seen db : Db) (upload : PendingUpload) (v : ℤ)
      → lock_upload_authorities sha256 config context seen db upload ≡ ok (some v)
      → Locked db upload v
  unfolding lock_upload_authorities
  lock_upload_authorities-Locked seen db upload v h =
      let (first, _, rest) =
        bind-eq-ok (resolve seen config upload.authorizer_key_hash upload.bootstrap_user_id) _ h in
      first_found seen db upload v first rest
