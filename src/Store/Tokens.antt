-- ===== src/Store/Tokens.antt =====
-- Upload tokens: who holds one, and what is left of it.
use zhost.Prelude.{
  ℕ, ◌≡◌, ◌⊎◌, inl, inr, refl, Option, none, some, arith, list_eq, nat_eq, pair_eq, string_eq, true,
  false, Option-cases, Bool-cases, ltb,
}
use zhost.Prelude.Int.{int_eq}
use zhost.Prelude.Table.{lookup, lookup-upsert_self}
use zhost.Db.{
  Db, Digest, PendingRow, PendingUploadState, authorized, uploading, uploaded, discarded, deleting,
}
use zhost.Store.Files.{
  claim_pending_upload, to_uploading, to_uploaded, move, state_beq, with_state,
  mark_pending_upload_uploaded,
}

move-eq :
    (db : Db) (h : Digest) (next : PendingRow → Option PendingUploadState) (db' : Db) (n : ℕ)
    → move db h next ≡ (db', n)
    → ((n ≡ 0) × (db' ≡ db))
      ⊎ ((row : PendingRow) × (state : PendingUploadState) × (lookup h db.pending_uploads
            ≡ some row)
          × (next row ≡ some state)
          × (n ≡ 1)
          × (lookup h db'.pending_uploads ≡ some (with_state row state)))
unfolding move
move-eq db h next db' n e = elim (Option-cases (lookup h db.pending_uploads)) [
  | inl gone ↦ inl (ground arith, ground arith)
  | inr (row, there) ↦ elim (Option-cases (next row)) [
    | inl stay ↦ inl (ground arith, ground arith)
    | inr (state, go) ↦ inr (
      row,
      state,
      there,
      go,
      ground arith,
      ground (arith, lookup-upsert_self h (with_state row state) db.pending_uploads),
    )
  ]
]

-- A row that the update does not select stays as it is.
move-none :
    (db : Db) (h : Digest) (next : PendingRow → Option PendingUploadState) (row : PendingRow)
    → lookup h db.pending_uploads ≡ some row
    → next row ≡ none
    → move db h next ≡ (db, 0)
unfolding move
move-none db h next row there stay = ground arith

is_authorized : (x : PendingUploadState) → state_beq x authorized ≡ true → x ≡ authorized
is_authorized authorized h = refl
is_authorized uploading h = absurd (ground arith)
is_authorized uploaded h = absurd (ground arith)
is_authorized discarded h = absurd (ground arith)
is_authorized deleting h = absurd (ground arith)

to_uploading-eq :
    (now : ℕ) (row : PendingRow) (state : PendingUploadState)
    → to_uploading now row ≡ some state
    → (state ≡ uploading) × (row.state ≡ authorized) × (ltb now row.expires_at ≡ true)
to_uploading-eq now row state h = elim (Bool-cases (state_beq row.state authorized)) [
  | inl yes_there ↦ (ground arith, is_authorized row.state yes_there, ground arith)
  | inr other ↦ absurd (ground arith)
]

-- A claim of an upload's token that succeeds found it authorized and live, and takes it: no claim
-- of the token succeeds on the database that it leaves.
pub claim_pending_upload-exclusive :
    (db db' : Db) (now later : ℕ) (h : Digest)
    → claim_pending_upload db now h ≡ (db', true)
    → (claim_pending_upload db' later h ≡ (db', false))
      × ((row : PendingRow) × (lookup h db.pending_uploads ≡ some row)
          × (row.state ≡ authorized)
          × (ltb now row.expires_at ≡ true)
          × (lookup h db'.pending_uploads ≡ some (with_state row uploading)))
unfolding claim_pending_upload
claim_pending_upload-exclusive db db' now later h e =
    let r = move db h (to_uploading now) in
    elim (move-eq db h (to_uploading now) r.0 r.1 refl) [
      | inl (zero, _) ↦ absurd (ground arith)
      | inr (row, state, there, go, one, after) ↦
          let (target, was, live) = to_uploading-eq now row state go in
          let same : r.0 ≡ db' = cc in
          let taken : lookup h db'.pending_uploads ≡ some (with_state row uploading) =
            rw (← same, ← target) after in
          let refused : move db' h (to_uploading later) ≡ (db', 0) =
            move-none db' h (to_uploading later) (with_state row uploading) taken refl in
          (rw refused refl, (row, there, was, live, taken))
    ]

is_uploading : (x : PendingUploadState) → state_beq x uploading ≡ true → x ≡ uploading
is_uploading uploading h = refl
is_uploading authorized h = absurd (ground arith)
is_uploading uploaded h = absurd (ground arith)
is_uploading discarded h = absurd (ground arith)
is_uploading deleting h = absurd (ground arith)

to_uploaded-eq :
    (now : ℕ) (row : PendingRow) (state : PendingUploadState)
    → to_uploaded now row ≡ some state
    → (state ≡ uploaded) × (row.state ≡ uploading) × (ltb now row.expires_at ≡ true)
to_uploaded-eq now row state h = elim (Bool-cases (state_beq row.state uploading)) [
  | inl sending ↦ (ground arith, is_uploading row.state sending, ground arith)
  | inr other ↦ absurd (ground arith)
]

-- The row that an upload is marked on was uploading and live.
pub mark_pending_upload_uploaded-eq :
    (db : Db) (now : ℕ) (h : Digest)
    → (mark_pending_upload_uploaded db now h).1 ≡ true
    → (row : PendingRow) × (lookup h db.pending_uploads ≡ some row)
      × (row.state ≡ uploading)
      × (ltb now row.expires_at ≡ true)
      × (lookup h (mark_pending_upload_uploaded db now h).0.pending_uploads
          ≡ some (with_state row uploaded))
unfolding mark_pending_upload_uploaded
mark_pending_upload_uploaded-eq db now h e =
    let r = move db h (to_uploaded now) in
    elim (move-eq db h (to_uploaded now) r.0 r.1 refl) [
      | inl (zero, _) ↦ absurd (ground arith)
      | inr (row, state, there, go, one, after) ↦
          let (target, was, live) = to_uploaded-eq now row state go in
          (row, there, was, live, rw (← target) after)
    ]
