-- ===== src/Store/Collected.antt =====
-- What the garbage collector of uploads takes.
use zhost.Prelude.{
  ℕ, ◌≡◌, ◌⊎◌, inl, inr, refl, none, some, arith, true, false, ◌||◌, ◌==◌, [], ◌∷◌, take, ltb, ◌≢◌,
  eq_cases, zero, suc, Eq, list_eq, nat_eq,
}
use zhost.Prelude.Table.{Table, lookup, lookup-update_rows}
use zhost.Db.{Db, Digest, PendingRow, uploading, deleting, discarded}
use zhost.Store.Files.{state_beq}
use zhost.Store.Garbage.{
  is_garbage, garbage_rows, insert_by_expiry, by_expiry, candidates, is_candidate, claimed,
  claim_pending_upload_garbage,
}

abbrev digest_eq : Eq Digest
digest_eq = list_eq

-- A primary key: no two rows with one.
abbrev pub Keyed : Table Digest PendingRow → Type 0
Keyed [] = Unit {0}
Keyed ((h, row) ∷ rows) = (lookup h rows ≡ none) × Keyed rows

pub take-candidate :
    (h : Digest) (n : ℕ) (rows : Table Digest PendingRow)
    → is_candidate (take n rows) h ≡ true
    → is_candidate rows h ≡ true
take-candidate h zero rows e = absurd (ground arith)
take-candidate h (suc n) [] e = absurd (ground arith)
take-candidate h (suc n) (r ∷ rows) e = ground (arith, take-candidate h n rows)

insert-candidate :
    (h : Digest) (r : Digest × PendingRow) (rows : Table Digest PendingRow)
    → is_candidate (insert_by_expiry r rows) h ≡ ((r.0 == h) || is_candidate rows h)
unfolding insert_by_expiry
insert-candidate h r [] = refl
insert-candidate h r (s ∷ rows) = ground (arith, insert-candidate h r rows)

pub by_expiry-candidate :
    (h : Digest) (rows : Table Digest PendingRow)
    → is_candidate (by_expiry rows) h ≡ is_candidate rows h
unfolding by_expiry
by_expiry-candidate h [] = refl
by_expiry-candidate h (r ∷ rows) =
    ground (arith, insert-candidate h r (by_expiry rows), by_expiry-candidate h rows)

garbage-there :
    (now : ℕ) (h : Digest) (rows : Table Digest PendingRow)
    → is_candidate (garbage_rows now rows) h ≡ true
    → lookup h rows ≢ none
unfolding garbage_rows lookup
garbage-there now h [] e = absurd (ground arith)
garbage-there now h ((k, w) ∷ rows) e =
    ground (arith, garbage-there now h rows, digest_eq.beq_iff k h)

garbage-candidate :
    (now : ℕ) (h : Digest) (rows : Table Digest PendingRow) (row : PendingRow)
    → Keyed rows
    → lookup h rows ≡ some row
    → is_candidate (garbage_rows now rows) h ≡ true
    → is_garbage now row ≡ true
unfolding garbage_rows lookup
garbage-candidate now h [] row keyed there e = absurd (ground arith)
garbage-candidate now h ((k, w) ∷ rows) row (fresh, keyed) there e = elim (eq_cases k h) [
  | inl same ↦
      let later : lookup h rows ≡ none = rw (← same) fresh in
      ground (arith, digest_eq.beq_iff k h, garbage-there now h rows)
  | inr other ↦ ground (arith, digest_eq.beq_iff k h, garbage-candidate now h rows row keyed)
]

-- The upload may still be used: its client is sending, or it is live and not given up.
abbrev pub InUse : ℕ → PendingRow → Type 0
InUse now row =
    (row.state ≡ uploading)
    ⊎ ((ltb now row.expires_at ≡ true)
        × (state_beq row.state discarded ≡ false)
        × (state_beq row.state deleting ≡ false))

InUse-not_garbage : (now : ℕ) (row : PendingRow) → InUse now row → is_garbage now row ≡ false
unfolding is_garbage
InUse-not_garbage now row (inl sending) = rw sending (ground arith)
InUse-not_garbage now row (inr (live, kept, there)) = ground arith

-- Claiming garbage leaves an upload that may still be used as it is.
pub claim_pending_upload_garbage-spares :
    (db : Db) (now limit : ℕ) (h : Digest) (row : PendingRow)
    → Keyed db.pending_uploads
    → lookup h db.pending_uploads ≡ some row
    → InUse now row
    → lookup h (claim_pending_upload_garbage db now limit).0.pending_uploads ≡ some row
unfolding claim_pending_upload_garbage candidates
claim_pending_upload_garbage-spares db now limit h row keyed there in_use =
    let rows = by_expiry (garbage_rows now db.pending_uploads) in
    let kept : is_candidate (take limit rows) h ≡ false =
      (ground (
        arith,
        take-candidate h limit rows,
        by_expiry-candidate h (garbage_rows now db.pending_uploads),
        garbage-candidate now h db.pending_uploads row keyed there,
        InUse-not_garbage now row in_use,
      )) in
    ground (arith, lookup-update_rows (claimed now (take limit rows)) h db.pending_uploads)
