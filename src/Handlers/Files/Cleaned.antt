-- ===== src/Handlers/Files/Cleaned.antt =====
-- When a cleanup of uploads ends, and what it leaves.
use zhost.Prelude.{
  ℕ, suc, ◌+◌, ◌≤◌, ◌≡◌, ◌⊎◌, none, Bool, ◌&&◌, if◌then◌else◌, Option, some, List, [], ◌∷◌, leb,
  is_some_and, list_eq, nat_eq,
}
use zhost.Prelude.Table.{Table, update_rows}
use zhost.Db.{Db, Digest, PendingRow, deleting}
use zhost.Store.Files.{state_beq, set_pending, minute}
use zhost.Store.Garbage.{garbage_rows, claimed}
use zhost.Handlers.Files.Storage.{Bucket}
use zhost.Handlers.Files.Cleanup.{Rounds}

-- The row is being deleted and was claimed at `t` or later.
abbrev is_settled : ℕ → PendingRow → Bool
is_settled t row = state_beq row.state deleting && is_some_and (λ a. leb t a) row.gc_attempted_at

abbrev unsettled : ℕ → Table Digest PendingRow → ℕ
unsettled t [] = 0
unsettled t ((h, row) ∷ rows) =
    if is_settled t row then unsettled t rows else suc (unsettled t rows)

-- The claims of a cleanup are all within a minute of a time.
abbrev pub Prompt : ℕ → Rounds → Type 0
Prompt t rounds = (i now : ℕ) → rounds.claimed_at i ≡ some now → (t ≤ now) × (now ≤ t + minute)

-- A round's claim failed, or found no garbage.
abbrev pub Last : Rounds → ℕ → Db → Type 0
Last rounds last db =
    (rounds.claimed_at last ≡ none)
    ⊎ ((now : ℕ) × (rounds.claimed_at last ≡ some now) × (garbage_rows now db.pending_uploads ≡ []))

module _ {S : Type 0} (storage : Bucket S) (t : ℕ) (rounds : Rounds)
    (prompt : Prompt t rounds) where
  -- The loop ended at its last round.
  abbrev pub Ended : Option (Db × S) → Type 0
  Ended result = (w : Db × S) × (last : ℕ) × (result ≡ some w) × Last rounds last w.0

  abbrev after_claim : Db → ℕ → Table Digest PendingRow → Db
  after_claim db now taken = set_pending db (update_rows (claimed now taken) db.pending_uploads)
