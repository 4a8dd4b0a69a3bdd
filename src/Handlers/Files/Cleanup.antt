-- ===== src/Handlers/Files/Cleanup.antt =====
-- xotero/src/handlers/files.rs: `cleanup_pending_uploads`.
use zhost.Prelude.{
  ℕ, zero, suc, ◌+◌, Bool, ◌&&◌, Option, none, some, if◌then◌else◌, List, [], ◌∷◌, unwrap_or,
  length,
}
use zhost.Db.{Db, Digest}
use zhost.Store.Garbage.{
  PendingUploadGarbage, claim_pending_upload_garbage, delete_pending_upload_garbage,
}
use zhost.Handlers.Files.Storage.{Bucket}
use zhost.Handlers.Files.Storage

-- What a cleanup meets: the time of each round's claim, `none` if the database fails at it, and
-- whether the database removes the row of a token in a round.
pub record Rounds : Type 0 where
  pub claimed_at : ℕ → Option ℕ
  pub removes : ℕ → Digest → Bool

module _ {S : Type 0} (storage : Bucket S) where
  -- One candidate: its row is kept for another attempt if the object cannot be deleted, or if
  -- removing the row fails.
  unfoldable pub finish : (Digest → Bool) → PendingUploadGarbage → Db × S → Db × S
  finish removes candidate (db, bucket) =
      let deleted = Storage.delete storage bucket candidate.blob_key in
      (
        if deleted.1 && removes candidate.token_hash
            then delete_pending_upload_garbage db candidate.token_hash
            else db,
        deleted.0,
      )

  unfoldable pub finish_each : (Digest → Bool) → List PendingUploadGarbage → Db × S → Db × S
  finish_each removes [] w = w
  finish_each removes (candidate ∷ garbage) w =
      finish_each removes garbage (finish removes candidate w)

  -- One round behind its claim: the loop returns, or finishes the candidates and goes on.
  unfoldable pub finish_round :
      (Digest → Bool)
      → (Db × S → Option (Db × S))
      → S
      → Db × List PendingUploadGarbage
      → Option (Db × S)
  finish_round removes again bucket (db, []) = some (db, bucket)
  finish_round removes again bucket (db, candidate ∷ garbage) =
      again (finish_each removes (candidate ∷ garbage) (db, bucket))

  -- One round: if its claim fails the loop returns.
  unfoldable pub claim_round :
      (Digest → Bool) → (Db × S → Option (Db × S)) → Option ℕ → Db × S → Option (Db × S)
  unfolding finish_round
  claim_round removes again none w = some w
  claim_round removes again (some now) (db, bucket) =
      finish_round removes again bucket (claim_pending_upload_garbage db now 32)

  -- The loop; `none` is running out of fuel.
  unfoldable pub cleanup_rounds : Rounds → ℕ → ℕ → Db × S → Option (Db × S)
  unfolding claim_round
  cleanup_rounds rounds round zero w = none
  cleanup_rounds rounds round (suc fuel) w =
      claim_round (rounds.removes round) (λ w'. cleanup_rounds rounds (round + 1) fuel w')
        (rounds.claimed_at round) w

  -- A round for each row and one more: every round but the last one claims another row.
  unfoldable pub cleanup_pending_uploads : Rounds → Db × S → Db × S
  unfolding cleanup_rounds
  cleanup_pending_uploads rounds w =
      unwrap_or w (cleanup_rounds rounds 0 (suc (length w.0.pending_uploads)) w)
