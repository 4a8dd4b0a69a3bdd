-- ===== src/Tests/Sync.antt =====
-- A client that has synced the example, and the write of a book after it.
use zhost.Prelude.{◌≡◌, ◌⊎◌, inl, refl, some, [], ◌∷◌, arith, true, false, pair_eq, string_eq}
use zhost.Prelude.Int.{pos, int_eq}
use zhost.Prelude.Table.{lookup}
use zhost.Json.{obj, contains_key}
use zhost.Db.{Db, Library}
use zhost.Store.Versions.{versions, deleted}
use zhost.Store.Ownership.{different}
use zhost.Store.Attachments.{Owned}
use zhost.Sync.{Unchanged, Effect}
use zhost.Sync.Replica.{Step, Reach, nothing, commit, write_step, Step-Effect}
use zhost.Sync.Report.{sync_complete, lists, deleted_of}
use zhost.Sync.Attached.{Step-Owned}
use zhost.Sync.Others.{Step-others}
use zhost.Tests.{supplies, hash, no_text, config, db, library_one}
use zhost.Tests.Objects.{book, book_run, written, outcome, book_done, db_library}

abbrev after : Db
after = written book_run

abbrev five : Library
five = record { version = pos 5; kind = "personal" }

abbrev book_step : Step hash no_text config library_one db after
book_step =
    write_step "item" false supplies (obj book ∷ []) (some (pos 5)) (outcome book_run) book_done

abbrev book_reach : Reach hash no_text config db after
book_reach = commit library_one nothing (five, db_library, (ground arith, ground arith)) book_step

sync_complete_example :
    Unchanged (pos 1, ("item", "BBBB2345")) db after
    ⊎ (contains_key "BBBB2345" (versions after library_one "item" (pos 5) true) ≡ true)
    ⊎ (lists "BBBB2345" (deleted_of "item" (deleted after library_one (pos 5))) ≡ true)
sync_complete_example =
    sync_complete hash no_text config library_one "item" "BBBB2345" db after five
      (different "item" "setting" refl) (different "item" "tag" refl) db_library book_reach

Step-Effect_example : Effect library_one db after
Step-Effect_example = Step-Effect hash no_text config library_one db after book_step

no_file : Owned (pos 1, "ABCD2345") db
unfolding lookup
no_file = inl refl

Step-Owned_example : Owned (pos 1, "ABCD2345") after
Step-Owned_example =
    Step-Owned (pos 1, "ABCD2345") hash no_text config library_one db after book_step no_file

Step-others_example :
    (lookup (pos 2) after.library ≡ lookup (pos 2) db.library)
    × Unchanged (pos 2, ("item", "ABCD2345")) db after
Step-others_example =
    Step-others hash no_text config library_one db after (pos 2) "item" "ABCD2345" book_step
      (λ e. ground arith) (different "item" "setting" refl) (different "item" "tag" refl)
