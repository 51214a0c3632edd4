-- ===== src/Journal/Tests.antt =====
-- An entry that is applied and recorded, and an instance of the theorem on the journal.
use codex_threadhub.Base.{◌≡◌, refl, arith, none, some, List, [], ◌∷◌}
use codex_threadhub.Base.Table.{update_where}
use codex_threadhub.Journal.{
  applying, recorded, EntryInput, Journal, JournalChanges, new_entry, prepare_integration_journal,
  transition_integration_journal,
}
use codex_threadhub.Journal.Calls.{JournalCall, run_journal, run_journal_call}
use codex_threadhub.Journal.Forward.{IsValid, AllRecorded, run_journal-IsValid}

abbrev input : EntryInput
input = record {
  id = "integration_1";
  journal_key = "k";
  worktree_id = some "w";
  task_id = some "t";
  repo_root = some "/repo";
  strategy = some "commit";
  artifact = some "{}";
}

abbrev no_changes : JournalChanges
no_changes = record { evidence = none; last_error = none }

abbrev no_entries : Journal
no_entries = record { entries = []; events = [] }

-- An entry is not recorded before it is applied: the last call throws.
abbrev too_early : List JournalCall
too_early =
    JournalCall.prepares input 1
    ∷ JournalCall.moves "integration_1" applying no_changes 2
    ∷ JournalCall.moves "integration_1" recorded no_changes 3
    ∷ []

keeps_applying :
    (run_journal too_early no_entries).entries
    ≡ (record (new_entry input 1) { status = applying; updated_at = 2 }) ∷ []
unfolding run_journal run_journal_call prepare_integration_journal transition_integration_journal
    update_where
keeps_applying = refl

-- An entry that was recorded at 4 is prepared again and recorded again.
abbrev done : Journal
done = record no_entries {
  entries =
      (record (new_entry input 1) {
        status = recorded;
        updated_at = 4;
        applied_at = some 3;
        recorded_at = some 4;
      })
      ∷ [];
}

abbrev again : List JournalCall
again =
    JournalCall.prepares input 8
    ∷ JournalCall.moves "integration_1" applying no_changes 9
    ∷ JournalCall.moves "integration_1" recorded no_changes 10
    ∷ []

done-IsValid : IsValid done.entries
done-IsValid = ((λ id. ground arith), ((refl, refl), tt))

done-AllRecorded : AllRecorded (("integration_1", 4) ∷ []) done.entries
done-AllRecorded = ((refl, ((λ e. (refl, refl)), tt)), tt)

run_journal-IsValid_example :
    IsValid (run_journal again done).entries
    × AllRecorded (("integration_1", 4) ∷ []) (run_journal again done).entries
run_journal-IsValid_example =
    run_journal-IsValid (("integration_1", 4) ∷ []) again done done-IsValid done-AllRecorded
