-- ===== src/Journal.antt =====
-- The integration journal of src/registry.js, which records how far the work of a worktree has been
-- applied. A call reads the clock once; the evidence and the artifact are their JSON texts. That the
-- worktree is there, which a foreign key demands, is taken for granted.
use Prim.Native.String
use codex_threadhub.Base.{
  ℕ, String, Bool, true, false, not, ◌&&◌, ◌||◌, Option, none, some, List, [], ◌∷◌, any, find, ◌==◌,
  ◌=s=◌, or_else, or_option, if◌then◌else◌, Result, ok, err, ◌>>=◌, throw_if,
}
use codex_threadhub.Base.Table.{update_where}
use codex_threadhub.Registry.{Event}
pub mod Calls
pub mod Forward
mod Tests

pub data JournalStatus : Type 0 where
  prepared applying applied recorded : JournalStatus

abbrev pub journal_spelling : JournalStatus → String
journal_spelling prepared = "prepared"
journal_spelling applying = "applying"
journal_spelling applied = "applied"
journal_spelling recorded = "recorded"

abbrev pub journal_code : JournalStatus → ℕ
journal_code prepared = 0
journal_code applying = 1
journal_code applied = 2
journal_code recorded = 3

abbrev pub is_journal : JournalStatus → JournalStatus → Bool
is_journal a b = journal_code a == journal_code b

-- The table `allowed`.
abbrev pub journal_moves : JournalStatus → List JournalStatus
journal_moves prepared = applying ∷ []
journal_moves applying = prepared ∷ applied ∷ []
journal_moves applied = recorded ∷ []
journal_moves recorded = []

abbrev pub journal_in : List JournalStatus → JournalStatus → Bool
journal_in xs s = any (λ x. is_journal x s) xs

pub record Entry : Type 0 where
  pub id : String
  pub journal_key : String
  pub worktree_id : String
  pub task_id : Option String
  pub repo_root : String
  pub strategy : String
  pub status : JournalStatus
  pub artifact : String
  pub evidence : Option String
  pub last_error : Option String
  pub created_at : ℕ
  pub updated_at : ℕ
  pub applied_at : Option ℕ
  pub recorded_at : Option ℕ

pub record Journal : Type 0 where
  pub entries : List Entry
  pub events : List Event

-- The key, where the caller gives none, is the digest of the worktree, the strategy and the
-- artifact, and the id begins with its first digits; both are arguments.
pub record EntryInput : Type 0 where
  pub id : String
  pub journal_key : String
  pub worktree_id : Option String
  pub task_id : Option String
  pub repo_root : Option String
  pub strategy : Option String
  pub artifact : Option String

-- The TypeError, the failures of the primary key and of the check of the strategy, and those of a
-- transition.
pub data JournalError : Type 0 where
  fields_required id_taken strategy_invalid not_found : JournalError
  transition_invalid : JournalStatus → JournalStatus → JournalError

abbrev pub is_given : Option String → Bool
is_given none = false
is_given (some s) = not (s =s= "")

abbrev pub has_id : String → Entry → Bool
has_id id e = e.id =s= id

abbrev pub has_journal_key : String → Entry → Bool
has_journal_key key e = e.journal_key =s= key

abbrev pub new_entry : EntryInput → ℕ → Entry
new_entry q now = record {
  id = q.id;
  journal_key = q.journal_key;
  worktree_id = or_else q.worktree_id "";
  task_id = q.task_id;
  repo_root = or_else q.repo_root "";
  strategy = or_else q.strategy "";
  status = prepared;
  artifact = or_else q.artifact "";
  evidence = none;
  last_error = none;
  created_at = now;
  updated_at = now;
  applied_at = none;
  recorded_at = none;
}

abbrev pub prepared_again : EntryInput → ℕ → Entry → Entry
prepared_again q now e = record e { artifact = or_else q.artifact ""; updated_at = now }

abbrev pub is_strategy : String → Bool
is_strategy s = any (λ x. x =s= s) ("patch" ∷ "commit" ∷ [])

abbrev pub insert_entry : EntryInput → ℕ → List Entry → Result JournalError (List Entry)
insert_entry q now es =
    if any (has_journal_key q.journal_key) es
    then ok (update_where (has_journal_key q.journal_key) (prepared_again q now) es)
    else throw_if (any (has_id q.id) es) id_taken >>= λ _. ok (new_entry q now ∷ es)

unfoldable pub prepare_integration_journal :
    EntryInput → ℕ → Journal → Result JournalError (Journal × Option Entry)
prepare_integration_journal q now j =
    throw_if
      (not (
        is_given q.worktree_id
        && (is_given q.repo_root && (is_given q.strategy && is_given q.artifact))))
      fields_required
    >>= λ _. throw_if (not (is_strategy (or_else q.strategy ""))) strategy_invalid >>= λ _.
        insert_entry q now j.entries >>= λ es.
        ok (record j { entries = es }, find (has_journal_key q.journal_key) es)

abbrev pub get_integration_journal : String → Journal → Option Entry
get_integration_journal id j = find (has_id id) j.entries

pub record JournalChanges : Type 0 where
  pub evidence : Option (Option String)
  pub last_error : Option String

abbrev pub stamp : JournalStatus → JournalStatus → ℕ → Option ℕ → Option ℕ
stamp wanted status now at = if is_journal status wanted then or_option at (some now) else at

-- The evidence is that of the row that was read, unless the caller gives another.
abbrev pub moved_entry : Entry → JournalStatus → JournalChanges → ℕ → Entry → Entry
moved_entry current status c now e = record e {
  status = status;
  evidence = or_else c.evidence current.evidence;
  last_error = c.last_error;
  updated_at = now;
  applied_at = stamp applied status now e.applied_at;
  recorded_at = stamp recorded status now e.recorded_at;
}

abbrev pub may_move : JournalStatus → JournalStatus → Bool
may_move from to = is_journal to from || journal_in (journal_moves from) to

abbrev pub move_found :
    String
    → JournalStatus
    → JournalChanges
    → ℕ
    → Journal
    → Option Entry
    → Result JournalError (Journal × Option Entry)
move_found id status c now j none = err not_found
move_found id status c now j (some current) =
    throw_if (not (may_move current.status status)) (transition_invalid current.status status)
    >>= λ _.
        let es = update_where (has_id id) (moved_entry current status c now) j.entries in
        let event : Event = record {
          entity_type = "integration";
          entity_id = id;
          event_type = String.◌++◌ "integration." (journal_spelling status);
        } in
        ok (record { entries = es; events = event ∷ j.events }, find (has_id id) es)

unfoldable pub transition_integration_journal :
    String
    → JournalStatus
    → JournalChanges
    → ℕ
    → Journal
    → Result JournalError (Journal × Option Entry)
transition_integration_journal id status c now j =
    move_found id status c now j (get_integration_journal id j)
