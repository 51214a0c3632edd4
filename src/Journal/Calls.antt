-- ===== src/Journal/Calls.antt =====
-- The histories of the integration journal of src/registry.js, and what all of them keep.
use codex_threadhub.Base.{
  ℕ, ◌≡◌, refl, String, true, false, not, Option, none, some, List, [], ◌∷◌, arith, any, find,
  Result, ok, err, ◌>>=◌,
}
use codex_threadhub.Base.Ensures.{Ensures, Ensures-ok, Ensures-bind, ensures_rules}
use codex_threadhub.Base.Table.{update_where}
use codex_threadhub.Journal.{
  JournalStatus, may_move, Entry, Journal, EntryInput, JournalChanges, JournalError, has_id,
  has_journal_key, new_entry, prepared_again, insert_entry, prepare_integration_journal,
  moved_entry, move_found, transition_integration_journal, get_integration_journal,
}

pub data JournalCall : Type 0 where
  prepares : EntryInput → ℕ → JournalCall
  moves : String → JournalStatus → JournalChanges → ℕ → JournalCall

-- A call that throws changes nothing.
abbrev pub settled : Journal → Result JournalError (Journal × Option Entry) → Journal
settled j (ok x) = x.0
settled j (err e) = j

unfoldable pub run_journal_call : JournalCall → Journal → Journal
unfolding prepare_integration_journal transition_integration_journal
run_journal_call (JournalCall.prepares q now) j = settled j (prepare_integration_journal q now j)
run_journal_call (JournalCall.moves id status c now) j =
    settled j (transition_integration_journal id status c now j)

unfoldable pub run_journal : List JournalCall → Journal → Journal
unfolding run_journal_call
run_journal [] j = j
run_journal (c ∷ cs) j = run_journal cs (run_journal_call c j)

-- Each way to write the table keeps the property.
pub record IsKept (P : List Entry → Type 0) : Type 0 where
  pub again :
      (q : EntryInput) (now : ℕ) (es : List Entry)
      → P es
      → P (update_where (has_journal_key q.journal_key) (prepared_again q now) es)
  pub fresh :
      (q : EntryInput) (now : ℕ) (es : List Entry)
      → P es
      → any (has_id q.id) es ≡ false
      → P (new_entry q now ∷ es)
  pub moved :
      (id : String) (status : JournalStatus) (c : JournalChanges) (now : ℕ) (current : Entry)
      (es : List Entry)
      → find (has_id id) es ≡ some current
      → may_move current.status status ≡ true
      → P es
      → P (update_where (has_id id) (moved_entry current status c now) es)

module _ (P : List Entry → Type 0) (keeps : IsKept P) where
  -- The entries that a call returns.
  abbrev Keeps : Journal × Option Entry → Type 0
  Keeps x = P x.0.entries

  settled-kept :
      (j : Journal) (r : Result JournalError (Journal × Option Entry))
      → P j.entries
      → Ensures Keeps r
      → P (settled j r).entries
  settled-kept j (ok x) v h = h.at x refl
  settled-kept j (err e) v h = v

  insert_entry-Ensures :
      (q : EntryInput) (now : ℕ) (es : List Entry) → P es → Ensures P (insert_entry q now es)
  insert_entry-Ensures q now es v =
      search (ensures_rules, keeps.again q now es v, keeps.fresh q now es v)

  prepare_integration_journal-Ensures :
      (q : EntryInput) (now : ℕ) (j : Journal)
      → P j.entries
      → Ensures Keeps (prepare_integration_journal q now j)
  unfolding prepare_integration_journal
  prepare_integration_journal-Ensures q now j v = search (ensures_rules, stored)
    where
      stored : Ensures Keeps (
          insert_entry q now j.entries >>= λ es.
          ok (record j { entries = es }, find (has_journal_key q.journal_key) es))
      stored =
          Ensures-bind (insert_entry q now j.entries)
            (λ es. ok (record j { entries = es }, find (has_journal_key q.journal_key) es))
            (insert_entry-Ensures q now j.entries v) (λ es k. Ensures-ok _ k)

  move_found-Ensures :
      (id : String) (status : JournalStatus) (c : JournalChanges) (now : ℕ) (j : Journal)
      (o : Option Entry)
      → find (has_id id) j.entries ≡ o
      → P j.entries
      → Ensures Keeps (move_found id status c now j o)
  move_found-Ensures id status c now j none e v = search ensures_rules
  move_found-Ensures id status c now j (some current) e v = search (ensures_rules, written)
    where
      written :
          not (may_move current.status status) ≡ false
          → P (update_where (has_id id) (moved_entry current status c now) j.entries)
      written y = keeps.moved id status c now current j.entries e (ground arith) v

  -- What the writes keep, every history keeps.
  pub run_journal-kept :
      (cs : List JournalCall) (j : Journal) → P j.entries → P (run_journal cs j).entries
  unfolding run_journal run_journal_call transition_integration_journal
  run_journal-kept [] j v = v
  run_journal-kept (JournalCall.prepares q now ∷ cs) j v =
      run_journal-kept cs (settled j (prepare_integration_journal q now j))
        (settled-kept j _ v (prepare_integration_journal-Ensures q now j v))
  run_journal-kept (JournalCall.moves id status c now ∷ cs) j v =
      run_journal-kept cs (settled j (move_found id status c now j (get_integration_journal id j)))
        (settled-kept j _ v
          (move_found-Ensures id status c now j (get_integration_journal id j) refl v))
