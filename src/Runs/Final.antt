-- ===== src/Runs/Final.antt =====
-- A Run that has ended keeps its status.
use mathlib.Core.List.{Memᴰ}
use codex_threadhub.Base.{
  ℕ, String, Bool, true, not, ◌&&◌, Option, none, some, List, or_else, ok, ◌≡◌, refl, sym, subst,
  ◌∙◌, arith, All, All-Memᴰ, Bool-cases, inl, inr,
}
use codex_threadhub.Base.Ensures.{Ensures, Ensures-ok, Ensures-err, Ensures-then, ensures_rules}
use codex_threadhub.Base.Table.{update_where, find-eq_some, All-update_where}
use codex_threadhub.States.Machine.{Options, same→eq, same, move}
use codex_threadhub.States.Run.{RunStatus, is_run, is_terminal_run, move_run, run_machine}
use codex_threadhub.Runs.Rows.{
  Run, Store, RunChanges, has_id, get_run, changed_run, check_status, write_run, update_found,
  update_run, archived_run, archive_found, archive_run, unarchive_found, unarchive_run,
}

-- From a status that has ended, a plain change leads to itself.
ended_stays :
    (from to : RunStatus) (options : Options)
    → is_terminal_run from ≡ true
    → (not options.allow_repair && not options.allow_sync) ≡ true
    → check_status from to options ≡ ok tt
    → to ≡ from
unfolding check_status move_run move
ended_stays RunStatus.completed to options h plain e =
    same→eq run_machine to RunStatus.completed (ground arith)
ended_stays from to options h plain e = same→eq run_machine to from (ground arith)

-- The Run of this id has this status.
abbrev pub HasStatus : String → RunStatus → Run → Type 0
HasStatus id status run = has_id id run ≡ true → run.status ≡ status

-- The same of every Run of the store that a call returns.
abbrev pub Kept : {A : Type 0} → String → RunStatus → Store × A → Type 0
Kept id status p = All (HasStatus id status) p.0.runs

write_run-runs :
    (existing : Run) (status : RunStatus) (row : Run) (s : Store)
    → (write_run existing status row s).runs ≡ update_where (has_id existing.id) (λ _. row) s.runs
write_run-runs existing status row s = elim (Bool-cases (is_run status existing.status)) [
  | inl y ↦ rw y refl
  | inr n ↦ rw n refl
]

module _ (id : String) (st : RunStatus) (ended : is_terminal_run st ≡ true) where
  -- A row that a plain update writes over one with this status has it too.
  written-HasStatus :
      (c : RunChanges) (options : Options) (now : ℕ) (run : Run)
      → (not options.allow_repair && not options.allow_sync) ≡ true
      → check_status run.status (or_else c.status run.status) options ≡ ok tt
      → HasStatus id st run
      → HasStatus id st (changed_run c (or_else c.status run.status) now run)
  written-HasStatus c options now run plain e h same =
      let e' = h same in
      ended_stays run.status (or_else c.status run.status) options
        (subst (λ x. is_terminal_run x ≡ true) (sym e') ended) plain e
      ∙ e'

  -- The row that was found, and what is written over it.
  write_run-HasStatus :
      (status : RunStatus) (written run : Run) (s : Store)
      → HasStatus id st written
      → All (HasStatus id st) s.runs
      → All (HasStatus id st) (write_run run status written s).runs
  write_run-HasStatus status written run s h a =
      subst (All (HasStatus id st)) (sym (write_run-runs run status written s))
        (All-update_where (HasStatus id st) (has_id run.id) (λ _. written) s.runs (λ _ _ _. h) a)

  update_found-Ensures :
      (o : Option Run) (c : RunChanges) (options : Options) (now : ℕ) (s : Store)
      → (not options.allow_repair && not options.allow_sync) ≡ true
      → All (HasStatus id st) s.runs
      → ((run : Run) → o ≡ some run → Memᴰ run s.runs)
      → Ensures (Kept id st) (update_found c options now s o)
  update_found-Ensures none c options now s plain a m = Ensures-err _
  update_found-Ensures (some run) c options now s plain a m =
      let status = or_else c.status run.status in
      let written = changed_run c status now run in
      let same = All-Memᴰ (HasStatus id st) s.runs a (m run refl) in
      Ensures-then (check_status run.status status options)
        (λ _. ok (write_run run status written s, written))
        (λ _ check. Ensures-ok _ (
          write_run-HasStatus status written run s
            (written-HasStatus c options now run plain check same) a))

  pub update_run-Ensures :
      (key : String) (c : RunChanges) (options : Options) (now : ℕ) (s : Store)
      → (not options.allow_repair && not options.allow_sync) ≡ true
      → All (HasStatus id st) s.runs
      → Ensures (Kept id st) (update_run key c options now s)
  unfolding update_run
  update_run-Ensures key c options now s plain a =
      update_found-Ensures (get_run key s) c options now s plain a
        (λ run f. (find-eq_some (has_id key) s.runs f).0)

  -- Archiving changes neither the id nor the status.
  archived-HasStatus :
      (p : Run → Bool) (at : Option ℕ) (now : ℕ) (runs : List Run)
      → All (HasStatus id st) runs
      → All (HasStatus id st) (update_where p (archived_run at now) runs)
  archived-HasStatus p at now runs a =
      All-update_where (HasStatus id st) p (archived_run at now) runs (λ _ _ h. h) a

  archive_found-Ensures :
      (o : Option Run) (now : ℕ) (s : Store)
      → All (HasStatus id st) s.runs
      → Ensures (Kept id st) (archive_found now s o)
  archive_found-Ensures none now s a = search ensures_rules
  archive_found-Ensures (some run) now s a = search (ensures_rules, archived-HasStatus)

  unarchive_found-Ensures :
      (o : Option Run) (now : ℕ) (s : Store)
      → All (HasStatus id st) s.runs
      → Ensures (Kept id st) (unarchive_found now s o)
  unarchive_found-Ensures none now s a = search ensures_rules
  unarchive_found-Ensures (some run) now s a = search (ensures_rules, archived-HasStatus)

  pub archive_run-Ensures :
      (key : String) (now : ℕ) (s : Store)
      → All (HasStatus id st) s.runs
      → Ensures (Kept id st) (archive_run key now s)
  unfolding archive_run
  archive_run-Ensures key now s a = archive_found-Ensures (get_run key s) now s a

  pub unarchive_run-Ensures :
      (key : String) (now : ℕ) (s : Store)
      → All (HasStatus id st) s.runs
      → Ensures (Kept id st) (unarchive_run key now s)
  unfolding unarchive_run
  unarchive_run-Ensures key now s a = unarchive_found-Ensures (get_run key s) now s a
