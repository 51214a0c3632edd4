-- ===== src/Runs/Kept.antt =====
-- The same for the calls that derive the end of a Run, and for every history of calls.
use mathlib.Core.List.{Memᴰ}
use codex_threadhub.Base.{
  ℕ, String, true, false, Option, none, some, List, [], ◌∷◌, Result, ok, err, ◌>>=◌, ◌≡◌, refl, sym,
  subst, All, All-Memᴰ, ◌=s=◌, eq_iff,
}
use codex_threadhub.Base.Ensures.{
  Ensures, Ensures-ok, Ensures-err, Ensures-if, Ensures-then, Ensures-bind, ensures_rules,
}
use codex_threadhub.Base.Table.{update_where, find-eq_some, All-update_where}
use codex_threadhub.Registry.{Task, FailureRecord}
use codex_threadhub.Notices.{Board, Notice, NoticeKind, NoticeError, classify_run_notification}
use codex_threadhub.States.Machine.{no_options}
use codex_threadhub.States.Run.{RunStatus, is_run, is_terminal_run, move_run}
use codex_threadhub.Runs.Rows.{Run, Store, RunError, has_id, get_run, update_run, allowed}
use codex_threadhub.Runs.Refresh.{
  list_tasks, task_limit, end_changes, end_run, settle, refresh_found, refresh_run, notify_end,
  posted,
}
use codex_threadhub.Runs.Prepared.{
  PreparationFailure, check_each, failed_run, failed_store, preparation_record, fail_checked,
  fail_found, fail_prepared_run,
}
use codex_threadhub.Runs.Calls.{RunCall, kept, kept_store, run_run_call, run_run_calls, is_plain}
use codex_threadhub.Runs.Started.{release_staged_run-HasStatus}
use codex_threadhub.Runs.Final.{
  HasStatus, Kept, update_run-Ensures, archive_run-Ensures, unarchive_run-Ensures,
}

module _ (id : String) (st : RunStatus) (ended : is_terminal_run st ≡ true) where
  -- A notification leaves the Runs.
  posted-Ensures :
      (s : Store) (r : Result NoticeError (Board × Option Notice))
      → All (HasStatus id st) s.runs
      → Ensures (λ u. All (HasStatus id st) u.runs) (posted s r)
  posted-Ensures s (ok (board, row)) a = Ensures-ok _ a
  posted-Ensures s (err n) a = Ensures-err _

  notify_end-Ensures :
      (run : Run) (kind : Option NoticeKind) (random : String) (now : ℕ) (s : Store)
      → All (HasStatus id st) s.runs
      → Ensures (λ u. All (HasStatus id st) u.runs) (notify_end run kind random now s)
  unfolding notify_end
  notify_end-Ensures run none random now s a = Ensures-ok _ a
  notify_end-Ensures run (some kind) random now s a = posted-Ensures s _ a

  end_run-Ensures :
      (random : String) (now : ℕ) (s : Store) (run : Run) (status : RunStatus)
      → All (HasStatus id st) s.runs
      → Ensures (Kept id st) (end_run run status random now s)
  end_run-Ensures random now s run status a =
      let changes = end_changes status now in
      let notified = λ (p : Store × Run).
        notify_end p.1
          (classify_run_notification p.1.status (list_tasks run.id task_limit s.registry)) random
          now p.0 in
      Ensures-bind (update_run run.id changes no_options now s)
        (λ p. notified p >>= λ (v : Store). ok (v, some p.1))
        (update_run-Ensures id st ended run.id changes no_options now s refl a)
        (λ p h.
          Ensures-bind (notified p) (λ (v : Store). ok (v, some p.1))
            (notify_end-Ensures p.1 _ random now p.0 h) (λ v k. Ensures-ok _ k))

  settle-Ensures :
      (verdict : Option RunStatus) (random : String) (now : ℕ) (s : Store) (run : Run)
      → All (HasStatus id st) s.runs
      → Ensures (Kept id st) (settle run verdict random now s)
  settle-Ensures none random now s run a = Ensures-ok _ a
  settle-Ensures (some status) random now s run a =
      Ensures-if (is_run run.status status) _ _ (λ _. Ensures-ok _ a)
        (λ _. end_run-Ensures random now s run status a)

  refresh_found-Ensures :
      (o : Option Run) (random : String) (now : ℕ) (s : Store)
      → All (HasStatus id st) s.runs
      → Ensures (Kept id st) (refresh_found random now s o)
  refresh_found-Ensures none random now s a = Ensures-ok _ a
  refresh_found-Ensures (some run) random now s a =
      Ensures-if (is_terminal_run run.status) _ _ (λ _. Ensures-ok _ a)
        (λ _. settle-Ensures _ random now s run a)

  -- Only a Run that has not ended fails, so that it is another one.
  not_same_run :
      (run x : Run)
      → is_terminal_run run.status ≡ false
      → HasStatus id st run
      → has_id run.id x ≡ true
      → has_id id x ≡ true
      → ⊥
  not_same_run run x n h e k =
      let same = subst (λ y. (y =s= id) ≡ true) ((eq_iff x.id run.id).0 e) k in
      let ends = subst (λ y. is_terminal_run y ≡ true) (sym (h same)) ended in cc (ends, n)

  failed-HasStatus :
      (f : FailureRecord) (now : ℕ) (run : Run) (runs : List Run)
      → is_terminal_run run.status ≡ false
      → HasStatus id st run
      → All (HasStatus id st) runs
      → All (HasStatus id st) (update_where (has_id run.id) (failed_run f now) runs)
  failed-HasStatus f now run runs n h a =
      All-update_where (HasStatus id st) (has_id run.id) (failed_run f now) runs
        (λ x e _ k. absurd (not_same_run run x n h e k)) a

  fail_checked-Ensures :
      (p : PreparationFailure) (random : String) (now : ℕ) (s : Store) (run : Run)
      (tasks : List Task)
      → is_terminal_run run.status ≡ false
      → HasStatus id st run
      → All (HasStatus id st) s.runs
      → Ensures (λ u. All (HasStatus id st) u.runs) (fail_checked p random now s run tasks)
  fail_checked-Ensures p random now s run tasks n h a =
      let f = preparation_record p now in
      let written =
        posted-Ensures (failed_store f now run tasks s) _
          (failed-HasStatus f now run s.runs n h a) in
      Ensures-then (check_each tasks) _ (λ _ _.
        Ensures-then (allowed (move_run run.status RunStatus.failed no_options)) _ (λ _ _. written))

  fail_found-Ensures :
      (o : Option Run) (p : PreparationFailure) (random : String) (now : ℕ) (s : Store)
      → All (HasStatus id st) s.runs
      → ((run : Run) → o ≡ some run → Memᴰ run s.runs)
      → Ensures (λ u. All (HasStatus id st) u.runs) (fail_found p random now s o)
  fail_found-Ensures none p random now s a m = Ensures-err _
  fail_found-Ensures (some run) p random now s a m =
      let tasks = list_tasks run.id task_limit s.registry in
      let same = All-Memᴰ (HasStatus id st) s.runs a (m run refl) in
      search (ensures_rules, fail_checked-Ensures p random now s run tasks)

  -- A call that throws changes nothing.
  kept-HasStatus :
      {A : Type 0} (s : Store) (r : Result RunError (Store × A))
      → All (HasStatus id st) s.runs
      → Ensures (Kept id st) r
      → All (HasStatus id st) (kept s r).runs
  kept-HasStatus s (ok p) a h = h.at p refl
  kept-HasStatus s (err e) a h = a

  kept_store-HasStatus :
      (s : Store) (r : Result RunError Store)
      → All (HasStatus id st) s.runs
      → Ensures (λ u. All (HasStatus id st) u.runs) r
      → All (HasStatus id st) (kept_store s r).runs
  kept_store-HasStatus s (ok u) a h = h.at u refl
  kept_store-HasStatus s (err e) a h = a

  run_run_call-HasStatus :
      (c : RunCall) (now : ℕ) (s : Store)
      → is_plain c ≡ true
      → All (HasStatus id st) s.runs
      → All (HasStatus id st) (run_run_call c now s).runs
  unfolding run_run_call refresh_run fail_prepared_run
  run_run_call-HasStatus (RunCall.updates key c o) now s p a =
      kept-HasStatus s _ a (update_run-Ensures id st ended key c o now s p a)
  run_run_call-HasStatus (RunCall.refreshes key random) now s p a =
      kept-HasStatus s _ a (refresh_found-Ensures (get_run key s) random now s a)
  run_run_call-HasStatus (RunCall.archives key) now s p a =
      kept-HasStatus s _ a (archive_run-Ensures id st ended key now s a)
  run_run_call-HasStatus (RunCall.unarchives key) now s p a =
      kept-HasStatus s _ a (unarchive_run-Ensures id st ended key now s a)
  run_run_call-HasStatus (RunCall.releases key) now s p a =
      release_staged_run-HasStatus id st ended key now s a
  run_run_call-HasStatus (RunCall.fails key failure random) now s p a = kept_store-HasStatus s _ a (
      fail_found-Ensures (get_run key s) failure random now s a
        (λ run f. (find-eq_some (has_id key) s.runs f).0))

-- A Run that has ended keeps its status through every history of calls, whatever they fail with,
-- none of which asks to repair or to synchronise.
pub run_run_calls-HasStatus :
    (id : String) (status : RunStatus) (calls : List (RunCall × ℕ)) (s : Store)
    → is_terminal_run status ≡ true
    → All (λ c. is_plain c.0 ≡ true) calls
    → All (HasStatus id status) s.runs
    → All (HasStatus id status) (run_run_calls calls s).runs
unfolding run_run_calls
run_run_calls-HasStatus id status [] s ended p a = a
run_run_calls-HasStatus id status ((c, now) ∷ calls) s ended (p, ps) a =
    run_run_calls-HasStatus id status calls (run_run_call c now s) ended ps
      (run_run_call-HasStatus id status ended c now s p a)
