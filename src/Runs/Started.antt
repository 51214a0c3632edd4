-- ===== src/Runs/Started.antt =====
-- A release leaves the Runs that have ended as they are.
use codex_threadhub.Base.{
  ℕ, String, Bool, true, false, Option, none, some, [], keep, length, Result, ok, err, ◌≡◌, refl,
  All, ◌=s=◌, if◌then◌else◌,
}
use codex_threadhub.Base.Ensures.{Ensures}
use codex_threadhub.States.Machine.{no_options}
use codex_threadhub.States.Run.{RunStatus, is_terminal_run}
use codex_threadhub.Runs.Rows.{Run, Store, RunError, id_required, get_run}
use codex_threadhub.Runs.Release.{
  staged_of, oldest_first, release_each, with_released, started, with_started, start_run,
  release_checked, check_release, release_staged_run,
}
use codex_threadhub.Runs.Final.{HasStatus, Kept, update_run-Ensures}

module _ (id : String) (st : RunStatus) (ended : is_terminal_run st ≡ true) where
  with_started-HasStatus :
      (s : Store) (n : ℕ) (r : Result RunError (Store × Run))
      → All (HasStatus id st) s.runs
      → Ensures (Kept id st) r
      → All (HasStatus id st) (with_started s n r).0.runs
  with_started-HasStatus s n (ok p) a h = h.at p refl
  with_started-HasStatus s n (err e) a h = a

  start_run-HasStatus :
      (key : String) (n now : ℕ) (s : Store) (o : Option Run)
      → All (HasStatus id st) s.runs
      → All (HasStatus id st) (start_run key n now s o).0.runs
  start_run-HasStatus key n now s none a = a
  start_run-HasStatus key n now s (some run) a =
      with_started-HasStatus s n _ a
        (update_run-Ensures id st ended key (started now) no_options now s refl a)

  release_checked-HasStatus :
      (key : String) (now : ℕ) (s : Store) (c : Result RunError (Unit {0}))
      → All (HasStatus id st) s.runs
      → All (HasStatus id st) (release_checked key now s c).0.runs
  release_checked-HasStatus key now s (err e) a = a
  release_checked-HasStatus key now s (ok _) a =
      let r = s.registry in
      let out = release_each r now (oldest_first (keep (staged_of key) r.tasks)) (r.tasks, []) in
      let t = with_released key out s in
      start_run-HasStatus key (length out.1) now t (get_run key t) a

  pub release_staged_run-HasStatus :
      (key : String) (now : ℕ) (s : Store)
      → All (HasStatus id st) s.runs
      → All (HasStatus id st) (release_staged_run key now s).0.runs
  unfolding release_staged_run
  release_staged_run-HasStatus key now s a = go (key =s= "")
    where
      late : Store × Result RunError ℕ
      late = release_checked key now s (check_release s.registry key (get_run key s))

      go : (b : Bool) → All (HasStatus id st) (if b then (s, err id_required) else late).0.runs
      go true = a
      go false =
          release_checked-HasStatus key now s (check_release s.registry key (get_run key s)) a
