-- ===== src/Runs/Calls.antt =====
-- The calls on Runs as one type. A call that throws leaves the tables as they were, but for a release,
-- which has been committed when the Run is updated.
use codex_threadhub.Base.{ℕ, String, Bool, true, not, ◌&&◌, List, [], ◌∷◌, Result, ok, err}
use codex_threadhub.States.Machine.{Options}
use codex_threadhub.Runs.Rows.{Store, RunError, RunChanges, update_run, archive_run, unarchive_run}
use codex_threadhub.Runs.Refresh.{refresh_run}
use codex_threadhub.Runs.Release.{release_staged_run}
use codex_threadhub.Runs.Prepared.{PreparationFailure, fail_prepared_run}

pub data RunCall : Type 0 where
  updates : (id : String) (changes : RunChanges) (options : Options) → RunCall
  refreshes : (id random : String) → RunCall
  archives unarchives releases : (id : String) → RunCall
  fails : (id : String) (failure : PreparationFailure) (random : String) → RunCall

abbrev pub kept {ℓ} : {A : Type ℓ} → Store → Result RunError (Store × A) → Store
kept s (ok (t, a)) = t
kept s (err e) = s

abbrev pub kept_store : Store → Result RunError Store → Store
kept_store s (ok t) = t
kept_store s (err e) = s

unfoldable pub run_run_call : RunCall → ℕ → Store → Store
unfolding update_run refresh_run archive_run unarchive_run fail_prepared_run release_staged_run
run_run_call (RunCall.updates id changes options) now s =
    kept s (update_run id changes options now s)
run_run_call (RunCall.refreshes id random) now s = kept s (refresh_run id random now s)
run_run_call (RunCall.archives id) now s = kept s (archive_run id now s)
run_run_call (RunCall.unarchives id) now s = kept s (unarchive_run id now s)
run_run_call (RunCall.releases id) now s = (release_staged_run id now s).0
run_run_call (RunCall.fails id failure random) now s =
    kept_store s (fail_prepared_run id failure random now s)

-- A history of calls, each with the time at which it is made.
unfoldable pub run_run_calls : List (RunCall × ℕ) → Store → Store
unfolding run_run_call
run_run_calls [] s = s
run_run_calls ((c, now) ∷ calls) s = run_run_calls calls (run_run_call c now s)

-- The caller does not ask to repair or to synchronise.
abbrev pub is_plain : RunCall → Bool
is_plain (RunCall.updates id changes options) = not options.allow_repair && not options.allow_sync
is_plain (RunCall.refreshes id random) = true
is_plain (RunCall.archives id) = true
is_plain (RunCall.unarchives id) = true
is_plain (RunCall.releases id) = true
is_plain (RunCall.fails id failure random) = true
