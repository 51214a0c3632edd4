-- ===== src/Runs/Gate.antt =====
-- A Run that `releaseStagedRun` of src/registry.js releases, and the clause on Global Runs of the
-- WHERE of `claimTask`. `assertGlobalTaskGate`, which `claimTask` asks before, is not part of it.
use mathlib.Core.List.{Memᴰ, not-mem-nil}
use codex_threadhub.Base.{
  ℕ, String, Bool, true, false, not, ◌&&◌, Option, none, some, List, [], ◌∷◌, any, Result, ok, err,
  throw_if, throw_if-eq_ok, ◌≡◌, refl, sym, subst, arith, find, ◌=s=◌, is_none, inl, inr,
  if◌then◌else◌, Bool-cases,
}
use codex_threadhub.Base.Sql.{holds, eq}
use codex_threadhub.Base.Table.{update_where, any-Memᴰ, find-eq_some}
use codex_threadhub.Registry.{Task, Revision, GlobalRun, Manifest, Registry}
use codex_threadhub.States.GlobalRun.{GlobalRunStatus, global_run_in}
use codex_threadhub.Tasks.Guards.{handoffs_received, is_current, gate_open}
use codex_threadhub.Runs.Rows.{
  Run, Store, RunError, id_required, release_fenced, handoff_not_received, get_run,
}
use codex_threadhub.Runs.Release.{
  names_revision, revision_of, is_at, global_run_of, is_manifest, manifest_of, is_releasable,
  check_revision, check_release, release_checked, release_staged_run,
}
use codex_threadhub.Runs.Events.{core, release_staged_run-core}

-- A call that returns has passed its checks.
release_checked-ok :
    (id : String) (now n : ℕ) (s : Store) (c : Result RunError (Unit {0}))
    → (release_checked id now s c).1 ≡ ok n
    → c ≡ ok tt
release_checked-ok id now n s (err x) e = cc e
release_checked-ok id now n s (ok tt) e = refl

release_staged_run-check :
    (id : String) (now n : ℕ) (s : Store)
    → (release_staged_run id now s).1 ≡ ok n
    → check_release s.registry id (get_run id s) ≡ ok tt
unfolding release_staged_run
release_staged_run-check id now n s e = go (id =s= "") e
  where
    c : Result RunError (Unit {0})
    c = check_release s.registry id (get_run id s)

    go :
        (b : Bool)
        → (if b then (s, err id_required) else release_checked id now s c).1 ≡ ok n
        → c ≡ ok tt
    go true e = cc e
    go false e = release_checked-ok id now n s c e

check_revision-ok :
    (r : Registry) (id : String) (run : Run) (v : Revision)
    → check_revision r id run (some v) ≡ ok tt
    → (is_releasable r id run v ≡ true) × (handoffs_received r v (some id) ≡ true)
check_revision-ok r id run v e =
    let (a, f) =
      throw_if-eq_ok (not (is_releasable r id run v)) release_fenced
        (throw_if (not (handoffs_received r v (some id))) handoff_not_received) e in
    (ground arith, go (handoffs_received r v (some id)) f)
  where
    go :
        (b : Bool)
        → ◌≡◌ {A = Result RunError (Unit {0})} (throw_if (not b) handoff_not_received) (ok tt)
        → b ≡ true
    go true f = refl
    go false f = cc f

abbrev pub under_way : List GlobalRunStatus
under_way = GlobalRunStatus.running ∷ GlobalRunStatus.waiting ∷ []

-- The registry once the Global Run of the id has the status.
abbrev pub with_global_status : String → GlobalRunStatus → Registry → Registry
with_global_status id status r = record r {
  global_runs = update_where (λ p. p.id =s= id) (λ p. record p { status = status }) r.global_runs;
}

any-updated :
    {A : Type 0} (q p : A → Bool) (f : A → A) (xs : List A) {x : A}
    → Memᴰ x xs
    → p x ≡ true
    → q (f x) ≡ true
    → any q (update_where p f xs) ≡ true
unfolding update_where
any-updated q p f [] m h k = absurd (not-mem-nil ∣ m ∣₁)
any-updated q p f (y ∷ xs) (Memᴰ.head e) h k =
    let here = subst (λ z. q (if p z then f z else z) ≡ true) e (rw h k) in ground arith
any-updated q p f (y ∷ xs) (Memᴰ.tail m) h k =
    let rest = any-updated q p f xs m h k in
    elim (Bool-cases (q (if p y then f y else y))) [ inl e ↦ rw e refl | inr e ↦ rw e rest ]

-- The Global Run that the release found is current once it is under way.
is_at-is_current :
    (v : Revision) (status : GlobalRunStatus) (runs : List GlobalRun) (o : Option GlobalRun)
    → find (λ (p : GlobalRun). p.id =s= v.global_run_id) runs ≡ o
    → global_run_in under_way status ≡ true
    → is_at v o ≡ true
    → any
        (is_current v)
        (update_where (λ p. p.id =s= v.global_run_id) (λ p. record p { status = status }) runs)
      ≡ true
is_at-is_current v status runs none f w h = cc h
is_at-is_current v status runs (some p) f w h =
    let (k, e) = find-eq_some (λ (p : GlobalRun). p.id =s= v.global_run_id) runs f in
    any-updated (is_current v) (λ p. p.id =s= v.global_run_id) (λ p. record p { status = status })
      runs k e (ground arith)

is_manifest-any :
    (run : Run) (t : Task) (v : Revision) (id : String) (ms : List Manifest) (o : Option Manifest)
    → ((m : Manifest)
        → o ≡ some m
        → Memᴰ m ms × ((m.revision_id =s= v.id && m.run_id =s= id) ≡ true))
    → t.run_id ≡ some id
    → t.metadata.global_manifest_fingerprint ≡ run.global_manifest_fingerprint
    → is_manifest run o ≡ true
    → any
        (λ m.
          m.revision_id =s= v.id
          && (holds (eq (some m.run_id) t.run_id)
              && holds (eq (some m.fingerprint) t.metadata.global_manifest_fingerprint)))
        ms
      ≡ true
is_manifest-any run t v id ms none f e g h = cc h
is_manifest-any run t v id ms (some m) f e g h =
    let (k, l) = f m refl in
    any-Memᴰ
      (λ m.
        m.revision_id =s= v.id
        && (holds (eq (some m.run_id) t.run_id)
            && holds (eq (some m.fingerprint) t.metadata.global_manifest_fingerprint)))
      ms k (rw (e, g) (ground arith))

-- What the metadata of a task of a Global Run repeats of its Run.
pub record IsMember (id : String) (run : Run) (t : Task) : Type 0 where
  pub of_run : t.run_id ≡ some id
  pub revision : t.metadata.global_run_revision_id ≡ run.global_run_revision_id
  pub graph : t.metadata.global_graph_fingerprint ≡ run.global_graph_fingerprint
  pub authorization :
      t.metadata.global_authorization_fingerprint ≡ run.global_authorization_fingerprint
  pub manifest : t.metadata.global_manifest_fingerprint ≡ run.global_manifest_fingerprint

-- The condition of the gate on a revision.
abbrev opens : Registry → Task → Revision → Bool
opens r t v =
    holds (eq (some v.id) t.metadata.global_run_revision_id)
    && (v.status =s= "validated"
        && (any (is_current v) r.global_runs
            && (holds (eq v.graph_fingerprint t.metadata.global_graph_fingerprint)
                && (holds (
                      eq (some v.authorization_fingerprint)
                        t.metadata.global_authorization_fingerprint)
                    && (any
                          (λ m.
                            m.revision_id =s= v.id
                            && (holds (eq (some m.run_id) t.run_id)
                                && holds (
                                    eq (some m.fingerprint)
                                      t.metadata.global_manifest_fingerprint)))
                          r.manifests
                        && handoffs_received r v t.run_id)))))

releasable-gate_open :
    (r : Registry) (id : String) (run : Run) (t : Task) (v : Revision) (status : GlobalRunStatus)
    → IsMember id run t
    → global_run_in under_way status ≡ true
    → revision_of r run ≡ some v
    → is_releasable r id run v ≡ true
    → handoffs_received r v (some id) ≡ true
    → gate_open (with_global_status v.global_run_id status r) t ≡ true
unfolding gate_open handoffs_received
releasable-gate_open r id run t v status m w f h k =
    let after = with_global_status v.global_run_id status r in
    let (l, e) =
      find-eq_some (λ v. holds (eq (some v.id) run.global_run_revision_id)) r.revisions f in
    let current =
      is_at-is_current v status r.global_runs (global_run_of r v) refl w (ground arith) in
    let signed =
      is_manifest-any run t v id r.manifests (manifest_of r v id)
        (λ x g.
          find-eq_some (λ (m : Manifest). m.revision_id =s= v.id && m.run_id =s= id) r.manifests g)
        m.of_run m.manifest (ground arith) in
    let q1 : holds (eq (some v.id) t.metadata.global_run_revision_id) ≡ true = rw m.revision e in
    let q2 : (v.status =s= "validated") ≡ true = ground arith in
    let q3 : holds (eq v.graph_fingerprint t.metadata.global_graph_fingerprint) ≡ true =
      rw m.graph (ground arith) in
    let q4 : holds
          (eq (some v.authorization_fingerprint) t.metadata.global_authorization_fingerprint)
        ≡ true =
      rw m.authorization (ground arith) in
    let q6 : handoffs_received r v t.run_id ≡ true = rw m.of_run k in
    let found =
      any-Memᴰ (opens after t) r.revisions l (rw (q1, q2, current, q3, q4, signed, q6) refl) in
    elim (Bool-cases (is_none t.metadata.global_run_revision_id)) [
      | inl y ↦ rw y refl
      | inr n ↦ rw n found
    ]

core-gate_open :
    (t : Task) (id : String) (status : GlobalRunStatus) (r u : Registry)
    → core u ≡ core r
    → gate_open (with_global_status id status r) t ≡ true
    → gate_open (with_global_status id status u) t ≡ true
unfolding gate_open handoffs_received
core-gate_open t id status r u e h =
    subst (λ (x : Registry). gate_open (with_global_status id status x) t ≡ true) (sym e) h

-- Where `releaseStagedRun` returns for a Run of a Global Run, each task that repeats the revision and
-- the fingerprints of the Run passes the clause of the WHERE of `claimTask` that reads the tables of
-- the Global Run, in the registry that the release leaves, once the Global Run of the revision has
-- the status `running` or `waiting`: as it is, or as `releaseGlobalRun` sets it after the releases.
pub release_staged_run-gate_open :
    (id : String) (now n : ℕ) (s : Store) (run : Run) (t : Task) (v : Revision)
    (status : GlobalRunStatus)
    → get_run id s ≡ some run
    → names_revision run ≡ true
    → revision_of s.registry run ≡ some v
    → (release_staged_run id now s).1 ≡ ok n
    → global_run_in under_way status ≡ true
    → IsMember id run t
    → gate_open
        (with_global_status v.global_run_id status (release_staged_run id now s).0.registry)
        t
      ≡ true
release_staged_run-gate_open id now n s run t v status f g o e w m =
    let r = s.registry in
    let passed =
      subst (λ o. check_release r id o ≡ ok tt) f (release_staged_run-check id now n s e) in
    let named =
      subst
        (λ (b : Bool). (if b then check_revision r id run (revision_of r run) else ok tt) ≡ ok tt) g
        passed in
    let of_v = subst (λ o. check_revision r id run o ≡ ok tt) o named in
    let (h, k) = check_revision-ok r id run v of_v in
    core-gate_open t v.global_run_id status r (release_staged_run id now s).0.registry
      (release_staged_run-core id now s) (releasable-gate_open r id run t v status m w o h k)
