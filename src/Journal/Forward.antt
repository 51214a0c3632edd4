-- ===== src/Journal/Forward.antt =====
-- What every history of the integration journal of src/registry.js keeps: the stamps of the entries
-- fit their statuses, and an entry that is recorded stays so.
use mathlib.Core.List.{Memᴰ}
use codex_threadhub.Base.{
  ℕ, ◌≤◌, ◌≡◌, refl, sym, ap, subst, subst⁻¹, ◌∙◌, String, Bool, true, false, Option, none, some,
  List, [], ◌∷◌, arith, any, All, All-map, All-Memᴰ, Bool-cases, eq_iff, inl, inr, find, ◌=s=◌,
  is_some, or_option,
}
use codex_threadhub.Base.Counts.{count, count_unique, count-update_where_le}
use codex_threadhub.Base.Table.{update_where, any-update_where, All-update_where, find-eq_some}
use codex_threadhub.Journal.{
  JournalStatus, prepared, applying, applied, recorded, is_journal, journal_in, may_move, Entry,
  Journal, EntryInput, JournalChanges, has_id, has_journal_key, new_entry, prepared_again, stamp,
  moved_entry,
}
use codex_threadhub.Journal.Calls.{JournalCall, run_journal, IsKept, run_journal-kept}

-- What the stamps of an entry say of its status.
abbrev pub HasStamps : JournalStatus → Option ℕ → Option ℕ → Type 0
HasStamps s applied_at recorded_at =
    (is_some applied_at ≡ journal_in (applied ∷ recorded ∷ []) s)
    × (is_some recorded_at ≡ is_journal s recorded)

abbrev pub IsStamped : Entry → Type 0
IsStamped e = HasStamps e.status e.applied_at e.recorded_at

-- The ids are unique, and the stamps of every entry fit its status.
abbrev pub IsValid : List Entry → Type 0
IsValid es = ((id : String) → count (has_id id) es ≤ 1) × All IsStamped es

stamped : (now : ℕ) (o : Option ℕ) → is_some (or_option o (some now)) ≡ true
stamped now none = refl
stamped now (some n) = refl

moved-HasStamps :
    (s t : JournalStatus) (now : ℕ) (a r : Option ℕ)
    → may_move s t ≡ true
    → HasStamps s a r
    → HasStamps t (stamp applied t now a) (stamp recorded t now r)
moved-HasStamps s prepared now a r h (p, q) = (p ∙ ground arith, q ∙ ground arith)
moved-HasStamps s applying now a r h (p, q) = (p ∙ ground arith, q ∙ ground arith)
moved-HasStamps s applied now a r h (p, q) = (stamped now a, q ∙ ground arith)
moved-HasStamps s recorded now a r h (p, q) = (p ∙ ground arith, stamped now r)

updated_ids :
    (p : Entry → Bool) (f : Entry → Entry) (es : List Entry)
    → ((e : Entry) → (f e).id ≡ e.id)
    → ((id : String) → count (has_id id) es ≤ 1)
    → (id : String) → count (has_id id) (update_where p f es) ≤ 1
updated_ids p f es same ids id =
    let less =
      count-update_where_le (has_id id) p f es
        (λ e w h. subst (λ z. (z =s= id) ≡ true) (same e) h) in
    let most = ids id in omega arith

unused : (id : String) (es : List Entry) → any (has_id id) es ≡ false → count (has_id id) es ≡ 0
unused id [] h = refl
unused id (x ∷ es) h = ground (arith, unused id es)

fresh_ids :
    (q : EntryInput) (now : ℕ) (es : List Entry)
    → ((id : String) → count (has_id id) es ≤ 1)
    → any (has_id q.id) es ≡ false
    → (id : String) → count (has_id id) (new_entry q now ∷ es) ≤ 1
fresh_ids q now es ids m id = elim (Bool-cases (q.id =s= id)) [
  | inl y ↦
      let none_yet = subst (λ k. count (has_id k) es ≡ 0) ((eq_iff _ _).0 y) (unused q.id es m) in
      rw y (omega arith)
  | inr n ↦ rw n (ids id)
]

module _ (id : String) (status : JournalStatus) (c : JournalChanges) (now : ℕ)
    (current : Entry) where
  moved_rows :
      (es ds : List Entry)
      → may_move current.status status ≡ true
      → ((e : Entry) → Memᴰ e ds → has_id id e ≡ true → e ≡ current)
      → All IsStamped ds
      → All IsStamped (update_where (has_id id) (moved_entry current status c now) ds)
  unfolding update_where
  moved_rows es [] ok_move only h = tt
  moved_rows es (e ∷ ds) ok_move only (h, hs) = (
    elim (Bool-cases (has_id id e)) [
      | inl y ↦
          let same = only e (Memᴰ.head refl) y in
          let moved =
            moved-HasStamps e.status status now e.applied_at e.recorded_at
              (subst⁻¹ (λ z. may_move z.status status ≡ true) same ok_move) h in
          rw y moved
      | inr n ↦ rw n h
    ],
    moved_rows es ds ok_move (λ x m. only x (Memᴰ.tail m)) hs,
  )

IsValid-IsKept : IsKept IsValid
IsValid-IsKept = record {
  again = λ q now es (ids, stamps). (
    updated_ids (has_journal_key q.journal_key) (prepared_again q now) es (λ e. refl) ids,
    All-update_where IsStamped (has_journal_key q.journal_key) (prepared_again q now) es
        (λ e p h. h) stamps,
  );
  fresh = λ q now es (ids, stamps) m. (fresh_ids q now es ids m, ((refl, refl), stamps));
  moved = λ id status c now current es e may (ids, stamps).
      let (listed, named) = find-eq_some (has_id id) es e in
      (
        updated_ids (has_id id) (moved_entry current status c now) es (λ x. refl) ids,
        moved_rows id status c now current es es may
            (λ x m at. count_unique (has_id id) es m listed at named (ids id)) stamps,
      );
}

-- An entry of the id is there, and every one is recorded since that time.
abbrev RecordedAt : String × ℕ → Entry → Type 0
RecordedAt (id, at) e =
    has_id id e ≡ true → (is_journal e.status recorded ≡ true) × (e.recorded_at ≡ some at)

abbrev pub IsRecorded : List Entry → String × ℕ → Type 0
IsRecorded es (id, at) = (any (has_id id) es ≡ true) × All (RecordedAt (id, at)) es

only_recorded :
    (s t : JournalStatus)
    → may_move s t ≡ true
    → is_journal s recorded ≡ true
    → is_journal t recorded ≡ true
only_recorded s t h k = ground arith

module _ (id : String) (at : ℕ) where
  updated-IsRecorded :
      (p : Entry → Bool) (f : Entry → Entry) (es : List Entry)
      → ((e : Entry) → (f e).id ≡ e.id)
      → ((e : Entry) → p e ≡ true → RecordedAt (id, at) e → RecordedAt (id, at) (f e))
      → IsRecorded es (id, at)
      → IsRecorded (update_where p f es) (id, at)
  updated-IsRecorded p f es same keeps (found, all) = (
    any-update_where (has_id id) p f es (λ e. ap (λ k. k =s= id) (same e)) ∙ found,
    All-update_where (RecordedAt (id, at)) p f es keeps all,
  )

  fresh-IsRecorded :
      (q : EntryInput) (now : ℕ) (es : List Entry)
      → IsRecorded es (id, at)
      → any (has_id q.id) es ≡ false
      → IsRecorded (new_entry q now ∷ es) (id, at)
  fresh-IsRecorded q now es (found, all) free = (
    rw found (ground arith),
    (
      (λ e.
          let other = subst⁻¹ (λ k. any (has_id k) es ≡ true) ((eq_iff q.id id).0 e) found in
          absurd (cc (other, free))),
      all,
    ),
  )

  moved-IsRecorded :
      (key : String) (status : JournalStatus) (c : JournalChanges) (now : ℕ) (current : Entry)
      (es : List Entry)
      → find (has_id key) es ≡ some current
      → may_move current.status status ≡ true
      → IsRecorded es (id, at)
      → IsRecorded (update_where (has_id key) (moved_entry current status c now) es) (id, at)
  moved-IsRecorded key status c now current es e may (found, all) =
      let (listed, named) = find-eq_some (has_id key) es e in
      updated-IsRecorded (has_id key) (moved_entry current status c now) es (λ x. refl)
        (λ x p k same.
          let (s, stamped) = k same in
          let one : key ≡ id = sym ((eq_iff x.id key).0 p) ∙ (eq_iff x.id id).0 same in
          let own = subst (λ z. (current.id =s= z) ≡ true) one named in
          let (t, _) = All-Memᴰ (RecordedAt (id, at)) es all listed own in
          let done = only_recorded current.status status may t in (done, rw (done, stamped) refl))
        (found, all)

-- Each entry of the list is recorded.
abbrev pub AllRecorded : List (String × ℕ) → List Entry → Type 0
AllRecorded known es = All (IsRecorded es) known

AllRecorded-IsKept : (known : List (String × ℕ)) → IsKept (AllRecorded known)
AllRecorded-IsKept known = record {
  again = λ q now es all.
      All-map (IsRecorded es)
        (IsRecorded (update_where (has_journal_key q.journal_key) (prepared_again q now) es)) known
        (λ k h.
          updated-IsRecorded k.0 k.1 (has_journal_key q.journal_key) (prepared_again q now) es
            (λ e. refl) (λ e p k. k) h)
        all;
  fresh = λ q now es all free.
      All-map (IsRecorded es) (IsRecorded (new_entry q now ∷ es)) known
        (λ k h. fresh-IsRecorded k.0 k.1 q now es h free) all;
  moved = λ key status c now current es e may all.
      All-map (IsRecorded es)
        (IsRecorded (update_where (has_id key) (moved_entry current status c now) es)) known
        (λ k h. moved-IsRecorded k.0 k.1 key status c now current es e may h) all;
}

-- Whatever is prepared, prepared again and moved, in any order and at any times, the entries keep
-- unique ids and their stamps: an entry has the time at which it was applied if and only if it is
-- applied or recorded, and the time at which it was recorded if and only if it is recorded. Each of
-- the known entries, which were recorded at the start, is still there, recorded since the same time.
pub run_journal-IsValid :
    (known : List (String × ℕ)) (cs : List JournalCall) (j : Journal)
    → IsValid j.entries
    → AllRecorded known j.entries
    → IsValid (run_journal cs j).entries × AllRecorded known (run_journal cs j).entries
run_journal-IsValid known cs j v all = (
  run_journal-kept IsValid IsValid-IsKept cs j v,
  run_journal-kept (AllRecorded known) (AllRecorded-IsKept known) cs j all,
)
