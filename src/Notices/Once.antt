-- ===== src/Notices/Once.antt =====
-- A notification is recorded once for its key, and a Run is notified of by how it ended.
use codex_threadhub.Base.{
  ℕ, ◌≡◌, ◌↔◌, refl, ap, subst, subst⁻¹, ◌∙◌, String, true, false, not, ◌||◌, Option, some, List,
  [], ◌∷◌, arith, any, Bool-cases, inl, inr, find, ◌=s=◌, or_else, ok, throw_if, bind-eq_ok, sym,
}
use codex_threadhub.Registry.{Task}
use codex_threadhub.States.Run.{RunStatus, is_run}
use codex_threadhub.Notices.{
  NoticeKind, completed, attention_required, policy_blocked, fields_required, Notice, NoticeInput,
  Board, is_given, has_dedupe_key, with_row, new_notice, insert_notice, normalize_notification_kind,
  create_notification, bars_policy, needs_attention, classify_run_notification,
}

found_any :
    (key : String) (ns : List Notice) {n : Notice}
    → find (has_dedupe_key key) ns ≡ some n
    → any (has_dedupe_key key) ns ≡ true
found_any key [] h = cc
found_any key (x ∷ ns) {n = m} h = elim (Bool-cases (has_dedupe_key key x)) [
  | inl y ↦ rw y refl
  | inr n ↦ rw n (found_any key ns {n = m} (ground arith))
]

taken_any :
    (m : Notice) (ns : List Notice)
    → any (has_dedupe_key m.dedupe_key) ns ≡ true
    → any (λ x. x.id =s= m.id || has_dedupe_key m.dedupe_key x) ns ≡ true
taken_any m [] h = cc
taken_any m (x ∷ ns) h = elim (Bool-cases (has_dedupe_key m.dedupe_key x)) [
  | inl y ↦ rw y (ground arith)
  | inr n ↦ let rest = taken_any m ns (ground arith) in ground arith
]

insert_notice_known :
    (m : Notice) (b : Board)
    → any (has_dedupe_key m.dedupe_key) b.notices ≡ true
    → insert_notice m b ≡ b
insert_notice_known m b h = rw (taken_any m b.notices h)

-- What a call that returns has done.
create_notification_ok :
    (q : NoticeInput) (random : String) (now : ℕ) (b : Board) {x : Board × Option Notice}
    → create_notification q random now b ≡ ok x
    → (k : NoticeKind) × (x
        ≡ with_row
            (or_else q.dedupe_key "")
            (insert_notice (new_notice q k (or_else q.id random) (or_else q.dedupe_key "") now) b))
unfolding create_notification
create_notification_ok q random now b h =
    let (u, given, named) =
      bind-eq_ok (throw_if (not (is_given q.kind) || not (is_given q.dedupe_key)) fields_required) _
        h in
    let (k, known, done) = bind-eq_ok (normalize_notification_kind (or_else q.kind "")) _ named in
    (k, cc (sym done))

known_again :
    (m m' : Notice) (key : String) (b b' b'' : Board) {n : Notice} {o : Option Notice}
    → m.dedupe_key ≡ key
    → m'.dedupe_key ≡ key
    → (b', some n) ≡ with_row key (insert_notice m b)
    → (b'', o) ≡ with_row key (insert_notice m' b')
    → (b'' ≡ b') × (o ≡ some n)
known_again m m' key b b' b'' {n} {o} e e' h h' =
    let found : find (has_dedupe_key key) b'.notices ≡ some n =
      subst⁻¹ (λ z. find (has_dedupe_key key) z.notices ≡ some n) (ap (λ z. z.0) h)
        (sym (ap (λ z. z.1) h)) in
    let known =
      subst⁻¹ (λ z. any (has_dedupe_key z) b'.notices ≡ true) e' (found_any key b'.notices found) in
    let kept = insert_notice_known m' b' known in
    let same = ap (λ z. z.0) h' ∙ kept in
    (same, ap (λ z. z.1) h' ∙ ap (λ z. find (has_dedupe_key key) z.notices) kept ∙ found)

-- A notification whose key is known changes nothing, and returns the one that was recorded.
pub create_notification_once :
    (q q' : NoticeInput) (random random' : String) (now now' : ℕ) (b b' b'' : Board) (n : Notice)
    (o : Option Notice)
    → q'.dedupe_key ≡ q.dedupe_key
    → create_notification q random now b ≡ ok (b', some n)
    → create_notification q' random' now' b' ≡ ok (b'', o)
    → (b'' ≡ b') × (o ≡ some n)
create_notification_once q q' random random' now now' b b' b'' n o same h h' =
    let (k, e) = create_notification_ok q random now b h in
    let (k', e') = create_notification_ok q' random' now' b' h' in
    let key = or_else q.dedupe_key "" in
    known_again (new_notice q k (or_else q.id random) key now)
      (new_notice q' k' (or_else q'.id random') (or_else q'.dedupe_key "") now') key b b' b'' refl
      (ap (λ z. or_else z "") same) e
      (subst
        (λ z.
          (b'', o)
          ≡ with_row z (
              insert_notice
                (new_notice q' k' (or_else q'.id random') (or_else q'.dedupe_key "") now') b'))
        (ap (λ z. or_else z "") same) e')

-- A Run is reported as completed exactly when it is, as stopped by policy exactly when it failed and
-- a task was stopped so, and as wanting attention exactly when it failed, no task was stopped by
-- policy and one wants attention.
pub classify_run_notification_iff :
    (run : RunStatus) (tasks : List Task)
    → ((classify_run_notification run tasks ≡ some completed)
        ↔ (is_run run RunStatus.completed ≡ true))
      × ((classify_run_notification run tasks ≡ some policy_blocked)
          ↔ ((run ≡ RunStatus.failed) × (any bars_policy tasks ≡ true)))
      × ((classify_run_notification run tasks ≡ some attention_required) ↔ (
          (run ≡ RunStatus.failed)
          × (any bars_policy tasks ≡ false)
          × (any needs_attention tasks ≡ true)))
unfolding classify_run_notification
classify_run_notification_iff run tasks = ground arith
