-- ===== src/Notices.antt =====
-- src/notification-policy.js, and `createNotification` of src/registry.js. The random id is an
-- argument, and the metadata is its JSON text.
use codex_threadhub.Base.{
  ℕ, String, Bool, true, false, not, ◌&&◌, ◌||◌, Option, none, some, List, [], ◌∷◌, any, find,
  ◌=s=◌, or_else, or_option, if◌then◌else◌, Result, ok, err, ◌>>=◌, throw_if,
}
use Prim.Native.String
use codex_threadhub.Registry.{Event, FailureRecord, Task}
use codex_threadhub.Retry.{is_text, one_of}
use codex_threadhub.States.Task
use codex_threadhub.States.Task.{TaskStatus, is_task}
use codex_threadhub.States.Run
use codex_threadhub.States.Run.{RunStatus, is_run}
pub mod Once
pub mod Receipts
pub mod Read
mod Tests

pub data NoticeKind : Type 0 where
  completed failed attention_required policy_blocked : NoticeKind

abbrev pub kind_spelling : NoticeKind → String
kind_spelling completed = "completed"
kind_spelling failed = "failed"
kind_spelling attention_required = "attention_required"
kind_spelling policy_blocked = "policy_blocked"

-- `LEGACY_KIND_ALIASES`.
abbrev pub current_kind : String → String
current_kind kind =
    if kind =s= "run_completed"
    then "completed"
    else if kind =s= "run_failed"
    then "failed"
    else if kind =s= "approval_required" || kind =s= "recovery_attention"
    then "attention_required"
    else kind

-- The TypeErrors of an absent field and of an unknown kind.
pub data NoticeError : Type 0 where
  fields_required : NoticeError
  unsupported : String → NoticeError

abbrev canonical_kinds : List NoticeKind
canonical_kinds = completed ∷ failed ∷ attention_required ∷ policy_blocked ∷ []

abbrev found_kind : String → Option NoticeKind → Result NoticeError NoticeKind
found_kind kind none = err (unsupported kind)
found_kind kind (some k) = ok k

unfoldable pub normalize_notification_kind : String → Result NoticeError NoticeKind
normalize_notification_kind kind =
    found_kind kind (find (λ k. kind_spelling k =s= current_kind kind) canonical_kinds)

abbrev failed_by_policy : FailureRecord → Bool
failed_by_policy r = is_text r.failure.type "policy" || is_text r.failure.category "policy"

abbrev needs_hands : FailureRecord → Bool
needs_hands r =
    is_text r.next_action "manual_intervention" || is_text r.next_action "repair_contract"

abbrev has_failure : (FailureRecord → Bool) → Option FailureRecord → Bool
has_failure p none = false
has_failure p (some r) = p r

abbrev pub bars_policy : Task → Bool
bars_policy t =
    is_task t.status TaskStatus.blocked_by_policy || has_failure failed_by_policy t.metadata.failure

abbrev pub needs_attention : Task → Bool
needs_attention t =
    is_task t.status TaskStatus.integration_blocked
    || (is_task t.status TaskStatus.recovery_attention
        || has_failure needs_hands t.metadata.failure)

unfoldable pub classify_run_notification : RunStatus → List Task → Option NoticeKind
classify_run_notification run tasks =
    if is_run run RunStatus.completed
    then some completed
    else if not (is_run run RunStatus.failed)
    then none
    else if any bars_policy tasks
    then some policy_blocked
    else if any needs_attention tasks
    then some attention_required
    else some failed

-- `notificationPresentation`: the label and the severity.
abbrev pub label : NoticeKind → String
label completed = "완료"
label failed = "실패"
label attention_required = "판단 필요"
label policy_blocked = "정책 중단"

abbrev pub severity : NoticeKind → String
severity completed = "success"
severity failed = "error"
severity attention_required = "warning"
severity policy_blocked = "warning"

pub record Notice : Type 0 where
  pub id : String
  pub project_key : String
  pub run_id : Option String
  pub task_id : Option String
  pub kind : NoticeKind
  pub severity : String
  pub title : String
  pub body : String
  pub dedupe_key : String
  pub created_at : ℕ
  pub metadata : String

pub record NoticeInput : Type 0 where
  pub id : Option String
  pub project_key : Option String
  pub run_id : Option String
  pub task_id : Option String
  pub kind : Option String
  pub severity : Option String
  pub title : Option String
  pub body : Option String
  pub dedupe_key : Option String
  pub metadata : Option String

pub record Board : Type 0 where
  pub notices : List Notice
  pub events : List Event

abbrev pub is_given : Option String → Bool
is_given none = false
is_given (some s) = not (s =s= "")

abbrev pub has_dedupe_key : String → Notice → Bool
has_dedupe_key key n = n.dedupe_key =s= key

abbrev pub new_notice : NoticeInput → NoticeKind → String → String → ℕ → Notice
new_notice q kind id key now = record {
  id = id;
  project_key = or_else q.project_key "workspace";
  run_id = q.run_id;
  task_id = q.task_id;
  kind = kind;
  severity = or_else q.severity (severity kind);
  title = or_else q.title (label kind);
  body = or_else q.body "";
  dedupe_key = key;
  created_at = now;
  metadata = or_else q.metadata "{}";
}

-- `INSERT OR IGNORE`: neither the id nor the key may be taken.
abbrev pub insert_notice : Notice → Board → Board
insert_notice n b =
    if any (λ x. x.id =s= n.id || has_dedupe_key n.dedupe_key x) b.notices then b else record {
      notices = n ∷ b.notices;
      events =
          record {
            entity_type = "notification";
            entity_id = n.id;
            event_type = String.◌++◌ "notification." (kind_spelling n.kind);
          }
          ∷ b.events;
    }

abbrev pub with_row : String → Board → Board × Option Notice
with_row key b = (b, find (has_dedupe_key key) b.notices)

-- The row that is returned is that of the key, which an earlier notification may have left.
unfoldable pub create_notification :
    NoticeInput → String → ℕ → Board → Result NoticeError (Board × Option Notice)
unfolding normalize_notification_kind
create_notification q random now b =
    let key = or_else q.dedupe_key "" in
    throw_if (not (is_given q.kind) || not (is_given q.dedupe_key)) fields_required >>= λ _.
    normalize_notification_kind (or_else q.kind "") >>= λ kind.
    ok (with_row key (insert_notice (new_notice q kind (or_else q.id random) key now) b))
