-- ===== src/Notices/Tests.antt =====
-- Notifications of a Run, and an instance of the theorem on their keys.
use codex_threadhub.Base.{◌≡◌, ◌≢◌, refl, String, Bool, true, none, some, [], ◌∷◌, ok, All, ◌=s=◌}
use codex_threadhub.Base.Table.{update_where}
use codex_threadhub.Base.Order.{order_by, insert_by}
use codex_threadhub.Notices.{
  completed, Notice, NoticeInput, Board, new_notice, normalize_notification_kind,
  create_notification,
}
use codex_threadhub.Notices.Receipts.{
  Inbox, ListOptions, read_at, list_notifications, mark_notification_read,
  mark_notification_read_by_dedupe_key, mark_project_notifications_read,
}
use codex_threadhub.Notices.Once.{create_notification_once}
use codex_threadhub.Notices.Read.{mark_notification_read-reads}

abbrev input : NoticeInput
input = record {
  id = none;
  project_key = some "p";
  run_id = some "r";
  task_id = none;
  kind = some "run_completed";
  severity = none;
  title = none;
  body = none;
  dedupe_key = some "r:completed";
  metadata = none;
}

abbrev notice : Notice
notice = new_notice input completed "n1" "r:completed" 5

abbrev board : Board
board = record {
  notices = notice ∷ [];
  events =
      record {
        entity_type = "notification";
        entity_id = "n1";
        event_type = "notification.completed";
      }
      ∷ [];
}

creates :
    create_notification input "n1" 5 (record { notices = []; events = [] })
    ≡ ok (board, some notice)
unfolding create_notification normalize_notification_kind
creates = refl

creates_again : create_notification input "n2" 9 board ≡ ok (board, some notice)
unfolding create_notification normalize_notification_kind
creates_again = refl

create_notification_once_example : (board ≡ board) × (some notice ≡ some notice)
create_notification_once_example =
    create_notification_once input input "n1" "n2" 5 9 (record { notices = []; events = [] }) board
      board notice (some notice) refl creates creates_again

-- One notification, which the web has read, and a reader who asks for what is unread.
abbrev inbox : Inbox
inbox = record {
  board = board;
  receipts = record { notification_id = "n1"; audience_id = "web"; read_at = 6 } ∷ [];
}

abbrev exact : String → String → Bool
exact text pattern = text =s= pattern

abbrev unread_of_local : ListOptions
unread_of_local = record {
  audience_id = some "local";
  cwd = some "p";
  run_id = some "r";
  unread = some true;
  limit = none;
}

unread_before :
    list_notifications exact unread_of_local inbox ≡ record { notice = notice; read = none } ∷ []
unfolding list_notifications order_by insert_by
unread_before = refl

unread_after :
    list_notifications exact unread_of_local (mark_notification_read exact "n1" "local" 9 inbox).0
    ≡ []
unfolding list_notifications order_by insert_by mark_notification_read
unread_after = refl

marked_by_key :
    mark_notification_read_by_dedupe_key exact "r:completed" "local" 9 inbox
    ≡ mark_notification_read exact "n1" "local" 9 inbox
unfolding mark_notification_read_by_dedupe_key
marked_by_key = refl

marked_project : mark_project_notifications_read exact "p" "web" 9 inbox ≡ (
  record inbox {
    receipts = record { notification_id = "n1"; audience_id = "web"; read_at = 9 } ∷ [];
  },
  1,
)
unfolding mark_project_notifications_read update_where
marked_project = refl

mark_notification_read-reads_example :
    (read_at "n1" "local" (mark_notification_read exact "n1" "local" 9 inbox).0.receipts ≡ some 9)
    × All
        (λ l. l.notice.id ≢ "n1")
        (list_notifications exact unread_of_local
          (mark_notification_read exact "n1" "local" 9 inbox).0)
    × (read_at "n1" "web" (mark_notification_read exact "n1" "local" 9 inbox).0.receipts
        ≡ read_at "n1" "web" inbox.receipts)
mark_notification_read-reads_example =
    mark_notification_read-reads exact "n1" "local" 9 inbox unread_of_local "n1" "web" refl refl
      refl refl
