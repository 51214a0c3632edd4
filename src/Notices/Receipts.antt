-- ===== src/Notices/Receipts.antt =====
-- The receipts of notifications in src/registry.js: who has read which of them. SQL's LIKE is a
-- parameter, of a text and its pattern.
use Prim.Native.String
use codex_threadhub.Base.{
  ℕ, String, Bool, not, ◌&&◌, ◌||◌, Option, none, some, List, [], ◌∷◌, map, any, find, keep, length,
  take, leb, ◌=s=◌, or_else, is_none, if◌then◌else◌,
}
use codex_threadhub.Base.Sql.{holds, eq}
use codex_threadhub.Base.Table.{update_where}
use codex_threadhub.Base.Order.{order_by}
use codex_threadhub.Notices.{Notice, Board, is_given, has_dedupe_key, severity}

pub record Receipt : Type 0 where
  pub notification_id : String
  pub audience_id : String
  pub read_at : ℕ

pub record Inbox : Type 0 where
  pub board : Board
  pub receipts : List Receipt

abbrev pub has_id : String → Notice → Bool
has_id id n = n.id =s= id

-- The primary key of the receipts.
abbrev pub is_receipt : String → String → Receipt → Bool
is_receipt id audience r = r.notification_id =s= id && r.audience_id =s= audience

abbrev pub stamp_of : Option Receipt → Option ℕ
stamp_of none = none
stamp_of (some r) = some r.read_at

-- The LEFT JOIN: `r.read_at`, or NULL.
abbrev pub read_at : String → String → List Receipt → Option ℕ
read_at id audience rs = stamp_of (find (is_receipt id audience) rs)

-- `normalizeNotification` of a row of the join.
pub record ListedNotice : Type 0 where
  pub notice : Notice
  pub read : Option ℕ

abbrev pub joined_row : String → List Receipt → Notice → ListedNotice
joined_row audience rs n = record {
  notice = record n { severity = severity n.kind };
  read = read_at n.id audience rs;
}

pub record ListOptions : Type 0 where
  pub audience_id : Option String
  pub cwd : Option String
  pub run_id : Option String
  pub unread : Option Bool
  pub limit : Option ℕ

abbrev pub is_true : Option Bool → Bool
is_true none = Bool.false
is_true (some b) = b

abbrev pub put_receipt : String → String → ℕ → List Receipt → List Receipt
put_receipt id audience now rs =
    if any (is_receipt id audience) rs
    then update_where (is_receipt id audience) (λ r. record r { read_at = now }) rs
    else record { notification_id = id; audience_id = audience; read_at = now } ∷ rs

abbrev pub put_each : List Notice → String → ℕ → List Receipt → List Receipt
put_each [] audience now rs = rs
put_each (n ∷ ns) audience now rs = put_each ns audience now (put_receipt n.id audience now rs)

module _ (like : String → String → Bool) where
  -- The project itself, a project in it, or one that it is in.
  abbrev pub in_project : String → Notice → Bool
  in_project cwd n =
      n.project_key =s= cwd
      || like n.project_key (String.◌++◌ cwd "/%")
      || like cwd (String.◌++◌ n.project_key "/%")

  abbrev pub fits_options : ListOptions → String → List Receipt → Notice → Bool
  fits_options o audience rs n =
      (not (is_given o.cwd) || in_project (or_else o.cwd "") n)
      && (not (is_given o.run_id) || holds (eq n.run_id o.run_id))
      && (not (is_true o.unread) || is_none (read_at n.id audience rs))

  unfoldable pub list_notifications : ListOptions → Inbox → List ListedNotice
  unfolding order_by
  list_notifications o i =
      let audience = or_else o.audience_id "local" in
      map (joined_row audience i.receipts) (
        take (or_else o.limit 100) (
          order_by (λ n m. leb m.created_at n.created_at)
            (keep (fits_options o audience i.receipts) i.board.notices)))

  abbrev pub of_audience : String → ListOptions
  of_audience audience = record {
    audience_id = some audience;
    cwd = none;
    run_id = none;
    unread = none;
    limit = some 1000;
  }

  unfoldable pub mark_notification_read : String → String → ℕ → Inbox → Inbox × Option ListedNotice
  unfolding list_notifications
  mark_notification_read id audience now i =
      let j = record i { receipts = put_receipt id audience now i.receipts } in
      if any (has_id id) i.board.notices
      then (j, find (λ l. l.notice.id =s= id) (list_notifications (of_audience audience) j))
      else (i, none)

  abbrev pub mark_found : Option Notice → String → ℕ → Inbox → Inbox × Option ListedNotice
  mark_found none audience now i = (i, none)
  mark_found (some n) audience now i = mark_notification_read n.id audience now i

  unfoldable pub mark_notification_read_by_dedupe_key :
      String → String → ℕ → Inbox → Inbox × Option ListedNotice
  unfolding mark_notification_read
  mark_notification_read_by_dedupe_key key audience now i =
      mark_found (find (has_dedupe_key key) i.board.notices) audience now i

  -- The number of receipts that were written.
  unfoldable pub mark_project_notifications_read : String → String → ℕ → Inbox → Inbox × ℕ
  mark_project_notifications_read cwd audience now i =
      let ns = keep (in_project cwd) i.board.notices in
      (record i { receipts = put_each ns audience now i.receipts }, length ns)
