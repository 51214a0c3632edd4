-- ===== src/Notices/Read.antt =====
-- What marking a notification as read does to the receipts and to the lists.
use codex_threadhub.Base.{
  ℕ, String, Bool, true, false, ◌&&◌, Option, some, List, [], ◌∷◌, map, any, keep, ◌=s=◌, or_else,
  is_none, ◌≡◌, ◌≢◌, refl, sym, subst, arith, All, Bool-cases, inl, inr, eq_iff, eq_refl,
}
use codex_threadhub.Base.Members.{All-take, All-keep, All_of_Memᴰ}
use codex_threadhub.Base.Table.{update_where}
use codex_threadhub.Base.Order.{All-order_by}
use codex_threadhub.Notices.{Notice}
use codex_threadhub.Notices.Receipts.{
  Receipt, Inbox, has_id, is_receipt, read_at, joined_row, ListOptions, is_true, put_receipt,
  fits_options, list_notifications, mark_notification_read,
}

abbrev stamped : ℕ → Receipt → Receipt
stamped now r = record r { read_at = now }

read_at-update :
    (id audience : String) (now : ℕ) (rs : List Receipt)
    → any (is_receipt id audience) rs ≡ true
    → read_at id audience (update_where (is_receipt id audience) (stamped now) rs) ≡ some now
unfolding update_where
read_at-update id audience now [] h = cc h
read_at-update id audience now (r ∷ rs) h = elim (Bool-cases (is_receipt id audience r)) [
  | inl y ↦ rw (y, y) refl
  | inr n ↦ rw (n, n) (read_at-update id audience now rs (ground arith))
]

-- The reader's own receipt has the time of the call.
read_at-put :
    (id audience : String) (now : ℕ) (rs : List Receipt)
    → read_at id audience (put_receipt id audience now rs) ≡ some now
read_at-put id audience now rs = elim (Bool-cases (any (is_receipt id audience) rs)) [
  | inl y ↦ rw y (read_at-update id audience now rs y)
  | inr n ↦ rw (n, eq_refl id, eq_refl audience) refl
]

read_at-update_other :
    (id audience id' audience' : String) (now : ℕ) (rs : List Receipt)
    → (id =s= id' && audience =s= audience') ≡ false
    → read_at id' audience' (update_where (is_receipt id audience) (stamped now) rs)
      ≡ read_at id' audience' rs
unfolding update_where
read_at-update_other id audience id' audience' now [] h = refl
read_at-update_other id audience id' audience' now (r ∷ rs) h =
    let rest = read_at-update_other id audience id' audience' now rs h in
    elim (Bool-cases (is_receipt id audience r)) [
      | inl y ↦
          let own : r.notification_id ≡ id = (eq_iff r.notification_id id).0 (ground arith) in
          let mine : r.audience_id ≡ audience = (eq_iff r.audience_id audience).0 (ground arith) in
          let off : is_receipt id' audience' r ≡ false = rw (own, mine) h in rw (y, off) rest
      | inr n ↦ elim (Bool-cases (is_receipt id' audience' r)) [
        | inl z ↦ rw (n, z) refl
        | inr z ↦ rw (n, z) rest
      ]
    ]

read_at-put_other :
    (id audience id' audience' : String) (now : ℕ) (rs : List Receipt)
    → (id =s= id' && audience =s= audience') ≡ false
    → read_at id' audience' (put_receipt id audience now rs) ≡ read_at id' audience' rs
read_at-put_other id audience id' audience' now rs h =
    elim (Bool-cases (any (is_receipt id audience) rs)) [
      | inl y ↦ rw y (read_at-update_other id audience id' audience' now rs h)
      | inr n ↦ rw (n, h) refl
    ]

mapped-All :
    {A B : Type 0} (P : B → Type 0) (f : A → B) (xs : List A)
    → All (λ x. P (f x)) xs
    → All P (map f xs)
mapped-All P f [] a = tt
mapped-All P f (x ∷ xs) (h, hs) = (h, mapped-All P f xs hs)

module _ (like : String → String → Bool) where
  -- An unread notification has no receipt of the reader.
  list_notifications-unread :
      (o : ListOptions) (id : String) (at : ℕ) (i : Inbox)
      → o.unread ≡ some true
      → read_at id (or_else o.audience_id "local") i.receipts ≡ some at
      → All (λ l. l.notice.id ≢ id) (list_notifications like o i)
  unfolding list_notifications
  list_notifications-unread o id at i u r =
      let audience = or_else o.audience_id "local" in
      let fits = fits_options like o audience i.receipts in
      mapped-All (λ l. l.notice.id ≢ id) (joined_row audience i.receipts) _
        (All-take (λ n. n.id ≢ id) (or_else o.limit 100) _
          (All-order_by _ (λ n. n.id ≢ id) (keep fits i.board.notices)
            (All-keep (λ n. n.id ≢ id) fits i.board.notices
              (All_of_Memᴰ _ i.board.notices (λ n m shown same. hidden n (passed n shown) same)))))
    where
      passed :
          (n : Notice)
          → fits_options like o (or_else o.audience_id "local") i.receipts n ≡ true
          → is_none (read_at n.id (or_else o.audience_id "local") i.receipts) ≡ true
      passed n shown = let on : is_true o.unread ≡ true = rw u refl in ground arith

      hidden :
          (n : Notice)
          → is_none (read_at n.id (or_else o.audience_id "local") i.receipts) ≡ true
          → n.id ≡ id
          → ⊥
      hidden n unread same =
          let e =
            subst (λ k. is_none (read_at k (or_else o.audience_id "local") i.receipts) ≡ true) same
              unread in
          let gone = subst (λ (x : Option ℕ). is_none x ≡ true) r e in cc gone

  -- A notification that is there and is marked as read has the time of the call for that reader, is
  -- in no list of the reader's unread ones, and has for every other reader, as has every other
  -- notification, the receipt that was there before.
  pub mark_notification_read-reads :
      (id audience : String) (now : ℕ) (i : Inbox) (o : ListOptions) (id' audience' : String)
      → any (has_id id) i.board.notices ≡ true
      → o.audience_id ≡ some audience
      → o.unread ≡ some true
      → (id =s= id' && audience =s= audience') ≡ false
      → (read_at id audience (mark_notification_read like id audience now i).0.receipts ≡ some now)
        × All
            (λ l. l.notice.id ≢ id)
            (list_notifications like o (mark_notification_read like id audience now i).0)
        × (read_at id' audience' (mark_notification_read like id audience now i).0.receipts
            ≡ read_at id' audience' i.receipts)
  unfolding mark_notification_read
  mark_notification_read-reads id audience now i o id' audience' h a u other =
      let j = record i { receipts = put_receipt id audience now i.receipts } in
      let read = read_at-put id audience now i.receipts in
      rw h (
        read,
        list_notifications-unread o id now j u (
            subst (λ (x : Option String). read_at id (or_else x "local") j.receipts ≡ some now)
              (sym a) read),
        read_at-put_other id audience id' audience' now i.receipts other,
      )
