-- ===== src/Notifications/Marked.antt =====
-- What marking notifications as read does to a user's notifications, and to those of others.
use pstu_backend.Prelude.{
  ℕ, ◌≡◌, ◌≢◌, refl, arith, Uuid, Instant, Bool, true, false, ◌&&◌, Option, none, some, List, [],
  ◌∷◌, ◌==◌, Bool-cases, inl, inr, where_rows, update_rows, unwrap_or,
}
use pstu_backend.Core.Error.{ok}
use pstu_backend.Core.App.{AppState}
use pstu_backend.Books.Unmoved.{Unmoved, Unmoved-refl}
use pstu_backend.Paging.{is_before}
use pstu_backend.Store.Schema.{Db, NotificationRow}
use pstu_backend.Notifications.{
  NotifQuery, NotifReadReq, is_unread, has_id, notification_matches, mark_ids, marked_read,
  get_notifications, mark_notifications_read,
}

-- A condition that no row of a user meets.
abbrev Elsewhere : Uuid → (NotificationRow → Bool) → Type 0
Elsewhere u p = (r : NotificationRow) → r.user_id ≡ u → p r ≡ false

-- A query of other rows is not moved by an update of a user's.
where_rows-mark :
    (u : Uuid) (p m : NotificationRow → Bool) (now : Instant) (rows : List NotificationRow)
    → Elsewhere u p
    → where_rows p (
        update_rows
          (λ (r : NotificationRow). r.user_id == u && m r)
          (λ (r : NotificationRow). record r { read_at = some now })
          rows)
      ≡ where_rows p rows
where_rows-mark u p m now [] h = refl
where_rows-mark u p m now (r ∷ rows) h = elim (Bool-cases (r.user_id == u)) [
  | inl mine ↦ ground (
    arith,
    mine,
    h r (ground (arith, mine)),
    h (record r { read_at = some now }) (ground (arith, mine)),
    where_rows-mark u p m now rows h,
  )
  | inr not_mine ↦ ground (arith, not_mine, where_rows-mark u p m now rows h)
]

where_rows-mark_ids :
    (u : Uuid) (p : NotificationRow → Bool) (ids : Option (List ℕ)) (now : Instant) (db : Db)
    → Elsewhere u p
    → where_rows p (mark_ids u ids now db).notifications ≡ where_rows p db.notifications
where_rows-mark_ids u p none now db h = refl
where_rows-mark_ids u p (some []) now db h = refl
where_rows-mark_ids u p (some (i ∷ ids)) now db h =
    where_rows-mark u p (λ r. has_id r.id (i ∷ ids)) now db.notifications h

where_rows-marked_read :
    (u : Uuid) (p : NotificationRow → Bool) (req : NotifReadReq) (now : Instant) (db : Db)
    → Elsewhere u p
    → where_rows p (marked_read u req now db).notifications ≡ where_rows p db.notifications
where_rows-marked_read u p req now db h = ground (
  arith,
  where_rows-mark u p is_unread now db.notifications h,
  where_rows-mark_ids u p req.ids now db h,
)

-- A query of unread rows of a user alone finds none after an update of all of them.
no_unread :
    (u : Uuid) (p : NotificationRow → Bool) (now : Instant) (rows : List NotificationRow)
    → ((r : NotificationRow) → (r.user_id == u && is_unread r) ≡ false → p r ≡ false)
    → where_rows p (
        update_rows
          (λ (r : NotificationRow). r.user_id == u && is_unread r)
          (λ (r : NotificationRow). record r { read_at = some now })
          rows)
      ≡ []
no_unread u p now [] h = refl
no_unread u p now (r ∷ rows) h = elim (Bool-cases (r.user_id == u && is_unread r)) [
  | inl marked ↦
      ground (
        arith,
        marked,
        h (record r { read_at = some now }) (ground arith),
        no_unread u p now rows h,
      )
  | inr kept ↦ ground (arith, kept, h r kept, no_unread u p now rows h)
]

mark_ids-Unmoved :
    (u : Uuid) (ids : Option (List ℕ)) (now : Instant) (db : Db)
    → Unmoved db (mark_ids u ids now db)
mark_ids-Unmoved u none now db = Unmoved-refl db
mark_ids-Unmoved u (some []) now db = Unmoved-refl db
mark_ids-Unmoved u (some (i ∷ ids)) now db = record { users = refl; balances = refl; ledger = refl }

module _ {C : Type 0} (u : Uuid) (req : NotifReadReq) (now : Instant) (s : AppState C) where
  abbrev pub marked : AppState C
  marked = (mark_notifications_read u req now s).1

  pub mark_notifications_read-Unmoved : Unmoved s.db marked.db
  unfolding mark_notifications_read
  mark_notifications_read-Unmoved = elim (Bool-cases (unwrap_or false req.all)) [
    | inl every ↦ rw every (record { users = refl; balances = refl; ledger = refl })
    | inr some_ids ↦ rw some_ids (mark_ids-Unmoved u req.ids now s.db)
  ]

  -- After a user marks all notifications as read, a query of the user's unread ones finds none and
  -- counts none.
  pub mark_notifications_read-all :
      (q : NotifQuery)
      → req.all ≡ some true
      → q.unread_only ≡ some true
      → (get_notifications u q marked).0
        ≡ ok (record { items = []; unread_count = 0; next_cursor = none })
  unfolding mark_notifications_read get_notifications
  mark_notifications_read-all q every unread = ground (
    arith,
    every,
    no_unread u (λ (r : NotificationRow). is_before q.cursor r.id && notification_matches u q r) now
        s.db.notifications (λ r n. ground (arith, n, unread)),
    no_unread u (λ (r : NotificationRow). r.user_id == u && is_unread r) now s.db.notifications
        (λ r n. n),
  )

  -- Whatever a user marks as read, a query of another user's notifications is answered as before.
  pub mark_notifications_read-others :
      (v : Uuid) (q : NotifQuery)
      → u ≢ v
      → (get_notifications v q marked).0 ≡ (get_notifications v q s).0
  unfolding mark_notifications_read get_notifications
  mark_notifications_read-others v q other = ground (
    arith,
    where_rows-marked_read u
        (λ (r : NotificationRow). is_before q.cursor r.id && notification_matches v q r) req now
        s.db (λ r mine. ground (arith, mine, other)),
    where_rows-marked_read u (λ (r : NotificationRow). r.user_id == v && is_unread r) req now s.db
        (λ r mine. ground (arith, mine, other)),
  )
