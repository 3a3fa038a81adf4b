-- ===== src/Notifications.antt =====
-- features/notifications: dto.rs and service.rs.
pub mod Routes
pub mod Pages
pub mod Marked
use pstu_backend.Prelude.{
  ℕ, ◌+◌, Uuid, Instant, Text, Bool, true, false, not, ◌&&◌, ◌||◌, Option, none, some, List, [],
  ◌∷◌, ◌==◌, if◌then◌else◌, length, take, where_rows, update_rows, unwrap_or, map,
}
use pstu_backend.Core.App.{Action, query, update_db}
use pstu_backend.Store.Schema.{Db, NotificationRow, NotificationKind}
use pstu_backend.Store.Tx.{⊤}
use pstu_backend.Paging.{page_limit, is_before, order_desc, take_page}

pub record NotifQuery : Type 0 where
  pub unread_only : Option Bool
  pub cursor : Option ℕ
  pub limit : Option ℕ

pub record NotificationItemDto : Type 0 where
  pub id : ℕ
  pub kind : NotificationKind
  pub title : Text
  pub body : Text
  pub entity_type : Option Text
  pub entity_id : Option Uuid
  pub read_at : Option Instant
  pub created_at : Instant

pub record NotificationsResponse : Type 0 where
  pub items : List NotificationItemDto
  pub unread_count : ℕ
  pub next_cursor : Option ℕ

pub record NotifReadReq : Type 0 where
  pub ids : Option (List ℕ)
  pub all : Option Bool

abbrev pub item : NotificationRow → NotificationItemDto
item r = record {
  id = r.id;
  kind = r.kind;
  title = r.title;
  body = r.body;
  entity_type = r.entity_type;
  entity_id = r.entity_id;
  read_at = r.read_at;
  created_at = r.created_at;
}

abbrev pub is_unread : NotificationRow → Bool
is_unread r = elim r.read_at [ none ↦ true | some t ↦ false ]

-- The WHERE clause but for the cursor.
abbrev pub notification_matches : Uuid → NotifQuery → NotificationRow → Bool
notification_matches user_id q r =
    r.user_id == user_id && (not (unwrap_or false q.unread_only) || is_unread r)

-- The rows that the query fetches.
abbrev pub fetch_notifications : Uuid → NotifQuery → Db → List NotificationRow
fetch_notifications user_id q db = take (page_limit q.limit + 1) (
    order_desc (λ (r : NotificationRow). r.id)
      (where_rows (λ r. is_before q.cursor r.id && notification_matches user_id q r)
        db.notifications))

-- `SELECT COUNT(*) FROM notifications WHERE user_id = $1 AND read_at IS NULL`
abbrev pub count_unread : Uuid → Db → ℕ
count_unread user_id db =
    length
      (where_rows (λ (r : NotificationRow). r.user_id == user_id && is_unread r) db.notifications)

abbrev pub notifications_page : ℕ → List NotificationRow → ℕ → NotificationsResponse
notifications_page limit rows unread_count =
    let (page, next_cursor) = take_page (λ (r : NotificationRow). r.id) limit rows in
    record { items = map item page; unread_count = unread_count; next_cursor = next_cursor }

abbrev pub has_id : ℕ → List ℕ → Bool
has_id id [] = false
has_id id (i ∷ ids) = id == i || has_id id ids

-- `UPDATE notifications SET read_at = $1 WHERE …`
abbrev pub mark_rows : (NotificationRow → Bool) → Instant → Db → Db
mark_rows marked now db = record db {
  notifications =
      update_rows marked (λ (r : NotificationRow). record r { read_at = some now })
        db.notifications;
}

-- The second statement is run for a list of ids that is not empty.
abbrev pub mark_ids : Uuid → Option (List ℕ) → Instant → Db → Db
mark_ids user_id none now db = db
mark_ids user_id (some []) now db = db
mark_ids user_id (some (i ∷ ids)) now db =
    mark_rows (λ r. r.user_id == user_id && has_id r.id (i ∷ ids)) now db

abbrev pub marked_read : Uuid → NotifReadReq → Instant → Db → Db
marked_read user_id req now db =
    if unwrap_or false req.all
    then mark_rows (λ r. r.user_id == user_id && is_unread r) now db
    else mark_ids user_id req.ids now db

module _ {C : Type 0} where
  unfoldable pub get_notifications : Uuid → NotifQuery → Action C NotificationsResponse
  get_notifications user_id q = query λ db.
      notifications_page (page_limit q.limit) (fetch_notifications user_id q db)
        (count_unread user_id db)

  -- The answer is `ok: true`.
  unfoldable pub mark_notifications_read : Uuid → NotifReadReq → Instant → Action C ⊤
  mark_notifications_read user_id req now = update_db (marked_read user_id req now)
