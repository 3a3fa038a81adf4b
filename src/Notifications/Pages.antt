-- ===== src/Notifications/Pages.antt =====
-- The pages of `get_notifications`, one after another.
use pstu_backend.Prelude.{
  ℕ, suc, ◌≡◌, refl, Uuid, Option, none, some, List, [], map, length, where_rows, i64_limit,
}
use pstu_backend.Core.Error.{Result, ok, err}
use pstu_backend.Core.App.{AppState}
use pstu_backend.Store.Schema.{NotificationRow}
use pstu_backend.Paging.{order_desc}
use pstu_backend.Paging.Order.{Below, Distinct}
use pstu_backend.Paging.Walk.{walk}
use pstu_backend.Paging.Table.{walk_table}
use pstu_backend.Notifications.{
  NotifQuery, NotificationItemDto, NotificationsResponse, item, notification_matches,
  get_notifications,
}

abbrev page_of : Result NotificationsResponse → List NotificationItemDto × Option ℕ
page_of (ok p) = (p.items, p.next_cursor)
page_of (err e) = ([], none)

module _ {C : Type 0} (u : Uuid) (q : NotifQuery) (s : AppState C) where
  -- What the service answers to the query at a cursor.
  abbrev pub ask : Option ℕ → List NotificationItemDto × Option ℕ
  ask c = page_of (get_notifications {C = C} u (record q { cursor = c }) s).0

  -- Over rows with distinct ids below 2 ^ 63: asking for a user's notifications page after page by
  -- the cursors ends after at most one page more than there are rows, with the items of exactly the
  -- rows that match, the latest first.
  pub get_notifications-walk :
      Distinct (λ (r : NotificationRow). r.id) s.db.notifications
      → Below (λ (r : NotificationRow). r.id) i64_limit s.db.notifications
      → walk ask (suc (length s.db.notifications)) none
        ≡ some (
            map item (
              order_desc
                (λ (r : NotificationRow). r.id)
                (where_rows (notification_matches u q) s.db.notifications)))
  unfolding get_notifications
  get_notifications-walk d b =
      walk_table (λ (r : NotificationRow). r.id) item (notification_matches u q) q.limit
        s.db.notifications ask (λ c. refl) d b
