-- ===== src/Notifications/Routes.antt =====
-- features/notifications/routes.rs. `NotifReadReq` has no attribute of the crate validator, so that
-- its test passes always.
use pstu_backend.Prelude.{Uuid, Instant}
use pstu_backend.Core.Services.{Services}
use pstu_backend.Core.App.{Action, ◌>>=◌}
use pstu_backend.Auth.Sessions.{Parts, authenticate}
use pstu_backend.Store.Tx.{⊤}
use pstu_backend.Notifications.{
  NotifQuery, NotificationsResponse, NotifReadReq, get_notifications, mark_notifications_read,
}
use pstu_backend.Http.{Reply, ApiResponse, answer}

module _ (S : Services) where
  open S use {Cache}

  unfoldable pub get_notifications_handler :
      Parts → NotifQuery → Uuid → Action Cache (Reply (ApiResponse NotificationsResponse))
  get_notifications_handler parts params trace = do
    auth_user ← authenticate S parts
    res ← get_notifications auth_user.user_id params
    answer S 200 trace res

  unfoldable pub mark_read_handler :
      Parts → NotifReadReq → Instant → Uuid → Action Cache (Reply (ApiResponse ⊤))
  mark_read_handler parts payload now trace = do
    auth_user ← authenticate S parts
    res ← mark_notifications_read auth_user.user_id payload now
    answer S 200 trace res
