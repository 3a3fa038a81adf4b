-- ===== src/Auth/PinChange.antt =====
-- features/auth/service.rs: `change_pin`.
pub mod Effect
use pstu_backend.Prelude.{Uuid, Instant, Text, [], some, ◌==◌, update_rows}
use pstu_backend.Core.Error.{AppError}
use pstu_backend.Core.Services.{Services}
use pstu_backend.Core.App.{Action, pure, ok_or_raise, update_db, ◌>>=◌, ◌>>◌}
use pstu_backend.Core.Pin.{enforce_user_pin}
use pstu_backend.Store.Schema.{Db, UserRow, EntityType, EventName, ProcessEventRow}
use pstu_backend.Store.Events.{event_row, log_event}

pub record PinChangeReq : Type 0 where
  pub current_pin : Text
  pub new_pin : Text

-- `UPDATE users SET pin_hash = $1, pin_updated_at = $2 WHERE id = $3`
abbrev pub set_pin : Text → Instant → UserRow → UserRow
set_pin pin_hash now r = record r { pin_hash = pin_hash; pin_updated_at = now }

abbrev pub update_pin : Uuid → Text → Instant → Db → Db
update_pin u pin_hash now db = record db {
  users = update_rows (λ (r : UserRow). r.id == u) (set_pin pin_hash now) db.users;
}

abbrev pub pin_changed_event : Uuid → Instant → ProcessEventRow
pin_changed_event u now =
    event_row EntityType.auth u EventName.pin_changed (some u)
      "Transaction PIN changed successfully" [] now

module _ (S : Services) where
  open S use {Cache, hash_password}

  -- The answer is the `pin_updated_at` of the source's `PinUpdatedRes`, whose `ok` is true.
  unfoldable pub change_pin : Uuid → PinChangeReq → Instant → Action Cache Instant
  change_pin user_id req now = do
    enforce_user_pin S user_id req.current_pin now
    new_pin_hash ← ok_or_raise (AppError.internal "Failed to hash PIN") (hash_password req.new_pin)
    update_db (update_pin user_id new_pin_hash now)
    update_db (log_event (pin_changed_event user_id now))
    pure now
