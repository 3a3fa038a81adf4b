-- ===== src/Transfers/Routes.antt =====
-- features/transfers/routes.rs
use pstu_backend.Prelude.{Uuid, List, if◌then◌else◌}
use pstu_backend.Core.Services.{Services}
use pstu_backend.Core.App.{Action, ◌>>=◌, ◌>>◌}
use pstu_backend.Auth.Sessions.{Parts, authenticate}
use pstu_backend.Store.Logs.{ProcessEventDto}
use pstu_backend.Transfers.Dto.{CreateTransferRequest, TransferResponse, Fresh}
use pstu_backend.Transfers.Service.{process_transfer}
use pstu_backend.Transfers.Queries.{
  TransferDetailResponse, get_transfer_detail, get_transfer_events,
}
use pstu_backend.Http.{Reply, ApiResponse, Draw, raise_invalid, limit_user, answer}
use pstu_backend.Http.Validate

module _ (S : Services) where
  open S use {Cache, is_digit}

  unfoldable pub create_transfer_handler :
      Parts
      → CreateTransferRequest
      → Fresh
      → Draw
      → Action Cache (Reply (ApiResponse TransferResponse))
  create_transfer_handler parts payload f d = do
    auth_user ← authenticate S parts
    limit_user S "transfers" auth_user.user_id 30 d
    raise_invalid "Validation failed on transfer request"
        (Validate.transfer_request is_digit payload)
    (transfer, is_replay) ← process_transfer S auth_user.user_id payload f
    answer S (if is_replay then 200 else 201) d.trace transfer

  unfoldable pub get_transfer_handler :
      Parts → Uuid → Uuid → Action Cache (Reply (ApiResponse TransferDetailResponse))
  get_transfer_handler parts id trace = do
    auth_user ← authenticate S parts
    detail ← get_transfer_detail auth_user.user_id id
    answer S 200 trace detail

  unfoldable pub get_transfer_events_handler :
      Parts → Uuid → Uuid → Action Cache (Reply (ApiResponse (List ProcessEventDto)))
  get_transfer_events_handler parts id trace = do
    auth_user ← authenticate S parts
    events ← get_transfer_events auth_user.user_id id
    answer S 200 trace events
