-- ===== src/Requests/Routes.antt =====
-- features/requests/routes.rs
use Prim.Native.String.{String}
use pstu_backend.Prelude.{Uuid, Instant, List}
use pstu_backend.Core.Services.{Services}
use pstu_backend.Core.App.{Action, ◌>>=◌, ◌>>◌}
use pstu_backend.Auth.Sessions.{Parts, authenticate}
use pstu_backend.Store.Logs.{ProcessEventDto}
use pstu_backend.Transfers.Dto.{Fresh}
use pstu_backend.Requests.Dto.{
  CreateMoneyRequest, AcceptMoneyRequest, MoneyRequestDto, AcceptRequestResponse,
}
use pstu_backend.Requests.Service.{create_request, accept_request, reject_request, cancel_request}
use pstu_backend.Requests.Queries.{
  GetRequestsQuery, PaginatedRequestsResponse, get_requests, get_request_events,
}
use pstu_backend.Http.{Reply, ApiResponse, raise_invalid, refuse_invalid, answer}
use pstu_backend.Http.Validate
use pstu_backend.Http.Validate.{Problems}

module _ (S : Services) (report : Problems → String) where
  open S use {Cache, is_digit}

  unfoldable pub create_request_handler :
      Parts → CreateMoneyRequest → Fresh → Uuid → Action Cache (Reply (ApiResponse MoneyRequestDto))
  create_request_handler parts payload f trace = do
    auth_user ← authenticate S parts
    raise_invalid "Validation failed on money request" (Validate.money_request payload)
    req ← create_request S auth_user.user_id payload f
    answer S 201 trace req

  unfoldable pub get_requests_handler :
      Parts → GetRequestsQuery → Uuid → Action Cache (Reply (ApiResponse PaginatedRequestsResponse))
  get_requests_handler parts params trace = do
    auth_user ← authenticate S parts
    res ← get_requests auth_user.user_id params
    answer S 200 trace res

  unfoldable pub accept_request_handler :
      Parts
      → Uuid
      → AcceptMoneyRequest
      → Fresh
      → Uuid
      → Action Cache (Reply (ApiResponse AcceptRequestResponse))
  accept_request_handler parts id payload f trace = do
    auth_user ← authenticate S parts
    refuse_invalid report (Validate.acceptance is_digit payload)
    res ← accept_request S auth_user.user_id id payload f
    answer S 200 trace res

  unfoldable pub reject_request_handler :
      Parts → Uuid → Instant → Uuid → Action Cache (Reply (ApiResponse MoneyRequestDto))
  reject_request_handler parts id now trace = do
    auth_user ← authenticate S parts
    res ← reject_request S auth_user.user_id id now
    answer S 200 trace res

  unfoldable pub cancel_request_handler :
      Parts → Uuid → Instant → Uuid → Action Cache (Reply (ApiResponse MoneyRequestDto))
  cancel_request_handler parts id now trace = do
    auth_user ← authenticate S parts
    res ← cancel_request S auth_user.user_id id now
    answer S 200 trace res

  unfoldable pub get_request_events_handler :
      Parts → Uuid → Uuid → Action Cache (Reply (ApiResponse (List ProcessEventDto)))
  get_request_events_handler parts id trace = do
    auth_user ← authenticate S parts
    events ← get_request_events auth_user.user_id id
    answer S 200 trace events
