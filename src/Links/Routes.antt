-- ===== src/Links/Routes.antt =====
-- features/links/routes.rs
use Prim.Native.String.{String}
use pstu_backend.Prelude.{ℕ, Uuid, Instant, Text, List}
use pstu_backend.Core.Services.{Services}
use pstu_backend.Core.App.{Action, ◌>>=◌, ◌>>◌}
use pstu_backend.Auth.Sessions.{Parts, authenticate}
use pstu_backend.Store.Logs.{ProcessEventDto}
use pstu_backend.Transfers.Dto.{Fresh}
use pstu_backend.Links.Dto.{
  CreatePaymentLinkRequest, ClaimPaymentLinkRequest, PaymentLinkDto, ClaimPaymentLinkResponse,
}
use pstu_backend.Links.Service.{create_link, get_link_by_token, claim_link, cancel_link}
use pstu_backend.Links.Queries.{
  GetMyLinksQuery, PaginatedLinksResponse, get_my_links, get_link_events,
}
use pstu_backend.Http.{Reply, ApiResponse, Draw, raise_invalid, refuse_invalid, limit_user, answer}
use pstu_backend.Http.Validate
use pstu_backend.Http.Validate.{Problems}

module _ (S : Services) (report : Problems → String) where
  open S use {Cache, is_digit}

  unfoldable pub create_link_handler :
      ℕ
      → Parts
      → CreatePaymentLinkRequest
      → Text
      → Fresh
      → Draw
      → Action Cache (Reply (ApiResponse PaymentLinkDto))
  create_link_handler default_ttl parts payload token f d = do
    auth_user ← authenticate S parts
    limit_user S "links" auth_user.user_id 20 d
    raise_invalid "Validation failed on payment link creation"
        (Validate.link_request is_digit payload)
    link ← create_link S default_ttl auth_user.user_id payload token f
    answer S 201 d.trace link

  unfoldable pub get_my_links_handler :
      Parts → GetMyLinksQuery → Uuid → Action Cache (Reply (ApiResponse PaginatedLinksResponse))
  get_my_links_handler parts params trace = do
    auth_user ← authenticate S parts
    res ← get_my_links auth_user.user_id params
    answer S 200 trace res

  unfoldable pub get_link_handler :
      Text → Instant → Uuid → Action Cache (Reply (ApiResponse PaymentLinkDto))
  get_link_handler token now trace = do
    link ← get_link_by_token S token now
    answer S 200 trace link

  unfoldable pub claim_link_handler :
      Parts
      → Text
      → ClaimPaymentLinkRequest
      → Fresh
      → Draw
      → Action Cache (Reply (ApiResponse ClaimPaymentLinkResponse))
  claim_link_handler parts token payload f d = do
    auth_user ← authenticate S parts
    limit_user S "claim_link" auth_user.user_id 10 d
    refuse_invalid report (Validate.link_claim is_digit payload)
    res ← claim_link S auth_user.user_id token payload f
    answer S 201 d.trace res

  unfoldable pub cancel_link_handler :
      Parts → Text → Instant → Uuid → Action Cache (Reply (ApiResponse PaymentLinkDto))
  cancel_link_handler parts token now trace = do
    auth_user ← authenticate S parts
    res ← cancel_link S auth_user.user_id token now
    answer S 200 trace res

  unfoldable pub get_link_events_handler :
      Parts → Uuid → Uuid → Action Cache (Reply (ApiResponse (List ProcessEventDto)))
  get_link_events_handler parts id trace = do
    auth_user ← authenticate S parts
    events ← get_link_events auth_user.user_id id
    answer S 200 trace events
