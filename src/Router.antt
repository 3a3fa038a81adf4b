-- ===== src/Router.antt =====
-- The routes of features/*/routes.rs together, as lib.rs merges them: a request for any of them,
-- decoded, with what its handler draws from its environment, and the handler that answers it. The
-- routes of features/health read no table and are Router/Health.
pub mod Gate
pub mod Serving
pub mod Admitted
pub mod Refines
pub mod Served
pub mod Moves
pub mod SignedIn
pub mod Paths
pub mod Health
use Prim.Native.String.{String}
use pstu_backend.Prelude.{ℕ, Uuid, Instant, Text, Option, List}
use pstu_backend.Core.Config.{AppConfig}
use pstu_backend.Core.Services.{Services}
use pstu_backend.Core.App.{Action}
use pstu_backend.Store.Logs.{ProcessEventDto}
use pstu_backend.Store.Tx.{⊤}
use pstu_backend.Auth.Dto.{RegisterRequest, RegisterResponse, FreshAccount}
use pstu_backend.Auth.Login.{LoginRequest, LoginResponse, Cookie}
use pstu_backend.Auth.PinChange.{PinChangeReq}
use pstu_backend.Auth.Sessions.{Parts, PinResetReq}
use pstu_backend.Auth.Routes.{
  register_handler, login_handler, logout_handler, change_pin_handler, reset_pin_handler,
}
use pstu_backend.Users.Routes.{
  UserProfileResponse, UserLookupDto, PublicUserRes, get_me_handler, lookup_users_handler,
  get_public_user_handler,
}
use pstu_backend.Transfers.Dto.{CreateTransferRequest, TransferResponse, Fresh}
use pstu_backend.Transfers.Queries.{TransferDetailResponse}
use pstu_backend.Transfers.Routes.{
  create_transfer_handler, get_transfer_handler, get_transfer_events_handler,
}
use pstu_backend.History.Dto.{
  TransactionHistoryQuery, PaginatedTransactionsResponse, StatementQuery,
}
use pstu_backend.History.Routes.{
  Document, ActivityQuery, get_transactions_handler, get_statement_csv_handler,
  get_activity_handler,
}
use pstu_backend.Requests.Dto.{
  CreateMoneyRequest, AcceptMoneyRequest, MoneyRequestDto, AcceptRequestResponse,
}
use pstu_backend.Requests.Queries.{GetRequestsQuery, PaginatedRequestsResponse}
use pstu_backend.Requests.Routes.{
  create_request_handler, get_requests_handler, accept_request_handler, reject_request_handler,
  cancel_request_handler, get_request_events_handler,
}
use pstu_backend.Links.Dto.{
  CreatePaymentLinkRequest, ClaimPaymentLinkRequest, PaymentLinkDto, ClaimPaymentLinkResponse,
}
use pstu_backend.Links.Queries.{GetMyLinksQuery, PaginatedLinksResponse}
use pstu_backend.Links.Routes.{
  create_link_handler, get_my_links_handler, get_link_handler, claim_link_handler,
  cancel_link_handler, get_link_events_handler,
}
use pstu_backend.Notifications.{NotifQuery, NotificationsResponse, NotifReadReq}
use pstu_backend.Notifications.Routes.{get_notifications_handler, mark_read_handler}
use pstu_backend.Ai.{Patterns, AiParseResponse}
use pstu_backend.Ai.Routes.{parse_ai_intent_handler}
use pstu_backend.Http.{Reply, ApiResponse, Draw}
use pstu_backend.Http.Validate.{Problems}

pub data Endpoint : Type 0 where
  register : RegisterRequest → FreshAccount → Endpoint
  login : LoginRequest → Text → Instant → Endpoint
  logout : Instant → Endpoint
  change_pin : PinChangeReq → Instant → Endpoint
  reset_pin : PinResetReq → Instant → Endpoint
  get_me : Endpoint
  lookup_users : Option Text → Endpoint
  get_public_user : Text → Endpoint
  create_transfer : CreateTransferRequest → Fresh → Endpoint
  get_transfer : Uuid → Endpoint
  get_transfer_events : Uuid → Endpoint
  get_transactions : TransactionHistoryQuery → Endpoint
  get_statement_csv : StatementQuery → Endpoint
  get_activity : ActivityQuery → Endpoint
  create_request : CreateMoneyRequest → Fresh → Endpoint
  get_requests : GetRequestsQuery → Endpoint
  accept_request : Uuid → AcceptMoneyRequest → Fresh → Endpoint
  reject_request : Uuid → Instant → Endpoint
  cancel_request : Uuid → Instant → Endpoint
  get_request_events : Uuid → Endpoint
  create_link : CreatePaymentLinkRequest → Text → Fresh → Endpoint
  get_my_links : GetMyLinksQuery → Endpoint
  get_link : Text → Instant → Endpoint
  claim_link : Text → ClaimPaymentLinkRequest → Fresh → Endpoint
  cancel_link : Text → Instant → Endpoint
  get_link_events : Uuid → Endpoint
  get_notifications : NotifQuery → Endpoint
  mark_read : NotifReadReq → Instant → Endpoint
  parse_ai_intent : Text → Endpoint

-- What a route answers under its status, when it does not answer an error.
abbrev pub Answer : Endpoint → Type 0
Answer (register _ _) = ApiResponse RegisterResponse
Answer (login _ _ _) = ApiResponse LoginResponse × Cookie
Answer (logout _) = ApiResponse ⊤
Answer (change_pin _ _) = ApiResponse Instant
Answer (reset_pin _ _) = ApiResponse Instant
Answer get_me = ApiResponse UserProfileResponse
Answer (lookup_users _) = ApiResponse (List UserLookupDto)
Answer (get_public_user _) = ApiResponse PublicUserRes
Answer (create_transfer _ _) = ApiResponse TransferResponse
Answer (get_transfer _) = ApiResponse TransferDetailResponse
Answer (get_transfer_events _) = ApiResponse (List ProcessEventDto)
Answer (get_transactions _) = ApiResponse PaginatedTransactionsResponse
Answer (get_statement_csv _) = Document
Answer (get_activity _) = ApiResponse (List ProcessEventDto)
Answer (create_request _ _) = ApiResponse MoneyRequestDto
Answer (get_requests _) = ApiResponse PaginatedRequestsResponse
Answer (accept_request _ _ _) = ApiResponse AcceptRequestResponse
Answer (reject_request _ _) = ApiResponse MoneyRequestDto
Answer (cancel_request _ _) = ApiResponse MoneyRequestDto
Answer (get_request_events _) = ApiResponse (List ProcessEventDto)
Answer (create_link _ _ _) = ApiResponse PaymentLinkDto
Answer (get_my_links _) = ApiResponse PaginatedLinksResponse
Answer (get_link _ _) = ApiResponse PaymentLinkDto
Answer (claim_link _ _ _) = ApiResponse ClaimPaymentLinkResponse
Answer (cancel_link _ _) = ApiResponse PaymentLinkDto
Answer (get_link_events _) = ApiResponse (List ProcessEventDto)
Answer (get_notifications _) = ApiResponse NotificationsResponse
Answer (mark_read _ _) = ApiResponse ⊤
Answer (parse_ai_intent _) = ApiResponse AiParseResponse

-- What a running server has besides its state: the services, the patterns of the AI parser, the
-- printing of the crate validator, the ranking of names by pg_trgm, and the configuration.
pub record Server : Type 1 where
  pub services : Services
  pub patterns : Patterns
  pub report : Problems → String
  pub similarity : Text → Text → ℕ
  pub config : AppConfig

module _ (V : Server) where
  open V use {services, patterns, report, similarity, config}

  unfoldable pub handle : (r : Endpoint) → Parts → Draw → Action services.Cache (Reply (Answer r))
  handle (register payload f) p d = register_handler services report payload f d.trace
  handle (login payload token now) p d =
      login_handler services report config.session_ttl_secs payload token now d.trace
  handle (logout now) p d = logout_handler services report p now d.trace
  handle (change_pin payload now) p d = change_pin_handler services report p payload now d.trace
  handle (reset_pin payload now) p d = reset_pin_handler services report p payload now d.trace
  handle get_me p d = get_me_handler services similarity p d.trace
  handle (lookup_users params) p d = lookup_users_handler services similarity p params d.trace
  handle (get_public_user number) p d = get_public_user_handler services similarity number d.trace
  handle (create_transfer payload f) p d = create_transfer_handler services p payload f d
  handle (get_transfer id) p d = get_transfer_handler services p id d.trace
  handle (get_transfer_events id) p d = get_transfer_events_handler services p id d.trace
  handle (get_transactions params) p d = get_transactions_handler services p params d.trace
  handle (get_statement_csv params) p d = get_statement_csv_handler services p params
  handle (get_activity params) p d = get_activity_handler services p params d.trace
  handle (create_request payload f) p d = create_request_handler services report p payload f d.trace
  handle (get_requests params) p d = get_requests_handler services report p params d.trace
  handle (accept_request id payload f) p d =
      accept_request_handler services report p id payload f d.trace
  handle (reject_request id now) p d = reject_request_handler services report p id now d.trace
  handle (cancel_request id now) p d = cancel_request_handler services report p id now d.trace
  handle (get_request_events id) p d = get_request_events_handler services report p id d.trace
  handle (create_link payload token f) p d =
      create_link_handler services report config.default_link_ttl_secs p payload token f d
  handle (get_my_links params) p d = get_my_links_handler services report p params d.trace
  handle (get_link token now) p d = get_link_handler services report token now d.trace
  handle (claim_link token payload f) p d = claim_link_handler services report p token payload f d
  handle (cancel_link token now) p d = cancel_link_handler services report p token now d.trace
  handle (get_link_events id) p d = get_link_events_handler services report p id d.trace
  handle (get_notifications params) p d = get_notifications_handler services p params d.trace
  handle (mark_read payload now) p d = mark_read_handler services p payload now d.trace
  handle (parse_ai_intent text) p d = parse_ai_intent_handler services patterns report p text d
