-- ===== src/Router/Refines.antt =====
-- Each route does to the state what the gate and one call of System do.
use pstu_backend.Prelude.{◌≡◌, arith, Uuid, Option, none, some}
use pstu_backend.Core.Error.{Result, ok, err}
use pstu_backend.Core.App.{AppState}
use pstu_backend.Auth.Sessions.{Parts}
use pstu_backend.System.{Call, serve}
use pstu_backend.Auth.Routes.{
  register_handler, login_handler, logout_handler, change_pin_handler, reset_pin_handler,
}
use pstu_backend.Users.Routes.{get_me_handler, lookup_users_handler, get_public_user_handler}
use pstu_backend.Transfers.Routes.{
  create_transfer_handler, get_transfer_handler, get_transfer_events_handler,
}
use pstu_backend.History.Routes.{
  get_transactions_handler, get_statement_csv_handler, get_activity_handler,
}
use pstu_backend.Requests.Routes.{
  create_request_handler, get_requests_handler, accept_request_handler, reject_request_handler,
  cancel_request_handler, get_request_events_handler,
}
use pstu_backend.Links.Routes.{
  create_link_handler, get_my_links_handler, get_link_handler, claim_link_handler,
  cancel_link_handler, get_link_events_handler,
}
use pstu_backend.Notifications.Routes.{get_notifications_handler, mark_read_handler}
use pstu_backend.Ai.Routes.{parse_ai_intent_handler}
use pstu_backend.Transfers.Queries.{get_transfer_detail, get_transfer_events}
use pstu_backend.History.Service.{get_transactions, get_user_activity}
use pstu_backend.History.Statement.{generate_statement_csv}
use pstu_backend.Requests.Queries.{get_requests, get_request_events}
use pstu_backend.Links.Queries.{get_my_links, get_link_events}
use pstu_backend.Notifications.{get_notifications}
use pstu_backend.Http.{Draw}
use pstu_backend.Router.{Server, Endpoint, handle}
use pstu_backend.Router.Gate.{gate, call_of}

module _ (V : Server) where
  open V use {services}

  abbrev pub perform : Option Call → AppState services.Cache → AppState services.Cache
  perform none s = s
  perform (some call) s = serve services call s

  -- The state after a request that was or was not let through.
  abbrev pub after :
      Endpoint → Parts → Result (Option Uuid) → AppState services.Cache → AppState services.Cache
  after r p (err e) s = s
  after r p (ok caller) s = perform (call_of V r caller p) s

  pub handle_state :
      (r : Endpoint) (p : Parts) (d : Draw) (s : AppState services.Cache)
      → (handle V r p d s).1 ≡ after r p (gate V r p d s).0 (gate V r p d s).1
  unfolding handle gate serve register_handler login_handler logout_handler change_pin_handler
      reset_pin_handler get_me_handler lookup_users_handler get_public_user_handler
      create_transfer_handler get_transfer_handler get_transfer_events_handler
      get_transactions_handler get_statement_csv_handler get_activity_handler create_request_handler
      get_requests_handler accept_request_handler reject_request_handler cancel_request_handler
      get_request_events_handler create_link_handler get_my_links_handler get_link_handler
      claim_link_handler cancel_link_handler get_link_events_handler get_notifications_handler
      mark_read_handler parse_ai_intent_handler get_transfer_detail get_transfer_events
      get_transactions generate_statement_csv get_user_activity get_requests get_request_events
      get_my_links get_link_events get_notifications
  handle_state (Endpoint.register r f) p d s = ground arith
  handle_state r p d s = ground arith
