-- ===== src/Router/Serving.antt =====
-- What a route does with a request that has passed the gate, as a table: the service that is called,
-- the user on whose behalf it is called, and the status of its answer.
use pstu_backend.Prelude.{
  ◌≡◌, arith, Uuid, Option, none, some, [], ◌∷◌, map, text_eq, first_row, unwrap_or, if◌then◌else◌,
}
use pstu_backend.Core.Error.{AppError, ok}
use pstu_backend.Core.App.{AppState, Action, pure, raise, ok_or_raise, query, ◌>>=◌}
use pstu_backend.Core.Text.{trim}
use pstu_backend.Store.Schema.{UserRow}
use pstu_backend.Auth.Sessions.{Parts, is_blank, logout_user, reset_pin}
use pstu_backend.Auth.Register.{register_user}
use pstu_backend.Auth.Login.{login_user}
use pstu_backend.Auth.PinChange.{change_pin}
use pstu_backend.Auth.Routes.{
  register_handler, login_handler, logout_handler, change_pin_handler, reset_pin_handler,
}
use pstu_backend.Users.Routes.{
  lookup_dto, public_user, find_profile, fetch_users, get_me_handler, lookup_users_handler,
  get_public_user_handler,
}
use pstu_backend.Transfers.Service.{process_transfer}
use pstu_backend.Transfers.Queries.{get_transfer_detail, get_transfer_events}
use pstu_backend.Transfers.Routes.{
  create_transfer_handler, get_transfer_handler, get_transfer_events_handler,
}
use pstu_backend.History.Service.{get_transactions, get_user_activity}
use pstu_backend.History.Statement.{generate_statement_csv}
use pstu_backend.History.Routes.{
  get_transactions_handler, get_statement_csv_handler, get_activity_handler,
}
use pstu_backend.Requests.Service.{create_request, accept_request, reject_request, cancel_request}
use pstu_backend.Requests.Queries.{get_requests, get_request_events}
use pstu_backend.Requests.Routes.{
  create_request_handler, get_requests_handler, accept_request_handler, reject_request_handler,
  cancel_request_handler, get_request_events_handler,
}
use pstu_backend.Links.Service.{create_link, get_link_by_token, claim_link, cancel_link}
use pstu_backend.Links.Queries.{get_my_links, get_link_events}
use pstu_backend.Links.Routes.{
  create_link_handler, get_my_links_handler, get_link_handler, claim_link_handler,
  cancel_link_handler, get_link_events_handler,
}
use pstu_backend.Notifications.{get_notifications, mark_notifications_read}
use pstu_backend.Notifications.Routes.{get_notifications_handler, mark_read_handler}
use pstu_backend.Ai.{parse_intent}
use pstu_backend.Ai.Routes.{parse_ai_intent_handler}
use pstu_backend.Http.{Draw, Reply, answer, api_response}
use pstu_backend.Router.{Server, Endpoint, Answer, handle}
use pstu_backend.Router.Gate.{gate}

module _ (V : Server) where
  open V use {services, patterns, similarity, config}

  -- The last row is for a user on a route without a session, and for no user on one with a session:
  -- the gate lets neither through.
  unfoldable pub serving :
      (r : Endpoint) → Option Uuid → Parts → Draw → Action services.Cache (Reply (Answer r))
  serving (Endpoint.register payload f) none p d =
      register_user services payload f >>= answer services 201 d.trace
  serving (Endpoint.login payload token now) none p d = do
    res ← login_user services token config.session_ttl_secs payload now
    pure (record { status = 200; body = (api_response services d.trace res.0, res.1) })
  serving (Endpoint.logout now) (some u) p d =
      logout_user services u p.cookies now >>= answer services 200 d.trace
  serving (Endpoint.change_pin payload now) (some u) p d =
      change_pin services u payload now >>= answer services 200 d.trace
  serving (Endpoint.reset_pin payload now) (some u) p d =
      reset_pin services u payload p.cookies now >>= answer services 200 d.trace
  serving Endpoint.get_me (some u) p d =
      query (find_profile u)
      >>= ok_or_raise (AppError.not_found "User not found")
      >>= answer services 200 d.trace
  serving (Endpoint.lookup_users params) (some u) p d =
      query (λ db.
        if is_blank (unwrap_or [] params)
        then []
        else map lookup_dto (fetch_users services similarity (trim (unwrap_or [] params)) db))
      >>= answer services 200 d.trace
  serving (Endpoint.get_public_user number) none p d = do
    row ← query λ db. first_row (λ (x : UserRow). text_eq x.account_number (trim number)) db.users
    user ← ok_or_raise (AppError.not_found "User not found") row
    answer services 200 d.trace (public_user user)
  serving (Endpoint.create_transfer payload f) (some u) p d = do
    (transfer, is_replay) ← process_transfer services u payload f
    answer services (if is_replay then 200 else 201) d.trace transfer
  serving (Endpoint.get_transfer id) (some u) p d =
      get_transfer_detail u id >>= answer services 200 d.trace
  serving (Endpoint.get_transfer_events id) (some u) p d =
      get_transfer_events u id >>= answer services 200 d.trace
  serving (Endpoint.get_transactions params) (some u) p d =
      get_transactions services u params >>= answer services 200 d.trace
  serving (Endpoint.get_statement_csv params) (some u) p d = do
    csv_content ← generate_statement_csv services u params
    pure (record {
      status = 200;
      body = record {
        headers =
            ("content-type", "text/csv; charset=utf-8")
            ∷ ("content-disposition", "attachment; filename=\"statement.csv\"")
            ∷ [];
        text = csv_content;
      };
    })
  serving (Endpoint.get_activity params) (some u) p d =
      get_user_activity services u params.cursor params.limit >>= answer services 200 d.trace
  serving (Endpoint.create_request payload f) (some u) p d =
      create_request services u payload f >>= answer services 201 d.trace
  serving (Endpoint.get_requests params) (some u) p d =
      get_requests u params >>= answer services 200 d.trace
  serving (Endpoint.accept_request id payload f) (some u) p d =
      accept_request services u id payload f >>= answer services 200 d.trace
  serving (Endpoint.reject_request id now) (some u) p d =
      reject_request services u id now >>= answer services 200 d.trace
  serving (Endpoint.cancel_request id now) (some u) p d =
      cancel_request services u id now >>= answer services 200 d.trace
  serving (Endpoint.get_request_events id) (some u) p d =
      get_request_events u id >>= answer services 200 d.trace
  serving (Endpoint.create_link payload token f) (some u) p d =
      create_link services config.default_link_ttl_secs u payload token f
      >>= answer services 201 d.trace
  serving (Endpoint.get_my_links params) (some u) p d =
      get_my_links u params >>= answer services 200 d.trace
  serving (Endpoint.get_link token now) none p d =
      get_link_by_token services token now >>= answer services 200 d.trace
  serving (Endpoint.claim_link token payload f) (some u) p d =
      claim_link services u token payload f >>= answer services 201 d.trace
  serving (Endpoint.cancel_link token now) (some u) p d =
      cancel_link services u token now >>= answer services 200 d.trace
  serving (Endpoint.get_link_events id) (some u) p d =
      get_link_events u id >>= answer services 200 d.trace
  serving (Endpoint.get_notifications params) (some u) p d =
      get_notifications u params >>= answer services 200 d.trace
  serving (Endpoint.mark_read payload now) (some u) p d =
      mark_notifications_read u payload now >>= answer services 200 d.trace
  serving (Endpoint.parse_ai_intent text) (some u) p d =
      answer services 200 d.trace (parse_intent patterns text)
  serving r caller p d = raise (AppError.internal "no route")

  -- A request that the gate lets through is answered, in the state that the gate left, as the table
  -- says for the user whom the gate found.
  pub handle_served :
      (r : Endpoint) (p : Parts) (d : Draw) (s : AppState services.Cache) (caller : Option Uuid)
      → (gate V r p d s).0 ≡ ok caller
      → handle V r p d s ≡ serving r caller p d (gate V r p d s).1
  unfolding handle gate serving register_handler login_handler logout_handler change_pin_handler
      reset_pin_handler get_me_handler lookup_users_handler get_public_user_handler
      create_transfer_handler get_transfer_handler get_transfer_events_handler
      get_transactions_handler get_statement_csv_handler get_activity_handler create_request_handler
      get_requests_handler accept_request_handler reject_request_handler cancel_request_handler
      get_request_events_handler create_link_handler get_my_links_handler get_link_handler
      claim_link_handler cancel_link_handler get_link_events_handler get_notifications_handler
      mark_read_handler parse_ai_intent_handler
  handle_served (Endpoint.register r f) p d s caller h = ground (arith, h)
  handle_served r p d s caller h = ground (arith, h)
