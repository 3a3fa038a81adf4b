-- ===== src/Router/Admitted.antt =====
-- What a request that is refused, and one that is answered, have gone through.
use pstu_backend.Prelude.{
  ◌≡◌, arith, Uuid, true, false, ◌⊎◌, inl, inr, Option, none, some, [], ◌≢◌, Bool-cases,
  Option-cases, ℕ, Bool, ◌||◌, ◌==◌,
}
use pstu_backend.Core.Error.{AppError, ok, err, Result-cases, status_code}
use pstu_backend.Core.App.{AppState, Action, ◌>>=◌}
use pstu_backend.Core.RateLimit.{enforce_rate_limit, check_sliding_window_rate_limit, admit}
use pstu_backend.Auth.Sessions.{Parts, AuthenticatedUser, authenticate, request_token}
use pstu_backend.Auth.Routes.{
  register_handler, login_handler, logout_handler, change_pin_handler, reset_pin_handler,
}
use pstu_backend.Users.Routes.{get_me_handler, lookup_users_handler, get_public_user_handler}
use pstu_backend.Transfers.Routes.{
  create_transfer_handler, get_transfer_handler, get_transfer_events_handler,
}
use pstu_backend.History.Routes.{
  get_transactions_handler, get_statement_csv_handler, get_activity_handler,
}
use pstu_backend.Requests.Routes.{
  create_request_handler, get_requests_handler, accept_request_handler, reject_request_handler,
  cancel_request_handler, get_request_events_handler,
}
use pstu_backend.Links.Routes.{
  create_link_handler, get_my_links_handler, get_link_handler, claim_link_handler,
  cancel_link_handler, get_link_events_handler,
}
use pstu_backend.Notifications.Routes.{get_notifications_handler, mark_read_handler}
use pstu_backend.Ai.Routes.{parse_ai_intent_handler}
use Prim.Native.String.{String}
use pstu_backend.Http.Validate.{Problems}
use pstu_backend.Http.{Draw}
use pstu_backend.Router.{Server, Endpoint, handle}
use pstu_backend.Router.Gate.{
  gate, is_public, limit_of, problems_of, ask_session, ask_room, ask_valid, heading_of,
}

module _ (V : Server) (r : Endpoint) (p : Parts) (d : Draw) (s : AppState V.services.Cache) where
  open V use {services}

  -- The gate writes no table.
  pub gate-db : (gate V r p d s).1.db ≡ s.db
  unfolding gate authenticate enforce_rate_limit check_sliding_window_rate_limit admit
  gate-db = ground arith

module _ (V : Server) where
  open V use {services}

  -- A request that the gate refuses is answered with the gate's error, in the state that the gate left.
  pub handle_refused :
      (r : Endpoint) (p : Parts) (d : Draw) (s : AppState services.Cache) (e : AppError)
      → (gate V r p d s).0 ≡ err e
      → handle V r p d s ≡ (err e, (gate V r p d s).1)
  unfolding handle gate register_handler login_handler logout_handler change_pin_handler
      reset_pin_handler get_me_handler lookup_users_handler get_public_user_handler
      create_transfer_handler get_transfer_handler get_transfer_events_handler
      get_transactions_handler get_statement_csv_handler get_activity_handler create_request_handler
      get_requests_handler accept_request_handler reject_request_handler cancel_request_handler
      get_request_events_handler create_link_handler get_my_links_handler get_link_handler
      claim_link_handler cancel_link_handler get_link_events_handler get_notifications_handler
      mark_read_handler parse_ai_intent_handler
  handle_refused (Endpoint.register r f) p d s e h = ground (arith, h)
  handle_refused r p d s e h = ground (arith, h)

module _ (V : Server) (r : Endpoint) (p : Parts) (d : Draw) (s : AppState V.services.Cache) where
  open V use {services}

  -- The session of the user on whose behalf a request is served, for a route that asks for one.
  abbrev pub Session : Option Uuid → Type 0
  Session caller =
      ((is_public r ≡ true) × (caller ≡ none))
      ⊎ ((u : AuthenticatedUser) × ((authenticate services p s).0 ≡ ok u)
          × (caller ≡ some u.user_id))

  -- What a request has that passes the gate.
  pub record Passed (caller : Option Uuid) : Type 0 where
    pub session : Session caller
    pub room : (ask_room V (limit_of r) caller d s).0 ≡ ok tt
    pub valid : problems_of services.is_digit r ≡ []

  gate-Session : (caller : Option Uuid) → (gate V r p d s).0 ≡ ok caller → Session caller
  unfolding gate
  gate-Session caller h = elim (Bool-cases (is_public r)) [
    | inl open_to_all ↦ inl (open_to_all, ground (arith, h, open_to_all))
    | inr closed ↦ elim (Result-cases ((authenticate services p s).0)) [
      | inl (u, e) ↦ inr (u, e, ground (arith, h, closed, e))
      | inr (x, e) ↦ absurd (ground (arith, h, closed, e))
    ]
  ]

  -- Looking up a session changes nothing.
  authenticate_state : (authenticate services p s).1 ≡ s
  unfolding authenticate
  authenticate_state = ground arith

  gate_room :
      (caller : Option Uuid)
      → (gate V r p d s).0 ≡ ok caller
      → (ask_room V (limit_of r) caller d s).0 ≡ ok tt
  unfolding gate
  gate_room caller h = ground (arith, h, authenticate_state)

  gate_valid :
      (caller : Option Uuid) → (gate V r p d s).0 ≡ ok caller → problems_of services.is_digit r ≡ []
  unfolding gate
  gate_valid caller h = ground (arith, h)

  pub gate-Passed : (caller : Option Uuid) → (gate V r p d s).0 ≡ ok caller → Passed caller
  gate-Passed caller e = record {
    session = gate-Session caller e;
    room = gate_room caller e;
    valid = gate_valid caller e;
  }

-- The status of a refusal: a bad request, no session, too many requests, no cache.
abbrev pub is_refusal : ℕ → Bool
is_refusal status = status == 400 || status == 401 || status == 429 || status == 503

module _ (V : Server) where
  open V use {services}

  authenticate-eq-err :
      (p : Parts) (s : AppState services.Cache) (e : AppError)
      → (authenticate services p s).0 ≡ err e
      → (status_code e ≡ 401) ⊎ (status_code e ≡ 503)
  unfolding authenticate status_code
  authenticate-eq-err p s e h = elim (Option-cases (request_token p)) [
    | inl missing ↦ inl (ground (arith, h, missing))
    | inr (t, given) ↦ ground (arith, h, given)
  ]

  -- A part of a route whose every error is answered with the status of a refusal.
  abbrev Refuses : {A : Type 0} → Action services.Cache A → Type 0
  Refuses m =
      (s : AppState services.Cache) (e : AppError)
      → (m s).0 ≡ err e
      → is_refusal (status_code e) ≡ true

  >>=-Refuses :
      {A B : Type 0} (m : Action services.Cache A) (f : A → Action services.Cache B)
      → Refuses m
      → ((a : A) → Refuses (f a))
      → Refuses (m >>= f)
  >>=-Refuses m f k l s e h = elim (Result-cases ((m s).0)) [
    | inl (a, g) ↦ l a (m s).1 e (ground (arith, h, g))
    | inr (x, g) ↦ k s e (ground (arith, h, g))
  ]

  ask_session-Refuses : (b : Bool) (p : Parts) → Refuses (ask_session V b p)
  ask_session-Refuses true p s e h = cc
  ask_session-Refuses false p s e h = ground (arith, authenticate-eq-err p s e (ground (arith, h)))

  ask_room-Refuses :
      (l : Option (String × ℕ)) (u : Option Uuid) (d : Draw) → Refuses (ask_room V l u d)
  unfolding enforce_rate_limit check_sliding_window_rate_limit admit status_code
  ask_room-Refuses l u d s e h = ground (arith, h)

  ask_valid-Refuses : (o : Option String) (ps : Problems) → Refuses (ask_valid V o ps)
  unfolding status_code
  ask_valid-Refuses o ps s e h = ground (arith, h)

  gate-Refuses : (r : Endpoint) (p : Parts) (d : Draw) → Refuses (gate V r p d)
  unfolding gate
  gate-Refuses r p d =
      >>=-Refuses (ask_session V (is_public r) p) _ (ask_session-Refuses (is_public r) p) λ u.
        >>=-Refuses (ask_room V (limit_of r) u d) _ (ask_room-Refuses (limit_of r) u d) λ _.
          >>=-Refuses (ask_valid V (heading_of r) (problems_of services.is_digit r)) _
            (ask_valid-Refuses (heading_of r) (problems_of services.is_digit r)) λ _ s e h. cc

module _ (V : Server) (r : Endpoint) (p : Parts) (d : Draw) (s : AppState V.services.Cache) where
  open V use {services}

  -- A request without a session, for a route that asks for one, is answered with the error of the
  -- session's look-up, whose status is 401 or 503, and changes neither a table nor the cache.
  pub handle_unauthenticated :
      (e : AppError)
      → is_public r ≡ false
      → (authenticate services p s).0 ≡ err e
      → (handle V r p d s ≡ (err e, s)) × ((status_code e ≡ 401) ⊎ (status_code e ≡ 503))
  unfolding gate
  handle_unauthenticated e closed h = (
    ground (
      arith,
      h,
      closed,
      authenticate_state V r p d s,
      handle_refused V r p d s e (ground (arith, h, closed)),
    ),
    authenticate-eq-err V p s e h,
  )

  -- A request with an invalid field is answered with an error whose status is 400, 401, 429 or 503,
  -- and writes no table.
  pub handle_invalid :
      problems_of services.is_digit r ≢ []
      → (e : AppError) × ((handle V r p d s).0 ≡ err e)
        × ((handle V r p d s).1.db ≡ s.db)
        × (is_refusal (status_code e) ≡ true)
  handle_invalid bad = elim (Result-cases ((gate V r p d s).0)) [
    | inl (caller, g) ↦ absurd (bad (gate_valid V r p d s caller g))
    | inr (e, g) ↦
        let refused = handle_refused V r p d s e g in
        (
          e,
          ground (arith, refused),
          ground (arith, refused, gate-db V r p d s),
          gate-Refuses V r p d s e g,
        )
  ]
