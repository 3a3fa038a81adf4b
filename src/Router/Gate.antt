-- ===== src/Router/Gate.antt =====
-- What the routes ask of a request before they serve it, as a table: a session, room in a window of
-- the rate limiter, a valid payload. The gate asks for them in this order.
use Prim.Native.String.{String}
use pstu_backend.Prelude.{ℕ, Uuid, Bool, true, false, Option, none, some, []}
use pstu_backend.Core.App.{Action, pure, ◌>>=◌, ◌>>◌}
use pstu_backend.Store.Tx.{⊤}
use pstu_backend.Auth.Sessions.{Parts, authenticate}
use pstu_backend.System.{Call}
use pstu_backend.Http.{Draw, raise_invalid, refuse_invalid, limit_user}
use pstu_backend.Http.Validate
use pstu_backend.Http.Validate.{Problems}
use pstu_backend.Router.{
  Server, Endpoint, register, login, logout, change_pin, reset_pin, get_public_user,
  create_transfer, create_request, accept_request, reject_request, cancel_request, create_link,
  get_link, claim_link, cancel_link, mark_read, parse_ai_intent,
}

-- Routes for which no session is asked.
abbrev pub is_public : Endpoint → Bool
is_public (register _ _) = true
is_public (login _ _ _) = true
is_public (get_public_user _) = true
is_public (get_link _ _) = true
is_public _ = false

-- The scope of the rate limit and the requests that it lets through in a minute.
abbrev pub limit_of : Endpoint → Option (String × ℕ)
limit_of (create_transfer _ _) = some ("transfers", 30)
limit_of (create_link _ _ _) = some ("links", 20)
limit_of (claim_link _ _ _) = some ("claim_link", 10)
limit_of (parse_ai_intent _) = some ("ai_parse", 30)
limit_of _ = none

-- The invalid fields of the payload.
abbrev pub problems_of : (ℕ → Bool) → Endpoint → Problems
problems_of is_digit (register r _) = Validate.register_request is_digit r
problems_of is_digit (login r _ _) = Validate.login_request is_digit r
problems_of is_digit (change_pin r _) = Validate.pin_change is_digit r
problems_of is_digit (reset_pin r _) = Validate.pin_reset is_digit r
problems_of is_digit (create_transfer r _) = Validate.transfer_request is_digit r
problems_of is_digit (create_request r _) = Validate.money_request r
problems_of is_digit (accept_request _ r _) = Validate.acceptance is_digit r
problems_of is_digit (create_link r _ _) = Validate.link_request is_digit r
problems_of is_digit (claim_link _ r _) = Validate.link_claim is_digit r
problems_of is_digit (parse_ai_intent t) = Validate.parse_request t
problems_of _ _ = []

-- The heading under which a route lists the invalid fields, for the routes that list them.
abbrev pub heading_of : Endpoint → Option String
heading_of (register _ _) = some "Validation failed on user registration"
heading_of (login _ _ _) = some "Validation failed on login"
heading_of (create_transfer _ _) = some "Validation failed on transfer request"
heading_of (create_request _ _) = some "Validation failed on money request"
heading_of (create_link _ _ _) = some "Validation failed on payment link creation"
heading_of _ = none

module _ (V : Server) where
  open V use {services, report, config}

  abbrev pub ask_session : Bool → Parts → Action services.Cache (Option Uuid)
  ask_session true p = pure none
  ask_session false p = do auth_user ← authenticate services p; pure (some auth_user.user_id)

  abbrev pub ask_room : Option (String × ℕ) → Option Uuid → Draw → Action services.Cache ⊤
  ask_room (some (scope, max_requests)) (some u) d = limit_user services scope u max_requests d
  ask_room _ _ d = pure tt

  abbrev pub ask_valid : Option String → Problems → Action services.Cache ⊤
  ask_valid none ps = refuse_invalid report ps
  ask_valid (some heading) ps = raise_invalid heading ps

  -- The user of the session, if one is asked for.
  unfoldable pub gate : Endpoint → Parts → Draw → Action services.Cache (Option Uuid)
  gate r p d = do
    caller ← ask_session (is_public r) p
    ask_room (limit_of r) caller d
    ask_valid (heading_of r) (problems_of services.is_digit r)
    pure caller

  -- What a request that passes the gate does to the state, if anything: a call on behalf of the user.
  abbrev pub call_of : Endpoint → Option Uuid → Parts → Option Call
  call_of (register r f) none p = some (Call.register r f)
  call_of (login r token now) none p = some (Call.login token config.session_ttl_secs r now)
  call_of (get_link token now) none p = some (Call.read_link token now)
  call_of (logout now) (some u) p = some (Call.logout u p.cookies now)
  call_of (change_pin r now) (some u) p = some (Call.change u r now)
  call_of (reset_pin r now) (some u) p = some (Call.reset u r p.cookies now)
  call_of (create_transfer r f) (some u) p = some (Call.transfer u r f)
  call_of (create_request r f) (some u) p = some (Call.new_request u r f)
  call_of (accept_request id r f) (some u) p = some (Call.accept u id r f)
  call_of (reject_request id now) (some u) p = some (Call.reject u id now)
  call_of (cancel_request id now) (some u) p = some (Call.withdraw u id now)
  call_of (create_link r token f) (some u) p =
      some (Call.new_link config.default_link_ttl_secs u r token f)
  call_of (claim_link token r f) (some u) p = some (Call.claim u token r f)
  call_of (cancel_link token now) (some u) p = some (Call.cancel u token now)
  call_of (mark_read r now) (some u) p = some (Call.mark_read u r now)
  call_of _ _ p = none
