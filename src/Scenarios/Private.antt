-- ===== src/Scenarios/Private.antt =====
-- What Alice reads of two requests, one of them hers.
use pstu_backend.Prelude.{◌≡◌, refl, true, none, some, List, [], ◌∷◌, Uuid}
use pstu_backend.Core.Error.{ok}
use pstu_backend.Core.Text.{codes}
use pstu_backend.Store.Schema.{
  empty_db, MoneyRequestRow, pending, ProcessEventRow, EntityType, EventName,
}
use pstu_backend.Store.Events.{event_row}
use pstu_backend.Store.Logs.{ProcessEventDto, event_dto}
use pstu_backend.Store.Logs.Picks.{Picks}
use pstu_backend.Auth.Transactions.{new_user}
use pstu_backend.Requests.Dto.{request_dto}
use pstu_backend.Requests.Queries.{
  GetRequestsQuery, PaginatedRequestsResponse, get_requests, get_request_events,
}
use pstu_backend.System.Private.{
  request, get_events, is_party, get_events-eq-ok, all_rows, is_own, get_requests-own,
}
use pstu_backend.Scenarios.Memory.{nothing_kept}
use pstu_backend.Scenarios.World.{State, alice, bob, fresh_account}

abbrev carol : Uuid
carol = 3

abbrev asked : Uuid → Uuid → Uuid → MoneyRequestRow
asked id requester debtor = record {
  id = id;
  requester_id = requester;
  debtor_id = debtor;
  amount_paisa = 500;
  note = codes "tickets";
  status = pending;
  created_at = 10;
  resolved_at = none;
}

abbrev asked_event : Uuid → Uuid → ProcessEventRow
asked_event id requester =
    event_row EntityType.request id EventName.created (some requester) "Money request created" [] 10

abbrev asking : State
asking = record {
  db = record empty_db {
    users =
        new_user (codes "Alice") (codes "1") (codes "secret") (codes "1234")
          (fresh_account alice "A1")
        ∷ new_user (codes "Bob") (codes "2") (codes "secret") (codes "1234")
            (fresh_account bob "B1")
        ∷ new_user (codes "Carol") (codes "3") (codes "secret") (codes "1234")
            (fresh_account carol "C1")
        ∷ [];
    money_requests = asked 50 bob alice ∷ asked 51 bob carol ∷ [];
    process_events = asked_event 50 bob ∷ asked_event 51 bob ∷ [];
  };
  cache = nothing_kept;
}

abbrev events : List ProcessEventDto
events = event_dto asking.db (1, asked_event 50 bob) ∷ []

get_events-eq-ok_example :
    (is_party request alice 50 asking.db ≡ true)
    × Picks asking.db EntityType.request 50 0 asking.db.process_events events
unfolding get_events get_request_events
get_events-eq-ok_example = get_events-eq-ok alice 50 asking request events refl

abbrev all_requests : GetRequestsQuery
all_requests = record { status = none; role = none; cursor = none; limit = none }

abbrev list : PaginatedRequestsResponse
list = record {
  items =
      record {
        request = request_dto (asked 50 bob alice) pending none;
        requester = record { id = bob; name = codes "Bob"; account_number = codes "B1" };
        debtor = record { id = alice; name = codes "Alice"; account_number = codes "A1" };
      }
      ∷ [];
  next_cursor = none;
}

listed : (get_requests alice all_requests asking).0 ≡ ok list
unfolding get_requests
listed = refl

get_requests-own_example : all_rows (is_own alice) list.items ≡ true
get_requests-own_example = get_requests-own alice all_requests asking list listed
