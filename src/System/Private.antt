-- ===== src/System/Private.antt =====
-- What a user can read of the records of others: the routes that answer one record's events, and the
-- list of money requests.
use pstu_backend.Prelude.{
  ℕ, suc, zero, ◌≡◌, refl, arith, Uuid, Bool, true, ◌&&◌, ◌||◌, some, List, [], ◌∷◌, ◌==◌,
  Bool-cases, Option-cases, inl, inr, first_row, length, ◌+◌, ◌∙◌, take, where_rows, if◌then◌else◌,
}
use pstu_backend.Core.Error.{ok}
use pstu_backend.Core.App.{AppState, Action}
use pstu_backend.Store.Schema.{Db, TransferRow, MoneyRequestRow, PaymentLinkRow, EntityType}
use pstu_backend.Store.Statements.{exists_row}
use pstu_backend.Store.Logs.{ProcessEventDto, entity_events}
use pstu_backend.Store.Logs.Picks.{Picks, entity_events-Picks}
use pstu_backend.Paging.{page_limit, insert_desc, order_desc}
use pstu_backend.Transfers.Queries.{find_transfer, is_transfer_party, get_transfer_events}
use pstu_backend.Requests.Dto.{find_request}
use pstu_backend.Requests.Queries.{
  GetRequestsQuery, RequestItem, PaginatedRequestsResponse, is_request_party, joined_requests,
  request_matches, fetch_requests, get_requests, get_request_events,
}
use pstu_backend.Links.Queries.{find_link_id, is_link_party, get_link_events}

-- The records whose events a route answers.
pub data Subject : Type 0 where
  transfer request link : Subject

abbrev pub entity_type : Subject → EntityType
entity_type transfer = EntityType.transfer
entity_type request = EntityType.request
entity_type link = EntityType.link

module _ {C : Type 0} where
  unfoldable pub get_events : Subject → Uuid → Uuid → Action C (List ProcessEventDto)
  get_events transfer = get_transfer_events
  get_events request = get_request_events
  get_events link = get_link_events

-- Some record under an id has the user as a party.
abbrev pub is_party : Subject → Uuid → Uuid → Db → Bool
is_party transfer u id db =
    exists_row (λ (r : TransferRow). r.id == id && is_transfer_party u r.sender_id r.recipient_id)
      db.transfers
is_party request u id db =
    exists_row (λ (r : MoneyRequestRow). r.id == id && is_request_party u r) db.money_requests
is_party link u id db =
    exists_row (λ (l : PaymentLinkRow). l.id == id && is_link_party u l) db.payment_links

-- The first row that passes one test, and passes another, is a row that passes both.
exists_row-first_row :
    {A : Type 0} (p q : A → Bool) (rows : List A) (r : A)
    → first_row p rows ≡ some r
    → q r ≡ true
    → exists_row (λ x. p x && q x) rows ≡ true
exists_row-first_row p q [] r e h = cc
exists_row-first_row p q (x ∷ rows) r e h = ground (arith, e, h, exists_row-first_row p q rows r)

module _ {C : Type 0} (u id : Uuid) (s : AppState C) where
  events-Picks :
      (k : Subject) (events : List ProcessEventDto)
      → events ≡ entity_events (entity_type k) id s.db
      → Picks s.db (entity_type k) id 0 s.db.process_events events
  events-Picks k events e = rw e (entity_events-Picks s.db (entity_type k) id)

  -- The events of a transfer, a request or a link are answered only to a user who is a party of a
  -- record under that id, and they are the rows of the log of that kind and that id, each once,
  -- whole and in their order, with none left out and no other row among them.
  pub get_events-eq-ok :
      (k : Subject) (events : List ProcessEventDto)
      → (get_events k u id s).0 ≡ ok events
      → (is_party k u id s.db ≡ true) × Picks s.db (entity_type k) id 0 s.db.process_events events
  unfolding get_events get_transfer_events get_request_events get_link_events
  get_events-eq-ok transfer events h = elim (Option-cases (find_transfer id s.db)) [
    | inl gone ↦ absurd (ground (arith, h, gone))
    | inr (t, found) ↦ (
      exists_row-first_row (λ (r : TransferRow). r.id == id)
          (λ (r : TransferRow). is_transfer_party u r.sender_id r.recipient_id) s.db.transfers t
          found (ground (arith, h, found)),
      events-Picks transfer events (ground (arith, h, found)),
    )
  ]
  get_events-eq-ok request events h = elim (Option-cases (find_request id s.db)) [
    | inl gone ↦ absurd (ground (arith, h, gone))
    | inr (r, found) ↦ (
      exists_row-first_row (λ (x : MoneyRequestRow). x.id == id) (is_request_party u)
          s.db.money_requests r found (ground (arith, h, found)),
      events-Picks request events (ground (arith, h, found)),
    )
  ]
  get_events-eq-ok link events h = elim (Option-cases (find_link_id id s.db)) [
    | inl gone ↦ absurd (ground (arith, h, gone))
    | inr (l, found) ↦ (
      exists_row-first_row (λ (x : PaymentLinkRow). x.id == id) (is_link_party u) s.db.payment_links
          l found (ground (arith, h, found)),
      events-Picks link events (ground (arith, h, found)),
    )
  ]

-- Every row passes a test.
abbrev pub all_rows : {A : Type 0} → (A → Bool) → List A → Bool
all_rows p [] = true
all_rows p (x ∷ xs) = p x && all_rows p xs

module _ {A : Type 0} (p : A → Bool) where
  all_rows-take : (n : ℕ) (xs : List A) → all_rows p xs ≡ true → all_rows p (take n xs) ≡ true
  all_rows-take zero xs h = refl
  all_rows-take (suc n) [] h = refl
  all_rows-take (suc n) (x ∷ xs) h = ground (arith, h, all_rows-take n xs)

  all_rows-insert_desc :
      (key : A → ℕ) (x : A) (xs : List A)
      → all_rows p (insert_desc key x xs) ≡ (p x && all_rows p xs)
  all_rows-insert_desc key x [] = refl
  all_rows-insert_desc key x (y ∷ xs) = ground (arith, all_rows-insert_desc key x xs)

  all_rows-order_desc : (key : A → ℕ) (xs : List A) → all_rows p (order_desc key xs) ≡ all_rows p xs
  all_rows-order_desc key [] = refl
  all_rows-order_desc key (x ∷ xs) =
      ground (arith, all_rows-insert_desc key x (order_desc key xs), all_rows-order_desc key xs)

-- A listed request of which the user is the requester or the debtor.
abbrev pub is_own : Uuid → RequestItem → Bool
is_own u i = u == i.request.requester_id || u == i.request.debtor_id

own_row :
    (u : Uuid) (q : GetRequestsQuery) (r : MoneyRequestRow)
    → request_matches u q r ≡ true
    → (u == r.requester_id || u == r.debtor_id) ≡ true
own_row u q r h = ground (arith, h)

all_rows-joined_requests :
    (u : Uuid) (q : GetRequestsQuery) (db : Db) (rows : List MoneyRequestRow)
    → all_rows (is_own u) (joined_requests db (where_rows (request_matches u q) rows)) ≡ true
all_rows-joined_requests u q db [] = refl
all_rows-joined_requests u q db (r ∷ rows) = elim (Bool-cases (request_matches u q r)) [
  | inl listed ↦ ground (arith, listed, own_row u q r listed, all_rows-joined_requests u q db rows)
  | inr left_out ↦ ground (arith, left_out, all_rows-joined_requests u q db rows)
]

module _ {C : Type 0} (u : Uuid) (q : GetRequestsQuery) (s : AppState C) where
  -- Whatever role, status, cursor and limit a query of money requests gives, each request in the
  -- answer has the user as its requester or its debtor.
  pub get_requests-own :
      (answer : PaginatedRequestsResponse)
      → (get_requests u q s).0 ≡ ok answer
      → all_rows (is_own u) answer.items ≡ true
  unfolding get_requests
  get_requests-own answer h =
      let key = λ (i : RequestItem). i.request.created_at in
      let rows = joined_requests s.db (where_rows (request_matches u q) s.db.money_requests) in
      let fetched = fetch_requests u q s.db in
      let own = all_rows-take (is_own u) (page_limit q.limit + 1) (order_desc key rows) (
        all_rows-order_desc (is_own u) key rows
        ∙ all_rows-joined_requests u q s.db s.db.money_requests) in
      ground (
        arith,
        h,
        all_rows-take (is_own u)
            (if length fetched == page_limit q.limit + 1
              then page_limit q.limit
              else length fetched)
            fetched own,
      )
