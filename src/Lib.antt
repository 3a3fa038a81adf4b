-- ===== src/Lib.antt =====
-- pstu_backend: a wallet back end. Users register and get a seed balance, pay one another, ask one
-- another for money, and offer payment links; every movement is written to a double-entry ledger that
-- a reconciliation audits. This library models the HTTP routes and the services behind them, on the
-- tables of PostgreSQL and the keys of Redis, and proves what keeps the money right.
--
-- How the program is put together, and where each part is modelled:
--   core/error.rs, core/state.rs      Core/Error, Core/App: the errors; a handler as a function from
--                                     the state (tables and cache) to a result and a new state
--   core/money.rs                     Core/Money over Core/Text: Paisa::parse_from_str and printing;
--                                     Core/Money/Checked: checked_add and checked_sub
--   core/pin.rs                       Core/Pin: enforce_user_pin and its lockout counter
--   migrations/0001_init.sql          Store/Schema, Store/Statements: the rows, and each INSERT and
--                                     UPDATE under the CHECKs, keys and unique indexes of its table
--   features/events/service.rs        Store/Events: log_event_txn, log_event
--   sqlx transactions                 Store/Tx: a body on its own copy of the tables, which COMMIT
--                                     keeps and an error drops
--   core/config.rs, core/mail.rs      Core/Config: load_from_env; Startup/Mail: when mail is sent
--   core/reference.rs                 Core/Reference: the references, on the bytes that are drawn
--   core/envelope.rs                  Http: ApiResponse, and the steps that the routes share;
--                                     Http/Envelope: into_response of an error
--   features/*/dto.rs, #[validate]    Http/Validate: the invalid fields of each payload
--   features/users/service.rs         Users: normalize_phone, resolve_recipient_user
--   core/ratelimit.rs                 Core/RateLimit: check_sliding_window_rate_limit and
--                                     enforce_rate_limit
--   features/auth/service.rs          Auth: register_user, login_user, logout_user, change_pin,
--                                     reset_pin
--   features/auth/middleware.rs       Auth/Sessions: authenticate, the extraction of the user
--   features/transfers/service.rs     Transfers: process_transfer, numbered steps as functions, and
--                                     get_transfer_detail, get_transfer_events
--   features/requests/service.rs      Requests: create_, accept_, reject_, cancel_request,
--                                     get_requests, get_request_events
--   features/links/service.rs         Links: create_link, get_link_by_token, claim_, cancel_link,
--                                     get_my_links, get_link_events
--   features/history/service.rs       History: get_transactions, generate_statement_csv,
--                                     get_user_activity
--   features/notifications/service.rs Notifications: get_notifications, mark_notifications_read
--   features/events/model.rs          Store/Logs: the events as a query answers them
--   features/ai/parser.rs             Ai: parse_intent
--   features/reconcile/service.rs     Reconcile: run_reconciliation
--   features/*/routes.rs              Auth, Users, Transfers, Requests, Links, History, Notifications
--                                     and Ai, each with its Routes: the handlers on decoded inputs
--   lib.rs                            Router: any request to any route and its handler; Router/Paths:
--                                     the table of paths; Startup/Cors: the CORS layer
--   main.rs, bin/reconcile.rs         Startup/Connect: the start of the server; Startup/Audit: the
--                                     audit program
-- Transfers, accepted requests and claimed links move money by the same statements in the same order:
-- these are Movement.settle, over a record of the parties, kinds and messages that differ. The
-- invariant of the books is Books/Invariant; System composes the services into sequences of calls, and
-- Router composes the handlers of the routes, whose Gate is the table of what each route asks for, and
-- whose Serving is the table of the service that each calls once it has let a request through.
-- The lists of History, Notifications, Requests and Links are answered in pages, which are Paging.
-- Scenarios runs the handlers on concrete data.
--
-- Numbers. Amounts and balances are BIGINT and i64. A value is its 64-bit pattern, a natural number
-- below 2^64; i64_add, i64_neg and i64_mul wrap, and a pattern below 2^63 is a number from 0 on. A
-- build with overflow checks panics where these wrap. Uuids and instants (microseconds) are natural
-- numbers, texts are lists of code points, and `today` is the number of the day. The clock of a call is
-- one instant, `now`, save for the answers that take the time after the commit, which is `answered_at`.
--
-- Fuel. Printing a number is given 19 steps, one for each digit that an i64 can have. A client that
-- follows cursors is given as many pages as the table has rows, and one more. The start of the server
-- connects with the 15 attempts of the source.
--
-- Concurrency. A transaction is one step of the state. The row locks that transactions take one after
-- another while others run are Movement/Deadlock, over the rows that SELECT ... FOR UPDATE locks; the
-- locks that a unique index takes are not in it. Transfers/Race is the write of a transfer whose key was
-- tested before another transfer wrote it. The reconciliation reads one state of the tables, as on a
-- database at rest: its queries run one after another without a transaction, and what other sessions
-- write between them is not modelled. The cache may change between two calls in any way.
--
-- Parameters (Core/Services): Redis as its commands on typed keys (counters, strings, sets, sorted
-- sets), Argon2, the parser and printer of UUIDs, the digits of the crate regex, ILIKE and the
-- printing of times. RedisLaws says what Redis documents of its counters while it answers, SessionLaws
-- of its strings and sets, with the round trip of a printed UUID, and WindowLaws of its sorted sets;
-- PasswordLaws is what Argon2 documents. The theorems on PINs, logins, sessions and the rate limiter
-- name the laws that they use; no other theorem has one. Ai.Patterns is what the patterns of the AI
-- parser find in a text. A key's time to live is not modelled: a key that lapses is a change of the
-- cache between two calls. What a handler draws at random or from the clock (ids, references, tokens,
-- now) is its input.
-- Router.Server adds the printing of the crate validator, the similarity of pg_trgm and the
-- configuration; Startup/Connect takes what the environment answers to the start.
--
-- Not modelled: decoding and encoding by axum and serde, with the refusals of inputs that cannot be
-- decoded; the texts of e-mail and NATS messages and their delivery, which follow a commit and change no
-- state; the layers for body size, tracing, panics and request ids; telemetry and shutdown, which only
-- call their crates.
pub mod Paging
pub mod Prelude
pub mod Core
pub mod Store
pub mod Users
pub mod Auth
pub mod Books
pub mod Movement
pub mod Transfers
pub mod Requests
pub mod Links
pub mod History
pub mod Http
pub mod Notifications
pub mod Ai
pub mod Reconcile
pub mod System
pub mod Router
pub mod Startup
mod Scenarios
