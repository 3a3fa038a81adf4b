-- ===== src/Store/Events.antt =====
-- features/events/service.rs: the audit log. `log_event_txn`, `log_event_conn` and `log_event` run
-- one statement, in a transaction, on a connection and on the pool.
use Prim.Native.String.{String}
use pstu_backend.Prelude.{Uuid, Instant, Option, List, [], ◌∷◌, ◌++◌}
use pstu_backend.Store.Schema.{Db, ProcessEventRow, EntityType, EventName, MetaValue}
use pstu_backend.Store.Statements.{counterparty_exists}
use pstu_backend.Store.Tx.{Tx, ⊤, write, run_tx}

abbrev pub event_row :
    EntityType
    → Uuid
    → EventName
    → Option Uuid
    → String
    → List (String × MetaValue)
    → Instant
    → ProcessEventRow
event_row kind id event actor reason meta now = record {
  entity_type = kind;
  entity_id = id;
  event = event;
  actor_id = actor;
  reason = reason;
  meta = meta;
  created_at = now;
}

-- `log_event_txn`, on the event's row.
unfoldable pub log_event_txn : ProcessEventRow → Tx ⊤
log_event_txn e =
    write (counterparty_exists e.actor_id)
      λ db. record db { process_events = db.process_events ++ e ∷ [] }

-- `let _ = log_event(…)`: in a statement of its own, whose error is dropped.
unfoldable pub log_event : ProcessEventRow → Db → Db
unfolding log_event_txn
log_event e db = (run_tx (log_event_txn e) db).1
