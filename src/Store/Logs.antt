-- ===== src/Store/Logs.antt =====
-- features/events/model.rs, and the rows of the audit log with their ids.
pub mod Picks
use Prim.Native.String.{String}
use pstu_backend.Prelude.{
  ℕ, ◌+◌, Uuid, Instant, Text, Bool, true, false, ◌&&◌, Option, none, some, List, [], ◌∷◌, map,
  where_rows, ◌==◌,
}
use pstu_backend.Store.Schema.{Db, UserRow, EntityType, EventName, MetaValue, ProcessEventRow}
use pstu_backend.Store.Statements.{find_user}

pub record CounterpartyDto : Type 0 where
  pub name : Text
  pub account_number : Text

pub record ProcessEventDto : Type 0 where
  pub id : ℕ
  pub entity_type : EntityType
  pub entity_id : Uuid
  pub event : EventName
  pub actor : Option CounterpartyDto
  pub reason : String
  pub meta : List (String × MetaValue)
  pub created_at : Instant

abbrev dto_of : Option UserRow → Option CounterpartyDto
dto_of none = none
dto_of (some u) = some (record { name = u.name; account_number = u.account_number })

-- `LEFT JOIN users u ON u.id = …`
abbrev pub joined_user : Option Uuid → Db → Option UserRow
joined_user none db = none
joined_user (some u) db = find_user u db.users

abbrev pub counterparty : Option Uuid → Db → Option CounterpartyDto
counterparty u db = dto_of (joined_user u db)

-- Rows with their ids: the positions, from the one after a number on.
abbrev pub numbered {ℓ} : {A : Type ℓ} → ℕ → List A → List (ℕ × A)
numbered n [] = []
numbered n (x ∷ xs) = (n + 1, x) ∷ numbered (n + 1) xs

abbrev pub event_dto : Db → ℕ × ProcessEventRow → ProcessEventDto
event_dto db (id, e) = record {
  id = id;
  entity_type = e.entity_type;
  entity_id = e.entity_id;
  event = e.event;
  actor = counterparty e.actor_id db;
  reason = e.reason;
  meta = e.meta;
  created_at = e.created_at;
}

abbrev pub same_entity_type : EntityType → EntityType → Bool
same_entity_type EntityType.transfer EntityType.transfer = true
same_entity_type EntityType.request EntityType.request = true
same_entity_type EntityType.link EntityType.link = true
same_entity_type EntityType.auth EntityType.auth = true
same_entity_type EntityType.system EntityType.system = true
same_entity_type _ _ = false

-- `WHERE pe.entity_type = … AND pe.entity_id = $1 ORDER BY pe.id ASC`: the rows are in that order.
abbrev pub entity_events : EntityType → Uuid → Db → List ProcessEventDto
entity_events kind id db = map (event_dto db) (
    where_rows
      (λ (e : ℕ × ProcessEventRow). same_entity_type e.1.entity_type kind && e.1.entity_id == id)
      (numbered 0 db.process_events))
