-- ===== src/Store/Logs/Picks.antt =====
-- The specification of a query for the events of one entity, and that `entity_events` meets it.
use pstu_backend.Prelude.{
  ℕ, ◌+◌, ◌≡◌, refl, arith, Uuid, Bool, true, ◌&&◌, List, [], ◌∷◌, ◌==◌, map, Bool-cases, inl, inr,
  where_rows,
}
use pstu_backend.Store.Schema.{Db, EntityType, ProcessEventRow}
use pstu_backend.Store.Logs.{
  ProcessEventDto, counterparty, numbered, event_dto, same_entity_type, entity_events,
}

same_entity_type-eq : (a b : EntityType) → same_entity_type a b ≡ true → a ≡ b
same_entity_type-eq a b h = ground (arith, h)

same_entity_type_refl : (a : EntityType) → same_entity_type a a ≡ true
same_entity_type_refl a = ground arith

-- A row of the audit log as it is answered under its number: everything of it, with the name and the
-- account of its actor.
pub record Shows (db : Db) (n : ℕ) (e : ProcessEventRow) (x : ProcessEventDto) : Type 0 where
  pub id : x.id ≡ n
  pub entity_type : x.entity_type ≡ e.entity_type
  pub entity_id : x.entity_id ≡ e.entity_id
  pub event : x.event ≡ e.event
  pub actor : x.actor ≡ counterparty e.actor_id db
  pub reason : x.reason ≡ e.reason
  pub meta : x.meta ≡ e.meta
  pub created_at : x.created_at ≡ e.created_at

-- A list of answers picks the rows of a kind and an id out of the log, each once and in their order:
-- no row of them is left out and no other is taken. The rows are numbered from the one after `n` on.
pub data Picks (db : Db) (kind : EntityType) (id : Uuid)
    : ℕ → List ProcessEventRow → List ProcessEventDto → Type 0 where
  no_rows : (n : ℕ) → Picks db kind id n [] []
  picked :
      (n : ℕ) (e : ProcessEventRow) (rows : List ProcessEventRow) (x : ProcessEventDto)
      (xs : List ProcessEventDto)
      → e.entity_type ≡ kind
      → e.entity_id ≡ id
      → Shows db (n + 1) e x
      → Picks db kind id (n + 1) rows xs
      → Picks db kind id n (e ∷ rows) (x ∷ xs)
  left_out :
      (n : ℕ) (e : ProcessEventRow) (rows : List ProcessEventRow) (xs : List ProcessEventDto)
      → ¬ ((e.entity_type ≡ kind) × (e.entity_id ≡ id))
      → Picks db kind id (n + 1) rows xs
      → Picks db kind id n (e ∷ rows) xs

module _ (db : Db) (kind : EntityType) (id : Uuid) where
  abbrev of_entity : ℕ × ProcessEventRow → Bool
  of_entity e = same_entity_type e.1.entity_type kind && e.1.entity_id == id

  row-Shows : (n : ℕ) (e : ProcessEventRow) → Shows db n e (event_dto db (n, e))
  row-Shows n e = record {
    id = refl;
    entity_type = refl;
    entity_id = refl;
    event = refl;
    actor = refl;
    reason = refl;
    meta = refl;
    created_at = refl;
  }

  numbered-Picks :
      (n : ℕ) (rows : List ProcessEventRow)
      → Picks db kind id n rows (map (event_dto db) (where_rows of_entity (numbered n rows)))
  numbered-Picks n [] = no_rows n
  numbered-Picks n (e ∷ rows) = elim (Bool-cases (of_entity (n + 1, e))) [
    | inl wanted ↦ rw wanted (
        picked n e rows _ _ (same_entity_type-eq e.entity_type kind (ground (arith, wanted)))
          (ground (arith, wanted)) (row-Shows (n + 1) e) (numbered-Picks (n + 1) rows))
    | inr other ↦ rw other (
        left_out n e rows _
          (λ same. absurd (ground (arith, other, same, same_entity_type_refl kind)))
          (numbered-Picks (n + 1) rows))
  ]

  pub entity_events-Picks : Picks db kind id 0 db.process_events (entity_events kind id db)
  entity_events-Picks = numbered-Picks 0 db.process_events
