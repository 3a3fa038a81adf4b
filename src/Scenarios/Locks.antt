-- ===== src/Scenarios/Locks.antt =====
-- Two payments between Alice and Bob at the same time: Alice's balance is locked by one of them.
use pstu_backend.Prelude.{refl, [], ◌∷◌}
use pstu_backend.Movement.Deadlock.{
  balance, pay_transfer, Worker, starting, lock, another, Running, idle, begin, advance, Drains,
}
use pstu_backend.Movement.Deadlock.Free.{Running-Drains}
use pstu_backend.Scenarios.World.{alice, bob}

abbrev there : Worker
there = starting (pay_transfer alice bob)

abbrev back : Worker
back = starting (pay_transfer bob alice)

abbrev back_halfway : Worker
back_halfway = record { held = balance alice ∷ []; todo = balance bob ∷ [] }

both : Running (there ∷ back_halfway ∷ [])
both =
    advance (there ∷ back ∷ []) (there ∷ back_halfway ∷ [])
      (begin (pay_transfer alice bob) (back ∷ []) (begin (pay_transfer bob alice) [] idle))
      (another there (back ∷ []) (back_halfway ∷ [])
        (lock [] (balance alice) (balance bob ∷ []) [] refl))

Running-Drains_example : Drains (there ∷ back_halfway ∷ [])
Running-Drains_example = Running-Drains (there ∷ back_halfway ∷ []) both
