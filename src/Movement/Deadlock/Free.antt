-- ===== src/Movement/Deadlock/Free.antt =====
-- One of the running transactions can go on.
use pstu_backend.Prelude.{
  ℕ, zero, suc, ◌+◌, ◌≤◌, length, ◌≡◌, ◌∙◌, ap, arith, Bool, true, false, not, ◌||◌, List, [], ◌∷◌,
  Bool-cases, inl, inr,
}
use pstu_backend.Movement.Deadlock.{
  Drains, drained, one_step, advance, Row, request, link, balance, Worker, same_row, before,
  has_row, is_locked, Advance, lock, commit, another, Running,
}
use pstu_backend.Movement.Deadlock.Ordered.{
  all_before, held_before, all_ordered, Running-all_ordered,
}
use pstu_backend.Movement.Deadlock.Last.{
  is_next, is_wanted, last_wanted, last_wanted_max, last_wanted-cases, same_row_refl,
}

abbrev is_ready : (Row → Bool) → List Row → Bool
is_ready locked [] = true
is_ready locked (r ∷ rs) = not (locked r)

abbrev can_advance : (Row → Bool) → List Worker → Bool
can_advance locked [] = false
can_advance locked (w ∷ ws) = is_ready locked w.todo || can_advance locked ws

is_ready-Advance :
    (locked : Row → Bool) (held todo : List Row) (ws : List Worker)
    → is_ready locked todo ≡ true
    → (ws' : List Worker) × Advance locked (record { held = held; todo = todo } ∷ ws) ws'
is_ready-Advance locked held [] ws h = (ws, commit held ws)
is_ready-Advance locked held (r ∷ todo) ws h =
    (record { held = r ∷ held; todo = todo } ∷ ws, lock held r todo ws (ground (arith, h)))

can_advance-Advance :
    (locked : Row → Bool) (ws : List Worker)
    → can_advance locked ws ≡ true
    → (ws' : List Worker) × Advance locked ws ws'
can_advance-Advance locked [] h = absurd (ground (arith, h))
can_advance-Advance locked (w ∷ ws) h = elim (Bool-cases (is_ready locked w.todo)) [
  | inl ready ↦ is_ready-Advance locked w.held w.todo ws ready
  | inr waiting ↦
      let (ws', m) = can_advance-Advance locked ws (ground (arith, h, waiting)) in
      (w ∷ ws', another w ws ws' m)
]

same_row-eq : (r q : Row) → same_row r q ≡ true → r ≡ q
same_row-eq (request a) (request b) h = ground (arith, h)
same_row-eq (link a) (link b) h = ground (arith, h)
same_row-eq (balance a) (balance b) h = ground (arith, h)
same_row-eq (request a) (link b) h = absurd (ground (arith, h))
same_row-eq (request a) (balance b) h = absurd (ground (arith, h))
same_row-eq (link a) (request b) h = absurd (ground (arith, h))
same_row-eq (link a) (balance b) h = absurd (ground (arith, h))
same_row-eq (balance a) (request b) h = absurd (ground (arith, h))
same_row-eq (balance a) (link b) h = absurd (ground (arith, h))

module _ (locked : Row → Bool) where
  -- Where no one can advance, every row that is waited for is locked.
  waiting_locked :
      (r : Row) (rs : List Row) → is_ready locked rs ≡ false → is_next r rs ≡ true → locked r ≡ true
  waiting_locked r [] h k = cc
  waiting_locked r (q ∷ rs) h k = ground (arith, h, k, same_row-eq r q)

  stuck_locked :
      (r : Row) (ws : List Worker)
      → can_advance locked ws ≡ false
      → is_wanted r ws ≡ true
      → locked r ≡ true
  stuck_locked r [] h k = cc
  stuck_locked r (w ∷ ws) h k = ground (arith, h, k, waiting_locked r w.todo, stuck_locked r ws)

  has_row-before :
      (r q : Row) (held : List Row)
      → has_row r held ≡ true
      → all_before held q ≡ true
      → before r q ≡ true
  has_row-before r q [] h k = cc
  has_row-before r q (x ∷ held) h k = ground (arith, h, k, has_row-before r q held)

  -- The worker that holds a row waits for a later one.
  holder_waits :
      (r : Row) (held todo : List Row)
      → has_row r held ≡ true
      → held_before held todo ≡ true
      → is_ready locked todo ≡ false
      → (q : Row) × (is_next q todo ≡ true) × (before r q ≡ true)
  holder_waits r held [] h o s = absurd (ground (arith, s))
  holder_waits r held (q ∷ todo) h o s = (q, same_row_refl q, has_row-before r q held h o)

  is_locked_waits :
      (r : Row) (ws : List Worker)
      → is_locked ws r ≡ true
      → all_ordered ws ≡ true
      → can_advance locked ws ≡ false
      → (q : Row) × (is_wanted q ws ≡ true) × (before r q ≡ true)
  is_locked_waits r [] h o s = absurd (ground (arith, h))
  is_locked_waits r (w ∷ ws) h o s = elim (Bool-cases (has_row r w.held)) [
    | inl here ↦
        let (q, next, b) =
          holder_waits r w.held w.todo here (ground (arith, o)) (ground (arith, s)) in
        (q, ground (arith, next), b)
    | inr other ↦
        let (q, wanted, b) =
          is_locked_waits r ws (ground (arith, h, other)) (ground (arith, o)) (ground (arith, s)) in
        (q, ground (arith, wanted), b)
  ]

not_stuck :
    (w : Worker) (ws : List Worker) (r : Row)
    → all_ordered (w ∷ ws) ≡ true
    → is_wanted r (w ∷ ws) ≡ true
    → ¬ (can_advance (is_locked (w ∷ ws)) (w ∷ ws) ≡ false)
not_stuck w ws r o wanted s =
    let all : List Worker = w ∷ ws in
    let last : is_wanted (last_wanted r all) all ≡ true = elim (last_wanted-cases r all) [
      | inl same ↦ ap (λ x. is_wanted x all) same ∙ wanted
      | inr found ↦ found
    ] in
    let taken = stuck_locked (is_locked all) (last_wanted r all) all s last in
    let (q, next, b) = is_locked_waits (is_locked all) (last_wanted r all) all taken o s in
    ground (arith, b, last_wanted_max r q all next)

waits :
    (locked : Row → Bool) (rs : List Row)
    → is_ready locked rs ≡ false
    → (r : Row) × (is_next r rs ≡ true)
waits locked [] h = absurd (ground (arith, h))
waits locked (r ∷ rs) h = (r, same_row_refl r)

-- Of the transactions that run at any time, one can go on: it locks its next row, which no other holds,
-- or it has all its rows and commits.
pub Running-Advance :
    (w : Worker) (ws : List Worker)
    → Running (w ∷ ws)
    → (ws' : List Worker) × Advance (is_locked (w ∷ ws)) (w ∷ ws) ws'
Running-Advance w ws h = elim (Bool-cases (can_advance (is_locked (w ∷ ws)) (w ∷ ws))) [
  | inl moving ↦ can_advance-Advance (is_locked (w ∷ ws)) (w ∷ ws) moving
  | inr stuck ↦
      let (r, next) = waits (is_locked (w ∷ ws)) w.todo (ground (arith, stuck)) in
      absurd (not_stuck w ws r (Running-all_ordered (w ∷ ws) h) (ground (arith, next)) stuck)
]

-- The locks and commits that are left.
abbrev steps_left : List Worker → ℕ
steps_left [] = 0
steps_left (w ∷ ws) = suc (length w.todo) + steps_left ws

Advance-steps_left :
    (locked : Row → Bool) (ws ws' : List Worker)
    → Advance locked ws ws'
    → suc (steps_left ws') ≡ steps_left ws
Advance-steps_left locked _ _ (lock held r todo ws free) = omega arith
Advance-steps_left locked _ _ (commit held ws) = omega arith
Advance-steps_left locked _ _ (another w ws ws' m) =
    omega (arith, Advance-steps_left locked ws ws' m)

steps_left-Drains : (n : ℕ) (ws : List Worker) → steps_left ws ≤ n → Running ws → Drains ws
steps_left-Drains n [] l h = drained
steps_left-Drains zero (w ∷ ws) l h = absurd (omega (arith, l))
steps_left-Drains (suc n) (w ∷ ws) l h =
    let (ws', m) = Running-Advance w ws h in
    one_step (w ∷ ws) ws' m (
      steps_left-Drains n ws'
        (omega (arith, l, Advance-steps_left (is_locked (w ∷ ws)) (w ∷ ws) ws' m))
        (advance (w ∷ ws) ws' h m))

-- However many transactions that pay, close or claim run at the same time, and however far each has
-- come in locking its rows, there is a sequence of locks, each of a row that no one holds, and
-- commits that brings all of them to their ends.
pub Running-Drains : (ws : List Worker) → Running ws → Drains ws
Running-Drains ws h = steps_left-Drains (steps_left ws) ws (omega arith) h
