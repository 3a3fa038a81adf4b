-- ===== src/Movement/Deadlock/Last.antt =====
-- Of the rows that running transactions wait for, the last one.
use pstu_backend.Prelude.{
  ◌≡◌, ◌∙◌, refl, arith, Bool, true, false, ◌||◌, List, [], ◌∷◌, if◌then◌else◌, Bool-cases, inl,
  inr, ◌⊎◌,
}
use pstu_backend.Movement.Deadlock.{Row, Worker, same_row, before}

-- A worker waits for the row.
abbrev pub is_next : Row → List Row → Bool
is_next r [] = false
is_next r (q ∷ qs) = same_row r q

abbrev pub is_wanted : Row → List Worker → Bool
is_wanted r [] = false
is_wanted r (w ∷ ws) = is_next r w.todo || is_wanted r ws

-- The last of a row and the rows that are waited for.
abbrev later : Row → List Row → Row
later m [] = m
later m (r ∷ rs) = if before m r then r else m

abbrev pub last_wanted : Row → List Worker → Row
last_wanted m [] = m
last_wanted m (w ∷ ws) = last_wanted (later m w.todo) ws

not_before_trans : (r q t : Row) → before r q ≡ false → before q t ≡ false → before r t ≡ false
not_before_trans r q t h k = ground (arith, h, k)

later_not_before : (m : Row) (rs : List Row) → before (later m rs) m ≡ false
later_not_before m [] = ground arith
later_not_before m (r ∷ rs) = ground arith

last_wanted_not_before : (m : Row) (ws : List Worker) → before (last_wanted m ws) m ≡ false
last_wanted_not_before m [] = ground arith
last_wanted_not_before m (w ∷ ws) =
    not_before_trans (last_wanted (later m w.todo) ws) (later m w.todo) m
      (last_wanted_not_before (later m w.todo) ws) (later_not_before m w.todo)

later-is_next : (m r : Row) (rs : List Row) → is_next r rs ≡ true → before (later m rs) r ≡ false
later-is_next m r [] h = cc
later-is_next m r (q ∷ rs) h = ground (arith, h)

pub last_wanted_max :
    (m r : Row) (ws : List Worker) → is_wanted r ws ≡ true → before (last_wanted m ws) r ≡ false
last_wanted_max m r [] h = cc
last_wanted_max m r (w ∷ ws) h = elim (Bool-cases (is_next r w.todo)) [
  | inl next ↦
      not_before_trans (last_wanted (later m w.todo) ws) (later m w.todo) r
        (last_wanted_not_before (later m w.todo) ws) (later-is_next m r w.todo next)
  | inr other ↦ last_wanted_max (later m w.todo) r ws (ground (arith, h, other))
]

pub same_row_refl : (r : Row) → same_row r r ≡ true
same_row_refl r = ground arith

later-cases : (m : Row) (rs : List Row) → (later m rs ≡ m) ⊎ (is_next (later m rs) rs ≡ true)
later-cases m [] = inl refl
later-cases m (r ∷ rs) = elim (Bool-cases (before m r)) [
  | inl b ↦ inr (ground (arith, b, same_row_refl r))
  | inr b ↦ inl (ground (arith, b))
]

pub last_wanted-cases :
    (m : Row) (ws : List Worker) → (last_wanted m ws ≡ m) ⊎ (is_wanted (last_wanted m ws) ws ≡ true)
last_wanted-cases m [] = inl refl
last_wanted-cases m (w ∷ ws) = elim (last_wanted-cases (later m w.todo) ws) [
  | inr wanted ↦ inr (ground (arith, wanted))
  | inl same ↦ elim (later-cases m w.todo) [
    | inl still ↦ inl (same ∙ still)
    | inr next ↦ inr (ground (arith, same, next))
  ]
]
