-- ===== src/Movement/Deadlock/Ordered.antt =====
-- In every state of the running transactions, what each holds comes before what it has still to lock.
use pstu_backend.Prelude.{◌≡◌, refl, arith, Bool, true, ◌&&◌, List, [], ◌∷◌}
use pstu_backend.Movement.Deadlock.{
  Row, Locking, pay_transfer, pay_request, close_request, pay_link, close_link, rows, Worker,
  starting, before, is_locked, Advance, lock, commit, another, Leaves, leave, Running, idle, begin,
  advance, end_early,
}

-- The rows ascend.
abbrev ascends : List Row → Bool
ascends [] = true
ascends (r ∷ []) = true
ascends (r ∷ q ∷ rs) = before r q && ascends (q ∷ rs)

abbrev pub all_before : List Row → Row → Bool
all_before [] q = true
all_before (r ∷ rs) q = before r q && all_before rs q

abbrev pub held_before : List Row → List Row → Bool
held_before held [] = true
held_before held (q ∷ qs) = all_before held q

-- What a worker holds comes before what it has still to lock.
abbrev pub is_ordered : Worker → Bool
is_ordered w = held_before w.held w.todo && ascends w.todo

abbrev pub all_ordered : List Worker → Bool
all_ordered [] = true
all_ordered (w ∷ ws) = is_ordered w && all_ordered ws

rows-ascends : (l : Locking) → ascends (rows l) ≡ true
rows-ascends (pay_transfer payer payee) = ground arith
rows-ascends (pay_request id payer payee) = ground arith
rows-ascends (close_request id) = refl
rows-ascends (pay_link id payer payee) = ground arith
rows-ascends (close_link id) = refl

nothing_held : (rs : List Row) → held_before [] rs ≡ true
nothing_held [] = refl
nothing_held (r ∷ rs) = refl

starting-is_ordered : (l : Locking) → is_ordered (starting l) ≡ true
starting-is_ordered l = ground (arith, rows-ascends l, nothing_held (rows l))

before_trans : (r q t : Row) → before r q ≡ true → before q t ≡ true → before r t ≡ true
before_trans r q t h k = ground (arith, h, k)

all_before_trans :
    (held : List Row) (r q : Row)
    → all_before held r ≡ true
    → before r q ≡ true
    → all_before held q ≡ true
all_before_trans [] r q h k = refl
all_before_trans (x ∷ held) r q h k =
    ground (arith, h, k, before_trans x r q, all_before_trans held r q)

lock-is_ordered :
    (held : List Row) (r : Row) (todo : List Row)
    → is_ordered (record { held = held; todo = r ∷ todo }) ≡ true
    → is_ordered (record { held = r ∷ held; todo = todo }) ≡ true
lock-is_ordered held r [] h = refl
lock-is_ordered held r (q ∷ todo) h = ground (arith, h, all_before_trans held r q)

Advance-all_ordered :
    (locked : Row → Bool) (ws ws' : List Worker)
    → Advance locked ws ws'
    → all_ordered ws ≡ true
    → all_ordered ws' ≡ true
Advance-all_ordered locked _ _ (lock held r todo ws free) h =
    ground (arith, h, lock-is_ordered held r todo)
Advance-all_ordered locked _ _ (commit held ws) h = ground (arith, h)
Advance-all_ordered locked _ _ (another w ws ws' m) h =
    ground (arith, h, Advance-all_ordered locked ws ws' m)

Leaves-all_ordered :
    (ws ws' : List Worker) → Leaves ws ws' → all_ordered ws ≡ true → all_ordered ws' ≡ true
Leaves-all_ordered _ _ (leave w ws) h = ground (arith, h)
Leaves-all_ordered _ _ (another w ws ws' m) h = ground (arith, h, Leaves-all_ordered ws ws' m)

pub Running-all_ordered : (ws : List Worker) → Running ws → all_ordered ws ≡ true
Running-all_ordered _ idle = refl
Running-all_ordered _ (begin l ws h) =
    ground (arith, starting-is_ordered l, Running-all_ordered ws h)
Running-all_ordered _ (advance ws ws' h m) =
    Advance-all_ordered (is_locked ws) ws ws' m (Running-all_ordered ws h)
Running-all_ordered _ (end_early ws ws' h m) =
    Leaves-all_ordered ws ws' m (Running-all_ordered ws h)
