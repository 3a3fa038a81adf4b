-- ===== src/Scenarios/Limits.antt =====
-- Three requests of one user to create a transfer, under a limit of two a minute.
use pstu_backend.Prelude.{ℕ, ◌≤◌, refl, arith, Uuid, List, [], ◌∷◌, length}
use pstu_backend.Core.Text.{codes, print_digits, to_text}
use pstu_backend.Core.Services.{entries_after}
use pstu_backend.Core.RateLimit.{window_start}
use pstu_backend.Core.RateLimit.Window.{admitted, last_call, admitted_le}
use pstu_backend.Scenarios.Memory.{memory, memory_window_laws, entries_nothing_kept}
use pstu_backend.Scenarios.World.{empty}

abbrev three_requests : List (ℕ × Uuid)
three_requests = (100000, 1) ∷ (100500, 2) ∷ (101000, 3) ∷ []

admitted_le_example :
    length (
      entries_after
        (window_start (last_call 100000 three_requests) 60)
        (admitted memory (codes "transfer") (codes "alice") 2 60 three_requests [] empty))
    ≤ 2
unfolding print_digits to_text
admitted_le_example =
    admitted_le memory (codes "transfer") (codes "alice") 2 60 memory_window_laws 100000
      three_requests empty (entries_nothing_kept _) (omega arith, (omega arith, (omega arith, tt)))
      (refl, (refl, (refl, tt)))
