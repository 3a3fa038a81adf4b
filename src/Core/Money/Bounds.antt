-- ===== src/Core/Money/Bounds.antt =====
-- The range of the amounts that core/money.rs accepts.
use pstu_backend.Prelude.{ℕ, ◌≤◌, ◌<◌, ◌≡◌, Text, Bool, arith}
use pstu_backend.Core.Limits.{max_paisa_amount}
use pstu_backend.Core.Money.{parsed, parse_positive_from_str}

-- An amount that is read as positive is at least 1 paisa and at most the cap, whatever the text and
-- whatever counts as a digit.
pub parse_positive_from_str-bounds :
    (is_digit : ℕ → Bool) (s : Text) (n : ℕ)
    → parse_positive_from_str is_digit s ≡ parsed n
    → (0 < n) × (n ≤ max_paisa_amount)
unfolding parse_positive_from_str
parse_positive_from_str-bounds is_digit s n h = ground (arith, h)
