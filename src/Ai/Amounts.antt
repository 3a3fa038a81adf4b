-- ===== src/Ai/Amounts.antt =====
-- The amounts of the AI parser and those of the handlers.
use pstu_backend.Prelude.{
  ℕ, ◌*◌, ◌≡◌, arith, Text, Bool, some, if◌then◌else◌, Option-cases, inl, inr,
}
use pstu_backend.Core.Text.{split_once, trim}
use pstu_backend.Store.Statements.{is_some}
use pstu_backend.Core.Money.{parsed, parse_value, parse_from_str}
use pstu_backend.Ai.{parse_natural_taka_to_paisa}

-- The text has a point.
abbrev pub has_point : Text → Bool
has_point s = is_some (split_once b'.' (trim s))

module _ (is_digit : ℕ → Bool) (s : Text) (n : ℕ) where
  -- Whatever counts as a digit, an amount that the handlers read as a number of paisa is read by the
  -- AI parser as the same number if it has a point, and as a hundred times the number if it has
  -- none.
  pub parse_natural_taka_to_paisa-parse_from_str :
      parse_from_str is_digit s ≡ parsed n
      → parse_natural_taka_to_paisa s ≡ some (if has_point s then n else n * 100)
  unfolding parse_from_str parse_value parse_natural_taka_to_paisa
  parse_natural_taka_to_paisa-parse_from_str h = elim (Option-cases (split_once b'.' (trim s))) [
    | inl no_point ↦ ground (arith, h, no_point)
    | inr (p, point) ↦ ground (arith, h, point)
  ]
