-- ===== src/Core/Money.antt =====
-- core/money.rs: amounts in paisa and their decimal form. `\d` in a pattern of the crate regex is a
-- decimal digit of any script: the table of those is the parameter `is_digit`.
pub mod Bounds
pub mod RoundTrip
pub mod Checked
use pstu_backend.Prelude.{
  ℕ, suc, ◌+◌, ◌*◌, Text, Bool, true, false, ◌&&◌, Option, none, some, List, [], ◌∷◌, ◌++◌, ltb,
  leb, ◌==◌, if◌then◌else◌, length, i64_limit,
}
use pstu_backend.Core.Text.{trim, split_once, byte_len, parse_i64, to_text}
use pstu_backend.Core.Limits.{max_paisa_amount}

pub data MoneyParseError : Type 0 where
  invalid_format too_many_decimal_places non_positive overflow exceeds_max_cap : MoneyParseError

-- `Result<_, MoneyParseError>`
pub data Parsed : Type 0 where
  parsed : ℕ → Parsed
  refused : MoneyParseError → Parsed

infixl 5 ◌>>=◌
abbrev pub ◌>>=◌ : Parsed → (ℕ → Parsed) → Parsed
parsed n >>= f = f n
refused e >>= f = refused e

abbrev or_refuse : Option ℕ → MoneyParseError → Parsed
or_refuse none e = refused e
or_refuse (some n) e = parsed n

-- `i64::checked_mul` and `i64::checked_add` on numbers from 0 on
abbrev pub checked : ℕ → Option ℕ
checked n = if ltb n i64_limit then some n else none

module _ (is_digit : ℕ → Bool) where
  -- `\d` as often as it matches, and the rest
  unfoldable pub span_digits : Text → Text × Text
  span_digits [] = ([], [])
  span_digits (c ∷ s) =
      let (ds, rest) = span_digits s in if is_digit c then (c ∷ ds, rest) else ([], c ∷ s)

  -- `(\.\d{1,2})?$`
  unfoldable pub fraction_matches : Text → Bool
  fraction_matches [] = true
  fraction_matches (c ∷ []) = false
  fraction_matches (c ∷ d ∷ []) = c == b'.' && is_digit d
  fraction_matches (c ∷ d ∷ e ∷ []) = c == b'.' && is_digit d && is_digit e
  fraction_matches (c ∷ d ∷ e ∷ f ∷ s) = false

  -- `^\d{1,14}(\.\d{1,2})?$`
  unfoldable pub money_regex : Text → Bool
  unfolding span_digits fraction_matches
  money_regex s =
      let (ds, rest) = span_digits s in
      leb 1 (length ds) && leb (length ds) 14 && fraction_matches rest

  -- `^\d{4,6}$`
  unfoldable pub pin_regex : Text → Bool
  unfolding span_digits
  pin_regex s =
      let (ds, rest) = span_digits s in leb 4 (length ds) && leb (length ds) 6 && (length rest == 0)

-- The hundredths: one digit counts tens.
unfoldable pub parse_poisha : Text → Parsed
parse_poisha poisha_part =
    if byte_len poisha_part == 1
    then or_refuse (parse_i64 (poisha_part ++ b'0' ∷ [])) invalid_format
    else if byte_len poisha_part == 2
    then or_refuse (parse_i64 poisha_part) invalid_format
    else refused too_many_decimal_places

unfoldable pub parse_value : Text → Parsed
unfolding parse_poisha
parse_value trimmed = elim (split_once b'.' trimmed) [
  | none ↦ or_refuse (parse_i64 trimmed) overflow
  | some (taka_part, poisha_part) ↦ do
    taka ← or_refuse (parse_i64 taka_part) overflow
    poisha ← parse_poisha poisha_part
    hundreds ← or_refuse (checked (taka * 100)) overflow
    or_refuse (checked (hundreds + poisha)) overflow
]

-- The test against the cap.
abbrev under_cap : ℕ → Parsed
under_cap value = if ltb max_paisa_amount value then refused exceeds_max_cap else parsed value

module _ (is_digit : ℕ → Bool) where
  -- `Paisa::parse_from_str`
  unfoldable pub parse_from_str : Text → Parsed
  unfolding parse_value
  parse_from_str s =
      if money_regex is_digit (trim s)
      then parse_value (trim s) >>= under_cap
      else refused invalid_format

  -- `Paisa::parse_positive_from_str`
  unfoldable pub parse_positive_from_str : Text → Parsed
  unfolding parse_from_str
  parse_positive_from_str s = do
    money ← parse_from_str s
    if leb money 0 then refused non_positive else parsed money

-- `Paisa::serialize`: the JSON string with the number of paisa
unfoldable pub serialize : ℕ → Text
serialize money = to_text money

module _ (is_digit : ℕ → Bool) where
  -- `PaisaVisitor::visit_str`; a JSON value that is not a string does not reach it.
  unfoldable pub visit_str : Text → Parsed
  visit_str value = parse_from_str is_digit value
