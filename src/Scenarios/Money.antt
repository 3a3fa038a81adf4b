-- ===== src/Scenarios/Money.antt =====
-- The theorems on amounts, at 12.50 and at 2500, and differences at the ends of the range.
use pstu_backend.Prelude.{◌≡◌, refl, arith, none, some}
use pstu_backend.Core.Text.{codes, is_ascii_digit, to_text, trim, parse_i64, split_once}
use pstu_backend.Core.Money.{parsed, parse_from_str, parse_positive_from_str, money_regex}
use pstu_backend.Core.Money.Checked.{checked_add, checked_sub}
use pstu_backend.Core.Money.RoundTrip.{parse_from_str-to_text}

amount_read : parse_positive_from_str is_ascii_digit (codes " 12.5 ") ≡ parsed 1250
unfolding parse_positive_from_str money_regex trim parse_i64 split_once
amount_read = refl

parse_from_str-to_text_example : parse_from_str is_ascii_digit (to_text 2500) ≡ parsed 2500
parse_from_str-to_text_example = parse_from_str-to_text is_ascii_digit (λ c h. h) 2500 (omega arith)

-- 5 less 8 is the pattern of -3; the least number cannot be lessened.
difference_below_zero : checked_sub 5 8 ≡ some 18446744073709551613
unfolding checked_sub
difference_below_zero = refl

difference_overflows : checked_sub 9223372036854775808 1 ≡ none
unfolding checked_sub
difference_overflows = refl

sum_overflows : checked_add 9223372036854775807 1 ≡ none
unfolding checked_add
sum_overflows = refl
