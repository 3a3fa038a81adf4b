-- ===== src/Scenarios/Ai.antt =====
-- A text that asks to send 500 taka, as the patterns read it, and an amount with a point.
use pstu_backend.Prelude.{◌*◌, ◌≡◌, refl, Text, false, none, some, if◌then◌else◌}
use pstu_backend.Core.Text.{codes, to_text, split_once, parse_i64, trim, is_ascii_digit}
use pstu_backend.Core.Money.{parsed, money_regex, parse_value, parse_from_str}
use pstu_backend.Ai.{Patterns, parse_natural_taka_to_paisa, parse_intent, intent_of, transfer}
use pstu_backend.Ai.Intent.{Shape}
use pstu_backend.Ai.Shape.{cleaned, parse_intent-Shape}
use pstu_backend.Ai.Amounts.{has_point, parse_natural_taka_to_paisa-parse_from_str}

abbrev patterns : Patterns
patterns = record {
  pin_strip = λ s. none;
  link = λ s. none;
  expiry = λ s. none;
  transfer = λ s. some (codes "500", codes "01711000000");
  request = λ s. none;
  balance = λ s. false;
  history = λ s. false;
  lowercase = λ s. s;
}

parse_intent-Shape_example :
    Shape patterns
      (cleaned patterns (codes "Send 500 to 01711000000"))
      (parse_intent patterns (codes "Send 500 to 01711000000")).intent
parse_intent-Shape_example = parse_intent-Shape patterns (codes "Send 500 to 01711000000")

-- The amount is in paisa.
sent_paisa :
    (parse_intent patterns (codes "Send 500 to 01711000000")).intent
    ≡ intent_of transfer (some (codes "50000")) (some (codes "01711000000")) none
unfolding parse_intent parse_natural_taka_to_paisa split_once trim parse_i64 to_text
sent_paisa = refl

abbrev half_taka : Text
half_taka = codes "500.5"

half_taka_read : parse_from_str is_ascii_digit half_taka ≡ parsed 50050
unfolding parse_from_str money_regex parse_value split_once trim parse_i64
half_taka_read = refl

parse_natural_taka_to_paisa-parse_from_str_example :
    parse_natural_taka_to_paisa half_taka
    ≡ some (if has_point half_taka then 50050 else 50050 * 100)
parse_natural_taka_to_paisa-parse_from_str_example =
    parse_natural_taka_to_paisa-parse_from_str is_ascii_digit half_taka 50050 half_taka_read
