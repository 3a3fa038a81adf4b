-- ===== src/Ai.antt =====
-- features/ai: dto.rs and the rule-based parser of parser.rs. The crate regex is a parameter: what
-- each pattern finds in a text.
pub mod Routes
pub mod Intent
pub mod Shape
pub mod Amounts
use Prim.Native.String.{String}
use pstu_backend.Prelude.{
  ℕ, ◌+◌, ◌*◌, ◌%◌, Text, Bool, true, false, ◌||◌, Option, none, some, List, [], ◌∷◌, ◌++◌, ltb,
  ◌==◌, if◌then◌else◌, i64_modulus, i64_limit,
}
use mathlib.Core.Option
use pstu_backend.Core.Text.{
  codes, trim, split_once, byte_len, parse_i64, to_text, print_digits, strip_prefix, digits_value,
}
use pstu_backend.Core.Money.{checked}

-- What the patterns find. A group that every match of its pattern has is given without an option.
pub record Patterns : Type 0 where
  -- `PIN_STRIP_REGEX`: the text without its matches, if it has one
  pub pin_strip : Text → Option Text
  -- `LINK_REGEX`: the amount
  pub link : Text → Option Text
  -- `EXPIRY_REGEX`: the number and the unit
  pub expiry : Text → Option (Text × Text)
  -- `TRANSFER_REGEX` and `REQUEST_REGEX`: the amount and the recipient
  pub transfer : Text → Option (Text × Text)
  pub request : Text → Option (Text × Text)
  -- `BALANCE_REGEX` and `HISTORY_REGEX`
  pub balance : Text → Bool
  pub history : Text → Bool
  -- `str::to_lowercase`
  pub lowercase : Text → Text

-- `action`, a text of fixed words
pub data AiAction : Type 0 where
  create_link transfer request balance history help : AiAction

pub record AiIntentDto : Type 0 where
  pub action : AiAction
  pub amount_paisa : Option Text
  pub recipient : Option Text
  pub expires_in_seconds : Option ℕ
  pub note : Option Text

-- The confidence is in hundredths.
pub record AiParseResponse : Type 0 where
  pub intent : AiIntentDto
  pub summary : Text
  pub confidence : ℕ
  pub flags : List String

-- `parse_natural_taka_to_paisa`
abbrev pub two_digits : Text → Option ℕ
two_digits poisha_part =
    if byte_len poisha_part == 1
    then parse_i64 (poisha_part ++ b'0' ∷ [])
    else if byte_len poisha_part == 2
    then parse_i64 poisha_part
    else none

abbrev pub total_paisa : Option ℕ → Option ℕ → Option ℕ
total_paisa none poisha = none
total_paisa (some taka) none = none
total_paisa (some taka) (some poisha) = elim (checked (taka * 100)) [
  | none ↦ none
  | some hundreds ↦ checked (hundreds + poisha)
]

unfoldable pub parse_natural_taka_to_paisa : Text → Option ℕ
parse_natural_taka_to_paisa s = elim (split_once b'.' (trim s)) [
  | none ↦ total_paisa (parse_i64 (trim s)) (some 0)
  | some (taka_part, poisha_part) ↦ total_paisa (parse_i64 taka_part) (two_digits poisha_part)
]

-- `str::parse::<u64>` on a text with no sign
unfoldable pub parse_u64 : Text → Option ℕ
parse_u64 [] = none
parse_u64 (c ∷ s) = elim (digits_value 0 (c ∷ s)) [
  | none ↦ none
  | some n ↦ if ltb n i64_modulus then some n else none
]

abbrev pub starts_with : String → Text → Bool
starts_with p s = elim (strip_prefix (codes p) s) [ none ↦ false | some rest ↦ true ]

-- `str::contains`
unfoldable pub contains : String → Text → Bool
contains p [] = starts_with p []
contains p (c ∷ s) = starts_with p (c ∷ s) || contains p s

-- The products wrap; a build with overflow checks panics there.
abbrev pub unit_seconds : Text → ℕ → ℕ
unit_seconds unit num =
    if starts_with "min" unit
    then (num * 60) % i64_modulus
    else if starts_with "hr" unit || starts_with "hour" unit
    then (num * 3600) % i64_modulus
    else if starts_with "day" unit
    then (num * 86400) % i64_modulus
    else 10800

abbrev pub intent_of : AiAction → Option Text → Option Text → Option ℕ → AiIntentDto
intent_of action amount recipient ttl = record {
  action = action;
  amount_paisa = amount;
  recipient = recipient;
  expires_in_seconds = ttl;
  note = none;
}

-- `u64::to_string`: a `u64` has at most 20 digits.
abbrev pub u64_text : ℕ → Text
u64_text n = print_digits 20 n []

abbrev pub link_response : ℕ → ℕ → List String → AiParseResponse
link_response paisa ttl flags = record {
  intent = intent_of create_link (some (to_text paisa)) none (some ttl);
  summary =
      codes "Create a payment link for "
      ++ to_text paisa
      ++ codes " paisa valid for "
      ++ u64_text ttl
      ++ codes " seconds";
  confidence = 95;
  flags = flags;
}

abbrev pub party_response : AiAction → Text → Text → ℕ → Text → List String → AiParseResponse
party_response action verb preposition paisa recipient flags = record {
  intent = intent_of action (some (to_text paisa)) (some recipient) none;
  summary = verb ++ to_text paisa ++ preposition ++ recipient;
  confidence = 95;
  flags = flags;
}

abbrev pub plain_response : AiAction → Text → ℕ → List String → AiParseResponse
plain_response action summary confidence flags = record {
  intent = intent_of action none none none;
  summary = summary;
  confidence = confidence;
  flags = flags;
}

module _ (P : Patterns) where
  -- The lifetime of a link: 3 hours, unless the text gives another.
  abbrev pub link_ttl : Text → ℕ
  link_ttl trimmed = elim (P.expiry trimmed) [
    | none ↦ 10800
    | some (num, unit) ↦ elim (parse_u64 num) [
      | none ↦ 10800
      | some n ↦ unit_seconds (P.lowercase unit) n
    ]
  ]

  -- Rule 1
  abbrev pub link_rule : Text → List String → Option AiParseResponse
  link_rule trimmed flags = elim (P.link trimmed) [
    | none ↦ none
    | some amount ↦ elim (parse_natural_taka_to_paisa amount) [
      | none ↦ none
      | some paisa ↦ some (link_response paisa (link_ttl trimmed) flags)
    ]
  ]

  -- Rules 2 and 3, on what their pattern found
  abbrev pub party_rule :
      AiAction → Text → Text → Option (Text × Text) → List String → Option AiParseResponse
  party_rule action verb preposition found flags = elim found [
    | none ↦ none
    | some (amount, recipient) ↦ elim (parse_natural_taka_to_paisa amount) [
      | none ↦ none
      | some paisa ↦ some (party_response action verb preposition paisa recipient flags)
    ]
  ]

  abbrev pub transfer_rule : Text → List String → Option AiParseResponse
  transfer_rule trimmed flags =
      party_rule transfer (codes "Transfer ") (codes " paisa to ") (P.transfer trimmed) flags

  abbrev pub request_rule : Text → List String → Option AiParseResponse
  request_rule trimmed flags =
      party_rule request (codes "Request ") (codes " paisa from ") (P.request trimmed) flags

  -- Rules 4 to 6
  abbrev pub plain_rules : Text → List String → AiParseResponse
  plain_rules trimmed flags =
      if P.balance trimmed
      then plain_response balance (codes "Check current wallet balance") 99 flags
      else if P.history trimmed
      then plain_response history (codes "View recent transaction history") 99 flags
      else plain_response help
          (codes
            "I didn't recognize that command. Try: 'Send 500 to 01711000000' or 'Create link 200 for 2 hours'")
          10 flags

  abbrev pub first_response : Option AiParseResponse → AiParseResponse → AiParseResponse
  first_response none rest = rest
  first_response (some r) rest = r

  unfoldable pub parse_rules : Text → List String → AiParseResponse
  parse_rules trimmed flags = first_response (link_rule trimmed flags) (
      first_response (transfer_rule trimmed flags)
        (first_response (request_rule trimmed flags) (plain_rules trimmed flags)))

  abbrev pub review_flags : Text → List String
  review_flags trimmed =
      if contains "tomorrow" (P.lowercase trimmed) || contains "next week" (P.lowercase trimmed)
      then "needs_review" ∷ []
      else []

  -- On the text without its PINs, if the pattern found one.
  unfoldable pub parse_stripped : Text → Option Text → AiParseResponse
  unfolding parse_rules
  parse_stripped text none = parse_rules (trim text) (review_flags (trim text))
  parse_stripped text (some cleaned) =
      parse_rules (trim cleaned) ("pin_via_text_ignored" ∷ review_flags (trim cleaned))

  unfoldable pub parse_intent : Text → AiParseResponse
  unfolding parse_stripped
  parse_intent text = parse_stripped text (P.pin_strip text)
