-- ===== src/Ai/Intent.antt =====
-- The specification of an intent: what it says, by what the patterns found in the text.
use pstu_backend.Prelude.{
  ℕ, ◌<◌, ◌*◌, ◌%◌, ◌≡◌, ◌≢◌, ◌||◌, Text, Bool, true, false, Option, none, some, i64_limit,
  i64_modulus, if◌then◌else◌,
}
use pstu_backend.Core.Money.{parsed, parse_from_str}
use pstu_backend.Core.Text.{to_text}
use pstu_backend.Ai.{
  Patterns, create_link, transfer, request, balance, history, help, AiIntentDto, intent_of,
  parse_u64, starts_with,
}
use pstu_backend.Ai.Amounts.{has_point}

-- What an amount is worth: an `i64` of paisa, and the number that the handlers read, which is one of
-- taka where it has no point.
pub record Worth (amount : Text) (paisa : ℕ) : Type 0 where
  pub fits : paisa < i64_limit
  pub agrees :
      (is_digit : ℕ → Bool) (n : ℕ)
      → parse_from_str is_digit amount ≡ parsed n
      → paisa ≡ (if has_point amount then n else n * 100)

-- An amount that the handlers do not read as a number either.
abbrev pub Unread : Text → Type 0
Unread amount = (is_digit : ℕ → Bool) (n : ℕ) → parse_from_str is_digit amount ≢ parsed n

abbrev pub NoAmount : Option Text → Type 0
NoAmount found = (amount : Text) → found ≡ some amount → Unread amount

abbrev pub NoParty : Option (Text × Text) → Type 0
NoParty found = (amount recipient : Text) → found ≡ some (amount, recipient) → Unread amount

-- The seconds that a link lives: so many minutes, hours or days, or three hours.
pub data Lifetime (P : Patterns) (t : Text) : ℕ → Type 0 where
  not_given : P.expiry t ≡ none → Lifetime P t 10800
  not_read :
      (num unit : Text) → P.expiry t ≡ some (num, unit) → parse_u64 num ≡ none → Lifetime P t 10800
  minutes :
      (num unit : Text) (n : ℕ)
      → P.expiry t ≡ some (num, unit)
      → parse_u64 num ≡ some n
      → starts_with "min" (P.lowercase unit) ≡ true
      → Lifetime P t ((n * 60) % i64_modulus)
  hours :
      (num unit : Text) (n : ℕ)
      → P.expiry t ≡ some (num, unit)
      → parse_u64 num ≡ some n
      → (starts_with "hr" (P.lowercase unit) || starts_with "hour" (P.lowercase unit)) ≡ true
      → Lifetime P t ((n * 3600) % i64_modulus)
  days :
      (num unit : Text) (n : ℕ)
      → P.expiry t ≡ some (num, unit)
      → parse_u64 num ≡ some n
      → starts_with "day" (P.lowercase unit) ≡ true
      → Lifetime P t ((n * 86400) % i64_modulus)
  other_unit :
      (num unit : Text) (n : ℕ)
      → P.expiry t ≡ some (num, unit)
      → parse_u64 num ≡ some n
      → starts_with "min" (P.lowercase unit) ≡ false
      → (starts_with "hr" (P.lowercase unit) || starts_with "hour" (P.lowercase unit)) ≡ false
      → starts_with "day" (P.lowercase unit) ≡ false
      → Lifetime P t 10800

-- The intent of a text that the patterns have read, by the first pattern whose amount is a number.
pub data Shape (P : Patterns) (t : Text) : AiIntentDto → Type 0 where
  link_shape :
      (amount : Text) (paisa ttl : ℕ)
      → P.link t ≡ some amount
      → Worth amount paisa
      → Lifetime P t ttl
      → Shape P t (intent_of create_link (some (to_text paisa)) none (some ttl))
  transfer_shape :
      (amount recipient : Text) (paisa : ℕ)
      → NoAmount (P.link t)
      → P.transfer t ≡ some (amount, recipient)
      → Worth amount paisa
      → Shape P t (intent_of transfer (some (to_text paisa)) (some recipient) none)
  request_shape :
      (amount recipient : Text) (paisa : ℕ)
      → NoAmount (P.link t)
      → NoParty (P.transfer t)
      → P.request t ≡ some (amount, recipient)
      → Worth amount paisa
      → Shape P t (intent_of request (some (to_text paisa)) (some recipient) none)
  balance_shape :
      NoAmount (P.link t)
      → NoParty (P.transfer t)
      → NoParty (P.request t)
      → P.balance t ≡ true
      → Shape P t (intent_of balance none none none)
  history_shape :
      NoAmount (P.link t)
      → NoParty (P.transfer t)
      → NoParty (P.request t)
      → P.balance t ≡ false
      → P.history t ≡ true
      → Shape P t (intent_of history none none none)
  help_shape :
      NoAmount (P.link t)
      → NoParty (P.transfer t)
      → NoParty (P.request t)
      → P.balance t ≡ false
      → P.history t ≡ false
      → Shape P t (intent_of help none none none)
