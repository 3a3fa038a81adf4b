-- ===== src/Ai/Shape.antt =====
-- The intent of a text is what the specification of Ai/Intent says of it.
use pstu_backend.Prelude.{
  ℕ, ◌<◌, ◌≡◌, ◌⊎◌, ◌||◌, arith, Text, Option, none, some, List, Bool-cases, Option-cases, inl, inr,
  i64_limit, unwrap_or, refl, sym,
}
use Prim.Native.String.{String}
use pstu_backend.Core.Text.{codes, trim}
use pstu_backend.Ai.{
  Patterns, AiAction, transfer, request, parse_natural_taka_to_paisa, parse_u64, starts_with,
  link_rule, unit_seconds, link_ttl, link_response, party_response, party_rule, plain_rules,
  parse_rules, parse_stripped, parse_intent,
}
use pstu_backend.Ai.Intent.{
  Worth, Unread, NoAmount, NoParty, Lifetime, not_given, not_read, minutes, hours, days, other_unit,
  Shape, link_shape, transfer_shape, request_shape, balance_shape, history_shape, help_shape,
}
use pstu_backend.Ai.Amounts.{parse_natural_taka_to_paisa-parse_from_str}

parse_natural_taka_to_paisa_lt :
    (s : Text) (n : ℕ) → parse_natural_taka_to_paisa s ≡ some n → n < i64_limit
unfolding parse_natural_taka_to_paisa
parse_natural_taka_to_paisa_lt s n h = ground (arith, h)

parse_natural_taka_to_paisa-cases :
    (amount : Text)
    → ((paisa : ℕ) × (parse_natural_taka_to_paisa amount ≡ some paisa) × Worth amount paisa)
      ⊎ ((parse_natural_taka_to_paisa amount ≡ none) × Unread amount)
parse_natural_taka_to_paisa-cases amount =
    elim (Option-cases (parse_natural_taka_to_paisa amount)) [
      | inl e ↦ inr (
        e,
        λ is_digit n h.
            ground (arith, e, parse_natural_taka_to_paisa-parse_from_str is_digit amount n h),
      )
      | inr (paisa, e) ↦ inl (
        paisa,
        e,
        record {
          fits = parse_natural_taka_to_paisa_lt amount paisa e;
          agrees = λ is_digit n h.
              ground (arith, e, parse_natural_taka_to_paisa-parse_from_str is_digit amount n h);
        },
      )
    ]

module _ (P : Patterns) (t : Text) (flags : List String) where
  link_ttl-Lifetime : Lifetime P t (link_ttl P t)
  link_ttl-Lifetime = elim (Option-cases (P.expiry t)) [
    | inl e ↦ rw (link_ttl, e) (not_given e)
    | inr ((num, unit), e) ↦ elim (Option-cases (parse_u64 num)) [
      | inl g ↦ rw (link_ttl, e, g) (not_read num unit e g)
      | inr (n, g) ↦ elim (Bool-cases (starts_with "min" (P.lowercase unit))) [
        | inl m ↦ rw (link_ttl, unit_seconds, e, g, m) (minutes num unit n e g m)
        | inr m ↦
            elim (Bool-cases
              (starts_with "hr" (P.lowercase unit) || starts_with "hour" (P.lowercase unit))) [
                | inl h ↦ rw (link_ttl, unit_seconds, e, g, m, h) (hours num unit n e g h)
                | inr h ↦ elim (Bool-cases (starts_with "day" (P.lowercase unit))) [
                  | inl d ↦ rw (link_ttl, unit_seconds, e, g, m, h, d) (days num unit n e g d)
                  | inr d ↦
                      rw (link_ttl, unit_seconds, e, g, m, h, d) (other_unit num unit n e g m h d)
                ]
              ]
      ]
    ]
  ]

  link_rule-cases :
      ((link_rule P t flags ≡ none) × NoAmount (P.link t))
      ⊎ ((amount : Text) × (paisa : ℕ) × (P.link t ≡ some amount)
          × Worth amount paisa
          × (link_rule P t flags ≡ some (link_response paisa (link_ttl P t) flags)))
  link_rule-cases = elim (Option-cases (P.link t)) [
    | inl e ↦ inl (ground (arith, e), λ amount g. absurd (ground (arith, e, g)))
    | inr (amount, e) ↦ elim (parse_natural_taka_to_paisa-cases amount) [
      | inl (paisa, g, w) ↦ inr (amount, paisa, e, w, ground (arith, e, g))
      | inr (g, u) ↦ inl (
        ground (arith, e, g),
        λ amount' e'. let same : amount ≡ amount' = ground (arith, e, e') in rw (sym same) u,
      )
    ]
  ]

  party_rule-cases :
      (action : AiAction) (verb preposition : Text) (found : Option (Text × Text))
      → ((party_rule P action verb preposition found flags ≡ none) × NoParty found)
        ⊎ ((amount : Text) × (recipient : Text) × (paisa : ℕ) × (found ≡ some (amount, recipient))
            × Worth amount paisa
            × (party_rule P action verb preposition found flags
                ≡ some (party_response action verb preposition paisa recipient flags)))
  party_rule-cases action verb preposition none = inl (refl, λ amount recipient g. absurd cc)
  party_rule-cases action verb preposition (some (amount, recipient)) =
      elim (parse_natural_taka_to_paisa-cases amount) [
        | inl (paisa, g, w) ↦ inr (amount, recipient, paisa, refl, w, ground (arith, g))
        | inr (g, u) ↦ inl (
          ground (arith, g),
          λ amount' recipient' e'.
              let same : amount ≡ amount' = ground (arith, e') in rw (sym same) u,
        )
      ]

  plain_rules-Shape :
      NoAmount (P.link t)
      → NoParty (P.transfer t)
      → NoParty (P.request t)
      → Shape P t (plain_rules P t flags).intent
  plain_rules-Shape l f r = elim (Bool-cases (P.balance t)) [
    | inl asked ↦ rw asked (balance_shape l f r asked)
    | inr other ↦ elim (Bool-cases (P.history t)) [
      | inl asked ↦ rw (other, asked) (history_shape l f r other asked)
      | inr no_match ↦ rw (other, no_match) (help_shape l f r other no_match)
    ]
  ]

  parse_rules-Shape : Shape P t (parse_rules P t flags).intent
  unfolding parse_rules
  parse_rules-Shape = elim link_rule-cases [
    | inr (amount, paisa, e, w, g) ↦ rw g (link_shape amount paisa _ e w link_ttl-Lifetime)
    | inl (g, l) ↦
        elim (party_rule-cases transfer (codes "Transfer ") (codes " paisa to ") (P.transfer t)) [
          | inr (amount, recipient, paisa, e, w, h) ↦
              rw (g, h) (transfer_shape amount recipient paisa l e w)
          | inl (h, f) ↦
              elim (party_rule-cases request (codes "Request ") (codes " paisa from ")
                (P.request t)) [
                  | inr (amount, recipient, paisa, e, w, k) ↦
                      rw (g, h, k) (request_shape amount recipient paisa l f e w)
                  | inl (k, r) ↦ rw (g, h, k) (plain_rules-Shape l f r)
                ]
        ]
  ]

-- The text that the patterns read: without its PINs, and trimmed.
abbrev pub cleaned : Patterns → Text → Text
cleaned P text = trim (unwrap_or text (P.pin_strip text))

-- Whatever the patterns find in whatever text: the intent is that of the first pattern, of those for
-- a link, a transfer and a request, whose amount is read, and otherwise a balance, a history or a
-- help by the patterns for the first two; it has the recipient that the pattern found and the amount
-- printed in paisa, an i64, which is the number that the handlers read in the pattern's amount if it
-- has a point and a hundred times that number if it has none; a link lives for the minutes, hours or
-- days that were found, or three hours; and an amount that is passed over is one that the handlers
-- do not read either.
pub parse_intent-Shape :
    (P : Patterns) (text : Text) → Shape P (cleaned P text) (parse_intent P text).intent
unfolding parse_intent parse_stripped
parse_intent-Shape P text = elim (Option-cases (P.pin_strip text)) [
  | inl e ↦ rw e (parse_rules-Shape P (trim text) _)
  | inr (stripped, e) ↦ rw e (parse_rules-Shape P (trim stripped) _)
]
