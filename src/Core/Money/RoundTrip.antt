-- ===== src/Core/Money/RoundTrip.antt =====
-- Whole amounts survive printing and parsing: `Paisa::to_string` and `Paisa::parse_from_str`.
use mathlib.Core.List.{reverse, reverse-cons, reverse-reverse}
use pstu_backend.Prelude.{
  ℕ, zero, suc, ◌+◌, ◌*◌, ◌/◌, ◌%◌, ◌≤◌, ◌<◌, ◌≡◌, refl, Text, Bool, true, none, some, [], ◌∷◌,
  ◌++◌, inl, inr, Bool-cases, ltb, length, i64_limit, arith,
}
use pstu_backend.Core.Limits.{max_paisa_amount}
use pstu_backend.Core.Text.{
  is_ascii_digit, trim_start, trim, split_once, digits_value, parse_i64, print_digits, to_text,
}
use pstu_backend.Core.Money.{parsed, span_digits, money_regex, parse_value, parse_from_str}

abbrev pub AllDigits : Text → Type 0
AllDigits [] = Unit {0}
AllDigits (c ∷ s) = (is_ascii_digit c ≡ true) × AllDigits s

abbrev pow10 : ℕ → ℕ
pow10 zero = 1
pow10 (suc k) = 10 * pow10 k

print_digits-value :
    (fuel n : ℕ) (acc : Text)
    → n < pow10 fuel
    → 0 < fuel
    → digits_value 0 (print_digits fuel n acc) ≡ digits_value n acc
unfolding print_digits digits_value
print_digits-value zero n acc h p = absurd (omega (arith, p))
print_digits-value (suc zero) n acc h p = ground (arith, h)
print_digits-value (suc (suc k)) n acc h p = ground (
  arith,
  h,
  print_digits-value (suc k) (n / 10) ((b'0' + n % 10) ∷ acc) (omega (arith, h)) (omega arith),
)

pub print_digits-AllDigits :
    (fuel n : ℕ) (acc : Text) → AllDigits acc → AllDigits (print_digits fuel n acc)
unfolding print_digits
print_digits-AllDigits zero n acc a = a
print_digits-AllDigits (suc fuel) n acc a = elim (Bool-cases (ltb n 10)) [
  | inl small ↦ rw small (ground (arith, small), a)
  | inr large ↦
      rw large (print_digits-AllDigits fuel (n / 10) ((b'0' + n % 10) ∷ acc) (ground arith, a))
]

print_digits-length :
    (fuel k n : ℕ) (acc : Text)
    → n < pow10 (suc k)
    → k < fuel
    → (length acc < length (print_digits fuel n acc))
      × (length (print_digits fuel n acc) ≤ suc k + length acc)
unfolding print_digits
print_digits-length zero k n acc h p = absurd (omega (arith, p))
print_digits-length (suc fuel) zero n acc h p = ground (arith, h)
print_digits-length (suc fuel) (suc k) n acc h p =
    let rest =
      print_digits-length fuel k (n / 10) ((b'0' + n % 10) ∷ acc) (omega (arith, h))
        (omega (arith, p)) in
    ground (arith, rest.0, rest.1)

append-AllDigits : (s t : Text) → AllDigits s → AllDigits t → AllDigits (s ++ t)
append-AllDigits [] t a b = b
append-AllDigits (c ∷ s) t a b = (a.0, append-AllDigits s t a.1 b)

reverse-AllDigits : (s : Text) → AllDigits s → AllDigits (reverse s)
reverse-AllDigits [] a = tt
reverse-AllDigits (c ∷ s) a =
    rw (reverse-cons c s)
      (append-AllDigits (reverse s) (c ∷ []) (reverse-AllDigits s a.1) (a.0, tt))

trim_start-AllDigits : (s : Text) → AllDigits s → trim_start s ≡ s
unfolding trim_start
trim_start-AllDigits [] a = refl
trim_start-AllDigits (c ∷ s) a = ground (arith, a.0)

trim-AllDigits : (s : Text) → AllDigits s → trim s ≡ s
unfolding trim
trim-AllDigits s a =
    rw (trim_start-AllDigits s a, trim_start-AllDigits (reverse s) (reverse-AllDigits s a))
      (reverse-reverse s)

split_once-AllDigits : (s : Text) → AllDigits s → split_once b'.' s ≡ none
unfolding split_once
split_once-AllDigits [] a = refl
split_once-AllDigits (c ∷ s) a = ground (arith, a.0, split_once-AllDigits s a.1)

module _ (is_digit : ℕ → Bool) (ascii : (c : ℕ) → is_ascii_digit c ≡ true → is_digit c ≡ true) where
  span_digits-AllDigits : (s : Text) → AllDigits s → span_digits is_digit s ≡ (s, [])
  unfolding span_digits
  span_digits-AllDigits [] a = refl
  span_digits-AllDigits (c ∷ s) a = ground (arith, ascii c a.0, span_digits-AllDigits s a.1)

  money_regex-AllDigits :
      (s : Text) → AllDigits s → 0 < length s → length s ≤ 14 → money_regex is_digit s ≡ true
  unfolding money_regex
  money_regex-AllDigits s a p h = ground (arith, span_digits-AllDigits s a, p, h)

  to_text-AllDigits : (n : ℕ) → AllDigits (to_text n)
  unfolding to_text
  to_text-AllDigits n = print_digits-AllDigits 19 n [] tt

  to_text-length :
      (n : ℕ) → n ≤ max_paisa_amount → (0 < length (to_text n)) × (length (to_text n) ≤ 14)
  unfolding to_text
  to_text-length n h =
      ground (arith, print_digits-length 19 10 n [] (omega (arith, h)) (omega arith))

  to_text-value : (n : ℕ) → n ≤ max_paisa_amount → digits_value 0 (to_text n) ≡ some n
  unfolding to_text digits_value
  to_text-value n h = print_digits-value 19 n [] (omega (arith, h)) (omega arith)

  parse_i64-digits :
      (s : Text) (n : ℕ)
      → 0 < length s
      → digits_value 0 s ≡ some n
      → n < i64_limit
      → parse_i64 s ≡ some n
  unfolding parse_i64
  parse_i64-digits [] n p e h = absurd (omega (arith, p))
  parse_i64-digits (c ∷ s) n p e h = ground (arith, e, h)

  -- An amount up to the cap, printed and parsed again, is the same amount, when the regex's digits
  -- include the ASCII digits.
  pub parse_from_str-to_text :
      (n : ℕ) → n ≤ max_paisa_amount → parse_from_str is_digit (to_text n) ≡ parsed n
  unfolding parse_from_str parse_value
  parse_from_str-to_text n h =
      let l = to_text-length n h in
      ground (
        arith,
        h,
        trim-AllDigits (to_text n) (to_text-AllDigits n),
        money_regex-AllDigits (to_text n) (to_text-AllDigits n) l.0 l.1,
        split_once-AllDigits (to_text n) (to_text-AllDigits n),
        parse_i64-digits (to_text n) n l.0 (to_text-value n h) (omega (arith, h)),
      )
