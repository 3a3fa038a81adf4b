-- ===== src/History/Statement/References.antt =====
-- The references of core/reference.rs in a statement.
use pstu_backend.Prelude.{
  ℕ, zero, suc, ◌<◌, ◌%◌, ◌≡◌, refl, arith, Text, true, List, [], ◌∷◌, ◌++◌, map, ◌&&◌, length,
}
use pstu_backend.Core.Reference.{crockford_chars, char_at, crockford_char, generate_reference}
use pstu_backend.History.Statement.Readable.{is_plain}

is_plain-append : (s t : Text) → is_plain (s ++ t) ≡ (is_plain s && is_plain t)
is_plain-append [] t = refl
is_plain-append (c ∷ s) t = ground (arith, is_plain-append s t)

is_plain-char_at :
    (s : Text) (n : ℕ) → is_plain s ≡ true → n < length s → is_plain (char_at s n ∷ []) ≡ true
is_plain-char_at [] n h l = absurd (omega (arith, l))
is_plain-char_at (c ∷ s) zero h l = ground (arith, h)
is_plain-char_at (c ∷ s) (suc n) h l =
    ground (arith, is_plain-char_at s n (ground (arith, h)) (omega (arith, l)))

is_plain-crockford_char : (b : ℕ) → is_plain (crockford_char b ∷ []) ≡ true
is_plain-crockford_char b = is_plain-char_at crockford_chars (b % 32) refl (omega arith)

is_plain-map : (bytes : List ℕ) → is_plain (map crockford_char bytes) ≡ true
is_plain-map [] = refl
is_plain-map (b ∷ bytes) = ground (arith, is_plain-crockford_char b, is_plain-map bytes)

-- No reference that is generated has a quote, a comma or a line break, whatever bytes are drawn.
pub generate_reference-is_plain :
    (prefix : Text) (bytes : List ℕ)
    → is_plain prefix ≡ true
    → is_plain (generate_reference prefix bytes) ≡ true
unfolding generate_reference
generate_reference-is_plain prefix bytes h =
    ground (arith, h, is_plain-append prefix (map crockford_char bytes), is_plain-map bytes)
