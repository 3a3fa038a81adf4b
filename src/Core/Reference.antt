-- ===== src/Core/Reference.antt =====
-- core/reference.rs, and `generate_account_number` of features/auth/service.rs: the references and
-- numbers, as functions of what is drawn at random.
use pstu_backend.Prelude.{
  ℕ, zero, suc, ◌+◌, ◌%◌, ◌≡◌, arith, Text, List, [], ◌∷◌, ◌++◌, map, length, length-append,
}
use pstu_backend.Core.Text.{codes, print_digits}

abbrev pub crockford_chars : Text
crockford_chars = codes "0123456789ABCDEFGHJKMNPQRSTVWXYZ"

-- An index from 0 on; one past the end, where the source panics, is never taken.
abbrev pub char_at : Text → ℕ → ℕ
char_at [] n = 0
char_at (c ∷ s) zero = c
char_at (c ∷ s) (suc n) = char_at s n

abbrev pub crockford_char : ℕ → ℕ
crockford_char b = char_at crockford_chars (b % length crockford_chars)

-- `generate_reference`, on the bytes that it draws
unfoldable pub generate_reference : Text → List ℕ → Text
generate_reference prefix bytes = prefix ++ map crockford_char bytes

-- The ten bytes of `generate_trx_reference` and `generate_funding_reference`
unfoldable pub generate_trx_reference : List ℕ → Text
unfolding generate_reference
generate_trx_reference bytes = generate_reference (codes "TRX") bytes

unfoldable pub generate_funding_reference : List ℕ → Text
unfolding generate_reference
generate_funding_reference bytes = generate_reference (codes "FND") bytes

-- `generate_account_number`, on the number from 1,000,000,000 to 9,999,999,999 that it draws
unfoldable pub generate_account_number : ℕ → Text
generate_account_number num = print_digits 20 num []

length-map : {A B : Type 0} (f : A → B) (xs : List A) → length (map f xs) ≡ length xs
length-map f [] = omega arith
length-map f (x ∷ xs) = omega (arith, length-map f xs)

pub length-generate_reference :
    (prefix : Text) (bytes : List ℕ)
    → length (generate_reference prefix bytes) ≡ length prefix + length bytes
unfolding generate_reference
length-generate_reference prefix bytes =
    omega (arith, length-append prefix (map crockford_char bytes), length-map crockford_char bytes)
