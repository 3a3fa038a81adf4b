-- ===== src/Prelude/Scalars.antt =====
-- The scalar types of the source. A `Uuid` is its 128-bit value, so that `<` on it is the order of
-- the source; an `Instant` is a `DateTime<Utc>` in microseconds; a `Text` is the list of a string's
-- code points. An `i64` is its 64-bit pattern, a number below 2 ^ 64; those from 2 ^ 63 on are
-- negative.
use Prim.Native.Nat.{ℕ, ◌+◌, ◌-◌, ◌*◌, ◌%◌}
use mathlib.Core.Path.{◌≡◌, refl}
use mathlib.Core.Bool.{Bool, true, false, ◌&&◌}
use mathlib.Core.Logic.{◌↔◌}
use mathlib.Core.List.{List, [], ◌∷◌}
use native.Mathlib.Omega.{arith}
use pstu_backend.Prelude.Tests.{ltb, ◌==◌}

abbrev pub Uuid : Type 0
Uuid = ℕ

abbrev pub Instant : Type 0
Instant = ℕ

abbrev pub Text : Type 0
Text = List ℕ

abbrev pub i64_modulus : ℕ
i64_modulus = 18446744073709551616

abbrev pub i64_limit : ℕ
i64_limit = 9223372036854775808

-- Addition and negation of 64-bit patterns, with their wrap-around.
abbrev pub i64_add : ℕ → ℕ → ℕ
i64_add a b = (a + b) % i64_modulus

abbrev pub i64_neg : ℕ → ℕ
i64_neg a = (i64_modulus - a) % i64_modulus

abbrev pub i64_mul : ℕ → ℕ → ℕ
i64_mul a b = (a * b) % i64_modulus

-- The sign bit is clear: the pattern stands for a number from 0 on.
abbrev pub is_nonneg : ℕ → Bool
is_nonneg a = ltb a i64_limit

abbrev pub text_eq : Text → Text → Bool
text_eq [] [] = true
text_eq [] (d ∷ t) = false
text_eq (c ∷ s) [] = false
text_eq (c ∷ s) (d ∷ t) = c == d && text_eq s t

pub text_eq_refl : (s : Text) → text_eq s s ≡ true
text_eq_refl [] = refl
text_eq_refl (c ∷ s) = ground (arith, text_eq_refl s)

pub text_eq_eq : (s t : Text) → text_eq s t ≡ true → s ≡ t
text_eq_eq [] [] h = refl
text_eq_eq [] (d ∷ t) h = cc
text_eq_eq (c ∷ s) [] h = cc
text_eq_eq (c ∷ s) (d ∷ t) h = ground (arith, text_eq_eq s t)

pub text_eq_iff : (s t : Text) → (text_eq s t ≡ true) ↔ (s ≡ t)
text_eq_iff s t = (text_eq_eq s t, λ e. ground (arith, e, text_eq_refl s))
