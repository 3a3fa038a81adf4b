-- ===== src/Core/Money/Checked.antt =====
-- Paisa::checked_add and Paisa::checked_sub of core/money.rs, on 64-bit patterns: a sum or a
-- difference whose sign bit shows that it left the range of an i64 is none.
use pstu_backend.Prelude.{
  ℕ, ◌<◌, ◌≡◌, Bool, true, false, Option, none, some, if◌then◌else◌, i64_modulus, i64_add, i64_neg,
  is_nonneg, arith,
}

abbrev same : Bool → Bool → Bool
same true b = b
same false true = false
same false false = true

-- Whether numbers of these signs have a sum of this sign.
abbrev sum_fits : Bool → Bool → Bool → Bool
sum_fits a b c = if same a b then same a c else true

-- Whether numbers of these signs have a difference of this sign.
abbrev difference_fits : Bool → Bool → Bool → Bool
difference_fits a b c = if same a b then true else same a c

unfoldable pub checked_add : ℕ → ℕ → Option ℕ
checked_add a b =
    let c = i64_add a b in
    if sum_fits (is_nonneg a) (is_nonneg b) (is_nonneg c) then some c else none

unfoldable pub checked_sub : ℕ → ℕ → Option ℕ
checked_sub a b =
    let c = i64_add a (i64_neg b) in
    if difference_fits (is_nonneg a) (is_nonneg b) (is_nonneg c) then some c else none

-- What a subtraction answers gives the first number back when the second is added to it, whatever
-- the signs.
checked_add-checked_sub :
    (a b c : ℕ)
    → a < i64_modulus
    → b < i64_modulus
    → checked_sub a b ≡ some c
    → checked_add c b ≡ some a
unfolding checked_add checked_sub
checked_add-checked_sub a b c a< b< h = ground arith

-- No amount is too large to be subtracted from another: the difference of two numbers from 0 on is
-- answered even where it is negative.
checked_sub-total :
    (a b : ℕ)
    → is_nonneg a ≡ true
    → is_nonneg b ≡ true
    → checked_sub a b ≡ some (i64_add a (i64_neg b))
unfolding checked_sub
checked_sub-total a b ha hb = ground arith
