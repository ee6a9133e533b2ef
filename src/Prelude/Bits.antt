-- ===== src/Prelude/Bits.antt =====
-- Masks and disjoint bits, at variables.
use Prim.Native.Nat.{
  ℕ, zero, suc, ◌+◌, ◌*◌, ◌/◌, ◌%◌, ◌≤◌, ◌<◌, min, max, bit_and, bit_or, digits, bit_and-bitwise,
  bit_or-bitwise,
}
use mathlib.Core.Path.{◌≡◌, refl, ◌∙◌}
use native.Mathlib.Omega.{arith}

abbrev and_digits : ℕ → ℕ → ℕ → ℕ
and_digits n a b = digits (λ b. zero) min n a b

abbrev or_digits : ℕ → ℕ → ℕ → ℕ
or_digits n a b = digits (λ b. b) max n a b

-- Any fuel that is enough gives the same.
and_fuel : (n m a b : ℕ) → a ≤ n → a ≤ m → and_digits n a b ≡ and_digits m a b
and_fuel n m zero b p q = small n m
  where
    small : (n m : ℕ) → and_digits n 0 b ≡ and_digits m 0 b
    small zero zero = refl
    small zero (suc m) = refl
    small (suc n) zero = refl
    small (suc n) (suc m) = refl
and_fuel zero m (suc a) b p q = absurd (omega arith)
and_fuel (suc n) zero (suc a) b p q = absurd (omega arith)
and_fuel (suc n) (suc m) (suc a) b p q =
    omega (arith, and_fuel n m (suc a / 2) (b / 2) (omega arith) (omega arith))

or_fuel : (n m a b : ℕ) → a ≤ n → a ≤ m → or_digits n a b ≡ or_digits m a b
or_fuel n m zero b p q = small n m
  where
    small : (n m : ℕ) → or_digits n 0 b ≡ or_digits m 0 b
    small zero zero = refl
    small zero (suc m) = refl
    small (suc n) zero = refl
    small (suc n) (suc m) = refl
or_fuel zero m (suc a) b p q = absurd (omega arith)
or_fuel (suc n) zero (suc a) b p q = absurd (omega arith)
or_fuel (suc n) (suc m) (suc a) b p q =
    omega (arith, or_fuel n m (suc a / 2) (b / 2) (omega arith) (omega arith))

and_step : (a b : ℕ) → bit_and a b ≡ bit_and (a / 2) (b / 2) * 2 + min (a % 2) (b % 2)
and_step zero b = omega (arith, bit_and-bitwise 0 b, bit_and-bitwise 0 (b / 2))
and_step (suc a) b = omega (
  arith,
  bit_and-bitwise (suc a) b,
  bit_and-bitwise (suc a / 2) (b / 2),
  and_fuel a (suc a / 2) (suc a / 2) (b / 2) (omega arith) (omega arith),
)

or_step : (a b : ℕ) → bit_or a b ≡ bit_or (a / 2) (b / 2) * 2 + max (a % 2) (b % 2)
or_step zero b = omega (arith, bit_or-bitwise 0 b, bit_or-bitwise 0 (b / 2))
or_step (suc a) b = omega (
  arith,
  bit_or-bitwise (suc a) b,
  bit_or-bitwise (suc a / 2) (b / 2),
  or_fuel a (suc a / 2) (suc a / 2) (b / 2) (omega arith) (omega arith),
)

and_zero : (n a : ℕ) → a ≤ n → bit_and a 0 ≡ 0
and_zero n zero h = bit_and-bitwise 0 0
and_zero zero (suc a) h = absurd (omega arith)
and_zero (suc n) (suc a) h = omega (arith, and_step (suc a) 0, and_zero n (suc a / 2) (omega arith))

or_zero : (n a : ℕ) → a ≤ n → bit_or a 0 ≡ a
or_zero n zero h = bit_or-bitwise 0 0
or_zero zero (suc a) h = absurd (omega arith)
or_zero (suc n) (suc a) h = omega (arith, or_step (suc a) 0, or_zero n (suc a / 2) (omega arith))

-- the number of `n` ones
abbrev pub ones : ℕ → ℕ
ones zero = 0
ones (suc n) = suc (ones n * 2)

abbrev pub two_to : ℕ → ℕ
two_to zero = 1
two_to (suc n) = two_to n * 2

-- A mask of ones keeps the remainder: what is left is a multiple.
pub bit_and-ones :
    (n a : ℕ) → (c : ℕ) × (a ≡ c * two_to n + bit_and a (ones n)) × (bit_and a (ones n) < two_to n)
bit_and-ones zero a =
    (a, omega (arith, and_zero a a (omega arith)), omega (arith, and_zero a a (omega arith)))
bit_and-ones (suc n) a =
    let (c, e, small) = bit_and-ones n (a / 2) in
    let half : suc (ones n * 2) / 2 ≡ ones n = omega arith in
    let step : bit_and a (suc (ones n * 2)) ≡ bit_and (a / 2) (ones n) * 2 + a % 2 =
      and_step a (suc (ones n * 2)) ∙ rw half (omega arith) in
    (c, omega (arith, step, e), omega (arith, step, small))

-- The bits of a multiple and those below it do not meet.
pub bit_or_add : (n a b : ℕ) → b < two_to n → bit_or (a * two_to n) b ≡ a * two_to n + b
bit_or_add zero a b h =
    let e : b ≡ 0 = omega arith in
    rw e
      (let z : bit_or (a * 1) 0 ≡ a * 1 = or_zero (a * 1) (a * 1) (omega arith) in omega (arith, z))
bit_or_add (suc n) a b h =
    let half : a * (two_to n * 2) / 2 ≡ a * two_to n = omega arith in
    let even : a * (two_to n * 2) % 2 ≡ 0 = omega arith in
    let rest = bit_or_add n a (b / 2) (omega arith) in
    or_step (a * (two_to n * 2)) b ∙ rw (half, even) (omega (arith, rest))
