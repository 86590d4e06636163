-- ===== src/Utility.antt =====
-- The macros of utility.h that compute, on the integers of C: division rounds towards zero, and the
-- remainder has the sign of the dividend.
mod Tests
use native.Mathlib.Nat.{div-add-mod, mod-lt, div-le_self}
use ooplatingsistm.Base.{
  ℕ, suc, zero, ◌+◌, ◌-◌, ◌*◌, ◌/◌, ◌%◌, ◌≤◌, ◌<◌, ◌≡◌, ◌⊎◌, inl, inr, refl, true, false, ltb,
  if◌then◌else◌, arith, ℤ, pos, negsuc, pos_part, neg_part, lt_int, Bool-cases,
}

-- a - b, a + b, and a / b, a % b for b > 0.
abbrev pub difference : ℕ → ℕ → ℤ
difference a b = if ltb a b then negsuc (b - a - 1) else pos (a - b)

abbrev pub add : ℤ → ℤ → ℤ
add a b = difference (pos_part a + pos_part b) (neg_part a + neg_part b)

abbrev pub quotient : ℤ → ℕ → ℤ
quotient a s = difference (pos_part a / s) (neg_part a / s)

abbrev pub remainder : ℤ → ℕ → ℤ
remainder a s = difference (pos_part a % s) (neg_part a % s)

unfoldable pub min : ℤ → ℤ → ℤ
min a b = if lt_int a b then a else b

unfoldable pub max : ℤ → ℤ → ℤ
max a b = if lt_int b a then a else b

unfoldable pub div_round_down : ℤ → ℕ → ℤ
div_round_down n s = quotient n s

unfoldable pub div_round_up : ℤ → ℕ → ℤ
div_round_up n s = add (quotient n s) (if lt_int (pos 0) (remainder n s) then pos 1 else pos 0)

-- The integers that an `int` holds.
abbrev pub FitsInt : ℤ → Type 0
FitsInt n = (pos_part n < 0x8000_0000) × (neg_part n ≤ 0x8000_0000)

-- `s * q` is `n` or more, and is less than `n + s`: `q` is `n / s` rounded up.
pub record RoundedUp (n : ℤ) (s : ℕ) (q : ℤ) : Type 0 where
  pub enough : pos_part n + s * neg_part q ≤ s * pos_part q + neg_part n
  pub least : s * pos_part q + neg_part n < pos_part n + s * neg_part q + s

-- One more unless the remainder is 0; and the negative of a natural number.
abbrev carry : ℕ → ℕ → ℕ
carry q zero = q
carry q (suc r) = q + 1

abbrev minus : ℕ → ℤ
minus zero = pos 0
minus (suc q) = negsuc q

times_suc : (s q : ℕ) → s * (q + 1) ≡ s * q + s
times_suc s q = grind arith

le_times : (s q : ℕ) → 0 < s → q ≤ s * q
le_times s q h = grind (arith, h)

pos_up :
    (m s q r : ℕ) → s * q + r ≡ m → r < s → RoundedUp (pos m) s (pos (carry q r)) × (carry q r ≤ m)
pos_up m s q zero e lt = (
  record { enough = omega (arith, e); least = omega (arith, e, lt) },
  omega (arith, e, le_times s q lt),
)
pos_up m s q (suc r) e lt = (
  record {
    enough = rw (times_suc s q) (omega (arith, e, lt));
    least = rw (times_suc s q) (omega (arith, e));
  },
  omega (arith, e, le_times s q (omega (arith, lt))),
)

neg_up : (m s q r : ℕ) → s * q + r ≡ suc m → r < s → RoundedUp (negsuc m) s (minus q)
neg_up m s zero r e lt = record { enough = omega (arith, e); least = omega (arith, e, lt) }
neg_up m s (suc q) r e lt = record { enough = omega (arith, e); least = omega (arith, e, lt) }

round_up-pos : (m s q r : ℕ) → q ≡ m / s → r ≡ m % s → div_round_up (pos m) s ≡ pos (carry q r)
unfolding div_round_up
round_up-pos m s q zero e f = ground (arith, e, f)
round_up-pos m s q (suc r) e f = ground (arith, e, f)

round_up-neg : (m s : ℕ) → div_round_up (negsuc m) s ≡ minus (suc m / s)
unfolding div_round_up
round_up-neg m s = ground arith

minus-FitsInt : (q : ℕ) → q ≤ 0x8000_0000 → FitsInt (minus q)
minus-FitsInt zero h = (omega arith, omega arith)
minus-FitsInt (suc q) h = (omega arith, omega (arith, h))

-- For a positive divisor, divRoundUp is the least integer whose product with the divisor is not
-- below the dividend, and it fits an `int` if the dividend does.
pub div_round_up-RoundedUp :
    (n : ℤ) (s : ℕ)
    → 0 < s
    → FitsInt n
    → RoundedUp n s (div_round_up n s) × FitsInt (div_round_up n s)
div_round_up-RoundedUp (pos m) s h (low, high) = rw (round_up-pos m s (m / s) (m % s) refl refl) (
    let (up, bound) = pos_up m s (m / s) (m % s) (div-add-mod m s) (mod-lt m h) in
    (up, (omega (arith, low, bound), omega arith)))
div_round_up-RoundedUp (negsuc m) s h (low, high) = rw (round_up-neg m s) (
  neg_up m s (suc m / s) (suc m % s) (div-add-mod (suc m) s) (mod-lt (suc m) h),
  minus-FitsInt (suc m / s) (omega (arith, high, div-le_self (suc m) s)),
)

-- For a positive divisor, divRoundDown of a dividend that is not negative is the greatest integer
-- whose product with the divisor is not above it; of a negative one it is divRoundUp.
pub div_round_down-rounds :
    (m s : ℕ)
    → 0 < s
    → (s * pos_part (div_round_down (pos m) s) ≤ m)
      × (m < s * pos_part (div_round_down (pos m) s) + s)
      × (neg_part (div_round_down (pos m) s) ≡ 0)
      × (div_round_down (negsuc m) s ≡ div_round_up (negsuc m) s)
unfolding div_round_down div_round_up
div_round_down-rounds m s h =
    let e = div-add-mod m s in
    let lt = mod-lt m h in
    (ground (arith, e, lt), ground (arith, e, lt), ground arith, ground arith)
