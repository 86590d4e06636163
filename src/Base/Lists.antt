-- ===== src/Base/Lists.antt =====
-- Lists measured and counted by native numbers.
use Prim.Native.Nat.{ℕ, zero, suc, ◌+◌, ◌≤◌}
use mathlib.Core.Option.{Option, none, some}
use mathlib.Core.Path.{◌≡◌, refl, ap}
use mathlib.Core.Logic.{◌≢◌}
use mathlib.Core.List.{List, [], ◌∷◌, ◌++◌}
use native.Mathlib.Omega.{arith}
use ooplatingsistm.Base.Tests.{◌==◌, if◌then◌else◌}

module _ {ℓ} {A : Type ℓ} where
  abbrev pub length : List A → ℕ
  length [] = 0
  length (_ ∷ xs) = suc (length xs)

  pub length-append : (xs ys : List A) → length (xs ++ ys) ≡ length xs + length ys
  length-append [] ys = omega arith
  length-append (_ ∷ xs) ys = omega (arith, length-append xs ys)

  -- A predicate holds of every item.
  abbrev pub All {κ} : (A → Type κ) → List A → Type κ
  All P [] = Unit
  All P (x ∷ xs) = P x × All P xs

  pub All-append {κ} : (P : A → Type κ) (xs ys : List A) → All P xs → All P ys → All P (xs ++ ys)
  All-append P [] ys hx hy = hy
  All-append P (x ∷ xs) ys hx hy = (hx.0, All-append P xs ys hx.1 hy)

-- 1 where the two numbers agree.
abbrev pub same : ℕ → ℕ → ℕ
same a b = if a == b then 1 else 0

-- How often a number stands in a list.
abbrev pub count : ℕ → List ℕ → ℕ
count a [] = 0
count a (x ∷ xs) = same x a + count a xs

pub count-append : (a : ℕ) (xs ys : List ℕ) → count a (xs ++ ys) ≡ count a xs + count a ys
count-append a [] ys = omega arith
count-append a (x ∷ xs) ys = ground (arith, count-append a xs ys)

module _ {ℓ} {A : Type ℓ} where
  abbrev pub get_elem? : List A → ℕ → Option A
  get_elem? [] i = none
  get_elem? (x ∷ xs) zero = some x
  get_elem? (x ∷ xs) (suc i) = get_elem? xs i

  -- A write out of bounds changes nothing.
  abbrev pub set : List A → ℕ → A → List A
  set [] i a = []
  set (x ∷ xs) zero a = a ∷ xs
  set (x ∷ xs) (suc i) a = x ∷ set xs i a

  -- The sum of the items' weights.
  abbrev pub total : (A → ℕ) → List A → ℕ
  total w [] = 0
  total w (x ∷ xs) = w x + total w xs

  pub total-set :
      (w : A → ℕ) (xs : List A) (i : ℕ) (a b : A)
      → get_elem? xs i ≡ some a
      → total w (set xs i b) + w a ≡ total w xs + w b
  total-set w [] i a b e = cc
  total-set w (x ∷ xs) zero a b e = let e' : x ≡ a = cc in rw e' (omega arith)
  total-set w (x ∷ xs) (suc i) a b e = omega (arith, total-set w xs i a b e)

  pub get_elem?-set_self :
      (xs : List A) (i : ℕ) (b : A) {a : A}
      → get_elem? xs i ≡ some a
      → get_elem? (set xs i b) i ≡ some b
  get_elem?-set_self [] i b e = cc
  get_elem?-set_self (x ∷ xs) zero b e = refl
  get_elem?-set_self (x ∷ xs) (suc i) b e = get_elem?-set_self xs i b e

  -- The second of two writes at one place is what counts.
  pub set-set : (xs : List A) (i : ℕ) (a b : A) → set (set xs i a) i b ≡ set xs i b
  set-set [] i a b = refl
  set-set (x ∷ xs) zero a b = refl
  set-set (x ∷ xs) (suc i) a b = ap (λ ys. x ∷ ys) (set-set xs i a b)

  pub get_elem?-set_ne :
      (xs : List A) (i j : ℕ) (b : A) → i ≢ j → get_elem? (set xs i b) j ≡ get_elem? xs j
  get_elem?-set_ne [] i j b ne = refl
  get_elem?-set_ne (x ∷ xs) zero zero b ne = absurd (ne refl)
  get_elem?-set_ne (x ∷ xs) zero (suc j) b ne = refl
  get_elem?-set_ne (x ∷ xs) (suc i) zero b ne = refl
  get_elem?-set_ne (x ∷ xs) (suc i) (suc j) b ne = get_elem?-set_ne xs i j b (λ e. ne (ap suc e))

  pub get_elem?-none : (xs : List A) (i : ℕ) → get_elem? xs i ≡ none → length xs ≤ i
  get_elem?-none [] i e = omega arith
  get_elem?-none (x ∷ xs) zero e = cc
  get_elem?-none (x ∷ xs) (suc i) e = omega (arith, get_elem?-none xs i e)

  pub length-set : (xs : List A) (i : ℕ) (b : A) → length (set xs i b) ≡ length xs
  length-set [] i b = refl
  length-set (x ∷ xs) zero b = refl
  length-set (x ∷ xs) (suc i) b = ap suc (length-set xs i b)

  pub total-at :
      (w : A → ℕ) (xs : List A) (i : ℕ) (a : A) → get_elem? xs i ≡ some a → w a ≤ total w xs
  total-at w [] i a e = cc
  total-at w (x ∷ xs) zero a e = let e' : x ≡ a = cc in rw e' (omega arith)
  total-at w (x ∷ xs) (suc i) a e = omega (arith, total-at w xs i a e)

pub total-append {ℓ} :
    {A : Type ℓ} (w : A → ℕ) (xs ys : List A) → total w (xs ++ ys) ≡ total w xs + total w ys
total-append w [] ys = omega arith
total-append w (x ∷ xs) ys = omega (arith, total-append w xs ys)

-- Weights that agree on the items.
pub total-ext :
    (v w : ℕ → ℕ) (xs : List ℕ) → ((x : ℕ) → count x xs ≢ 0 → v x ≡ w x) → total v xs ≡ total w xs
total-ext v w [] same = refl
total-ext v w (x ∷ xs) same =
    omega
      (arith, same x (ground arith), total-ext v w xs (λ y some_y. same y (omega (arith, some_y))))
