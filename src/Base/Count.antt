-- ===== src/Base/Count.antt =====
-- How often a number stands in a list.
use Prim.Native.Nat.{ℕ, suc, ◌+◌, ◌≤◌}
use mathlib.Core.Path.{◌≡◌, refl}
use mathlib.Core.Bool.{true, false}
use mathlib.Core.List.{List, [], ◌∷◌, ◌++◌}
use native.Mathlib.Omega.{arith}
use c_axon.Base.Tests.{◌==◌, if◌then◌else◌}
use c_axon.Base.Lists.{has, Distinct}

abbrev pub count : ℕ → List ℕ → ℕ
count a [] = 0
count a (x ∷ xs) = if a == x then suc (count a xs) else count a xs

pub count-append : (a : ℕ) (xs ys : List ℕ) → count a (xs ++ ys) ≡ count a xs + count a ys
count-append a [] ys = ground arith
count-append a (x ∷ xs) ys = ground (arith, count-append a xs ys)

-- A number in a list is counted, and one that is counted is in the list.
pub count-has : (a : ℕ) (xs : List ℕ) → has a xs ≡ true → 1 ≤ count a xs
count-has a [] h = absurd (ground arith)
count-has a (x ∷ xs) h = ground (arith, count-has a xs)

pub count-not-has : (a : ℕ) (xs : List ℕ) → has a xs ≡ false → count a xs ≡ 0
count-not-has a [] h = refl
count-not-has a (x ∷ xs) h = ground (arith, count-not-has a xs)

pub has_of_count : (a : ℕ) (xs : List ℕ) → count a xs ≡ 0 → has a xs ≡ false
has_of_count a [] h = refl
has_of_count a (x ∷ xs) h = ground (arith, has_of_count a xs)

-- A list that counts nothing twice has no number twice.
pub once-Distinct : (xs : List ℕ) → ((a : ℕ) → count a xs ≤ 1) → Distinct xs
once-Distinct [] once = tt
once-Distinct (x ∷ xs) once =
    (has_of_count x xs (ground (arith, once x)), once-Distinct xs (λ a. ground (arith, once a)))
