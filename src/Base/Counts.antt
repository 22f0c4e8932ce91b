-- ===== src/Base/Counts.antt =====
-- How often a number stands in a list.
use mathlib.Core.Path.{◌≡◌}
use mathlib.Core.Bool.{Bool, true, false}
use mathlib.Core.List.{List, [], ◌∷◌, ◌++◌}
use Prim.Native.Nat.{ℕ, ◌+◌}
use native.Mathlib.Omega.{arith}
use locasta.Base.Tests.{◌==◌}

abbrev pub one_if : Bool → ℕ
one_if true = 1
one_if false = 0

abbrev pub count : ℕ → List ℕ → ℕ
count n [] = 0
count n (m ∷ ms) = one_if (m == n) + count n ms

pub count-append_one :
    (n m : ℕ) (ms : List ℕ) → count n (ms ++ m ∷ []) ≡ count n ms + one_if (m == n)
count-append_one n m [] = omega arith
count-append_one n m (k ∷ ms) = omega (arith, count-append_one n m ms)
