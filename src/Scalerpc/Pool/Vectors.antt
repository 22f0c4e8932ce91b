-- ===== src/Scalerpc/Pool/Vectors.antt =====
-- `Vec::pop` and `Vec::swap_remove`, and how often a number is left.
use locasta.Base.{
  ℕ, zero, suc, ◌+◌, ◌≤◌, ◌<◌, ◌≡◌, refl, Option, none, some, List, [], ◌∷◌, ◌==◌, if◌then◌else◌,
  length, get_or, set, Bool-cases, inl, inr, arith,
}
use locasta.Base.Counts.{one_if, count}

-- The last entry of a list that starts with `x`, and the list without it.
abbrev pub last_of : ℕ → List ℕ → ℕ
last_of x [] = x
last_of x (y ∷ ys) = last_of y ys

abbrev pub init_of : ℕ → List ℕ → List ℕ
init_of x [] = []
init_of x (y ∷ ys) = x ∷ init_of y ys

abbrev pub pop : List ℕ → Option (List ℕ × ℕ)
pop [] = none
pop (x ∷ xs) = some (init_of x xs, last_of x xs)

-- The entry at a position is replaced by the last one.
unfoldable pub swap_remove : List ℕ → ℕ → List ℕ
swap_remove [] pos = []
swap_remove (x ∷ xs) pos =
    if pos == length xs then init_of x xs else set (init_of x xs) pos (last_of x xs)

pub count-init_of :
    (n x : ℕ) (xs : List ℕ)
    → count n (init_of x xs) + one_if (last_of x xs == n) ≡ one_if (x == n) + count n xs
count-init_of n x [] = omega arith
count-init_of n x (y ∷ ys) = omega (arith, count-init_of n y ys)

length-init_of : (x : ℕ) (xs : List ℕ) → length (init_of x xs) ≡ length xs
length-init_of x [] = refl
length-init_of x (y ∷ ys) = omega (arith, length-init_of y ys)

get_or-init_of :
    (x : ℕ) (xs : List ℕ) (pos : ℕ)
    → pos ≤ length xs
    → get_or (x ∷ xs) pos 0
      ≡ (if pos == length xs then last_of x xs else get_or (init_of x xs) pos 0)
get_or-init_of x [] zero h = refl
get_or-init_of x [] (suc pos) h = absurd (omega arith)
get_or-init_of x (y ∷ ys) zero h = ground arith
get_or-init_of x (y ∷ ys) (suc pos) h = ground (arith, get_or-init_of y ys pos (omega arith))

count-set :
    (n : ℕ) (xs : List ℕ) (pos v : ℕ)
    → pos < length xs
    → count n (set xs pos v) + one_if (get_or xs pos 0 == n) ≡ count n xs + one_if (v == n)
count-set n [] pos v h = absurd (omega arith)
count-set n (x ∷ xs) zero v h = omega arith
count-set n (x ∷ xs) (suc pos) v h = omega (arith, count-set n xs pos v (omega arith))

pub count-swap_remove :
    (n : ℕ) (xs : List ℕ) (pos : ℕ)
    → pos < length xs
    → count n (swap_remove xs pos) + one_if (get_or xs pos 0 == n) ≡ count n xs
unfolding swap_remove
count-swap_remove n [] pos h = absurd (omega arith)
count-swap_remove n (x ∷ xs) pos h = elim (Bool-cases (pos == length xs)) [
  | inl last ↦ ground (arith, last, count-init_of n x xs, get_or-init_of x xs pos (omega arith))
  | inr other ↦
      let there =
        count-set n (init_of x xs) pos (last_of x xs) (ground (arith, length-init_of x xs)) in
      ground (arith, other, there, count-init_of n x xs, get_or-init_of x xs pos (omega arith))
]
