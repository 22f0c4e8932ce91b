-- ===== src/Scalerpc/Mapping/Table.antt =====
-- Tables of options: how many entries are there, and how reads follow writes.
use locasta.Base.{
  ℕ, zero, suc, ◌+◌, ◌-◌, ◌≤◌, ◌<◌, ◌≡◌, refl, true, false, Option, none, List, [], ◌∷◌, leb, ◌==◌,
  length, get_or, set, resize, replicate, is_some, get_or-resize, Bool-cases, inl, inr,
  length-resize, arith,
}
use locasta.Base.Counts.{one_if, count}
use locasta.Scalerpc.Mapping.{reach, remove_one}

module _ {A : Type 0} where
  -- The number of entries that are there.
  abbrev pub count_some : List (Option A) → ℕ
  count_some [] = 0
  count_some (o ∷ os) = one_if (is_some o) + count_some os

  pub count_some-set :
      (xs : List (Option A)) (i : ℕ) (v : Option A)
      → i < length xs
      → count_some (set xs i v) + one_if (is_some (get_or xs i none))
        ≡ count_some xs + one_if (is_some v)
  count_some-set [] i v h = absurd (omega arith)
  count_some-set (x ∷ xs) zero v h = omega arith
  count_some-set (x ∷ xs) (suc i) v h = omega (arith, count_some-set xs i v (omega arith))

  count_some-replicate : (n : ℕ) (o : Option A) → is_some o ≡ false → count_some (replicate n o) ≡ 0
  count_some-replicate zero o h = refl
  count_some-replicate (suc n) o h = ground (arith, h, count_some-replicate n o h)

  count_some-resize :
      (xs : List (Option A)) (n : ℕ) → length xs ≤ n → count_some (resize xs n none) ≡ count_some xs
  count_some-resize [] n h = count_some-replicate n none refl
  count_some-resize (x ∷ xs) zero h = absurd (omega arith)
  count_some-resize (x ∷ xs) (suc n) h = omega (arith, count_some-resize xs n (omega arith))

  -- A table that is made longer reads as before, with as many entries, and the index is inside.
  pub reach_lem :
      (xs : List (Option A)) (i : ℕ)
      → ((j : ℕ) → get_or (reach xs i) j none ≡ get_or xs j none)
        × (count_some (reach xs i) ≡ count_some xs)
        × (i < length (reach xs i))
  reach_lem xs i = elim (Bool-cases (leb (length xs) i)) [
    | inl short ↦ rw short (
      (λ j. get_or-resize xs (i + 1) j none (ground arith)),
      count_some-resize xs (i + 1) (ground arith),
      omega (arith, length-resize xs (i + 1) none),
    )
    | inr long ↦ rw long ((λ j. refl), refl, ground arith)
  ]

  -- What is there is inside.
  pub get_or_inside :
      (xs : List (Option A)) (i : ℕ) → is_some (get_or xs i none) ≡ true → i < length xs
  get_or_inside [] i h = cc
  get_or_inside (x ∷ xs) zero h = omega arith
  get_or_inside (x ∷ xs) (suc i) h = omega (arith, get_or_inside xs i h)

-- How often a number is left when one of a list is taken out.
pub count-remove_one :
    (n m : ℕ) (ms : List ℕ) → count n (remove_one ms m) ≡ count n ms - one_if (m == n)
count-remove_one n m [] = omega arith
count-remove_one n m (k ∷ ms) = ground (arith, count-remove_one n m ms)
