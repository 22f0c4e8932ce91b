-- ===== src/FastMap/Invariant.antt =====
-- The invariant of fastmap/src/lib.rs, the count that `len` caches, and what `iter` yields.
use locasta.Base.{
  ℕ, zero, suc, ◌+◌, ◌-◌, ◌%◌, ◌^◌, ◌≤◌, ◌<◌, ◌≡◌, refl, Option, none, some, List, [], ◌∷◌, ◌++◌,
  arith, ltb, ◌==◌, if◌then◌else◌, length, set, replicate, resize, length-append, length-set,
  length-replicate, length-resize,
}
use locasta.FastMap.{
  FastMap, insert_first, insert_front, insert_at, grow_to, new, insert, get, remove, entry_at,
  iter_from, iter,
}
use locasta.FastMap.Lookup.{get-entry_at, lt-length-grow_to}

module _ {V : Type 0} where
  abbrev pub to_nat : Option V → ℕ
  to_nat none = 0
  to_nat (some v) = 1

  -- The number of entries that hold a value.
  abbrev pub count : List (Option V) → ℕ
  count [] = 0
  count (x ∷ xs) = to_nat x + count xs

  -- `len` is the number of values held, and every key of the vector is a u32.
  pub record IsValid (m : FastMap V) : Type 0 where
    pub counted : m.len ≡ count m.entries
    pub in_range : m.base + length m.entries ≤ 2 ^ 32

  count-append : (xs ys : List (Option V)) → count (xs ++ ys) ≡ count xs + count ys
  count-append [] ys = omega arith
  count-append (x ∷ xs) ys = omega (arith, count-append xs ys)

count-replicate : (V : Type 0) (n : ℕ) → count (replicate {A = Option V} n none) ≡ 0
count-replicate V zero = refl
count-replicate V (suc n) = omega (arith, count-replicate V n)

module _ {V : Type 0} where
  count-resize :
      (xs : List (Option V)) (n : ℕ) → length xs ≤ n → count (resize xs n none) ≡ count xs
  count-resize [] n h = count-replicate V n
  count-resize (x ∷ xs) zero h = absurd (omega arith)
  count-resize (x ∷ xs) (suc n) h = omega (arith, count-resize xs n (omega arith))

  count-set :
      (xs : List (Option V)) (i : ℕ) (v : Option V)
      → i < length xs
      → count (set xs i v) + to_nat (entry_at xs i) ≡ count xs + to_nat v
  count-set [] i v h = absurd (omega arith)
  count-set (x ∷ xs) zero v h = omega arith
  count-set (x ∷ xs) (suc i) v h = omega (arith, count-set xs i v (omega arith))

  count-grow_to : (xs : List (Option V)) (i : ℕ) → count (grow_to xs i) ≡ count xs
  unfolding grow_to
  count-grow_to xs i = ground (arith, count-resize xs (i + 1))

  length-grow_to-le :
      (xs : List (Option V)) (i n : ℕ) → length xs ≤ n → i < n → length (grow_to xs i) ≤ n
  unfolding grow_to
  length-grow_to-le xs i n h k = ground (arith, length-resize {A = Option V} xs (i + 1) none)

  pub new-IsValid : IsValid (new {V = V})
  unfolding new
  new-IsValid = omega arith

  insert_front-IsValid :
      (m : FastMap V) (k : ℕ) (v : V) → IsValid m → k < m.base → IsValid (insert_front m k v)
  unfolding insert_front
  insert_front-IsValid m k v h lt =
      let zs = replicate {A = Option V} (m.base - k) none in
      omega (
        arith,
        length-set (zs ++ m.entries) 0 (some v),
        length-append zs m.entries,
        length-replicate {A = Option V} (m.base - k) none,
        count-set (zs ++ m.entries) 0 (some v) (
            omega (
              arith,
              length-append zs m.entries,
              length-replicate {A = Option V} (m.base - k) none,
            )),
        count-append zs m.entries,
        count-replicate V (m.base - k),
        front_none (m.base - k) m.entries (omega arith),
      )
    where
      front_none :
          (n : ℕ) (xs : List (Option V)) → 0 < n → to_nat (entry_at (replicate n none ++ xs) 0) ≡ 0
      front_none zero xs h = absurd (omega arith)
      front_none (suc n) xs h = refl

  insert_at-IsValid :
      (m : FastMap V) (i : ℕ) (v : V) → IsValid m → m.base + i < 2 ^ 32 → IsValid (insert_at m i v)
  unfolding insert_at
  insert_at-IsValid m i v h lt = ground (
    arith,
    count-set (grow_to m.entries i) i (some v) (lt-length-grow_to m.entries i),
    length-set (grow_to m.entries i) i (some v),
    length-grow_to-le m.entries i (2 ^ 32 - m.base),
    count-grow_to m.entries i,
  )

  -- Inserting at a u32 key keeps the invariant, wherever the key lies: the count is that of the
  -- values, and every key is a u32.
  pub insert-IsValid :
      (m : FastMap V) (k : ℕ) (v : V) → IsValid m → k < 2 ^ 32 → IsValid (insert m k v).0
  unfolding insert insert_first
  insert-IsValid m k v h lt =
      ground (arith, insert_front-IsValid m k v, insert_at-IsValid m (k - m.base) v)

  -- Removing keeps the invariant, takes one from the count if there was a value and changes it
  -- not at all otherwise: the subtraction from `len` never goes below zero.
  pub remove-IsValid :
      (m : FastMap V) (k : ℕ)
      → IsValid m
      → IsValid (remove m k).0 × ((remove m k).0.len + to_nat (remove m k).1 ≡ m.len)
  unfolding remove
  remove-IsValid m k h =
      ground (arith, count-set m.entries (k - m.base) none, length-set m.entries (k - m.base) none)

  -- The value of the first pair with the key.
  abbrev pub find : ℕ → List (ℕ × V) → Option V
  find k [] = none
  find k (p ∷ ps) = if p.0 == k then some p.1 else find k ps

  -- The keys go up from a bound on.
  abbrev pub AscendFrom : ℕ → List (ℕ × V) → Type 0
  AscendFrom lo [] = Unit
  AscendFrom lo (p ∷ ps) = (lo ≤ p.0) × AscendFrom (suc p.0) ps

  entry_at-suc :
      (x : Option V) (es : List (Option V)) (n : ℕ)
      → entry_at (x ∷ es) n ≡ (if n == 0 then x else entry_at es (n - 1))
  entry_at-suc x es zero = refl
  entry_at-suc x es (suc n) = ground arith

  find-iter_from :
      (base i : ℕ) (es : List (Option V)) (k : ℕ)
      → base + i + length es ≤ 2 ^ 32
      → find k (iter_from base i es)
        ≡ (if ltb k (base + i) then none else entry_at es (k - (base + i)))
  unfolding iter_from
  find-iter_from base i [] k h = ground arith
  find-iter_from base i (none ∷ es) k h =
      ground (
        arith,
        find-iter_from base (suc i) es k (omega arith),
        entry_at-suc none es (k - (base + i)),
      )
  find-iter_from base i (some v ∷ es) k h = ground (
    arith,
    find-iter_from base (suc i) es k (omega arith),
    entry_at-suc (some v) es (k - (base + i)),
  )

  length-iter_from : (base i : ℕ) (es : List (Option V)) → length (iter_from base i es) ≡ count es
  unfolding iter_from
  length-iter_from base i [] = refl
  length-iter_from base i (none ∷ es) = omega (arith, length-iter_from base (suc i) es)
  length-iter_from base i (some v ∷ es) = omega (arith, length-iter_from base (suc i) es)

  AscendFrom-iter_from :
      (base i lo : ℕ) (es : List (Option V))
      → base + i + length es ≤ 2 ^ 32
      → lo ≤ base + i
      → AscendFrom lo (iter_from base i es)
  unfolding iter_from
  AscendFrom-iter_from base i lo [] h k = tt
  AscendFrom-iter_from base i lo (none ∷ es) h k =
      AscendFrom-iter_from base (suc i) lo es (omega arith) (omega arith)
  AscendFrom-iter_from base i lo (some v ∷ es) h k = (
    omega arith,
    AscendFrom-iter_from base (suc i) (suc ((base + i) % 2 ^ 32)) es (omega arith) (omega arith),
  )

  -- On a map within the invariant `iter` yields exactly the pairs that `get` finds, in ascending
  -- order of the keys, each key once, and as many as `len` says.
  pub iter_lem :
      (m : FastMap V)
      → IsValid m
      → ((k : ℕ) → find k (iter m) ≡ get m k) × AscendFrom 0 (iter m) × (length (iter m) ≡ m.len)
  unfolding iter
  iter_lem m h = (
    λ k. ground (arith, find-iter_from m.base 0 m.entries k, get-entry_at m k),
    AscendFrom-iter_from m.base 0 0 m.entries (omega arith) (omega arith),
    omega (arith, length-iter_from m.base 0 m.entries),
  )
