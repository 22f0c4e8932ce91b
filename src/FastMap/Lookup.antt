-- ===== src/FastMap/Lookup.antt =====
-- What `get` finds after each operation of fastmap/src/lib.rs.
use locasta.Base.{
  ℕ, zero, suc, ◌+◌, ◌-◌, ◌≡◌, refl, Option, none, some, List, [], ◌∷◌, arith, ltb, ◌==◌, ◌++◌, ◌<◌,
  ◌≤◌, if◌then◌else◌, and_then, true, length, get_elem?, set, replicate, length-append,
  length-replicate, length-resize, get_or-set, get_or-resize, get_or-replicate-append, get_or_past,
}
use locasta.FastMap.{
  FastMap, is_nil, insert_first, insert_front, insert_at, grow_to, insert, get, remove, entry_at,
}

module _ {V : Type 0} where
  pub get_elem?-entry_at :
      (xs : List (Option V)) (i : ℕ) → and_then (get_elem? xs i) (λ v. v) ≡ entry_at xs i
  get_elem?-entry_at [] i = refl
  get_elem?-entry_at (x ∷ xs) zero = refl
  get_elem?-entry_at (x ∷ xs) (suc i) = get_elem?-entry_at xs i

  nil_entry_at : (xs : List (Option V)) (i : ℕ) → is_nil xs ≡ true → entry_at xs i ≡ none
  nil_entry_at [] i h = refl
  nil_entry_at (x ∷ xs) i h = cc

  -- `get` in one line: below the base there is nothing, and past the end there is nothing.
  pub get-entry_at :
      (m : FastMap V) (k : ℕ)
      → get m k ≡ (if ltb k m.base then none else entry_at m.entries (k - m.base))
  unfolding get
  get-entry_at m k =
      ground (arith, get_elem?-entry_at m.entries (k - m.base), nil_entry_at m.entries (k - m.base))

  -- The front of the vector is filled with nothing when the base moves down.
  entry_at-front :
      (n i : ℕ) (xs : List (Option V)) (v : V)
      → 0 < n
      → entry_at (set (replicate n none ++ xs) 0 (some v)) i
        ≡ (if 0 == i then some v else if ltb i n then none else entry_at xs (i - n))
  entry_at-front n i xs v h =
      rw
        (
          get_or-set (replicate n none ++ xs) 0 i (some v) none (
              omega (
                arith,
                length-append (replicate n none) xs,
                length-replicate {A = Option V} n none,
              )),
          get_or-replicate-append n i xs none,
        )
        refl

  pub entry_at-grow_to :
      (xs : List (Option V)) (i j : ℕ) → entry_at (grow_to xs i) j ≡ entry_at xs j
  unfolding grow_to
  entry_at-grow_to xs i j = ground (arith, get_or-resize xs (i + 1) j none)

  pub lt-length-grow_to : (xs : List (Option V)) (i : ℕ) → i < length (grow_to xs i)
  unfolding grow_to
  lt-length-grow_to xs i = ground (arith, length-resize {A = Option V} xs (i + 1) none)

  get-insert_first :
      (m : FastMap V) (k : ℕ) (v : V) (j : ℕ)
      → is_nil m.entries ≡ true
      → get (insert_first k v) j ≡ (if k == j then some v else get m j)
  unfolding insert_first
  get-insert_first m k v j h = ground (
    arith,
    get-entry_at (insert_first k v) j,
    get-entry_at m j,
    nil_entry_at m.entries (j - m.base),
    get_or_past (some v ∷ []) (j - k) none,
  )

  get-insert_front :
      (m : FastMap V) (k : ℕ) (v : V) (j : ℕ)
      → k < m.base
      → get (insert_front m k v) j ≡ (if k == j then some v else get m j)
  unfolding insert_front
  get-insert_front m k v j h = ground (
    arith,
    get-entry_at (insert_front m k v) j,
    get-entry_at m j,
    entry_at-front (m.base - k) (j - k) m.entries v,
  )

  get-insert_at :
      (m : FastMap V) (k : ℕ) (v : V) (j : ℕ)
      → m.base ≤ k
      → get (insert_at m (k - m.base) v) j ≡ (if k == j then some v else get m j)
  unfolding insert_at
  get-insert_at m k v j h = ground (
    arith,
    get-entry_at (insert_at m (k - m.base) v) j,
    get-entry_at m j,
    get_or-set (grow_to m.entries (k - m.base)) (k - m.base) (j - m.base) (some v) none,
    lt-length-grow_to m.entries (k - m.base),
    entry_at-grow_to m.entries (k - m.base) (j - m.base),
  )

  -- A lookup after `insert` finds the new value at its key and what was there before at any other,
  -- and `insert` returns what was there before at its key.
  pub get-insert :
      (m : FastMap V) (k : ℕ) (v : V) (j : ℕ)
      → (get (insert m k v).0 j ≡ (if k == j then some v else get m j))
        × ((insert m k v).1 ≡ get m k)
  unfolding insert
  get-insert m k v j = ground (
    arith,
    get-insert_first m k v j,
    get-insert_front m k v j,
    get-insert_at m k v j,
    entry_at-grow_to m.entries (k - m.base) (k - m.base),
    get-entry_at m k,
    nil_entry_at m.entries (k - m.base),
  )

  -- A lookup after `remove` finds nothing at the key and what was there before at any other, and
  -- `remove` returns what was there before at the key.
  pub get-remove :
      (m : FastMap V) (k j : ℕ)
      → (get (remove m k).0 j ≡ (if k == j then none else get m j)) × ((remove m k).1 ≡ get m k)
  unfolding remove
  get-remove m k j = ground (
    arith,
    get-entry_at (remove m k).0 j,
    get-entry_at m j,
    get-entry_at m k,
    get_or_past m.entries (k - m.base) none,
    get_or-set m.entries (k - m.base) (j - m.base) none none,
  )
