-- ===== src/Benchkv/Storage/Laws.antt =====
-- benchkv/src/storage.rs: the shard as a map on the keys that its daemon owns.
use native.Mathlib.Nat.{div-add-mod, div-lt_iff_lt-mul, lt-mul-div-succ}
use locasta.Base.{
  ℕ, zero, suc, ◌+◌, ◌*◌, ◌/◌, ◌%◌, ◌<◌, ◌≡◌, refl, sym, ◌∙◌, false, some, List, [], ◌∷◌, length,
  replicate, get_elem?, set, if◌then◌else◌, ◌==◌, Bool-cases, inl, inr, arith,
}
use locasta.Benchkv.Storage.{ShardedStore, div_ceil, new, owner_of, local_index, get, put}

get_elem?-set :
    (xs : List ℕ) (i j v : ℕ)
    → i < length xs
    → get_elem? (set xs i v) j ≡ (if i == j then some v else get_elem? xs j)
get_elem?-set [] i j v h = absurd (omega arith)
get_elem?-set (x ∷ xs) zero zero v h = refl
get_elem?-set (x ∷ xs) zero (suc j) v h = ground arith
get_elem?-set (x ∷ xs) (suc i) zero v h = ground arith
get_elem?-set (x ∷ xs) (suc i) (suc j) v h = ground (arith, get_elem?-set xs i j v (omega arith))

get_elem?-replicate : (n i v : ℕ) → i < n → get_elem? (replicate n v) i ≡ some v
get_elem?-replicate zero i v h = absurd (omega arith)
get_elem?-replicate (suc n) zero v h = refl
get_elem?-replicate (suc n) (suc i) v h = get_elem?-replicate n i v (omega arith)

-- The place of a key below the range.
index-div_ceil : (range n key : ℕ) → 0 < n → key < range → key / n < div_ceil range n
unfolding div_ceil
index-div_ceil range n key pos h = elim (Bool-cases (range % n == 0)) [
  | inl even ↦
      let whole = div-add-mod range n in rw even ((div-lt_iff_lt-mul pos).1 (grind (arith, whole)))
  | inr rest ↦
      let above = lt-mul-div-succ range pos in
      rw rest ((div-lt_iff_lt-mul pos).1 (grind (arith, above)))
]

-- With at least one daemon every key below the range has a place in its owner's shard, where the
-- value is 0 at first.
pub get-new :
    (key_range num_daemons key : ℕ)
    → 0 < num_daemons
    → key < key_range
    → get (new key_range num_daemons (owner_of key num_daemons)) key ≡ some 0
unfolding get new local_index
get-new range n key pos h =
    get_elem?-replicate (div_ceil range n) (key / n) 0 (index-div_ceil range n key pos h)

-- Two keys of one daemon have two places.
index_apart : (n k o : ℕ) → k % n ≡ o % n → (k == o) ≡ false → (k / n == o / n) ≡ false
index_apart n k o same apart = elim (Bool-cases (k / n == o / n)) [
  | inl equal ↦
      let quotients : k / n ≡ o / n = ground arith in
      let keys : k ≡ o =
        sym (div-add-mod k n) ∙ (λ i. n * quotients i + same i) ∙ div-add-mod o n in
      ground arith
  | inr different ↦ different
]

-- In a shard, a key that has a place gets the value that was put, and every other key that the
-- same daemon owns gets what it got before.
pub get-put :
    (s : ShardedStore) (key value other : ℕ)
    → owner_of key s.num_daemons ≡ s.daemon_id
    → owner_of other s.num_daemons ≡ s.daemon_id
    → local_index s key < length s.data_of
    → get (put s key value) other ≡ (if key == other then some value else get s other)
unfolding get put local_index owner_of
get-put s k v o hk ho room =
    get_elem?-set s.data_of (k / s.num_daemons) (o / s.num_daemons) v room
    ∙ elim (Bool-cases (k == o)) [
      | inl same ↦ ground arith
      | inr apart ↦ rw apart (rw (index_apart s.num_daemons k o (hk ∙ sym ho) apart) refl)
    ]
