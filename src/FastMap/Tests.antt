-- ===== src/FastMap/Tests.antt =====
-- Runs of fastmap/src/lib.rs on the inputs of its unit tests, and instances of the theorems.
use locasta.Base.{ℕ, ◌≡◌, refl, true, false, none, some, [], ◌∷◌, arith}
use locasta.FastMap.{
  FastMap, new, insert, insert_first, insert_front, insert_at, grow_to, get, contains_key, is_empty,
  iter_from, iter,
}
use locasta.FastMap.Lookup.{get-insert}
use locasta.FastMap.Invariant.{IsValid}

-- The keys 100 and 102, with a gap between them.
abbrev two_keys : FastMap ℕ
two_keys = record { entries = some 1 ∷ none ∷ some 3 ∷ []; base = 100; len = 2 }

two_keys_built : (insert (insert new 100 1).0 102 3).0 ≡ two_keys
unfolding new insert insert_first insert_at grow_to
two_keys_built = refl

-- `test_insert_before_base`
insert_before_base :
    (insert two_keys 98 7).0
    ≡ record { entries = some 7 ∷ none ∷ some 1 ∷ none ∷ some 3 ∷ []; base = 98; len = 3 }
unfolding insert insert_front
insert_before_base = refl

two_keys-IsValid : IsValid two_keys
two_keys-IsValid = omega arith

iter-two_keys : iter two_keys ≡ (100, 1) ∷ (102, 3) ∷ []
unfolding iter iter_from
iter-two_keys = refl

empty_tests : (is_empty (new {V = ℕ}) ≡ true) × (contains_key two_keys 101 ≡ false)
unfolding is_empty contains_key get new
empty_tests = (refl, refl)

get-insert_example :
    (get (insert two_keys 98 7).0 102 ≡ get two_keys 102)
    × ((insert two_keys 98 7).1 ≡ get two_keys 98)
get-insert_example = get-insert two_keys 98 7 102
