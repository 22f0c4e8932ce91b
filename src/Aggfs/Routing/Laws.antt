-- ===== src/Aggfs/Routing/Laws.antt =====
-- aggfs/src/routing.rs: numbers in a path, and how chunks go round the daemons.
use native.Mathlib.Nat.{mod-lt, mod-add-mod, div-add-mod, div-le_self}
use locasta.Base.{
  ℕ, ◌+◌, ◌-◌, ◌*◌, ◌/◌, ◌%◌, ◌^◌, ◌<◌, ◌≡◌, refl, sym, ap, ◌∙◌, true, false, [], ◌∷◌, ◌++◌, arith,
  inl, inr, Bool-cases,
}
use locasta.Base.Bytes.{Bytes}
use locasta.Aggfs.Routing.{
  is_digit, wrap64, mix, shift_in, hash_from, number_from, koyama_hash, route, global_to_local,
}

-- The decimal number that digits write after what was read before.
abbrev pub decimal_from : ℕ → Bytes → ℕ
decimal_from n [] = n
decimal_from n (c ∷ cs) = decimal_from (n * 10 + (c - b'0')) cs

abbrev pub AreDigits : Bytes → Type 0
AreDigits [] = Unit
AreDigits (c ∷ cs) = (is_digit c ≡ true) × AreDigits cs

number_from_lem :
    (hash num : ℕ) (ds : Bytes) (value : ℕ)
    → AreDigits ds
    → num ≡ value % 2 ^ 64
    → number_from hash num ds ≡ (hash + decimal_from value ds) % 2 ^ 64
unfolding number_from
number_from_lem hash num [] value h e = omega arith
number_from_lem hash num (c ∷ ds) value h e =
    rw (h.0, number_from)
      (number_from_lem hash (shift_in num c) ds (value * 10 + (c - b'0')) h.1 (omega arith))

mutual
  unfolding hash_from number_from

  hash_split :
      (s : Bytes) (hash c : ℕ) (ds : Bytes)
      → is_digit c ≡ false
      → hash_from hash (s ++ c ∷ ds) ≡ hash_from (hash_from hash (s ++ c ∷ [])) ds
  hash_split [] hash c ds h = rw (h, hash_from) refl
  hash_split (b ∷ s) hash c ds h = elim (Bool-cases (is_digit b)) [
    | inl digit ↦ rw (digit, hash_from) (number_split s hash (shift_in 0 b) c ds h)
    | inr other ↦ rw (other, hash_from) (hash_split s (mix hash b) c ds h)
  ]

  number_split :
      (s : Bytes) (hash num c : ℕ) (ds : Bytes)
      → is_digit c ≡ false
      → number_from hash num (s ++ c ∷ ds) ≡ hash_from (number_from hash num (s ++ c ∷ [])) ds
  number_split [] hash num c ds h = rw (h, number_from, hash_from) refl
  number_split (b ∷ s) hash num c ds h = elim (Bool-cases (is_digit b)) [
    | inl digit ↦ rw (digit, number_from) (number_split s hash (shift_in num b) c ds h)
    | inr other ↦ rw (other, number_from) (hash_split s (mix (wrap64 (hash + num)) b) c ds h)
  ]

-- A path that ends in a number after a byte that is no digit hashes to the hash of what stands
-- before the number plus the number itself, modulo 2 ^ 64: so paths that differ in the number
-- alone have hashes that differ as their numbers do.
pub koyama_hash-number :
    (s : Bytes) (c d : ℕ) (ds : Bytes)
    → is_digit c ≡ false
    → AreDigits (d ∷ ds)
    → koyama_hash (s ++ c ∷ d ∷ ds) ≡ (koyama_hash (s ++ c ∷ []) + decimal_from 0 (d ∷ ds)) % 2 ^ 64
unfolding koyama_hash hash_from
koyama_hash-number s c d ds h digits =
    hash_split s 0 c (d ∷ ds) h
    ∙ rw (digits.0, hash_from)
        (number_from_lem (hash_from 0 (s ++ c ∷ [])) (shift_in 0 d) ds (0 * 10 + (d - b'0'))
          digits.1 (omega arith))

-- With at least one daemon every chunk has an owner among them, and where the sum with the hash
-- does not wrap the next chunk belongs to the next daemon, the first one after the last.
pub route-next :
    (path_hash chunk_index total_daemons : ℕ)
    → 0 < total_daemons
    → path_hash + chunk_index + 1 < 2 ^ 64
    → (route path_hash chunk_index total_daemons < total_daemons)
      × (route path_hash (chunk_index + 1) total_daemons
          ≡ (route path_hash chunk_index total_daemons + 1) % total_daemons)
unfolding route
route-next h c n pos small = (
  mod-lt (wrap64 (h + c)) {m = n} pos,
  ap (λ x. x % n) {x = wrap64 (h + (c + 1))} {y = wrap64 (h + c) + 1} (omega arith)
      ∙ sym (mod-add-mod (wrap64 (h + c)) n 1),
)

-- With at least one daemon on a node, the node and the index on it give the daemon's global
-- number back, for numbers below 2 ^ 32, and the index is one of the node's.
pub global_to_local_lem :
    (global_id daemons_per_node : ℕ)
    → 0 < daemons_per_node
    → global_id < 2 ^ 32
    → let (node, local) = global_to_local global_id daemons_per_node in
      (daemons_per_node * node + local ≡ global_id) × (local < daemons_per_node)
unfolding global_to_local
global_to_local_lem g n pos small = (
  ap (λ x. n * x + g % n) {x = g / n % 2 ^ 32} {y = g / n} (omega (arith, div-le_self g n))
      ∙ div-add-mod g n,
  mod-lt g {m = n} pos,
)
