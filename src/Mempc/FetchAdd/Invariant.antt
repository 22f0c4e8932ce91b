-- ===== src/Mempc/FetchAdd/Invariant.antt =====
-- The invariant of the request ring of mempc/src/fetch_add.rs.
use Prim.Native.Nat.{bit_and}
use native.Mathlib.Nat.{
  one-le-pow, pow-le-pow_right, mod-lt, div-add-mod, le-mul_of_pos_right, add-mul-mod_self_left,
}
use locasta.Base.{
  ℕ, suc, ◌+◌, ◌-◌, ◌*◌, ◌/◌, ◌%◌, ◌^◌, ◌≤◌, ◌<◌, ◌≡◌, ◌≢◌, ◌⊎◌, inl, inr, sym, ap, ◌∙◌, false,
  none, some, List, arith, length, get_elem?, get_or, take,
}
use native.Mathlib.Decide.{dec_lt}
use locasta.Base.Bits.{bit_and_mask, mod-ne_of_close}
use locasta.Mempc.FetchAdd.{RequestRing, Stage, idle, spinning, writing, written, failed, slot_at}
use locasta.Mempc.FetchAdd.Claims.{count_of}

module _ {A : Type 0} (k : ℕ) where
  abbrev pub seq_at : RequestRing A → ℕ → ℕ
  seq_at r p = get_or r.seqs (p % 2 ^ k) 0

  -- The slot of a position has its claim.
  abbrev pub Holds : RequestRing A → ℕ → ℕ → A → Type 0
  Holds r p c v =
      (get_or r.caller_ids (p % 2 ^ k) 0 ≡ c) × (get_or r.cells (p % 2 ^ k) none ≡ some v)

  -- A slot is free for its position, or has the claim of it.
  abbrev pub SlotIsValid : RequestRing A → List (ℕ × A) → ℕ → Type 0
  SlotIsValid r claims p =
      (seq_at r p ≡ p)
      ⊎ ((seq_at r p ≡ p + 1)
          × ((c : ℕ) × (v : A) × (get_elem? claims p ≡ some (c, v)) × Holds r p c v))

  pub record IsValid (r : RequestRing A) (claims : List (ℕ × A)) : Type 0 where
    pub some_slots : 1 ≤ k
    pub power : r.mask ≡ 2 ^ k - 1
    pub full : r.capacity ≡ 2 ^ k
    pub seq_slots : length r.seqs ≡ 2 ^ k
    pub id_slots : length r.caller_ids ≡ 2 ^ k
    pub value_slots : length r.cells ≡ 2 ^ k
    pub at_head : r.head ≡ length claims
    pub order : r.tail ≤ r.head
    pub slots : (p : ℕ) → r.tail ≤ p → p < r.tail + 2 ^ k → SlotIsValid r claims p

  -- A caller's claim that is not handed over yet, and its number.
  pub record IsClaimed (r : RequestRing A) (claims : List (ℕ × A)) (send_count c pos : ℕ) (v : A)
      : Type 0 where
    pub after_tail : r.tail ≤ pos
    pub claimed : get_elem? claims pos ≡ some (c, v)
    pub unpublished : pos < r.tail + 2 ^ k → seq_at r pos ≡ pos
    pub number : send_count ≡ count_of c (take pos claims)
    pub last : count_of c claims ≡ suc send_count

  abbrev pub StageIsValid : RequestRing A → List (ℕ × A) → ℕ → ℕ → Stage A → Type 0
  StageIsValid r claims send_count c idle = send_count ≡ count_of c claims
  StageIsValid r claims send_count c (spinning busy pos v) = IsClaimed r claims send_count c pos v
  StageIsValid r claims send_count c (writing pos v) =
      IsClaimed r claims send_count c pos v × (pos < r.tail + 2 ^ k)
  StageIsValid r claims send_count c (written pos v) =
      IsClaimed r claims send_count c pos v × (pos < r.tail + 2 ^ k) × Holds r pos c v
  StageIsValid r claims send_count c failed = r.rx_alive ≡ false

  module _ (r : RequestRing A) (claims : List (ℕ × A)) (v : IsValid r claims) where
    pub slot_at-mod : (p : ℕ) → slot_at r p ≡ p % 2 ^ k
    unfolding slot_at
    slot_at-mod p = ap (bit_and p) v.power ∙ bit_and_mask k p

    pub slot_lt : (p : ℕ) → p % 2 ^ k < 2 ^ k
    slot_lt p = mod-lt p {m = 2 ^ k} (omega (arith, one-le-pow k 2))

    -- Two positions between the tail and a round later have different slots.
    pub apart :
        (p q : ℕ)
        → r.tail ≤ p
        → p < r.tail + 2 ^ k
        → r.tail ≤ q
        → q < r.tail + 2 ^ k
        → p ≢ q
        → p % 2 ^ k ≢ q % 2 ^ k
    apart p q a b c d ne e = elim (dec_lt p q) [
      | yes lt ↦ mod-ne_of_close p q (2 ^ k) lt (omega arith) e
      | no ge ↦ mod-ne_of_close q p (2 ^ k) (omega arith) (omega arith) (sym e)
    ]

    -- A slot that looks free for a claimed position is, since a ring has two slots at least.
    pub free_in_round : (pos : ℕ) → r.tail ≤ pos → seq_at r pos ≡ pos → pos < r.tail + 2 ^ k
    free_in_round pos h free = elim (dec_lt pos (r.tail + 2 ^ k)) [
      | yes lt ↦ lt
      | no ge ↦
          let n = 2 ^ k in
          let two : 2 ≤ n = pow-le-pow_right {n = 2} (omega arith) {i = 1} {j = k} v.some_slots in
          let p = r.tail + (pos - r.tail) % n in
          let rounds = (pos - r.tail) / n in
          let apart_by : pos ≡ p + n * rounds = omega (arith, div-add-mod (pos - r.tail) n) in
          let same : pos % n ≡ p % n =
            ap (λ m. m % n) apart_by ∙ add-mul-mod_self_left p n rounds in
          let here : seq_at r p ≡ pos = ap (λ i. get_or r.seqs i 0) (sym same) ∙ free in
          let small = mod-lt (pos - r.tail) {m = n} (omega (arith, two)) in
          let far : n ≤ n * rounds = elim (dec_lt 0 rounds) [
            | yes some_round ↦ le-mul_of_pos_right n some_round
            | no same_round ↦
                let flat : n * rounds ≡ n * 0 = ap (λ (m : ℕ). n * m) (omega arith) in
                absurd (omega (arith, apart_by, small, ge, flat))
          ] in
          elim (v.slots p (omega arith) (omega (arith, small))) [
            | inl at ↦ absurd (omega (arith, at, here, ge, small, apart_by, far, two))
            | inr (at, filled) ↦ absurd (omega (arith, at, here, ge, small, two, apart_by, far))
          ]
    ]
