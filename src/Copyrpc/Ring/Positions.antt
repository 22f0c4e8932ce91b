-- ===== src/Copyrpc/Ring/Positions.antt =====
-- The positions of copyrpc/src/ring.rs and their offsets in the buffer.
use locasta.Base.{
  ℕ, zero, suc, ◌+◌, ◌%◌, ◌^◌, ◌≤◌, ◌<◌, ◌≡◌, refl, sym, ap, Bool-cases, inl, inr, leb→le, ◌∙◌,
  true, false, arith, ltb, leb, length, length-replicate,
}
use Prim.Native.Nat.{bit_and}
use native.Mathlib.Nat.{one-le-pow, mod-lt, pow-suc, pow-le-pow_right}
use native.Mathlib.Decide.{dec_lt}
use mathlib.Core.Path.{subst}
use locasta.Base.Bits.{bit_and_mask}
use locasta.Copyrpc.Ring.{
  RingBufferState, new_state, available_write, available_read, can_write, advance_producer,
  advance_consumer, update_consumer, to_offset, check_wrap, double_until, next_power_of_two, new,
}

-- The consumer is not ahead of the producer, what lies between fits the buffer, and no position
-- has reached 2 ^ 64.
pub record IsValid (s : RingBufferState) : Type 0 where
  pub small : s.size < 2 ^ 64
  pub ordered : s.consumer ≤ s.producer
  pub fits : s.producer ≤ s.consumer + s.size
  pub no_wrap : s.producer < 2 ^ 64

-- What can be read and what can be written make up the buffer.
pub available_lem :
    (s : RingBufferState)
    → IsValid s
    → (s.consumer + available_read s ≡ s.producer) × (available_read s + available_write s ≡ s.size)
unfolding available_read available_write
available_lem s v = omega arith

-- A write that `can_write` allows keeps the ring valid, takes its length from the room and adds
-- it to what can be read, as long as the position does not reach 2 ^ 64.
pub advance_producer-IsValid :
    (s : RingBufferState) (n : ℕ)
    → IsValid s
    → can_write s n ≡ true
    → s.producer + n < 2 ^ 64
    → IsValid (advance_producer s n)
      × (available_write (advance_producer s n) + n ≡ available_write s)
      × (available_read (advance_producer s n) ≡ available_read s + n)
unfolding advance_producer can_write available_write available_read
advance_producer-IsValid s n v ok small = ground arith

-- Consuming no more than there is keeps the ring valid and gives the room back.
pub advance_consumer-IsValid :
    (s : RingBufferState) (n : ℕ)
    → IsValid s
    → n ≤ available_read s
    → IsValid (advance_consumer s n)
      × (available_write (advance_consumer s n) ≡ available_write s + n)
      × (available_read (advance_consumer s n) + n ≡ available_read s)
unfolding advance_consumer available_write available_read
advance_consumer-IsValid s n v h = omega arith

-- A report of the peer never moves the consumer back, and a report up to the producer's position
-- keeps the ring valid.
pub update_consumer-IsValid :
    (s : RingBufferState) (n : ℕ)
    → IsValid s
    → n ≤ s.producer
    → IsValid (update_consumer s n)
      × (s.consumer ≤ (update_consumer s n).consumer)
      × (n ≤ (update_consumer s n).consumer)
unfolding update_consumer
update_consumer-IsValid s n v h = ground arith

pub to_offset-eq-mod :
    (s : RingBufferState) (k pos : ℕ)
    → s.size ≡ 2 ^ k
    → s.size < 2 ^ 64
    → to_offset s pos ≡ pos % s.size
unfolding to_offset
to_offset-eq-mod s k pos e h =
    ap (bit_and pos) (omega (arith, e, one-le-pow k 2))
    ∙ bit_and_mask k pos
    ∙ ap (λ m. pos % m) (sym e)

-- Where the size is a power of two, a write at the producer's position starts inside the buffer,
-- at the position modulo the size, and `check_wrap` says exactly whether it runs over the end.
pub check_wrap_lem :
    (s : RingBufferState) (k n : ℕ)
    → s.size ≡ 2 ^ k
    → s.size < 2 ^ 64
    → ((check_wrap s n).0 ≡ s.producer % s.size)
      × ((check_wrap s n).0 < s.size)
      × ((check_wrap s n).1 ≡ ltb s.size (s.producer % s.size + n))
unfolding check_wrap
check_wrap_lem s k n e h =
    let o = to_offset-eq-mod s k s.producer e h in
    (
      o,
      omega (
        arith,
        o,
        e,
        one-le-pow k 2,
        mod-lt s.producer {m = s.size} (omega (arith, e, one-le-pow k 2)),
      ),
      rw o refl,
    )

-- The doubling stops at a power of two that holds the number, with any fuel that reaches it.
double_until_lem :
    (fuel j b n : ℕ)
    → n ≤ 2 ^ b
    → j ≤ b
    → b ≤ j + fuel
    → (k : ℕ) × (double_until fuel n (2 ^ j) ≡ 2 ^ k) × (k ≤ b) × (n ≤ 2 ^ k)
unfolding double_until
double_until_lem zero j b n h p q =
    (j, refl, p, subst (λ t. n ≤ 2 ^ t) {x = b} {y = j} (omega arith) h)
double_until_lem (suc fuel) j b n h p q = elim (Bool-cases (leb n (2 ^ j))) [
  | inl e ↦ (j, rw e refl, p, leb→le _ _ e)
  | inr e ↦ elim (dec_lt j b) [
    | yes lt ↦
        let (k, eq, le, fit) = double_until_lem fuel (suc j) b n h (omega arith) (omega arith) in
        (k, rw e (ap (double_until fuel n) (sym (pow-suc 2 j)) ∙ eq), le, fit)
    | no ge ↦ absurd (too_small (omega arith) e)
  ]
]
  where
    too_small : b ≡ j → leb n (2 ^ j) ≡ false → ⊥
    too_small same e = ground (arith, subst (λ t. n ≤ 2 ^ t) same h)

-- A new ring has a power of two for its size, at least the size that was asked for, and a buffer
-- of that length, and is valid and empty.
pub new_lem :
    (n : ℕ)
    → n ≤ 2 ^ 63
    → (k : ℕ) × ((new n).state.size ≡ 2 ^ k)
      × (n ≤ (new n).state.size)
      × (length (new n).buf ≡ (new n).state.size)
      × IsValid (new n).state
      × (available_read (new n).state ≡ 0)
unfolding new new_state next_power_of_two available_read
new_lem n h =
    let (k, eq, le, fit) = double_until_lem 64 0 63 n h (omega arith) (omega arith) in
    let bound = pow-le-pow_right {n = 2} (omega arith) {i = k} {j = 63} le in
    let len = length-replicate {A = ℕ} (next_power_of_two n) 0 in
    (k, eq, omega (arith, eq, fit), len, omega (arith, eq, bound), refl)
