-- ===== src/Mempc/Onesided/Fifo.antt =====
-- The order in which values go through the channel of mempc/src/onesided.rs.
use Prim.Native.Nat.{bit_and}
use locasta.Base.{
  ℕ, zero, suc, ◌+◌, ◌-◌, ◌%◌, ◌^◌, ◌≤◌, ◌<◌, ◌≡◌, ◌⊎◌, inl, inr, refl, ap, ◌∙◌, true, false, none,
  some, List, arith, ◌==◌, length, get_or, take, get_elem?, min, Bool-cases,
}
use locasta.Mempc.Onesided.{
  Channel, Run, Op, run, start, is_ready, load_generation, load_data, try_recv, value, nothing,
  count_from, count_available,
}
use locasta.Mempc.Onesided.Steps.{
  IsValid, HaveRoom, run-IsValid, start-IsValid, is_ready_lem, is_ready-tail,
  load_generation-IsValid, load_found, tail_cell, load_data-nothing,
}

pub load_value :
    {A : Type 0} (c : Channel A) (x : A) (i : ℕ)
    → c.receiving ≡ true
    → bit_and c.tail c.mask ≡ i
    → get_or c.cells (bit_and c.tail c.mask) none ≡ some x
    → (load_data c).1 ≡ value i x
unfolding load_data
load_value c x i seen at found = rw (seen, found, at) refl

module _ {A : Type 0} (k : ℕ) where
  -- On a channel whose capacity is a power of two up to 2 ^ 63, after any interleaving of the
  -- sender's stores and the receiver's loads in which the sender starts a value only when fewer
  -- than the capacity are on the way: the values received are the first ones of those sent, in
  -- their order, no more than the capacity are on the way, and no cell was read before it was
  -- written.
  pub run_takes :
      (ops : List (Op A))
      → k ≤ 63
      → HaveRoom k (start (2 ^ k)) ops
      → let r = run (start (2 ^ k)) ops in
        (r.received ≡ take (length r.received) r.sent)
        × (length r.sent ≤ length r.received + 2 ^ k)
        × (r.read_uninit ≡ false)
  run_takes ops h room =
      let (heads, v) = run-IsValid k (start (2 ^ k)) ops 0 (start-IsValid k h) room in
      (v.in_order, v.room, v.written)

  module _ (r : Run A) (heads : ℕ) (v : IsValid k r heads) where
    pub found_next :
        is_ready r.chan r.chan.tail ≡ true
        → (x : A) × (get_elem? r.sent (length r.received) ≡ some x)
          × ((try_recv r.chan).1 ≡ value (length r.received % 2 ^ k) x)
    unfolding try_recv load_generation
    found_next ready =
        let looked = record r { chan = load_generation r.chan } in
        let w = load_generation-IsValid k r heads v in
        let (x, e, found) = load_found k looked heads w ready in
        (
          x,
          e,
          load_value (load_generation r.chan) x (length r.received % 2 ^ k) ready
              (tail_cell k looked heads w) found,
        )

    pub found_none : is_ready r.chan r.chan.tail ≡ false → (try_recv r.chan).1 ≡ nothing
    unfolding try_recv load_generation
    found_none unready =
        ap (λ p. p.1) (load_data-nothing k r heads v (load_generation r.chan) unready)

    pub count_from_lem :
        (left p : ℕ)
        → length r.received ≤ p
        → p ≤ heads
        → count_from r.chan (p % 2 ^ 64) left ≡ min left (heads - p)
    unfolding count_from
    count_from_lem zero p lo hi = omega arith
    count_from_lem (suc left) p lo hi = elim (Bool-cases (p == heads)) [
      | inl last ↦ ground (arith, is_ready_lem k r heads v p lo hi)
      | inr before ↦
          let lt : p < heads = ground arith in
          ground (
            arith,
            is_ready_lem k r heads v p lo hi,
            ap (λ n. count_from r.chan n left) {x = (p % 2 ^ 64 + 1) % 2 ^ 64}
                {y = (p + 1) % 2 ^ 64} (omega arith),
            count_from_lem left (p + 1) (omega arith) (omega arith),
          )
    ]

  -- After such a run, and when the sender is not between its two stores, one undisturbed receive
  -- gives the next of the values sent and its slot, or nothing if all were received.
  pub try_recv_lem :
      (ops : List (Op A))
      → k ≤ 63
      → HaveRoom k (start (2 ^ k)) ops
      → (run (start (2 ^ k)) ops).chan.sending ≡ false
      → let r = run (start (2 ^ k)) ops in
        ((length r.received ≡ length r.sent) × ((try_recv r.chan).1 ≡ nothing))
        ⊎ ((x : A) × (get_elem? r.sent (length r.received) ≡ some x)
            × ((try_recv r.chan).1 ≡ value (length r.received % 2 ^ k) x))
  try_recv_lem ops h room idle =
      let r = run (start (2 ^ k)) ops in
      let (heads, v) = run-IsValid k (start (2 ^ k)) ops 0 (start-IsValid k h) room in
      elim (Bool-cases (is_ready r.chan r.chan.tail)) [
        | inl ready ↦ inr (found_next r heads v ready)
        | inr unready ↦
            inl (ground (arith, v, is_ready-tail k r heads v), found_none r heads v unready)
      ]

  -- After such a run, and when the sender is not between its two stores, the loop of
  -- `count_available` counts the values that are on the way, up to its limit.
  pub count_available_lem :
      (ops : List (Op A)) (most : ℕ)
      → k ≤ 63
      → HaveRoom k (start (2 ^ k)) ops
      → (run (start (2 ^ k)) ops).chan.sending ≡ false
      → let r = run (start (2 ^ k)) ops in
        count_available r.chan most ≡ min most (length r.sent - length r.received)
  unfolding count_available
  count_available_lem ops most h room idle =
      let r = run (start (2 ^ k)) ops in
      let (heads, v) = run-IsValid k (start (2 ^ k)) ops 0 (start-IsValid k h) room in
      let counted =
        count_from_lem r heads v most (length r.received) (omega arith) (ground (arith, v)) in
      ap (λ n. count_from r.chan n most) v.at_tail ∙ counted ∙ ground (arith, v)
