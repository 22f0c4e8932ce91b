-- ===== src/Mempc/FetchAdd/Popping.antt =====
-- The steps of mempc/src/fetch_add.rs that hand a slot over and that free it keep the invariant.
use native.Mathlib.Nat.{add-mod_right}
use mathlib.Core.Path.{subst}
use locasta.Base.{
  ℕ, ◌+◌, ◌%◌, ◌^◌, ◌≤◌, ◌<◌, ◌≡◌, ◌≢◌, ◌⊎◌, inl, inr, sym, ap, ◌∙◌, none, some, List, arith, ◌==◌,
  if◌then◌else◌, length-set, get_elem?, get_or, get_or-set, set,
}
use native.Mathlib.Decide.{dec_lt, ℕ_discrete}
use locasta.Mempc.FetchAdd.{
  RequestRing, Stage, idle, spinning, writing, written, failed, slot_at, mark_ready, free_slot,
  read_slot,
}
use locasta.Mempc.FetchAdd.Claims.{get_elem?-lt}
use locasta.Mempc.FetchAdd.Invariant.{
  seq_at, Holds, SlotIsValid, IsValid, IsClaimed, StageIsValid, slot_at-mod, slot_lt, apart,
}
use locasta.Mempc.FetchAdd.Pushing.{two_places}

module _ {A : Type 0} (k : ℕ) (r : RequestRing A) (claims : List (ℕ × A))
    (v : IsValid k r claims) where
  -- A number stored for a slot is read for its position, and other slots keep theirs.
  pub stored :
      (pos n p : ℕ)
      → get_or (set r.seqs (slot_at r pos) n) (p % 2 ^ k) 0
        ≡ (if pos % 2 ^ k == p % 2 ^ k then n else seq_at k r p)
  stored pos n p =
      ap (λ i. get_or (set r.seqs i n) (p % 2 ^ k) 0) (slot_at-mod k r claims v pos)
      ∙ get_or-set r.seqs (pos % 2 ^ k) (p % 2 ^ k) n 0
          (omega (arith, v.seq_slots, slot_lt k r claims v pos))

  pub stored_other :
      (pos n p : ℕ)
      → p % 2 ^ k ≢ pos % 2 ^ k
      → get_or (set r.seqs (slot_at r pos) n) (p % 2 ^ k) 0 ≡ seq_at k r p
  stored_other pos n p ne = stored pos n p ∙ ground (arith, ne)

  module _ (n c pos : ℕ) (x : A) (own : IsClaimed k r claims n c pos x)
      (hi : pos < r.tail + 2 ^ k) where
    pub other_slot : (p : ℕ) → r.tail ≤ p → p < r.tail + 2 ^ k → p ≢ pos → p % 2 ^ k ≢ pos % 2 ^ k
    other_slot p lo up ne = apart k r claims v p pos lo up own.after_tail hi ne

    pub mark_ready-IsValid : Holds k r pos c x → IsValid k (mark_ready r pos) claims
    unfolding mark_ready
    mark_ready-IsValid held = record {
      some_slots = v.some_slots;
      power = v.power;
      full = v.full;
      seq_slots = length-set r.seqs (slot_at r pos) (pos + 1) ∙ v.seq_slots;
      id_slots = v.id_slots;
      value_slots = v.value_slots;
      at_head = v.at_head;
      order = v.order;
      slots = λ p lo up. elim (ℕ_discrete p pos) [
        | yes e ↦
            subst (λ q. SlotIsValid k (mark_ready r pos) claims q) (sym e)
              (inr (stored pos (pos + 1) pos ∙ ground arith, (c, x, own.claimed, held)))
        | no ne ↦
            let same = stored_other pos (pos + 1) p (other_slot p lo up ne) in
            elim (v.slots p lo up) [
              | inl free ↦ inl (same ∙ free)
              | inr (ready, filled) ↦ inr (same ∙ ready, filled)
            ]
      ];
    }

    mark_ready-IsClaimed :
        (m d p : ℕ) (y : A)
        → d ≢ c
        → IsClaimed k r claims m d p y
        → IsClaimed k (mark_ready r pos) claims m d p y
    unfolding mark_ready
    mark_ready-IsClaimed m d p y ne w = record {
      after_tail = w.after_tail;
      claimed = w.claimed;
      unpublished = λ up.
          stored_other pos (pos + 1) p (
            other_slot p w.after_tail up
              (two_places k r claims v c d pos p x y own.claimed w.claimed ne))
          ∙ w.unpublished up;
      number = w.number;
      last = w.last;
    }

    pub mark_ready-StageIsValid :
        (m d : ℕ) (stage : Stage A)
        → d ≢ c
        → StageIsValid k r claims m d stage
        → StageIsValid k (mark_ready r pos) claims m d stage
    unfolding mark_ready
    mark_ready-StageIsValid m d idle ne w = w
    mark_ready-StageIsValid m d (spinning busy p y) ne w = mark_ready-IsClaimed m d p y ne w
    mark_ready-StageIsValid m d (writing p y) ne (w, up) = (mark_ready-IsClaimed m d p y ne w, up)
    mark_ready-StageIsValid m d (written p y) ne (w, up, held) =
        (mark_ready-IsClaimed m d p y ne w, up, held)
    mark_ready-StageIsValid m d failed ne w = w

    -- The slot of the tail stays as it was seen.
    pub mark_ready-tail :
        seq_at k r r.tail ≡ r.tail + 1 → seq_at k (mark_ready r pos) r.tail ≡ r.tail + 1
    unfolding mark_ready
    mark_ready-tail seen =
        let ne : r.tail ≢ pos = λ e.
          omega (arith, own.unpublished hi, seen, ap (λ q. get_or r.seqs (q % 2 ^ k) 0) e, e) in
        stored_other pos (pos + 1) r.tail (other_slot r.tail (omega arith) (omega arith) ne) ∙ seen

  module _ (ready : seq_at k r r.tail ≡ r.tail + 1) where
    -- The next claim stands in the slot.
    pub next_claim :
        (c : ℕ) × (x : A) × (get_elem? claims r.tail ≡ some (c, x)) × (read_slot r ≡ (c, some x))
    unfolding read_slot
    next_claim = elim (v.slots r.tail (omega arith) (omega (arith, slot_lt k r claims v 0))) [
      | inl free ↦ absurd (omega arith)
      | inr (e, (c, x, at, (id, value))) ↦ (
        c,
        x,
        at,
        ap (λ i. (get_or r.caller_ids i 0, get_or r.cells i none)) (slot_at-mod k r claims v r.tail)
            ∙ ap (λ i. (i, get_or r.cells (r.tail % 2 ^ k) none)) id
            ∙ ap (λ o. (c, o)) value,
      )
    ]

    pub freed :
        (p : ℕ)
        → r.tail + 1 ≤ p
        → p < r.tail + 1 + 2 ^ k
        → ((p ≡ r.tail + 2 ^ k) × (seq_at k (free_slot r) p ≡ p))
          ⊎ ((p < r.tail + 2 ^ k) × (seq_at k (free_slot r) p ≡ seq_at k r p))
    unfolding free_slot
    freed p lo hi = elim (dec_lt p (r.tail + 2 ^ k)) [
      | yes lt ↦ inr (
        lt,
        stored_other r.tail (r.tail + r.capacity) p (
            apart k r claims v p r.tail (omega arith) lt (omega arith)
              (omega (arith, slot_lt k r claims v 0)) (λ e. omega arith)),
      )
      | no ge ↦
          let e : p ≡ r.tail + 2 ^ k = omega arith in
          inl (
            e,
            stored r.tail (r.tail + r.capacity) p
                ∙ ground (arith, v.full, ap (λ q. q % 2 ^ k) e, add-mod_right r.tail (2 ^ k)),
          )
    ]

    pub free_slot-IsValid : IsValid k (free_slot r) claims
    unfolding free_slot
    free_slot-IsValid =
        let (c, x, at, read) = next_claim in
        record {
          some_slots = v.some_slots;
          power = v.power;
          full = v.full;
          seq_slots = length-set r.seqs (slot_at r r.tail) (r.tail + r.capacity) ∙ v.seq_slots;
          id_slots = v.id_slots;
          value_slots = v.value_slots;
          at_head = v.at_head;
          order = omega (arith, v.at_head, get_elem?-lt claims r.tail (c, x) at);
          slots = λ p lo up. elim (freed p lo up) [
            | inl (e, free) ↦ inl free
            | inr (lt, same) ↦ elim (v.slots p (omega arith) lt) [
              | inl free ↦ inl (same ∙ free)
              | inr (taken, filled) ↦ inr (same ∙ taken, filled)
            ]
          ];
        }

    free_slot-IsClaimed :
        (m d p : ℕ) (y : A)
        → IsClaimed k r claims m d p y
        → IsClaimed k (free_slot r) claims m d p y
    unfolding free_slot
    free_slot-IsClaimed m d p y w =
        let later : r.tail + 1 ≤ p = elim (ℕ_discrete p r.tail) [
          | yes e ↦ absurd (
              omega (
                arith,
                w.unpublished (omega (arith, e, slot_lt k r claims v 0)),
                ready,
                e,
                ap (λ q. get_or r.seqs (q % 2 ^ k) 0) e,
              ))
          | no ne ↦ ground (arith, w.after_tail, ne)
        ] in
        record {
          after_tail = later;
          claimed = w.claimed;
          unpublished = λ up. elim (freed p later up) [
            | inl (e, free) ↦ free
            | inr (lt, same) ↦ same ∙ w.unpublished lt
          ];
          number = w.number;
          last = w.last;
        }

    pub free_slot-StageIsValid :
        (m d : ℕ) (stage : Stage A)
        → StageIsValid k r claims m d stage
        → StageIsValid k (free_slot r) claims m d stage
    unfolding free_slot
    free_slot-StageIsValid m d idle w = w
    free_slot-StageIsValid m d (spinning busy p y) w = free_slot-IsClaimed m d p y w
    free_slot-StageIsValid m d (writing p y) (w, up) = (free_slot-IsClaimed m d p y w, omega arith)
    free_slot-StageIsValid m d (written p y) (w, up, held) =
        (free_slot-IsClaimed m d p y w, omega arith, held)
    free_slot-StageIsValid m d failed w = w
