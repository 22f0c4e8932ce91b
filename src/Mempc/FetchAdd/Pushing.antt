-- ===== src/Mempc/FetchAdd/Pushing.antt =====
-- A caller's steps in `try_push` of mempc/src/fetch_add.rs keep the invariant.
use mathlib.Core.Option.{some-injective}
use locasta.Base.{
  ℕ, ◌+◌, ◌%◌, ◌^◌, ◌<◌, ◌≡◌, ◌≢◌, inl, inr, refl, sym, ap, ◌∙◌, Option, none, some, List, [], ◌∷◌,
  ◌++◌, arith, length, length-append, length-set, get_elem?, get_elem?-append_end, get_or,
  get_or-set, set, take, take_all,
}
use locasta.Mempc.FetchAdd.{
  RequestRing, Stage, idle, spinning, writing, written, failed, slot_at, claim, write_slot,
}
use locasta.Mempc.FetchAdd.Claims.{
  count_of, count_of-append_one, get_elem?-lt, claimed_still, count_still,
}
use locasta.Mempc.FetchAdd.Invariant.{
  Holds, IsValid, IsClaimed, StageIsValid, slot_at-mod, slot_lt, apart,
}

module _ {A : Type 0} (k : ℕ) (r : RequestRing A) (claims : List (ℕ × A))
    (v : IsValid k r claims) where
  -- Claims of two callers are at two positions.
  pub two_places :
      (c d p q : ℕ) (x y : A)
      → get_elem? claims p ≡ some (c, x)
      → get_elem? claims q ≡ some (d, y)
      → d ≢ c
      → q ≢ p
  two_places c d p q x y at_p at_q ne e =
      ne (ap (λ o. o.0) (some-injective (d, y) (c, x) (sym at_q ∙ ap (get_elem? claims) e ∙ at_p)))

  module _ (c : ℕ) (x : A) where
    pub claim-IsValid : IsValid k (claim r) (claims ++ (c, x) ∷ [])
    unfolding claim
    claim-IsValid = record {
      some_slots = v.some_slots;
      power = v.power;
      full = v.full;
      seq_slots = v.seq_slots;
      id_slots = v.id_slots;
      value_slots = v.value_slots;
      at_head = omega (arith, v.at_head, length-append claims ((c, x) ∷ []));
      order = omega (arith, v.order);
      slots = λ p lo hi. elim (v.slots p lo hi) [
        | inl free ↦ inl free
        | inr (ready, (d, y, at, held)) ↦
            inr (ready, (d, y, claimed_still claims ((c, x) ∷ []) p (d, y) at, held))
      ];
    }

    no_claim_yet : (o : Option (ℕ × A)) → get_elem? claims (length claims) ≡ o → o ≡ none
    no_claim_yet none h = refl
    no_claim_yet (some y) h = absurd (omega (arith, get_elem?-lt claims (length claims) y h))

    -- The caller's own claim.
    pub claim-IsClaimed :
        (n : ℕ) → n ≡ count_of c claims → IsClaimed k (claim r) (claims ++ (c, x) ∷ []) n c r.head x
    unfolding claim
    claim-IsClaimed n h = record {
      after_tail = v.order;
      claimed =
          ap (get_elem? (claims ++ (c, x) ∷ [])) v.at_head ∙ get_elem?-append_end claims (c, x);
      unpublished = λ hi. elim (v.slots r.head v.order hi) [
        | inl free ↦ free
        | inr (ready, (d, y, at, held)) ↦
            absurd (omega (arith, v.at_head, get_elem?-lt claims r.head (d, y) at))
      ];
      number =
          h
          ∙ sym (
              ap (λ p. count_of c (take p (claims ++ (c, x) ∷ []))) v.at_head
              ∙ count_still c claims ((c, x) ∷ []) (length claims) (omega arith)
              ∙ ap (count_of c) (take_all (length claims) claims (omega arith)));
      last = ground (arith, h, count_of-append_one c c x claims);
    }

    claim-IsClaimed_other :
        (n d pos : ℕ) (y : A)
        → d ≢ c
        → IsClaimed k r claims n d pos y
        → IsClaimed k (claim r) (claims ++ (c, x) ∷ []) n d pos y
    unfolding claim
    claim-IsClaimed_other n d pos y ne w = record {
      after_tail = w.after_tail;
      claimed = claimed_still claims ((c, x) ∷ []) pos (d, y) w.claimed;
      unpublished = w.unpublished;
      number =
          w.number
          ∙ sym (
              count_still d claims ((c, x) ∷ []) pos
                (omega (arith, get_elem?-lt claims pos (d, y) w.claimed)));
      last = ground (arith, w.last, count_of-append_one d c x claims);
    }

    -- The other callers are where they were.
    pub claim-StageIsValid :
        (n d : ℕ) (stage : Stage A)
        → d ≢ c
        → StageIsValid k r claims n d stage
        → StageIsValid k (claim r) (claims ++ (c, x) ∷ []) n d stage
    unfolding claim
    claim-StageIsValid n d idle ne w = ground (arith, w, count_of-append_one d c x claims)
    claim-StageIsValid n d (spinning busy pos y) ne w = claim-IsClaimed_other n d pos y ne w
    claim-StageIsValid n d (writing pos y) ne (w, hi) = (claim-IsClaimed_other n d pos y ne w, hi)
    claim-StageIsValid n d (written pos y) ne (w, hi, held) =
        (claim-IsClaimed_other n d pos y ne w, hi, held)
    claim-StageIsValid n d failed ne w = w

  module _ (n c pos : ℕ) (x : A) (own : IsClaimed k r claims n c pos x)
      (hi : pos < r.tail + 2 ^ k) where
    -- A write to the slot leaves the other slots of the round.
    pub write_slot-Holds_other :
        (p d : ℕ) (y : A)
        → p % 2 ^ k ≢ pos % 2 ^ k
        → Holds k r p d y
        → Holds k (write_slot r pos c x) p d y
    unfolding write_slot
    write_slot-Holds_other p d y ne (id, value) =
        let s = pos % 2 ^ k in
        let e = slot_at-mod k r claims v pos in
        (
          ap (λ i. get_or (set r.caller_ids i c) (p % 2 ^ k) 0) e
              ∙ ground (
                arith,
                id,
                ne,
                get_or-set r.caller_ids s (p % 2 ^ k) c 0,
                v.id_slots,
                slot_lt k r claims v pos,
              ),
          ap (λ i. get_or (set r.cells i (some x)) (p % 2 ^ k) none) e
              ∙ ground (
                arith,
                value,
                ne,
                get_or-set r.cells s (p % 2 ^ k) (some x) none,
                v.value_slots,
                slot_lt k r claims v pos,
              ),
        )

    pub write_slot-Holds : Holds k (write_slot r pos c x) pos c x
    unfolding write_slot
    write_slot-Holds =
        let s = pos % 2 ^ k in
        let e = slot_at-mod k r claims v pos in
        (
          ap (λ i. get_or (set r.caller_ids i c) s 0) e
              ∙ ground
                  (arith, get_or-set r.caller_ids s s c 0, v.id_slots, slot_lt k r claims v pos),
          ap (λ i. get_or (set r.cells i (some x)) s none) e
              ∙ ground (
                arith,
                get_or-set r.cells s s (some x) none,
                v.value_slots,
                slot_lt k r claims v pos,
              ),
        )

    pub write_slot-IsValid : IsValid k (write_slot r pos c x) claims
    unfolding write_slot
    write_slot-IsValid = record {
      some_slots = v.some_slots;
      power = v.power;
      full = v.full;
      seq_slots = v.seq_slots;
      id_slots = length-set r.caller_ids (slot_at r pos) c ∙ v.id_slots;
      value_slots = length-set r.cells (slot_at r pos) (some x) ∙ v.value_slots;
      at_head = v.at_head;
      order = v.order;
      slots = λ p lo up. elim (v.slots p lo up) [
        | inl free ↦ inl free
        | inr (ready, (d, y, at, held)) ↦
            let ne : p ≢ pos = λ e.
              omega
                (arith, own.unpublished hi, ready, e, ap (λ q. get_or r.seqs (q % 2 ^ k) 0) e) in
            inr (
              ready,
              (
                d,
                y,
                at,
                write_slot-Holds_other p d y (apart k r claims v p pos lo up own.after_tail hi ne)
                    held,
              ),
            )
      ];
    }

    write_slot-IsClaimed :
        (m d p : ℕ) (y : A)
        → IsClaimed k r claims m d p y
        → IsClaimed k (write_slot r pos c x) claims m d p y
    unfolding write_slot
    write_slot-IsClaimed m d p y w = record {
      after_tail = w.after_tail;
      claimed = w.claimed;
      unpublished = w.unpublished;
      number = w.number;
      last = w.last;
    }

    pub write_slot-StageIsValid :
        (m d : ℕ) (stage : Stage A)
        → d ≢ c
        → StageIsValid k r claims m d stage
        → StageIsValid k (write_slot r pos c x) claims m d stage
    unfolding write_slot
    write_slot-StageIsValid m d idle ne w = w
    write_slot-StageIsValid m d (spinning busy p y) ne w = write_slot-IsClaimed m d p y w
    write_slot-StageIsValid m d (writing p y) ne (w, up) = (write_slot-IsClaimed m d p y w, up)
    write_slot-StageIsValid m d (written p y) ne (w, up, held) = (
      write_slot-IsClaimed m d p y w,
      up,
      write_slot-Holds_other p d y
          (apart k r claims v p pos w.after_tail up own.after_tail hi
            (two_places c d pos p x y own.claimed w.claimed ne))
          held,
    )
    write_slot-StageIsValid m d failed ne w = w

    pub write_slot-own :
        IsClaimed k (write_slot r pos c x) claims n c pos x
        × (pos < r.tail + 2 ^ k)
        × Holds k (write_slot r pos c x) pos c x
    write_slot-own = (write_slot-IsClaimed n c pos x own, hi, write_slot-Holds)
