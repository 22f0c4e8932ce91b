-- ===== src/Mempc/Onesided/Contents.antt =====
-- What is on the way in a ring of mempc/src/onesided.rs between undisturbed operations.
use Prim.Native.Nat.{bit_and}
use mathlib.Core.List.{append_assoc}
use mathlib.Core.Path.{subst}
use mathlib.Core.Option.{some-injective}
use locasta.Base.{
  ℕ, suc, ◌+◌, ◌-◌, ◌%◌, ◌^◌, ◌≤◌, ◌<◌, ◌≡◌, refl, sym, ap, ◌∙◌, true, false, List, [], ◌∷◌, ◌++◌,
  arith, length, length-append, get_elem?, get_elem?-append_at, min,
}
use locasta.Mempc.Onesided.{
  Channel, Run, nothing, value, create_spsc, start, store_data, store_generation, raw_send,
  is_ready, load_generation, load_data, after_load, try_recv, publish, count_from, count_available,
}
use locasta.Mempc.Onesided.Steps.{
  IsValid, store_data-IsValid, store_generation-IsValid, load_generation-IsValid, load_data-IsValid,
  start-IsValid, head_cell, is_ready-tail,
}
use locasta.Mempc.Onesided.Fifo.{found_next, found_none, count_from_lem}

module _ {A : Type 0} (k : ℕ) where
  -- `queue` is on the way, and the first of it stands at position `tails`.
  pub record Carries (c : Channel A) (tails : ℕ) (queue : List A) : Type 0 where
    pub history : Run A
    pub heads : ℕ
    pub valid : IsValid k history heads
    pub same : history.chan ≡ c
    pub idle : history.chan.sending ≡ false
    pub at_tails : length history.received ≡ tails
    pub whole : history.sent ≡ history.received ++ queue

  pub create_spsc-Carries : k ≤ 63 → Carries (create_spsc (2 ^ k)) 0 []
  unfolding start create_spsc
  create_spsc-Carries h = record {
    history = start (2 ^ k);
    heads = 0;
    valid = start-IsValid k h;
    same = refl;
    idle = refl;
    at_tails = refl;
    whole = refl;
  }

  sent_idle : (c : Channel A) → (store_generation c).sending ≡ false
  unfolding store_generation
  sent_idle c = refl

  module _ (c : Channel A) (tails : ℕ) (queue : List A) (v : Carries c tails queue) where
    ends : v.heads ≡ tails + length queue
    ends = ground (
      arith,
      v.valid.count,
      v.idle,
      v.at_tails,
      ap length v.whole,
      length-append v.history.received queue,
    )

    pub length-le : length queue ≤ 2 ^ k
    length-le =
        omega (arith, v.valid.room, ap length v.whole, length-append v.history.received queue)

    -- The slot of the next value.
    pub next_slot : bit_and c.head c.mask ≡ (tails + length queue) % 2 ^ k
    next_slot =
        ap (λ d. bit_and d.head d.mask) (sym v.same)
        ∙ head_cell k v.history v.heads v.valid
        ∙ ap (λ n. n % 2 ^ k) ends

    room_left : length queue < 2 ^ k → length v.history.sent < length v.history.received + 2 ^ k
    room_left h = omega (arith, ap length v.whole, length-append v.history.received queue)

    sending : (x : A) → (store_data v.history.chan x).sending ≡ true
    unfolding store_data
    sending x = refl

    pub raw_send-Carries :
        (x : A) → length queue < 2 ^ k → Carries (raw_send c x).0 tails (queue ++ x ∷ [])
    unfolding raw_send
    raw_send-Carries x room =
        let r = v.history in
        let stored = record r { chan = store_data r.chan x; sent = r.sent ++ x ∷ [] } in
        subst (λ d. Carries (store_generation (store_data d x)) tails (queue ++ x ∷ [])) v.same
          (record {
            history = record stored { chan = store_generation stored.chan };
            heads = suc v.heads;
            valid =
                store_generation-IsValid k stored v.heads
                  (store_data-IsValid k r v.heads v.valid x v.idle (room_left room)) (sending x);
            same = refl;
            idle = sent_idle stored.chan;
            at_tails = v.at_tails;
            whole = ap (λ l. l ++ x ∷ []) v.whole ∙ append_assoc r.received queue (x ∷ []);
          })

    pub publish-Carries : Carries (publish c) tails queue
    unfolding publish
    publish-Carries =
        let r = v.history in
        let w = v.valid in
        subst (λ d. Carries (publish d) tails queue) v.same
          (record {
            history = record r { chan = publish r.chan };
            heads = v.heads;
            valid = record {
              power = w.power;
              exponent = w.exponent;
              generation_cells = w.generation_cells;
              value_cells = w.value_cells;
              at_head = w.at_head;
              at_tail = w.at_tail;
              count = w.count;
              room = w.room;
              seen = w.seen;
              stamped = w.stamped;
              held = w.held;
              in_order = w.in_order;
              written = w.written;
            };
            same = refl;
            idle = v.idle;
            at_tails = v.at_tails;
            whole = v.whole;
          })

    pub count_available-min : (most : ℕ) → count_available c most ≡ min most (length queue)
    unfolding count_available
    count_available-min most =
        let r = v.history in
        let counted =
          count_from_lem k r v.heads v.valid most (length r.received) (omega arith)
            (ground (arith, v.valid)) in
        ap (λ d. count_from d d.tail most) (sym v.same)
        ∙ ap (λ n. count_from r.chan n most) v.valid.at_tail
        ∙ counted
        ∙ omega (arith, ends, v.at_tails)

  -- The history after an undisturbed receive.
  recv_history : Run A → Run A
  recv_history r =
      let looked = record r { chan = load_generation r.chan } in after_load looked (try_recv r.chan)

  recv_history-IsValid :
      (r : Run A) (heads : ℕ) → IsValid k r heads → IsValid k (recv_history r) heads
  unfolding recv_history try_recv
  recv_history-IsValid r heads v =
      let looked = record r { chan = load_generation r.chan } in
      load_data-IsValid k looked heads (load_generation-IsValid k r heads v)

  -- What the history is, by what the receive gives.
  recv_history-nothing :
      (r : Run A)
      → (try_recv r.chan).1 ≡ nothing
      → recv_history r ≡ record r { chan = (try_recv r.chan).0 }
  unfolding recv_history after_load
  recv_history-nothing r e =
      ap (λ o. after_load (record r { chan = load_generation r.chan }) ((try_recv r.chan).0, o)) e

  recv_history-value :
      (r : Run A) (n : ℕ) (x : A)
      → (try_recv r.chan).1 ≡ value n x
      → recv_history r ≡ record r { chan = (try_recv r.chan).0; received = r.received ++ x ∷ [] }
  unfolding recv_history after_load
  recv_history-value r n x e =
      ap (λ o. after_load (record r { chan = load_generation r.chan }) ((try_recv r.chan).0, o)) e

  try_recv-idle : (c : Channel A) → (try_recv c).0.sending ≡ c.sending
  unfolding try_recv load_data load_generation
  try_recv-idle c = ground arith

  -- The receiver's load from an empty ring gives nothing.
  pub try_recv-empty :
      (c : Channel A) (tails : ℕ)
      → Carries c tails []
      → ((try_recv c).1 ≡ nothing) × Carries (try_recv c).0 tails []
  try_recv-empty c tails v =
      let r = v.history in
      let unready : is_ready r.chan r.chan.tail ≡ false =
        ground (arith, is_ready-tail k r v.heads v.valid, ends c tails [] v, v.at_tails) in
      let e = found_none k r v.heads v.valid unready in
      subst (λ d. ((try_recv d).1 ≡ nothing) × Carries (try_recv d).0 tails []) v.same
        (
          e,
          record {
            history = record r { chan = (try_recv r.chan).0 };
            heads = v.heads;
            valid =
                subst (λ h. IsValid k h v.heads) (recv_history-nothing r e)
                  (recv_history-IsValid r v.heads v.valid);
            same = refl;
            idle = try_recv-idle r.chan ∙ v.idle;
            at_tails = v.at_tails;
            whole = v.whole;
          },
        )

  -- From another ring it gives the first value, and its slot.
  pub try_recv-first :
      (c : Channel A) (tails : ℕ) (x : A) (queue : List A)
      → Carries c tails (x ∷ queue)
      → ((try_recv c).1 ≡ value (tails % 2 ^ k) x) × Carries (try_recv c).0 (tails + 1) queue
  try_recv-first c tails x queue v =
      let r = v.history in
      let ready : is_ready r.chan r.chan.tail ≡ true =
        ground (arith, is_ready-tail k r v.heads v.valid, ends c tails (x ∷ queue) v, v.at_tails) in
      let (y, at, found) = found_next k r v.heads v.valid ready in
      let same : y ≡ x = some-injective y x (
        sym at
        ∙ ap (λ l. get_elem? l (length r.received)) v.whole
        ∙ get_elem?-append_at r.received queue x) in
      let e : (try_recv r.chan).1 ≡ value (tails % 2 ^ k) x =
        found ∙ ap (λ n. value (n % 2 ^ k) y) v.at_tails ∙ ap (value (tails % 2 ^ k)) same in
      subst
        (λ d. ((try_recv d).1 ≡ value (tails % 2 ^ k) x) × Carries (try_recv d).0 (tails + 1) queue)
        v.same
        (
          e,
          record {
            history = record r { chan = (try_recv r.chan).0; received = r.received ++ x ∷ [] };
            heads = v.heads;
            valid =
                subst (λ h. IsValid k h v.heads) (recv_history-value r (tails % 2 ^ k) x e)
                  (recv_history-IsValid r v.heads v.valid);
            same = refl;
            idle = try_recv-idle r.chan ∙ v.idle;
            at_tails = omega (arith, v.at_tails, length-append r.received (x ∷ []));
            whole = v.whole ∙ sym (append_assoc r.received (x ∷ []) queue);
          },
        )

  pub mask-pow :
      (c : Channel A) (tails : ℕ) (queue : List A) → Carries c tails queue → c.mask ≡ 2 ^ k - 1
  mask-pow c tails queue v = ap (λ d. d.mask) (sym v.same) ∙ v.valid.power
