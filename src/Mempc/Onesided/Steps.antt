-- ===== src/Mempc/Onesided/Steps.antt =====
-- Runs of mempc/src/onesided.rs, step by step.
use Prim.Native.Nat.{bit_and}
use locasta.Base.{
  ℕ, suc, ◌+◌, ◌-◌, ◌%◌, ◌^◌, ◌≤◌, ◌<◌, ◌≡◌, refl, sym, ap, ◌∙◌, true, false, none, some, List, [],
  ◌∷◌, ◌++◌, arith, ◌==◌, length, get_or, get_elem?, set, take, length-set, get_or-replicate_in,
  Bool-split, length-append, length-replicate, get_elem?_in, if◌then◌else◌, take-append_left,
  take-suc, Bool-cases, inl, inr,
}
use mathlib.Core.Path.{subst}
use locasta.Base.Bits.{bit_and_mask, mod-mod-pow}
use locasta.Mempc.Lamport.Steps.{Holds, Holds-push}
use locasta.Mempc.Onesided.{
  Channel, store_data, store_generation, is_ready, load_generation, load_data, load_cell, nothing,
  Run, Op, stores_data, stores_generation, loads_generation, loads_data, step, run, start,
  after_load, create_spsc,
}
use locasta.Mempc.Onesided.Invariant.{AreGenerations, publish-AreGenerations, generation_lem}

-- The cell of a position.
cell_at : (k mask n : ℕ) → k ≤ 63 → mask ≡ 2 ^ k - 1 → bit_and (n % 2 ^ 64) mask ≡ n % 2 ^ k
cell_at k mask n h e =
    ap (bit_and (n % 2 ^ 64)) e ∙ bit_and_mask k (n % 2 ^ 64) ∙ mod-mod-pow k n (omega arith)

module _ {A : Type 0} (k : ℕ) where
  -- `heads` values have their generation. A value that is being sent has only its data.
  pub record IsValid (r : Run A) (heads : ℕ) : Type 0 where
    pub power : r.chan.mask ≡ 2 ^ k - 1
    pub exponent : k ≤ 63
    pub generation_cells : length r.chan.generations ≡ 2 ^ k
    pub value_cells : length r.chan.cells ≡ 2 ^ k
    pub at_head : r.chan.head ≡ heads % 2 ^ 64
    pub at_tail : r.chan.tail ≡ length r.received % 2 ^ 64
    pub count : length r.sent ≡ (if r.chan.sending then suc heads else heads)
    pub room : length r.sent ≤ length r.received + 2 ^ k
    pub seen : (if r.chan.receiving then suc (length r.received) else length r.received) ≤ heads
    pub stamped : AreGenerations k r.chan.generations heads
    pub held : Holds k r.chan.cells r.sent (length r.received)
    pub in_order : r.received ≡ take (length r.received) r.sent
    pub written : r.read_uninit ≡ false

  module _ (r : Run A) (heads : ℕ) (v : IsValid r heads) where
    pub head_cell : bit_and r.chan.head r.chan.mask ≡ heads % 2 ^ k
    head_cell =
        ap (λ n. bit_and n r.chan.mask) v.at_head ∙ cell_at k r.chan.mask heads v.exponent v.power

    pub tail_cell : bit_and r.chan.tail r.chan.mask ≡ length r.received % 2 ^ k
    tail_cell =
        ap (λ n. bit_and n r.chan.mask) v.at_tail
        ∙ cell_at k r.chan.mask (length r.received) v.exponent v.power

    pub store_data-IsValid :
        (x : A)
        → r.chan.sending ≡ false
        → length r.sent < length r.received + 2 ^ k
        → IsValid (record r { chan = store_data r.chan x; sent = r.sent ++ x ∷ [] }) heads
    unfolding store_data
    store_data-IsValid x idle room =
        let grown = length-append r.sent (x ∷ []) in
        let at_end : heads ≡ length r.sent = ground (arith, v) in
        record {
          power = v.power;
          exponent = v.exponent;
          generation_cells = v.generation_cells;
          value_cells =
              length-set r.chan.cells (bit_and r.chan.head r.chan.mask) (some x) ∙ v.value_cells;
          at_head = v.at_head;
          at_tail = v.at_tail;
          count = omega (arith, grown, at_end);
          room = omega (arith, grown);
          seen = v.seen;
          stamped = v.stamped;
          held =
              subst
                (λ n. Holds k (set r.chan.cells n (some x)) (r.sent ++ x ∷ []) (length r.received))
                (sym (head_cell ∙ ap (λ n. n % 2 ^ k) at_end))
                (Holds-push k r.chan.cells r.sent (length r.received) x v.value_cells room v.held);
          in_order =
              v.in_order
              ∙ sym (take-append_left (length r.received) r.sent (x ∷ []) (ground (arith, v)));
          written = v.written;
        }

    pub store_generation-IsValid :
        r.chan.sending ≡ true → IsValid (record r { chan = store_generation r.chan }) (suc heads)
    unfolding store_generation
    store_generation-IsValid busy = record {
      power = v.power;
      exponent = v.exponent;
      generation_cells =
          length-set r.chan.generations (bit_and r.chan.head r.chan.mask) r.chan.head
          ∙ v.generation_cells;
      value_cells = v.value_cells;
      at_head = omega (arith, v.at_head);
      at_tail = v.at_tail;
      count = ground (arith, v);
      room = v.room;
      seen = ground (arith, v);
      stamped =
          subst (λ n. AreGenerations k (set r.chan.generations n r.chan.head) (suc heads))
            (sym head_cell)
            (subst (λ n. AreGenerations k (set r.chan.generations (heads % 2 ^ k) n) (suc heads))
              (sym v.at_head)
              (publish-AreGenerations k r.chan.generations heads v.exponent v.generation_cells
                v.stamped));
      held = v.held;
      in_order = v.in_order;
      written = v.written;
    }

    pub is_ready_lem :
        (p : ℕ)
        → length r.received ≤ p
        → p ≤ heads
        → is_ready r.chan (p % 2 ^ 64) ≡ (if p == heads then false else true)
    unfolding is_ready
    is_ready_lem p lo hi = rw (cell_at k r.chan.mask p v.exponent v.power) (
        generation_lem k r.chan.generations heads v.exponent v.generation_cells p v.stamped hi
          (ground (arith, v)))

    pub is_ready-tail :
        is_ready r.chan r.chan.tail ≡ (if length r.received == heads then false else true)
    is_ready-tail =
        ap (is_ready r.chan) v.at_tail
        ∙ is_ready_lem (length r.received) (omega arith) (ground (arith, v))

    pub load_generation-IsValid : IsValid (record r { chan = load_generation r.chan }) heads
    unfolding load_generation
    load_generation-IsValid = record {
      power = v.power;
      exponent = v.exponent;
      generation_cells = v.generation_cells;
      value_cells = v.value_cells;
      at_head = v.at_head;
      at_tail = v.at_tail;
      count = v.count;
      room = v.room;
      seen = ground (arith, is_ready-tail, v.seen);
      stamped = v.stamped;
      held = v.held;
      in_order = v.in_order;
      written = v.written;
    }

    pub load_data-nothing : (c : Channel A) → c.receiving ≡ false → load_data c ≡ (c, nothing)
    unfolding load_data
    load_data-nothing c unseen =
        ap
          (λ b.
            if b
            then (
              record c { tail = (c.tail + 1) % 2 ^ 64; receiving = false },
              load_cell (bit_and c.tail c.mask) (get_or c.cells (bit_and c.tail c.mask) none),
            )
            else (c, nothing))
          unseen

    -- A value whose generation was seen is in its cell.
    pub load_found :
        r.chan.receiving ≡ true
        → (x : A) × (get_elem? r.sent (length r.received) ≡ some x)
          × (get_or r.chan.cells (bit_and r.chan.tail r.chan.mask) none ≡ some x)
    load_found seen =
        let lt : length r.received < length r.sent = ground (arith, v) in
        let (x, e) = get_elem?_in r.sent (length r.received) lt in
        (
          x,
          e,
          ap (λ j. get_or r.chan.cells j none) tail_cell
              ∙ v.held (length r.received) (omega arith) lt
              ∙ e,
        )

    pub load_data-IsValid : IsValid (after_load r (load_data r.chan)) heads
    unfolding load_data after_load
    load_data-IsValid = elim (Bool-cases r.chan.receiving) [
      | inl seen ↦
          let (x, e, found) = load_found seen in
          let grown = length-append r.received (x ∷ []) in
          rw (seen, found)
            (record {
              power = v.power;
              exponent = v.exponent;
              generation_cells = v.generation_cells;
              value_cells = v.value_cells;
              at_head = v.at_head;
              at_tail = omega (arith, grown, v.at_tail);
              count = v.count;
              room = omega (arith, grown, v.room);
              seen = ground (arith, grown, v.seen);
              stamped = v.stamped;
              held = λ i lo hi. v.held i (omega (arith, grown)) hi;
              in_order =
                  ap (λ ys. ys ++ x ∷ []) v.in_order
                  ∙ sym (take-suc (length r.received) r.sent x e)
                  ∙ ap (λ n. take n r.sent) {x = suc (length r.received)} (omega (arith, grown));
              written = v.written;
            })
      | inr unseen ↦
          subst (λ p. IsValid (after_load r p) heads) (sym (load_data-nothing r.chan unseen)) v
    ]

  -- How many values have their generation after a step.
  abbrev pub next : Run A → Op A → ℕ → ℕ
  next r (stores_data x) heads = heads
  next r stores_generation heads = if r.chan.sending then suc heads else heads
  next r loads_generation heads = heads
  next r loads_data heads = heads

  -- A step of the sender that starts a value finds room for it.
  unfoldable pub HasRoom : Run A → Op A → Type 0
  HasRoom r (stores_data x) = length r.sent < length r.received + 2 ^ k
  HasRoom r stores_generation = Unit
  HasRoom r loads_generation = Unit
  HasRoom r loads_data = Unit

  unfoldable pub HaveRoom : Run A → List (Op A) → Type 0
  HaveRoom r [] = Unit
  HaveRoom r (op ∷ ops) = HasRoom r op × HaveRoom (step r op) ops

  pub step-IsValid :
      (r : Run A) (op : Op A) (heads : ℕ)
      → IsValid r heads
      → HasRoom r op
      → IsValid (step r op) (next r op heads)
  unfolding step HasRoom
  step-IsValid r (stores_data x) heads v room =
      let stored = record r { chan = store_data r.chan x; sent = r.sent ++ x ∷ [] } in
      Bool-split (λ b. IsValid (if b then r else stored) heads) r.chan.sending (λ busy. v)
        (λ idle. store_data-IsValid r heads v x idle room)
  step-IsValid r stores_generation heads v room =
      let stored = record r { chan = store_generation r.chan } in
      Bool-split (λ b. IsValid (if b then stored else r) (if b then suc heads else heads))
        r.chan.sending (λ busy. store_generation-IsValid r heads v busy) (λ idle. v)
  step-IsValid r loads_generation heads v room = load_generation-IsValid r heads v
  step-IsValid r loads_data heads v room = load_data-IsValid r heads v

  pub run-IsValid :
      (r : Run A) (ops : List (Op A)) (heads : ℕ)
      → IsValid r heads
      → HaveRoom r ops
      → (heads' : ℕ) × IsValid (run r ops) heads'
  unfolding run HaveRoom
  run-IsValid r [] heads v room = (heads, v)
  run-IsValid r (op ∷ ops) heads v (here, later) =
      run-IsValid (step r op) ops (next r op heads) (step-IsValid r op heads v here) later

  pub start-IsValid : k ≤ 63 → IsValid (start (2 ^ k)) 0
  unfolding start create_spsc AreGenerations
  start-IsValid h = record {
    power = refl;
    exponent = h;
    generation_cells = length-replicate {A = ℕ} (2 ^ k) (2 ^ 64 - 1);
    value_cells = length-replicate (2 ^ k) none;
    at_head = omega arith;
    at_tail = omega arith;
    count = refl;
    room = omega arith;
    seen = omega arith;
    stamped = (
      λ p lo hi. absurd (omega arith),
      λ p lo hi. get_or-replicate_in (2 ^ k) p (2 ^ 64 - 1) 0 hi,
    );
    held = λ i lo hi. absurd (omega arith);
    in_order = refl;
    written = refl;
  }
