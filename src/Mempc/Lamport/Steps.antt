-- ===== src/Mempc/Lamport/Steps.antt =====
-- The invariant on a run of mempc/src/lamport.rs, operation by operation.
use Prim.Native.Nat.{bit_and}
use native.Mathlib.Nat.{one-le-pow, pow-le-pow_right, mod-lt}
use locasta.Base.{
  ℕ, suc, ◌+◌, ◌-◌, ◌%◌, ◌^◌, ◌≤◌, ◌<◌, ◌≡◌, refl, sym, ap, ◌∙◌, false, Option, none, some, List,
  [], ◌∷◌, ◌++◌, arith, ◌==◌, length, get_or, get_elem?, set, take, length-set, get_or-set,
  length-append, length-replicate, get_elem?-append_left, get_elem?-append_end, get_elem?_in,
  take-append_left, take-suc, Bool-cases, inl, inr,
}
use native.Mathlib.Decide.{dec_lt}
use mathlib.Core.Path.{subst}
use locasta.Base.Bits.{bit_and_mask, mod-mod-pow, mod-ne_of_close}
use locasta.Mempc.Lamport.{
  Channel, is_full, refresh_tail, push, send, sync_sender, refresh_head, pop, recv, sync_receiver,
  Run, Op, sends, syncs_sender, recvs, syncs_receiver, step, run, start, after_send, after_recv,
  lamport_channel,
}
use locasta.Mempc.Lamport.Invariant.{
  Marks, AreOrdered, sent_marks, read_marks, refresh_tail-AreOrdered, push-AreOrdered, is_empty_lem,
  refresh_head-AreOrdered, pop-AreOrdered,
}

module _ {A : Type 0} (k : ℕ) where
  -- Every cell between the two ends holds the value of its position.
  abbrev pub Holds : List (Option A) → List A → ℕ → Type 0
  Holds buffer sent tails =
      (i : ℕ) → tails ≤ i → i < length sent → get_or buffer (i % 2 ^ k) none ≡ get_elem? sent i

  pub record IsValid (r : Run A) (m : Marks) : Type 0 where
    pub ordered : AreOrdered r.chan (length r.sent) (length r.received) m
    pub power : r.chan.mask ≡ 2 ^ k - 1
    pub cells : length r.chan.buffer ≡ 2 ^ k
    pub exponent : k ≤ 63
    pub held : Holds r.chan.buffer r.sent (length r.received)
    pub in_order : r.received ≡ take (length r.received) r.sent
    pub written : r.read_uninit ≡ false

  -- Where a position's cell is.
  pub cell_of :
      (c : Channel A) (n : ℕ)
      → k ≤ 63
      → c.mask ≡ 2 ^ k - 1
      → bit_and (n % 2 ^ 64) c.mask ≡ n % 2 ^ k
  cell_of c n h e =
      ap (bit_and (n % 2 ^ 64)) e ∙ bit_and_mask k (n % 2 ^ 64) ∙ mod-mod-pow k n (omega arith)

  pub Holds-push :
      (buffer : List (Option A)) (sent : List A) (tails : ℕ) (x : A)
      → length buffer ≡ 2 ^ k
      → length sent < tails + 2 ^ k
      → Holds buffer sent tails
      → Holds (set buffer (length sent % 2 ^ k) (some x)) (sent ++ x ∷ []) tails
  Holds-push buffer sent tails x len room held i lo hi = elim (dec_lt i (length sent)) [
    | yes lt ↦ ground (
      arith,
      held i lo lt,
      get_elem?-append_left sent (x ∷ []) i,
      get_or-set buffer (length sent % 2 ^ k) (i % 2 ^ k) (some x) none,
      mod-lt (length sent) {m = 2 ^ k} (omega (arith, one-le-pow k 2)),
      mod-ne_of_close i (length sent) (2 ^ k) lt (omega arith),
    )
    | no ge ↦
        let e : i ≡ length sent = omega (arith, length-append sent (x ∷ [])) in
        rw e (
          ground (
            arith,
            get_elem?-append_end sent x,
            get_or-set buffer (length sent % 2 ^ k) (length sent % 2 ^ k) (some x) none,
            mod-lt (length sent) {m = 2 ^ k} (omega (arith, one-le-pow k 2)),
          ))
  ]

  pub buffer-refresh_tail :
      (c : Channel A) → ((refresh_tail c).buffer ≡ c.buffer) × ((refresh_tail c).mask ≡ c.mask)
  unfolding refresh_tail
  buffer-refresh_tail c = ground arith

  pub buffer-refresh_head :
      (c : Channel A) → ((refresh_head c).buffer ≡ c.buffer) × ((refresh_head c).mask ≡ c.mask)
  unfolding refresh_head
  buffer-refresh_head c = ground arith

  -- A refresh changes marks alone.
  pub IsValid-chan :
      {r : Run A} {m : Marks} (c : Channel A) (m' : Marks)
      → IsValid r m
      → AreOrdered c (length r.sent) (length r.received) m'
      → (c.buffer ≡ r.chan.buffer) × (c.mask ≡ r.chan.mask)
      → IsValid (record r { chan = c }) m'
  IsValid-chan {r} c m' v o (b, e) = record {
    ordered = o;
    power = e ∙ v.power;
    cells = ap length b ∙ v.cells;
    exponent = v.exponent;
    held = λ i lo hi. ap (λ xs. get_or xs (i % 2 ^ k) none) b ∙ v.held i lo hi;
    in_order = v.in_order;
    written = v.written;
  }

  push-IsValid :
      {r : Run A} {m : Marks} (x : A)
      → IsValid r m
      → is_full r.chan ≡ false
      → IsValid (record r { chan = push r.chan x; sent = r.sent ++ x ∷ [] }) m
  unfolding push
  push-IsValid {r} {m} x v h =
      let grown = length-append r.sent (x ∷ []) in
      let at = cell_of r.chan (length r.sent) v.exponent v.power in
      let head = v.ordered.at_local_head in
      let idx = ap (λ n. bit_and n r.chan.mask) head ∙ at in
      record {
        ordered =
            subst (λ n. AreOrdered (push r.chan x) n (length r.received) m) (omega (arith, grown))
              (push-AreOrdered r.chan (length r.sent) (length r.received) m v.ordered x h);
        power = v.power;
        cells = length-set r.chan.buffer (bit_and r.chan.local_head r.chan.mask) (some x) ∙ v.cells;
        exponent = v.exponent;
        held = rw idx (
            Holds-push r.chan.buffer r.sent (length r.received) x v.cells
              (omega (arith, one-le-pow k 2)) v.held);
        in_order =
            v.in_order ∙ sym (take-append_left (length r.received) r.sent (x ∷ []) (omega arith));
        written = v.written;
      }

  -- A receiver that sees a value finds the next one in its cell.
  pub pop_found :
      {r : Run A} {m : Marks}
      → IsValid r m
      → (r.chan.local_tail == r.chan.cached_head) ≡ false
      → (x : A) × (get_elem? r.sent (length r.received) ≡ some x)
        × (get_or r.chan.buffer (bit_and r.chan.local_tail r.chan.mask) none ≡ some x)
  pop_found {r} {m} v h =
      let tails = length r.received in
      let differ = is_empty_lem r.chan (length r.sent) tails m v.ordered in
      let lt : tails < length r.sent = ground (arith, differ) in
      let (x, e) = get_elem?_in r.sent tails lt in
      let idx : bit_and r.chan.local_tail r.chan.mask ≡ tails % 2 ^ k =
        ap (λ n. bit_and n r.chan.mask) v.ordered.at_local_tail
        ∙ cell_of r.chan tails v.exponent v.power in
      (x, e, ap (λ j. get_or r.chan.buffer j none) idx ∙ v.held tails (omega arith) lt ∙ e)

  pop-IsValid :
      {r : Run A} {m : Marks}
      → IsValid r m
      → (r.chan.local_tail == r.chan.cached_head) ≡ false
      → IsValid (after_recv r (pop r.chan)) m
  unfolding pop after_recv
  pop-IsValid {r} {m} v h =
      let tails = length r.received in
      let (x, e, found) = pop_found v h in
      let grown = length-append r.received (x ∷ []) in
      rw found (record {
        ordered =
            subst (λ n. AreOrdered (pop r.chan).0 (length r.sent) n m) (omega (arith, grown))
              (pop-AreOrdered r.chan (length r.sent) tails m v.ordered h);
        power = v.power;
        cells = v.cells;
        exponent = v.exponent;
        held = λ i lo hi. v.held i (omega (arith, grown)) hi;
        in_order =
            ap (λ ys. ys ++ x ∷ []) v.in_order
            ∙ sym (take-suc tails r.sent x e)
            ∙ ap (λ n. take n r.sent) {x = suc tails} (omega (arith, grown));
        written = v.written;
      })

  -- The marks that follow each operation, for some marks of the state before.
  unfoldable pub next : Run A → Op A → Marks → Marks
  next r (sends x) m = sent_marks r.chan m
  next r syncs_sender m = record m { shared_head = length r.sent }
  next r recvs m = read_marks r.chan m
  next r syncs_receiver m = record m { shared_tail = length r.received }

  send-IsValid :
      {r : Run A} {m : Marks} (x : A)
      → IsValid r m
      → IsValid (step r (sends x)) (sent_marks r.chan m)
  unfolding step send after_send
  send-IsValid {r} {m} x v =
      let c = refresh_tail r.chan in
      let o = refresh_tail-AreOrdered r.chan (length r.sent) (length r.received) m v.ordered in
      let w = IsValid-chan c (sent_marks r.chan m) v o (buffer-refresh_tail r.chan) in
      elim (Bool-cases (is_full c)) [
        | inl full ↦ rw full w
        | inr free ↦ rw free (push-IsValid x w free)
      ]

  recv-IsValid :
      {r : Run A} {m : Marks} → IsValid r m → IsValid (step r recvs) (read_marks r.chan m)
  unfolding step recv after_recv
  recv-IsValid {r} {m} v =
      let c = refresh_head r.chan in
      let o = refresh_head-AreOrdered r.chan (length r.sent) (length r.received) m v.ordered in
      let w = IsValid-chan c (read_marks r.chan m) v o (buffer-refresh_head r.chan) in
      elim (Bool-cases (c.local_tail == c.cached_head)) [
        | inl nothing ↦ rw nothing w
        | inr some_left ↦ rw some_left (pop-IsValid w some_left)
      ]

  pub step-IsValid :
      (r : Run A) (op : Op A) {m : Marks} → IsValid r m → IsValid (step r op) (next r op m)
  unfolding next step sync_sender sync_receiver
  step-IsValid r (sends x) v = send-IsValid x v
  step-IsValid r syncs_sender {m} v =
      IsValid-chan (sync_sender r.chan) (record m { shared_head = length r.sent }) v (ground arith)
        (refl, refl)
  step-IsValid r recvs v = recv-IsValid v
  step-IsValid r syncs_receiver {m} v =
      IsValid-chan (sync_receiver r.chan) (record m { shared_tail = length r.received }) v
        (ground arith) (refl, refl)

  pub run-IsValid :
      (r : Run A) (ops : List (Op A)) {m : Marks}
      → IsValid r m
      → (m' : Marks) × IsValid (run r ops) m'
  unfolding run
  run-IsValid r [] {m} v = (m, v)
  run-IsValid r (op ∷ ops) v = run-IsValid (step r op) ops (step-IsValid r op v)

  pub start-IsValid :
      k ≤ 63
      → IsValid
          (start (2 ^ k))
          (record { shared_head = 0; shared_tail = 0; cached_tail = 0; cached_head = 0 })
  unfolding start lamport_channel
  start-IsValid h =
      let bound = pow-le-pow_right {n = 2} (omega arith) {i = k} {j = 63} h in
      record {
        ordered = omega (arith, bound, one-le-pow k 2);
        power = refl;
        cells = length-replicate (2 ^ k) none;
        exponent = h;
        held = λ i lo hi. absurd (omega arith);
        in_order = refl;
        written = refl;
      }

  pub in_flight : {r : Run A} {m : Marks} → IsValid r m → length r.sent < length r.received + 2 ^ k
  in_flight v = omega (arith, v.ordered, v.power, one-le-pow k 2)
