-- ===== src/Mempc/Lamport/Fifo.antt =====
-- The order in which values go through the channel of mempc/src/lamport.rs.
use Prim.Native.Nat.{bit_and}
use locasta.Base.{
  ℕ, zero, suc, ◌+◌, ◌-◌, ◌^◌, ◌≤◌, ◌<◌, ◌≡◌, refl, sym, ap, ◌∙◌, false, none, some, List, [], ◌∷◌,
  arith, ltb, ◌==◌, length, get_or, take, length-append, replicate, take_all,
}
use locasta.Mempc.Lamport.{
  Channel, refresh_tail, send, refresh_head, pop, recv, value, Run, Op, syncs_sender, recvs,
  syncs_receiver, step, run, start, after_recv,
}
use locasta.Mempc.Lamport.Steps.{
  IsValid, buffer-refresh_tail, buffer-refresh_head, IsValid-chan, pop_found, step-IsValid,
  run-IsValid, start-IsValid, in_flight, next,
}
use locasta.Mempc.Lamport.Invariant.{
  Marks, sent_marks, read_marks, is_full_lem, refresh_tail-AreOrdered, is_empty_lem,
  refresh_head-AreOrdered,
}

module _ {A : Type 0} (k : ℕ) where
  -- On a channel whose capacity is a power of two up to 2 ^ 63, after any sequence of sends,
  -- receives and syncs, the values received are the first ones of those that were taken, in their
  -- order; fewer values than the capacity are on the way; and no cell was read before it was
  -- written.
  pub run_fifo :
      (ops : List (Op A))
      → k ≤ 63
      → let r = run (start (2 ^ k)) ops in
        (r.received ≡ take (length r.received) r.sent)
        × (length r.sent < length r.received + 2 ^ k)
        × (r.read_uninit ≡ false)
  run_fifo ops h =
      let (m, v) = run-IsValid k (start (2 ^ k)) ops (start-IsValid k h) in
      (v.in_order, in_flight k v, v.written)

  accepts :
      (r : Run A) (m : Marks) (x : A)
      → IsValid k r m
      → m.shared_tail ≡ length r.received
      → (send r.chan x).1 ≡ ltb (length r.sent - length r.received) (2 ^ k - 1)
  unfolding send
  accepts r m x v e =
      let heads = length r.sent in
      let tails = length r.received in
      let o = refresh_tail-AreOrdered r.chan heads tails m v.ordered in
      let before = is_full_lem r.chan heads tails m v.ordered in
      let after = is_full_lem (refresh_tail r.chan) heads tails (sent_marks r.chan m) o in
      ground (arith, before, after, (buffer-refresh_tail k r.chan).1)

  -- On a channel whose capacity is a power of two up to 2 ^ 63, after any sequence of sends,
  -- receives and syncs: once the receiver has synced, a send is accepted exactly if fewer than
  -- the capacity less one values are on the way, so a ring of capacity `n` holds at most `n - 1`.
  pub send_accepts :
      (ops : List (Op A)) (x : A)
      → k ≤ 63
      → let r = step (run (start (2 ^ k)) ops) syncs_receiver in
        (send r.chan x).1 ≡ ltb (length r.sent - length r.received) (2 ^ k - 1)
  unfolding step next
  send_accepts ops x h =
      let r = run (start (2 ^ k)) ops in
      let (m, v) = run-IsValid k (start (2 ^ k)) ops (start-IsValid k h) in
      accepts (step r syncs_receiver) (next k r syncs_receiver m) x
        (step-IsValid k r syncs_receiver v) refl

  recv_value :
      (c : Channel A) (x : A)
      → ((refresh_head c).local_tail == (refresh_head c).cached_head) ≡ false
      → get_or
          (refresh_head c).buffer
          (bit_and (refresh_head c).local_tail (refresh_head c).mask)
          none
        ≡ some x
      → recv c ≡ ((pop (refresh_head c)).0, value x)
  unfolding recv pop
  recv_value c x left found = rw left (rw found refl)

  -- One receive after the sender has synced takes one value.
  recv_progress :
      {r : Run A} {m : Marks}
      → IsValid k r m
      → m.shared_head ≡ length r.sent
      → length r.received < length r.sent
      → (length (step r recvs).received ≡ suc (length r.received))
        × ((step r recvs).sent ≡ r.sent)
        × ((read_marks r.chan m).shared_head ≡ length r.sent)
  unfolding step after_recv
  recv_progress {r} {m} v e lt =
      let c = refresh_head r.chan in
      let o = refresh_head-AreOrdered r.chan (length r.sent) (length r.received) m v.ordered in
      let w = IsValid-chan k c (read_marks r.chan m) v o (buffer-refresh_head k r.chan) in
      let before = is_empty_lem r.chan (length r.sent) (length r.received) m v.ordered in
      let after = is_empty_lem c (length r.sent) (length r.received) (read_marks r.chan m) o in
      let left : (c.local_tail == c.cached_head) ≡ false = ground (arith, before, after) in
      let (x, _, found) = pop_found k w left in
      let got = recv_value r.chan x left found in
      (rw got (omega (arith, length-append r.received (x ∷ []))), rw got refl, ground arith)

  drain :
      (n : ℕ) (r : Run A) {m : Marks}
      → IsValid k r m
      → m.shared_head ≡ length r.sent
      → length r.sent ≡ length r.received + n
      → (run r (replicate n recvs)).received ≡ r.sent
  unfolding run next
  drain zero r v e len = v.in_order ∙ take_all (length r.received) r.sent (omega arith)
  drain (suc n) r {m} v e len =
      let (more, same, head) = recv_progress v e (omega arith) in
      drain n (step r recvs) (step-IsValid k r recvs v) (head ∙ ap length (sym same))
        (omega (arith, more, ap length same))
      ∙ same

  -- On a channel whose capacity is a power of two up to 2 ^ 63, after any sequence of sends,
  -- receives and syncs: once the sender has synced, as many receives as values are on the way
  -- deliver every value that was taken, in the order in which it was sent.
  pub run_delivers :
      (ops : List (Op A))
      → k ≤ 63
      → let r = step (run (start (2 ^ k)) ops) syncs_sender in
        (run r (replicate (length r.sent - length r.received) recvs)).received ≡ r.sent
  unfolding step next
  run_delivers ops h =
      let r = run (start (2 ^ k)) ops in
      let (m, v) = run-IsValid k (start (2 ^ k)) ops (start-IsValid k h) in
      drain (length r.sent - length r.received) (step r syncs_sender)
        (step-IsValid k r syncs_sender v) refl (omega (arith, v.ordered))
