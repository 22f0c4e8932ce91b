-- ===== src/Mempc/Lamport/Tests.antt =====
-- Runs of mempc/src/lamport.rs after its unit tests, and instances of the theorems.
use locasta.Base.{
  ℕ, ◌+◌, ◌-◌, ◌^◌, ◌<◌, ◌≡◌, refl, false, List, [], ◌∷◌, arith, length, take, replicate, ltb,
}
use locasta.Mempc.Lamport.{
  is_full, refresh_tail, push, send, sync_sender, refresh_head, pop, recv, sync_receiver, available,
  Op, sends, syncs_sender, recvs, syncs_receiver, step, run, start, after_send, after_recv,
  lamport_channel, drop_sender, drop_receiver, sender_is_connected, receiver_is_connected,
}
use locasta.Mempc.Lamport.Fifo.{run_fifo, send_accepts, run_delivers}

-- A receive before the sync finds nothing, and a ring of four takes three more values, not four.
abbrev script : List (Op ℕ)
script =
    sends 42
    ∷ recvs
    ∷ syncs_sender
    ∷ recvs
    ∷ syncs_receiver
    ∷ sends 1
    ∷ sends 2
    ∷ sends 3
    ∷ sends 4
    ∷ []

run-script : let r = run (start 4) script in (r.sent ≡ 42 ∷ 1 ∷ 2 ∷ 3 ∷ []) × (r.received ≡ 42 ∷ [])
unfolding run start step lamport_channel send recv is_full refresh_tail refresh_head push pop
    sync_sender sync_receiver after_send after_recv
run-script = (refl, refl)

ends :
    let c = lamport_channel {A = ℕ} 4 in
    (sender_is_connected (drop_receiver c) ≡ false)
    × (receiver_is_connected (drop_sender c) ≡ false)
    × (available c ≡ 0)
unfolding sender_is_connected receiver_is_connected drop_sender drop_receiver lamport_channel
    available
ends = (refl, refl, refl)

run_fifo_example :
    let r = run (start (2 ^ 2)) script in
    (r.received ≡ take (length r.received) r.sent)
    × (length r.sent < length r.received + 2 ^ 2)
    × (r.read_uninit ≡ false)
run_fifo_example = run_fifo 2 script (omega arith)

send_accepts_example :
    let r = step (run (start (2 ^ 2)) script) syncs_receiver in
    (send r.chan 5).1 ≡ ltb (length r.sent - length r.received) (2 ^ 2 - 1)
send_accepts_example = send_accepts 2 script 5 (omega arith)

run_delivers_example :
    let r = step (run (start (2 ^ 2)) script) syncs_sender in
    (run r (replicate (length r.sent - length r.received) recvs)).received ≡ r.sent
run_delivers_example = run_delivers 2 script (omega arith)
