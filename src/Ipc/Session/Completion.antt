-- ===== src/Ipc/Session/Completion.antt =====
-- A client of ipc/src/lib.rs gets all its responses, once the server has given them.
use mathlib.Core.Path.{subst}
use locasta.Base.{
  ℕ, ◌^◌, ◌≤◌, ◌≡◌, refl, ap, none, some, List, [], ◌∷◌, arith, length, get_or, if◌then◌else◌,
}
use locasta.Mempc.Onesided.{nothing}
use locasta.Ipc.Client
use locasta.Ipc.Client.{Client, Called, sent, fails, server_disconnected, send_call, call_turn}
use locasta.Ipc.Server.{take_call}
use locasta.Ipc.Session.{Op, run, start}
use locasta.Ipc.Session.Pending.{Reply, uses}
use locasta.Ipc.Session.Steps.{IsValid}
use locasta.Ipc.Session.Polling.{poll-IsValid}
use locasta.Ipc.Session.Serving.{take_call-first}
use locasta.Ipc.Session.Pairing.{AreMeant, run-IsSound, start-IsSound}

module _ {Q R U : Type 0} (Asks : Q → U → Type 0) (Answers : Q → R → Type 0) (k : ℕ) where
  -- The server found nothing, so nothing is on the way to it.
  nothing_queued :
      (c : Client Q R U) (held : List (ℕ × Q)) (n tails back_tails : ℕ) (back : List (Reply Q R))
      (queue : List Q)
      → IsValid Asks Answers k c held n tails queue back_tails back
      → (take_call c.block).1 ≡ nothing
      → queue ≡ []
  nothing_queued c held n tails back_tails back [] v e = refl
  nothing_queued c held n tails back_tails back (q ∷ queue) v e =
      cc (take_call-first Asks Answers k c held n tails back_tails back q queue v).0

  -- With nothing in flight, every slot is free.
  idle_slot :
      (c : Client Q R U) (held : List (ℕ × Q)) (n tails back_tails : ℕ)
      → IsValid Asks Answers k c held n tails [] back_tails []
      → held ≡ []
      → get_or c.user_data (Client.next_slot c) none ≡ none
  idle_slot c held n tails back_tails v e =
      ground (arith, v.used (Client.next_slot c), ap (uses (Client.next_slot c)) e)

  call_turn-free :
      (c : Client Q R U) (q : Q) (u : U)
      → get_or c.user_data (Client.next_slot c) none ≡ none
      → (call_turn c q u).1 ≡ sent
  unfolding call_turn
  call_turn-free c q u free =
      ap
        (λ o.
          let p : Client Q R U × Called = elim o [
            | none ↦ (send_call c q u, sent)
            | some busy ↦ Client.after_poll (Client.poll c)
          ] in
          p.1)
        free

  call-free :
      (c : Client Q R U) (q : Q) (u : U)
      → get_or c.user_data (Client.next_slot c) none ≡ none
      → (Client.call c q u).1 ≡ (if c.server_alive then sent else fails server_disconnected)
  unfolding Client.call
  call-free c q u free = ground (arith, call_turn-free c q u free)

  -- After such a run, when the server finds no request in the ring and holds none, one poll of the
  -- client leaves nothing in flight, as many responses were handed over as calls were sent, and the
  -- next call is sent on its first turn, unless the server has dropped: then it fails at once.
  pub poll_completes :
      (ops : List (Op Q R U)) (q : Q) (u : U)
      → k ≤ 63
      → AreMeant Asks Answers (start (2 ^ k)) ops
      → (take_call (run (start (2 ^ k)) ops).client.block).1 ≡ nothing
      → (run (start (2 ^ k)) ops).held ≡ []
      → let s = run (start (2 ^ k)) ops in
        let c = (Client.poll s.client).0 in
        (c.in_flight ≡ 0)
        × (length c.responded ≡ s.calls_sent)
        × ((Client.call c q u).1 ≡ (if c.server_alive then sent else fails server_disconnected))
  poll_completes ops q u h meant none_left none_held =
      let s = run (start (2 ^ k)) ops in
      let v =
        run-IsSound Asks Answers k ops (start (2 ^ k)) (start-IsSound Asks Answers k h) meant in
      let none_queued =
        nothing_queued s.client s.held s.calls_sent v.tails v.back_tails v.back v.queue v.valid
          none_left in
      let (how, (t, w)) =
        poll-IsValid Asks Answers k s.held s.calls_sent v.tails v.queue s.client v.back_tails v.back
          v.valid in
      let c = (Client.poll s.client).0 in
      let w' =
        subst (λ l. IsValid Asks Answers k c s.held s.calls_sent v.tails l t []) none_queued w in
      let idle : c.in_flight ≡ 0 = omega (arith, w'.counted, ap length none_held) in
      (
        idle,
        omega (arith, w'.progress, idle),
        call-free c q u (idle_slot c s.held s.calls_sent v.tails t w' none_held),
      )
