-- ===== src/Ipc/Session/Pairing.antt =====
-- Whatever the order in which the client and the server of ipc/src/lib.rs take their steps, each
-- response is handed over with the data of its request.
use mathlib.Core.Path.{subst}
use locasta.Base.{
  ℕ, ◌+◌, ◌^◌, ◌≤◌, ◌≡◌, inl, inr, refl, sym, ap, false, Option, none, some, Option-cases, List, [],
  ◌∷◌, arith, length, get_elem?, length-replicate, get_or-replicate, is_some,
}
use locasta.Base.Counts.{one_if}
use locasta.Mempc.Onesided.Contents.{create_spsc-Carries}
use locasta.Ipc.{new_block}
use locasta.Ipc.Client
use locasta.Ipc.Client.{
  Client, Outcome, ok, server_disconnected, panics, Called, sent, waits, fails, call_turn,
  send_call, new_client,
}
use locasta.Ipc.Server.{reply_block}
use locasta.Ipc.Session.{
  Session, Op, calls, resumes, polls, receives, replies, server_drops, step, run, start, after_call,
  after_poll, set_block, remove_at,
}
use locasta.Ipc.Session.Pending.{filled_in-le-length, filled_in-replicate, ArePaired}
use locasta.Ipc.Session.Turns.{
  Asking, IsSound, call_turn-IsSound, call-IsSound, take-IsSound, poll-IsSound, reply-IsSound,
  drop-IsSound,
}

module _ {Q R U : Type 0} (Asks : Q → U → Type 0) (Answers : Q → R → Type 0) where
  -- A call gives data that go with its request, and a reply answers the request of its token.
  unfoldable pub IsMeant : Session Q R U → Op Q R U → Type 0
  IsMeant s (calls q u) = Asks q u
  IsMeant s resumes = Unit {0}
  IsMeant s polls = Unit {0}
  IsMeant s receives = Unit {0}
  IsMeant s (replies i r) = (slot : ℕ) (q : Q) → get_elem? s.held i ≡ some (slot, q) → Answers q r
  IsMeant s server_drops = Unit {0}

  unfoldable pub AreMeant : Session Q R U → List (Op Q R U) → Type 0
  AreMeant s [] = Unit {0}
  AreMeant s (op ∷ ops) = IsMeant s op × AreMeant (step s op) ops

  module _ (k : ℕ) where
    step-IsSound :
        (s : Session Q R U) (op : Op Q R U)
        → IsSound Asks Answers k s
        → IsMeant s op
        → IsSound Asks Answers k (step s op)
    unfolding step IsMeant
    step-IsSound s (calls q u) v asks =
        let P = λ (o : Option (Q × U)).
          IsSound Asks Answers k
            (elim o [ none ↦ after_call s q u (Client.call s.client q u) | some waiting ↦ s ]) in
        elim (Option-cases s.calling) [
          | inl idle ↦ subst P (sym idle) (call-IsSound Asks Answers k s v q u asks)
          | inr (waiting, e) ↦ subst P (sym e) v
        ]
    step-IsSound s resumes v meant =
        let P = λ (o : Option (Q × U)). IsSound Asks Answers k (elim o [
          | none ↦ s
          | some waiting ↦ after_call s waiting.0 waiting.1 (call_turn s.client waiting.0 waiting.1)
        ]) in
        elim (Option-cases s.calling) [
          | inl idle ↦ subst P (sym idle) v
          | inr (waiting, e) ↦ subst P (sym e) (
              call_turn-IsSound Asks Answers k s v waiting.0 waiting.1
                (subst (Asking Asks Answers) e v.asking))
        ]
    step-IsSound s polls v meant =
        let P = λ (o : Option (Q × U)).
          IsSound Asks Answers k
            (elim o [ none ↦ after_poll s (Client.poll s.client) | some waiting ↦ s ]) in
        elim (Option-cases s.calling) [
          | inl idle ↦ subst P (sym idle) (poll-IsSound Asks Answers k s v)
          | inr (waiting, e) ↦ subst P (sym e) v
        ]
    step-IsSound s receives v meant = take-IsSound Asks Answers k s v
    step-IsSound s (replies i r) v meant =
        let P = λ (o : Option (ℕ × Q)). IsSound Asks Answers k (elim o [
          | none ↦ s
          | some request ↦ record (set_block s (reply_block s.client.block request.0 r)) {
            held = remove_at s.held i;
          }
        ]) in
        elim (Option-cases (get_elem? s.held i)) [
          | inl gone ↦ subst P (sym gone) v
          | inr ((slot, q), e) ↦
              subst P (sym e) (reply-IsSound Asks Answers k s v i slot q r e (meant slot q e))
        ]
    step-IsSound s server_drops v meant = drop-IsSound Asks Answers k s v

    pub run-IsSound :
        (ops : List (Op Q R U)) (s : Session Q R U)
        → IsSound Asks Answers k s
        → AreMeant s ops
        → IsSound Asks Answers k (run s ops)
    unfolding run AreMeant
    run-IsSound [] s v meant = v
    run-IsSound (op ∷ ops) s v (here, later) =
        run-IsSound ops (step s op) (step-IsSound s op v here) later

    pub start-IsSound : k ≤ 63 → IsSound Asks Answers k (start (2 ^ k))
    unfolding start new_client new_block ArePaired
    start-IsSound h = record {
      tails = 0;
      queue = [];
      back_tails = 0;
      back = [];
      valid = record {
        calls = create_spsc-Carries k h;
        responses = create_spsc-Carries k h;
        depth = refl;
        slots = length-replicate (2 ^ k) none;
        used = λ i. ap (λ o. one_if (is_some o)) (get_or-replicate {A = Option U} (2 ^ k) i none);
        filled = filled_in-replicate U (2 ^ k);
        counted = refl;
        fit_queue = tt;
        fit_held = tt;
        fit_back = tt;
        answered = tt;
        paired = tt;
        progress = refl;
      };
      asking = tt;
      calm = refl;
    }

    -- For a ring depth that is a power of two up to 2 ^ 63, and whatever the order in which the
    -- client starts calls, resumes the one that waits and polls, and the server receives, replies
    -- to any of its requests or drops: where each call gives data that go with its request, and
    -- each reply answers the request of its token, every response is handed over with the data of a
    -- request that it answers; no method panics and no slot is read unwritten; the calls that were
    -- sent are those responded to and those in flight, and these are no more than the depth.
    pub run-ArePaired :
        (ops : List (Op Q R U))
        → k ≤ 63
        → AreMeant (start (2 ^ k)) ops
        → let s = run (start (2 ^ k)) ops in
          ArePaired Asks Answers s.client.responded
          × (s.panicked ≡ false)
          × (s.calls_sent ≡ length s.client.responded + s.client.in_flight)
          × (s.client.in_flight ≤ 2 ^ k)
    run-ArePaired ops h meant =
        let v = run-IsSound ops (start (2 ^ k)) (start-IsSound h) meant in
        let w = v.valid in
        (
          w.paired,
          v.calm,
          w.progress,
          omega (
            arith,
            w.filled,
            w.slots,
            filled_in-le-length (run (start (2 ^ k)) ops).client.user_data,
          ),
        )
