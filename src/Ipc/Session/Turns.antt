-- ===== src/Ipc/Session/Turns.antt =====
-- What is true of a client of ipc/src/lib.rs and the server between any two of their steps.
use mathlib.Core.Path.{subst}
use locasta.Base.{
  ℕ, ◌+◌, ◌≡◌, inl, inr, sym, false, Option, none, some, Option-cases, Bool-split, List, [], ◌∷◌,
  ◌++◌, get_or, get_elem?, if◌then◌else◌,
}
use locasta.Ipc.Client
use locasta.Ipc.Client.{
  Client, Outcome, ok, server_disconnected, panics, Called, sent, waits, fails, call_turn,
  send_call, new_client,
}
use locasta.Ipc.Server.{take_call, reply_block}
use locasta.Ipc.Session.{Session, after_call, after_take, after_poll, set_block, remove_at}
use locasta.Ipc.Session.Pending.{Reply}
use locasta.Ipc.Session.Steps.{IsValid, send_call-IsValid}
use locasta.Ipc.Session.Polling.{poll-IsValid}
use locasta.Ipc.Session.Serving.{take_call-empty, take_call-first, reply_block-IsValid}

module _ {Q R U : Type 0} (Asks : Q → U → Type 0) (Answers : Q → R → Type 0) where
  abbrev pub Asking : Option (Q × U) → Type 0
  Asking none = Unit {0}
  Asking (some (q, u)) = Asks q u

  module _ (k : ℕ) where
    pub record IsSound (s : Session Q R U) : Type 0 where
      pub tails : ℕ
      pub queue : List Q
      pub back_tails : ℕ
      pub back : List (Reply Q R)
      pub valid : IsValid Asks Answers k s.client s.held s.calls_sent tails queue back_tails back
      pub asking : Asking s.calling
      pub calm : s.panicked ≡ false

    module _ (s : Session Q R U) (v : IsSound s) where
      -- The server's look at the client's ring.
      take-queue :
          (queue : List Q)
          → IsValid Asks Answers k s.client s.held s.calls_sent v.tails queue v.back_tails v.back
          → IsSound (after_take s (take_call s.client.block))
      take-queue [] w =
          let (found, next) =
            take_call-empty Asks Answers k s.client s.held s.calls_sent v.tails v.back_tails v.back
              w in
          subst (λ o. IsSound (after_take s ((take_call s.client.block).0, o))) (sym found)
            (record {
              tails = v.tails;
              queue = [];
              back_tails = v.back_tails;
              back = v.back;
              valid = next;
              asking = v.asking;
              calm = v.calm;
            })
      take-queue (q ∷ queue) w =
          let (found, next) =
            take_call-first Asks Answers k s.client s.held s.calls_sent v.tails v.back_tails v.back
              q queue w in
          subst (λ o. IsSound (after_take s ((take_call s.client.block).0, o))) (sym found)
            (record {
              tails = v.tails + 1;
              queue = queue;
              back_tails = v.back_tails;
              back = v.back;
              valid = next;
              asking = v.asking;
              calm = v.calm;
            })

      pub poll-IsSound : IsSound (after_poll s (Client.poll s.client))
      poll-IsSound =
          let (how, (t, w)) =
            poll-IsValid Asks Answers k s.held s.calls_sent v.tails v.queue s.client v.back_tails
              v.back v.valid in
          let next : IsSound (record s { client = (Client.poll s.client).0 }) = record {
            tails = v.tails;
            queue = v.queue;
            back_tails = t;
            back = [];
            valid = w;
            asking = v.asking;
            calm = v.calm;
          } in
          let P = λ (o : Outcome ℕ). IsSound (after_poll s ((Client.poll s.client).0, o)) in
          elim how [ inl done ↦ subst P (sym done) next | inr gone ↦ subst P (sym gone) next ]

      after_poll-IsSound :
          (q : Q) (u : U)
          → Asks q u
          → IsSound (after_call s q u (Client.after_poll (Client.poll s.client)))
      unfolding Client.after_poll
      after_poll-IsSound q u asks =
          let (how, (t, w)) =
            poll-IsValid Asks Answers k s.held s.calls_sent v.tails v.queue s.client v.back_tails
              v.back v.valid in
          let c = (Client.poll s.client).0 in
          let P = λ (o : Outcome ℕ). IsSound (after_call s q u (Client.after_poll (c, o))) in
          elim how [
            | inl done ↦ subst P (sym done) (record {
              tails = v.tails;
              queue = v.queue;
              back_tails = t;
              back = [];
              valid = w;
              asking = asks;
              calm = v.calm;
            })
            | inr gone ↦ subst P (sym gone) (record {
              tails = v.tails;
              queue = v.queue;
              back_tails = t;
              back = [];
              valid = w;
              asking = tt;
              calm = v.calm;
            })
          ]

      pub call_turn-IsSound :
          (q : Q) (u : U) → Asks q u → IsSound (after_call s q u (call_turn s.client q u))
      unfolding call_turn
      call_turn-IsSound q u asks =
          let c = s.client in
          let P = λ (o : Option U).
            let p : Client Q R U × Called = elim o [
              | none ↦ (send_call c q u, sent)
              | some busy ↦ Client.after_poll (Client.poll c)
            ] in
            IsSound (after_call s q u p) in
          let at = get_or c.user_data (Client.next_slot c) none in
          elim (Option-cases at) [
            | inl free ↦ subst P (sym free) (record {
              tails = v.tails;
              queue = v.queue ++ q ∷ [];
              back_tails = v.back_tails;
              back = v.back;
              valid =
                  send_call-IsValid Asks Answers k c s.held s.calls_sent v.tails v.queue
                    v.back_tails v.back v.valid q u free asks;
              asking = tt;
              calm = v.calm;
            })
            | inr (busy, e) ↦ subst P (sym e) (after_poll-IsSound q u asks)
          ]

      pub call-IsSound :
          (q : Q) (u : U) → Asks q u → IsSound (after_call s q u (Client.call s.client q u))
      unfolding Client.call
      call-IsSound q u asks =
          Bool-split
            (λ b. IsSound (
              after_call s q u
                (if b then call_turn s.client q u else (s.client, fails server_disconnected))))
            s.client.server_alive (λ h. call_turn-IsSound q u asks)
            (λ h. record {
              tails = v.tails;
              queue = v.queue;
              back_tails = v.back_tails;
              back = v.back;
              valid = v.valid;
              asking = tt;
              calm = v.calm;
            })

      pub take-IsSound : IsSound (after_take s (take_call s.client.block))
      take-IsSound = take-queue v.queue v.valid

      pub reply-IsSound :
          (i slot : ℕ) (q : Q) (r : R)
          → get_elem? s.held i ≡ some (slot, q)
          → Answers q r
          → IsSound (record (set_block s (reply_block s.client.block slot r)) {
            held = remove_at s.held i;
          })
      reply-IsSound i slot q r at answers = record {
        tails = v.tails;
        queue = v.queue;
        back_tails = v.back_tails;
        back = v.back ++ record { slot = slot; request = q; body = r } ∷ [];
        valid =
            reply_block-IsValid Asks Answers k s.client s.held s.calls_sent v.tails v.back_tails
              v.back v.queue v.valid i slot q at r answers;
        asking = v.asking;
        calm = v.calm;
      }

      pub drop-IsSound : IsSound (record s { client = record (s.client) { server_alive = false } })
      drop-IsSound = record {
        tails = v.tails;
        queue = v.queue;
        back_tails = v.back_tails;
        back = v.back;
        valid = record {
          calls = v.valid.calls;
          responses = v.valid.responses;
          depth = v.valid.depth;
          slots = v.valid.slots;
          used = v.valid.used;
          filled = v.valid.filled;
          counted = v.valid.counted;
          fit_queue = v.valid.fit_queue;
          fit_held = v.valid.fit_held;
          fit_back = v.valid.fit_back;
          answered = v.valid.answered;
          paired = v.valid.paired;
          progress = v.valid.progress;
        };
        asking = v.asking;
        calm = v.calm;
      }
