-- ===== src/Ipc/Session/Polling.antt =====
-- `poll` of the client of ipc/src/lib.rs takes all the responses that wait in its ring.
use mathlib.Core.Path.{subst}
use locasta.Base.{
  ℕ, zero, suc, ◌+◌, ◌-◌, ◌≤◌, ◌<◌, ◌≡◌, ◌⊎◌, inl, inr, refl, sym, ap, ◌∙◌, none, List, [], ◌∷◌,
  ◌++◌, arith, length, length-append, length-set, set, get_or-set, get_or_past, Bool-cases, false,
  not, ◌&&◌, ltb,
}
use native.Mathlib.Decide.{dec_lt}
use locasta.Mempc.Onesided.{try_recv}
use locasta.Mempc.Onesided.Contents.{try_recv-empty, try_recv-first}
use locasta.Ipc.Client.{
  Client, Outcome, ok, server_disconnected, panics, took, ring_empty, broken, turn, one_more,
  take_response, respond, set_responses, drain, after_drain, poll,
}
use locasta.Ipc.Session.Pending.{
  filled_in-set, uses, queued, Fits, Fits-set, Reply, asked, responses_of, ArePaired-append_one,
}
use locasta.Ipc.Session.Steps.{IsValid}

module _ {Q R U : Type 0} (Asks : Q → U → Type 0) (Answers : Q → R → Type 0) (k : ℕ)
    (held : List (ℕ × Q)) (n tails : ℕ) (queue : List Q) where
  -- The client with what a turn of the loop leaves.
  taken : Client Q R U → Reply Q R → U → Client Q R U
  taken c r u =
      let c1 = set_responses c (try_recv c.block.responses).0 in
      record c1 {
        in_flight = c.in_flight - 1;
        user_data = set c.user_data r.slot none;
        responded = c.responded ++ (u, r.body) ∷ [];
      }

  module _ (c : Client Q R U) (back_tails : ℕ) where
    turn-empty :
        IsValid Asks Answers k c held n tails queue back_tails []
        → turn c ≡ (set_responses c (try_recv c.block.responses).0, ring_empty)
    unfolding turn take_response
    turn-empty v =
        ap (take_response (set_responses c (try_recv c.block.responses).0))
          (try_recv-empty k c.block.responses back_tails v.responses).0

    set_responses-IsValid :
        IsValid Asks Answers k c held n tails queue back_tails []
        → IsValid Asks Answers k
            (set_responses c (try_recv c.block.responses).0)
            held
            n
            tails
            queue
            back_tails
            []
    unfolding set_responses
    set_responses-IsValid v = record {
      calls = v.calls;
      responses = (try_recv-empty k c.block.responses back_tails v.responses).1;
      depth = v.depth;
      slots = v.slots;
      used = v.used;
      filled = v.filled;
      counted = v.counted;
      fit_queue = v.fit_queue;
      fit_held = v.fit_held;
      fit_back = v.fit_back;
      answered = v.answered;
      paired = v.paired;
      progress = v.progress;
    }

    module _ (r : Reply Q R) (back : List (Reply Q R))
        (v : IsValid Asks Answers k c held n tails queue back_tails (r ∷ back)) where
      turn-first : turn c ≡ (taken c r v.fit_back.0.0, took)
      unfolding turn take_response respond taken set_responses
      turn-first =
          let c1 = set_responses c (try_recv c.block.responses).0 in
          ap (take_response c1)
            (try_recv-first k c.block.responses back_tails
              (record { token = r.slot; body = r.body }) (responses_of back) v.responses).0
          ∙ ap (respond c1 (record { token = r.slot; body = r.body })) v.fit_back.0.1

      slot_lt : r.slot < length c.user_data
      slot_lt = elim (dec_lt r.slot (length c.user_data)) [
        | yes lt ↦ lt
        | no ge ↦ ground (arith, v.fit_back.0.1, get_or_past c.user_data r.slot none)
      ]

      -- No other request is named by the slot.
      alone : uses r.slot (queued k tails queue) + uses r.slot held + uses r.slot (asked back) ≡ 0
      alone = ground (arith, v.used r.slot, v.fit_back.0.1)

      cleared :
          (es : List (ℕ × Q))
          → uses r.slot es ≡ 0
          → Fits Asks c.user_data es
          → Fits Asks (set c.user_data r.slot none) es
      cleared es e f = Fits-set Asks c.user_data r.slot none es slot_lt e f

      taken-IsValid :
          IsValid Asks Answers k (taken c r v.fit_back.0.0) held n tails queue (back_tails + 1) back
      unfolding taken set_responses
      taken-IsValid = record {
        calls = v.calls;
        responses =
            (try_recv-first k c.block.responses back_tails
              (record { token = r.slot; body = r.body }) (responses_of back) v.responses).1;
        depth = v.depth;
        slots = length-set c.user_data r.slot none ∙ v.slots;
        used =
            λ i. ground (arith, get_or-set c.user_data r.slot i none none slot_lt, v.used i, alone);
        filled =
            ground (arith, v.filled, filled_in-set c.user_data r.slot none slot_lt, v.fit_back.0.1);
        counted = omega (arith, v.counted);
        fit_queue = cleared (queued k tails queue) (omega (arith, alone)) v.fit_queue;
        fit_held = cleared held (omega (arith, alone)) v.fit_held;
        fit_back = cleared (asked back) (omega (arith, alone)) v.fit_back.1;
        answered = v.answered.1;
        paired =
            ArePaired-append_one Asks Answers r.request v.fit_back.0.0 r.body c.responded v.paired
              v.fit_back.0.2 v.answered.0;
        progress = omega (
          arith,
          v.progress,
          v.counted,
          length-append c.responded ((v.fit_back.0.0, r.body) ∷ []),
        );
      }

  drain_next :
      (turns : ℕ) (c next : Client Q R U)
      → turn c ≡ (next, took)
      → drain (suc turns) c ≡ ((drain turns next).0, one_more (drain turns next).1)
  unfolding drain
  drain_next turns c next e =
      ap
        (λ p.
          let after : Client Q R U × Outcome ℕ = elim p.1 [
            | took ↦ ((drain turns p.0).0, one_more (drain turns p.0).1)
            | ring_empty ↦ (p.0, ok 0)
            | broken ↦ (p.0, panics)
          ] in
          after)
        e

  drain_end :
      (turns : ℕ) (c next : Client Q R U)
      → turn c ≡ (next, ring_empty)
      → drain (suc turns) c ≡ (next, ok 0)
  unfolding drain
  drain_end turns c next e =
      ap
        (λ p.
          let after : Client Q R U × Outcome ℕ = elim p.1 [
            | took ↦ ((drain turns p.0).0, one_more (drain turns p.0).1)
            | ring_empty ↦ (p.0, ok 0)
            | broken ↦ (p.0, panics)
          ] in
          after)
        e

  -- The loop takes what waits, if it has a turn for each.
  drain-IsValid :
      (turns : ℕ) (c : Client Q R U) (back_tails : ℕ) (back : List (Reply Q R))
      → IsValid Asks Answers k c held n tails queue back_tails back
      → length back ≤ turns
      → ((drain turns c).1 ≡ ok (length back))
        × ((back_tails' : ℕ) × IsValid Asks Answers k
              (drain turns c).0
              held
              n
              tails
              queue
              back_tails'
              [])
  unfolding drain
  drain-IsValid zero c back_tails [] v h = (refl, (back_tails, v))
  drain-IsValid zero c back_tails (r ∷ back) v h = absurd (omega arith)
  drain-IsValid (suc turns) c back_tails [] v h =
      let next = set_responses c (try_recv c.block.responses).0 in
      let e = drain_end turns c next (turn-empty c back_tails v) in
      (
        ap (λ p. p.1) e,
        (
          back_tails,
          subst (λ d. IsValid Asks Answers k d held n tails queue back_tails [])
              (sym (ap (λ p. p.0) e)) (set_responses-IsValid c back_tails v),
        ),
      )
  drain-IsValid (suc turns) c back_tails (r ∷ back) v h =
      let next = taken c r v.fit_back.0.0 in
      let e = drain_next turns c next (turn-first c back_tails r back v) in
      let (count, (back_tails', w)) =
        drain-IsValid turns next (back_tails + 1) back (taken-IsValid c back_tails r back v)
          (omega arith) in
      (
        ap (λ p. p.1) e ∙ ap one_more count,
        (
          back_tails',
          subst (λ d. IsValid Asks Answers k d held n tails queue back_tails' [])
              (sym (ap (λ p. p.0) e)) w,
        ),
      )

  after_drain_client : (p : Client Q R U × Outcome ℕ) → (after_drain p).0 ≡ p.0
  unfolding after_drain
  after_drain_client (c, ok zero) = ground arith
  after_drain_client (c, ok (suc m)) = refl
  after_drain_client (c, server_disconnected) = refl
  after_drain_client (c, panics) = refl

  after_drain_outcome :
      (p : Client Q R U × Outcome ℕ) (m : ℕ)
      → p.1 ≡ ok m
      → ((after_drain p).1 ≡ ok m)
        ⊎ ((p.0.server_alive ≡ false) × ((after_drain p).1 ≡ server_disconnected))
  unfolding after_drain
  after_drain_outcome (c, ok zero) m e =
      elim (Bool-cases (ltb 0 c.in_flight && not c.server_alive)) [
        | inl gone ↦ inr (ground arith, ground arith)
        | inr there ↦ inl (ground arith)
      ]
  after_drain_outcome (c, ok (suc m')) m e = inl e
  after_drain_outcome (c, server_disconnected) m e = cc
  after_drain_outcome (c, panics) m e = cc

  -- `poll` hands over every response that waits, and reports their number, or that the server is
  -- gone.
  pub poll-IsValid :
      (c : Client Q R U) (back_tails : ℕ) (back : List (Reply Q R))
      → IsValid Asks Answers k c held n tails queue back_tails back
      → (((poll c).1 ≡ ok (length back)) ⊎ ((poll c).1 ≡ server_disconnected))
        × ((back_tails' : ℕ) × IsValid Asks Answers k (poll c).0 held n tails queue back_tails' [])
  unfolding poll
  poll-IsValid c back_tails back v =
      let drained = drain c.in_flight c in
      let (count, (back_tails', w)) =
        drain-IsValid c.in_flight c back_tails back v (omega (arith, v.counted)) in
      (
        elim (after_drain_outcome drained (length back) count) [
          | inl done ↦ inl done
          | inr (dead, gone) ↦ inr gone
        ],
        (
          back_tails',
          subst (λ d. IsValid Asks Answers k d held n tails queue back_tails' [])
              (sym (after_drain_client drained)) w,
        ),
      )
