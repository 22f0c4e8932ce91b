-- ===== src/Ipc/Session/Steps.antt =====
-- The invariant of a client of ipc/src/lib.rs and its two rings, method by method.
use Prim.Native.Nat.{bit_and}
use native.Mathlib.Nat.{one-le-pow, mod-lt, add-mod_right}
use mathlib.Core.Path.{subst}
use locasta.Base.{
  ℕ, ◌+◌, ◌-◌, ◌%◌, ◌^◌, ◌≤◌, ◌<◌, ◌≡◌, sym, ap, ◌∙◌, none, some, List, [], ◌∷◌, ◌++◌, arith,
  is_some, length, length-append, length-set, get_or, set, get_or-set,
}
use locasta.Base.Counts.{one_if}
use locasta.Mempc.Onesided.{raw_send, publish}
use locasta.Mempc.Onesided.Contents.{
  Carries, length-le, next_slot, mask-pow, raw_send-Carries, publish-Carries,
}
use locasta.Ipc.Client
use locasta.Ipc.Client.{
  Client, Turn, took, ring_empty, turn, take_response, respond, send_call, set_responses,
}
use locasta.Ipc.Session.Pending.{
  filled_in, filled_in-set, uses, queued, uses-append_one, queued-append_one, Fits, Fits-append_one,
  Fits-set, Reply, asked, responses_of, AreAnswers, ArePaired,
}

module _ {Q R U : Type 0} (Asks : Q → U → Type 0) (Answers : Q → R → Type 0) (k : ℕ) where
  -- `queue` and `back` are on the way in the two rings, from the given positions; the server holds
  -- `held`, and `calls_sent` calls were sent. A slot has data exactly if one request waits that is
  -- named by it.
  pub record IsValid (c : Client Q R U) (held : List (ℕ × Q)) (calls_sent : ℕ) (tails : ℕ)
      (queue : List Q) (back_tails : ℕ) (back : List (Reply Q R)) : Type 0 where
    pub calls : Carries k c.block.calls tails queue
    pub responses : Carries k c.block.responses back_tails (responses_of back)
    pub depth : c.ring_depth ≡ 2 ^ k
    pub slots : length c.user_data ≡ 2 ^ k
    pub used :
        (i : ℕ)
        → one_if (is_some (get_or c.user_data i none))
          ≡ uses i (queued k tails queue) + uses i held + uses i (asked back)
    pub filled : filled_in c.user_data ≡ c.in_flight
    pub counted : c.in_flight ≡ length queue + length held + length back
    pub fit_queue : Fits Asks c.user_data (queued k tails queue)
    pub fit_held : Fits Asks c.user_data held
    pub fit_back : Fits Asks c.user_data (asked back)
    pub answered : AreAnswers Answers back
    pub paired : ArePaired Asks Answers c.responded
    pub progress : calls_sent ≡ length c.responded + c.in_flight

  full_uses :
      (tails : ℕ) (queue : List Q)
      → length queue ≡ 2 ^ k
      → 1 ≤ uses ((tails + length queue) % 2 ^ k) (queued k tails queue)
  full_uses tails [] h = absurd (omega (arith, h, one-le-pow k 2))
  full_uses tails (q ∷ queue) h =
      ground (arith, ap (λ n. (tails + n) % 2 ^ k) h, add-mod_right tails (2 ^ k))

  sent_client : Client Q R U → Q → U → ℕ → Client Q R U
  sent_client c q u p = record c {
    block = record (c.block) { calls = publish (raw_send c.block.calls q).0 };
    user_data = set c.user_data p (some u);
    in_flight = c.in_flight + 1;
  }

  module _ (c : Client Q R U) (held : List (ℕ × Q)) (n tails : ℕ) (queue : List Q) (back_tails : ℕ)
      (back : List (Reply Q R)) (v : IsValid c held n tails queue back_tails back) where
    slot_eq : bit_and c.block.calls.head c.block.calls.mask ≡ (tails + length queue) % 2 ^ k
    slot_eq = next_slot k c.block.calls tails queue v.calls

    pub next_slot_eq : Client.next_slot c ≡ (tails + length queue) % 2 ^ k
    unfolding Client.next_slot
    next_slot_eq =
        ap (bit_and c.block.calls.head)
          (ap (λ n. n - 1) v.depth ∙ sym (mask-pow k c.block.calls tails queue v.calls))
        ∙ slot_eq

    module _ (q : Q) (u : U) (free : get_or c.user_data (Client.next_slot c) none ≡ none)
        (asks : Asks q u) where
      unused : get_or c.user_data ((tails + length queue) % 2 ^ k) none ≡ none
      unused = ap (λ i. get_or c.user_data i none) (sym next_slot_eq) ∙ free

      slot_lt : (tails + length queue) % 2 ^ k < length c.user_data
      slot_lt = omega (
        arith,
        v.slots,
        one-le-pow k 2,
        mod-lt (tails + length queue) {m = 2 ^ k} (omega (arith, one-le-pow k 2)),
      )

      none_uses :
          let p = (tails + length queue) % 2 ^ k in
          uses p (queued k tails queue) + uses p held + uses p (asked back) ≡ 0
      none_uses =
          sym (v.used ((tails + length queue) % 2 ^ k)) ∙ ap (λ o. one_if (is_some o)) unused

      room : length queue < 2 ^ k
      room =
          ground
            (arith, none_uses, length-le k c.block.calls tails queue v.calls, full_uses tails queue)

      set_used :
          (i : ℕ)
          → one_if
              (is_some (get_or (set c.user_data ((tails + length queue) % 2 ^ k) (some u)) i none))
            ≡ uses i (queued k tails (queue ++ q ∷ [])) + uses i held + uses i (asked back)
      set_used i =
          let p = (tails + length queue) % 2 ^ k in
          ground (
            arith,
            get_or-set c.user_data p i (some u) none slot_lt,
            ap (uses i) (queued-append_one k tails q queue),
            uses-append_one i p q (queued k tails queue),
            v.used i,
            none_uses,
          )

      Fits-sent :
          (es : List (ℕ × Q))
          → uses ((tails + length queue) % 2 ^ k) es ≡ 0
          → Fits Asks c.user_data es
          → Fits Asks (set c.user_data ((tails + length queue) % 2 ^ k) (some u)) es
      Fits-sent es e f =
          Fits-set Asks c.user_data ((tails + length queue) % 2 ^ k) (some u) es slot_lt e f

      sent_at :
          IsValid
            (sent_client c q u ((tails + length queue) % 2 ^ k))
            held
            (n + 1)
            tails
            (queue ++ q ∷ [])
            back_tails
            back
      unfolding sent_client
      sent_at =
          let p = (tails + length queue) % 2 ^ k in
          record {
            calls =
                publish-Carries k (raw_send c.block.calls q).0 tails (queue ++ q ∷ [])
                  (raw_send-Carries k c.block.calls tails queue v.calls q room);
            responses = v.responses;
            depth = v.depth;
            slots = length-set c.user_data p (some u) ∙ v.slots;
            used = set_used;
            filled = ground (arith, v.filled, filled_in-set c.user_data p (some u) slot_lt, unused);
            counted = omega (arith, v.counted, length-append queue (q ∷ []));
            fit_queue =
                subst (Fits Asks (set c.user_data p (some u)))
                  (sym (queued-append_one k tails q queue))
                  (Fits-append_one Asks (set c.user_data p (some u)) p q (queued k tails queue)
                    (Fits-sent (queued k tails queue) (omega (arith, none_uses)) v.fit_queue)
                    (u, ground (arith, get_or-set c.user_data p p (some u) none slot_lt), asks));
            fit_held = Fits-sent held (omega (arith, none_uses)) v.fit_held;
            fit_back = Fits-sent (asked back) (omega (arith, none_uses)) v.fit_back;
            answered = v.answered;
            paired = v.paired;
            progress = omega (arith, v.progress);
          }

      pub send_call-IsValid :
          IsValid (send_call c q u) held (n + 1) tails (queue ++ q ∷ []) back_tails back
      unfolding send_call raw_send sent_client
      send_call-IsValid =
          subst
            (λ p.
              IsValid (sent_client c q u p) held (n + 1) tails (queue ++ q ∷ []) back_tails back)
            (sym slot_eq) sent_at
