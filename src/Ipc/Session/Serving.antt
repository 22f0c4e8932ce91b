-- ===== src/Ipc/Session/Serving.antt =====
-- What the server of ipc/src/lib.rs does to one client's rings.
use mathlib.Core.Path.{subst}
use locasta.Base.{
  ℕ, ◌+◌, ◌%◌, ◌^◌, ◌<◌, ◌≡◌, sym, ap, some, List, [], ◌∷◌, ◌++◌, arith, length, length-append,
  get_elem?,
}
use locasta.Mempc.Onesided.{value, nothing, raw_send}
use locasta.Mempc.Onesided.Contents.{
  Carries, raw_send-Carries, publish-Carries, try_recv-empty, try_recv-first,
}
use locasta.Mempc.Onesided.Lanes.{Response}
use locasta.Ipc.Client.{Client}
use locasta.Ipc.Server.{take_call, reply_block}
use locasta.Ipc.Session.{remove_at}
use locasta.Ipc.Session.Pending.{
  filled_in-le-length, uses, uses-append_one, uses-remove_at, length-remove_at, Fits,
  Fits-append_one, Fits-at, Fits-remove_at, Reply, asked, responses_of, asked-append_one,
  responses_of-append_one, length-responses_of, AreAnswers-append_one,
}
use locasta.Ipc.Session.Steps.{IsValid}

module _ {Q R U : Type 0} (Asks : Q → U → Type 0) (Answers : Q → R → Type 0) (k : ℕ)
    (c : Client Q R U) (held : List (ℕ × Q)) (n tails : ℕ) (back_tails : ℕ)
    (back : List (Reply Q R)) where
  pub take_call-empty :
      IsValid Asks Answers k c held n tails [] back_tails back
      → ((take_call c.block).1 ≡ nothing)
        × IsValid Asks Answers k
            (record c { block = (take_call c.block).0 })
            held
            n
            tails
            []
            back_tails
            back
  unfolding take_call
  take_call-empty v =
      let (found, w) = try_recv-empty k c.block.calls tails v.calls in
      (
        found,
        record {
          calls = w;
          responses = v.responses;
          depth = v.depth;
          slots = v.slots;
          used = v.used;
          filled = v.filled;
          counted = v.counted;
          fit_queue = v.fit_queue;
          fit_held = v.fit_held;
          fit_back = v.fit_back;
          answered = v.answered;
          paired = v.paired;
          progress = v.progress;
        },
      )

  -- The request is held by the token of its slot.
  pub take_call-first :
      (q : Q) (queue : List Q)
      → IsValid Asks Answers k c held n tails (q ∷ queue) back_tails back
      → ((take_call c.block).1 ≡ value (tails % 2 ^ k) q)
        × IsValid Asks Answers k
            (record c { block = (take_call c.block).0 })
            (held ++ (tails % 2 ^ k, q) ∷ [])
            n
            (tails + 1)
            queue
            back_tails
            back
  unfolding take_call
  take_call-first q queue v =
      let (found, w) = try_recv-first k c.block.calls tails q queue v.calls in
      (
        found,
        record {
          calls = w;
          responses = v.responses;
          depth = v.depth;
          slots = v.slots;
          used = λ i. omega (arith, v.used i, uses-append_one i (tails % 2 ^ k) q held);
          filled = v.filled;
          counted = omega (arith, v.counted, length-append held ((tails % 2 ^ k, q) ∷ []));
          fit_queue = v.fit_queue.1;
          fit_held =
              Fits-append_one Asks c.user_data (tails % 2 ^ k) q held v.fit_held v.fit_queue.0;
          fit_back = v.fit_back;
          answered = v.answered;
          paired = v.paired;
          progress = v.progress;
        },
      )

  -- The reply to a held request finds room in the client's ring.
  module _ (queue : List Q) (v : IsValid Asks Answers k c held n tails queue back_tails back)
      (i slot : ℕ) (q : Q) (at : get_elem? held i ≡ some (slot, q)) (r : R)
      (answers : Answers q r) where
    room : length (responses_of back) < 2 ^ k
    room = omega (
      arith,
      length-responses_of back,
      length-remove_at i (slot, q) held at,
      v.counted,
      v.filled,
      filled_in-le-length c.user_data,
      v.slots,
    )

    pub reply_block-IsValid :
        IsValid Asks Answers k
          (record c { block = reply_block c.block slot r })
          (remove_at held i)
          n
          tails
          queue
          back_tails
          (back ++ record { slot = slot; request = q; body = r } ∷ [])
    unfolding reply_block
    reply_block-IsValid =
        let answer : Reply Q R = record { slot = slot; request = q; body = r } in
        let response : Response R = record { token = slot; body = r } in
        let on_way = asked-append_one answer back in
        record {
          calls = v.calls;
          responses =
              publish-Carries k (raw_send c.block.responses response).0 back_tails
                (responses_of (back ++ answer ∷ []))
                (subst (Carries k (raw_send c.block.responses response).0 back_tails)
                  (sym (responses_of-append_one answer back))
                  (raw_send-Carries k c.block.responses back_tails (responses_of back) v.responses
                    response room));
          depth = v.depth;
          slots = v.slots;
          used = λ j. omega (
            arith,
            v.used j,
            uses-remove_at j i slot q held at,
            ap (uses j) on_way,
            uses-append_one j slot q (asked back),
          );
          filled = v.filled;
          counted = omega (
            arith,
            v.counted,
            length-remove_at i (slot, q) held at,
            length-append back (answer ∷ []),
          );
          fit_queue = v.fit_queue;
          fit_held = Fits-remove_at Asks c.user_data i held v.fit_held;
          fit_back = subst (Fits Asks c.user_data) (sym on_way) (
              Fits-append_one Asks c.user_data slot q (asked back) v.fit_back
                (Fits-at Asks c.user_data i (slot, q) held at v.fit_held));
          answered = AreAnswers-append_one Answers answer back v.answered answers;
          paired = v.paired;
          progress = v.progress;
        }
