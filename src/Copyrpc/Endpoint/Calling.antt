-- ===== src/Copyrpc/Endpoint/Calling.antt =====
-- copyrpc/src/rc.rs: `Endpoint::call` on a connected endpoint, every outcome of it.
use locasta.Base.{
  ℕ, ◌+◌, ◌-◌, ◌*◌, ◌/◌, ◌%◌, ◌^◌, ◌<◌, ◌≡◌, ◌⊎◌, inl, inr, refl, ◌∙◌, arith, some, none, true,
  false, not, Bool, [], ◌∷◌, drop, length, ap, ltb, Bool-cases, ltb→lt,
}
use locasta.Base.Bytes.{Bytes}
use locasta.Copyrpc.Endpoint.{
  Endpoint, RemoteRingInfo, offset_in, remote_consumer_unknown, Outcome, done, failed, in_flight,
  prepare_next_batch, post,
}
use locasta.Copyrpc.Endpoint.Sending.{
  flush, handle_wrap_if_needed, ring_doorbell, fits_cycle, set_producer, fill_metadata,
  write_metadata,
}
use locasta.Copyrpc.Endpoint.Calls.{
  message_size, write_message, CallError, ring_full, insufficient_credit, other, internal_allowance,
  call, call_to, call_in_cycle, write_call,
}
use locasta.Copyrpc.Endpoint.Batches.{IsBatched}
use locasta.Copyrpc.Endpoint.Delivery.{Contains}
use locasta.Copyrpc.Endpoint.Contents.{write_message-Contains}
use locasta.Copyrpc.Endpoint.Wrapping.{
  before_wrap, closed_batch, ready, flush-before_wrap, handle_wrap_if_needed-ready, ready-IsBatched,
}
use locasta.Copyrpc.Endpoint.Reservation.{HasCredit, before_wrap-HasCredit, ready-fits}
use locasta.Copyrpc.Endpoint.Exchange.{
  message_size_lem, write_message-IsBatched, write_message-HasCredit, ring_doorbell-IsBatched,
  ring_doorbell-HasCredit,
}

module _ {S U : Type 0} (insert : S → U → ℕ × S) (k : ℕ) (r : RemoteRingInfo) where
  -- What a call may come to, from the state before it.
  pub data CallEnds (e : Endpoint S) (user_data : U) (payload : Bytes) (allowance : ℕ)
      (d : Endpoint S) : Outcome (CallError U) ℕ → Type 0 where
    without_credit :
        e.peer_credit_balance < allowance
        → flush e ≡ (d, done tt)
        → HasCredit r d
        → CallEnds e user_data payload allowance d (failed (insufficient_credit user_data))
    without_room :
        (w : Endpoint S) (wraps : Bool)
        → handle_wrap_if_needed e (message_size payload) ≡ (w, done wraps)
        → r.size < in_flight w + message_size payload + 2 * w.resp_reservation
        → flush w ≡ (d, done tt)
        → HasCredit r d ⊎ (fits_cycle e (message_size payload) ≡ false)
        → CallEnds e user_data payload allowance d (failed (ring_full user_data))
    called :
        (call_id : ℕ)
        → HasCredit r d
        → d.peer_credit_balance + allowance ≡ e.peer_credit_balance
        → call_id ≡ (insert e.pending_calls user_data).0 % 2 ^ 32
        → d.pending_calls ≡ (insert e.pending_calls user_data).1
        → 0 < d.batch_message_count
        → Contains
            (drop
              (offset_in (length d.send_ring) (d.send_ring_producer - message_size payload))
              d.send_ring)
            (record { call_id = call_id; piggyback = allowance / 32 % 2 ^ 32; payload = payload }
              ∷ [])
        → CallEnds e user_data payload allowance d (done call_id)

  module _ (e : Endpoint S) (user_data : U) (payload : Bytes) (v : IsBatched k r e) where
    call-connected :
        (response_allowance : ℕ)
        → call insert e user_data payload response_allowance
          ≡ call_to insert e r user_data payload (internal_allowance response_allowance)
    unfolding call
    call-connected response_allowance =
        ap
          (λ o. elim o [
            | none ↦ (e, failed (other remote_consumer_unknown))
            | some r ↦ call_to insert e r user_data payload (internal_allowance response_allowance)
          ])
          v.connected

    refused :
        (allowance : ℕ)
        → 2 < e.sq_room
        → ltb e.peer_credit_balance allowance ≡ true
        → call_to insert e r user_data payload allowance
          ≡ (ring_doorbell (before_wrap k r e), failed (insufficient_credit user_data))
    unfolding call_to
    refused allowance room h = rw (h, flush-before_wrap k r e v (omega arith)) refl

    accepted :
        (allowance : ℕ)
        → 2 < e.sq_room
        → ltb e.peer_credit_balance allowance ≡ false
        → call_to insert e r user_data payload allowance
          ≡ call_in_cycle insert (ready k r e (message_size payload)) r user_data payload allowance
    unfolding call_to
    accepted allowance room h =
        rw (h, handle_wrap_if_needed-ready k r e (message_size payload) v (omega arith)) refl

    ready_room : (n : ℕ) → 2 < e.sq_room → 0 < (ready k r e n).sq_room
    unfolding set_producer fill_metadata write_metadata prepare_next_batch post
    ready_room n room = ground arith

    ready_balance : (n : ℕ) → (ready k r e n).peer_credit_balance ≡ e.peer_credit_balance
    unfolding set_producer fill_metadata write_metadata prepare_next_batch post
    ready_balance n = ground arith

    ready_calls : (n : ℕ) → (ready k r e n).pending_calls ≡ e.pending_calls
    unfolding set_producer fill_metadata write_metadata prepare_next_batch post
    ready_calls n = ground arith

    room_or_wrap :
        HasCredit r e
        → let d = ready k r e (message_size payload) in
          HasCredit r (ring_doorbell (before_wrap k r d))
          ⊎ (fits_cycle e (message_size payload) ≡ false)
    room_or_wrap c = elim (Bool-cases (fits_cycle e (message_size payload))) [
      | inl fits ↦ inl (
          rw fits (
            ring_doorbell-HasCredit k r (before_wrap k r e) (closed_batch k r e v)
              (before_wrap-HasCredit k r e v c)))
      | inr full ↦ inr full
    ]

  -- The endpoint that a call is written to.
  abbrev charged : Endpoint S → U → ℕ → Endpoint S
  charged d user_data allowance = record d {
    pending_calls = (insert d.pending_calls user_data).1;
    peer_credit_balance = d.peer_credit_balance - allowance;
  }

  module _ (d : Endpoint S) (user_data : U) (payload : Bytes) (allowance : ℕ)
      (w : IsBatched k r d) where
    charged-IsBatched : IsBatched k r (charged d user_data allowance)
    charged-IsBatched = ground (arith, w)

    full_cycle :
        0 < d.sq_room
        → ltb (r.size - in_flight d) (message_size payload + 2 * d.resp_reservation) ≡ true
        → call_in_cycle insert d r user_data payload allowance
          ≡ (ring_doorbell (before_wrap k r d), failed (ring_full user_data))
    unfolding call_in_cycle
    full_cycle room h = rw (h, flush-before_wrap k r d w room) refl

    abbrev key : ℕ
    key = (insert d.pending_calls user_data).0 % 2 ^ 32

    abbrev written : Endpoint S
    written = write_message (charged d user_data allowance) key (allowance / 32 % 2 ^ 32) payload

    free_cycle :
        ltb (r.size - in_flight d) (message_size payload + 2 * d.resp_reservation) ≡ false
        → call_in_cycle insert d r user_data payload allowance ≡ (written, done key)
    unfolding call_in_cycle write_call
    free_cycle h = rw h refl

    written-HasCredit :
        ltb (r.size - in_flight d) (message_size payload + 2 * d.resp_reservation) ≡ false
        → HasCredit r written
    unfolding in_flight
    written-HasCredit h =
        write_message-HasCredit k r (charged d user_data allowance) key (allowance / 32 % 2 ^ 32)
          payload (ground (arith, message_size_lem payload))

    written_balance :
        ltb d.peer_credit_balance allowance ≡ false
        → written.peer_credit_balance + allowance ≡ d.peer_credit_balance
    unfolding write_message
    written_balance h = ground arith

    written_batch : 0 < written.batch_message_count
    unfolding write_message
    written_batch = omega arith

    written_calls : written.pending_calls ≡ (insert d.pending_calls user_data).1
    unfolding write_message
    written_calls = refl

    written-Contains :
        d.meta_pos % 2 ^ k + (d.send_ring_producer - d.meta_pos) + message_size payload < 2 ^ k
        → length payload < 2 ^ 32
        → IsBatched k r written
        → Contains
            (drop
              (offset_in
                (length written.send_ring)
                (written.send_ring_producer - message_size payload))
              written.send_ring)
            (record { call_id = key; piggyback = allowance / 32 % 2 ^ 32; payload = payload } ∷ [])
    written-Contains fits small batched =
        write_message-Contains k (charged d user_data allowance)
          (record { call_id = key; piggyback = allowance / 32 % 2 ^ 32; payload = payload }) w.ring
          batched.ring (omega (arith, w)) (omega arith) (omega arith) (omega arith) small

  -- On an endpoint with a well-formed batch, with room for three entries in the send queue, a
  -- message shorter than the ring by more than a metadata and a payload shorter than 2 ^ 32, `call`
  -- ends in one of three ways and never in a panic. Without enough credit from the peer, the
  -- endpoint is left as `flush` leaves it. Without room in the ring beside what is reserved for
  -- responses, after the wrap if one is needed, it is flushed. Or else the call is in the table,
  -- its message can be read, with the call's id and its allowance, at the end of the batch, and the
  -- allowance is taken from the peer's credit. The batch stays well formed, and so does the credit
  -- invariant, unless there was no room after a wrap.
  pub call-HasCredit :
      (e : Endpoint S) (user_data : U) (payload : Bytes) (response_allowance : ℕ)
      → IsBatched k r e
      → HasCredit r e
      → 2 < e.sq_room
      → message_size payload + 32 < 2 ^ k
      → length payload < 2 ^ 32
      → (d : Endpoint S) × (o : Outcome (CallError U) ℕ) × (call insert e user_data payload
            response_allowance
          ≡ (d, o))
        × IsBatched k r d
        × CallEnds e user_data payload (internal_allowance response_allowance) d o
  call-HasCredit e user_data payload response_allowance v c room fits small =
      let n = message_size payload in
      let allowance = internal_allowance response_allowance in
      let d = ready k r e n in
      let w = ready-IsBatched k r e n v in
      let calls = ready_calls e user_data payload v n in
      let batched =
        write_message-IsBatched k r (charged d user_data allowance)
          (charged-IsBatched d user_data payload allowance w) (key d user_data payload allowance w)
          (allowance / 32 % 2 ^ 32) payload (ready-fits k r e n v fits) in
      let to = call-connected e user_data payload v response_allowance in
      elim (Bool-cases (ltb e.peer_credit_balance allowance)) [
        | inl poor ↦ (
          ring_doorbell (before_wrap k r e),
          failed (insufficient_credit user_data),
          to ∙ refused e user_data payload v allowance room poor,
          ring_doorbell-IsBatched k r (before_wrap k r e) (closed_batch k r e v),
          without_credit (ltb→lt e.peer_credit_balance allowance poor)
              (flush-before_wrap k r e v (omega arith))
              (ring_doorbell-HasCredit k r (before_wrap k r e) (closed_batch k r e v)
                (before_wrap-HasCredit k r e v c)),
        )
        | inr rich ↦ elim (Bool-cases (ltb (r.size - in_flight d) (n + 2 * d.resp_reservation))) [
          | inl full ↦ (
            ring_doorbell (before_wrap k r d),
            failed (ring_full user_data),
            to
                ∙ accepted e user_data payload v allowance room rich
                ∙ full_cycle d user_data payload allowance w
                    (ready_room e user_data payload v n room) full,
            ring_doorbell-IsBatched k r (before_wrap k r d) (closed_batch k r d w),
            without_room d (not (fits_cycle e n))
                (handle_wrap_if_needed-ready k r e n v (omega arith))
                (omega (arith, ltb→lt (r.size - in_flight d) (n + 2 * d.resp_reservation) full))
                (flush-before_wrap k r d w (ready_room e user_data payload v n room))
                (room_or_wrap e user_data payload v c),
          )
          | inr free ↦ (
            written d user_data payload allowance w,
            done (key d user_data payload allowance w),
            to
                ∙ accepted e user_data payload v allowance room rich
                ∙ free_cycle d user_data payload allowance w free,
            batched,
            called (key d user_data payload allowance w)
                (written-HasCredit d user_data payload allowance w free)
                (written_balance d user_data payload allowance w
                    (ap (λ b. ltb b allowance) (ready_balance e user_data payload v n) ∙ rich)
                  ∙ ready_balance e user_data payload v n)
                (ap (λ t. (insert t user_data).0 % 2 ^ 32) calls)
                (written_calls d user_data payload allowance w
                  ∙ ap (λ t. (insert t user_data).1) calls)
                (written_batch d user_data payload allowance w)
                (written-Contains d user_data payload allowance w (ready-fits k r e n v fits) small
                  batched),
          )
        ]
      ]
