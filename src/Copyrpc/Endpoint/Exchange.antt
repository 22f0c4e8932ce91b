-- ===== src/Copyrpc/Endpoint/Exchange.antt =====
-- copyrpc/src/rc.rs: `flush` and `reply` on a connected endpoint.
use locasta.Base.{
  ℕ, ◌+◌, ◌-◌, ◌*◌, ◌%◌, ◌^◌, ◌≤◌, ◌<◌, ◌≡◌, inl, inr, refl, ◌∙◌, arith, some, none, false, ap,
  length, ltb, Bool-cases, drop,
}
use locasta.Base.Bytes.{Bytes, write_at, length-write_at, to_le}
use locasta.Copyrpc.Encoding.{encode_header, to_response_id}
use locasta.Copyrpc.Encoding.Laws.{padded_message_size_lem}
use locasta.Copyrpc.Endpoint.{
  Endpoint, RemoteRingInfo, done, failed, remote_consumer_unknown, offset_in, in_flight,
  prepare_next_batch,
}
use locasta.Copyrpc.Endpoint.Sending.{flush, ring_doorbell, has_pending_send}
use locasta.Copyrpc.Endpoint.Calls.{message_size, write_message, reply, reply_to, reply_in_cycle}
use locasta.Copyrpc.Endpoint.Batches.{IsBatched, length-at_ptr, ring_unit}
use locasta.Copyrpc.Endpoint.Wrapping.{
  before_wrap, closed_batch, ready, flush-before_wrap, handle_wrap_if_needed-ready, ready-IsBatched,
}
use locasta.Copyrpc.Endpoint.Reservation.{
  HasCredit, before_wrap-HasCredit, ready-fits, ready_credit, ready_reservation,
}

pub message_size_lem :
    (payload : Bytes) → (message_size payload % 32 ≡ 0) × (32 ≤ message_size payload)
unfolding message_size
message_size_lem payload =
    let n = length payload % 2 ^ 32 in omega (arith, padded_message_size_lem n (omega arith))

length-encode_header : (buf : Bytes) (a b c : ℕ) → length (encode_header buf a b c) ≡ length buf
unfolding encode_header
length-encode_header buf a b c =
    length-write_at (write_at (write_at buf 0 (to_le 4 a)) 4 (to_le 4 (b % 2 ^ 32))) 8 (to_le 4 c)
    ∙ length-write_at (write_at buf 0 (to_le 4 a)) 4 (to_le 4 (b % 2 ^ 32))
    ∙ length-write_at buf 0 (to_le 4 a)

module _ {S : Type 0} (k : ℕ) (r : RemoteRingInfo) where
  module _ (e : Endpoint S) (v : IsBatched k r e) where
    pub ring_doorbell-IsBatched : IsBatched k r (ring_doorbell e)
    unfolding ring_doorbell
    ring_doorbell-IsBatched = ground (arith, v)

    pub ring_doorbell-HasCredit : HasCredit r e → HasCredit r (ring_doorbell e)
    unfolding ring_doorbell HasCredit in_flight
    ring_doorbell-HasCredit c = c

    length-write_message :
        (call_id piggyback : ℕ) (payload : Bytes)
        → length (write_message e call_id piggyback payload).send_ring ≡ length e.send_ring
    unfolding write_message
    length-write_message call_id piggyback payload =
        let o = offset_in (length e.send_ring) e.send_ring_producer in
        length-at_ptr e.send_ring o
          (λ buf.
            write_at (encode_header buf call_id piggyback (length payload % 2 ^ 32)) 12 payload)
          (length-write_at
              (encode_header (drop o e.send_ring) call_id piggyback (length payload % 2 ^ 32)) 12
              payload
            ∙ length-encode_header (drop o e.send_ring) call_id piggyback (length payload % 2 ^ 32))

    pub write_message-IsBatched :
        (call_id piggyback : ℕ) (payload : Bytes)
        → e.meta_pos % 2 ^ k + (e.send_ring_producer - e.meta_pos) + message_size payload < 2 ^ k
        → IsBatched k r (write_message e call_id piggyback payload)
    unfolding write_message
    write_message-IsBatched call_id piggyback payload fits =
        ground (arith, length-write_message call_id piggyback payload, message_size_lem payload, v)

  pub write_message-HasCredit :
      (e : Endpoint S) (call_id piggyback : ℕ) (payload : Bytes)
      → in_flight e + message_size payload + 2 * e.resp_reservation ≤ r.size
      → HasCredit r (write_message e call_id piggyback payload)
  unfolding HasCredit in_flight write_message
  write_message-HasCredit e call_id piggyback payload h = ground arith

  pub nothing_pending :
      (e : Endpoint S) → has_pending_send (ring_doorbell (before_wrap k r e)) ≡ false
  unfolding has_pending_send ring_doorbell prepare_next_batch
  nothing_pending e = elim (Bool-cases (ltb 0 e.batch_message_count)) [
    | inl h ↦ rw h refl
    | inr h ↦ ground arith
  ]

  -- Where the send queue has room, `flush` succeeds, leaves nothing to send, and keeps the batch
  -- well formed and the credit invariant.
  pub flush-HasCredit :
      (e : Endpoint S)
      → IsBatched k r e
      → HasCredit r e
      → 0 < e.sq_room
      → (d : Endpoint S) × (flush e ≡ (d, done tt))
        × IsBatched k r d
        × HasCredit r d
        × (has_pending_send d ≡ false)
  flush-HasCredit e v c room =
      let d = before_wrap k r e in
      let w = closed_batch k r e v in
      (
        ring_doorbell d,
        flush-before_wrap k r e v room,
        ring_doorbell-IsBatched d w,
        ring_doorbell-HasCredit d w (before_wrap-HasCredit k r e v c),
        nothing_pending e,
      )

  -- The endpoint that a reply writes to.
  abbrev replying : Endpoint S → ℕ → Bytes → Endpoint S
  replying e allowance payload =
      let d = ready k r e (message_size payload) in
      record d { resp_reservation = d.resp_reservation - allowance }

  replying-IsBatched :
      (e : Endpoint S) (allowance : ℕ) (payload : Bytes)
      → IsBatched k r e
      → IsBatched k r (replying e allowance payload)
  replying-IsBatched e allowance payload v =
      let w = ready-IsBatched k r e (message_size payload) v in ground (arith, w)

  half_ring :
      (e : Endpoint S) (payload : Bytes) (allowance : ℕ)
      → IsBatched k r e
      → HasCredit r e
      → message_size payload + 32 ≤ allowance
      → allowance ≤ e.resp_reservation
      → message_size payload + 32 < 2 ^ k
  unfolding HasCredit in_flight
  half_ring e payload allowance v c enough reserved = ground (arith, ring_unit k v.wide)

  replying_credit :
      (e : Endpoint S) (payload : Bytes) (allowance : ℕ)
      → IsBatched k r e
      → HasCredit r e
      → message_size payload + 32 ≤ allowance
      → allowance ≤ e.resp_reservation
      → let d = replying e allowance payload in
        in_flight d + message_size payload + 2 * d.resp_reservation ≤ r.size
  unfolding in_flight
  replying_credit e payload allowance v c enough reserved = omega (
    arith,
    ready_credit k r e (message_size payload) v c,
    ready_reservation k r e (message_size payload) v,
  )

  reply-connected :
      (e : Endpoint S) (call_id allowance : ℕ) (payload : Bytes)
      → e.remote_recv_ring ≡ some r
      → reply e call_id allowance payload ≡ reply_to e call_id allowance payload
  unfolding reply
  reply-connected e call_id allowance payload at =
      ap
        (λ o. elim o [
          | none ↦ (e, failed remote_consumer_unknown)
          | some r ↦ reply_to e call_id allowance payload
        ])
        at

  reply_to-ready :
      (e : Endpoint S) (call_id allowance : ℕ) (payload : Bytes)
      → IsBatched k r e
      → 1 < e.sq_room
      → reply_to e call_id allowance payload
        ≡ (reply_in_cycle (ready k r e (message_size payload)) call_id allowance payload, done tt)
  unfolding reply_to
  reply_to-ready e call_id allowance payload v room =
      rw (handle_wrap_if_needed-ready k r e (message_size payload) v room) refl

  -- A reply of a message that is shorter than its allowance by a metadata, with the allowance still
  -- reserved, succeeds on every path where the send queue takes two entries, keeps the batch well
  -- formed and the credit invariant, and gives the allowance back.
  pub reply-HasCredit :
      (e : Endpoint S) (call_id allowance : ℕ) (payload : Bytes)
      → IsBatched k r e
      → HasCredit r e
      → 1 < e.sq_room
      → message_size payload + 32 ≤ allowance
      → allowance ≤ e.resp_reservation
      → (d : Endpoint S) × (reply e call_id allowance payload ≡ (d, done tt))
        × IsBatched k r d
        × HasCredit r d
        × (d.resp_reservation + allowance ≡ (ready k r e (message_size payload)).resp_reservation)
  unfolding reply_in_cycle write_message
  reply-HasCredit e call_id allowance payload v c room enough reserved =
      let n = message_size payload in
      (
        write_message (replying e allowance payload) (to_response_id call_id) 0 payload,
        reply-connected e call_id allowance payload v.connected
            ∙ reply_to-ready e call_id allowance payload v room,
        write_message-IsBatched (replying e allowance payload)
            (replying-IsBatched e allowance payload v) (to_response_id call_id) 0 payload
            (ready-fits k r e n v (half_ring e payload allowance v c enough reserved)),
        write_message-HasCredit (replying e allowance payload) (to_response_id call_id) 0 payload
            (replying_credit e payload allowance v c enough reserved),
        omega (arith, ready_reservation k r e n v),
      )
