-- ===== src/Copyrpc/Endpoint/Failing.antt =====
-- copyrpc/src/rc.rs: `flush` where the send queue has no room for an entry.
use locasta.Base.{
  ℕ, ◌+◌, ◌-◌, ◌%◌, ◌^◌, ◌≤◌, ◌<◌, ◌≡◌, ◌⊎◌, inl, inr, refl, ◌∙◌, arith, some, false, ap, length,
  ltb, Bool-cases, ltb→lt, if◌then◌else◌,
}
use locasta.Copyrpc.Endpoint.{
  Endpoint, RemoteRingInfo, done, failed, io, emit_raw, emit_to, offset_in, compute_credit_grant,
}
use locasta.Copyrpc.Endpoint.Sending.{
  flush, emit_wqe, fill_metadata, write_metadata, ring_doorbell, has_pending_send,
}
use locasta.Copyrpc.Endpoint.Batches.{IsBatched, offset_in-eq-mod, write_metadata-IsBatched}
use locasta.Copyrpc.Endpoint.Wrapping.{before_wrap, closed_batch, flush-before_wrap, ring_if}
use locasta.Copyrpc.Endpoint.Exchange.{ring_doorbell-IsBatched, nothing_pending}

module _ {S : Type 0} (k : ℕ) (r : RemoteRingInfo) where
  emit_raw-io :
      (e : Endpoint S)
      → e.remote_recv_ring ≡ some r
      → length e.send_ring ≡ 2 ^ k
      → e.flush_start_pos < e.send_ring_producer
      → e.flush_start_pos % 2 ^ k + (e.send_ring_producer - e.flush_start_pos) ≤ 2 ^ k
      → e.sq_room ≡ 0
      → emit_raw e ≡ (e, failed io)
  unfolding emit_raw emit_to
  emit_raw-io e at ring some_bytes fits room = rw at (
      ground
        (arith, offset_in-eq-mod k e.flush_start_pos, ap (λ n. offset_in n e.flush_start_pos) ring))

  -- On a batch with messages and a full send queue, `flush` fails and posts nothing, and the batch
  -- stays open with its messages. But what was received up to here counts as reported to the peer
  -- from now on, and the new grant as given, though no entry carries them.
  pub flush-io :
      (e : Endpoint S)
      → IsBatched k r e
      → 0 < e.batch_message_count
      → e.sq_room ≡ 0
      → (d : Endpoint S) × (flush e ≡ (d, failed io))
        × IsBatched k r d
        × (d.posted ≡ e.posted)
        × (d.batch_message_count ≡ e.batch_message_count)
        × (d.last_notified_recv_pos ≡ d.last_recv_pos)
        × (d.resp_reservation ≡ e.resp_reservation + compute_credit_grant e)
  unfolding flush emit_wqe fill_metadata write_metadata
  flush-io e v some_messages room =
      let w = write_metadata-IsBatched k r e e.batch_message_count v in
      (
        fill_metadata e,
        rw
            (emit_raw-io (fill_metadata e) v.connected w.ring (omega (arith, v))
              (omega (arith, v, ap (λ n. n % 2 ^ k) v.started)) room)
            (ground arith),
        w,
        refl,
        refl,
        refl,
        refl,
      )

  -- No message in the batch: `flush` only rings the doorbell, whatever the send queue's room.
  flush_empty :
      (e : Endpoint S)
      → e.batch_message_count ≡ 0
      → flush e ≡ (if e.needs_doorbell then ring_doorbell e else e, done tt)
  unfolding flush emit_wqe
  flush_empty e none = ground arith

  quiet :
      (e : Endpoint S)
      → ltb 0 e.batch_message_count ≡ false
      → has_pending_send (ring_doorbell e) ≡ false
  unfolding has_pending_send ring_doorbell
  quiet e none = ground arith

  -- `flush` of a well-formed batch never panics: it succeeds with nothing left to send, or the send
  -- queue is full; the batch stays well formed.
  pub flush-ends :
      (e : Endpoint S)
      → IsBatched k r e
      → (d : Endpoint S) × IsBatched k r d
        × (((flush e ≡ (d, done tt)) × (has_pending_send d ≡ false)) ⊎ (flush e ≡ (d, failed io)))
  flush-ends e v = elim (Bool-cases (ltb 0 e.batch_message_count)) [
    | inl some_messages ↦ elim (Bool-cases (ltb 0 e.sq_room)) [
      | inl room ↦ (
        ring_doorbell (before_wrap k r e),
        ring_doorbell-IsBatched k r (before_wrap k r e) (closed_batch k r e v),
        inl (flush-before_wrap k r e v (ltb→lt 0 e.sq_room room), nothing_pending k r e),
      )
      | inr full ↦
          let res = flush-io e v (ltb→lt 0 e.batch_message_count some_messages) (ground arith) in
          (res.0, res.2, inr res.1)
    ]
    | inr none ↦ (
      ring_doorbell e,
      ring_doorbell-IsBatched k r e v,
      inl (
        flush_empty e (ground arith) ∙ ap (λ d. (d, done tt)) (ring_if k r e e.needs_doorbell refl),
        quiet e none,
      ),
    )
  ]
