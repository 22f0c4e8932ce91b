-- ===== src/Copyrpc/Endpoint/Marking.antt =====
-- copyrpc/src/rc.rs: a wrap mark from the endpoint that emits it to the one that receives it.
use locasta.Base.{
  ℕ, ◌+◌, ◌-◌, ◌%◌, ◌^◌, ◌<◌, ◌≡◌, Option, arith, ◌==◌, length, refl, ap, ◌∙◌, drop, sym,
  if◌then◌else◌, length-drop,
}
use locasta.Base.Bytes.{read_at}
use locasta.Copyrpc.Encoding.{decode_flow_metadata, wrap_message_count}
use locasta.Copyrpc.Encoding.Laws.{decode_flow_metadata-encode_flow_metadata}
use locasta.Copyrpc.Endpoint.{
  Endpoint, RemoteRingInfo, done, offset_in, compute_credit_grant, prepare_next_batch, post,
}
use locasta.Copyrpc.Endpoint.Sending.{emit_wrap, set_producer, write_metadata}
use locasta.Copyrpc.Endpoint.Receiving.{Received, process_cqe}
use locasta.Copyrpc.Endpoint.Batches.{IsBatched, offset_in-eq-mod}
use locasta.Copyrpc.Endpoint.Wrapping.{wrapped, marked_at_end, emit_wrap-wrapped}
use locasta.Copyrpc.Endpoint.Transfer.{metadata_bytes, same_metadata}
use locasta.Copyrpc.Endpoint.Skipping.{process_cqe-wrap}

module _ {S : Type 0} (k : ℕ) (r : RemoteRingInfo) (e : Endpoint S) (v : IsBatched k r e) where
  -- The credit that the mark returns and grants.
  abbrev returned : ℕ
  returned = e.last_recv_pos - e.last_notified_recv_pos

  abbrev granted : ℕ
  granted = compute_credit_grant (set_producer e e.meta_pos)

  mark_bytes :
      returned < 2 ^ 64
      → granted < 2 ^ 64
      → decode_flow_metadata (drop (e.meta_pos % 2 ^ k) (wrapped k r e).send_ring)
        ≡ (returned, granted, wrap_message_count)
  unfolding set_producer prepare_next_batch post
  mark_bytes small_return small_grant =
      let o = e.meta_pos % 2 ^ k in
      ap decode_flow_metadata
        (metadata_bytes k (set_producer e e.meta_pos) wrap_message_count v.ring)
      ∙ (decode_flow_metadata-encode_flow_metadata (drop o e.send_ring) returned granted
          wrap_message_count (omega (arith, v, length-drop o e.send_ring)) small_return small_grant
          (omega arith)).0

  wrapped_start : (wrapped k r e).meta_pos ≡ e.meta_pos + (2 ^ k - e.meta_pos % 2 ^ k)
  unfolding prepare_next_batch post
  wrapped_start = marked_at_end k r e v

  wrapped_grant : (wrapped k r e).resp_reservation ≡ e.resp_reservation + granted
  unfolding prepare_next_batch post set_producer write_metadata
  wrapped_grant = refl

module _ {S T U : Type 0} (try_remove : T → ℕ → Option U × T) (qpn : ℕ) where
  -- A sender with a well-formed batch without messages and room in the send queue emits a wrap mark.
  -- A receiver with a ring of the same size, at the position of the mark, whose ring got the mark's
  -- 32 bytes, goes to the position where the sender's next batch starts, if there is more behind
  -- the mark in the cycle. If the mark fills the cycle, the receiver's position runs ahead of the
  -- sender's by a whole ring. Nothing is delivered, and the receiver takes over the credit that the
  -- sender returned and granted, if both are below 2 ^ 64.
  pub process_cqe-emit_wrap :
      (k : ℕ) (r : RemoteRingInfo) (e : Endpoint S) (f : Endpoint T) (out : Received U) (imm : ℕ)
      → IsBatched k r e
      → 0 < e.sq_room
      → length f.recv_ring ≡ 2 ^ k
      → f.last_recv_pos ≡ e.meta_pos
      → e.batch_message_count ≡ 0
      → read_at f.recv_ring (e.meta_pos % 2 ^ k) 32
        ≡ read_at (emit_wrap e).0.send_ring (e.meta_pos % 2 ^ k) 32
      → e.last_recv_pos - e.last_notified_recv_pos < 2 ^ 64
      → compute_credit_grant (set_producer e e.meta_pos) < 2 ^ 64
      → let g = (emit_wrap e).0 in
        ((emit_wrap e).1 ≡ done tt)
        × ((d : Endpoint T) × (process_cqe try_remove qpn (f, out) imm ≡ ((d, out), done tt))
            × (d.last_recv_pos
                ≡ g.meta_pos + (if e.meta_pos % 2 ^ k + 32 == 2 ^ k then 2 ^ k else 0))
            × (d.remote_consumer_pos
                ≡ f.remote_consumer_pos + (e.last_recv_pos - e.last_notified_recv_pos))
            × (d.peer_credit_balance + e.resp_reservation
                ≡ f.peer_credit_balance + g.resp_reservation))
  process_cqe-emit_wrap k r e f out imm v room recv_size in_step no_messages arrived small_return
        small_grant =
      let emitted = emit_wrap-wrapped k r e v room in
      let g = wrapped k r e in
      let o = e.meta_pos % 2 ^ k in
      let start : (emit_wrap e).0.meta_pos ≡ e.meta_pos + (2 ^ k - o) =
        ap (λ p. p.0.meta_pos) emitted ∙ wrapped_start k r e v in
      let grant : (emit_wrap e).0.resp_reservation ≡ e.resp_reservation + granted k r e v =
        ap (λ p. p.0.resp_reservation) emitted ∙ wrapped_grant k r e v in
      let offset : offset_in (length f.recv_ring) f.last_recv_pos ≡ o =
        ap (λ n. offset_in n f.last_recv_pos) recv_size
        ∙ offset_in-eq-mod k f.last_recv_pos
        ∙ ap (λ n. n % 2 ^ k) in_step in
      let mark =
        ap (λ n. decode_flow_metadata (drop n f.recv_ring)) offset
        ∙ same_metadata (drop o f.recv_ring) (drop o g.send_ring)
            (arrived ∙ ap (λ p. read_at p.0.send_ring o 32) emitted)
        ∙ mark_bytes k r e v small_return small_grant in
      let (d, done_d, at, credit, balance) =
        process_cqe-wrap try_remove qpn k f out imm (returned k r e v) (granted k r e v) v.wide
          recv_size (ground (arith, in_step, no_messages, v.no_message, v.aligned)) mark in
      (
        ap (λ p. p.1) emitted,
        (
          d,
          done_d,
          at
              ∙ ap (λ n. n + (2 ^ k - n % 2 ^ k) + (if n % 2 ^ k + 32 == 2 ^ k then 2 ^ k else 0))
                  in_step
              ∙ ap (λ n. n + (if o + 32 == 2 ^ k then 2 ^ k else 0)) (sym start),
          credit,
          omega (arith, balance, grant),
        ),
      )
