-- ===== src/Copyrpc/Endpoint/Sending.antt =====
-- copyrpc/src/rc.rs: closing a batch. `fill_metadata`, `emit_wqe`, `flush`, `emit_wrap` and
-- `handle_wrap_if_needed` of `EndpointInner`. A write through a raw pointer past the end of the
-- ring has no effect here; in the source it is undefined.
use locasta.Base.{ℕ, ◌+◌, ◌-◌, Bool, true, false, ◌||◌, ltb, ◌==◌, if◌then◌else◌, length}
use locasta.Copyrpc.Encoding.{encode_flow_metadata, wrap_message_count}
use locasta.Copyrpc.Endpoint.{
  Endpoint, Error, Outcome, done, and_do, at_ptr, offset_in, compute_credit_grant, emit_raw,
  prepare_next_batch,
}

module _ {S : Type 0} where
  -- The common part of `fill_metadata` and `emit_wrap`: the credit return and the grant, in the
  -- metadata at `meta_pos`.
  unfoldable pub write_metadata : Endpoint S → ℕ → Endpoint S
  write_metadata e message_count =
      let grant = compute_credit_grant e in
      let credit_return = e.last_recv_pos - e.last_notified_recv_pos in
      record e {
        last_notified_recv_pos = e.last_recv_pos;
        resp_reservation = e.resp_reservation + grant;
        send_ring =
            at_ptr e.send_ring (offset_in (length e.send_ring) e.meta_pos)
              (λ buf. encode_flow_metadata buf credit_return grant message_count);
      }

  unfoldable pub fill_metadata : Endpoint S → Endpoint S
  fill_metadata e = write_metadata e e.batch_message_count

  unfoldable pub emit_wqe : Endpoint S → Endpoint S × Outcome Error Bool
  emit_wqe e =
      if e.batch_message_count == 0
      then (e, done false)
      else and_do (emit_raw (fill_metadata e)) (λ e1 emitted. (prepare_next_batch e1, done true))

  unfoldable pub ring_doorbell : Endpoint S → Endpoint S
  ring_doorbell e = record e { needs_doorbell = false }

  unfoldable pub flush : Endpoint S → Endpoint S × Outcome Error Unit
  flush e =
      and_do (emit_wqe e)
        (λ e1 emitted. (if e1.needs_doorbell then ring_doorbell e1 else e1, done tt))

  unfoldable pub has_pending_send : Endpoint S → Bool
  has_pending_send e = ltb 0 e.batch_message_count || e.needs_doorbell

  unfoldable pub set_producer : Endpoint S → ℕ → Endpoint S
  set_producer e pos = record e { send_ring_producer = pos }

  -- The metadata placeholder becomes the wrap mark, and the rest of the ring is skipped.
  unfoldable pub emit_wrap : Endpoint S → Endpoint S × Outcome Error Unit
  emit_wrap e =
      let size = length e.send_ring in
      let remaining = size - offset_in size e.meta_pos in
      let marked = write_metadata (set_producer e e.meta_pos) wrap_message_count in
      and_do (emit_raw (set_producer marked (e.meta_pos + remaining)))
        (λ e1 emitted. (prepare_next_batch e1, done tt))

  unfoldable pub set_flush_start : Endpoint S → Endpoint S
  set_flush_start e = record e { flush_start_pos = e.send_ring_producer }

  unfoldable pub close_batch : Endpoint S → Endpoint S × Outcome Error Unit
  close_batch e =
      if ltb 0 e.batch_message_count
      then and_do (emit_raw (fill_metadata e))
          (λ e1 emitted. (prepare_next_batch (set_flush_start e1), done tt))
      else (e, done tt)

  -- Whether a message of that size keeps the batch, from its metadata on, below the ring's end.
  unfoldable pub fits_cycle : Endpoint S → ℕ → Bool
  fits_cycle e total_size =
      let size = length e.send_ring in
      ltb (offset_in size e.meta_pos + (e.send_ring_producer - e.meta_pos + total_size)) size

  unfoldable pub handle_wrap_if_needed : Endpoint S → ℕ → Endpoint S × Outcome Error Bool
  handle_wrap_if_needed e total_size =
      if fits_cycle e total_size
      then (e, done false)
      else and_do (close_batch e)
          (λ e1 closed. and_do (emit_wrap e1) (λ e2 wrapped. (e2, done true)))
