-- ===== src/Copyrpc/Endpoint/Wrapping.antt =====
-- copyrpc/src/rc.rs: what `flush` and `handle_wrap_if_needed` do with an open batch.
use locasta.Base.{
  not, ℕ, ◌+◌, ◌-◌, ◌%◌, ◌^◌, ◌<◌, ◌≡◌, inl, inr, refl, sym, ◌∙◌, arith, true, false, ap, length,
  ltb, Bool, Bool-cases, if◌then◌else◌,
}
use locasta.Copyrpc.Encoding.{wrap_message_count}
use locasta.Copyrpc.Endpoint.{
  Endpoint, RemoteRingInfo, done, offset_in, emit_raw, post, batch_wqe, prepare_next_batch,
}
use locasta.Copyrpc.Endpoint.Sending.{
  write_metadata, fill_metadata, emit_wqe, flush, emit_wrap, set_producer, set_flush_start,
  close_batch, fits_cycle, handle_wrap_if_needed, ring_doorbell,
}
use locasta.Copyrpc.Endpoint.Batches.{
  IsBatched, offset_in-eq-mod, emit_raw-post, closed, closed-IsBatched, write_metadata-IsBatched,
  aligned_in_cycle, cycle_end, length-write_metadata,
}

module _ {S : Type 0} (k : ℕ) (r : RemoteRingInfo) where
  -- The open batch sent as it is.
  abbrev pub sent : Endpoint S → Endpoint S
  sent e = closed k r (fill_metadata e)

  -- The empty batch turned into a wrap mark.
  abbrev pub marked : Endpoint S → Endpoint S
  marked e =
      set_producer (write_metadata (set_producer e e.meta_pos) wrap_message_count)
        (e.meta_pos + (length e.send_ring - offset_in (length e.send_ring) e.meta_pos))

  abbrev pub wrapped : Endpoint S → Endpoint S
  wrapped e = closed k r (marked e)

  module _ (e : Endpoint S) (v : IsBatched k r e) where
    pub offset_lem : (pos : ℕ) → offset_in (length e.send_ring) pos ≡ pos % 2 ^ k
    offset_lem pos = ap (λ n. offset_in n pos) v.ring ∙ offset_in-eq-mod k pos

    start_in_cycle : e.flush_start_pos % 2 ^ k ≡ e.meta_pos % 2 ^ k
    start_in_cycle = ap (λ n. n % 2 ^ k) v.started

    filled : IsBatched k r (fill_metadata e)
    unfolding fill_metadata
    filled = write_metadata-IsBatched k r e e.batch_message_count v

    pub emit_raw-filled :
        0 < e.sq_room
        → emit_raw (fill_metadata e)
          ≡ (post (fill_metadata e) (batch_wqe (fill_metadata e) r), done true)
    unfolding fill_metadata write_metadata
    emit_raw-filled room =
        emit_raw-post k r (fill_metadata e) v.connected filled.ring (omega (arith, v))
          (omega (arith, v, start_in_cycle)) room

    pub sent-IsBatched : IsBatched k r (sent e)
    unfolding fill_metadata write_metadata
    sent-IsBatched =
        closed-IsBatched k r (fill_metadata e) v.connected v.remote_size filled.ring v.wide v.small
          v.aligned (omega (arith, v))

    pub emit_wqe-sent : 0 < e.batch_message_count → 0 < e.sq_room → emit_wqe e ≡ (sent e, done true)
    unfolding emit_wqe
    emit_wqe-sent some_messages room = rw (emit_raw-filled room) (ground arith)

    pub marked_at_end : (marked e).send_ring_producer ≡ e.meta_pos + (2 ^ k - e.meta_pos % 2 ^ k)
    unfolding set_producer write_metadata
    marked_at_end = omega (arith, offset_lem e.meta_pos, v)

    pub marked_cycle : (marked e).send_ring_producer % 2 ^ k ≡ 0
    marked_cycle = ap (λ n. n % 2 ^ k) marked_at_end ∙ cycle_end k e.meta_pos

    length-marked : length (marked e).send_ring ≡ 2 ^ k
    unfolding set_producer
    length-marked =
        length-write_metadata k r (set_producer e e.meta_pos) wrap_message_count ∙ v.ring

    pub wrapped-IsBatched : IsBatched k r (wrapped e)
    unfolding set_producer write_metadata
    wrapped-IsBatched =
        closed-IsBatched k r (marked e) v.connected v.remote_size length-marked v.wide v.small
          (omega (arith, marked_cycle, aligned_in_cycle k (marked e).send_ring_producer v.wide))
          (omega (arith, marked_at_end, v))

    pub emit_wrap-wrapped : 0 < e.sq_room → emit_wrap e ≡ (wrapped e, done tt)
    unfolding emit_wrap set_producer write_metadata
    emit_wrap-wrapped room =
        rw
          (emit_raw-post k r (marked e) v.connected length-marked
            (omega (arith, in_cycle, marked_at_end, v))
            (omega (arith, in_cycle, start_in_cycle, marked_at_end, v)) room)
          refl
      where
        in_cycle : e.meta_pos % 2 ^ k < 2 ^ k
        in_cycle = omega (arith, v)

  -- The endpoint whose open batch is empty.
  abbrev pub before_wrap : Endpoint S → Endpoint S
  before_wrap e = if ltb 0 e.batch_message_count then sent e else e

  pub closed_batch : (e : Endpoint S) → IsBatched k r e → IsBatched k r (before_wrap e)
  closed_batch e v = elim (Bool-cases (ltb 0 e.batch_message_count)) [
    | inl h ↦ rw h (sent-IsBatched e v)
    | inr h ↦ rw h v
  ]

  silent_doorbell : (e : Endpoint S) → e.needs_doorbell ≡ false → ring_doorbell e ≡ e
  unfolding ring_doorbell
  silent_doorbell e h = λ i. record e { needs_doorbell = sym h i }

  pub ring_if :
      (e : Endpoint S) (b : Bool)
      → e.needs_doorbell ≡ b
      → (if b then ring_doorbell e else e) ≡ ring_doorbell e
  ring_if e true h = refl
  ring_if e false h = sym (silent_doorbell e h)

  pub flush-before_wrap :
      (e : Endpoint S)
      → IsBatched k r e
      → 0 < e.sq_room
      → flush e ≡ (ring_doorbell (before_wrap e), done tt)
  unfolding flush emit_wqe
  flush-before_wrap e v room =
      rw (emit_raw-filled e v room) (elim (Bool-cases (ltb 0 e.batch_message_count)) [
        | inl h ↦ ground (arith, ring_if (sent e) (sent e).needs_doorbell refl)
        | inr h ↦ ground (arith, ring_if e e.needs_doorbell refl)
      ])

  -- The endpoint once a message of the given size can follow in the cycle.
  abbrev pub ready : Endpoint S → ℕ → Endpoint S
  ready e n = if fits_cycle e n then e else wrapped (before_wrap e)

  module _ (e : Endpoint S) (n : ℕ) (v : IsBatched k r e) where
    close_batch-sent : 0 < e.sq_room → close_batch e ≡ (before_wrap e, done tt)
    unfolding close_batch set_flush_start prepare_next_batch post
    close_batch-sent room =
        rw (emit_raw-filled e v room) (elim (Bool-cases (ltb 0 e.batch_message_count)) [
          | inl h ↦ rw h refl
          | inr h ↦ rw h refl
        ])

    room_left : 1 < e.sq_room → 0 < (before_wrap e).sq_room
    unfolding prepare_next_batch post fill_metadata write_metadata
    room_left room = ground arith

    pub handle_wrap_if_needed-ready :
        1 < e.sq_room → handle_wrap_if_needed e n ≡ (ready e n, done (not (fits_cycle e n)))
    unfolding handle_wrap_if_needed
    handle_wrap_if_needed-ready room =
        rw
          (
            close_batch-sent (omega arith),
            emit_wrap-wrapped (before_wrap e) (closed_batch e v) (room_left room),
          )
          (elim (Bool-cases (fits_cycle e n)) [ inl h ↦ rw h refl | inr h ↦ rw h refl ])

    pub ready-IsBatched : IsBatched k r (ready e n)
    ready-IsBatched = elim (Bool-cases (fits_cycle e n)) [
      | inl h ↦ rw h v
      | inr h ↦ rw h (wrapped-IsBatched (before_wrap e) (closed_batch e v))
    ]
