-- ===== src/Copyrpc/Endpoint/Reservation.antt =====
-- copyrpc/src/rc.rs: the credit invariant of an open batch, in flight plus twice the reservation,
-- through `flush` and `handle_wrap_if_needed`.
use native.Mathlib.Nat.{pow-le-pow_right, mod-add-mod, mod-eq_of_lt}
use locasta.Base.{
  ℕ, ◌+◌, ◌-◌, ◌*◌, ◌%◌, ◌^◌, ◌≤◌, ◌<◌, ◌≡◌, inl, inr, refl, sym, ◌∙◌, arith, false, ap, ltb,
  Bool-cases, ltb→lt, if◌then◌else◌,
}
use locasta.Copyrpc.Endpoint.{Endpoint, RemoteRingInfo, in_flight, post, prepare_next_batch}
use locasta.Copyrpc.Endpoint.Sending.{write_metadata, fill_metadata, set_producer, fits_cycle}
use locasta.Copyrpc.Endpoint.Credit.{compute_credit_grant_lem}
use locasta.Copyrpc.Endpoint.Batches.{IsBatched}
use locasta.Copyrpc.Endpoint.Wrapping.{
  sent, wrapped, marked_cycle, closed_batch, before_wrap, ready, offset_lem, sent-IsBatched,
}

-- What is in flight and twice what is reserved fit the remote ring, but for the metadata of a
-- batch without messages.
unfoldable pub HasCredit : {S : Type 0} → RemoteRingInfo → Endpoint S → Type 0
HasCredit r e =
    in_flight e + 2 * e.resp_reservation ≤ r.size + (if ltb 0 e.batch_message_count then 0 else 32)

module _ {S : Type 0} (k : ℕ) (r : RemoteRingInfo) (e : Endpoint S) (v : IsBatched k r e) where
  small_size : r.size < 2 ^ 64
  small_size =
      omega (arith, v, pow-le-pow_right {n = 2} (omega arith) {i = k} {j = 63} (omega arith))

  pub sent-HasCredit : HasCredit r e → 0 < e.batch_message_count → HasCredit r (sent k r e)
  unfolding HasCredit in_flight fill_metadata write_metadata prepare_next_batch post
  sent-HasCredit c some_messages =
      ground (arith, compute_credit_grant_lem e r v.connected small_size)

  pub before_wrap-HasCredit : HasCredit r e → HasCredit r (before_wrap k r e)
  before_wrap-HasCredit c = elim (Bool-cases (ltb 0 e.batch_message_count)) [
    | inl h ↦ rw h (sent-HasCredit c (ltb→lt 0 e.batch_message_count h))
    | inr h ↦ rw h c
  ]

  -- The wrap of an empty batch costs what is left of the cycle and the next metadata.
  wrapped_credit :
      e.send_ring_producer - 32 - e.remote_consumer_pos + 2 * e.resp_reservation ≤ r.size
      → e.send_ring_producer ≡ e.meta_pos + 32
      → in_flight (wrapped k r e) + 2 * (wrapped k r e).resp_reservation
        ≤ r.size + (2 ^ k - e.meta_pos % 2 ^ k) + 32
  unfolding in_flight set_producer write_metadata prepare_next_batch post
  wrapped_credit c empty = ground (
    arith,
    compute_credit_grant_lem (set_producer e e.meta_pos) r v.connected small_size,
    offset_lem k r e v e.meta_pos,
  )

  producer_in_cycle :
      0 < e.batch_message_count
      → e.send_ring_producer % 2 ^ k ≡ e.meta_pos % 2 ^ k + (e.send_ring_producer - e.meta_pos)
  producer_in_cycle some_messages =
      let span = e.send_ring_producer - e.meta_pos in
      ap (λ n. n % 2 ^ k) {y = e.meta_pos + span} (omega (arith, v))
      ∙ sym (mod-add-mod e.meta_pos (2 ^ k) span)
      ∙ mod-eq_of_lt (omega (arith, v))

module _ {S : Type 0} (k : ℕ) (r : RemoteRingInfo) (e : Endpoint S) (n : ℕ)
    (v : IsBatched k r e) where
  fits_cycle_lem :
      fits_cycle e n ≡ ltb (e.meta_pos % 2 ^ k + (e.send_ring_producer - e.meta_pos + n)) (2 ^ k)
  unfolding fits_cycle
  fits_cycle_lem = rw (offset_lem k r e v e.meta_pos, v.ring) refl

  wrapped_marks :
      (d : Endpoint S)
      → IsBatched k r d
      → ((wrapped k r d).meta_pos % 2 ^ k ≡ 0)
        × ((wrapped k r d).send_ring_producer ≡ (wrapped k r d).meta_pos + 32)
  unfolding prepare_next_batch post
  wrapped_marks d w = (marked_cycle k r d w, refl)

  -- The message follows in the cycle.
  pub ready-fits :
      n + 32 < 2 ^ k
      → let d = ready k r e n in
        d.meta_pos % 2 ^ k + (d.send_ring_producer - d.meta_pos) + n < 2 ^ k
  ready-fits h = elim (Bool-cases (fits_cycle e n)) [
    | inl fits ↦ rw fits (ground (arith, fits_cycle_lem))
    | inr full ↦ rw full (omega (arith, wrapped_marks (before_wrap k r e) (closed_batch k r e v)))
  ]

  wrapped_batch :
      HasCredit r e
      → 0 < e.batch_message_count
      → fits_cycle e n ≡ false
      → in_flight (wrapped k r (sent k r e)) + 2 * (wrapped k r (sent k r e)).resp_reservation
        ≤ r.size + n + 64
  unfolding HasCredit in_flight prepare_next_batch post fill_metadata write_metadata
  wrapped_batch c some_messages full = ground (
    arith,
    fits_cycle_lem,
    producer_in_cycle k r e v some_messages,
    sent-HasCredit k r e v c some_messages,
    wrapped_credit k r (sent k r e) (sent-IsBatched k r e v)
        (ground (arith, sent-HasCredit k r e v c some_messages)) refl,
  )

  wrapped_empty :
      HasCredit r e
      → ltb 0 e.batch_message_count ≡ false
      → fits_cycle e n ≡ false
      → in_flight (wrapped k r e) + 2 * (wrapped k r e).resp_reservation ≤ r.size + n + 64
  unfolding HasCredit in_flight
  wrapped_empty c none full =
      ground (arith, fits_cycle_lem, wrapped_credit k r e v (ground arith) (ground arith))

  pub ready_credit :
      HasCredit r e
      → let d = ready k r e n in in_flight d + 2 * d.resp_reservation ≤ r.size + n + 64
  unfolding HasCredit
  ready_credit c = elim (Bool-cases (fits_cycle e n)) [
    | inl fits ↦ rw fits (ground arith)
    | inr full ↦ rw full (elim (Bool-cases (ltb 0 e.batch_message_count)) [
      | inl some_messages ↦
          rw some_messages (wrapped_batch c (ltb→lt 0 e.batch_message_count some_messages) full)
      | inr none ↦ rw none (wrapped_empty c none full)
    ])
  ]

  pub ready_reservation : e.resp_reservation ≤ (ready k r e n).resp_reservation
  unfolding set_producer fill_metadata write_metadata prepare_next_batch post
  ready_reservation = ground arith
