-- ===== src/Copyrpc/Endpoint/Batches.antt =====
-- copyrpc/src/rc.rs: the shape of an open batch, and what closing it does.
use native.Mathlib.Nat.{one-le-pow, div-add-mod, mul-add-mod_self_left, mod-eq_of_lt, mod-lt}
use locasta.Base.{
  suc, ◌∙◌, ℕ, ◌+◌, ◌-◌, ◌*◌, ◌/◌, ◌%◌, ◌^◌, ◌≤◌, ◌<◌, ◌≡◌, ◌⊎◌, ◌∙◌, arith, some, true, min, ap,
  length, take, drop, length-take, length-drop, length-append,
}
use locasta.Base.Bits.{bit_and_mask, pow_split, mod-mod-mul}
use locasta.Base.Bytes.{Bytes, length-write_at}
use locasta.Copyrpc.Encoding.{encode_flow_metadata}
use locasta.Copyrpc.Endpoint.{
  Endpoint, RemoteRingInfo, done, at_ptr, offset_in, emit_to, emit_raw, post, batch_wqe,
  compute_credit_grant, prepare_next_batch,
}
use locasta.Copyrpc.Endpoint.Sending.{write_metadata}

-- A batch is open on a ring of the remote ring's size: it starts at `meta_pos` with room for its
-- metadata, nothing of it has been sent, and it stays within one cycle of the ring; with messages
-- it ends before the ring does.
pub record IsBatched {S : Type 0} (k : ℕ) (r : RemoteRingInfo) (e : Endpoint S) : Type 0 where
  pub connected : e.remote_recv_ring ≡ some r
  pub remote_size : r.size ≡ 2 ^ k
  pub ring : length e.send_ring ≡ 2 ^ k
  pub wide : 6 ≤ k
  pub small : k < 64
  pub started : e.flush_start_pos ≡ e.meta_pos
  pub after_metadata : e.meta_pos + 32 ≤ e.send_ring_producer
  pub aligned : e.send_ring_producer % 32 ≡ 0
  pub in_cycle :
      e.meta_pos % 2 ^ k + (e.send_ring_producer - e.meta_pos) + min 1 e.batch_message_count ≤ 2 ^ k
  pub no_message : (e.send_ring_producer ≡ e.meta_pos + 32) ⊎ (0 < e.batch_message_count)
  pub consumed : e.remote_consumer_pos ≤ e.meta_pos

pub offset_in-eq-mod : (k pos : ℕ) → offset_in (2 ^ k) pos ≡ pos % 2 ^ k
unfolding offset_in
offset_in-eq-mod k pos = bit_and_mask k pos

pub length-encode_flow_metadata :
    (buf : Bytes) (a b c : ℕ) → length (encode_flow_metadata buf a b c) ≡ length buf
unfolding encode_flow_metadata
length-encode_flow_metadata buf a b c =
    length-write_at _ 20 _
    ∙ length-write_at _ 16 _
    ∙ length-write_at _ 8 _
    ∙ length-write_at buf 0 _

pub length-at_ptr :
    (ring : Bytes) (o : ℕ) (f : Bytes → Bytes)
    → length (f (drop o ring)) ≡ length (drop o ring)
    → length (at_ptr ring o f) ≡ length ring
length-at_ptr ring o f h =
    omega
      (arith, length-append (take o ring) (f (drop o ring)), length-take o ring, length-drop o ring)

-- 32 divides the size of a ring, and the ring has room for two metadata.
pub ring_unit : (k : ℕ) → 6 ≤ k → (2 ^ k % 32 ≡ 0) × (64 ≤ 2 ^ k)
ring_unit k h = omega (
  arith,
  ap (λ n. 2 ^ n) {x = k} {y = k - 6 + 6} (omega arith) ∙ pow_split 6 (k - 6),
  one-le-pow (k - 6) 2,
)

-- Alignment is seen in the cycle.
pub aligned_in_cycle : (k pos : ℕ) → 6 ≤ k → pos % 2 ^ k % 32 ≡ pos % 32
aligned_in_cycle k pos h =
    ap (λ n. pos % n % 32) {x = 2 ^ k} {y = 32 * (2 ^ k / 32)} (omega (arith, ring_unit k h))
    ∙ mod-mod-mul pos 32 (2 ^ k / 32)

-- An aligned position has room for a metadata in its cycle.
pub room_in_cycle : (k pos : ℕ) → 6 ≤ k → pos % 32 ≡ 0 → pos % 2 ^ k + 32 ≤ 2 ^ k
room_in_cycle k pos h a = omega (
  arith,
  ring_unit k h,
  aligned_in_cycle k pos h,
  mod-lt pos {m = 2 ^ k} (omega (arith, ring_unit k h)),
)

-- The end of a position's cycle.
pub cycle_end : (k pos : ℕ) → (pos + (2 ^ k - pos % 2 ^ k)) % 2 ^ k ≡ 0
cycle_end k pos =
    ap (λ n. n % 2 ^ k) {y = 2 ^ k * suc (pos / 2 ^ k) + 0}
      (omega
        (arith, div-add-mod pos (2 ^ k), mod-lt pos {m = 2 ^ k} (one-le-pow k 2 (omega arith))))
    ∙ mul-add-mod_self_left (2 ^ k) (suc (pos / 2 ^ k)) 0
    ∙ mod-eq_of_lt {n = 0} (one-le-pow k 2 (omega arith))

module _ {S : Type 0} (k : ℕ) (r : RemoteRingInfo) where
  pub length-write_metadata :
      (e : Endpoint S) (n : ℕ) → length (write_metadata e n).send_ring ≡ length e.send_ring
  unfolding write_metadata
  length-write_metadata e n =
      length-at_ptr e.send_ring (offset_in (length e.send_ring) e.meta_pos)
        (λ buf.
          encode_flow_metadata buf (e.last_recv_pos - e.last_notified_recv_pos)
            (compute_credit_grant e) n)
        (length-encode_flow_metadata (drop (offset_in (length e.send_ring) e.meta_pos) e.send_ring)
          (e.last_recv_pos - e.last_notified_recv_pos) (compute_credit_grant e) n)

  pub write_metadata-IsBatched :
      (e : Endpoint S) (n : ℕ) → IsBatched k r e → IsBatched k r (write_metadata e n)
  unfolding write_metadata
  write_metadata-IsBatched e n v = ground (arith, length-write_metadata e n)

  -- What `emit_raw` does where the send queue has room.
  pub emit_raw-post :
      (e : Endpoint S)
      → e.remote_recv_ring ≡ some r
      → length e.send_ring ≡ 2 ^ k
      → e.flush_start_pos < e.send_ring_producer
      → e.flush_start_pos % 2 ^ k + (e.send_ring_producer - e.flush_start_pos) ≤ 2 ^ k
      → 0 < e.sq_room
      → emit_raw e ≡ (post e (batch_wqe e r), done true)
  unfolding emit_raw emit_to
  emit_raw-post e at ring some_bytes fits room = rw at (
      ground
        (arith, offset_in-eq-mod k e.flush_start_pos, ap (λ n. offset_in n e.flush_start_pos) ring))

  -- The endpoint after its batch was sent and the next one opened.
  abbrev pub closed : Endpoint S → Endpoint S
  closed e = prepare_next_batch (post e (batch_wqe e r))

  pub closed-IsBatched :
      (e : Endpoint S)
      → e.remote_recv_ring ≡ some r
      → r.size ≡ 2 ^ k
      → length e.send_ring ≡ 2 ^ k
      → 6 ≤ k
      → k < 64
      → e.send_ring_producer % 32 ≡ 0
      → e.remote_consumer_pos ≤ e.send_ring_producer
      → IsBatched k r (closed e)
  unfolding prepare_next_batch post
  closed-IsBatched e at remote ring wide small aligned consumed =
      ground (arith, room_in_cycle k e.send_ring_producer wide aligned)
