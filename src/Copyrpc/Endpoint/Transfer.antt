-- ===== src/Copyrpc/Endpoint/Transfer.antt =====
-- copyrpc/src/rc.rs: a batch from the endpoint that sends it to the one that receives it. The
-- network is known by one thing: the bytes of an entry lie in the receive ring at the offset that
-- they have in the send ring.
use locasta.Base.{
  ℕ, zero, suc, ◌+◌, ◌-◌, ◌%◌, ◌^◌, ◌≤◌, ◌<◌, ◌≡◌, Option, arith, length, refl, ap, ◌∙◌, drop, take,
  sym, List, [], ◌∷◌, length-drop, drop-drop, ◌==◌, false,
}
use mathlib.Core.Path.{subst}
use native.Mathlib.Nat.{mod-add-mod, mod-lt, one-le-pow}
use locasta.Base.Bytes.{Bytes, read_at, from_le}
use locasta.Copyrpc.Encoding.{
  decode_imm, decode_flow_metadata, encode_flow_metadata, wrap_message_count,
}
use locasta.Copyrpc.Encoding.Laws.{decode_flow_metadata-encode_flow_metadata}
use locasta.Copyrpc.Endpoint.{Endpoint, at_ptr, offset_in, compute_credit_grant, done}
use locasta.Copyrpc.Endpoint.Sending.{fill_metadata, write_metadata}
use locasta.Copyrpc.Endpoint.Calls.{message_size}
use locasta.Copyrpc.Endpoint.Receiving.{Received, process_cqe, accept_metadata, receive_messages}
use locasta.Copyrpc.Endpoint.Batches.{offset_in-eq-mod}
use locasta.Copyrpc.Endpoint.Delivery.{
  Message, Contains, total_size, payload_fits, deliver_all, further, receive_messages-deliver_all,
}
use locasta.Copyrpc.Endpoint.Skipping.{receive_metadata-accept}
use locasta.Copyrpc.Endpoint.Contents.{HoldsBatch, drop-at_ptr, same_header, triple}

read_at-take : (n at j : ℕ) (xs : Bytes) → at + j ≤ n → read_at (take n xs) at j ≡ read_at xs at j
read_at-take zero zero zero xs h = refl
read_at-take zero zero (suc j) xs h = absurd (omega arith)
read_at-take zero (suc at) j xs h = absurd (omega arith)
read_at-take (suc n) at j [] h = refl
read_at-take (suc n) zero zero (x ∷ xs) h = refl
read_at-take (suc n) zero (suc j) (x ∷ xs) h =
    ap (λ r. x ∷ r) (read_at-take n zero j xs (omega arith))
read_at-take (suc n) (suc at) j (x ∷ xs) h = read_at-take n at j xs (omega arith)

-- What two buffers with a common start agree on.
pub common_read :
    (n at j : ℕ) (xs ys : Bytes)
    → take n xs ≡ take n ys
    → at + j ≤ n
    → read_at xs at j ≡ read_at ys at j
common_read n at j xs ys h k =
    sym (read_at-take n at j xs k) ∙ ap (λ b. read_at b at j) h ∙ read_at-take n at j ys k

pub same_metadata :
    (xs ys : Bytes) → take 32 xs ≡ take 32 ys → decode_flow_metadata xs ≡ decode_flow_metadata ys
unfolding decode_flow_metadata
same_metadata xs ys h =
    triple (ap from_le (common_read 32 0 8 xs ys h (omega arith)))
      (ap from_le (common_read 32 8 8 xs ys h (omega arith)))
      (ap from_le (common_read 32 16 4 xs ys h (omega arith)))

common-Contains :
    (ms : List Message) (n : ℕ) (xs ys : Bytes)
    → take n xs ≡ take n ys
    → total_size ms ≤ n
    → Contains xs ms
    → Contains ys ms
unfolding Contains
common-Contains [] n xs ys h k c = tt
common-Contains (m ∷ ms) n xs ys h k (header, payload, small, rest) =
    let l = message_size m.payload in
    let fits = payload_fits m.payload small in
    (
      same_header ys xs (sym (common_read n 0 4 xs ys h (omega arith)))
            (sym (common_read n 4 4 xs ys h (omega arith)))
            (sym (common_read n 8 4 xs ys h (omega arith)))
          ∙ header,
      sym (common_read n 12 (length m.payload) xs ys h (omega arith)) ∙ payload,
      small,
      common-Contains ms (n - l) (drop l xs) (drop l ys)
          (common_read n l (n - l) xs ys h (omega arith)) (omega arith) rest,
    )

module _ {S : Type 0} (k : ℕ) (e : Endpoint S) where
  pub metadata_bytes :
      (message_count : ℕ)
      → length e.send_ring ≡ 2 ^ k
      → drop (e.meta_pos % 2 ^ k) (write_metadata e message_count).send_ring
        ≡ encode_flow_metadata
            (drop (e.meta_pos % 2 ^ k) e.send_ring)
            (e.last_recv_pos - e.last_notified_recv_pos)
            (compute_credit_grant e)
            message_count
  unfolding write_metadata
  metadata_bytes message_count ring =
      let o = e.meta_pos % 2 ^ k in
      let f = λ (buf : Bytes).
        encode_flow_metadata buf (e.last_recv_pos - e.last_notified_recv_pos)
          (compute_credit_grant e) message_count in
      ap (λ n. drop o (at_ptr e.send_ring n f)) {y = o + 0}
        (ap (λ n. offset_in n e.meta_pos) ring ∙ offset_in-eq-mod k e.meta_pos ∙ omega arith)
      ∙ drop-at_ptr o 0 e.send_ring f
          (omega (arith, mod-lt e.meta_pos {m = 2 ^ k} (one-le-pow k 2 (omega arith))))

  filled :
      length e.send_ring ≡ 2 ^ k
      → drop (e.meta_pos % 2 ^ k) (fill_metadata e).send_ring
        ≡ encode_flow_metadata
            (drop (e.meta_pos % 2 ^ k) e.send_ring)
            (e.last_recv_pos - e.last_notified_recv_pos)
            (compute_credit_grant e)
            e.batch_message_count
  unfolding fill_metadata
  filled ring = metadata_bytes e.batch_message_count ring

-- The sender's batch, and a receiver whose ring got its bytes.
pub record IsSent {S T : Type 0} (k : ℕ) (e : Endpoint S) (ms : List Message) (f : Endpoint T)
    : Type 0 where
  pub holds : HoldsBatch k e ms
  pub send_size : length e.send_ring ≡ 2 ^ k
  pub recv_size : length f.recv_ring ≡ 2 ^ k
  pub in_cycle : e.meta_pos % 2 ^ k + (e.send_ring_producer - e.meta_pos) ≤ 2 ^ k
  pub in_step : f.last_recv_pos ≡ e.meta_pos
  pub arrived :
      read_at f.recv_ring (e.meta_pos % 2 ^ k) (e.send_ring_producer - e.meta_pos)
      ≡ read_at (fill_metadata e).send_ring (e.meta_pos % 2 ^ k) (e.send_ring_producer - e.meta_pos)
  pub small_return : e.last_recv_pos - e.last_notified_recv_pos < 2 ^ 64
  pub small_grant : compute_credit_grant e < 2 ^ 64
  pub small_count : length ms < 2 ^ 32 - 1

module _ {S T : Type 0} (k : ℕ) (e : Endpoint S) (ms : List Message) (f : Endpoint T)
    (v : IsSent k e ms f) where
  abbrev start : ℕ
  start = e.meta_pos % 2 ^ k

  span : e.send_ring_producer - e.meta_pos ≡ 32 + total_size ms
  span = omega (arith, v.holds)

  receive_offset : offset_in (length f.recv_ring) f.last_recv_pos ≡ start
  receive_offset =
      ap (λ n. offset_in n f.last_recv_pos) v.recv_size
      ∙ offset_in-eq-mod k f.last_recv_pos
      ∙ ap (λ n. n % 2 ^ k) v.in_step

  got_metadata :
      decode_flow_metadata (drop (offset_in (length f.recv_ring) f.last_recv_pos) f.recv_ring)
      ≡ (e.last_recv_pos - e.last_notified_recv_pos, compute_credit_grant e, e.batch_message_count)
  got_metadata =
      ap (λ n. decode_flow_metadata (drop n f.recv_ring)) receive_offset
      ∙ same_metadata (drop start f.recv_ring) (drop start (fill_metadata e).send_ring) (
          common_read (e.send_ring_producer - e.meta_pos) 0 32 (drop start f.recv_ring)
            (drop start (fill_metadata e).send_ring) v.arrived (omega (arith, span)))
      ∙ ap decode_flow_metadata (filled k e v.send_size)
      ∙ (decode_flow_metadata-encode_flow_metadata (drop start e.send_ring)
          (e.last_recv_pos - e.last_notified_recv_pos) (compute_credit_grant e)
          e.batch_message_count (omega (arith, span, v, length-drop start e.send_ring))
          v.small_return v.small_grant (omega (arith, v, v.holds))).0

  got_messages : Contains (drop (start + 32) f.recv_ring) ms
  got_messages =
      let n = total_size ms in
      let sent = (fill_metadata e).send_ring in
      let before = drop start e.send_ring in
      let law =
        decode_flow_metadata-encode_flow_metadata before
          (e.last_recv_pos - e.last_notified_recv_pos) (compute_credit_grant e)
          e.batch_message_count (omega (arith, span, v, length-drop start e.send_ring))
          v.small_return v.small_grant (omega (arith, v, v.holds)) in
      subst (λ b. Contains b ms) (drop-drop start 32 f.recv_ring)
        (common-Contains ms n (drop 32 before) (drop 32 (drop start f.recv_ring))
          (sym (law.2 32 n (omega arith))
            ∙ ap (λ b. read_at b 32 n) (sym (filled k e v.send_size))
            ∙ sym (
                common_read (e.send_ring_producer - e.meta_pos) 32 n (drop start f.recv_ring)
                  (drop start sent) v.arrived (omega (arith, span))))
          (omega arith)
          (subst (λ b. Contains b ms) (sym (drop-drop start 32 e.send_ring)) v.holds.contents))

module _ {S T U : Type 0} (try_remove : T → ℕ → Option U × T) (qpn : ℕ) where
  -- A receiver at the position of the sender's batch, whose ring got the bytes of the batch, with
  -- its metadata filled in, by the network, delivers exactly the batch's messages in their order:
  -- each response with its call's data, each request to the stack. It ends at the sender's
  -- position and takes over the credit that the sender returned and granted.
  pub process_cqe-deliver_all :
      (k : ℕ) (e : Endpoint S) (ms : List Message) (f : Endpoint T) (out : Received U) (imm : ℕ)
      → IsSent k e ms f
      → let st = deliver_all try_remove qpn (f.pending_calls, out) (e.meta_pos % 2 ^ k + 32) ms in
        (d : Endpoint T) × (process_cqe try_remove qpn (f, out) imm ≡ ((d, st.1), done tt))
        × (d.pending_calls ≡ st.0)
        × (d.last_recv_pos ≡ e.send_ring_producer)
        × (d.remote_consumer_pos
            ≡ f.remote_consumer_pos + (e.last_recv_pos - e.last_notified_recv_pos))
        × (d.peer_credit_balance ≡ f.peer_credit_balance + compute_credit_grant e)
  unfolding process_cqe accept_metadata
  process_cqe-deliver_all k e ms f out imm v =
      let credit_return = e.last_recv_pos - e.last_notified_recv_pos in
      let a = accept_metadata f (decode_imm imm) credit_return (compute_credit_grant e) in
      let o = e.meta_pos % 2 ^ k + 32 in
      let st = deliver_all try_remove qpn (f.pending_calls, out) o ms in
      (
        further try_remove qpn a st.0 (total_size ms),
        rw
            (receive_metadata-accept f (decode_imm imm) credit_return (compute_credit_grant e)
              e.batch_message_count (got_metadata k e ms f v))
            (rw no_mark (
              ap (λ n. receive_messages try_remove qpn n (a, out)) v.holds.count
              ∙ receive_messages-deliver_all try_remove qpn k ms a out o v.recv_size
                  (ap (λ n. (n + 32) % 2 ^ k) v.in_step ∙ sym (mod-add-mod e.meta_pos (2 ^ k) 32))
                  (omega (arith, v, v.holds)) (got_messages k e ms f v))),
        refl,
        omega (arith, v, v.holds),
        refl,
        refl,
      )
    where
      no_mark : (e.batch_message_count == wrap_message_count) ≡ false
      no_mark = ground (arith, v, v.holds)
