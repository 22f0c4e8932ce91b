-- ===== src/Copyrpc/Endpoint/Skipping.antt =====
-- copyrpc/src/rc.rs: how `process_cqe_static` follows the wraps of the sender.
use locasta.Base.{
  ℕ, ◌+◌, ◌-◌, ◌%◌, ◌^◌, ◌≤◌, ◌≡◌, Option, arith, ◌==◌, length, refl, ap, ◌∙◌, drop, if◌then◌else◌,
}
use native.Mathlib.Nat.{mod-eq_of_lt, mod-add-mod, mod_self}
use locasta.Copyrpc.Encoding.{decode_imm, decode_flow_metadata, wrap_message_count}
use locasta.Copyrpc.Endpoint.{Endpoint, done, offset_in}
use locasta.Copyrpc.Endpoint.Receiving.{
  Received, process_cqe, accept_metadata, receive_metadata, skip_cycle, advance_recv,
}
use locasta.Copyrpc.Endpoint.Batches.{ring_unit, room_in_cycle, offset_in-eq-mod}

pub receive_metadata-accept :
    {S : Type 0} (e : Endpoint S) (delta credit_return grant count : ℕ)
    → decode_flow_metadata (drop (offset_in (length e.recv_ring) e.last_recv_pos) e.recv_ring)
      ≡ (credit_return, grant, count)
    → receive_metadata e delta ≡ (accept_metadata e delta credit_return grant, count)
unfolding receive_metadata
receive_metadata-accept e delta credit_return grant count h = rw h refl

past_mark :
    (k p : ℕ)
    → 6 ≤ k
    → p % 32 ≡ 0
    → p + 32 + (2 ^ k - (p + 32) % 2 ^ k)
      ≡ p + (2 ^ k - p % 2 ^ k) + (if p % 2 ^ k + 32 == 2 ^ k then 2 ^ k else 0)
past_mark k p wide aligned = ground (
  arith,
  ring_unit k wide,
  room_in_cycle k p wide aligned,
  mod-add-mod p (2 ^ k) 32,
  mod-eq_of_lt {n = p % 2 ^ k + 32} {m = 2 ^ k},
  mod_self (2 ^ k),
  ap (λ n. n % 2 ^ k) {x = p % 2 ^ k + 32} {y = 2 ^ k},
)

module _ {S U : Type 0} (try_remove : S → ℕ → Option U × S) (qpn : ℕ) where
  -- What a wrap mark at the receive position does.
  pub process_cqe-wrap :
      (k : ℕ) (e : Endpoint S) (out : Received U) (imm credit_return grant : ℕ)
      → 6 ≤ k
      → length e.recv_ring ≡ 2 ^ k
      → e.last_recv_pos % 32 ≡ 0
      → decode_flow_metadata (drop (offset_in (length e.recv_ring) e.last_recv_pos) e.recv_ring)
        ≡ (credit_return, grant, wrap_message_count)
      → (d : Endpoint S) × (process_cqe try_remove qpn (e, out) imm ≡ ((d, out), done tt))
        × (d.last_recv_pos
            ≡ e.last_recv_pos
              + (2 ^ k - e.last_recv_pos % 2 ^ k)
              + (if e.last_recv_pos % 2 ^ k + 32 == 2 ^ k then 2 ^ k else 0))
        × (d.remote_consumer_pos ≡ e.remote_consumer_pos + credit_return)
        × (d.peer_credit_balance ≡ e.peer_credit_balance + grant)
  unfolding process_cqe accept_metadata skip_cycle advance_recv
  process_cqe-wrap k e out imm credit_return grant wide ring aligned mark =
      let a = accept_metadata e (decode_imm imm) credit_return grant in
      (
        skip_cycle a,
        rw (receive_metadata-accept e (decode_imm imm) credit_return grant wrap_message_count mark)
            refl,
        ap (λ n. e.last_recv_pos + 32 + (n - offset_in n (e.last_recv_pos + 32))) ring
            ∙ ap (λ n. e.last_recv_pos + 32 + (2 ^ k - n))
                (offset_in-eq-mod k (e.last_recv_pos + 32))
            ∙ past_mark k e.last_recv_pos wide aligned,
        refl,
        refl,
      )
