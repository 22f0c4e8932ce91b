-- ===== src/Copyrpc/Endpoint/Receiving.antt =====
-- copyrpc/src/rc.rs: `process_cqe_static` for the endpoint that the completion names. The table of
-- pending calls is known by its `try_remove`. The calls of `on_response` are kept in order with
-- what they are given, and the entries pushed on `recv_stack` likewise. Where the ring ends before
-- a header does, the source reads past it; here the missing bytes are zero.
use locasta.Base.{
  ℕ, zero, suc, ◌+◌, ◌-◌, ◌*◌, Option, none, some, List, [], ◌∷◌, ◌++◌, leb, ◌==◌, if◌then◌else◌,
  length, drop,
}
use locasta.Base.Bytes.{Bytes, read_at}
use locasta.Copyrpc.Encoding.{
  decode_imm, decode_header, decode_flow_metadata, is_response, from_response_id,
  padded_message_size, wrap_message_count, header_size,
}
use locasta.Copyrpc.Endpoint.{Endpoint, Error, Outcome, done, panics, and_do, offset_in}

pub record RecvMessage : Type 0 where
  pub qpn : ℕ
  pub call_id : ℕ
  pub data_offset : ℕ
  pub data_len : ℕ
  pub response_allowance : ℕ

-- What a completion does beside changing the endpoint.
pub record Received (U : Type 0) : Type 0 where
  pub responses : List (U × Bytes)
  pub recv_stack : List RecvMessage

module _ {S : Type 0} where
  unfoldable pub set_calls : Endpoint S → S → Endpoint S
  set_calls e slab = record e { pending_calls = slab }

  unfoldable pub advance_recv : Endpoint S → ℕ → Endpoint S
  advance_recv e n = record e { last_recv_pos = e.last_recv_pos + n }

  unfoldable pub accept_metadata : Endpoint S → ℕ → ℕ → ℕ → Endpoint S
  accept_metadata e delta credit_return grant = record e {
    recv_ring_producer = e.recv_ring_producer + delta;
    remote_consumer_pos = e.remote_consumer_pos + credit_return;
    peer_credit_balance = e.peer_credit_balance + grant;
    last_recv_pos = e.last_recv_pos + 32;
  }

  -- The metadata at the front of a batch, and its message count.
  unfoldable pub receive_metadata : Endpoint S → ℕ → Endpoint S × ℕ
  receive_metadata e delta =
      let offset = offset_in (length e.recv_ring) e.last_recv_pos in
      let (credit_return, grant, message_count) = decode_flow_metadata (drop offset e.recv_ring) in
      (accept_metadata e delta credit_return grant, message_count)

  unfoldable pub skip_cycle : Endpoint S → Endpoint S
  skip_cycle e =
      let size = length e.recv_ring in advance_recv e (size - offset_in size e.last_recv_pos)

module _ {S U : Type 0} (try_remove : S → ℕ → Option U × S) (qpn : ℕ) where
  abbrev State : Type 0
  State = Endpoint S × Received U

  -- A response: its caller's data and payload go to `on_response`, if the call is still pending.
  unfoldable pub receive_response : State → ℕ → ℕ → ℕ → State × Outcome Error Unit
  receive_response (e, out) call_id offset payload_len =
      let (found, slab) = try_remove e.pending_calls (from_response_id call_id) in
      let e1 = set_calls e slab in
      let start = offset + header_size in
      elim found [
        | none ↦ ((e1, out), done tt)
        | some user_data ↦
            if leb (start + payload_len) (length e.recv_ring)
            then (
              (
                e1,
                record out {
                  responses =
                      out.responses ++ (user_data, read_at e.recv_ring start payload_len) ∷ [];
                },
              ),
              done tt,
            )
            else ((e1, out), panics)
      ]

  unfoldable pub receive_request : State → ℕ → ℕ → ℕ → ℕ → State
  receive_request (e, out) call_id piggyback offset payload_len = (
    e,
    record out {
      recv_stack =
          out.recv_stack
          ++ record {
            qpn = qpn;
            call_id = call_id;
            data_offset = offset + header_size;
            data_len = payload_len;
            response_allowance = piggyback * 32;
          }
            ∷ [];
    },
  )

  -- One message of a batch.
  unfoldable pub receive_message : State → State × Outcome Error Unit
  receive_message (e, out) =
      let offset = offset_in (length e.recv_ring) e.last_recv_pos in
      let (call_id, piggyback, payload_len) = decode_header (drop offset e.recv_ring) in
      let e1 = advance_recv e (padded_message_size payload_len) in
      if is_response call_id
      then receive_response (e1, out) call_id offset payload_len
      else (receive_request (e1, out) call_id piggyback offset payload_len, done tt)

  unfoldable pub receive_messages : ℕ → State → State × Outcome Error Unit
  receive_messages zero s = (s, done tt)
  receive_messages (suc n) s = and_do (receive_message s) (λ s1 received. receive_messages n s1)

  unfoldable pub process_cqe : State → ℕ → State × Outcome Error Unit
  process_cqe (e, out) imm =
      let (e1, message_count) = receive_metadata e (decode_imm imm) in
      if message_count == wrap_message_count
      then ((skip_cycle e1, out), done tt)
      else receive_messages message_count (e1, out)
