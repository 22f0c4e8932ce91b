-- ===== src/Copyrpc/Endpoint/Calls.antt =====
-- copyrpc/src/rc.rs: `Endpoint::connect_ex`, `Endpoint::call` and `RecvHandle::reply`. The table
-- of pending calls is known by its `insert`; the connection of the queue pair itself is not
-- modelled. Message counts stay below 2 ^ 32, since a message takes 32 bytes of the ring.
use Prim.Native.Nat.{bit_and}
use locasta.Base.{ℕ, ◌+◌, ◌-◌, ◌*◌, ◌/◌, ◌%◌, ◌^◌, none, some, ltb, if◌then◌else◌, length, min}
use locasta.Base.Bytes.{Bytes, write_at}
use locasta.Copyrpc.Encoding.{
  padded_message_size, encode_header, to_response_id, not64, flow_metadata_size, header_size,
}
use locasta.Copyrpc.Endpoint.{
  Endpoint, RemoteRingInfo, Error, remote_consumer_unknown, Outcome, done, failed, panics, and_do,
  at_ptr, offset_in, in_flight, prepare_next_batch,
}
use locasta.Copyrpc.Endpoint.Sending.{flush, handle_wrap_if_needed}

pub record RemoteEndpointInfo : Type 0 where
  pub recv_ring_addr : ℕ
  pub recv_ring_rkey : ℕ
  pub recv_ring_size : ℕ
  pub initial_credit : ℕ

pub data CallError (U : Type 0) : Type 0 where
  ring_full : U → CallError U
  insufficient_credit : U → CallError U
  other : Error → CallError U

-- `map_err(CallError::Other)`
abbrev pub as_other : {T U A : Type 0} → T × Outcome Error A → T × Outcome (CallError U) A
as_other (e, done a) = (e, done a)
as_other (e, failed err) = (e, failed (other err))
as_other (e, panics) = (e, panics)

-- The credit that a call takes for its response: the padded message and a metadata.
unfoldable pub internal_allowance : ℕ → ℕ
internal_allowance response_allowance =
    let size = padded_message_size (response_allowance % 2 ^ 32) + flow_metadata_size in
    bit_and (size + 32 - 1) (not64 31)

unfoldable pub message_size : Bytes → ℕ
message_size payload = padded_message_size (length payload % 2 ^ 32)

module _ {S : Type 0} where
  unfoldable pub connect_ex : Endpoint S → RemoteEndpointInfo → Endpoint S
  connect_ex e remote = prepare_next_batch (record e {
    remote_recv_ring = some (record {
      addr = remote.recv_ring_addr;
      rkey = remote.recv_ring_rkey;
      size = remote.recv_ring_size;
    });
    resp_reservation = min e.max_resp_reservation (remote.recv_ring_size / 4);
    peer_credit_balance = remote.initial_credit;
  })

  -- A message at the producer's position: header, payload, and the positions moved on. Both
  -- callers then mark the endpoint dirty, which is `mark_endpoint_dirty` of Context.
  unfoldable pub write_message : Endpoint S → ℕ → ℕ → Bytes → Endpoint S
  write_message e call_id piggyback payload = record e {
    send_ring = at_ptr e.send_ring (offset_in (length e.send_ring) e.send_ring_producer) (λ buf.
        write_at (encode_header buf call_id piggyback (length payload % 2 ^ 32)) header_size
          payload);
    send_ring_producer = e.send_ring_producer + message_size payload;
    batch_message_count = e.batch_message_count + 1;
  }

  -- After the wrap: the reservation is given back, and the response written.
  unfoldable pub reply_in_cycle : Endpoint S → ℕ → ℕ → Bytes → Endpoint S
  reply_in_cycle e call_id response_allowance payload =
      write_message (record e { resp_reservation = e.resp_reservation - response_allowance })
        (to_response_id call_id) 0 payload

  unfoldable pub reply_to : Endpoint S → ℕ → ℕ → Bytes → Endpoint S × Outcome Error Unit
  reply_to e call_id response_allowance payload =
      and_do (handle_wrap_if_needed e (message_size payload))
        (λ e1 wrapped. (reply_in_cycle e1 call_id response_allowance payload, done tt))

  unfoldable pub reply : Endpoint S → ℕ → ℕ → Bytes → Endpoint S × Outcome Error Unit
  reply e call_id response_allowance payload = elim e.remote_recv_ring [
    | none ↦ (e, failed remote_consumer_unknown)
    | some r ↦ reply_to e call_id response_allowance payload
  ]

  module _ {U : Type 0} (insert : S → U → ℕ × S) where
    -- The call of a given allowance is entered in the table and written.
    unfoldable pub write_call : Endpoint S → U → Bytes → ℕ → Endpoint S × Outcome (CallError U) ℕ
    write_call e user_data payload allowance =
        let (key, slab) = insert e.pending_calls user_data in
        let call_id = key % 2 ^ 32 in
        (
          write_message
              (record e {
                pending_calls = slab;
                peer_credit_balance = e.peer_credit_balance - allowance;
              })
              call_id (allowance / 32 % 2 ^ 32) payload,
          done call_id,
        )

    -- After the wrap: is there room beside what is reserved for responses?
    unfoldable pub call_in_cycle :
        Endpoint S → RemoteRingInfo → U → Bytes → ℕ → Endpoint S × Outcome (CallError U) ℕ
    call_in_cycle e r user_data payload allowance =
        let available = r.size - in_flight e in
        if ltb available (message_size payload + 2 * e.resp_reservation)
        then and_do (as_other (flush e)) (λ e1 flushed. (e1, failed (ring_full user_data)))
        else write_call e user_data payload allowance

    unfoldable pub call_to :
        Endpoint S → RemoteRingInfo → U → Bytes → ℕ → Endpoint S × Outcome (CallError U) ℕ
    call_to e r user_data payload allowance =
        if ltb e.peer_credit_balance allowance
        then and_do (as_other (flush e))
            (λ e1 flushed. (e1, failed (insufficient_credit user_data)))
        else and_do (as_other (handle_wrap_if_needed e (message_size payload)))
            (λ e1 wrapped. call_in_cycle e1 r user_data payload allowance)

    unfoldable pub call : Endpoint S → U → Bytes → ℕ → Endpoint S × Outcome (CallError U) ℕ
    call e user_data payload response_allowance = elim e.remote_recv_ring [
      | none ↦ (e, failed (other remote_consumer_unknown))
      | some r ↦ call_to e r user_data payload (internal_allowance response_allowance)
    ]
