-- ===== src/Copyrpc/Endpoint/Tests.antt =====
-- Runs of an endpoint on a ring of 256 bytes, and instances of the theorems.
use locasta.Base.{
  ℕ, ◌+◌, ◌-◌, ◌*◌, ◌/◌, ◌%◌, ◌^◌, ◌≤◌, ◌<◌, ◌≡◌, ◌⊎◌, refl, arith, Option, List, [], ◌∷◌, ◌++◌,
  length, get_elem?, min, false, if◌then◌else◌, ◌==◌, ◌∙◌, ap, replicate,
}
use locasta.Base.Bytes.{Bytes}
use locasta.Copyrpc.Encoding.{padded_message_size, encode_flow_metadata}
use locasta.Copyrpc.Endpoint.{
  Endpoint, RemoteRingInfo, io, Outcome, done, failed, in_flight, new, compute_credit_grant,
  prepare_next_batch, offset_in, grant_within, align_down, emit_raw, emit_to, post, batch_wqe,
}
use locasta.Copyrpc.Endpoint.Sending.{
  flush, has_pending_send, fill_metadata, write_metadata, ring_doorbell, handle_wrap_if_needed,
  fits_cycle, close_batch, emit_wrap, set_producer, emit_wqe,
}
use locasta.Copyrpc.Endpoint.Calls.{
  RemoteEndpointInfo, CallError, connect_ex, message_size, write_message, reply, call,
  internal_allowance, ring_full, call_to, call_in_cycle,
}
use locasta.Copyrpc.Endpoint.Receiving.{Received, process_cqe}
use locasta.Copyrpc.Endpoint.Credit.{compute_credit_grant_lem}
use locasta.Copyrpc.Endpoint.Batches.{IsBatched, length-write_metadata}
use locasta.Copyrpc.Endpoint.Wrapping.{ready, emit_wrap-wrapped, wrapped-IsBatched}
use locasta.Copyrpc.Endpoint.Reservation.{HasCredit}
use locasta.Copyrpc.Endpoint.Exchange.{
  flush-HasCredit, reply-HasCredit, write_message-IsBatched, write_message-HasCredit,
}
use locasta.Copyrpc.Endpoint.Connecting.{ring_of, connect_ex-HasCredit}
use locasta.Copyrpc.Endpoint.Calling.{CallEnds, call-HasCredit}
use locasta.Copyrpc.Endpoint.Marking.{process_cqe-emit_wrap}
use locasta.Copyrpc.Endpoint.Failing.{flush-io}
use locasta.Copyrpc.Endpoint.Delivery.{Message, Contains, deliver_all}
use locasta.Copyrpc.Endpoint.Contents.{HoldsBatch, write_message-HoldsBatch}
use locasta.Copyrpc.Endpoint.Transfer.{IsSent, process_cqe-deliver_all}

abbrev remote : RemoteEndpointInfo
remote = record {
  recv_ring_addr = 4096;
  recv_ring_rkey = 7;
  recv_ring_size = 256;
  initial_credit = 64;
}

abbrev at_remote : RemoteRingInfo
at_remote = ring_of remote

-- A table of pending calls that never reuses a key.
abbrev insert : List ℕ → ℕ → ℕ × List ℕ
insert calls user_data = (length calls, calls ++ user_data ∷ [])

abbrev try_remove : List ℕ → ℕ → Option ℕ × List ℕ
try_remove calls key = (get_elem? calls key, calls)

-- A connected endpoint, with room for so many entries in the send queue.
abbrev connected : ℕ → Endpoint (List ℕ)
connected room = connect_ex (new [] 256 256 64 room) remote

connected-IsBatched : (room : ℕ) → IsBatched 8 at_remote (connected room)
connected-IsBatched room =
    (connect_ex-HasCredit [] 8 256 64 room remote refl (omega arith) (omega arith)).0

connected-HasCredit : (room : ℕ) → HasCredit at_remote (connected room)
connected-HasCredit room =
    (connect_ex-HasCredit [] 8 256 64 room remote refl (omega arith) (omega arith)).1

abbrev payload : Bytes
payload = 1 ∷ 2 ∷ 3 ∷ []

-- The endpoint with one request in its batch.
abbrev loaded : ℕ → Endpoint (List ℕ)
loaded room = write_message (connected room) 0 2 payload

loaded-IsBatched : (room : ℕ) → IsBatched 8 at_remote (loaded room)
unfolding message_size padded_message_size connect_ex new prepare_next_batch
loaded-IsBatched room =
    write_message-IsBatched 8 at_remote (connected room) (connected-IsBatched room) 0 2 payload
      (omega arith)

loaded-HasCredit : (room : ℕ) → HasCredit at_remote (loaded room)
unfolding message_size padded_message_size in_flight connect_ex new prepare_next_batch
loaded-HasCredit room =
    write_message-HasCredit 8 at_remote (connected room) 0 2 payload (omega arith)

connect_ex-HasCredit_example :
    IsBatched 8 at_remote (connected 4) × HasCredit at_remote (connected 4)
connect_ex-HasCredit_example =
    connect_ex-HasCredit [] 8 256 64 4 remote refl (omega arith) (omega arith)

payload_size : message_size payload ≡ 32
unfolding message_size padded_message_size
payload_size = refl

compute_credit_grant_lem_example :
    let grant = compute_credit_grant (loaded 4) in
    (grant % 32 ≡ 0)
    × ((grant ≡ 0)
        ⊎ ((in_flight (loaded 4) + 2 * ((loaded 4).resp_reservation + grant) ≤ 256)
            × ((loaded 4).resp_reservation + grant ≤ (loaded 4).max_resp_reservation)))
    × (min ((256 - in_flight (loaded 4)) / 2) (loaded 4).max_resp_reservation
        < (loaded 4).resp_reservation + grant + 32)
compute_credit_grant_lem_example =
    compute_credit_grant_lem (loaded 4) at_remote (loaded-IsBatched 4).connected (omega arith)

loaded_room : (n : ℕ) → (loaded n).sq_room ≡ n
unfolding connect_ex new write_message prepare_next_batch
loaded_room n = refl

flush-HasCredit_example :
    (d : Endpoint (List ℕ)) × (flush (loaded 4) ≡ (d, done tt))
    × IsBatched 8 at_remote d
    × HasCredit at_remote d
    × (has_pending_send d ≡ false)
flush-HasCredit_example =
    flush-HasCredit 8 at_remote (loaded 4) (loaded-IsBatched 4) (loaded-HasCredit 4)
      (omega (arith, loaded_room 4))

reply-HasCredit_example :
    (d : Endpoint (List ℕ)) × (reply (connected 4) 5 64 payload ≡ (d, done tt))
    × IsBatched 8 at_remote d
    × HasCredit at_remote d
    × (d.resp_reservation + 64
        ≡ (ready 8 at_remote (connected 4) (message_size payload)).resp_reservation)
unfolding connect_ex new prepare_next_batch
reply-HasCredit_example =
    reply-HasCredit 8 at_remote (connected 4) 5 64 payload (connected-IsBatched 4)
      (connected-HasCredit 4) (omega arith) (omega (arith, payload_size)) (omega arith)

call-HasCredit_example :
    (d : Endpoint (List ℕ)) × (o : Outcome (CallError ℕ) ℕ) × (call insert (loaded 4) 9 payload 10
      ≡ (d, o))
    × IsBatched 8 at_remote d
    × CallEnds insert 8 at_remote (loaded 4) 9 payload (internal_allowance 10) d o
call-HasCredit_example =
    call-HasCredit insert 8 at_remote (loaded 4) 9 payload 10 (loaded-IsBatched 4)
      (loaded-HasCredit 4) (omega (arith, loaded_room 4)) (omega (arith, payload_size))
      (omega arith)

flush-io_example :
    (d : Endpoint (List ℕ)) × (flush (loaded 0) ≡ (d, failed io))
    × IsBatched 8 at_remote d
    × (d.posted ≡ (loaded 0).posted)
    × (d.batch_message_count ≡ (loaded 0).batch_message_count)
    × (d.last_notified_recv_pos ≡ d.last_recv_pos)
    × (d.resp_reservation ≡ (loaded 0).resp_reservation + compute_credit_grant (loaded 0))
unfolding write_message
flush-io_example =
    flush-io 8 at_remote (loaded 0) (loaded-IsBatched 0) (omega arith) (loaded_room 0)

-- The peer, whose receive ring got a wrap mark.
abbrev at_mark : Endpoint (List ℕ)
at_mark = record (connected 4) { recv_ring = (emit_wrap (connected 4)).0.send_ring }

abbrev nothing : Received ℕ
nothing = record { responses = []; recv_stack = [] }

wrapped_ring : length at_mark.recv_ring ≡ 2 ^ 8
unfolding connect_ex prepare_next_batch new
wrapped_ring =
    ap (λ p. length p.0.send_ring)
      (emit_wrap-wrapped 8 at_remote (connected 4) (connected-IsBatched 4) (omega arith))
    ∙ (wrapped-IsBatched 8 at_remote (connected 4) (connected-IsBatched 4)).ring

process_cqe-emit_wrap_example :
    let g = (emit_wrap (connected 4)).0 in
    ((emit_wrap (connected 4)).1 ≡ done tt)
    × ((d : Endpoint (List ℕ)) × (process_cqe try_remove 3 (at_mark, nothing) 1
          ≡ ((d, nothing), done tt))
        × (d.last_recv_pos
            ≡ g.meta_pos + (if (connected 4).meta_pos % 2 ^ 8 + 32 == 2 ^ 8 then 2 ^ 8 else 0))
        × (d.remote_consumer_pos
            ≡ at_mark.remote_consumer_pos
              + ((connected 4).last_recv_pos - (connected 4).last_notified_recv_pos))
        × (d.peer_credit_balance + (connected 4).resp_reservation
            ≡ at_mark.peer_credit_balance + g.resp_reservation))
unfolding connect_ex new prepare_next_batch set_producer compute_credit_grant grant_within
    align_down in_flight
process_cqe-emit_wrap_example =
    process_cqe-emit_wrap try_remove 3 8 at_remote (connected 4) at_mark nothing 1
      (connected-IsBatched 4) (omega arith) wrapped_ring refl refl refl (omega arith) (omega arith)

abbrev request : Message
request = record { call_id = 0; piggyback = 2; payload = payload }

connected-HoldsBatch : HoldsBatch 8 (connected 4) []
unfolding Contains connect_ex new prepare_next_batch
connected-HoldsBatch = record { count = refl; producer = refl; contents = tt }

-- The peer, whose receive ring got the batch.
abbrev receiver : Endpoint (List ℕ)
receiver = record (connected 4) { recv_ring = (fill_metadata (loaded 4)).send_ring }

receiver_size : length receiver.recv_ring ≡ 2 ^ 8
unfolding fill_metadata
receiver_size =
    length-write_metadata 8 at_remote (loaded 4) (loaded 4).batch_message_count
    ∙ (loaded-IsBatched 4).ring

loaded-HoldsBatch : HoldsBatch 8 (loaded 4) (request ∷ [])
unfolding connect_ex new prepare_next_batch
loaded-HoldsBatch =
    write_message-HoldsBatch 8 (connected 4) [] request connected-HoldsBatch refl
      (omega (arith, payload_size)) (omega arith) (omega arith) (omega arith)

loaded-IsSent : IsSent 8 (loaded 4) (request ∷ []) receiver
unfolding connect_ex new prepare_next_batch message_size padded_message_size fill_metadata
    write_metadata write_message compute_credit_grant grant_within align_down in_flight
loaded-IsSent = record {
  holds = loaded-HoldsBatch;
  send_size = (loaded-IsBatched 4).ring;
  recv_size = receiver_size;
  in_cycle = omega arith;
  in_step = refl;
  arrived = refl;
  small_return = omega arith;
  small_grant = omega arith;
  small_count = omega arith;
}

process_cqe-deliver_all_example :
    let st =
      deliver_all try_remove 3
        (receiver.pending_calls, nothing)
        ((loaded 4).meta_pos % 2 ^ 8 + 32)
        (request ∷ []) in
    (d : Endpoint (List ℕ)) × (process_cqe try_remove 3 (receiver, nothing) 2
      ≡ ((d, st.1), done tt))
    × (d.pending_calls ≡ st.0)
    × (d.last_recv_pos ≡ (loaded 4).send_ring_producer)
    × (d.remote_consumer_pos
        ≡ receiver.remote_consumer_pos
          + ((loaded 4).last_recv_pos - (loaded 4).last_notified_recv_pos))
    × (d.peer_credit_balance ≡ receiver.peer_credit_balance + compute_credit_grant (loaded 4))
process_cqe-deliver_all_example =
    process_cqe-deliver_all try_remove 3 8 (loaded 4) (request ∷ []) receiver nothing 2
      loaded-IsSent

-- A call that finds no room after it has wrapped: 288 bytes of a ring of 256 are in flight then.
abbrev crowded : Endpoint (List ℕ)
crowded = record (connected 4) { flush_start_pos = 128; meta_pos = 128; send_ring_producer = 160 }

crowded-HasCredit : HasCredit at_remote crowded
unfolding HasCredit in_flight connect_ex new prepare_next_batch
crowded-HasCredit = omega arith

overrun :
    ((call insert crowded 9 (replicate 84 1) 10).1 ≡ failed (ring_full 9))
    × (in_flight (call insert crowded 9 (replicate 84 1) 10).0 ≡ 288)
unfolding in_flight connect_ex new prepare_next_batch call call_to call_in_cycle internal_allowance
    message_size padded_message_size handle_wrap_if_needed fits_cycle offset_in close_batch
    emit_wrap set_producer write_metadata emit_raw emit_to post batch_wqe flush emit_wqe
    compute_credit_grant grant_within align_down encode_flow_metadata ring_doorbell
overrun = (refl, refl)
