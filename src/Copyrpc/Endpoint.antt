-- ===== src/Copyrpc/Endpoint.antt =====
-- copyrpc/src/rc.rs: one end of a connection. `Endpoint` is `EndpointInner` with what it asks of
-- the queue pair: the work queue entries posted so far, and how many more the send queue takes
-- before it refuses one. Positions are virtual u64 numbers that only grow; a difference of
-- positions is taken where the first is not below the second, so plain numbers give the source's
-- results below 2 ^ 64. The type of the table of pending calls, `Slab` of the package `slab`, is
-- a parameter. The bytes that an entry's SGE names are read from the ring when it is sent.
pub mod Sending
pub mod Calls
pub mod Receiving
pub mod Credit
pub mod Batches
pub mod Wrapping
pub mod Reservation
pub mod Failing
pub mod Exchange
pub mod Connecting
pub mod Marking
pub mod Skipping
pub mod Calling
pub mod Delivery
pub mod Contents
pub mod Transfer
mod Tests
use Prim.Native.Nat.{bit_and}
use locasta.Base.{
  ℕ, ◌+◌, ◌-◌, ◌*◌, ◌/◌, ◌%◌, ◌^◌, Bool, true, false, Option, none, some, List, [], ◌∷◌, ◌++◌, ltb,
  leb, ◌==◌, if◌then◌else◌, length, take, drop, replicate, min,
}
use locasta.Base.Bytes.{Bytes, read_at}
use locasta.Copyrpc.Encoding.{not64, encode_imm}

pub record RemoteRingInfo : Type 0 where
  pub addr : ℕ
  pub rkey : ℕ
  pub size : ℕ

-- An RDMA write with immediate value: the inlined bytes, and the offset in the send ring and
-- length of the SGE where there is one.
pub record Wqe : Type 0 where
  pub remote_addr : ℕ
  pub rkey : ℕ
  pub imm : ℕ
  pub inline_data : Bytes
  pub sge : Option (ℕ × ℕ)
  pub signaled : Bool

pub record Endpoint (S : Type 0) : Type 0 where
  pub send_ring : Bytes
  pub recv_ring : Bytes
  pub remote_recv_ring : Option RemoteRingInfo
  pub send_ring_producer : ℕ
  pub recv_ring_producer : ℕ
  pub last_recv_pos : ℕ
  pub last_notified_recv_pos : ℕ
  pub remote_consumer_pos : ℕ
  pub unsignaled_count : ℕ
  pub pending_calls : S
  pub flush_start_pos : ℕ
  pub resp_reservation : ℕ
  pub max_resp_reservation : ℕ
  pub peer_credit_balance : ℕ
  pub meta_pos : ℕ
  pub batch_message_count : ℕ
  pub needs_doorbell : Bool
  pub is_dirty : Bool
  pub posted : List Wqe
  pub sq_room : ℕ

pub data Error : Type 0 where
  io : Error
  ring_full : Error
  remote_consumer_unknown : Error
  call_id_not_found : ℕ → Error
  invalid_header : Error
  endpoint_not_found : ℕ → Error

-- How a method ends. `panics` is a slice out of bounds.
pub data Outcome (E A : Type 0) : Type 0 where
  done : A → Outcome E A
  failed : E → Outcome E A
  panics : Outcome E A

-- `?`: the rest of a method where the first part succeeds.
abbrev pub and_do :
    {T E A B : Type 0} → T × Outcome E A → (T → A → T × Outcome E B) → T × Outcome E B
and_do (e, done a) k = k e a
and_do (e, failed err) k = (e, failed err)
and_do (e, panics) k = (e, panics)

-- A write through a pointer into a buffer.
abbrev pub at_ptr : Bytes → ℕ → (Bytes → Bytes) → Bytes
at_ptr ring offset f = take offset ring ++ f (drop offset ring)

-- The offset of a position in a ring.
unfoldable pub offset_in : ℕ → ℕ → ℕ
offset_in size pos = bit_and pos (size - 1)

-- `x & !(ALIGNMENT - 1)`
unfoldable pub align_down : ℕ → ℕ
align_down x = bit_and x (not64 31)

abbrev pub signal_interval : ℕ
signal_interval = 64

abbrev pub max_inline_only : ℕ
max_inline_only = 220

abbrev pub max_inline_hybrid : ℕ
max_inline_hybrid = 204

-- How many bytes are sliced from the send ring for the entry.
abbrev pub sliced : ℕ → ℕ
sliced delta = if leb delta max_inline_only then delta else max_inline_hybrid

module _ {S : Type 0} where
  -- `EndpointInner::new` on rings of sizes that are rounded up already.
  unfoldable pub new : S → ℕ → ℕ → ℕ → ℕ → Endpoint S
  new slab send_ring_size recv_ring_size max_resp_reservation sq_room = record {
    send_ring = replicate send_ring_size 0;
    recv_ring = replicate recv_ring_size 0;
    remote_recv_ring = none;
    send_ring_producer = 0;
    recv_ring_producer = 0;
    last_recv_pos = 0;
    last_notified_recv_pos = 0;
    remote_consumer_pos = 0;
    unsignaled_count = 0;
    pending_calls = slab;
    flush_start_pos = 0;
    resp_reservation = 0;
    max_resp_reservation = min max_resp_reservation (send_ring_size / 4);
    peer_credit_balance = 0;
    meta_pos = 0;
    batch_message_count = 0;
    needs_doorbell = false;
    is_dirty = false;
    posted = [];
    sq_room = sq_room;
  }

  -- `producer.saturating_sub(consumer)`
  unfoldable pub in_flight : Endpoint S → ℕ
  in_flight e = e.send_ring_producer - e.remote_consumer_pos

  -- The grant to a peer whose ring has the given size.
  unfoldable pub grant_within : Endpoint S → ℕ → ℕ
  grant_within e size = align_down (
      min ((size - in_flight e) / 2 - e.resp_reservation)
        (e.max_resp_reservation - e.resp_reservation))

  pub compute_credit_grant : Endpoint S → ℕ
  compute_credit_grant e = elim e.remote_recv_ring [ none ↦ 0 | some r ↦ grant_within e r.size ]

  -- The offset in the remote ring and the entry for the bytes from `flush_start_pos` on.
  pub batch_wqe : Endpoint S → RemoteRingInfo → Wqe
  batch_wqe e r =
      let start = offset_in (length e.send_ring) e.flush_start_pos in
      let delta = e.send_ring_producer - e.flush_start_pos in
      record {
        remote_addr = r.addr + offset_in r.size e.flush_start_pos;
        rkey = r.rkey;
        imm = encode_imm delta;
        inline_data =
            read_at e.send_ring start
              (if leb delta max_inline_only then delta else max_inline_hybrid);
        sge =
            if leb delta max_inline_only
            then none
            else some (start + max_inline_hybrid, (delta - max_inline_hybrid) % 2 ^ 32);
        signaled = leb signal_interval e.unsignaled_count;
      }

  -- The endpoint after an entry was taken by the send queue.
  pub post : Endpoint S → Wqe → Endpoint S
  post e w = record e {
    unsignaled_count = if w.signaled then 0 else e.unsignaled_count + 1;
    flush_start_pos = e.send_ring_producer;
    needs_doorbell = true;
    posted = e.posted ++ w ∷ [];
    sq_room = e.sq_room - 1;
  }

  pub emit_to : Endpoint S → RemoteRingInfo → Endpoint S × Outcome Error Bool
  emit_to e r =
      let delta = e.send_ring_producer - e.flush_start_pos in
      if e.flush_start_pos == e.send_ring_producer
      then (e, done false)
      else if ltb (length e.send_ring)
          (offset_in (length e.send_ring) e.flush_start_pos + sliced delta)
      then (e, panics)
      else if e.sq_room == 0
      then (e, failed io)
      else (post e (batch_wqe e r), done true)

  pub emit_raw : Endpoint S → Endpoint S × Outcome Error Bool
  emit_raw e = elim e.remote_recv_ring [
    | none ↦ (e, failed remote_consumer_unknown)
    | some r ↦ emit_to e r
  ]

  unfoldable pub prepare_next_batch : Endpoint S → Endpoint S
  prepare_next_batch e = record e {
    meta_pos = e.send_ring_producer;
    batch_message_count = 0;
    send_ring_producer = e.send_ring_producer + 32;
  }
