-- ===== src/Copyrpc/Ring.antt =====
-- copyrpc/src/ring.rs: the ring buffer between one producer and one consumer. Positions are
-- virtual u64 numbers that only grow, and an offset is a position modulo the size. u64 arithmetic
-- wraps, as in a release build. The buffer's address is not modelled.
pub mod Positions
pub mod Writes
mod Tests
use Prim.Native.Nat.{bit_and}
use locasta.Base.{
  ℕ, zero, suc, ◌+◌, ◌-◌, ◌*◌, ◌%◌, ◌^◌, Bool, Option, none, some, ltb, leb, if◌then◌else◌, length,
  take, drop, replicate,
}
use locasta.Base.Bytes.{Bytes, write_at, read_at}
use locasta.Copyrpc.Encoding.{padded_message_size}

abbrev pub add64 : ℕ → ℕ → ℕ
add64 a b = (a + b) % 2 ^ 64

abbrev pub sub64 : ℕ → ℕ → ℕ
sub64 a b = (a + 2 ^ 64 - b) % 2 ^ 64

pub record RingBufferState : Type 0 where
  pub producer : ℕ
  pub consumer : ℕ
  pub size : ℕ

pub new_state : ℕ → RingBufferState
new_state size = record { producer = 0; consumer = 0; size = size }

pub available_write : RingBufferState → ℕ
available_write s = sub64 s.size (sub64 s.producer s.consumer)

pub available_read : RingBufferState → ℕ
available_read s = sub64 s.producer s.consumer

pub can_write : RingBufferState → ℕ → Bool
can_write s n = leb n (available_write s)

pub advance_producer : RingBufferState → ℕ → RingBufferState
advance_producer s delta = record s { producer = add64 s.producer delta }

pub advance_consumer : RingBufferState → ℕ → RingBufferState
advance_consumer s delta = record s { consumer = add64 s.consumer delta }

-- The position that the peer reports with its messages.
pub update_consumer : RingBufferState → ℕ → RingBufferState
update_consumer s new_consumer =
    if ltb s.consumer new_consumer then record s { consumer = new_consumer } else s

pub to_offset : RingBufferState → ℕ → ℕ
to_offset s pos = bit_and pos (sub64 s.size 1)

-- The offset of the next write, and whether it would run over the end.
pub check_wrap : RingBufferState → ℕ → ℕ × Bool
check_wrap s n = let start = to_offset s s.producer in (start, ltb s.size (start + n))

pub record RingBuffer : Type 0 where
  pub buf : Bytes
  pub state : RingBufferState

-- `usize::next_power_of_two`, for what fits: 64 doublings reach 2 ^ 64.
unfoldable pub double_until : ℕ → ℕ → ℕ → ℕ
double_until zero n p = p
double_until (suc fuel) n p = let rest = double_until fuel n (p * 2) in if leb n p then p else rest

unfoldable pub next_power_of_two : ℕ → ℕ
next_power_of_two n = double_until 64 n 1

pub new : ℕ → RingBuffer
new n = let size = next_power_of_two n in record { buf = replicate size 0; state = new_state size }

pub can_write_payload : RingBuffer → ℕ → Bool
can_write_payload r payload_len = can_write r.state (padded_message_size payload_len)

-- `&buf[offset..offset + len]`; `none` is the panic of a slice out of range.
pub slice_at : RingBuffer → ℕ → ℕ → Option Bytes
slice_at r pos len =
    let offset = to_offset r.state pos in
    if leb (offset + len) (length r.buf) then some (read_at r.buf offset len) else none

-- The buffer with the bytes in it from the producer's position on, split at the end, and that
-- position. `none` is the panic of the second copy, where the rest is longer than the buffer.
pub write : RingBuffer → Bytes → Option (RingBuffer × ℕ)
write r bytes =
    let pos = r.state.producer in
    let offset = to_offset r.state pos in
    if leb (offset + length bytes) (length r.buf)
    then some (record r { buf = write_at r.buf offset bytes }, pos)
    else let first_len = length r.buf - offset in
      if leb (length bytes - first_len) (length r.buf)
      then some (
        record r {
          buf = write_at (write_at r.buf offset (take first_len bytes)) 0 (drop first_len bytes);
        },
        pos,
      )
      else none

-- Where RDMA writes go.
pub record RemoteRingInfo : Type 0 where
  pub addr : ℕ
  pub rkey : ℕ
  pub size : ℕ

pub remote_addr : RemoteRingInfo → ℕ → ℕ
remote_addr r pos = add64 r.addr (bit_and pos (sub64 r.size 1))
