-- ===== src/Copyrpc/Encoding.antt =====
-- copyrpc/src/encoding.rs: immediate values, message headers and flow control metadata.
-- A buffer is the list of the bytes from the pointer on; a u32 and a u64 are numbers below 2 ^ 32
-- and 2 ^ 64. `debug_assert!` is not part of a release build and is left out.
pub mod Laws
mod Tests
use Prim.Native.Nat.{bit_and, bit_or}
use locasta.Base.{ℕ, ◌+◌, ◌-◌, ◌*◌, ◌/◌, ◌%◌, ◌^◌, Bool, not, List, [], ◌∷◌, ◌==◌, replicate}
use locasta.Base.Bytes.{Bytes, write_at, read_at, to_le, from_le}

abbrev pub alignment : ℕ
alignment = 32

-- `!x` on a u64 and on a u32
abbrev pub not64 : ℕ → ℕ
not64 x = 2 ^ 64 - 1 - x

abbrev pub not32 : ℕ → ℕ
not32 x = 2 ^ 32 - 1 - x

-- `(delta / ALIGNMENT) as u32`
unfoldable pub encode_imm : ℕ → ℕ
encode_imm delta = delta / alignment % 2 ^ 32

unfoldable pub decode_imm : ℕ → ℕ
decode_imm imm = imm * alignment % 2 ^ 64

abbrev pub header_size : ℕ
header_size = 12

abbrev pub response_flag : ℕ
response_flag = 0x8000_0000

abbrev pub wrap_message_count : ℕ
wrap_message_count = 2 ^ 32 - 1

abbrev pub flow_metadata_size : ℕ
flow_metadata_size = 32

-- `piggyback as u32` keeps the low half.
unfoldable pub encode_header : Bytes → ℕ → ℕ → ℕ → Bytes
encode_header buf call_id piggyback payload_len =
    write_at (write_at (write_at buf 0 (to_le 4 call_id)) 4 (to_le 4 (piggyback % 2 ^ 32))) 8
      (to_le 4 payload_len)

unfoldable pub decode_header : Bytes → ℕ × ℕ × ℕ
decode_header buf =
    (from_le (read_at buf 0 4), from_le (read_at buf 4 4), from_le (read_at buf 8 4))

unfoldable pub is_response : ℕ → Bool
is_response call_id = not (bit_and call_id response_flag == 0)

unfoldable pub to_response_id : ℕ → ℕ
to_response_id call_id = bit_or call_id response_flag

unfoldable pub from_response_id : ℕ → ℕ
from_response_id call_id = bit_and call_id (not32 response_flag)

-- The sum of a u32 and 43 does not reach 2 ^ 64.
unfoldable pub padded_message_size : ℕ → ℕ
padded_message_size payload_len =
    let total = header_size + payload_len in bit_and (total + alignment - 1) (not64 (alignment - 1))

unfoldable pub encode_flow_metadata : Bytes → ℕ → ℕ → ℕ → Bytes
encode_flow_metadata buf ring_credit_return credit_grant message_count =
    write_at
      (write_at (write_at (write_at buf 0 (to_le 8 ring_credit_return)) 8 (to_le 8 credit_grant)) 16
        (to_le 4 message_count))
      20 (replicate 12 0)

unfoldable pub decode_flow_metadata : Bytes → ℕ × ℕ × ℕ
decode_flow_metadata buf =
    (from_le (read_at buf 0 8), from_le (read_at buf 8 8), from_le (read_at buf 16 4))
