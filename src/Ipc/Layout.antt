-- ===== src/Ipc/Layout.antt =====
-- Where ipc/src/lib.rs puts the header, the clients' flags, their rings and their extra buffers.
pub mod Regions
use Prim.Native.Nat.{bit_and}
use locasta.Base.{
  ℕ, suc, ◌+◌, ◌-◌, ◌*◌, ◌/◌, ◌%◌, ◌^◌, ◌≤◌, ◌<◌, ◌≡◌, refl, sym, ap, ◌∙◌, Option, none, some,
  arith, ◌==◌, leb, ◌||◌, if◌then◌else◌,
}

abbrev pub header_size : ℕ
header_size = 64

abbrev pub cache_line_size : ℕ
cache_line_size = 64

-- `!(align - 1)` is the complement in 64 bits.
unfoldable pub align_up : ℕ → ℕ → ℕ
align_up val align = bit_and ((val + align - 1) % 2 ^ 64) (2 ^ 64 - 1 - (align - 1))

-- The arguments of the layout functions: slot sizes, ring depth and size of the extra buffer.
pub record Sizes : Type 0 where
  pub req_slot_size : ℕ
  pub resp_slot_size : ℕ
  pub ring_depth : ℕ
  pub extra_buffer_size : ℕ

unfoldable pub per_client_block_size : Sizes → ℕ
per_client_block_size z =
    align_up
      ((cache_line_size
          + z.req_slot_size * z.ring_depth
          + z.resp_slot_size * z.ring_depth
          + z.extra_buffer_size)
        % 2 ^ 64)
      cache_line_size

unfoldable pub total_shm_size : Sizes → ℕ → ℕ
total_shm_size z max_clients = (header_size + per_client_block_size z * max_clients) % 2 ^ 64

-- The offsets that `create` and `connect` compute for a client, as usize; `add` on a pointer does
-- not wrap.
unfoldable pub block_base : Sizes → ℕ → ℕ
block_base z i = (header_size + i * per_client_block_size z) % 2 ^ 64

unfoldable pub req_slot : Sizes → ℕ → ℕ → ℕ
req_slot z i slot_idx = block_base z i + cache_line_size + slot_idx * z.req_slot_size % 2 ^ 64

unfoldable pub resp_slot : Sizes → ℕ → ℕ → ℕ
resp_slot z i slot_idx =
    block_base z i
    + (cache_line_size + z.ring_depth * z.req_slot_size) % 2 ^ 64
    + slot_idx * z.resp_slot_size % 2 ^ 64

unfoldable pub extra_ptr : Sizes → ℕ → ℕ
extra_ptr z i =
    block_base z i
    + (cache_line_size + z.req_slot_size * z.ring_depth + z.resp_slot_size * z.ring_depth) % 2 ^ 64

-- `client_extra_buffer` of the server
unfoldable pub client_extra_buffer : Sizes → ℕ → ℕ → Option ℕ
client_extra_buffer z max_clients id =
    if z.extra_buffer_size == 0 || leb max_clients id then none else some (extra_ptr z id)
