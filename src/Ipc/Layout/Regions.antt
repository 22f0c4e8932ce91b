-- ===== src/Ipc/Layout/Regions.antt =====
-- The parts of the memory of ipc/src/lib.rs do not overlap, and start at whole cache lines.
use Prim.Native.Nat.{bit_and}
use native.Mathlib.Nat.{mul-le-mul_right}
use locasta.Base.{ℕ, ◌+◌, ◌-◌, ◌*◌, ◌/◌, ◌%◌, ◌^◌, ◌≤◌, ◌<◌, ◌≡◌, ap, arith}
use locasta.Base.Bits.{bit_and_field}
use locasta.Ipc.Layout.{
  Sizes, align_up, per_client_block_size, total_shm_size, block_base, req_slot, resp_slot,
  extra_ptr,
}

-- What `align_up` gives for cache lines.
align_up_lem :
    (val : ℕ)
    → (align_up val 64 % 64 ≡ 0)
      × (val + 63 < 2 ^ 64 → (val ≤ align_up val 64) × (align_up val 64 < val + 64))
unfolding align_up
align_up_lem val =
    let kept = bit_and_field 6 58 ((val + 64 - 1) % 2 ^ 64) in
    let rounded : bit_and ((val + 64 - 1) % 2 ^ 64) (2 ^ 64 - 1 - (64 - 1))
        ≡ (val + 63) % 2 ^ 64 / 64 * 64 =
      omega (arith, kept) in
    (omega (arith, rounded), λ h. omega (arith, rounded))

-- A number of whole cache lines is one in any number.
multiple : (size n : ℕ) → size % 64 ≡ 0 → n * size % 64 ≡ 0
multiple size n h =
    omega (arith, ap (λ (t : ℕ). n * t) {x = size} {y = size / 64 * 64} (omega arith))

-- A block's size before it is rounded up.
abbrev pub unpadded_size : Sizes → ℕ
unpadded_size z =
    64 + z.req_slot_size * z.ring_depth + z.resp_slot_size * z.ring_depth + z.extra_buffer_size

-- If the header and all the clients' blocks, each rounded up by less than 64, do not overflow: the
-- blocks follow the header without overlap and end within the memory. In each, the flag, the slots
-- of the request ring, those of the response ring and the extra buffer follow each other in this
-- order, without overlap.
pub regions_disjoint :
    (z : Sizes) (max_clients i slot_idx : ℕ)
    → 64 + (unpadded_size z + 63) * max_clients < 2 ^ 64
    → i < max_clients
    → slot_idx < z.ring_depth
    → (64 ≤ block_base z i)
      × (block_base z i + 64 ≤ req_slot z i slot_idx)
      × (req_slot z i slot_idx + z.req_slot_size ≤ req_slot z i (slot_idx + 1))
      × (req_slot z i (slot_idx + 1) ≤ resp_slot z i 0)
      × (resp_slot z i slot_idx + z.resp_slot_size ≤ resp_slot z i (slot_idx + 1))
      × (resp_slot z i (slot_idx + 1) ≤ extra_ptr z i)
      × (extra_ptr z i + z.extra_buffer_size ≤ block_base z (i + 1))
      × (block_base z (i + 1) ≤ total_shm_size z max_clients)
unfolding per_client_block_size total_shm_size block_base req_slot resp_slot extra_ptr
regions_disjoint z max_clients i slot_idx fits h k =
    let size = unpadded_size z in
    let one = mul-le-mul_right {m = 1} {n = max_clients} (size + 63) (omega arith) in
    let whole : size % 2 ^ 64 ≡ size = omega (arith, one) in
    let block = align_up (size % 2 ^ 64) 64 in
    let (lo, hi) = (align_up_lem (size % 2 ^ 64)).1 (omega (arith, one)) in
    let all = mul-le-mul_right {m = block} {n = size + 63} max_clients (omega arith) in
    let blocks = mul-le-mul_right {m = i + 1} {n = max_clients} block (omega arith) in
    let reqs =
      mul-le-mul_right {m = slot_idx + 1} {n = z.ring_depth} z.req_slot_size (omega arith) in
    let resps =
      mul-le-mul_right {m = slot_idx + 1} {n = z.ring_depth} z.resp_slot_size (omega arith) in
    omega (arith, lo, hi, whole, one, all, blocks, reqs, resps)

-- Where the slot sizes are whole cache lines, as the alignment of `Slot` makes them, all slots and
-- extra buffers start at a multiple of 64 from the start of the memory, also where sizes overflow.
pub regions_aligned :
    (z : Sizes) (i slot_idx : ℕ)
    → z.req_slot_size % 64 ≡ 0
    → z.resp_slot_size % 64 ≡ 0
    → (block_base z i % 64 ≡ 0)
      × (req_slot z i slot_idx % 64 ≡ 0)
      × (resp_slot z i slot_idx % 64 ≡ 0)
      × (extra_ptr z i % 64 ≡ 0)
unfolding per_client_block_size total_shm_size block_base req_slot resp_slot extra_ptr
regions_aligned z i slot_idx h k =
    let size = unpadded_size z % 2 ^ 64 in
    let b = multiple (align_up size 64) i (align_up_lem size).0 in
    let r = multiple z.req_slot_size in
    let p = multiple z.resp_slot_size in
    omega (arith, b, r slot_idx h, r z.ring_depth h, p slot_idx k, p z.ring_depth k)
