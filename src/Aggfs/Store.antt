-- ===== src/Aggfs/Store.antt =====
-- aggfs/src/store.rs: chunks in a region of persistent memory. The region is the list of its
-- bytes, the hash tables are functions, a pointer is its offset in the region, and a failed
-- `assert!` or `expect` is `none`. Flushing to persistence changes no byte that a read sees. Sums
-- of offsets stay below 2 ^ 64, as the region does.
pub mod Chunks
pub mod Contents
mod Tests
use locasta.Base.{
  ℕ, ◌+◌, ◌-◌, Bool, true, Option, none, some, ltb, leb, ◌==◌, ◌&&◌, if◌then◌else◌, is_some,
  and_then, length, min, [],
}
use locasta.Base.Bytes.{Bytes, write_at, read_at}

pub record ChunkLocation : Type 0 where
  pub offset : ℕ
  pub valid_len : ℕ

pub record PmemStore : Type 0 where
  pub region : Bytes
  pub chunk_table : ℕ → ℕ → Option ChunkLocation
  pub next_offset : ℕ
  pub file_chunk_size : ℕ → Option ℕ
  pub max_chunk_capacity : ℕ

-- A table with one entry given anew.
abbrev pub put {ℓ} : {V : Type ℓ} → (ℕ → V) → ℕ → V → ℕ → V
put f k v j = if k == j then v else f j

abbrev pub put_chunk :
    (ℕ → ℕ → Option ChunkLocation) → ℕ → ℕ → Option ChunkLocation → ℕ → ℕ → Option ChunkLocation
put_chunk f h i c h' i' = if h == h' && i == i' then c else f h' i'

pub new : Bytes → ℕ → PmemStore
new region max_chunk_capacity = record {
  region = region;
  chunk_table = λ h i. none;
  next_offset = 0;
  file_chunk_size = λ h. none;
  max_chunk_capacity = max_chunk_capacity;
}

pub register_file : PmemStore → ℕ → ℕ → PmemStore
register_file s path_hash chunk_size = record s {
  file_chunk_size = put s.file_chunk_size path_hash (some chunk_size);
}

abbrev pub unwrap_or : Option ℕ → ℕ → ℕ
unwrap_or none d = d
unwrap_or (some n) d = n

pub effective_chunk_size : PmemStore → ℕ → ℕ
effective_chunk_size s path_hash = unwrap_or (s.file_chunk_size path_hash) s.max_chunk_capacity

-- The chunk that is allocated at the next free offset.
pub allocate : PmemStore → ℕ → ℕ → ℕ → PmemStore
allocate s path_hash chunk_idx capacity = record s {
  chunk_table =
      put_chunk s.chunk_table path_hash chunk_idx
        (some (record { offset = s.next_offset; valid_len = 0 }));
  next_offset = s.next_offset + capacity;
}

pub ensure_chunk : PmemStore → ℕ → ℕ → ℕ → Option PmemStore
ensure_chunk s path_hash chunk_idx capacity = elim (s.chunk_table path_hash chunk_idx) [
  | some c ↦ some s
  | none ↦
      if leb (s.next_offset + capacity) (length s.region)
      then some (allocate s path_hash chunk_idx capacity)
      else none
]

-- A chunk with `valid_len` grown to `end`.
pub grown : ChunkLocation → ℕ → ChunkLocation
grown c end = record c { valid_len = if ltb c.valid_len end then end else c.valid_len }

pub set_chunk : PmemStore → ℕ → ℕ → ChunkLocation → PmemStore
set_chunk s path_hash chunk_idx c = record s {
  chunk_table = put_chunk s.chunk_table path_hash chunk_idx (some c);
}

-- `none` is a chunk that is not there.
pub mark_valid : PmemStore → ℕ → ℕ → ℕ → Option PmemStore
mark_valid s path_hash chunk_idx end =
    and_then (s.chunk_table path_hash chunk_idx)
      λ c. some (set_chunk s path_hash chunk_idx (grown c end))

pub copy_in : PmemStore → ℕ → ℕ → ℕ → Bytes → Option PmemStore
copy_in s path_hash chunk_idx offset bytes =
    and_then (s.chunk_table path_hash chunk_idx)
      λ c. some (record s { region = write_at s.region (c.offset + offset) bytes })

pub write : PmemStore → ℕ → ℕ → ℕ → Bytes → Option PmemStore
write s path_hash chunk_idx offset bytes =
    let capacity = effective_chunk_size s path_hash in
    if leb (offset + length bytes) capacity
    then and_then (ensure_chunk s path_hash chunk_idx capacity) (λ s₁.
      and_then (mark_valid s₁ path_hash chunk_idx (offset + length bytes))
        (λ s₂. copy_in s₂ path_hash chunk_idx offset bytes))
    else none

-- What is copied to a buffer of `len` bytes from a chunk.
pub read_chunk : Bytes → ChunkLocation → ℕ → ℕ → Bytes
read_chunk region c offset len =
    if leb c.valid_len offset
    then []
    else read_at region (c.offset + offset) (min len (c.valid_len - offset))

-- Nothing is read of a chunk that is not there.
pub read_found : Bytes → Option ChunkLocation → ℕ → ℕ → Bytes
read_found region none offset len = []
read_found region (some c) offset len = read_chunk region c offset len

pub read : PmemStore → ℕ → ℕ → ℕ → ℕ → Bytes
read s path_hash chunk_idx offset len =
    read_found s.region (s.chunk_table path_hash chunk_idx) offset len

-- The store without the chunk, and whether the chunk was there.
pub remove : PmemStore → ℕ → ℕ → PmemStore × Bool
remove s path_hash chunk_idx = (
  record s {
    file_chunk_size =
        if chunk_idx == 0 then put s.file_chunk_size path_hash none else s.file_chunk_size;
    chunk_table = put_chunk s.chunk_table path_hash chunk_idx none;
  },
  is_some (s.chunk_table path_hash chunk_idx),
)

-- Where an RDMA read may put bytes, and how many.
pub prepare_write : PmemStore → ℕ → ℕ → ℕ → Option (PmemStore × ℕ × ℕ)
prepare_write s path_hash chunk_idx offset =
    let capacity = effective_chunk_size s path_hash in
    if leb offset capacity
    then and_then (ensure_chunk s path_hash chunk_idx capacity) (λ s'.
      and_then (s'.chunk_table path_hash chunk_idx)
        (λ c. some (s', c.offset + offset, capacity - offset)))
    else none

pub commit_write : PmemStore → ℕ → ℕ → ℕ → ℕ → Option PmemStore
commit_write s path_hash chunk_idx offset len = mark_valid s path_hash chunk_idx (offset + len)

-- The offset and length that may be read; a null pointer with length 0 is `some none`.
pub ptr_for_chunk_read : PmemStore → ℕ → ℕ → ℕ → Option (Option (ℕ × ℕ))
ptr_for_chunk_read s path_hash chunk_idx offset = and_then (s.chunk_table path_hash chunk_idx) λ c.
    if leb c.valid_len offset
    then some none
    else some (some (c.offset + offset, c.valid_len - offset))
