-- ===== src/Scalerpc/Protocol/Events/EndpointEntry.antt =====
-- `EndpointEntry` of scalerpc/src/protocol.rs: a client tells how many requests wait.
use locasta.Base.{ℕ, ◌+◌, ◌^◌, ◌≤◌, ◌<◌, ◌≡◌, ap, ◌∙◌, ◌++◌, arith, length}
use locasta.Base.Bytes.{
  Bytes, write_at, read_at, to_le, from_le, read-write_within, read-write_after, from_le-to_le,
}

pub record EndpointEntry : Type 0 where
  pub req_addr : ℕ
  pub batch_size : ℕ
  pub seq : ℕ

pub new : ℕ → ℕ → ℕ → EndpointEntry
new req_addr batch_size seq = record { req_addr = req_addr; batch_size = batch_size; seq = seq }

-- The bytes of the structure.
abbrev pub bytes : EndpointEntry → Bytes
bytes e = to_le 8 e.req_addr ++ to_le 4 e.batch_size ++ to_le 4 e.seq

pub write_to : EndpointEntry → Bytes → Bytes
write_to e dst = write_at dst 0 (bytes e)

pub read_from : Bytes → EndpointEntry
read_from src = record {
  req_addr = from_le (read_at src 0 8);
  batch_size = from_le (read_at src 8 4);
  seq = from_le (read_at src 12 4);
}

-- Every field fits its type.
pub record IsWellFormed (e : EndpointEntry) : Type 0 where
  pub req_addr_fits : e.req_addr < 2 ^ 64
  pub batch_size_fits : e.batch_size < 2 ^ 32
  pub seq_fits : e.seq < 2 ^ 32

-- A value whose fields fit their types is read back as it was written, from any memory that has
-- 16 bytes for it, and no byte after those 16 is touched.
pub entry_roundtrip :
    (e : EndpointEntry) (dst : Bytes)
    → IsWellFormed e
    → 16 ≤ length dst
    → (read_from (write_to e dst) ≡ e)
      × ((at n : ℕ) → 16 ≤ at → read_at (write_to e dst) at n ≡ read_at dst at n)
unfolding read_from write_to
entry_roundtrip e dst v len = (
  (λ i. record {
    req_addr = (word 0 8 (omega arith) ∙ from_le-to_le 8 e.req_addr v.req_addr_fits) i;
    batch_size = (word 8 4 (omega arith) ∙ from_le-to_le 4 e.batch_size v.batch_size_fits) i;
    seq = (word 12 4 (omega arith) ∙ from_le-to_le 4 e.seq v.seq_fits) i;
  }),
  λ at n k. read-write_after dst 0 (bytes e) at n k,
)
  where
    word :
        (at n : ℕ)
        → at + n ≤ 16
        → from_le (read_at (write_at dst 0 (bytes e)) at n) ≡ from_le (read_at (bytes e) at n)
    word at n k = ap from_le (read-write_within dst (bytes e) at n len k)
