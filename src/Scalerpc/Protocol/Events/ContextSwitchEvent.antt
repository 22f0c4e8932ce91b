-- ===== src/Scalerpc/Protocol/Events/ContextSwitchEvent.antt =====
-- `ContextSwitchEvent` of scalerpc/src/protocol.rs: a server tells that a group was switched out.
use locasta.Base.{ℕ, ◌+◌, ◌^◌, ◌≤◌, ◌<◌, ◌≡◌, ap, ◌∙◌, Bool, ◌++◌, ◌==◌, arith, length}
use locasta.Base.Bytes.{
  Bytes, write_at, read_at, to_le, from_le, read-write_within, read-write_after, from_le-to_le,
}

abbrev pub magic_number : ℕ
magic_number = 0xC5E7_C5E7

pub record ContextSwitchEvent : Type 0 where
  pub magic : ℕ
  pub fetched_seq : ℕ
  pub sequence : ℕ

pub new : ℕ → ℕ → ContextSwitchEvent
new sequence fetched_seq = record {
  magic = magic_number;
  fetched_seq = fetched_seq;
  sequence = sequence;
}

pub is_valid : ContextSwitchEvent → Bool
is_valid e = e.magic == magic_number

-- The bytes of the structure.
abbrev pub bytes : ContextSwitchEvent → Bytes
bytes e = to_le 4 e.magic ++ to_le 4 e.fetched_seq ++ to_le 8 e.sequence

pub write_to : ContextSwitchEvent → Bytes → Bytes
write_to e dst = write_at dst 0 (bytes e)

pub read_from : Bytes → ContextSwitchEvent
read_from src = record {
  magic = from_le (read_at src 0 4);
  fetched_seq = from_le (read_at src 4 4);
  sequence = from_le (read_at src 8 8);
}

-- Every field fits its type.
pub record IsWellFormed (e : ContextSwitchEvent) : Type 0 where
  pub magic_fits : e.magic < 2 ^ 32
  pub fetched_seq_fits : e.fetched_seq < 2 ^ 32
  pub sequence_fits : e.sequence < 2 ^ 64

-- A value whose fields fit their types is read back as it was written, from any memory that has
-- 16 bytes for it, and no byte after those 16 is touched.
pub event_roundtrip :
    (e : ContextSwitchEvent) (dst : Bytes)
    → IsWellFormed e
    → 16 ≤ length dst
    → (read_from (write_to e dst) ≡ e)
      × ((at n : ℕ) → 16 ≤ at → read_at (write_to e dst) at n ≡ read_at dst at n)
unfolding read_from write_to
event_roundtrip e dst v len = (
  (λ i. record {
    magic = (word 0 4 (omega arith) ∙ from_le-to_le 4 e.magic v.magic_fits) i;
    fetched_seq = (word 4 4 (omega arith) ∙ from_le-to_le 4 e.fetched_seq v.fetched_seq_fits) i;
    sequence = (word 8 8 (omega arith) ∙ from_le-to_le 8 e.sequence v.sequence_fits) i;
  }),
  λ at n k. read-write_after dst 0 (bytes e) at n k,
)
  where
    word :
        (at n : ℕ)
        → at + n ≤ 16
        → from_le (read_at (write_at dst 0 (bytes e)) at n) ≡ from_le (read_at (bytes e) at n)
    word at n k = ap from_le (read-write_within dst (bytes e) at n len k)
