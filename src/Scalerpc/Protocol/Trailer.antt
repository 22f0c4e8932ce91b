-- ===== src/Scalerpc/Protocol/Trailer.antt =====
-- `MessageTrailer` of scalerpc/src/protocol.rs: the length and the flag at the end of a block.
use locasta.Base.{
  ℕ, ◌+◌, ◌-◌, ◌%◌, ◌^◌, ◌≤◌, ◌<◌, ◌≡◌, ap, ◌∙◌, Bool, not, ◌==◌, arith, length, ◌⊎◌, inl, inr,
}
use locasta.Base.Bytes.{
  Bytes, write_at, read_at, to_le, from_le, read-write_self, read-write_before, read-write_after,
  from_le-to_le, length-write_at,
}

abbrev pub message_valid : ℕ
message_valid = 1

abbrev pub message_invalid : ℕ
message_invalid = 0

abbrev pub message_block_size : ℕ
message_block_size = 4080

abbrev pub message_trailer_size : ℕ
message_trailer_size = 8

-- `MESSAGE_MAX_DATA_SIZE`, also where the trailer starts
abbrev pub message_max_data_size : ℕ
message_max_data_size = message_block_size - message_trailer_size

-- The length is written before the flag that is polled.
unfoldable pub write_to : Bytes → ℕ → Bytes
write_to dst msg_len =
    write_at (write_at dst message_max_data_size (to_le 4 msg_len)) (message_max_data_size + 4)
      (to_le 4 message_valid)

unfoldable pub read_from : Bytes → ℕ × ℕ
read_from src = (
  from_le (read_at src message_max_data_size 4),
  from_le (read_at src (message_max_data_size + 4) 4),
)

-- The offset of `data_ptr` from the block; a length beyond the data area wraps.
unfoldable pub data_offset : ℕ → ℕ
data_offset msg_len = (message_max_data_size + 2 ^ 64 - msg_len) % 2 ^ 64

pub record MessageTrailer : Type 0 where
  pub msg_len : ℕ
  pub valid : ℕ

unfoldable pub is_valid : MessageTrailer → Bool
is_valid t = not (t.valid == message_invalid)

unfoldable pub set_valid : MessageTrailer → ℕ → MessageTrailer
set_valid t len = record { msg_len = len; valid = message_valid }

unfoldable pub clear : MessageTrailer → MessageTrailer
clear t = record { msg_len = 0; valid = message_invalid }

-- In a block of at least 4080 bytes the trailer comes back with a length below 2 ^ 32 and the
-- flag set, and no byte of the data area or beyond the block is touched.
pub trailer_roundtrip :
    (dst : Bytes) (msg_len : ℕ)
    → 4080 ≤ length dst
    → msg_len < 2 ^ 32
    → (read_from (write_to dst msg_len) ≡ (msg_len, 1))
      × ((at n : ℕ)
          → (at + n ≤ 4072) ⊎ (4080 ≤ at)
          → read_at (write_to dst msg_len) at n ≡ read_at dst at n)
unfolding read_from write_to
trailer_roundtrip dst n h k =
    let b = write_at dst 4072 (to_le 4 n) in
    let flag = to_le 4 message_valid in
    let e = length-write_at dst 4072 (to_le 4 n) in
    (
      (λ i. (
        ((ap from_le (read-write_before b 4076 flag 4072 4 (omega arith)))
              ∙ ap from_le (read-write_self dst 4072 (to_le 4 n) (omega arith))
              ∙ from_le-to_le 4 n k)
            i,
        (ap from_le (read-write_self b 4076 flag (omega (arith, e)))) i,
      )),
      λ at m side. elim side [
        | inl below ↦
            read-write_before b 4076 flag at m (omega arith)
            ∙ read-write_before dst 4072 (to_le 4 n) at m (omega arith)
        | inr above ↦
            read-write_after b 4076 flag at m (omega arith)
            ∙ read-write_after dst 4072 (to_le 4 n) at m (omega arith)
      ],
    )

-- A message up to 4072 bytes lies inside the data area and ends where the trailer starts.
pub data_offset_lem :
    (msg_len : ℕ) → msg_len ≤ 4072 → data_offset msg_len + msg_len ≡ message_max_data_size
unfolding data_offset
data_offset_lem n h = omega arith
