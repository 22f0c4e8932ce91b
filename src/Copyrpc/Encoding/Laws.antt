-- ===== src/Copyrpc/Encoding/Laws.antt =====
-- Round trips of copyrpc/src/encoding.rs, and what padding and the response flag do.
use locasta.Base.{
  ℕ, ◌+◌, ◌-◌, ◌*◌, ◌%◌, ◌^◌, ◌≤◌, ◌<◌, ◌≡◌, refl, ap, ◌∙◌, true, false, arith, length, replicate,
}
use locasta.Base.Bits.{bit_and_mask, bit_and_field, bit_or_at}
use locasta.Base.Bytes.{
  Bytes, write_at, read_at, to_le, from_le, length-write_at, read-write_self, read-write_before,
  read-write_after, from_le-to_le,
}
use locasta.Copyrpc.Encoding.{
  encode_imm, decode_imm, encode_header, decode_header, is_response, to_response_id,
  from_response_id, padded_message_size, encode_flow_metadata, decode_flow_metadata,
}

-- A delta that is a multiple of 32 below 128 GiB comes back from its immediate value, and every
-- immediate value comes back from its delta.
pub imm_roundtrip :
    (imm : ℕ)
    → imm < 2 ^ 32
    → (encode_imm (decode_imm imm) ≡ imm) × (decode_imm (encode_imm (imm * 32)) ≡ imm * 32)
unfolding encode_imm decode_imm
imm_roundtrip imm h = omega arith

triple :
    {a a' b b' c c' : ℕ} → a ≡ a' → b ≡ b' → c ≡ c' → ◌≡◌ {A = ℕ × ℕ × ℕ} (a, b, c) (a', b', c')
triple p q r = λ i. (p i, q i, r i)

-- A word that was just written is read back.
read_word :
    (buf : Bytes) (off w v : ℕ)
    → off + w ≤ length buf
    → v < 256 ^ w
    → length (to_le w v) ≡ w
    → from_le (read_at (write_at buf off (to_le w v)) off w) ≡ v
read_word buf off w v h k e =
    ap (λ n. from_le (read_at (write_at buf off (to_le w v)) off n)) (omega (arith, e))
    ∙ ap from_le (read-write_self buf off (to_le w v) (omega (arith, e)))
    ∙ from_le-to_le w v k

-- The header comes back from any buffer that has room for it, with the low half of the piggyback
-- position, and no byte beyond the header is touched.
pub decode_header-encode_header :
    (buf : Bytes) (call_id piggyback payload_len : ℕ)
    → 12 ≤ length buf
    → call_id < 2 ^ 32
    → payload_len < 2 ^ 32
    → let out = encode_header buf call_id piggyback payload_len in
      (decode_header out ≡ (call_id, piggyback % 2 ^ 32, payload_len))
      × (length out ≡ length buf)
      × ((at n : ℕ) → 12 ≤ at → read_at out at n ≡ read_at buf at n)
unfolding encode_header decode_header
decode_header-encode_header buf c p l h hc hl =
    let b0 = write_at buf 0 (to_le 4 c) in
    let b1 = write_at b0 4 (to_le 4 (p % 2 ^ 32)) in
    let e0 = length-write_at buf 0 (to_le 4 c) in
    let e1 = length-write_at b0 4 (to_le 4 (p % 2 ^ 32)) in
    let e2 = length-write_at b1 8 (to_le 4 l) in
    (
      triple
          (ap from_le (read-write_before b1 8 (to_le 4 l) 0 4 (omega arith))
            ∙ ap from_le (read-write_before b0 4 (to_le 4 (p % 2 ^ 32)) 0 4 (omega arith))
            ∙ read_word buf 0 4 c (omega arith) hc refl)
          (ap from_le (read-write_before b1 8 (to_le 4 l) 4 4 (omega arith))
            ∙ read_word b0 4 4 (p % 2 ^ 32) (omega (arith, e0)) (omega arith) refl)
          (read_word b1 8 4 l (omega (arith, e0, e1)) hl refl),
      omega (arith, e0, e1, e2),
      λ at n k.
          read-write_after b1 8 (to_le 4 l) at n (omega arith)
          ∙ read-write_after b0 4 (to_le 4 (p % 2 ^ 32)) at n (omega arith)
          ∙ read-write_after buf 0 (to_le 4 c) at n (omega arith),
    )

-- The metadata comes back from any buffer that has room for it, its last twelve bytes are zero,
-- and no byte beyond it is touched.
pub decode_flow_metadata-encode_flow_metadata :
    (buf : Bytes) (ring_credit_return credit_grant message_count : ℕ)
    → 32 ≤ length buf
    → ring_credit_return < 2 ^ 64
    → credit_grant < 2 ^ 64
    → message_count < 2 ^ 32
    → let out = encode_flow_metadata buf ring_credit_return credit_grant message_count in
      (decode_flow_metadata out ≡ (ring_credit_return, credit_grant, message_count))
      × (read_at out 20 12 ≡ replicate 12 0)
      × ((at n : ℕ) → 32 ≤ at → read_at out at n ≡ read_at buf at n)
unfolding encode_flow_metadata decode_flow_metadata
decode_flow_metadata-encode_flow_metadata buf r g m h hr hg hm =
    let b0 = write_at buf 0 (to_le 8 r) in
    let b1 = write_at b0 8 (to_le 8 g) in
    let b2 = write_at b1 16 (to_le 4 m) in
    let pad : Bytes = replicate 12 0 in
    let e0 = length-write_at buf 0 (to_le 8 r) in
    let e1 = length-write_at b0 8 (to_le 8 g) in
    let e2 = length-write_at b1 16 (to_le 4 m) in
    (
      triple
          (ap from_le (read-write_before b2 20 pad 0 8 (omega arith))
            ∙ ap from_le (read-write_before b1 16 (to_le 4 m) 0 8 (omega arith))
            ∙ ap from_le (read-write_before b0 8 (to_le 8 g) 0 8 (omega arith))
            ∙ read_word buf 0 8 r (omega arith) hr refl)
          (ap from_le (read-write_before b2 20 pad 8 8 (omega arith))
            ∙ ap from_le (read-write_before b1 16 (to_le 4 m) 8 8 (omega arith))
            ∙ read_word b0 8 8 g (omega (arith, e0)) hg refl)
          (ap from_le (read-write_before b2 20 pad 16 4 (omega arith))
            ∙ read_word b1 16 4 m (omega (arith, e0, e1)) hm refl),
      read-write_self b2 20 pad (omega (arith, e0, e1, e2)),
      λ at n k.
          read-write_after b2 20 pad at n (omega arith)
          ∙ read-write_after b1 16 (to_le 4 m) at n (omega arith)
          ∙ read-write_after b0 8 (to_le 8 g) at n (omega arith)
          ∙ read-write_after buf 0 (to_le 8 r) at n (omega arith),
    )

-- A padded size is the least multiple of 32 that holds the header and the payload.
pub padded_message_size_lem :
    (payload_len : ℕ)
    → payload_len < 2 ^ 32
    → let size = padded_message_size payload_len in
      (size % 32 ≡ 0) × (12 + payload_len ≤ size) × (size < 12 + payload_len + 32)
unfolding padded_message_size
padded_message_size_lem n h = omega (arith, bit_and_field 5 59 (12 + n + 32 - 1))

-- A request's id, below 2 ^ 31, is no response; marking it makes it one and keeps it a u32, and
-- unmarking gives it back.
pub response_id_roundtrip :
    (call_id : ℕ)
    → call_id < 2 ^ 31
    → (is_response call_id ≡ false)
      × (is_response (to_response_id call_id) ≡ true)
      × (to_response_id call_id < 2 ^ 32)
      × (from_response_id (to_response_id call_id) ≡ call_id)
unfolding is_response to_response_id from_response_id
response_id_roundtrip c h = ground (
  arith,
  bit_or_at 31 c,
  bit_and_field 31 1 c,
  bit_and_field 31 1 (c + 2 ^ 31),
  bit_and_mask 31 (c + 2 ^ 31),
)
