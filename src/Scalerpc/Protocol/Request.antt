-- ===== src/Scalerpc/Protocol/Request.antt =====
-- `RequestHeader` of scalerpc/src/protocol.rs.
use locasta.Base.{ℕ, ◌+◌, ◌^◌, ◌≤◌, ◌<◌, ◌≡◌, ap, ◌∙◌, Bool, ◌++◌, ◌==◌, arith, length}
use locasta.Base.Bytes.{
  Bytes, write_at, read_at, to_le, from_le, read-write_within, read-write_after, from_le-to_le,
}

abbrev pub request_magic : ℕ
request_magic = 0xDEAD_BEEF

pub record RequestHeader : Type 0 where
  pub magic : ℕ
  pub req_id : ℕ
  pub rpc_type : ℕ
  pub payload_len : ℕ
  pub client_slot_addr : ℕ
  pub client_slot_rkey : ℕ
  pub sender_conn_id : ℕ
  pub slot_seq : ℕ

unfoldable pub new_with_seq : ℕ → ℕ → ℕ → ℕ → ℕ → ℕ → ℕ → RequestHeader
new_with_seq req_id rpc_type payload_len addr rkey conn_id slot_seq = record {
  magic = request_magic;
  req_id = req_id;
  rpc_type = rpc_type;
  payload_len = payload_len;
  client_slot_addr = addr;
  client_slot_rkey = rkey;
  sender_conn_id = conn_id;
  slot_seq = slot_seq;
}

unfoldable pub new : ℕ → ℕ → ℕ → ℕ → ℕ → ℕ → RequestHeader
unfolding new_with_seq
new req_id rpc_type payload_len addr rkey conn_id =
    new_with_seq req_id rpc_type payload_len addr rkey conn_id 0

unfoldable pub is_valid : RequestHeader → Bool
is_valid h = h.magic == request_magic

abbrev pub bytes : RequestHeader → Bytes
bytes h =
    to_le 4 h.magic
    ++ to_le 8 h.req_id
    ++ to_le 2 h.rpc_type
    ++ to_le 2 h.payload_len
    ++ to_le 8 h.client_slot_addr
    ++ to_le 4 h.client_slot_rkey
    ++ to_le 4 h.sender_conn_id
    ++ to_le 8 h.slot_seq

unfoldable pub write_to : RequestHeader → Bytes → Bytes
write_to h dst = write_at dst 0 (bytes h)

unfoldable pub read_from : Bytes → RequestHeader
read_from src = record {
  magic = from_le (read_at src 0 4);
  req_id = from_le (read_at src 4 8);
  rpc_type = from_le (read_at src 12 2);
  payload_len = from_le (read_at src 14 2);
  client_slot_addr = from_le (read_at src 16 8);
  client_slot_rkey = from_le (read_at src 24 4);
  sender_conn_id = from_le (read_at src 28 4);
  slot_seq = from_le (read_at src 32 8);
}

-- Every field fits its type.
pub record IsWellFormed (h : RequestHeader) : Type 0 where
  pub magic_u32 : h.magic < 2 ^ 32
  pub req_id_u64 : h.req_id < 2 ^ 64
  pub rpc_type_u16 : h.rpc_type < 2 ^ 16
  pub payload_len_u16 : h.payload_len < 2 ^ 16
  pub addr_u64 : h.client_slot_addr < 2 ^ 64
  pub rkey_u32 : h.client_slot_rkey < 2 ^ 32
  pub conn_id_u32 : h.sender_conn_id < 2 ^ 32
  pub slot_seq_u64 : h.slot_seq < 2 ^ 64

-- A header whose fields fit their types is read back as it was written, from any memory that has
-- 40 bytes for it, and no byte after those 40 is touched.
pub request_roundtrip :
    (h : RequestHeader) (dst : Bytes)
    → IsWellFormed h
    → 40 ≤ length dst
    → (read_from (write_to h dst) ≡ h)
      × ((at n : ℕ) → 40 ≤ at → read_at (write_to h dst) at n ≡ read_at dst at n)
unfolding read_from write_to
request_roundtrip h dst v len = (
  (λ i. record {
    magic = (word 0 4 (omega arith) ∙ from_le-to_le 4 h.magic v.magic_u32) i;
    req_id = (word 4 8 (omega arith) ∙ from_le-to_le 8 h.req_id v.req_id_u64) i;
    rpc_type = (word 12 2 (omega arith) ∙ from_le-to_le 2 h.rpc_type v.rpc_type_u16) i;
    payload_len = (word 14 2 (omega arith) ∙ from_le-to_le 2 h.payload_len v.payload_len_u16) i;
    client_slot_addr = (word 16 8 (omega arith) ∙ from_le-to_le 8 h.client_slot_addr v.addr_u64) i;
    client_slot_rkey = (word 24 4 (omega arith) ∙ from_le-to_le 4 h.client_slot_rkey v.rkey_u32) i;
    sender_conn_id = (word 28 4 (omega arith) ∙ from_le-to_le 4 h.sender_conn_id v.conn_id_u32) i;
    slot_seq = (word 32 8 (omega arith) ∙ from_le-to_le 8 h.slot_seq v.slot_seq_u64) i;
  }),
  λ at n k. read-write_after dst 0 (bytes h) at n k,
)
  where
    word :
        (at n : ℕ)
        → at + n ≤ 40
        → from_le (read_at (write_at dst 0 (bytes h)) at n) ≡ from_le (read_at (bytes h) at n)
    word at n k = ap from_le (read-write_within dst (bytes h) at n len k)
