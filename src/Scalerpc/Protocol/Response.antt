-- ===== src/Scalerpc/Protocol/Response.antt =====
-- `ResponseHeader` of scalerpc/src/protocol.rs, its constructors and what is read back from it.
-- The padding field is `_padding` there.
pub mod Fields
use Prim.Native.Nat.{bit_and, bit_or}
use locasta.Base.{
  ℕ, ◌+◌, ◌-◌, ◌*◌, ◌/◌, ◌%◌, ◌^◌, ◌≤◌, ◌<◌, ◌≡◌, refl, ap, ◌∙◌, Bool, true, false, not, Option,
  none, some, List, [], ◌∷◌, ◌++◌, ◌==◌, ltb, arith, length, if◌then◌else◌,
}
use locasta.Base.Bytes.{
  Bytes, write_at, read_at, to_le, from_le, read-write_within, read-write_self, read-write_before,
  read-write_after, from_le-to_le, length-write_at,
}

abbrev pub response_magic : ℕ
response_magic = 0xBEEF_DEAD

abbrev pub flag_context_switch : ℕ
flag_context_switch = 0x1

abbrev pub flag_processing_pool_info : ℕ
flag_processing_pool_info = 0x2

abbrev pub flag_credit_ack : ℕ
flag_credit_ack = 0x4

pub record ResponseHeader : Type 0 where
  pub magic : ℕ
  pub req_id : ℕ
  pub status : ℕ
  pub payload_len : ℕ
  pub flags : ℕ
  pub context_switch_seq : ℕ
  pub processing_pool_addr : ℕ
  pub processing_pool_rkey : ℕ
  pub padding : ℕ
  pub acked_slot_seq : ℕ

unfoldable pub new : ℕ → ℕ → ℕ → ResponseHeader
new req_id status payload_len = record {
  magic = response_magic;
  req_id = req_id;
  status = status;
  payload_len = payload_len;
  flags = 0;
  context_switch_seq = 0;
  processing_pool_addr = 0;
  processing_pool_rkey = 0;
  padding = 0;
  acked_slot_seq = 0;
}

-- `((fetched_seq as u64) << 32) | (scheduler_seq as u32 as u64)`
unfoldable pub pack_seqs : ℕ → ℕ → ℕ
pack_seqs fetched_seq scheduler_seq = bit_or (fetched_seq * 2 ^ 32) (scheduler_seq % 2 ^ 32)

unfoldable pub with_credit_ack : ℕ → ℕ → ℕ → ℕ → ResponseHeader
unfolding new
with_credit_ack req_id status payload_len acked_seq = record (new req_id status payload_len) {
  flags = flag_credit_ack;
  acked_slot_seq = acked_seq;
}

unfoldable pub with_context_switch : ℕ → ℕ → ℕ → ℕ → ℕ → ResponseHeader
unfolding new
with_context_switch req_id status payload_len scheduler_seq fetched_seq =
    record (new req_id status payload_len) {
      flags = flag_context_switch;
      context_switch_seq = pack_seqs fetched_seq scheduler_seq;
    }

unfoldable pub with_processing_pool_info : ℕ → ℕ → ℕ → ℕ → ℕ → ℕ → ℕ → ResponseHeader
unfolding new
with_processing_pool_info req_id status payload_len scheduler_seq fetched_seq pool_addr pool_rkey =
    record (new req_id status payload_len) {
      flags = bit_or flag_context_switch flag_processing_pool_info;
      context_switch_seq = pack_seqs fetched_seq scheduler_seq;
      processing_pool_addr = pool_addr;
      processing_pool_rkey = pool_rkey;
    }

unfoldable pub with_context_switch_and_credit_ack : ℕ → ℕ → ℕ → ℕ → ℕ → ℕ → ResponseHeader
unfolding new
with_context_switch_and_credit_ack req_id status payload_len scheduler_seq fetched_seq acked_seq =
    record (new req_id status payload_len) {
      flags = bit_or flag_context_switch flag_credit_ack;
      context_switch_seq = pack_seqs fetched_seq scheduler_seq;
      acked_slot_seq = acked_seq;
    }

unfoldable pub with_processing_pool_info_and_credit_ack :
    ℕ → ℕ → ℕ → ℕ → ℕ → ℕ → ℕ → ℕ → ResponseHeader
unfolding new
with_processing_pool_info_and_credit_ack req_id status payload_len scheduler_seq fetched_seq
      pool_addr pool_rkey acked_seq =
    record (new req_id status payload_len) {
      flags = bit_or (bit_or flag_context_switch flag_processing_pool_info) flag_credit_ack;
      context_switch_seq = pack_seqs fetched_seq scheduler_seq;
      processing_pool_addr = pool_addr;
      processing_pool_rkey = pool_rkey;
      acked_slot_seq = acked_seq;
    }

unfoldable pub success : ℕ → ℕ → ResponseHeader
success req_id payload_len = new req_id 0 payload_len

unfoldable pub error : ℕ → ℕ → ResponseHeader
error req_id status = new req_id status 0

unfoldable pub is_valid : ResponseHeader → Bool
is_valid h = h.magic == response_magic

unfoldable pub is_success : ResponseHeader → Bool
is_success h = h.status == 0

unfoldable pub has_context_switch : ResponseHeader → Bool
has_context_switch h = not (bit_and h.flags flag_context_switch == 0)

unfoldable pub has_processing_pool_info : ResponseHeader → Bool
has_processing_pool_info h = not (bit_and h.flags flag_processing_pool_info == 0)

unfoldable pub has_credit_ack : ResponseHeader → Bool
has_credit_ack h = not (bit_and h.flags flag_credit_ack == 0)

unfoldable pub get_context_switch_seq : ResponseHeader → ℕ
get_context_switch_seq h = bit_and h.context_switch_seq 0xFFFF_FFFF

-- `(context_switch_seq >> 32) as u32`
unfoldable pub get_fetched_seq : ResponseHeader → ℕ
get_fetched_seq h = h.context_switch_seq / 2 ^ 32 % 2 ^ 32

unfoldable pub get_processing_pool_addr : ResponseHeader → Option ℕ
get_processing_pool_addr h =
    if has_processing_pool_info h then some h.processing_pool_addr else none

unfoldable pub get_processing_pool_rkey : ResponseHeader → Option ℕ
get_processing_pool_rkey h =
    if has_processing_pool_info h then some h.processing_pool_rkey else none

-- The bytes of the structure.
abbrev pub bytes : ResponseHeader → Bytes
bytes h =
    to_le 4 h.magic
    ++ to_le 8 h.req_id
    ++ to_le 4 h.status
    ++ to_le 4 h.payload_len
    ++ to_le 4 h.flags
    ++ to_le 8 h.context_switch_seq
    ++ to_le 8 h.processing_pool_addr
    ++ to_le 4 h.processing_pool_rkey
    ++ to_le 4 h.padding
    ++ to_le 8 h.acked_slot_seq

unfoldable pub write_to : ResponseHeader → Bytes → Bytes
write_to h dst = write_at dst 0 (bytes h)

unfoldable pub read_from : Bytes → ResponseHeader
read_from src = record {
  magic = from_le (read_at src 0 4);
  req_id = from_le (read_at src 4 8);
  status = from_le (read_at src 12 4);
  payload_len = from_le (read_at src 16 4);
  flags = from_le (read_at src 20 4);
  context_switch_seq = from_le (read_at src 24 8);
  processing_pool_addr = from_le (read_at src 32 8);
  processing_pool_rkey = from_le (read_at src 40 4);
  padding = from_le (read_at src 44 4);
  acked_slot_seq = from_le (read_at src 48 8);
}

-- Every field fits its type.
pub record IsWellFormed (h : ResponseHeader) : Type 0 where
  pub magic_fits : h.magic < 2 ^ 32
  pub req_id_fits : h.req_id < 2 ^ 64
  pub status_fits : h.status < 2 ^ 32
  pub payload_len_fits : h.payload_len < 2 ^ 32
  pub flags_fits : h.flags < 2 ^ 32
  pub context_switch_seq_fits : h.context_switch_seq < 2 ^ 64
  pub processing_pool_addr_fits : h.processing_pool_addr < 2 ^ 64
  pub processing_pool_rkey_fits : h.processing_pool_rkey < 2 ^ 32
  pub padding_fits : h.padding < 2 ^ 32
  pub acked_slot_seq_fits : h.acked_slot_seq < 2 ^ 64

-- A response header whose fields fit their types is read back as it was written, from any memory
-- that has 56 bytes for it, and no byte after those 56 is touched.
response_roundtrip :
    (h : ResponseHeader) (dst : Bytes)
    → IsWellFormed h
    → 56 ≤ length dst
    → (read_from (write_to h dst) ≡ h)
      × ((at n : ℕ) → 56 ≤ at → read_at (write_to h dst) at n ≡ read_at dst at n)
unfolding read_from write_to
response_roundtrip h dst v len = (
  (λ i. record {
    magic = (word 0 4 (omega arith) ∙ from_le-to_le 4 h.magic v.magic_fits) i;
    req_id = (word 4 8 (omega arith) ∙ from_le-to_le 8 h.req_id v.req_id_fits) i;
    status = (word 12 4 (omega arith) ∙ from_le-to_le 4 h.status v.status_fits) i;
    payload_len = (word 16 4 (omega arith) ∙ from_le-to_le 4 h.payload_len v.payload_len_fits) i;
    flags = (word 20 4 (omega arith) ∙ from_le-to_le 4 h.flags v.flags_fits) i;
    context_switch_seq =
        (word 24 8 (omega arith) ∙ from_le-to_le 8 h.context_switch_seq v.context_switch_seq_fits)
          i;
    processing_pool_addr =
        (word 32 8 (omega arith)
            ∙ from_le-to_le 8 h.processing_pool_addr v.processing_pool_addr_fits)
          i;
    processing_pool_rkey =
        (word 40 4 (omega arith)
            ∙ from_le-to_le 4 h.processing_pool_rkey v.processing_pool_rkey_fits)
          i;
    padding = (word 44 4 (omega arith) ∙ from_le-to_le 4 h.padding v.padding_fits) i;
    acked_slot_seq =
        (word 48 8 (omega arith) ∙ from_le-to_le 8 h.acked_slot_seq v.acked_slot_seq_fits) i;
  }),
  λ at n k. read-write_after dst 0 (bytes h) at n k,
)
  where
    word :
        (at n : ℕ)
        → at + n ≤ 56
        → from_le (read_at (write_at dst 0 (bytes h)) at n) ≡ from_le (read_at (bytes h) at n)
    word at n k = ap from_le (read-write_within dst (bytes h) at n len k)
