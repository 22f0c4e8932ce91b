-- ===== src/Scalerpc/Protocol/Response/Fields.antt =====
-- What a client reads from each kind of response header of scalerpc/src/protocol.rs.
use Prim.Native.Nat.{bit_and, bit_or}
use locasta.Base.{ℕ, ◌*◌, ◌/◌, ◌%◌, ◌^◌, ◌<◌, ◌≡◌, refl, Option, none, some, arith, if◌then◌else◌}
use locasta.Base.Bits.{bit_and_mask, bit_or_pack}
use locasta.Scalerpc.Protocol.Response.{
  ResponseHeader, new, pack_seqs, with_credit_ack, with_context_switch, with_processing_pool_info,
  with_context_switch_and_credit_ack, with_processing_pool_info_and_credit_ack, has_context_switch,
  has_processing_pool_info, has_credit_ack, get_context_switch_seq, get_fetched_seq,
  get_processing_pool_addr, get_processing_pool_rkey,
}

-- What a response may announce: the switch of the client's group by the two sequence numbers, the
-- address and key of the processing pool, and an acknowledged slot sequence.
pub data Notice : Type 0 where
  plain : Notice
  acks : ℕ → Notice
  switches : ℕ → ℕ → Notice
  pools : ℕ → ℕ → ℕ → ℕ → Notice
  switches_and_acks : ℕ → ℕ → ℕ → Notice
  pools_and_acks : ℕ → ℕ → ℕ → ℕ → ℕ → Notice

-- The constructor that the server calls for a notice.
pub header : Notice → ℕ → ℕ → ℕ → ResponseHeader
header plain id st len = new id st len
header (acks a) id st len = with_credit_ack id st len a
header (switches s f) id st len = with_context_switch id st len s f
header (pools s f addr rkey) id st len = with_processing_pool_info id st len s f addr rkey
header (switches_and_acks s f a) id st len = with_context_switch_and_credit_ack id st len s f a
header (pools_and_acks s f addr rkey a) id st len =
    with_processing_pool_info_and_credit_ack id st len s f addr rkey a

-- What the client's accessors find.
pub record Seen : Type 0 where
  pub switch : Option (ℕ × ℕ)
  pub addr : Option ℕ
  pub rkey : Option ℕ
  pub ack : Option ℕ

pub seen : ResponseHeader → Seen
seen h = record {
  switch =
      if has_context_switch h then some (get_context_switch_seq h, get_fetched_seq h) else none;
  addr = get_processing_pool_addr h;
  rkey = get_processing_pool_rkey h;
  ack = if has_credit_ack h then some h.acked_slot_seq else none;
}

-- What a notice means: the scheduler's number is cut to 32 bits.
abbrev pub meaning : Notice → Seen
meaning plain = record { switch = none; addr = none; rkey = none; ack = none }
meaning (acks a) = record { switch = none; addr = none; rkey = none; ack = some a }
meaning (switches s f) = record {
  switch = some (s % 2 ^ 32, f);
  addr = none;
  rkey = none;
  ack = none;
}
meaning (pools s f addr rkey) = record {
  switch = some (s % 2 ^ 32, f);
  addr = some addr;
  rkey = some rkey;
  ack = none;
}
meaning (switches_and_acks s f a) = record {
  switch = some (s % 2 ^ 32, f);
  addr = none;
  rkey = none;
  ack = some a;
}
meaning (pools_and_acks s f addr rkey a) = record {
  switch = some (s % 2 ^ 32, f);
  addr = some addr;
  rkey = some rkey;
  ack = some a;
}

-- The fetched sequence number is a u32.
abbrev pub FitsFetched : Notice → Type 0
FitsFetched (switches s f) = f < 2 ^ 32
FitsFetched (pools s f addr rkey) = f < 2 ^ 32
FitsFetched (switches_and_acks s f a) = f < 2 ^ 32
FitsFetched (pools_and_acks s f addr rkey a) = f < 2 ^ 32
FitsFetched _ = Unit

seqs_lem :
    (f s : ℕ)
    → f < 2 ^ 32
    → (bit_and (pack_seqs f s) 0xFFFF_FFFF ≡ s % 2 ^ 32) × (pack_seqs f s / 2 ^ 32 % 2 ^ 32 ≡ f)
unfolding pack_seqs
seqs_lem f s h = omega (
  arith,
  bit_or_pack 32 f (s % 2 ^ 32) (omega arith),
  bit_and_mask 32 (bit_or (f * 2 ^ 32) (s % 2 ^ 32)),
)

-- Where a response announces a switch, a pool, an acknowledgement or any of these, with a fetched
-- sequence number below 2 ^ 32, the client's accessors find in it: the scheduler's sequence number
-- modulo 2 ^ 32 and the fetched one as it is, both out of the one packed field; the pool and the
-- acknowledgement where they were given; and nothing where they were not.
pub seen-header :
    (n : Notice) (req_id status payload_len : ℕ)
    → FitsFetched n
    → seen (header n req_id status payload_len) ≡ meaning n
unfolding seen header new with_credit_ack with_context_switch with_processing_pool_info
    with_context_switch_and_credit_ack with_processing_pool_info_and_credit_ack has_context_switch
    has_processing_pool_info has_credit_ack get_context_switch_seq get_fetched_seq
    get_processing_pool_addr get_processing_pool_rkey
seen-header plain id st len h = refl
seen-header (acks a) id st len h = refl
seen-header (switches s f) id st len h = ground (arith, seqs_lem f s h)
seen-header (pools s f addr rkey) id st len h = ground (arith, seqs_lem f s h)
seen-header (switches_and_acks s f a) id st len h = ground (arith, seqs_lem f s h)
seen-header (pools_and_acks s f addr rkey a) id st len h = ground (arith, seqs_lem f s h)
