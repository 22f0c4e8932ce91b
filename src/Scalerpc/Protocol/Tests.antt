-- ===== src/Scalerpc/Protocol/Tests.antt =====
-- The unit tests of scalerpc/src/protocol.rs, and instances of the theorems.
use locasta.Base.{◌+◌, ◌*◌, ◌^◌, ◌≡◌, refl, true, false, arith, replicate}
use locasta.Base.Bytes.{Bytes}
use locasta.Scalerpc.Protocol.Request
use locasta.Scalerpc.Protocol.Request.{RequestHeader}
use locasta.Scalerpc.Protocol.Response
use locasta.Scalerpc.Protocol.Response.{ResponseHeader}
use locasta.Scalerpc.Protocol.Response.Fields.{seen, header, meaning, seen-header, pools_and_acks}

abbrev block : Bytes
block = replicate 4080 7

abbrev memory : Bytes
memory = replicate 64 7

-- `test_request_header_with_seq`
abbrev request : RequestHeader
request = record {
  magic = 0xDEAD_BEEF;
  req_id = 123;
  rpc_type = 1;
  payload_len = 100;
  client_slot_addr = 0x1000;
  client_slot_rkey = 0xABCD;
  sender_conn_id = 5;
  slot_seq = 42;
}

abbrev response : ResponseHeader
response = record {
  magic = 0xBEEF_DEAD;
  req_id = 789;
  status = 0;
  payload_len = 100;
  flags = 3;
  context_switch_seq = 5 * 2 ^ 32 + 42;
  processing_pool_addr = 0x1234_5678_9ABC_DEF0;
  processing_pool_rkey = 0xABCD;
  padding = 0;
  acked_slot_seq = 0;
}

request_tests :
    (Request.new_with_seq 123 1 100 0x1000 0xABCD 5 42 ≡ request)
    × (Request.is_valid request ≡ true)
unfolding Request.new_with_seq Request.is_valid
request_tests = (refl, refl)

response_tests :
    (Response.with_processing_pool_info 789 0 100 42 5 0x1234_5678_9ABC_DEF0 0xABCD ≡ response)
    × (Response.is_success response ≡ true)
    × (Response.has_credit_ack response ≡ false)
unfolding Response.with_processing_pool_info Response.pack_seqs Response.is_success
    Response.has_credit_ack
response_tests = (refl, refl, refl)

seen-header_example :
    seen (header (pools_and_acks 42 5 0x1000 0xABCD 7) 789 0 100)
    ≡ meaning (pools_and_acks 42 5 0x1000 0xABCD 7)
seen-header_example = seen-header (pools_and_acks 42 5 0x1000 0xABCD 7) 789 0 100 (omega arith)
