-- ===== src/Copyrpc/Encoding/Tests.antt =====
-- The unit tests of copyrpc/src/encoding.rs, and instances of the theorems.
use locasta.Base.{◌≡◌, refl, replicate}
use locasta.Base.Bytes.{Bytes}
use locasta.Copyrpc.Encoding.{encode_imm, decode_imm, padded_message_size}

abbrev zeros : Bytes
zeros = replicate 40 0

imm_values : (encode_imm 1024 ≡ 32) × (decode_imm 32 ≡ 1024)
unfolding encode_imm decode_imm
imm_values = (refl, refl)

padded_sizes :
    (padded_message_size 0 ≡ 32) × (padded_message_size 20 ≡ 32) × (padded_message_size 21 ≡ 64)
unfolding padded_message_size
padded_sizes = (refl, refl, refl)
