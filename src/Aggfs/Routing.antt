-- ===== src/Aggfs/Routing.antt =====
-- aggfs/src/routing.rs: the hash of a path and the daemon that owns a chunk. usize is u64.
pub mod Laws
mod Tests
use locasta.Base.{ℕ, ◌+◌, ◌-◌, ◌*◌, ◌/◌, ◌%◌, ◌^◌, Bool, true, false, [], ◌∷◌, leb, ◌&&◌}
use locasta.Base.Bytes.{Bytes}

-- `u8::is_ascii_digit`
abbrev pub is_digit : ℕ → Bool
is_digit c = leb b'0' c && leb c b'9'

abbrev pub wrap64 : ℕ → ℕ
wrap64 n = n % 2 ^ 64

-- The step of the outer loop at a byte that is no digit.
abbrev pub mix : ℕ → ℕ → ℕ
mix hash c = wrap64 (wrap64 (hash * 31) + c)

-- The step of the inner loop at a digit.
abbrev pub shift_in : ℕ → ℕ → ℕ
shift_in num c = wrap64 (wrap64 (num * 10) + (c - b'0'))

-- The two loops: `hash_from` is the outer one, and `number_from` the inner one after at least one
-- digit. At a byte that is no digit the inner loop ends, the number is added, and the outer loop
-- goes on at that byte.
mutual
  pub hash_from : ℕ → Bytes → ℕ
  hash_from hash [] = hash
  hash_from hash (c ∷ cs) = elim (is_digit c) [
    | true ↦ number_from hash (shift_in 0 c) cs
    | false ↦ hash_from (mix hash c) cs
  ]

  pub number_from : ℕ → ℕ → Bytes → ℕ
  number_from hash num [] = wrap64 (hash + num)
  number_from hash num (c ∷ cs) = elim (is_digit c) [
    | true ↦ number_from hash (shift_in num c) cs
    | false ↦ hash_from (mix (wrap64 (hash + num)) c) cs
  ]

pub koyama_hash : Bytes → ℕ
koyama_hash s = hash_from 0 s

pub route : ℕ → ℕ → ℕ → ℕ
route path_hash chunk_index total_daemons = wrap64 (path_hash + chunk_index) % total_daemons

-- The node is cut to a u32.
pub global_to_local : ℕ → ℕ → ℕ × ℕ
global_to_local global_id daemons_per_node =
    (global_id / daemons_per_node % 2 ^ 32, global_id % daemons_per_node)
