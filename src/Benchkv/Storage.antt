-- ===== src/Benchkv/Storage.antt =====
-- benchkv/src/storage.rs: the shard of a key-value store that one daemon owns. Keys are u64, whose
-- indices fit a usize; a debug assertion on a key of another shard is left out.
pub mod Laws
mod Tests
use locasta.Base.{
  ℕ, ◌+◌, ◌-◌, ◌/◌, ◌%◌, Option, List, length, replicate, get_elem?, set, if◌then◌else◌, ◌==◌,
}

pub record ShardedStore : Type 0 where
  pub data_of : List ℕ
  pub num_daemons : ℕ
  pub daemon_id : ℕ

-- `u64::div_ceil`
pub div_ceil : ℕ → ℕ → ℕ
div_ceil a b = if a % b == 0 then a / b else a / b + 1

pub new : ℕ → ℕ → ℕ → ShardedStore
new key_range num_daemons daemon_id = record {
  data_of = replicate (div_ceil key_range num_daemons) 0;
  num_daemons = num_daemons;
  daemon_id = daemon_id;
}

pub owner_of : ℕ → ℕ → ℕ
owner_of key num_daemons = key % num_daemons

pub local_index : ShardedStore → ℕ → ℕ
local_index s key = key / s.num_daemons

pub get : ShardedStore → ℕ → Option ℕ
get s key = get_elem? s.data_of (local_index s key)

-- A key out of range changes nothing.
pub put : ShardedStore → ℕ → ℕ → ShardedStore
put s key value = record s { data_of = set s.data_of (local_index s key) value }
