-- ===== src/Benchkv/Storage/Tests.antt =====
-- Runs of benchkv/src/storage.rs, and instances of the theorems.
use locasta.Base.{◌≡◌, refl, some, none, if◌then◌else◌, ◌==◌, arith}
use locasta.Benchkv.Storage.{ShardedStore, div_ceil, new, owner_of, local_index, get, put}
use locasta.Benchkv.Storage.Laws.{get-put}

-- Daemon 1 of 3 owns the keys 1, 4 and 7 below 8.
abbrev shard : ShardedStore
shard = new 8 3 1

runs : (get (put shard 4 9) 4 ≡ some 9) × (get shard 7 ≡ some 0) × (get shard 10 ≡ none)
unfolding get put new local_index div_ceil
runs = (refl, refl, refl)

get-put_example : get (put shard 4 9) 7 ≡ (if 4 == 7 then some 9 else get shard 7)
unfolding new local_index owner_of div_ceil
get-put_example = get-put shard 4 9 7 refl refl (omega arith)
