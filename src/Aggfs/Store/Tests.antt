-- ===== src/Aggfs/Store/Tests.antt =====
-- Runs of aggfs/src/store.rs, and instances of the theorems.
use locasta.Base.{
  ◌-◌, ℕ, ◌≡◌, refl, false, some, none, [], ◌∷◌, arith, replicate, if◌then◌else◌, ◌==◌, ◌&&◌, ◌||◌,
  ◌+◌, leb, length, is_some,
}
use locasta.Aggfs.Store.{
  PmemStore, put_chunk, new, register_file, effective_chunk_size, allocate, ensure_chunk, set_chunk,
  grown, mark_valid, copy_in, write, read_chunk, read_found, read, ptr_for_chunk_read,
  prepare_write,
}
use locasta.Aggfs.Store.Chunks.{IsValid, new-IsValid, write-IsValid, register_file_overlaps}
use locasta.Aggfs.Store.Contents.{read-write, is_some-write}

abbrev empty : PmemStore
empty = new (replicate 32 0) 8

-- Chunk 1 of file 5 at 0 and chunk 0 of file 9 at 8.
abbrev two_chunks : PmemStore
two_chunks = record {
  region = 1 ∷ 2 ∷ 3 ∷ 0 ∷ 0 ∷ 0 ∷ 0 ∷ 0 ∷ 7 ∷ replicate 23 0;
  chunk_table = λ h i.
      if h == 5 && i == 1
      then some (record { offset = 0; valid_len = 3 })
      else if h == 9 && i == 0
      then some (record { offset = 8; valid_len = 1 })
      else none;
  next_offset = 16;
  file_chunk_size = λ h. none;
  max_chunk_capacity = 8;
}

reads :
    (read two_chunks 5 1 1 9 ≡ 2 ∷ 3 ∷ [])
    × (read two_chunks 5 0 0 9 ≡ [])
    × (ptr_for_chunk_read two_chunks 5 1 1 ≡ some (some (1, 2)))
unfolding read read_found read_chunk ptr_for_chunk_read
reads = (refl, refl, refl)

full : write empty 5 1 7 (4 ∷ 6 ∷ []) ≡ none
unfolding write effective_chunk_size new
full = refl

empty-IsValid : IsValid empty
empty-IsValid = new-IsValid (replicate 32 0) 8

-- What the first write makes of the empty store.
abbrev written : PmemStore
written = record empty {
  region = 0 ∷ 0 ∷ 4 ∷ 6 ∷ replicate 28 0;
  chunk_table =
      put_chunk (put_chunk (λ h i. none) 5 1 (some (record { offset = 0; valid_len = 0 }))) 5 1
        (some (record { offset = 0; valid_len = 4 }));
  next_offset = 8;
}

first_write : write empty 5 1 2 (4 ∷ 6 ∷ []) ≡ some written
unfolding write effective_chunk_size new ensure_chunk allocate mark_valid set_chunk grown copy_in
first_write = refl

write-IsValid_example : IsValid written
write-IsValid_example = write-IsValid empty 5 1 2 (4 ∷ 6 ∷ []) empty-IsValid first_write

read-write_example :
    (read written 5 1 2 2 ≡ 4 ∷ 6 ∷ [])
    × ((h' i' at n : ℕ)
        → (5 == h' && 1 == i') ≡ false
        → read written h' i' at n ≡ read empty h' i' at n)
read-write_example = read-write empty 5 1 2 (4 ∷ 6 ∷ []) empty-IsValid first_write

register_file_overlaps_example :
    (s : PmemStore) × (write (register_file two_chunks 5 16) 5 1 (8 + 0 - 0) (7 ∷ []) ≡ some s)
    × (read s 9 0 0 1 ≡ 7 ∷ [])
register_file_overlaps_example =
    register_file_overlaps two_chunks 5 1 9 0 16 0 7 (record { offset = 0; valid_len = 3 })
      (record { offset = 8; valid_len = 1 }) refl refl refl (omega arith) (omega arith)
      (omega arith) (omega arith)

is_some-write_example : is_some (write empty 5 1 2 (4 ∷ 6 ∷ [])) ≡ (
    leb (2 + length {A = ℕ} (4 ∷ 6 ∷ [])) (effective_chunk_size empty 5)
    && (is_some (empty.chunk_table 5 1)
        || leb (empty.next_offset + effective_chunk_size empty 5) (length empty.region)))
is_some-write_example = is_some-write empty 5 1 2 (4 ∷ 6 ∷ [])

-- What `prepare_write` makes of the empty store.
abbrev prepared : PmemStore
prepared = record empty {
  chunk_table = put_chunk (λ h i. none) 5 1 (some (record { offset = 0; valid_len = 0 }));
  next_offset = 8;
}

prepares : prepare_write empty 5 1 2 ≡ some (prepared, 2, 6)
unfolding prepare_write effective_chunk_size new ensure_chunk allocate
prepares = refl
