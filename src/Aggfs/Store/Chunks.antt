-- ===== src/Aggfs/Store/Chunks.antt =====
-- Where the chunks of aggfs/src/store.rs lie.
use locasta.Base.{
  ℕ, ◌+◌, ◌≤◌, ◌-◌, ◌<◌, ◌≡◌, ap, ◌∙◌, min, [], ◌∷◌, refl, ◌≢◌, ◌⊎◌, inl, inr, false, true, Option,
  none, some, arith, leb, ◌==◌, ◌&&◌, length, Option-cases, of_some, and_then-eq-some, if-eq-some,
  leb→le,
}
use locasta.Base.Bytes.{Bytes, length-write_at, write_at, read_at, read-write_self}
use locasta.Aggfs.Store.{
  ChunkLocation, PmemStore, new, register_file, effective_chunk_size, allocate, ensure_chunk,
  set_chunk, grown, mark_valid, copy_in, write, prepare_write, commit_write, read_found, read_chunk,
  read, remove,
}

-- Every chunk has the capacity of its file between its offset and the next free one, no two chunks
-- overlap, and all are inside the region.
pub record IsValid (s : PmemStore) : Type 0 where
  pub within :
      (h i : ℕ) (c : ChunkLocation)
      → s.chunk_table h i ≡ some c
      → (c.offset + effective_chunk_size s h ≤ s.next_offset)
        × (c.valid_len ≤ effective_chunk_size s h)
  pub apart :
      (h i h' i' : ℕ) (c c' : ChunkLocation)
      → s.chunk_table h i ≡ some c
      → s.chunk_table h' i' ≡ some c'
      → (h == h' && i == i') ≡ false
      → (c.offset + effective_chunk_size s h ≤ c'.offset)
        ⊎ (c'.offset + effective_chunk_size s h' ≤ c.offset)
  pub fits : s.next_offset ≤ length s.region

pub new-IsValid :
    (region : Bytes) (max_chunk_capacity : ℕ) → IsValid (new region max_chunk_capacity)
unfolding new
new-IsValid region cap = record {
  within = λ h i c e. cc;
  apart = λ h i h' i' c c' e e' n. cc;
  fits = omega arith;
}

none≢some {ℓ} : {A : Type ℓ} {a : A} → ◌≡◌ {A = Option A} none (some a) → ⊥
none≢some e = cc

cap_allocate :
    (s : PmemStore) (h i cap h' : ℕ)
    → effective_chunk_size (allocate s h i cap) h' ≡ effective_chunk_size s h'
unfolding effective_chunk_size allocate
cap_allocate s h i cap h' = refl

allocate-IsValid :
    (s : PmemStore) (h i : ℕ)
    → IsValid s
    → s.next_offset + effective_chunk_size s h ≤ length s.region
    → IsValid (allocate s h i (effective_chunk_size s h))
unfolding allocate effective_chunk_size
allocate-IsValid s h i v room = record {
  within = λ h' i' c e. ground (arith, v.within h' i' c);
  apart = λ h' i' h'' i'' c c' e e' n.
      ground (arith, v.within h' i' c, v.within h'' i'' c', v.apart h' i' h'' i'' c c');
  fits = room;
}

set_chunk-IsValid :
    (s : PmemStore) (h i end : ℕ) (c : ChunkLocation)
    → IsValid s
    → end ≤ effective_chunk_size s h
    → s.chunk_table h i ≡ some c
    → IsValid (set_chunk s h i (grown c end))
unfolding set_chunk grown effective_chunk_size
set_chunk-IsValid s h i end c v le found = record {
  within = λ h' i' d e. ground (arith, v.within h' i' d, v.within h i c);
  apart = λ h' i' h'' i'' d d' e e' n.
      ground (arith, v.apart h' i' h'' i'' d d', v.apart h i h'' i'' c d', v.apart h' i' h i d c);
  fits = v.fits;
}

pub mark_valid-IsValid :
    (s : PmemStore) (h i end : ℕ) {s' : PmemStore}
    → IsValid s
    → end ≤ effective_chunk_size s h
    → mark_valid s h i end ≡ some s'
    → IsValid s'
unfolding mark_valid
mark_valid-IsValid s h i end v le e = elim (Option-cases (s.chunk_table h i)) [
  | inl missing ↦ absurd (none≢some (rw missing at e))
  | inr (c, found) ↦ of_some IsValid (rw found at e) (set_chunk-IsValid s h i end c v le found)
]

copy_in-IsValid :
    (s : PmemStore) (h i offset : ℕ) (bytes : Bytes) {s' : PmemStore}
    → IsValid s
    → copy_in s h i offset bytes ≡ some s'
    → IsValid s'
unfolding copy_in effective_chunk_size
copy_in-IsValid s h i offset bytes v e = elim (Option-cases (s.chunk_table h i)) [
  | inl missing ↦ absurd (none≢some (rw missing at e))
  | inr (c, found) ↦ of_some IsValid (rw found at e) (record {
    within = v.within;
    apart = v.apart;
    fits = omega (arith, v.fits, length-write_at s.region (c.offset + offset) bytes);
  })
]

pub ensure_chunk-IsValid :
    (s : PmemStore) (h i : ℕ) {s' : PmemStore}
    → IsValid s
    → ensure_chunk s h i (effective_chunk_size s h) ≡ some s'
    → IsValid s' × (effective_chunk_size s' h ≡ effective_chunk_size s h)
unfolding ensure_chunk
ensure_chunk-IsValid s h i {s'} v e = elim (Option-cases (s.chunk_table h i)) [
  | inl missing ↦
      let cap = effective_chunk_size s h in
      let (room, made) =
        if-eq-some (leb (s.next_offset + cap) (length s.region)) (some (allocate s h i cap))
          (rw (missing, ensure_chunk) at e) in
      of_some (λ t. IsValid t × (effective_chunk_size t h ≡ cap)) made
        (allocate-IsValid s h i v (leb→le _ _ room), cap_allocate s h i cap h)
  | inr (c, found) ↦
      of_some (λ t. IsValid t × (effective_chunk_size t h ≡ effective_chunk_size s h))
        (rw (found, ensure_chunk) at e) (v, refl)
]

-- On a valid store a write that does not panic keeps the chunks within their capacities, apart
-- from each other and inside the region.
pub write-IsValid :
    (s : PmemStore) (h i offset : ℕ) (bytes : Bytes) {s' : PmemStore}
    → IsValid s
    → write s h i offset bytes ≡ some s'
    → IsValid s'
unfolding write
write-IsValid s h i offset bytes v e =
    let cap = effective_chunk_size s h in
    let (fits, e₀) = if-eq-some (leb (offset + length bytes) cap) _ e in
    let (s₁, e₁, r₁) = and_then-eq-some (ensure_chunk s h i cap) _ e₀ in
    let (s₂, e₂, e₃) = and_then-eq-some (mark_valid s₁ h i (offset + length bytes)) _ r₁ in
    let (v₁, same) = ensure_chunk-IsValid s h i v e₁ in
    let v₂ =
      mark_valid-IsValid s₁ h i (offset + length bytes) v₁ (omega (arith, same, leb→le _ _ fits))
        e₂ in
    copy_in-IsValid s₂ h i offset bytes v₂ e₃

-- On a valid store a file without chunks may be given any chunk size: the store stays valid.
pub register_file-IsValid :
    (s : PmemStore) (h size : ℕ)
    → IsValid s
    → ((i : ℕ) → s.chunk_table h i ≡ none)
    → IsValid (register_file s h size)
unfolding register_file effective_chunk_size
register_file-IsValid s h size v free = record {
  within = λ h' i' d e. ground (arith, v.within h' i' d, free i');
  apart =
      λ h' i' h'' i'' d d' e e' n. ground (arith, v.apart h' i' h'' i'' d d', free i', free i'');
  fits = v.fits;
}

-- The store after a byte was written to a chunk that is there.
after_write : PmemStore → ℕ → ℕ → ChunkLocation → ℕ → ℕ → PmemStore
after_write s h i c offset b = record (set_chunk s h i (grown c (offset + 1))) {
  region = write_at s.region (c.offset + offset) (b ∷ []);
}

ensured :
    (s : PmemStore) (h i cap : ℕ) (c : ChunkLocation)
    → s.chunk_table h i ≡ some c
    → ensure_chunk s h i cap ≡ some s
unfolding ensure_chunk
ensured s h i cap c e = rw (e, ensure_chunk) refl

write_there :
    (s : PmemStore) (h i : ℕ) (c : ChunkLocation) (offset b : ℕ)
    → s.chunk_table h i ≡ some c
    → offset < effective_chunk_size s h
    → write s h i offset (b ∷ []) ≡ some (after_write s h i c offset b)
unfolding write mark_valid copy_in set_chunk after_write grown
write_there s h i c offset b e fits =
    let s₂ = set_chunk s h i (grown c (offset + 1)) in
    let below : leb (offset + 1) (effective_chunk_size s h) ≡ true = ground arith in
    let there : s₂.chunk_table h i ≡ some (grown c (offset + 1)) = ground arith in
    rw (below, ensured s h i (effective_chunk_size s h) c e, e, there) refl

-- When a file is given a chunk size that reaches from one of its chunks over a valid byte, inside the
-- region, of a chunk of another file that does not start before it, a write of a byte there succeeds,
-- and the other file's chunk is read with that byte.
pub register_file_overlaps :
    (s : PmemStore) (h i h' i' size j b : ℕ) (c c' : ChunkLocation)
    → s.chunk_table h i ≡ some c
    → s.chunk_table h' i' ≡ some c'
    → (h == h') ≡ false
    → c.offset ≤ c'.offset
    → c'.offset + j < c.offset + size
    → j < c'.valid_len
    → c'.offset + j < length s.region
    → (s' : PmemStore) × (write (register_file s h size) h i (c'.offset + j - c.offset) (b ∷ [])
        ≡ some s')
      × (read s' h' i' j 1 ≡ b ∷ [])
unfolding register_file effective_chunk_size read read_found read_chunk after_write set_chunk
register_file_overlaps s h i h' i' size j b c c' e e' n order over valid inside =
    let offset = c'.offset + j - c.offset in
    let shut : leb c'.valid_len j ≡ false = ground arith in
    (
      after_write (register_file s h size) h i c offset b,
      write_there (register_file s h size) h i c offset b e (ground arith),
      (rw (n, e', shut) refl)
          ∙ ap (λ m. read_at (write_at s.region (c.offset + offset) (b ∷ [])) (c'.offset + j) m)
              {x = min 1 (c'.valid_len - j)} {y = 1} (omega arith)
          ∙ ap (λ m. read_at (write_at s.region m (b ∷ [])) (c'.offset + j) 1)
              {x = c.offset + offset} {y = c'.offset + j} (omega arith)
          ∙ read-write_self s.region (c'.offset + j) (b ∷ []) (omega arith),
    )

-- Removing the first chunk of a file leaves what can be read of every chunk with another index,
-- those of the same file included.
pub read-remove_first :
    (s : PmemStore) (h i offset len : ℕ)
    → i ≢ 0
    → read (remove s h 0).0 h i offset len ≡ read s h i offset len
unfolding read read_found remove
read-remove_first s h i offset len n = ground arith

-- On a valid store what `prepare_write` lends lies inside the region, and after a commit of no
-- more bytes than it lent the store is valid.
pub prepare_write-IsValid :
    (s : PmemStore) (h i offset : ℕ) {s' : PmemStore} {at room : ℕ}
    → IsValid s
    → prepare_write s h i offset ≡ some (s', at, room)
    → IsValid s'
      × (at + room ≤ length s'.region)
      × ((n : ℕ) (s'' : PmemStore)
          → n ≤ room
          → commit_write s' h i offset n ≡ some s''
          → IsValid s'')
unfolding prepare_write commit_write
prepare_write-IsValid s h i offset {s'} {at} {room} v e =
    let cap = effective_chunk_size s h in
    let (fits, e₀) = if-eq-some (leb offset cap) _ e in
    let (s₁, e₁, r₁) = and_then-eq-some (ensure_chunk s h i cap) _ e₀ in
    let (c, found, e₂) = and_then-eq-some (s₁.chunk_table h i) _ r₁ in
    let (v₁, same) = ensure_chunk-IsValid s h i v e₁ in
    of_some
      (λ (r : PmemStore × ℕ × ℕ).
        IsValid r.0
        × (r.1 + r.2 ≤ length r.0.region)
        × ((n : ℕ) (s'' : PmemStore)
            → n ≤ r.2
            → mark_valid r.0 h i (offset + n) ≡ some s''
            → IsValid s''))
      e₂
      (
        v₁,
        omega (arith, same, v₁.within h i c found, v₁.fits, leb→le _ _ fits),
        λ n s'' le e'.
            mark_valid-IsValid s₁ h i (offset + n) v₁ (omega (arith, same, leb→le _ _ fits)) e',
      )
