-- ===== src/Aggfs/Store/Contents.antt =====
-- What aggfs/src/store.rs reads after a write.
use locasta.Base.{
  ℕ, ◌+◌, ◌-◌, ◌∷◌, ◌≤◌, ◌≡◌, refl, ap, ◌∙◌, ◌⊎◌, inl, inr, false, Option, none, some, [], arith,
  leb, ◌==◌, ◌&&◌, ◌||◌, is_some, length, min, Bool-cases, Option-cases, of_some, and_then-eq-some,
  if-eq-some, leb→le,
}
use locasta.Base.Bytes.{
  Bytes, write_at, read_at, read-write_self, read-write_before, read-write_after,
}
use locasta.Aggfs.Store.{
  ChunkLocation, PmemStore, effective_chunk_size, allocate, ensure_chunk, set_chunk, grown,
  mark_valid, copy_in, write, read_chunk, read_found, read,
}
use locasta.Aggfs.Store.Chunks.{IsValid, ensure_chunk-IsValid, mark_valid-IsValid}

none≢some {ℓ} : {A : Type ℓ} {a : A} → ◌≡◌ {A = Option A} none (some a) → ⊥
none≢some e = cc

-- The chunk's bytes up to the end that was marked can be read, and another chunk is as before.
mark_valid_lem :
    (s : PmemStore) (h i end : ℕ) {s' : PmemStore}
    → mark_valid s h i end ≡ some s'
    → ((c : ChunkLocation) × (s'.chunk_table h i ≡ some c) × (end ≤ c.valid_len))
      × (s'.region ≡ s.region)
      × ((h' i' : ℕ) → (h == h' && i == i') ≡ false → s'.chunk_table h' i' ≡ s.chunk_table h' i')
unfolding mark_valid set_chunk grown
mark_valid_lem s h i end {s'} e = elim (Option-cases (s.chunk_table h i)) [
  | inl missing ↦ absurd (none≢some (rw missing at e))
  | inr (c, found) ↦
      of_some
        (λ t.
          ((c : ChunkLocation) × (t.chunk_table h i ≡ some c) × (end ≤ c.valid_len))
          × (t.region ≡ s.region)
          × ((h' i' : ℕ)
              → (h == h' && i == i') ≡ false
              → t.chunk_table h' i' ≡ s.chunk_table h' i'))
        (rw found at e) ((grown c end, ground arith, ground arith), refl, λ h' i' n. ground arith)
]

ensure_chunk_lem :
    (s : PmemStore) (h i cap : ℕ) {s' : PmemStore}
    → ensure_chunk s h i cap ≡ some s'
    → (s'.region ≡ s.region)
      × ((h' i' : ℕ) → (h == h' && i == i') ≡ false → s'.chunk_table h' i' ≡ s.chunk_table h' i')
unfolding ensure_chunk allocate
ensure_chunk_lem s h i cap {s'} e = elim (Option-cases (s.chunk_table h i)) [
  | inl missing ↦
      let (_, made) =
        if-eq-some (leb (s.next_offset + cap) (length s.region)) (some (allocate s h i cap))
          (rw (missing, ensure_chunk) at e) in
      of_some
        (λ t.
          (t.region ≡ s.region)
          × ((h' i' : ℕ)
              → (h == h' && i == i') ≡ false
              → t.chunk_table h' i' ≡ s.chunk_table h' i'))
        made (refl, λ h' i' n. ground arith)
  | inr (c, found) ↦
      of_some
        (λ t.
          (t.region ≡ s.region)
          × ((h' i' : ℕ)
              → (h == h' && i == i') ≡ false
              → t.chunk_table h' i' ≡ s.chunk_table h' i'))
        (rw (found, ensure_chunk) at e) (refl, λ h' i' n. refl)
]

nil_of_length : (bs : Bytes) → length bs ≡ 0 → [] ≡ bs
nil_of_length [] h = refl
nil_of_length (b ∷ bs) h = absurd (omega arith)

read_chunk-write_at :
    (region : Bytes) (c : ChunkLocation) (offset : ℕ) (bytes : Bytes)
    → offset + length bytes ≤ c.valid_len
    → c.offset + c.valid_len ≤ length region
    → read_chunk (write_at region (c.offset + offset) bytes) c offset (length bytes) ≡ bytes
unfolding read_chunk
read_chunk-write_at region c offset bytes fits room = elim (Bool-cases (leb c.valid_len offset)) [
  | inl over ↦ rw over (nil_of_length bytes (omega (arith, leb→le _ _ over)))
  | inr within ↦ rw within (
      ap (read_at (write_at region (c.offset + offset) bytes) (c.offset + offset))
        {x = min (length bytes) (c.valid_len - offset)} {y = length bytes} (omega arith)
      ∙ read-write_self region (c.offset + offset) bytes (omega arith))
]

-- Bytes written outside of what a chunk may show do not show in it.
read_chunk-write_apart :
    (region : Bytes) (c : ChunkLocation) (offset len start : ℕ) (bytes : Bytes)
    → (start + length bytes ≤ c.offset) ⊎ (c.offset + c.valid_len ≤ start)
    → read_chunk (write_at region start bytes) c offset len ≡ read_chunk region c offset len
unfolding read_chunk
read_chunk-write_apart region c offset len start bytes side =
    elim (Bool-cases (leb c.valid_len offset)) [
      | inl over ↦ rw over refl
      | inr within ↦ rw within (elim side [
        | inl below ↦
            read-write_after region start bytes (c.offset + offset) (min len (c.valid_len - offset))
              (omega arith)
        | inr above ↦
            read-write_before region start bytes (c.offset + offset)
              (min len (c.valid_len - offset)) (ground (arith, within))
      ])
    ]

copy_in_self :
    (s : PmemStore) (h i offset : ℕ) (bytes : Bytes) (c : ChunkLocation) {s' : PmemStore}
    → IsValid s
    → s.chunk_table h i ≡ some c
    → offset + length bytes ≤ c.valid_len
    → copy_in s h i offset bytes ≡ some s'
    → read s' h i offset (length bytes) ≡ bytes
unfolding copy_in read read_found
copy_in_self s h i offset bytes c v found fits e =
    of_some (λ t. read t h i offset (length bytes) ≡ bytes) (rw found at e)
      (rw found (
        read_chunk-write_at s.region c offset bytes fits
          (omega (arith, v.within h i c found, v.fits))))

copy_in_other :
    (s : PmemStore) (h i offset : ℕ) (bytes : Bytes) (c : ChunkLocation) (h' i' at n : ℕ)
    {s' : PmemStore}
    → IsValid s
    → s.chunk_table h i ≡ some c
    → offset + length bytes ≤ c.valid_len
    → (h == h' && i == i') ≡ false
    → copy_in s h i offset bytes ≡ some s'
    → read s' h' i' at n ≡ read s h' i' at n
unfolding copy_in read read_found
copy_in_other s h i offset bytes c h' i' at n v found fits ne e =
    of_some (λ t. read t h' i' at n ≡ read s h' i' at n) (rw found at e)
      (elim (Option-cases (s.chunk_table h' i')) [
        | inl missing ↦ rw missing refl
        | inr (d, there) ↦ rw there (
            read_chunk-write_apart s.region d at n (c.offset + offset) bytes
              (ground (arith, v.within h i c, v.within h' i' d, v.apart h i h' i' c d)))
      ])

read_cong :
    (a b : PmemStore) (h i at n : ℕ)
    → a.chunk_table h i ≡ b.chunk_table h i
    → a.region ≡ b.region
    → read a h i at n ≡ read b h i at n
unfolding read
read_cong a b h i at n p q = λ j. read_found (q j) (p j) at n

-- On a valid store, after a write that does not panic what was written to a chunk is read back
-- from it, and every other chunk reads as before.
pub read-write :
    (s : PmemStore) (h i offset : ℕ) (bytes : Bytes) {s' : PmemStore}
    → IsValid s
    → write s h i offset bytes ≡ some s'
    → (read s' h i offset (length bytes) ≡ bytes)
      × ((h' i' at n : ℕ) → (h == h' && i == i') ≡ false → read s' h' i' at n ≡ read s h' i' at n)
unfolding write
read-write s h i offset bytes v e =
    let cap = effective_chunk_size s h in
    let end = offset + length bytes in
    let (fits, e₀) = if-eq-some (leb end cap) _ e in
    let (s₁, e₁, r₁) = and_then-eq-some (ensure_chunk s h i cap) _ e₀ in
    let (s₂, e₂, e₃) = and_then-eq-some (mark_valid s₁ h i end) _ r₁ in
    let (v₁, same) = ensure_chunk-IsValid s h i v e₁ in
    let v₂ = mark_valid-IsValid s₁ h i end v₁ (omega (arith, same, leb→le _ _ fits)) e₂ in
    let ((c, found, marked), reg, kept) = mark_valid_lem s₁ h i end e₂ in
    let (reg₁, kept₁) = ensure_chunk_lem s h i cap e₁ in
    (
      copy_in_self s₂ h i offset bytes c v₂ found marked e₃,
      λ h' i' at n ne.
          copy_in_other s₂ h i offset bytes c h' i' at n v₂ found marked ne e₃
          ∙ read_cong s₂ s h' i' at n (kept h' i' ne ∙ kept₁ h' i' ne) (reg ∙ reg₁),
    )

-- A write panics exactly if the bytes do not fit the capacity of the file's chunks, or if the
-- chunk is not there and the region has no room for another one of that capacity.
pub is_some-write :
    (s : PmemStore) (h i offset : ℕ) (bytes : Bytes)
    → is_some (write s h i offset bytes) ≡ (
        leb (offset + length bytes) (effective_chunk_size s h)
        && (is_some (s.chunk_table h i)
            || leb (s.next_offset + effective_chunk_size s h) (length s.region)))
unfolding write ensure_chunk allocate mark_valid set_chunk copy_in
is_some-write s h i offset bytes = elim (Option-cases (s.chunk_table h i)) [
  | inl missing ↦ ground (arith, missing)
  | inr (c, found) ↦ ground (arith, found)
]
