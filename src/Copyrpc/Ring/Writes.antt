-- ===== src/Copyrpc/Ring/Writes.antt =====
-- `RingBuffer::write` of copyrpc/src/ring.rs: where its bytes lie.
use native.Mathlib.Nat.{one-le-pow, mod-lt, mod-add-mod, mod-eq_of_lt, mod-eq-sub-mod}
use locasta.Base.{
  ℕ, ◌+◌, ◌-◌, ◌%◌, ◌^◌, ◌≤◌, ◌<◌, ◌≡◌, refl, some, arith, ltb, leb, if◌then◌else◌, length, get_or,
  take, drop, length-take, length-drop, get_or-take, get_or-drop,
}
use locasta.Base.Bytes.{Bytes, write_at, get_or-write_at, length-write_at}
use locasta.Copyrpc.Ring.{RingBuffer, to_offset, write}
use locasta.Copyrpc.Ring.Positions.{to_offset-eq-mod}

-- The buffer after `write` at an offset.
abbrev written : Bytes → ℕ → Bytes → Bytes
written buf o bytes =
    if leb (o + length bytes) (length buf)
    then write_at buf o bytes
    else write_at (write_at buf o (take (length buf - o) bytes)) 0 (drop (length buf - o) bytes)

round_mod : (o i n : ℕ) → o < n → i < n → (o + i) % n ≡ (if ltb (o + i) n then o + i else o + i - n)
round_mod o i n h k = ground (
  arith,
  mod-eq_of_lt {n = o + i} {m = n},
  mod-eq-sub-mod {n = o + i} {m = n},
  mod-eq_of_lt {n = o + i - n} {m = n},
)

get_or-written :
    (buf : Bytes) (o : ℕ) (bytes : Bytes) (i : ℕ)
    → o < length buf
    → length bytes ≤ length buf
    → i < length buf
    → get_or (written buf o bytes) ((o + i) % length buf) 0
      ≡ (if ltb i (length bytes) then get_or bytes i 0 else get_or buf ((o + i) % length buf) 0)
get_or-written buf o bytes i ho hb hi =
    let n = length buf in
    let first = take (n - o) bytes in
    let rest = drop (n - o) bytes in
    let j = (o + i) % n in
    ground (
      arith,
      round_mod o i n ho hi,
      get_or-write_at buf o bytes j 0,
      get_or-write_at buf o first j 0,
      get_or-write_at (write_at buf o first) 0 rest j 0,
      length-write_at buf o first,
      length-take (n - o) bytes,
      length-drop (n - o) bytes,
      get_or-take (n - o) (j - o) bytes 0,
      get_or-drop (n - o) j bytes 0,
    )

length-written : (buf : Bytes) (o : ℕ) (bytes : Bytes) → length (written buf o bytes) ≡ length buf
length-written buf o bytes =
    let first = take (length buf - o) bytes in
    ground (
      arith,
      length-write_at buf o bytes,
      length-write_at buf o first,
      length-write_at (write_at buf o first) 0 (drop (length buf - o) bytes),
    )

write-written :
    (r : RingBuffer) (bytes : Bytes)
    → length bytes ≤ length r.buf
    → write r bytes
      ≡ some (
        record r { buf = written r.buf (to_offset r.state r.state.producer) bytes },
        r.state.producer,
      )
unfolding write
write-written r bytes h = ground arith

-- Bytes no longer than the ring are written without a panic at the producer's position: the i-th
-- one lies at the i-th virtual position from there on, modulo the size, also round the end. All
-- other bytes of the ring stay, and so do its length and its positions.
pub write_lem :
    (r : RingBuffer) (k : ℕ) (bytes : Bytes)
    → r.state.size ≡ 2 ^ k
    → r.state.size < 2 ^ 64
    → length r.buf ≡ r.state.size
    → length bytes ≤ r.state.size
    → (out : RingBuffer) × (write r bytes ≡ some (out, r.state.producer))
      × (out.state ≡ r.state)
      × (length out.buf ≡ length r.buf)
      × ((i : ℕ)
          → i < r.state.size
          → get_or out.buf ((r.state.producer + i) % r.state.size) 0 ≡ (
              if ltb i (length bytes)
              then get_or bytes i 0
              else get_or r.buf ((r.state.producer + i) % r.state.size) 0))
write_lem r k bytes e small len fits =
    let o = to_offset r.state r.state.producer in
    (
      record r { buf = written r.buf o bytes },
      write-written r bytes (omega arith),
      refl,
      length-written r.buf o bytes,
      λ i hi. byte i hi,
    )
  where
    open r.state use {producer, size}

    offset : to_offset r.state producer ≡ producer % size
    offset = to_offset-eq-mod r.state k producer e small

    position : (i : ℕ) → (to_offset r.state producer + i) % length r.buf ≡ (producer + i) % size
    position i = rw (offset, len) (mod-add-mod producer size i)

    byte :
        (i : ℕ)
        → i < size
        → get_or (written r.buf (to_offset r.state producer) bytes) ((producer + i) % size) 0 ≡ (
            if ltb i (length bytes)
            then get_or bytes i 0
            else get_or r.buf ((producer + i) % size) 0)
    byte i hi = rw (← position i) (
        get_or-written r.buf (to_offset r.state producer) bytes i
          (omega (
            arith,
            offset,
            len,
            e,
            one-le-pow k 2,
            mod-lt producer {m = size} (omega (arith, e, one-le-pow k 2)),
          ))
          (omega arith) (omega arith))
