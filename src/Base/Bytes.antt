-- ===== src/Base/Bytes.antt =====
-- Memory as a list of bytes, and little-endian words in it.
use Prim.Native.Nat.{ℕ, zero, suc, ◌+◌, ◌-◌, ◌*◌, ◌/◌, ◌%◌, ◌^◌, ◌≤◌, ◌<◌}
use mathlib.Core.Path.{◌≡◌, refl, ap}
use mathlib.Core.List.{List, [], ◌∷◌}
use native.Mathlib.Nat.{pow-suc}
use native.Mathlib.Omega.{arith}
use locasta.Base.Tests.{if◌then◌else◌, ltb}
use locasta.Base.Lists.{length, take, drop, get_or}

abbrev pub Bytes : Type 0
Bytes = List ℕ

-- Copy bytes to an offset. What would lie past the end is not written.
abbrev pub write_at : Bytes → ℕ → Bytes → Bytes
write_at [] off bs = []
write_at (x ∷ xs) zero [] = x ∷ xs
write_at (x ∷ xs) zero (b ∷ bs) = b ∷ write_at xs zero bs
write_at (x ∷ xs) (suc off) bs = x ∷ write_at xs off bs

abbrev pub read_at : Bytes → ℕ → ℕ → Bytes
read_at buf off n = take n (drop off buf)

-- `to_le_bytes` and `from_le_bytes` of a word of `w` bytes.
abbrev pub to_le : ℕ → ℕ → Bytes
to_le zero v = []
to_le (suc w) v = (v % 256) ∷ to_le w (v / 256)

abbrev pub from_le : Bytes → ℕ
from_le [] = 0
from_le (b ∷ bs) = b + 256 * from_le bs

pub length-write_at :
    (buf : Bytes) (off : ℕ) (bs : Bytes) → length (write_at buf off bs) ≡ length buf
length-write_at [] off bs = refl
length-write_at (x ∷ xs) zero [] = refl
length-write_at (x ∷ xs) zero (b ∷ bs) = ap suc (length-write_at xs zero bs)
length-write_at (x ∷ xs) (suc off) bs = ap suc (length-write_at xs off bs)

pub read-write_self :
    (buf : Bytes) (off : ℕ) (bs : Bytes)
    → off + length bs ≤ length buf
    → read_at (write_at buf off bs) off (length bs) ≡ bs
read-write_self [] zero [] h = refl
read-write_self [] (suc off) [] h = absurd (omega arith)
read-write_self [] off (b ∷ bs) h = absurd (omega arith)
read-write_self (x ∷ xs) zero [] h = refl
read-write_self (x ∷ xs) zero (b ∷ bs) h =
    ap (λ r. b ∷ r) (read-write_self xs zero bs (omega arith))
read-write_self (x ∷ xs) (suc off) bs h = read-write_self xs off bs (omega arith)

pub read-write_before :
    (buf : Bytes) (off : ℕ) (bs : Bytes) (at n : ℕ)
    → at + n ≤ off
    → read_at (write_at buf off bs) at n ≡ read_at buf at n
read-write_before [] off bs at n h = refl
read-write_before (x ∷ xs) zero bs zero zero h = refl
read-write_before (x ∷ xs) zero bs zero (suc n) h = absurd (omega arith)
read-write_before (x ∷ xs) zero bs (suc at) n h = absurd (omega arith)
read-write_before (x ∷ xs) (suc off) bs zero zero h = refl
read-write_before (x ∷ xs) (suc off) bs zero (suc n) h =
    ap (λ r. x ∷ r) (read-write_before xs off bs zero n (omega arith))
read-write_before (x ∷ xs) (suc off) bs (suc at) n h =
    read-write_before xs off bs at n (omega arith)

pub read-write_after :
    (buf : Bytes) (off : ℕ) (bs : Bytes) (at n : ℕ)
    → off + length bs ≤ at
    → read_at (write_at buf off bs) at n ≡ read_at buf at n
read-write_after [] off bs at n h = refl
read-write_after (x ∷ xs) zero [] at n h = refl
read-write_after (x ∷ xs) zero (b ∷ bs) zero n h = absurd (omega arith)
read-write_after (x ∷ xs) zero (b ∷ bs) (suc at) n h =
    read-write_after xs zero bs at n (omega arith)
read-write_after (x ∷ xs) (suc off) bs zero n h = absurd (omega arith)
read-write_after (x ∷ xs) (suc off) bs (suc at) n h = read-write_after xs off bs at n (omega arith)

-- One byte after a copy.
pub get_or-write_at :
    (buf : Bytes) (off : ℕ) (bs : Bytes) (i d : ℕ)
    → off + length bs ≤ length buf
    → get_or (write_at buf off bs) i d ≡ (
        if ltb i off
        then get_or buf i d
        else if ltb i (off + length bs)
        then get_or bs (i - off) d
        else get_or buf i d)
get_or-write_at [] zero [] i d h = ground arith
get_or-write_at [] (suc off) [] i d h = absurd (omega arith)
get_or-write_at [] off (b ∷ bs) i d h = absurd (omega arith)
get_or-write_at (x ∷ xs) zero [] i d h = ground arith
get_or-write_at (x ∷ xs) zero (b ∷ bs) zero d h = ground arith
get_or-write_at (x ∷ xs) zero (b ∷ bs) (suc i) d h = ground (arith, get_or-write_at xs zero bs i d)
get_or-write_at (x ∷ xs) (suc off) bs zero d h = ground arith
get_or-write_at (x ∷ xs) (suc off) bs (suc i) d h = ground (arith, get_or-write_at xs off bs i d)

pub length-to_le : (w v : ℕ) → length (to_le w v) ≡ w
length-to_le zero v = refl
length-to_le (suc w) v = ap suc (length-to_le w (v / 256))

-- A word survives the trip through its bytes.
pub from_le-to_le : (w v : ℕ) → v < 256 ^ w → from_le (to_le w v) ≡ v
from_le-to_le zero v h = omega arith
from_le-to_le (suc w) v h = omega (arith, from_le-to_le w (v / 256) (omega (arith, pow-suc 256 w)))

-- What lies inside a copy is read from the copied bytes.
pub read-write_within :
    (buf : Bytes) (bs : Bytes) (at n : ℕ)
    → length bs ≤ length buf
    → at + n ≤ length bs
    → read_at (write_at buf 0 bs) at n ≡ read_at bs at n
read-write_within [] [] at n h k = refl
read-write_within [] (b ∷ bs) at n h k = absurd (omega arith)
read-write_within (x ∷ xs) [] zero zero h k = refl
read-write_within (x ∷ xs) [] zero (suc n) h k = absurd (omega arith)
read-write_within (x ∷ xs) [] (suc at) n h k = absurd (omega arith)
read-write_within (x ∷ xs) (b ∷ bs) zero zero h k = refl
read-write_within (x ∷ xs) (b ∷ bs) zero (suc n) h k =
    ap (λ r. b ∷ r) (read-write_within xs bs zero n (omega arith) (omega arith))
read-write_within (x ∷ xs) (b ∷ bs) (suc at) n h k =
    read-write_within xs bs at n (omega arith) (omega arith)
