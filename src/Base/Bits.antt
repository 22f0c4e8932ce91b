-- ===== src/Base/Bits.antt =====
-- Laws of `&` and `|` with the masks that the source uses, at every width.
use Prim.Native.Nat.{
  ℕ, zero, suc, ◌+◌, ◌-◌, ◌*◌, ◌/◌, ◌%◌, ◌^◌, ◌≤◌, ◌<◌, min, max, bit_and, bit_or, digits, bitwise,
  bit_and-bitwise, bit_or-bitwise,
}
use mathlib.Core.Path.{◌≡◌, refl, sym, ap, ◌∙◌}
use native.Mathlib.Nat.{
  pow-suc, one-le-pow, div-add-mod, mul-add-mod_self_left, mod-add-mod, mod-lt, mod-eq_of_lt,
  mod-eq-sub-mod, div-div-eq-div-mul,
}
use native.Mathlib.Omega.{arith}
use mathlib.Core.Logic.{◌≢◌}
use locasta.Base.Tests.{◌==◌, if◌then◌else◌}

-- Once the fuel covers the number, one more round changes nothing.
module _ (z : ℕ → ℕ) (f : ℕ → ℕ → ℕ) where
  spare_round : (n a b : ℕ) → a ≤ n → digits z f (suc n) a b ≡ digits z f n a b
  spare_round zero zero b h = refl
  spare_round zero (suc a) b h = absurd (omega arith)
  spare_round (suc n) zero b h = refl
  spare_round (suc n) (suc a) b h = rw (spare_round n (suc a / 2) (b / 2) (omega arith))

  enough_rounds : (k a b : ℕ) → digits z f (k + a) a b ≡ bitwise z f a b
  enough_rounds zero a b = ap (λ n. digits z f n a b) (omega arith)
  enough_rounds (suc k) a b =
      ap (λ n. digits z f n a b) {y = suc (k + a)} (omega arith)
      ∙ spare_round (k + a) a b (omega arith)
      ∙ enough_rounds k a b

  lowest_digit :
      (a b : ℕ)
      → bitwise z f (suc a) b ≡ bitwise z f (suc a / 2) (b / 2) * 2 + f (suc a % 2) (b % 2)
  lowest_digit a b =
      rw (← enough_rounds (a - suc a / 2) (suc a / 2) (b / 2))
        (ap (λ n. digits z f n (suc a / 2) (b / 2) * 2 + f (suc a % 2) (b % 2)) (omega arith))

and_digit : (a b : ℕ) → bit_and a b ≡ bit_and (a / 2) (b / 2) * 2 + min (a % 2) (b % 2)
and_digit zero b = simp bit_and-bitwise (omega arith)
and_digit (suc a) b = simp bit_and-bitwise (lowest_digit (λ y. 0) min a b)

or_digit : (a b : ℕ) → bit_or a b ≡ bit_or (a / 2) (b / 2) * 2 + max (a % 2) (b % 2)
or_digit zero b = simp bit_or-bitwise (omega arith)
or_digit (suc a) b = simp bit_or-bitwise (lowest_digit (λ y. y) max a b)

and_nothing : (n a : ℕ) → a ≤ n → bit_and a 0 ≡ 0
and_nothing n zero h = refl
and_nothing zero (suc a) h = absurd (omega arith)
and_nothing (suc n) (suc a) h =
    omega (arith, and_digit (suc a) 0, and_nothing n (suc a / 2) (omega arith))

or_nothing : (n a : ℕ) → a ≤ n → bit_or a 0 ≡ a
or_nothing n zero h = refl
or_nothing zero (suc a) h = absurd (omega arith)
or_nothing (suc n) (suc a) h =
    omega (arith, or_digit (suc a) 0, or_nothing n (suc a / 2) (omega arith))

double_pow : (k : ℕ) → 2 ^ suc k ≡ 2 * 2 ^ k
double_pow k = pow-suc 2 k ∙ omega arith

-- Dividing by `2 ^ (k + 1)` is halving first.
div_double : (k a : ℕ) → a / 2 ^ suc k ≡ a / 2 / 2 ^ k
div_double k a = rw (double_pow k) (sym (div-div-eq-div-mul a 2 (2 ^ k)))

mod_double : (k a : ℕ) → a % 2 ^ suc k ≡ 2 * (a / 2 % 2 ^ k) + a % 2
mod_double k a = omega (
  arith,
  div_double k a,
  double_pow k,
  div-add-mod a (2 ^ suc k),
  div-add-mod (a / 2) (2 ^ k),
  ap (λ (t : ℕ). t * (a / 2 / 2 ^ k)) (double_pow k),
  ap (λ (t : ℕ). 2 ^ suc k * t) (div_double k a),
)

-- `a & (2 ^ k - 1)` is the remainder by `2 ^ k`.
pub bit_and_mask : (k a : ℕ) → bit_and a (2 ^ k - 1) ≡ a % 2 ^ k
bit_and_mask zero a = omega (arith, and_nothing a a (omega arith))
bit_and_mask (suc k) a = omega (
  arith,
  and_digit a (2 ^ suc k - 1),
  half_mask,
  ap (bit_and (a / 2)) half_mask,
  bit_and_mask k (a / 2),
  mod_double k a,
  double_pow k,
  one-le-pow k 2,
)
  where
    half_mask : (2 ^ suc k - 1) / 2 ≡ 2 ^ k - 1
    half_mask = omega (arith, double_pow k, one-le-pow k 2)

-- A mask of `j` ones above `k` zeros keeps the `j` digits from the `k`-th on, in place.
pub bit_and_field : (k j a : ℕ) → bit_and a ((2 ^ j - 1) * 2 ^ k) ≡ a / 2 ^ k % 2 ^ j * 2 ^ k
bit_and_field zero j a = omega (
  arith,
  ap (bit_and a) one,
  bit_and_mask j a,
  ap (λ (t : ℕ). t % 2 ^ j) {x = a / 2 ^ 0} {y = a} (omega arith),
)
  where
    one : (2 ^ j - 1) * 2 ^ 0 ≡ 2 ^ j - 1
    one = omega arith
bit_and_field (suc k) j a = omega (
  arith,
  and_digit a ((2 ^ j - 1) * 2 ^ suc k),
  ap (bit_and (a / 2)) halved,
  bit_and_field k j (a / 2),
  twice (2 ^ j - 1),
  twice (a / 2 ^ suc k % 2 ^ j),
  ap (λ (t : ℕ). t % 2 ^ j * 2 ^ k) (div_double k a),
)
  where
    twice : (t : ℕ) → t * 2 ^ suc k ≡ 2 * (t * 2 ^ k)
    twice t = omega (arith, ap (λ (u : ℕ). t * u) (double_pow k))

    halved : (2 ^ j - 1) * 2 ^ suc k / 2 ≡ (2 ^ j - 1) * 2 ^ k
    halved = omega (arith, twice (2 ^ j - 1))

-- `a | (1 << k)` sets one digit.
pub bit_or_at : (k a : ℕ) → bit_or a (2 ^ k) ≡ (if a / 2 ^ k % 2 == 0 then a + 2 ^ k else a)
bit_or_at zero a = ground (arith, or_digit a 1, or_nothing (a / 2) (a / 2) (omega arith))
bit_or_at (suc k) a = ground (
  arith,
  or_digit a (2 ^ suc k),
  ap (bit_or (a / 2)) halved,
  bit_or_at k (a / 2),
  double_pow k,
  div_double k a,
)
  where
    halved : 2 ^ suc k / 2 ≡ 2 ^ k
    halved = omega (arith, double_pow k)

-- `(hi << k) | lo` is a sum where `lo` fits below.
pub bit_or_pack : (k hi lo : ℕ) → lo < 2 ^ k → bit_or (hi * 2 ^ k) lo ≡ hi * 2 ^ k + lo
bit_or_pack zero hi lo h = omega (
  arith,
  ap (bit_or (hi * 2 ^ 0)) {x = lo} {y = 0} (omega arith),
  or_nothing (hi * 2 ^ 0) (hi * 2 ^ 0) (omega arith),
)
bit_or_pack (suc k) hi lo h = omega (
  arith,
  or_digit (hi * 2 ^ suc k) lo,
  twice,
  ap (λ (t : ℕ). bit_or t (lo / 2)) halved,
  bit_or_pack k hi (lo / 2) (omega (arith, double_pow k)),
)
  where
    twice : hi * 2 ^ suc k ≡ 2 * (hi * 2 ^ k)
    twice = omega (arith, ap (λ (u : ℕ). hi * u) (double_pow k))

    halved : hi * 2 ^ suc k / 2 ≡ hi * 2 ^ k
    halved = omega (arith, twice)

pub pow_split : (k j : ℕ) → 2 ^ (j + k) ≡ 2 ^ k * 2 ^ j
pow_split k zero = ap (λ n. 2 ^ n) {x = 0 + k} {y = k} (omega arith) ∙ omega arith
pow_split k (suc j) =
    ap (λ n. 2 ^ n) {x = suc j + k} {y = suc (j + k)} (omega arith)
    ∙ double_pow (j + k)
    ∙ omega (arith, pow_split k j, ap (λ (t : ℕ). 2 ^ k * t) (double_pow j))

pub mod-mod-mul : (h a b : ℕ) → h % (a * b) % a ≡ h % a
mod-mod-mul h a b =
    sym (mul-add-mod_self_left a (b * (h / (a * b))) (h % (a * b)))
    ∙ ap (λ n. n % a) (omega (arith, div-add-mod h (a * b)))

-- A wrapped u64 has the same low digits.
pub mod-mod-pow : (k h : ℕ) → k ≤ 64 → h % 2 ^ 64 % 2 ^ k ≡ h % 2 ^ k
mod-mod-pow k h le =
    ap (λ n. h % n % 2 ^ k)
      (ap (λ n. 2 ^ n) {x = 64} {y = 64 - k + k} (omega arith) ∙ pow_split k (64 - k))
    ∙ mod-mod-mul h (2 ^ k) (2 ^ (64 - k))

-- Numbers less than `n` apart have different remainders by `n`.
pub mod-ne_of_close : (i h n : ℕ) → i < h → h < i + n → i % n ≢ h % n
mod-ne_of_close i h n lt close e =
    let r = i % n in
    let d = h - i in
    ground (
      arith,
      mod-add-mod i n d ∙ ap (λ t. t % n) {x = i + d} {y = h} (omega arith),
      mod-lt i {m = n} (omega arith),
      mod-eq_of_lt {n = r + d} {m = n},
      mod-eq-sub-mod {n = r + d} {m = n},
      mod-eq_of_lt {n = r + d - n} {m = n},
    )
