-- ===== src/Mempc/Onesided/Invariant.antt =====
-- The invariant on a run of mempc/src/onesided.rs, step by step.
use native.Mathlib.Nat.{one-le-pow, pow-le-pow_right, mod-lt, mod-eq_of_lt, mod-eq-sub-mod}
use locasta.Base.{
  ℕ, suc, ◌+◌, ◌-◌, ◌%◌, ◌^◌, ◌≤◌, ◌<◌, ◌≡◌, sym, ap, true, false, List, arith, ◌==◌, length,
  get_or, set, get_or-set, if◌then◌else◌,
}
use native.Mathlib.Decide.{dec_lt}
use locasta.Base.Bits.{mod-ne_of_close}

-- The last 2 ^ k of the `heads` positions that were published stand in their cells, and the cells
-- beyond the first `heads` have the generation they were created with.
unfoldable pub AreGenerations : ℕ → List ℕ → ℕ → Type 0
AreGenerations k generations heads =
    ((p : ℕ) → p < heads → heads ≤ p + 2 ^ k → get_or generations (p % 2 ^ k) 0 ≡ p % 2 ^ 64)
    × ((p : ℕ) → heads ≤ p → p < 2 ^ k → get_or generations p 0 ≡ 2 ^ 64 - 1)

module _ (k : ℕ) (generations : List ℕ) (heads : ℕ) (small : k ≤ 63)
    (cells : length generations ≡ 2 ^ k) where
  bound : (2 ^ k < 2 ^ 64) × (1 ≤ 2 ^ k)
  bound =
      omega (arith, pow-le-pow_right {n = 2} (omega arith) {i = k} {j = 63} small, one-le-pow k 2)

  pub publish-AreGenerations :
      AreGenerations k generations heads
      → AreGenerations k (set generations (heads % 2 ^ k) (heads % 2 ^ 64)) (suc heads)
  unfolding AreGenerations
  publish-AreGenerations (recent, fresh) = (
    λ p lo hi. elim (dec_lt p heads) [
      | yes lt ↦ ground (
        arith,
        recent p lt,
        get_or-set generations (heads % 2 ^ k) (p % 2 ^ k) (heads % 2 ^ 64) 0,
        mod-lt heads {m = 2 ^ k} (omega (arith, bound)),
        mod-ne_of_close p heads (2 ^ k) lt (omega arith),
      )
      | no ge ↦
          let e : p ≡ heads = omega arith in
          rw e (
            ground (
              arith,
              get_or-set generations (heads % 2 ^ k) (heads % 2 ^ k) (heads % 2 ^ 64) 0,
              mod-lt heads {m = 2 ^ k} (omega (arith, bound)),
            ))
    ],
    λ p lo hi. ground (
      arith,
      fresh p,
      get_or-set generations (heads % 2 ^ k) p (heads % 2 ^ 64) 0,
      mod-lt heads {m = 2 ^ k} (omega (arith, bound)),
      mod-eq_of_lt {n = heads} {m = 2 ^ k} (omega arith),
    ),
  )

  -- A position is found in its cell exactly if it was published.
  pub generation_lem :
      (p : ℕ)
      → AreGenerations k generations heads
      → p ≤ heads
      → heads ≤ p + 2 ^ k
      → (get_or generations (p % 2 ^ k) 0 == p % 2 ^ 64) ≡ (if p == heads then false else true)
  unfolding AreGenerations
  generation_lem p (recent, fresh) le hi = elim (dec_lt p heads) [
    | yes lt ↦ ground (arith, recent p lt hi)
    | no ge ↦ elim (dec_lt p (2 ^ k)) [
      | yes first ↦ ground (
        arith,
        fresh p (omega arith) first,
        bound,
        mod-eq_of_lt {n = p} {m = 2 ^ k} first,
        mod-eq_of_lt {n = p} {m = 2 ^ 64} (omega (arith, bound)),
        ap (λ j. get_or generations j 0) (mod-eq_of_lt {n = p} {m = 2 ^ k} first),
      )
      | no later ↦
          let q = p - 2 ^ k in
          ground (
            arith,
            recent q (omega (arith, bound)) (omega arith),
            ap (λ j. get_or generations j 0) {x = q % 2 ^ k} {y = p % 2 ^ k}
                (sym (mod-eq-sub-mod (omega arith))),
            mod-ne_of_close q p (2 ^ 64) (omega (arith, bound)) (omega (arith, bound)),
          )
    ]
  ]
