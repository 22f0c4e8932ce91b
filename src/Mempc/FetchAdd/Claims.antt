-- ===== src/Mempc/FetchAdd/Claims.antt =====
-- The claims of mempc/src/fetch_add.rs, of all callers and of one.
use mathlib.Core.Option.{some-injective}
use locasta.Base.{
  ℕ, zero, suc, ◌+◌, ◌≤◌, ◌<◌, ◌≡◌, sym, ap, ◌∙◌, some, List, [], ◌∷◌, ◌++◌, arith, ◌==◌, length,
  get_elem?, take, take-append_left, take-suc, get_elem?-append_left,
}
use locasta.Base.Counts.{one_if}
use native.Mathlib.Decide.{dec_lt}

module _ {A : Type 0} where
  -- How many of the claims are a caller's.
  abbrev pub count_of : ℕ → List (ℕ × A) → ℕ
  count_of c [] = 0
  count_of c ((d, v) ∷ claims) = one_if (d == c) + count_of c claims

  pub count_of-append_one :
      (c d : ℕ) (v : A) (claims : List (ℕ × A))
      → count_of c (claims ++ (d, v) ∷ []) ≡ count_of c claims + one_if (d == c)
  count_of-append_one c d v [] = omega arith
  count_of-append_one c d v ((e, w) ∷ claims) = omega (arith, count_of-append_one c d v claims)

  pub count_of-take-suc :
      (c d : ℕ) (v : A) (j : ℕ) (claims : List (ℕ × A))
      → get_elem? claims j ≡ some (d, v)
      → count_of c (take (suc j) claims) ≡ count_of c (take j claims) + one_if (d == c)
  count_of-take-suc c d v j claims at =
      ap (count_of c) (take-suc j claims (d, v) at) ∙ count_of-append_one c d v (take j claims)

  count_of-take-le :
      (c i j : ℕ) (claims : List (ℕ × A))
      → i ≤ j
      → count_of c (take i claims) ≤ count_of c (take j claims)
  count_of-take-le c zero j claims h = omega arith
  count_of-take-le c (suc i) zero claims h = absurd (omega arith)
  count_of-take-le c (suc i) (suc j) [] h = omega arith
  count_of-take-le c (suc i) (suc j) ((d, v) ∷ claims) h =
      omega (arith, count_of-take-le c i j claims (omega arith))

  not_before :
      (c i j : ℕ) (v : A) (claims : List (ℕ × A))
      → get_elem? claims i ≡ some (c, v)
      → i < j
      → count_of c (take i claims) < count_of c (take j claims)
  not_before c i j v claims at h =
      ground (arith, count_of-take-suc c c v i claims at, count_of-take-le c (suc i) j claims)

  claim_place :
      (c i j : ℕ) (v w : A) (claims : List (ℕ × A))
      → get_elem? claims i ≡ some (c, v)
      → get_elem? claims j ≡ some (c, w)
      → count_of c (take i claims) ≡ count_of c (take j claims)
      → i ≡ j
  claim_place c i j v w claims at_i at_j same = elim (dec_lt i j) [
    | yes lt ↦ absurd (omega (arith, not_before c i j v claims at_i lt, same))
    | no ge ↦ elim (dec_lt j i) [
      | yes gt ↦ absurd (omega (arith, not_before c j i w claims at_j gt, same))
      | no le ↦ omega arith
    ]
  ]

  -- A claim is determined by its caller and its number among that caller's.
  pub claim_unique :
      (c i j : ℕ) (v w : A) (claims : List (ℕ × A))
      → get_elem? claims i ≡ some (c, v)
      → get_elem? claims j ≡ some (c, w)
      → count_of c (take i claims) ≡ count_of c (take j claims)
      → v ≡ w
  claim_unique c i j v w claims at_i at_j same =
      let e = claim_place c i j v w claims at_i at_j same in
      ap (λ p. p.1) (some-injective (c, v) (c, w) (sym at_i ∙ ap (get_elem? claims) e ∙ at_j))

  pub get_elem?-lt :
      (claims : List (ℕ × A)) (p : ℕ) (x : ℕ × A) → get_elem? claims p ≡ some x → p < length claims
  get_elem?-lt [] p x h = cc
  get_elem?-lt (y ∷ claims) zero x h = omega arith
  get_elem?-lt (y ∷ claims) (suc p) x h = omega (arith, get_elem?-lt claims p x h)

  -- What is claimed stays claimed.
  pub claimed_still :
      (claims more : List (ℕ × A)) (p : ℕ) (x : ℕ × A)
      → get_elem? claims p ≡ some x
      → get_elem? (claims ++ more) p ≡ some x
  claimed_still claims more p x h =
      get_elem?-append_left claims more p (get_elem?-lt claims p x h) ∙ h

  -- And its number stays.
  pub count_still :
      (c : ℕ) (claims more : List (ℕ × A)) (p : ℕ)
      → p ≤ length claims
      → count_of c (take p (claims ++ more)) ≡ count_of c (take p claims)
  count_still c claims more p h = ap (count_of c) (take-append_left p claims more h)
