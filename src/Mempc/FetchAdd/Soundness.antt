-- ===== src/Mempc/FetchAdd/Soundness.antt =====
-- What is true of the callers and the server of mempc/src/fetch_add.rs between any two steps.
use mathlib.Core.Path.{subst}
use locasta.Base.{
  ℕ, ◌+◌, ◌≤◌, ◌<◌, ◌≡◌, ◌≢◌, sym, ap, ◌∙◌, false, true, Option, some, List, ◌++◌, arith, length,
  get_elem?, get_or, get_or-set, get_or_past, set, take,
}
use native.Mathlib.Decide.{dec_lt, ℕ_discrete}
use locasta.Mempc.FetchAdd.{RequestRing, Caller, Stage, System, idle, nobody, caller_at}
use locasta.Mempc.FetchAdd.Claims.{count_of, claimed_still, count_still, get_elem?-lt}
use locasta.Mempc.FetchAdd.Invariant.{IsValid, StageIsValid, seq_at}

module _ {A : Type 0} where
  -- The requests handed over are the first claims, each with its number among its caller's.
  unfoldable pub AreHanded : List (ℕ × A) → List (ℕ × ℕ × A) → Type 0
  AreHanded claims handed =
      (j : ℕ)
      → j < length handed
      → (c : ℕ) × (v : A) × (get_elem? claims j ≡ some (c, v))
        × (get_elem? handed j ≡ some (c, count_of c (take j claims), v))

  -- A call that returned has the number of its claim among its caller's.
  unfoldable pub AreReturned : List (ℕ × A) → List (ℕ × ℕ × A) → Type 0
  AreReturned claims returned =
      (i c t : ℕ) (v : A)
      → get_elem? returned i ≡ some (c, t, v)
      → (j : ℕ) × (get_elem? claims j ≡ some (c, v)) × (count_of c (take j claims) ≡ t)

  pub record IsSound (k : ℕ) (s : System A) : Type 0 where
    pub ring : IsValid k s.ring s.claims
    pub stages :
        (c : ℕ) → StageIsValid k s.ring s.claims (caller_at s c).send_count c (caller_at s c).stage
    pub known : (p c : ℕ) (v : A) → get_elem? s.claims p ≡ some (c, v) → c < length s.recv_counts
    pub same_callers : length s.recv_counts ≡ length s.callers
    pub seen : s.found ≡ true → seq_at k s.ring s.ring.tail ≡ s.ring.tail + 1
    pub at_tail : length s.handed ≡ s.ring.tail
    pub counts : (c : ℕ) → get_or s.recv_counts c 0 ≡ count_of c (take s.ring.tail s.claims)
    pub handed : AreHanded s.claims s.handed
    pub returned : AreReturned s.claims s.returned
    pub loaded :
        (c : ℕ) (o : Option A)
        → s.loaded ≡ some (c, o)
        → (s.found ≡ true) × (x : A) × (o ≡ some x) × (get_elem? s.claims s.ring.tail ≡ some (c, x))
    pub read : s.misread ≡ false

  -- A caller that is in a call exists.
  pub in_range :
      (s : System A) (c : ℕ) (stage : Stage A)
      → (caller_at s c).stage ≡ stage
      → stage ≢ idle
      → c < length s.callers
  unfolding caller_at
  in_range s c stage e ne = elim (dec_lt c (length s.callers)) [
    | yes lt ↦ lt
    | no ge ↦
        absurd (
          ne
            (sym e ∙ ap (λ (x : Caller A). x.stage) (get_or_past s.callers c nobody (omega arith))))
  ]

  pub entered_in_range :
      (s : System A) (c : ℕ) (x : A) → (caller_at s c).entered ≡ some x → c < length s.callers
  unfolding caller_at
  entered_in_range s c x e = elim (dec_lt c (length s.callers)) [
    | yes lt ↦ lt
    | no ge ↦
        let none_there =
          ap (λ (y : Caller A). y.entered) (get_or_past s.callers c nobody (omega arith)) in
        absurd (cc)
  ]

  -- The others are not changed with a caller.
  pub stages-set :
      (k : ℕ) (r : RequestRing A) (claims : List (ℕ × A)) (callers : List (Caller A)) (c : ℕ)
      (x : Caller A)
      → c < length callers
      → StageIsValid k r claims x.send_count c x.stage
      → ((d : ℕ)
          → d ≢ c
          → StageIsValid k r claims
              (get_or callers d nobody).send_count
              d
              (get_or callers d nobody).stage)
      → (d : ℕ)
      → StageIsValid k r claims
          (get_or (set callers c x) d nobody).send_count
          d
          (get_or (set callers c x) d nobody).stage
  stages-set k r claims callers c x h own others d =
      let P = λ (d : ℕ) (y : Caller A). StageIsValid k r claims y.send_count d y.stage in
      let there : get_or (set callers c x) c nobody ≡ x =
        get_or-set callers c c x nobody h ∙ ground arith in
      elim (ℕ_discrete d c) [
        | yes e ↦
            subst (λ d. P d (get_or (set callers c x) d nobody)) (sym e)
              (subst (P c) (sym there) own)
        | no ne ↦
            let kept : get_or (set callers c x) d nobody ≡ get_or callers d nobody =
              get_or-set callers c d x nobody h ∙ ground (arith, ne) in
            subst (P d) (sym kept) (others d ne)
      ]

  -- More claims change nothing for those before.
  pub claim-AreHanded :
      (claims more : List (ℕ × A)) (handed : List (ℕ × ℕ × A))
      → length handed ≤ length claims
      → AreHanded claims handed
      → AreHanded (claims ++ more) handed
  unfolding AreHanded
  claim-AreHanded claims more handed h all j lt =
      let (c, v, at, there) = all j lt in
      (
        c,
        v,
        claimed_still claims more j (c, v) at,
        there ∙ ap (λ n. some (c, n, v)) (sym (count_still c claims more j (omega arith))),
      )

  pub claim-AreReturned :
      (claims more : List (ℕ × A)) (returned : List (ℕ × ℕ × A))
      → AreReturned claims returned
      → AreReturned (claims ++ more) returned
  unfolding AreReturned
  claim-AreReturned claims more returned all i c t v h =
      let (j, at, count) = all i c t v h in
      (
        j,
        claimed_still claims more j (c, v) at,
        count_still c claims more j (omega (arith, get_elem?-lt claims j (c, v) at)) ∙ count,
      )
