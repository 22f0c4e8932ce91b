-- ===== src/Mempc/FetchAdd/Owners.antt =====
-- Which callers are on their way to the claimed positions of mempc/src/fetch_add.rs.
use mathlib.Core.Path.{subst}
use locasta.Base.{
  is_some, some, none, Option, ℕ, ◌+◌, ◌%◌, ◌^◌, ◌≤◌, ◌<◌, ◌≡◌, ◌⊎◌, inl, inr, sym, ap, ◌∙◌, false,
  true, not, ◌||◌, List, [], ◌∷◌, ◌++◌, arith, ltb, leb, if◌then◌else◌, Bool-split, length, get_or,
  get_or-set, set,
}
use native.Mathlib.Decide.{dec_lt, ℕ_discrete}
use locasta.Mempc.FetchAdd.{
  RequestRing, Caller, Stage, System, idle, spinning, writing, written, failed, nobody, caller_at,
  set_stage, begin, claim_slot, look, write, publish, claim, is_free, write_slot, mark_ready,
}
use locasta.Mempc.FetchAdd.Invariant.{seq_at}
use locasta.Mempc.FetchAdd.Popping.{stored, stored_other, other_slot}
use locasta.Mempc.FetchAdd.Soundness.{IsSound, in_range, entered_in_range}
use locasta.Mempc.FetchAdd.Calling.{own_stage}

module _ {A : Type 0} where
  -- A caller at this stage is on its way to a position.
  abbrev pub Owns : Stage A → ℕ → Type 0
  Owns idle p = ⊥
  Owns (spinning busy q x) p = q ≡ p
  Owns (writing q x) p = q ≡ p
  Owns (written q x) p = q ≡ p
  Owns failed p = ⊥

  abbrev pub HasOwner : List (Caller A) → ℕ → Type 0
  HasOwner callers p = (c : ℕ) × Owns (get_or callers c nobody).stage p

  owner-set :
      (callers : List (Caller A)) (c p : ℕ) (x : Caller A)
      → c < length callers
      → (Owns (get_or callers c nobody).stage p → Owns x.stage p)
      → HasOwner callers p
      → HasOwner (set callers c x) p
  owner-set callers c p x h own (d, o) = elim (ℕ_discrete d c) [
    | yes e ↦
        let there : get_or (set callers c x) c nobody ≡ x =
          get_or-set callers c c x nobody h ∙ ground arith in
        (
          c,
          subst (λ (y : Caller A). Owns y.stage p) (sym there)
              (own (subst (λ d. Owns (get_or callers d nobody).stage p) e o)),
        )
    | no ne ↦
        let kept : get_or (set callers c x) d nobody ≡ get_or callers d nobody =
          get_or-set callers c d x nobody h ∙ ground (arith, ne) in
        (d, subst (λ (y : Caller A). Owns y.stage p) (sym kept) o)
  ]

  module _ (k : ℕ) where
    abbrev pub IsReached : RequestRing A → List (Caller A) → ℕ → Type 0
    IsReached r callers p = ((p < r.tail + 2 ^ k) × (seq_at k r p ≡ p + 1)) ⊎ HasOwner callers p

    abbrev pub IsComplete : System A → Type 0
    IsComplete s =
        s.ring.rx_alive ≡ true
        → (p : ℕ) → s.ring.tail ≤ p
        → p < s.ring.head
        → IsReached s.ring s.callers p

    module _ (s : System A) (v : IsSound k s) (all : IsComplete s) where
      -- One caller is replaced by one on its way to the same position.
      pub replaced :
          (c : ℕ) (x : Caller A)
          → c < length s.callers
          → ((p : ℕ) → Owns (caller_at s c).stage p → Owns x.stage p)
          → IsComplete (record s { callers = set s.callers c x })
      unfolding caller_at
      replaced c x h own alive p lo hi = elim (all alive p lo hi) [
        | inl ready ↦ inl ready
        | inr owner ↦ inr (owner-set s.callers c p x h (own p) owner)
      ]

      at_stage :
          (c : ℕ) (stage : Stage A) (p : ℕ)
          → (caller_at s c).stage ≡ stage
          → Owns (caller_at s c).stage p
          → Owns stage p
      at_stage c stage p e o = subst (λ t. Owns t p) e o

      begun :
          (c : ℕ) (x : A)
          → c < length s.callers
          → (caller_at s c).stage ≡ idle
          → IsComplete (record (set_stage s c (spinning false s.ring.head x)) {
            ring = claim s.ring;
            claims = s.claims ++ (c, x) ∷ [];
          })
      unfolding claim set_stage caller_at
      begun c x h e alive p lo hi =
          let caller = record (caller_at s c) {
            stage = spinning false s.ring.head x;
            entered = none;
          } in
          elim (dec_lt p s.ring.head) [
            | yes lt ↦ elim (all alive p lo lt) [
              | inl ready ↦ inl ready
              | inr owner ↦
                  inr (owner-set s.callers c p caller h (λ o. absurd (at_stage c idle p e o)) owner)
            ]
            | no ge ↦
                let there : get_or (set s.callers c caller) c nobody ≡ caller =
                  get_or-set s.callers c c caller nobody h ∙ ground arith in
                let new : Owns caller.stage p = omega arith in
                inr (c, subst (λ (y : Caller A). Owns y.stage p) (sym there) new)
          ]

      pub begin-IsComplete :
          (c : ℕ) (x : A) (stage : Stage A)
          → (caller_at s c).stage ≡ stage
          → IsComplete (begin s c x stage)
      unfolding begin
      begin-IsComplete c x idle e =
          Bool-split
            (λ b. IsComplete (
              if b then s else record s {
                callers = set s.callers c (record (caller_at s c) { entered = some x });
              }))
            (not (ltb c (length s.callers))
              || (is_some (caller_at s c).entered
                  || (leb (caller_at s c).max_inflight (caller_at s c).inflight
                      || not s.ring.rx_alive)))
            (λ b. all)
            (λ b.
              replaced c (record (caller_at s c) { entered = some x }) (ground (arith, b))
                (λ p o. o))
      begin-IsComplete c x (spinning busy pos w) e = all
      begin-IsComplete c x (writing pos w) e = all
      begin-IsComplete c x (written pos w) e = all
      begin-IsComplete c x failed e = all

      pub claim_slot-IsComplete :
          (c : ℕ) (o : Option A) (stage : Stage A)
          → (caller_at s c).entered ≡ o
          → (caller_at s c).stage ≡ stage
          → IsComplete (claim_slot s c o stage)
      unfolding claim_slot
      claim_slot-IsComplete c none stage at e = all
      claim_slot-IsComplete c (some x) idle at e = begun c x (entered_in_range s c x at) e
      claim_slot-IsComplete c (some x) (spinning busy pos w) at e = all
      claim_slot-IsComplete c (some x) (writing pos w) at e = all
      claim_slot-IsComplete c (some x) (written pos w) at e = all
      claim_slot-IsComplete c (some x) failed at e = all

      pub look-IsComplete :
          (c : ℕ) (stage : Stage A) → (caller_at s c).stage ≡ stage → IsComplete (look s c stage)
      unfolding look set_stage
      look-IsComplete c (spinning false pos x) e =
          let h = in_range s c (spinning false pos x) e (λ q. cc) in
          Bool-split
            (λ b. IsComplete (set_stage s c (if b then writing pos x else spinning true pos x)))
            (is_free s.ring pos)
            (λ free.
              replaced c (record (caller_at s c) { stage = writing pos x; entered = none }) h
                (λ p o. at_stage c (spinning false pos x) p e o))
            (λ full.
              replaced c (record (caller_at s c) { stage = spinning true pos x; entered = none }) h
                (λ p o. at_stage c (spinning false pos x) p e o))
      look-IsComplete c (spinning true pos x) e =
          let h = in_range s c (spinning true pos x) e (λ q. cc) in
          Bool-split (λ b. IsComplete (set_stage s c (if b then spinning false pos x else failed)))
            s.ring.rx_alive
            (λ alive.
              replaced c (record (caller_at s c) { stage = spinning false pos x; entered = none }) h
                (λ p o. at_stage c (spinning true pos x) p e o))
            (λ dead alive p lo hi. cc)
      look-IsComplete c idle e = all
      look-IsComplete c (writing pos w) e = all
      look-IsComplete c (written pos w) e = all
      look-IsComplete c failed e = all

      pub write-IsComplete :
          (c : ℕ) (stage : Stage A) → (caller_at s c).stage ≡ stage → IsComplete (write s c stage)
      unfolding write set_stage write_slot
      write-IsComplete c (writing pos x) e =
          replaced c (record (caller_at s c) { stage = written pos x; entered = none })
            (in_range s c (writing pos x) e (λ q. cc)) (λ p o. at_stage c (writing pos x) p e o)
      write-IsComplete c idle e = all
      write-IsComplete c (spinning busy pos w) e = all
      write-IsComplete c (written pos w) e = all
      write-IsComplete c failed e = all

      pub publish-IsComplete :
          (c : ℕ) (stage : Stage A) → (caller_at s c).stage ≡ stage → IsComplete (publish s c stage)
      unfolding publish mark_ready caller_at
      publish-IsComplete c (written pos x) e alive p lo hi =
          let (own, up, held) = own_stage k s v c (written pos x) e in
          let n = (caller_at s c).send_count in
          let caller = record (caller_at s c) {
            stage = idle;
            send_count = n + 1;
            inflight = (caller_at s c).inflight + 1;
          } in
          elim (ℕ_discrete p pos) [
            | yes q ↦ inl (
              omega (arith, q),
              stored k s.ring s.claims v.ring pos (pos + 1) p
                  ∙ ground (arith, q, ap (λ i. i % 2 ^ k) q),
            )
            | no ne ↦ elim (all alive p lo hi) [
              | inl (low, ready) ↦ inl (
                low,
                stored_other k s.ring s.claims v.ring pos (pos + 1) p
                      (other_slot k s.ring s.claims v.ring n c pos x own up p lo low ne)
                    ∙ ready,
              )
              | inr owner ↦ inr (
                  owner-set s.callers c p caller (in_range s c (written pos x) e (λ q. cc))
                    (λ o. ne (sym (at_stage c (written pos x) p e o))) owner)
            ]
          ]
      publish-IsComplete c idle e alive p lo hi = all alive p lo hi
      publish-IsComplete c (spinning busy pos w) e alive p lo hi = all alive p lo hi
      publish-IsComplete c (writing pos w) e alive p lo hi = all alive p lo hi
      publish-IsComplete c failed e alive p lo hi = all alive p lo hi
