-- ===== src/Mempc/FetchAdd/Completion.antt =====
-- No request is lost in the ring of mempc/src/fetch_add.rs: each claimed position is handed over, or
-- a caller is on its way to it.
use mathlib.Core.Path.{subst}
use locasta.Base.{
  ℕ, ◌+◌, ◌^◌, ◌≤◌, ◌<◌, ◌≡◌, inl, inr, refl, ap, ◌∙◌, false, true, not, ◌||◌, some, List, [], ◌∷◌,
  arith, ◌==◌, if◌then◌else◌, Bool-cases, length, length-append, get_or,
}
use locasta.Mempc.FetchAdd
use locasta.Mempc.FetchAdd.{
  System, Op, begins, claims_slot, looks, writes, publishes, responds, finds, reads, takes,
  server_drops, idle, caller_at, is_ready, read_slot, disconnect_rx, step, run, create, new_ring,
}
use locasta.Mempc.FetchAdd.Invariant.{seq_at, slot_at-mod}
use locasta.Mempc.FetchAdd.Popping.{next_claim}
use locasta.Mempc.FetchAdd.Soundness.{IsSound}
use locasta.Mempc.FetchAdd.Serving.{step-IsSound}
use locasta.Mempc.FetchAdd.Owners.{
  Owns, IsComplete, begin-IsComplete, claim_slot-IsComplete, look-IsComplete, write-IsComplete,
  publish-IsComplete,
}
use locasta.Mempc.FetchAdd.Emptying.{
  responds-IsComplete, finds-IsComplete, reads-IsComplete, takes-IsComplete,
  server_drops-IsComplete,
}
use locasta.Mempc.FetchAdd.Order.{run-IsSound, create-IsSound}

module _ {A : Type 0} where
  -- The server's look finds a slot that is ready.
  finds-eq :
      (s : System A)
      → s.ring.rx_alive ≡ true
      → is_ready s.ring ≡ true
      → step s finds ≡ record s { found = true }
  unfolding step
  finds-eq s alive ready = elim (Bool-cases s.found) [
    | inl found ↦
        ap (λ b. if b then s else record s { found = is_ready s.ring })
          {x = s.found || not s.ring.rx_alive} {y = true} (ground arith)
        ∙ ap (λ b. record s { found = b }) found
    | inr unseen ↦
        ap (λ b. if b then s else record s { found = is_ready s.ring })
          {x = s.found || not s.ring.rx_alive} {y = false} (ground arith)
        ∙ ap (λ b. record s { found = b }) ready
  ]

  step-IsComplete :
      (k : ℕ) (s : System A) (op : Op A) → IsSound k s → IsComplete k s → IsComplete k (step s op)
  unfolding step disconnect_rx
  step-IsComplete k s (begins c x) v all = begin-IsComplete k s v all c x (caller_at s c).stage refl
  step-IsComplete k s (claims_slot c) v all =
      claim_slot-IsComplete k s v all c (caller_at s c).entered (caller_at s c).stage refl refl
  step-IsComplete k s (looks c) v all = look-IsComplete k s v all c (caller_at s c).stage refl
  step-IsComplete k s (writes c) v all = write-IsComplete k s v all c (caller_at s c).stage refl
  step-IsComplete k s (publishes c) v all =
      publish-IsComplete k s v all c (caller_at s c).stage refl
  step-IsComplete k s (responds c) v all = responds-IsComplete k s v all c
  step-IsComplete k s finds v all = finds-IsComplete k s v all
  step-IsComplete k s reads v all = reads-IsComplete k s v all
  step-IsComplete k s takes v all = takes-IsComplete k s v all s.loaded refl
  step-IsComplete k s server_drops v all = server_drops-IsComplete k s v all

  run-IsComplete :
      (k : ℕ) (ops : List (Op A)) (s : System A)
      → IsSound k s
      → IsComplete k s
      → IsComplete k (run s ops)
  unfolding run
  run-IsComplete k [] s v all = all
  run-IsComplete k (op ∷ ops) s v all =
      run-IsComplete k ops (step s op) (step-IsSound k s op v) (step-IsComplete k s op v all)

  seq_ready :
      (k : ℕ) (s : System A)
      → IsSound k s
      → seq_at k s.ring s.ring.tail ≡ s.ring.tail + 1
      → is_ready s.ring ≡ true
  unfolding is_ready
  seq_ready k s v at =
      ap (λ i. get_or s.ring.seqs i 0 == s.ring.tail + 1)
        (slot_at-mod k s.ring s.claims v.ring s.ring.tail)
      ∙ ground (arith, at)

create-IsComplete :
    (A : Type 0) (k callers most : ℕ) → IsComplete {A = A} k (create callers (2 ^ k) most)
unfolding create new_ring
create-IsComplete A k callers most alive p lo hi = absurd (omega arith)

module _ {A : Type 0} where
  -- For a ring of 2 ^ k slots, k not 0, after any interleaving of the steps of any number of callers
  -- and of the server: if the server is there, no caller that claimed a position is still in its
  -- call and a claimed request was not handed over yet, then the server's next three steps hand one
  -- over.
  pub takes_next :
      (k callers most : ℕ) (ops : List (Op A))
      → 1 ≤ k
      → (run (create callers (2 ^ k) most) ops).ring.rx_alive ≡ true
      → ((c : ℕ) → (caller_at (run (create callers (2 ^ k) most) ops) c).stage ≡ idle)
      → length (run (create callers (2 ^ k) most) ops).handed
        < length (run (create callers (2 ^ k) most) ops).claims
      → let s = run (create callers (2 ^ k) most) ops in
        length (step (step (step s finds) reads) takes).handed ≡ length s.handed + 1
  unfolding step FetchAdd.take caller_at
  takes_next k callers most ops h alive quiet left =
      let s = run (create {A = A} callers (2 ^ k) most) ops in
      let v0 = create-IsSound k callers most h in
      let v = run-IsSound k ops (create {A = A} callers (2 ^ k) most) v0 in
      let all =
        run-IsComplete k ops (create {A = A} callers (2 ^ k) most) v0
          (create-IsComplete A k callers most) in
      let ready : is_ready s.ring ≡ true =
        elim (all alive s.ring.tail (omega arith)
          (omega (arith, v.at_tail, v.ring.at_head, left))) [
            | inl (low, at) ↦ seq_ready k s v at
            | inr (c, o) ↦ absurd (subst (λ t. Owns t s.ring.tail) (quiet c) o)
          ] in
      let e = finds-eq s alive ready in
      let found = subst (IsSound k) e (step-IsSound k s finds v) in
      let (c, x, at, read) = next_claim k s.ring s.claims v.ring (found.seen refl) in
      ap (λ u. length (step (step u reads) takes).handed) e
      ∙ ap
          (λ w.
            length
              (FetchAdd.take (record s { found = true; loaded = some (read_slot s.ring) })
                w).handed)
          read
      ∙ length-append s.handed ((c, get_or s.recv_counts c 0, x) ∷ [])
