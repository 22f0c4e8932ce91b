-- ===== src/Mempc/FetchAdd/Emptying.antt =====
-- The steps of mempc/src/fetch_add.rs that take no new position: a response to a caller, and what the
-- server does.
use mathlib.Core.Path.{subst}
use locasta.Base.{
  ℕ, ◌-◌, ◌≡◌, inl, inr, sym, ◌∙◌, true, not, ◌||◌, Option, none, some, arith, if◌then◌else◌,
  Bool-split, length, set_past,
}
use native.Mathlib.Decide.{dec_lt}
use locasta.Mempc.FetchAdd
use locasta.Mempc.FetchAdd.{
  System, responds, finds, reads, server_drops, caller_at, is_ready, read_slot, free_slot,
  disconnect_rx, step,
}
use locasta.Mempc.FetchAdd.Popping.{freed}
use locasta.Mempc.FetchAdd.Soundness.{IsSound}
use locasta.Mempc.FetchAdd.Owners.{IsComplete, replaced}

module _ {A : Type 0} (k : ℕ) (s : System A) (v : IsSound k s) (all : IsComplete k s) where
  pub responds-IsComplete : (c : ℕ) → IsComplete k (step s (responds c))
  unfolding step
  responds-IsComplete c =
      let x = record (caller_at s c) { inflight = (caller_at s c).inflight - 1 } in
      elim (dec_lt c (length s.callers)) [
        | yes lt ↦ replaced k s v all c x lt (λ p o. o)
        | no ge ↦
            subst (λ l. IsComplete k (record s { callers = l }))
              (sym (set_past s.callers c x (omega arith))) all
      ]

  pub finds-IsComplete : IsComplete k (step s finds)
  unfolding step
  finds-IsComplete =
      Bool-split (λ b. IsComplete k (if b then s else record s { found = is_ready s.ring }))
        (s.found || not s.ring.rx_alive) (λ b. all) (λ b. all)

  pub reads-IsComplete : IsComplete k (step s reads)
  unfolding step
  reads-IsComplete =
      Bool-split
        (λ b. IsComplete k (if b then record s { loaded = some (read_slot s.ring) } else s)) s.found
        (λ b. all) (λ b. all)

  freed-IsComplete : s.found ≡ true → (c : ℕ) (x : A) → IsComplete k (FetchAdd.take s (c, some x))
  unfolding FetchAdd.take free_slot
  freed-IsComplete found c x alive p lo hi = elim (all alive p (omega arith) hi) [
    | inr owner ↦ inr owner
    | inl (low, ready) ↦ elim (freed k s.ring s.claims v.ring (v.seen found) p lo (omega arith)) [
      | inl (e, free) ↦ absurd (omega arith)
      | inr (lt, same) ↦ inl (omega arith, same ∙ ready)
    ]
  ]

  pub takes-IsComplete :
      (claimed : Option (ℕ × Option A))
      → s.loaded ≡ claimed
      → IsComplete k (elim claimed [ none ↦ s | some w ↦ FetchAdd.take s w ])
  takes-IsComplete none e = all
  takes-IsComplete (some (c, o)) e =
      let (found, x, is, at) = v.loaded c o e in
      subst (λ o. IsComplete k (FetchAdd.take s (c, o))) (sym is) (freed-IsComplete found c x)

  dropped : IsComplete k (record s { ring = disconnect_rx s.ring })
  unfolding disconnect_rx
  dropped alive p lo hi = cc

  pub server_drops-IsComplete : IsComplete k (step s server_drops)
  unfolding step
  server_drops-IsComplete =
      Bool-split (λ b. IsComplete k (if b then s else record s { ring = disconnect_rx s.ring }))
        s.found (λ b. all) (λ b. dropped)
