-- ===== src/Mempc/FetchAdd/Tests.antt =====
-- Runs of the shared request ring, and instances of the theorems.
use locasta.Base.{ℕ, zero, suc, ◌+◌, ◌^◌, ◌≡◌, refl, arith, false, List, [], ◌∷◌, length}
use locasta.Mempc.FetchAdd
use locasta.Mempc.FetchAdd.{
  Op, begins, claims_slot, looks, writes, publishes, finds, reads, takes, System, run, step, create,
  new_ring, caller_at, idle, set_stage, begin, claim_slot, look, write, publish, claim, is_free,
  is_ready, read_slot, write_slot, mark_ready, free_slot, slot_at,
}
use locasta.Mempc.FetchAdd.Soundness.{AreHanded}
use locasta.Mempc.FetchAdd.Order.{run-AreHanded, tokens_agree}
use locasta.Mempc.FetchAdd.Completion.{takes_next}

-- The second caller claims its position first and publishes it last.
abbrev ops : List (Op ℕ)
ops =
    begins 1 70
    ∷ claims_slot 1
    ∷ begins 0 50
    ∷ claims_slot 0
    ∷ looks 0
    ∷ looks 1
    ∷ writes 0
    ∷ publishes 0
    ∷ finds
    ∷ writes 1
    ∷ publishes 1
    ∷ finds
    ∷ reads
    ∷ takes
    ∷ []

run-AreHanded_example :
    let s = run (create 2 (2 ^ 1) 4) ops in
    AreHanded s.claims s.handed × (length s.handed ≡ s.ring.tail) × (s.misread ≡ false)
run-AreHanded_example = run-AreHanded 1 2 4 ops (omega arith)

tokens_agree_example : ◌≡◌ {A = ℕ} 70 70
unfolding run step create new_ring caller_at set_stage begin claim_slot look write publish claim
    is_free is_ready read_slot write_slot mark_ready free_slot slot_at FetchAdd.take
tokens_agree_example = tokens_agree 1 2 4 ops 1 0 1 0 70 70 (omega arith) refl refl

all_idle : (c : ℕ) → (caller_at (run (create 2 (2 ^ 1) 4) ops) c).stage ≡ idle
unfolding run step create new_ring caller_at set_stage begin claim_slot look write publish claim
    is_free is_ready read_slot write_slot mark_ready free_slot slot_at FetchAdd.take
all_idle zero = refl
all_idle (suc zero) = refl
all_idle (suc (suc c)) = refl

takes_next_example :
    let s = run (create 2 (2 ^ 1) 4) ops in
    length (step (step (step s finds) reads) takes).handed ≡ length s.handed + 1
unfolding run step create new_ring caller_at set_stage begin claim_slot look write publish claim
    is_free is_ready read_slot write_slot mark_ready free_slot slot_at FetchAdd.take
takes_next_example = takes_next 1 2 4 ops (omega arith) refl all_idle (omega arith)

-- With one slot, the slot of a request that the server has not read looks free for the next one: it is
-- written over, and the server finds neither.
abbrev one_slot : System ℕ
one_slot = run (create 2 1 4) (
    begins 0 50
    ∷ claims_slot 0
    ∷ looks 0
    ∷ writes 0
    ∷ publishes 0
    ∷ begins 1 70
    ∷ claims_slot 1
    ∷ looks 1
    ∷ writes 1
    ∷ publishes 1
    ∷ finds
    ∷ [])

one_slot_lost : (length one_slot.returned ≡ 2) × (one_slot.found ≡ false) × (one_slot.ring.tail ≡ 0)
unfolding run step create new_ring caller_at set_stage begin claim_slot look write publish claim
    is_free is_ready read_slot write_slot mark_ready free_slot slot_at FetchAdd.take
one_slot_lost = (refl, refl, refl)
