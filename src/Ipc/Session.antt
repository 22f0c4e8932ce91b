-- ===== src/Ipc/Session.antt =====
-- Runs of one client of ipc/src/lib.rs and the server, which take their steps in any order. A step
-- is a method, or one turn of the loop in `call`, and runs undisturbed.
pub mod Pending
pub mod Steps
pub mod Polling
pub mod Serving
pub mod Turns
pub mod Pairing
pub mod Completion
use locasta.Base.{
  ℕ, zero, suc, ◌+◌, ◌-◌, ◌^◌, Bool, true, false, Option, none, some, List, [], ◌∷◌, ◌++◌,
  if◌then◌else◌, get_elem?,
}
use locasta.Mempc.Onesided.{Loaded, nothing, value, uninit}
use locasta.Ipc.{Block}
use locasta.Ipc.Client
use locasta.Ipc.Client.{
  Client, Outcome, ok, server_disconnected, panics, Called, sent, waits, fails, call_turn,
  new_client,
}
use locasta.Ipc.Server.{take_call, reply_block}

-- What happens. `replies` answers the held request at some place.
pub data Op (Q R U : Type 0) : Type 0 where
  calls : Q → U → Op Q R U
  resumes : Op Q R U
  polls : Op Q R U
  receives : Op Q R U
  replies : ℕ → R → Op Q R U
  server_drops : Op Q R U

-- `calling` is the call that waits for its slot, `held` the server's tokens with their requests,
-- `calls_sent` the number of calls that returned without an error.
pub record Session (Q R U : Type 0) : Type 0 where
  pub client : Client Q R U
  pub calling : Option (Q × U)
  pub held : List (ℕ × Q)
  pub calls_sent : ℕ
  pub panicked : Bool

module _ {ℓ} {A : Type ℓ} where
  abbrev pub remove_at : List A → ℕ → List A
  remove_at [] i = []
  remove_at (x ∷ xs) zero = xs
  remove_at (x ∷ xs) (suc i) = x ∷ remove_at xs i

module _ {Q R U : Type 0} where
  abbrev pub note_panic : {A : Type 0} → Session Q R U → Outcome A → Session Q R U
  note_panic s (ok a) = s
  note_panic s server_disconnected = s
  note_panic s panics = record s { panicked = true }

  abbrev pub after_call : Session Q R U → Q → U → Client Q R U × Called → Session Q R U
  after_call s q u (c, sent) = record s {
    client = c;
    calling = none;
    calls_sent = s.calls_sent + 1;
  }
  after_call s q u (c, waits) = record s { client = c; calling = some (q, u) }
  after_call s q u (c, fails o) = note_panic (record s { client = c; calling = none }) o

  abbrev pub set_block : Session Q R U → Block Q R → Session Q R U
  set_block s b = record s { client = record (s.client) { block = b } }

  abbrev pub after_take : Session Q R U → Block Q R × Loaded Q → Session Q R U
  after_take s (b, value slot_idx q) = record (set_block s b) {
    held = s.held ++ (slot_idx, q) ∷ [];
  }
  after_take s (b, nothing) = set_block s b
  after_take s (b, uninit) = record (set_block s b) { panicked = true }

  abbrev pub after_poll : Session Q R U → Client Q R U × Outcome ℕ → Session Q R U
  after_poll s (c, o) = note_panic (record s { client = c }) o

  -- The client does nothing else while a call of its own waits.
  unfoldable pub step : Session Q R U → Op Q R U → Session Q R U
  step s (calls q u) = elim s.calling [
    | none ↦ after_call s q u (Client.call s.client q u)
    | some waiting ↦ s
  ]
  step s resumes = elim s.calling [
    | none ↦ s
    | some waiting ↦ after_call s waiting.0 waiting.1 (call_turn s.client waiting.0 waiting.1)
  ]
  step s polls = elim s.calling [ none ↦ after_poll s (Client.poll s.client) | some waiting ↦ s ]
  step s receives = after_take s (take_call s.client.block)
  step s (replies i r) = elim (get_elem? s.held i) [
    | none ↦ s
    | some request ↦ record (set_block s (reply_block s.client.block request.0 r)) {
      held = remove_at s.held i;
    }
  ]
  step s server_drops = record s { client = record (s.client) { server_alive = false } }

  unfoldable pub run : Session Q R U → List (Op Q R U) → Session Q R U
  run s [] = s
  run s (op ∷ ops) = run (step s op) ops

  unfoldable pub start : ℕ → Session Q R U
  start ring_depth = record {
    client = new_client ring_depth;
    calling = none;
    held = [];
    calls_sent = 0;
    panicked = false;
  }
