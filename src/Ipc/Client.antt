-- ===== src/Ipc/Client.antt =====
-- The client of ipc/src/lib.rs, over its block and the server's flag. `call` and `call_blocking`
-- wait for the server: their loops are a function for one turn each.
use Prim.Native.Nat.{bit_and}
use locasta.Base.{
  ℕ, zero, suc, ◌+◌, ◌-◌, Bool, true, false, not, Option, none, some, List, [], ◌∷◌, ◌++◌, ◌&&◌,
  leb, ltb, if◌then◌else◌, get_or, set, replicate,
}
use locasta.Mempc.Onesided.{Channel, Loaded, nothing, value, uninit, raw_send, try_recv, publish}
use locasta.Mempc.Onesided.Lanes.{Response}
use locasta.Ipc.{Block, new_block}

-- `responded` are the calls of `on_response`, the oldest first.
pub record Client (Q R U : Type 0) : Type 0 where
  pub server_alive : Bool
  pub block : Block Q R
  pub ring_depth : ℕ
  pub in_flight : ℕ
  pub user_data : List (Option U)
  pub responded : List (U × R)

-- How a method ends. A panic is an `expect` or an index that fails.
pub data Outcome (A : Type 0) : Type 0 where
  ok : A → Outcome A
  server_disconnected : Outcome A
  panics : Outcome A

-- What a turn of the loop in `poll` finds.
pub data Turn : Type 0 where
  took : Turn
  ring_empty : Turn
  broken : Turn

-- How a turn of the loop in `call` ends.
pub data Called : Type 0 where
  sent : Called
  waits : Called
  fails : Outcome ℕ → Called

abbrev pub one_more : Outcome ℕ → Outcome ℕ
one_more (ok n) = ok (suc n)
one_more server_disconnected = server_disconnected
one_more panics = panics

module _ {Q R U : Type 0} where
  unfoldable pub new_client : ℕ → Client Q R U
  new_client ring_depth = record {
    server_alive = true;
    block = record (new_block ring_depth) { alive = true };
    ring_depth = ring_depth;
    in_flight = 0;
    user_data = replicate ring_depth none;
    responded = [];
  }

  unfoldable pub set_responses : Client Q R U → Channel (Response R) → Client Q R U
  set_responses c ch = record c { block = record (c.block) { responses = ch } }

  -- The callback for a response, with the data of the slot that its token names.
  unfoldable pub respond : Client Q R U → Response R → Option U → Client Q R U × Turn
  respond c r none = (record c { in_flight = c.in_flight - 1 }, broken)
  respond c r (some u) = (
    record c {
      in_flight = c.in_flight - 1;
      user_data = set c.user_data r.token none;
      responded = c.responded ++ (u, r.body) ∷ [];
    },
    took,
  )

  unfoldable pub take_response : Client Q R U → Loaded (Response R) → Client Q R U × Turn
  take_response c nothing = (c, ring_empty)
  take_response c uninit = (c, broken)
  take_response c (value slot_idx r) = respond c r (get_or c.user_data r.token none)

  unfoldable pub turn : Client Q R U → Client Q R U × Turn
  turn c = let (ch, o) = try_recv c.block.responses in take_response (set_responses c ch) o

  -- The loop of `poll`: each turn but the last takes one off `in_flight`, which bounds it.
  unfoldable pub drain : ℕ → Client Q R U → Client Q R U × Outcome ℕ
  drain zero c = (c, ok 0)
  drain (suc turns) c =
      let (next, found) = turn c in
      let rest = drain turns next in
      elim found [
        | took ↦ (rest.0, one_more rest.1)
        | ring_empty ↦ (next, ok 0)
        | broken ↦ (next, panics)
      ]

  unfoldable pub after_drain : Client Q R U × Outcome ℕ → Client Q R U × Outcome ℕ
  after_drain (c, ok zero) =
      if ltb 0 c.in_flight && not c.server_alive then (c, server_disconnected) else (c, ok 0)
  after_drain (c, ok (suc n)) = (c, ok (suc n))
  after_drain (c, server_disconnected) = (c, server_disconnected)
  after_drain (c, panics) = (c, panics)

  unfoldable pub poll : Client Q R U → Client Q R U × Outcome ℕ
  poll c = after_drain (drain c.in_flight c)

  unfoldable pub next_slot : Client Q R U → ℕ
  next_slot c = bit_and c.block.calls.head (c.ring_depth - 1)

  unfoldable pub send_call : Client Q R U → Q → U → Client Q R U
  send_call c q u =
      let (ch, slot_idx) = raw_send c.block.calls q in
      record c {
        block = record (c.block) { calls = publish ch };
        user_data = set c.user_data slot_idx (some u);
        in_flight = c.in_flight + 1;
      }

  unfoldable pub after_poll : Client Q R U × Outcome ℕ → Client Q R U × Called
  after_poll (c, ok n) = (c, waits)
  after_poll (c, server_disconnected) = (c, fails server_disconnected)
  after_poll (c, panics) = (c, fails panics)

  -- A turn of the loop in `call`, and the send that follows it.
  unfoldable pub call_turn : Client Q R U → Q → U → Client Q R U × Called
  call_turn c q u = elim (get_or c.user_data (next_slot c) none) [
    | none ↦ (send_call c q u, sent)
    | some busy ↦ after_poll (poll c)
  ]

  -- `call`, up to the end of its first turn.
  unfoldable pub call : Client Q R U → Q → U → Client Q R U × Called
  call c q u = if c.server_alive then call_turn c q u else (c, fails server_disconnected)

  -- `call_blocking`: a turn of the loop before it sends, and the send.
  unfoldable pub blocking_call_turn : Client Q R U → Q → Client Q R U × Called
  blocking_call_turn c q = if leb c.ring_depth c.in_flight then after_poll (poll c) else (
    record c {
      block = record (c.block) { calls = publish (raw_send c.block.calls q).0 };
      in_flight = c.in_flight + 1;
    },
    sent,
  )

  unfoldable pub take_answer : Client Q R U → Loaded (Response R) → Client Q R U × Option R
  take_answer c (value slot_idx r) = (record c { in_flight = c.in_flight - 1 }, some r.body)
  take_answer c nothing = (c, none)
  take_answer c uninit = (c, none)

  -- In the loop that waits for the response: the look at the ring, and if there is none, the look at
  -- the server's flag. If that is not set the call fails.
  unfoldable pub blocking_recv : Client Q R U → Client Q R U × Option R
  blocking_recv c = let (ch, o) = try_recv c.block.responses in take_answer (set_responses c ch) o

  unfoldable pub blocking_check : Client Q R U → Called
  blocking_check c = if c.server_alive then waits else fails server_disconnected

  pub drop_client : Client Q R U → Client Q R U
  drop_client c = record c { block = record (c.block) { alive = false } }
