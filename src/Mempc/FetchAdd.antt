-- ===== src/Mempc/FetchAdd.antt =====
-- The request ring of mempc/src/fetch_add.rs, which many callers fill and one server empties. Each
-- access of a thread to what others write is a step of its own, so a run is a sequence of these.
-- Positions are plain numbers: they grow from 0 by one for a request and do not reach 2 ^ 64. The
-- rings for the responses (mempc/src/common.rs) are not part of a run; of them `responds` is that
-- one gave a response.
pub mod Invariant
pub mod Claims
pub mod Pushing
pub mod Popping
pub mod Soundness
pub mod Calling
pub mod Serving
pub mod Order
pub mod Owners
pub mod Emptying
pub mod Completion
mod Tests
use Prim.Native.Nat.{bit_and}
use locasta.Base.{
  ℕ, zero, suc, ◌+◌, ◌-◌, ◌^◌, Bool, true, false, not, ◌||◌, ◌&&◌, Option, none, some, List, [],
  ◌∷◌, ◌++◌, ◌==◌, leb, ltb, is_some, if◌then◌else◌, get_or, set, replicate, length,
}

-- `buffer` as the lists of its slots' fields. A slot never written has no value.
pub record RequestRing (A : Type 0) : Type 0 where
  pub seqs : List ℕ
  pub caller_ids : List ℕ
  pub cells : List (Option A)
  pub head : ℕ
  pub tail : ℕ
  pub mask : ℕ
  pub capacity : ℕ
  pub sender_count : ℕ
  pub rx_alive : Bool

-- How far a caller is in `call`. `spinning` says whether the slot was busy at the last look, so that
-- the server's flag is looked at next. `failed`: it claimed a position and found the server gone.
pub data Stage (A : Type 0) : Type 0 where
  idle : Stage A
  spinning : Bool → ℕ → A → Stage A
  writing : ℕ → A → Stage A
  written : ℕ → A → Stage A
  failed : Stage A

pub record Caller (A : Type 0) : Type 0 where
  pub entered : Option A
  pub stage : Stage A
  pub send_count : ℕ
  pub inflight : ℕ
  pub max_inflight : ℕ

-- Numbers from 0, as many as given, from a first one on.
abbrev pub seqs_from : ℕ → ℕ → List ℕ
seqs_from i zero = []
seqs_from i (suc n) = i ∷ seqs_from (i + 1) n

module _ {A : Type 0} where
  -- `RequestRing::new`, for a capacity that is a power of two
  unfoldable pub new_ring : ℕ → ℕ → RequestRing A
  new_ring capacity num_senders = record {
    seqs = seqs_from 0 capacity;
    caller_ids = replicate capacity 0;
    cells = replicate capacity none;
    head = 0;
    tail = 0;
    mask = capacity - 1;
    capacity = capacity;
    sender_count = num_senders;
    rx_alive = true;
  }

  unfoldable pub slot_at : RequestRing A → ℕ → ℕ
  slot_at r pos = bit_and pos r.mask

  -- `try_push`: the `fetch_add` on the head,
  unfoldable pub claim : RequestRing A → RequestRing A
  claim r = record r { head = r.head + 1 }

  -- a look of the loop at the slot,
  unfoldable pub is_free : RequestRing A → ℕ → Bool
  is_free r pos = get_or r.seqs (slot_at r pos) 0 == pos

  -- the writes to the slot,
  unfoldable pub write_slot : RequestRing A → ℕ → ℕ → A → RequestRing A
  write_slot r pos caller_id v = record r {
    caller_ids = set r.caller_ids (slot_at r pos) caller_id;
    cells = set r.cells (slot_at r pos) (some v);
  }

  -- and the store that hands it to the server.
  unfoldable pub mark_ready : RequestRing A → ℕ → RequestRing A
  mark_ready r pos = record r { seqs = set r.seqs (slot_at r pos) (pos + 1) }

  -- `try_pop`: the look at the slot,
  unfoldable pub is_ready : RequestRing A → Bool
  is_ready r = get_or r.seqs (slot_at r r.tail) 0 == r.tail + 1

  -- what it reads,
  unfoldable pub read_slot : RequestRing A → ℕ × Option A
  read_slot r = (get_or r.caller_ids (slot_at r r.tail) 0, get_or r.cells (slot_at r r.tail) none)

  -- and the stores that free the slot, of which only the first is looked at by a caller.
  unfoldable pub free_slot : RequestRing A → RequestRing A
  free_slot r = record r {
    seqs = set r.seqs (slot_at r r.tail) (r.tail + r.capacity);
    tail = r.tail + 1;
  }

  unfoldable pub available : RequestRing A → ℕ
  available r = r.head - r.tail

  unfoldable pub disconnect_tx : RequestRing A → RequestRing A
  disconnect_tx r = record r { sender_count = r.sender_count - 1 }

  unfoldable pub disconnect_rx : RequestRing A → RequestRing A
  disconnect_rx r = record r { rx_alive = false }

-- What happens. `begins` is `call` up to its look at the server's flag, `claims_slot` its
-- `fetch_add`.
pub data Op (A : Type 0) : Type 0 where
  begins : ℕ → A → Op A
  claims_slot : ℕ → Op A
  looks : ℕ → Op A
  writes : ℕ → Op A
  publishes : ℕ → Op A
  responds : ℕ → Op A
  finds : Op A
  reads : Op A
  takes : Op A
  server_drops : Op A

-- `entered` of a caller is the request of a call that has not claimed its position yet.
-- `found`: the server has seen, within `try_pop`, that its next slot is ready; `loaded`: what it read
-- of that slot. `claims` are the positions claimed, with the caller and the request; `returned` the
-- calls that returned and `handed` the requests that the server got, each with its caller and its
-- token. `misread`: a slot was read unwritten.
pub record System (A : Type 0) : Type 0 where
  pub ring : RequestRing A
  pub callers : List (Caller A)
  pub recv_counts : List ℕ
  pub found : Bool
  pub loaded : Option (ℕ × Option A)
  pub claims : List (ℕ × A)
  pub returned : List (ℕ × ℕ × A)
  pub handed : List (ℕ × ℕ × A)
  pub misread : Bool

abbrev pub nobody : {A : Type 0} → Caller A
nobody = record { entered = none; stage = idle; send_count = 0; inflight = 0; max_inflight = 0 }

module _ {A : Type 0} where
  unfoldable pub caller_at : System A → ℕ → Caller A
  caller_at s c = get_or s.callers c nobody

  unfoldable pub set_stage : System A → ℕ → Stage A → System A
  set_stage s c stage = record s {
    callers = set s.callers c (record (caller_at s c) { stage = stage; entered = none });
  }

  -- `call` of a caller that exists and is not in a call, up to the look at the server's flag. Its
  -- errors are no change.
  unfoldable pub begin : System A → ℕ → A → Stage A → System A
  begin s c v idle =
      if not (ltb c (length s.callers))
        || (is_some (caller_at s c).entered
            || (leb (caller_at s c).max_inflight (caller_at s c).inflight || not s.ring.rx_alive))
      then s
      else record s { callers = set s.callers c (record (caller_at s c) { entered = some v }) }
  begin s c v (spinning busy pos w) = s
  begin s c v (writing pos w) = s
  begin s c v (written pos w) = s
  begin s c v failed = s

  -- The `fetch_add` of a call that has passed its checks.
  unfoldable pub claim_slot : System A → ℕ → Option A → Stage A → System A
  claim_slot s c none stage = s
  claim_slot s c (some v) idle = record (set_stage s c (spinning false s.ring.head v)) {
    ring = claim s.ring;
    claims = s.claims ++ (c, v) ∷ [];
  }
  claim_slot s c (some v) (spinning busy pos w) = s
  claim_slot s c (some v) (writing pos w) = s
  claim_slot s c (some v) (written pos w) = s
  claim_slot s c (some v) failed = s

  -- The next look of the loop that waits for the slot: at the slot, or if it was busy, at the
  -- server's flag.
  unfoldable pub look : System A → ℕ → Stage A → System A
  look s c (spinning false pos v) =
      set_stage s c (if is_free s.ring pos then writing pos v else spinning true pos v)
  look s c (spinning true pos v) =
      set_stage s c (if s.ring.rx_alive then spinning false pos v else failed)
  look s c idle = s
  look s c (writing pos w) = s
  look s c (written pos w) = s
  look s c failed = s

  unfoldable pub write : System A → ℕ → Stage A → System A
  write s c (writing pos v) = record (set_stage s c (written pos v)) {
    ring = write_slot s.ring pos c v;
  }
  write s c idle = s
  write s c (spinning busy pos w) = s
  write s c (written pos w) = s
  write s c failed = s

  -- The slot is handed over, and the call returns its token.
  unfoldable pub publish : System A → ℕ → Stage A → System A
  publish s c (written pos v) =
      let caller = caller_at s c in
      record s {
        ring = mark_ready s.ring pos;
        callers = set s.callers c (record caller {
          stage = idle;
          send_count = caller.send_count + 1;
          inflight = caller.inflight + 1;
        });
        returned = s.returned ++ (c, caller.send_count, v) ∷ [];
      }
  publish s c idle = s
  publish s c (spinning busy pos w) = s
  publish s c (writing pos w) = s
  publish s c failed = s

  -- The rest of `try_recv` of the server, once it read the slot.
  unfoldable pub take : System A → ℕ × Option A → System A
  take s (c, none) = record s {
    ring = free_slot s.ring;
    found = false;
    loaded = none;
    misread = true;
  }
  take s (c, some v) = record s {
    ring = free_slot s.ring;
    found = false;
    loaded = none;
    recv_counts = set s.recv_counts c (get_or s.recv_counts c 0 + 1);
    handed = s.handed ++ (c, get_or s.recv_counts c 0, v) ∷ [];
  }

  unfoldable pub step : System A → Op A → System A
  step s (begins c v) = begin s c v (caller_at s c).stage
  step s (claims_slot c) = claim_slot s c (caller_at s c).entered (caller_at s c).stage
  step s (looks c) = look s c (caller_at s c).stage
  step s (writes c) = write s c (caller_at s c).stage
  step s (publishes c) = publish s c (caller_at s c).stage
  step s (responds c) = record s {
    callers = set s.callers c (record (caller_at s c) { inflight = (caller_at s c).inflight - 1 });
  }
  step s finds = if s.found || not s.ring.rx_alive then s else record s { found = is_ready s.ring }
  step s reads = if s.found then record s { loaded = some (read_slot s.ring) } else s
  step s takes = elim s.loaded [ none ↦ s | some claimed ↦ take s claimed ]
  step s server_drops = if s.found then s else record s { ring = disconnect_rx s.ring }

  unfoldable pub run : System A → List (Op A) → System A
  run s [] = s
  run s (op ∷ ops) = run (step s op) ops

  -- `FetchAddMpsc::create`
  unfoldable pub create : ℕ → ℕ → ℕ → System A
  create max_callers ring_depth max_inflight = record {
    ring = new_ring ring_depth max_callers;
    callers = replicate max_callers (record nobody { max_inflight = max_inflight });
    recv_counts = replicate max_callers 0;
    found = false;
    loaded = none;
    claims = [];
    returned = [];
    handed = [];
    misread = false;
  }
