-- ===== src/Mempc/Onesided.antt =====
-- The channel of mempc/src/onesided.rs, in which only the sender writes: a cell's generation is the
-- position of the value in it. `Channel` holds the cells, as the list of their generations and the
-- list of their values, and the private fields of both ends. Each of the sender's two stores and
-- each of the receiver's two loads is a step of its own, so a run of the two threads is a sequence
-- of these. Positions are usize and wrap. A cell never written is `none`. The hint to the cache is
-- only the count of sends that gates it.
mod Invariant
mod Steps
pub mod Fifo
pub mod Lanes
pub mod Scanning
pub mod Contents
mod Tests
use Prim.Native.Nat.{bit_and}
use locasta.Base.{
  ℕ, zero, suc, ◌+◌, ◌-◌, ◌%◌, ◌^◌, Bool, true, false, Option, none, some, List, [], ◌∷◌, ◌++◌,
  ◌==◌, if◌then◌else◌, get_or, set, replicate,
}

-- `sending` and `receiving`: the sender has stored the data of a value whose generation it has not
-- stored yet, and the receiver has seen the generation of a value that it has not loaded yet.
pub record Channel (A : Type 0) : Type 0 where
  pub generations : List ℕ
  pub cells : List (Option A)
  pub mask : ℕ
  pub head : ℕ
  pub sends_since_publish : ℕ
  pub tail : ℕ
  pub tx_alive : Bool
  pub rx_alive : Bool
  pub sending : Bool
  pub receiving : Bool

-- What the receiver's second load gives. `uninit` is a load from a cell that was never written.
pub data Loaded (A : Type 0) : Type 0 where
  nothing : Loaded A
  value : ℕ → A → Loaded A
  uninit : Loaded A

module _ {A : Type 0} where
  -- `create_spsc`, and `Slot::init` of each slot
  unfoldable pub create_spsc : ℕ → Channel A
  create_spsc capacity = record {
    generations = replicate capacity (2 ^ 64 - 1);
    cells = replicate capacity none;
    mask = capacity - 1;
    head = 0;
    sends_since_publish = 0;
    tail = 0;
    tx_alive = true;
    rx_alive = true;
    sending = false;
    receiving = false;
  }

  -- The first store of `RawSender::try_send`
  unfoldable pub store_data : Channel A → A → Channel A
  store_data c v = record c { cells = set c.cells (bit_and c.head c.mask) (some v); sending = true }

  -- The rest of it: the generation is stored, and the head moves on.
  unfoldable pub store_generation : Channel A → Channel A
  store_generation c = record c {
    generations = set c.generations (bit_and c.head c.mask) c.head;
    sends_since_publish = (c.sends_since_publish + 1) % 2 ^ 64;
    head = (c.head + 1) % 2 ^ 64;
    sending = false;
  }

  -- `RawSender::try_send`, undisturbed: the slot is always written.
  unfoldable pub raw_send : Channel A → A → Channel A × ℕ
  raw_send c v = (store_generation (store_data c v), bit_and c.head c.mask)

  -- `Sender::try_send`, undisturbed
  unfoldable pub try_send : Channel A → A → Channel A × Option ℕ
  try_send c v =
      if c.rx_alive
      then (store_generation (store_data c v), some (bit_and c.head c.mask))
      else (c, none)

  -- Whether the cell at a position has that position's value.
  unfoldable pub is_ready : Channel A → ℕ → Bool
  is_ready c pos = get_or c.generations (bit_and pos c.mask) 0 == pos

  -- The first load of `RawReceiver::try_recv`
  unfoldable pub load_generation : Channel A → Channel A
  load_generation c = record c { receiving = is_ready c c.tail }

  abbrev pub load_cell : ℕ → Option A → Loaded A
  load_cell slot_idx none = uninit
  load_cell slot_idx (some v) = value slot_idx v

  -- The second one, if the first found the generation
  unfoldable pub load_data : Channel A → Channel A × Loaded A
  load_data c =
      if c.receiving
      then (
        record c { tail = (c.tail + 1) % 2 ^ 64; receiving = false },
        load_cell (bit_and c.tail c.mask) (get_or c.cells (bit_and c.tail c.mask) none),
      )
      else (c, nothing)

  -- `RawReceiver::try_recv`, undisturbed
  unfoldable pub try_recv : Channel A → Channel A × Loaded A
  try_recv c = load_data (load_generation c)

  pub available : Channel A → ℕ
  available c = if is_ready c c.tail then 1 else 0

  -- The loop of `count_available` from a position, for at most so many turns.
  pub count_from : Channel A → ℕ → ℕ → ℕ
  count_from c pos zero = 0
  count_from c pos (suc left) =
      let rest = count_from c ((pos + 1) % 2 ^ 64) left in if is_ready c pos then suc rest else 0

  pub count_available : Channel A → ℕ → ℕ
  count_available c most = count_from c c.tail most

  unfoldable pub publish : Channel A → Channel A
  publish c = record c { sends_since_publish = 0 }

  pub drop_sender : Channel A → Channel A
  drop_sender c = record c { tx_alive = false }

  pub drop_receiver : Channel A → Channel A
  drop_receiver c = record c { rx_alive = false }

-- What the two threads do, in the order in which it happens.
pub data Op (A : Type 0) : Type 0 where
  stores_data : A → Op A
  stores_generation : Op A
  loads_generation : Op A
  loads_data : Op A

-- A channel with the values that were stored and given out so far, oldest first.
pub record Run (A : Type 0) : Type 0 where
  pub chan : Channel A
  pub sent : List A
  pub received : List A
  pub read_uninit : Bool

module _ {A : Type 0} where
  pub after_load : Run A → Channel A × Loaded A → Run A
  after_load r (c, nothing) = record r { chan = c }
  after_load r (c, value slot_idx v) = record r { chan = c; received = r.received ++ v ∷ [] }
  after_load r (c, uninit) = record r { chan = c; read_uninit = true }

  -- A thread does the steps of its operations in turn; a step out of turn is none.
  pub step : Run A → Op A → Run A
  step r (stores_data v) =
      if r.chan.sending then r else record r { chan = store_data r.chan v; sent = r.sent ++ v ∷ [] }
  step r stores_generation =
      if r.chan.sending then record r { chan = store_generation r.chan } else r
  step r loads_generation = record r { chan = load_generation r.chan }
  step r loads_data = after_load r (load_data r.chan)

  pub run : Run A → List (Op A) → Run A
  run r [] = r
  run r (op ∷ ops) = run (step r op) ops

  pub start : ℕ → Run A
  start capacity = record {
    chan = create_spsc capacity;
    sent = [];
    received = [];
    read_uninit = false;
  }
