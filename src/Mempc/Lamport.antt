-- ===== src/Mempc/Lamport.antt =====
-- The channel between two threads of mempc/src/lamport.rs. `Channel` holds the shared `Inner` and
-- the private fields of both ends; both have the same mask. Positions are usize and wrap. Each
-- operation makes one access to what the other thread writes, so a run of the two threads is a
-- sequence of whole operations. A cell never written is `none`.
mod Invariant
pub mod Steps
pub mod Fifo
mod Tests
use Prim.Native.Nat.{bit_and}
use locasta.Base.{
  ℕ, zero, suc, ◌+◌, ◌-◌, ◌%◌, ◌^◌, Bool, true, false, Option, none, some, List, [], ◌∷◌, ◌++◌, ltb,
  ◌==◌, if◌then◌else◌, get_or, set, replicate,
}

pub record Channel (A : Type 0) : Type 0 where
  pub buffer : List (Option A)
  pub shared_head : ℕ
  pub shared_tail : ℕ
  pub tx_alive : Bool
  pub rx_alive : Bool
  pub local_head : ℕ
  pub cached_tail : ℕ
  pub local_tail : ℕ
  pub cached_head : ℕ
  pub mask : ℕ

abbrev pub wrapping_add : ℕ → ℕ → ℕ
wrapping_add a b = (a + b) % 2 ^ 64

abbrev pub wrapping_sub : ℕ → ℕ → ℕ
wrapping_sub a b = (a + 2 ^ 64 - b) % 2 ^ 64

-- What `recv` returns. `uninit` is a read of a cell that was never written.
pub data Received (A : Type 0) : Type 0 where
  empty : Received A
  value : A → Received A
  uninit : Received A

module _ {A : Type 0} where
  -- `lamport_channel`
  pub lamport_channel : ℕ → Channel A
  lamport_channel capacity = record {
    buffer = replicate capacity none;
    shared_head = 0;
    shared_tail = 0;
    tx_alive = true;
    rx_alive = true;
    local_head = 0;
    cached_tail = 0;
    local_tail = 0;
    cached_head = 0;
    mask = capacity - 1;
  }

  -- The test of `send` for a full ring, by what is known of the tail.
  pub is_full : Channel A → Bool
  is_full c = ltb c.mask (wrapping_sub (wrapping_add c.local_head 1) c.cached_tail)

  -- The tail is read again if the ring looks full.
  pub refresh_tail : Channel A → Channel A
  unfolding is_full
  refresh_tail c = if is_full c then record c { cached_tail = c.shared_tail } else c

  pub push : Channel A → A → Channel A
  push c v = record c {
    buffer = set c.buffer (bit_and c.local_head c.mask) (some v);
    local_head = wrapping_add c.local_head 1;
  }

  -- `LamportSender::send`: whether the value was taken.
  pub send : Channel A → A → Channel A × Bool
  send c v = let c' = refresh_tail c in if is_full c' then (c', false) else (push c' v, true)

  -- `LamportSender::sync`
  pub sync_sender : Channel A → Channel A
  sync_sender c = record c { shared_head = c.local_head }

  -- The head is read again if the ring looks empty.
  pub refresh_head : Channel A → Channel A
  refresh_head c =
      if c.local_tail == c.cached_head then record c { cached_head = c.shared_head } else c

  abbrev pub read_cell : Option A → Received A
  read_cell none = uninit
  read_cell (some v) = value v

  pub pop : Channel A → Channel A × Received A
  pop c = (
    record c { local_tail = wrapping_add c.local_tail 1 },
    read_cell (get_or c.buffer (bit_and c.local_tail c.mask) none),
  )

  -- `LamportReceiver::recv`
  pub recv : Channel A → Channel A × Received A
  recv c =
      let c' = refresh_head c in if c'.local_tail == c'.cached_head then (c', empty) else pop c'

  -- `LamportReceiver::sync`
  pub sync_receiver : Channel A → Channel A
  sync_receiver c = record c { shared_tail = c.local_tail }

  -- `LamportReceiver::available`
  pub available : Channel A → ℕ
  available c = wrapping_sub c.cached_head c.local_tail

  pub drop_sender : Channel A → Channel A
  drop_sender c = record c { tx_alive = false }

  pub drop_receiver : Channel A → Channel A
  drop_receiver c = record c { rx_alive = false }

  -- The receiver's and the sender's `is_connected`
  pub sender_is_connected : Channel A → Bool
  sender_is_connected c = c.rx_alive

  pub receiver_is_connected : Channel A → Bool
  receiver_is_connected c = c.tx_alive

-- What the two threads do, in the order in which it happens.
pub data Op (A : Type 0) : Type 0 where
  sends : A → Op A
  syncs_sender : Op A
  recvs : Op A
  syncs_receiver : Op A

-- A channel with the values that were taken and given out so far, oldest first.
pub record Run (A : Type 0) : Type 0 where
  pub chan : Channel A
  pub sent : List A
  pub received : List A
  pub read_uninit : Bool

module _ {A : Type 0} where
  pub after_send : Run A → A → Channel A × Bool → Run A
  after_send r v (c, true) = record r { chan = c; sent = r.sent ++ v ∷ [] }
  after_send r v (c, false) = record r { chan = c }

  pub after_recv : Run A → Channel A × Received A → Run A
  after_recv r (c, empty) = record r { chan = c }
  after_recv r (c, value v) = record r { chan = c; received = r.received ++ v ∷ [] }
  after_recv r (c, uninit) = record r { chan = c; read_uninit = true }

  pub step : Run A → Op A → Run A
  step r (sends v) = after_send r v (send r.chan v)
  step r syncs_sender = record r { chan = sync_sender r.chan }
  step r recvs = after_recv r (recv r.chan)
  step r syncs_receiver = record r { chan = sync_receiver r.chan }

  pub run : Run A → List (Op A) → Run A
  run r [] = r
  run r (op ∷ ops) = run (step r op) ops

  pub start : ℕ → Run A
  start capacity = record {
    chan = lamport_channel capacity;
    sent = [];
    received = [];
    read_uninit = false;
  }
