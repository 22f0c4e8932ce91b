-- ===== src/Ipc.antt =====
-- ipc/src/lib.rs: a server and its clients in one shared memory. `Block` is a client's part of it:
-- its flag and its two rings, each with the private fields of the ends that the server and the
-- client hold. `SharedMemory` is the header and the blocks; where they lie is in Ipc/Layout.
pub mod Layout
pub mod Connecting
pub mod Client
pub mod Server
pub mod Session
mod Tests
use locasta.Base.{
  ℕ, suc, ◌+◌, ◌-◌, ◌*◌, ◌%◌, ◌^◌, Bool, true, false, not, ◌||◌, Option, none, some, List, [], ◌∷◌,
  ◌==◌, leb, if◌then◌else◌, length, get_elem?, set, replicate,
}
use locasta.Mempc.Onesided.{Channel, create_spsc}
use locasta.Mempc.Onesided.Lanes.{Response}

pub record Block (Q R : Type 0) : Type 0 where
  pub alive : Bool
  pub calls : Channel Q
  pub responses : Channel (Response R)

pub record Header : Type 0 where
  pub magic : ℕ
  pub version : ℕ
  pub max_clients : ℕ
  pub ring_depth : ℕ
  pub req_slot_size : ℕ
  pub resp_slot_size : ℕ
  pub extra_buffer_size : ℕ
  pub server_alive : Bool
  pub next_client_id : ℕ

pub record SharedMemory (Q R : Type 0) : Type 0 where
  pub header : Header
  pub blocks : List (Block Q R)

abbrev magic_number : ℕ
magic_number = 0x5250_4353_4646_5721

abbrev version_number : ℕ
version_number = 3

pub data ConnectError : Type 0 where
  server_not_alive : ConnectError
  server_full : ConnectError
  layout_mismatch : ConnectError

pub data ConnectResult : Type 0 where
  connected : ℕ → ConnectResult
  refused : ConnectError → ConnectResult

-- The checks of `Client::connect` on the header, for slots of the given sizes.
unfoldable pub check_header : Header → ℕ → ℕ → Option ConnectError
check_header h req_slot_size resp_slot_size =
    if not (h.magic == magic_number)
    then some layout_mismatch
    else if not (h.version == version_number)
    then some layout_mismatch
    else if not h.server_alive
    then some server_not_alive
    else if not (h.req_slot_size == req_slot_size % 2 ^ 32)
        || not (h.resp_slot_size == resp_slot_size % 2 ^ 32)
    then some layout_mismatch
    else none

module _ {Q R : Type 0} where
  unfoldable pub new_block : ℕ → Block Q R
  new_block ring_depth = record {
    alive = false;
    calls = create_spsc ring_depth;
    responses = create_spsc ring_depth;
  }

  -- What `Server::create` writes, for slots of the given sizes. The asserts on its arguments fail
  -- with `none`; `is_power_of_two` is given.
  unfoldable pub create :
      (is_power_of_two : ℕ → Bool) → ℕ → ℕ → ℕ → ℕ → ℕ → Option (SharedMemory Q R)
  create is_power_of_two max_clients ring_depth extra_buffer_size req_slot_size resp_slot_size =
      if not (is_power_of_two ring_depth) || max_clients == 0
      then none
      else some (record {
        header = record {
          magic = magic_number;
          version = version_number;
          max_clients = max_clients;
          ring_depth = ring_depth;
          req_slot_size = req_slot_size % 2 ^ 32;
          resp_slot_size = resp_slot_size % 2 ^ 32;
          extra_buffer_size = extra_buffer_size;
          server_alive = true;
          next_client_id = 0;
        };
        blocks = replicate max_clients (new_block ring_depth);
      })

  unfoldable pub mark_alive : SharedMemory Q R → ℕ → SharedMemory Q R
  mark_alive m i = elim (get_elem? m.blocks i) [
    | none ↦ m
    | some b ↦ record m { blocks = set m.blocks i (record b { alive = true }) }
  ]

  -- `fetch_add` on the header's counter.
  unfoldable pub take_id : SharedMemory Q R → SharedMemory Q R
  take_id m = record m {
    header = record (m.header) { next_client_id = (m.header.next_client_id + 1) % 2 ^ 32 };
  }

  -- A client leaves: `drop` clears its flag, and does nothing else to the memory.
  unfoldable pub mark_gone : SharedMemory Q R → ℕ → SharedMemory Q R
  mark_gone m i = elim (get_elem? m.blocks i) [
    | none ↦ m
    | some b ↦ record m { blocks = set m.blocks i (record b { alive = false }) }
  ]

  -- `Client::connect`, once the memory is open.
  unfoldable pub connect : SharedMemory Q R → ℕ → ℕ → SharedMemory Q R × ConnectResult
  connect m req_slot_size resp_slot_size =
      elim (check_header m.header req_slot_size resp_slot_size) [
        | some e ↦ (m, refused e)
        | none ↦
            let id = m.header.next_client_id in
            if leb m.header.max_clients id
            then (take_id m, refused server_full)
            else (mark_alive (take_id m) id, connected id)
      ]
