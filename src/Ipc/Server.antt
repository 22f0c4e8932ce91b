-- ===== src/Ipc/Server.antt =====
-- The server of ipc/src/lib.rs, over the clients' blocks.
pub mod Polling
pub mod Noting
pub mod Receiving
use locasta.Base.{
  ℕ, zero, suc, ◌+◌, ◌-◌, ◌%◌, ◌^◌, Bool, true, false, not, Option, none, some, List, [], ◌∷◌, ltb,
  leb, ◌&&◌, if◌then◌else◌, get_elem?, get_or, set, replicate,
}
use locasta.Mempc.Onesided.{
  Channel, Loaded, nothing, value, uninit, raw_send, try_recv, publish, count_available,
}
use locasta.Mempc.Onesided.Lanes.{Response}
use locasta.Ipc.{Block}

pub record RequestToken : Type 0 where
  pub client_id : ℕ
  pub slot_idx : ℕ

pub record Server (Q R : Type 0) : Type 0 where
  pub blocks : List (Block Q R)
  pub max_clients : ℕ
  pub ring_depth : ℕ
  pub scan_pos : ℕ
  pub recv_scan_pos : ℕ
  pub req_avail : List ℕ
  pub recv_start : ℕ

module _ {Q R : Type 0} where
  unfoldable pub new_server : List (Block Q R) → ℕ → ℕ → Server Q R
  new_server blocks max_clients ring_depth = record {
    blocks = blocks;
    max_clients = max_clients;
    ring_depth = ring_depth;
    scan_pos = 0;
    recv_scan_pos = 0;
    req_avail = replicate max_clients 0;
    recv_start = 0;
  }

  -- What `poll` notes for a client: nothing if it is gone.
  unfoldable pub client_avail : Server Q R → ℕ → ℕ
  client_avail s i = elim (get_elem? s.blocks i) [
    | none ↦ 0
    | some b ↦ if b.alive then count_available b.calls s.ring_depth else 0
  ]

  unfoldable pub note_avail : Server Q R → ℕ → ℕ → Server Q R
  note_avail s i avail = record s { req_avail = set s.req_avail i avail }

  unfoldable pub end_poll : Server Q R → ℕ → Server Q R
  end_poll s scan = record s { scan_pos = scan; recv_start = scan; recv_scan_pos = 0 }

  -- The loop of `poll` from a scan position, for so many turns. The count is a u32.
  unfoldable pub poll_loop : ℕ → Server Q R → ℕ → ℕ → Server Q R × ℕ
  poll_loop zero s scan count = (end_poll s scan, count)
  poll_loop (suc turns) s scan count =
      let avail = client_avail s scan in
      poll_loop turns (note_avail s scan avail) ((scan + 1) % s.max_clients)
        ((count + avail) % 2 ^ 32)

  unfoldable pub poll : Server Q R → Server Q R × ℕ
  poll s = poll_loop s.max_clients s s.scan_pos 0

  -- The loop of `poll_with_skip`, which notes nothing for a client that is to be skipped.
  unfoldable pub skip_loop : ℕ → List Bool → Server Q R → ℕ → ℕ → Server Q R × ℕ
  skip_loop zero skip s scan count = (end_poll s scan, count)
  skip_loop (suc turns) skip s scan count =
      let avail = if get_or skip scan false then 0 else client_avail s scan in
      skip_loop turns skip (note_avail s scan avail) ((scan + 1) % s.max_clients)
        ((count + avail) % 2 ^ 32)

  unfoldable pub poll_with_skip : Server Q R → List Bool → Server Q R × ℕ
  poll_with_skip s skip = skip_loop s.max_clients skip s s.scan_pos 0

  -- A client's ring is read.
  unfoldable pub take_call : Block Q R → Block Q R × Loaded Q
  take_call b = let (ch, o) = try_recv b.calls in (record b { calls = ch }, o)

  -- `reply` to a client's ring.
  unfoldable pub reply_block : Block Q R → ℕ → R → Block Q R
  reply_block b slot_idx resp = record b {
    responses = publish (raw_send b.responses (record { token = slot_idx; body = resp })).0;
  }

  unfoldable pub received :
      Server Q R → ℕ → Block Q R × Loaded Q → Server Q R × Option (RequestToken × Q)
  received s i (b, value slot_idx q) = (
    record s {
      blocks = set s.blocks i b;
      req_avail = set s.req_avail i (get_or s.req_avail i 0 - 1);
    },
    some (record { client_id = i; slot_idx = slot_idx }, q),
  )
  received s i (b, nothing) = (record s { blocks = set s.blocks i b }, none)
  received s i (b, uninit) = (record s { blocks = set s.blocks i b }, none)

  unfoldable pub recv_at : Server Q R → ℕ → Server Q R × Option (RequestToken × Q)
  recv_at s i =
      if ltb 0 (get_or s.req_avail i 0)
      then elim (get_elem? s.blocks i) [ none ↦ (s, none) | some b ↦ received s i (take_call b) ]
      else (s, none)

  unfoldable pub recv_pos : Server Q R → ℕ
  recv_pos s = (s.recv_start + s.recv_scan_pos) % s.max_clients

  -- The loop of `recv`, for at most so many turns.
  unfoldable pub recv_loop : ℕ → Server Q R → Server Q R × Option (RequestToken × Q)
  recv_loop zero s = (s, none)
  recv_loop (suc turns) s =
      let (s1, found) = recv_at s (recv_pos s) in
      let later = recv_loop turns (record s1 { recv_scan_pos = s1.recv_scan_pos + 1 }) in
      elim found [ none ↦ later | some request ↦ (s1, some request) ]

  -- The loop runs while the position is below the number of clients.
  unfoldable pub recv : Server Q R → Server Q R × Option (RequestToken × Q)
  recv s = recv_loop (s.max_clients - s.recv_scan_pos) s

  -- `RecvHandle::reply` and `Server::reply`. `none`: the client of the token does not exist.
  unfoldable pub reply : Server Q R → RequestToken → R → Option (Server Q R)
  reply s t resp = elim (get_elem? s.blocks t.client_id) [
    | none ↦ none
    | some b ↦ some (record s { blocks = set s.blocks t.client_id (reply_block b t.slot_idx resp) })
  ]

  unfoldable pub is_client_connected : Server Q R → ℕ → Bool
  is_client_connected s id =
      if leb s.max_clients id
      then false
      else elim (get_elem? s.blocks id) [ none ↦ false | some b ↦ b.alive ]

  pub connected_below : Server Q R → ℕ → ℕ
  connected_below s zero = 0
  connected_below s (suc n) = (if is_client_connected s n then 1 else 0) + connected_below s n

  pub connected_clients : Server Q R → ℕ
  connected_clients s = connected_below s s.max_clients
