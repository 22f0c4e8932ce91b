-- ===== src/Inproc/Flux.antt =====
-- inproc/src/flux.rs: how `create_flux` connects every two of `n` nodes, and how a node finds the
-- caller for a peer. Each node has a server, with a caller for every other node; a caller is named
-- by the node whose server it calls and its place there.
pub mod Wiring
mod Tests
use locasta.Base.{
  ℕ, zero, suc, ◌+◌, ◌-◌, Bool, true, Option, none, some, List, [], ◌∷◌, ltb, leb, ◌==◌, ◌&&◌, ◌||◌,
  if◌then◌else◌,
}
use locasta.Copyrpc.Ring.{next_power_of_two}
use locasta.Mempc.Onesided.Lanes.{Server, create, CallError, inflight_exceeded}

pub data SendError (T : Type 0) : Type 0 where
  disconnected : T → SendError T
  full : T → SendError T
  invalid_peer : T → SendError T

-- A caller of a node: the peer that it calls, and which of the callers of that peer's server it is.
pub record Link : Type 0 where
  pub peer : ℕ
  pub caller_idx : ℕ

pub record Node (T : Type 0) : Type 0 where
  pub id : ℕ
  pub num_nodes : ℕ
  pub server : Server T T
  pub links : List Link

-- The place of node `i` among the peers of node `j`.
pub place_of : ℕ → ℕ → ℕ
place_of i j = if ltb i j then i else i - 1

-- The loop over the peers of node `i` from `j` on.
pub links_from : ℕ → ℕ → ℕ → List Link
links_from i j zero = []
links_from i j (suc left) =
    let rest = links_from i (j + 1) left in
    if j == i then rest else record { peer = j; caller_idx = place_of i j } ∷ rest

pub links_of : ℕ → ℕ → List Link
links_of n i = links_from i 0 n

module _ {T : Type 0} where
  nodes_from : ℕ → ℕ → ℕ → ℕ → ℕ → List (Node T)
  nodes_from n capacity inflight_max i zero = []
  nodes_from n capacity inflight_max i (suc left) =
      record {
        id = i;
        num_nodes = n;
        server = create (n - 1) capacity inflight_max;
        links = links_of n i;
      }
      ∷ nodes_from n capacity inflight_max (i + 1) left

  -- `none` is a failed `assert!`, the last one of which is in `OnesidedMpsc::create`.
  pub create_flux : ℕ → ℕ → ℕ → Option (List (Node T))
  create_flux n capacity inflight_max =
      if n == 0 || (capacity == 0) || leb (next_power_of_two capacity) inflight_max
      then none
      else if next_power_of_two capacity == capacity
      then some (nodes_from n capacity inflight_max 0 n)
      else none

  pub peer_to_caller_index : Node T → ℕ → Option ℕ
  peer_to_caller_index node peer =
      if leb node.num_nodes peer || (peer == node.id)
      then none
      else some (if ltb peer node.id then peer else peer - 1)

  -- What `call` makes of an error of the caller.
  pub send_error : CallError T → SendError T
  send_error (CallError.full v) = full v
  send_error (inflight_exceeded v) = full v
  send_error (CallError.disconnected v) = disconnected v
