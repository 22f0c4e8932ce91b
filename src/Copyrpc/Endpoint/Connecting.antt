-- ===== src/Copyrpc/Endpoint/Connecting.antt =====
-- copyrpc/src/rc.rs: the state of an endpoint that was just connected.
use locasta.Base.{ℕ, ◌^◌, ◌≤◌, ◌<◌, ◌≡◌, arith, length-replicate}
use native.Mathlib.Nat.{mod-eq_of_lt}
use locasta.Copyrpc.Endpoint.{RemoteRingInfo, in_flight, new, prepare_next_batch}
use locasta.Copyrpc.Endpoint.Calls.{RemoteEndpointInfo, connect_ex}
use locasta.Copyrpc.Endpoint.Batches.{IsBatched, ring_unit}
use locasta.Copyrpc.Endpoint.Reservation.{HasCredit}

abbrev pub ring_of : RemoteEndpointInfo → RemoteRingInfo
ring_of remote = record {
  addr = remote.recv_ring_addr;
  rkey = remote.recv_ring_rkey;
  size = remote.recv_ring_size;
}

-- A new endpoint with a send ring of 2 ^ k bytes, k from 6 to 63, that is connected to a receive
-- ring of that size has a well-formed batch without messages and satisfies the credit invariant,
-- whatever the policy on reservations and the peer's credit are.
pub connect_ex-HasCredit :
    {S : Type 0} (slab : S) (k recv_size max_reservation room : ℕ) (remote : RemoteEndpointInfo)
    → remote.recv_ring_size ≡ 2 ^ k
    → 6 ≤ k
    → k < 64
    → let e = connect_ex (new slab (2 ^ k) recv_size max_reservation room) remote in
      IsBatched k (ring_of remote) e × HasCredit (ring_of remote) e
unfolding HasCredit in_flight connect_ex new prepare_next_batch
connect_ex-HasCredit slab k recv_size max_reservation room remote size wide small = (
  ground (
    arith,
    length-replicate {A = ℕ} (2 ^ k) 0,
    ring_unit k wide,
    mod-eq_of_lt {n = 0} {m = 2 ^ k} (omega (arith, ring_unit k wide)),
  ),
  ground arith,
)
