-- ===== src/Mempc/Onesided/Tests.antt =====
-- Runs of a channel of two cells, and instances of the theorems.
use locasta.Base.{
  ℕ, ◌+◌, ◌^◌, ◌≤◌, ◌≡◌, refl, arith, false, List, [], ◌∷◌, length, take, some, get_elem?,
}
use locasta.Mempc.Onesided.{
  Op, stores_data, stores_generation, loads_generation, loads_data, try_send, run, start, step,
  create_spsc, store_data, store_generation, load_generation, load_data, value, try_recv,
  after_load, is_ready,
}
use locasta.Mempc.Onesided.Steps.{HaveRoom, HasRoom}
use locasta.Mempc.Onesided.Lanes.{
  Server, Lane, ReplyToken, create_lane, call, sent_call, server_try_recv,
}
use locasta.Mempc.Onesided.Scanning.{HasRequest, distance, server_try_recv_lem}
use locasta.Mempc.Onesided.Fifo.{run_takes}

-- Two values are sent, while the receiver looks before and after the first generation is stored.
abbrev ops : List (Op ℕ)
ops =
    stores_data 7
    ∷ loads_generation
    ∷ loads_data
    ∷ stores_generation
    ∷ loads_generation
    ∷ stores_data 8
    ∷ loads_data
    ∷ stores_generation
    ∷ []

ops-HaveRoom : HaveRoom 1 (start (2 ^ 1)) ops
unfolding HaveRoom HasRoom step start create_spsc store_data store_generation load_generation
    load_data after_load is_ready
ops-HaveRoom = (omega arith, (tt, (tt, (tt, (tt, (omega arith, (tt, (tt, tt))))))))

run_takes_example :
    let r = run (start (2 ^ 1)) ops in
    (r.received ≡ take (length r.received) r.sent)
    × (length r.sent ≤ length r.received + 2 ^ 1)
    × (r.read_uninit ≡ false)
run_takes_example = run_takes 1 ops (omega arith) ops-HaveRoom

-- The first of two callers has sent 42, and the scan is at the second.
abbrev two_lanes : Server ℕ ℕ
two_lanes = record { lanes = (call (create_lane 2 4) 42).0 ∷ create_lane 2 4 ∷ []; scan_pos = 1 }

server_try_recv_lem_example :
    (t : ReplyToken) × (x : ℕ) × (m : Lane ℕ ℕ) × ((server_try_recv two_lanes).1 ≡ some (t, x))
    × (get_elem? two_lanes.lanes t.caller_id ≡ some m)
    × ((try_recv m.calls).1 ≡ value t.slot_token x)
    × (distance two_lanes t.caller_id ≤ distance two_lanes 0)
unfolding HasRequest is_ready call sent_call create_lane create_spsc store_data store_generation
    try_send
server_try_recv_lem_example =
    server_try_recv_lem two_lanes 0 (call (create_lane 2 4) 42).0 (omega arith) (omega arith) refl
      (refl, (42, refl))
