-- ===== src/Mempc/UserData/Tests.antt =====
-- A caller over a ring of four slots with three calls at most in flight, and an instance of the
-- theorem.
use locasta.Base.{ℕ, ◌≡◌, refl, arith, List, [], ◌∷◌}
use locasta.Mempc.Onesided.{
  create_spsc, store_data, store_generation, try_send, is_ready, load_generation, load_data,
  try_recv, publish,
}
use locasta.Mempc.Onesided.Lanes.{
  Lane, create_lane, sent_call, got_response, reply_lane, try_recv_response, sync,
}
use locasta.Mempc.Onesided.Lanes
use locasta.Mempc.UserData.{
  WithUserData, new, slot_of, store, take_data, call, poll, drain, set_caller, called, called_back,
  respond,
}
use locasta.Mempc.UserData.Tokens.{Op, calls, moves, step, run, AreElsewhere, poll-call}

abbrev Wrapped : Type 0
Wrapped = WithUserData (Lane ℕ ℕ) ℕ

abbrev asked : Wrapped → ℕ → ℕ → Wrapped
asked w req u = (call Lanes.call w req u).0

abbrev polled : Wrapped → Wrapped × List (ℕ × ℕ)
polled w = poll sync try_recv_response 4 w

-- The server takes a request.
abbrev served : Lane ℕ ℕ → Lane ℕ ℕ
served l = record l { calls = (try_recv l.calls).0 }

abbrev on_lane : (Lane ℕ ℕ → Lane ℕ ℕ) → Wrapped → Wrapped
on_lane f w = record w { caller = f w.caller }

-- Three requests are taken, and the first of them is left without a reply.
abbrev deferred : Wrapped
deferred =
    on_lane (λ l. reply_lane (reply_lane (served (served (served l))) 1 21) 2 22)
      (asked (asked (asked (new (create_lane 4 3) 4) 10 100) 11 101) 12 102)

abbrev waiting : Wrapped
waiting = asked (asked (polled deferred).0 13 103) 14 104

-- The late reply to the first request, whose data is 100, is given the data of the last one.
collision :
    ((polled deferred).1 ≡ (101, 21) ∷ (102, 22) ∷ [])
    × ((polled (on_lane (λ l. reply_lane l 0 20) waiting)).1 ≡ (104, 20) ∷ [])
unfolding create_spsc store_data store_generation try_send is_ready load_generation load_data
    try_recv publish create_lane sent_call got_response reply_lane try_recv_response sync Lanes.call
    new slot_of store take_data call poll drain set_caller called called_back respond
collision = (refl, refl)

-- A second call is made, and the server replies to the first one.
abbrev ops : List (Op (Lane ℕ ℕ) ℕ ℕ)
ops = calls 11 101 ∷ moves (λ l. reply_lane (served l) 0 20) ∷ []

abbrev fresh : Wrapped
fresh = new (create_lane 4 3) 4

abbrev called_once : Wrapped
called_once = asked fresh 10 100

poll-call_example :
    (more : List (ℕ × ℕ)) × ((poll sync try_recv_response 4
        (run Lanes.call sync try_recv_response called_once ops)).1
      ≡ (100, 20) ∷ more)
unfolding create_spsc store_data store_generation try_send is_ready load_generation load_data
    try_recv publish create_lane sent_call got_response reply_lane try_recv_response sync Lanes.call
    new slot_of store take_data call poll drain set_caller called called_back respond AreElsewhere
    step run
poll-call_example =
    poll-call Lanes.call sync try_recv_response fresh 10 100 called_once.caller 0 ops 0
      (try_recv_response (sync (run Lanes.call sync try_recv_response called_once ops).caller)).0 20
      3 (omega arith) refl (λ e. absurd (omega arith), (tt, tt)) refl refl
