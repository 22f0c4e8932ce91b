-- ===== src/Ipc/Tests.antt =====
-- Runs of the shared-memory RPC, and instances of the theorems.
use locasta.Base.{
  ℕ, ◌+◌, ◌*◌, ◌^◌, ◌%◌, ◌≤◌, ◌≡◌, refl, arith, Bool, true, false, ◌==◌, ltb, if◌then◌else◌,
  is_some, none, List, [], ◌∷◌, length, get_or,
}
use locasta.Mempc.Onesided.{
  create_spsc, store_data, store_generation, raw_send, is_ready, load_generation, load_data,
  try_recv, publish,
}
use locasta.Mempc.Onesided.Contents.{Carries, create_spsc-Carries, raw_send-Carries}
use locasta.Ipc.{Block, SharedMemory, new_block, create, connect, connected, refused, server_full}
use locasta.Ipc.Layout.{Sizes, block_base, req_slot, resp_slot, extra_ptr, total_shm_size}
use locasta.Ipc.Layout.Regions.{regions_disjoint, regions_aligned}
use locasta.Ipc.Connecting.{comes, leaves, visit_all, connect-nth}
use locasta.Ipc.Server
use locasta.Ipc.Server.Polling.{total}
use locasta.Ipc.Server.Noting.{hidden, poll_lem, poll_with_skip-eq-poll}
use locasta.Ipc.Server.Receiving.{HasRequest, recv-poll}
use locasta.Ipc.Client
use locasta.Ipc.Client.{
  Client, new_client, send_call, call_turn, sent, fails, server_disconnected, panics, blocking_recv,
  blocking_call_turn, blocking_check, take_answer, set_responses, respond, take_response, turn,
  drain, after_drain,
}
use locasta.Ipc.Server.{Server, take_call, reply_block, client_avail, poll_with_skip, recv}
use locasta.Ipc.Session.{Op, calls, resumes, receives, replies, step, run, start}
use locasta.Ipc.Session.Pending.{ArePaired}
use locasta.Ipc.Session.Pairing.{IsMeant, AreMeant, run-ArePaired}
use locasta.Ipc.Session.Completion.{poll_completes}

-- The data are the request plus 100, and the response twice the request.
abbrev Asks : ℕ → ℕ → Type 0
Asks q u = u ≡ q + 100

abbrev Answers : ℕ → ℕ → Type 0
Answers q r = r ≡ 2 * q

-- Two calls fill the ring, a third one waits, and the server replies in reverse order.
abbrev ops : List (Op ℕ ℕ ℕ)
ops =
    calls 10 110
    ∷ calls 20 120
    ∷ receives
    ∷ calls 30 130
    ∷ receives
    ∷ replies 1 40
    ∷ resumes
    ∷ replies 0 20
    ∷ []

ops-AreMeant : AreMeant Asks Answers (start (2 ^ 1)) ops
unfolding AreMeant IsMeant step start new_client new_block create_spsc Client.call call_turn
    Client.next_slot send_call raw_send store_data store_generation publish take_call try_recv
    load_generation load_data is_ready reply_block Client.poll drain after_drain turn take_response
    set_responses respond Client.after_poll
ops-AreMeant = (
  refl,
  (refl, (tt, (refl, (tt, (λ slot q e. ground arith, (tt, (λ slot q e. ground arith, tt))))))),
)

run-ArePaired_example :
    let s = run (start (2 ^ 1)) ops in
    ArePaired Asks Answers s.client.responded
    × (s.panicked ≡ false)
    × (s.calls_sent ≡ length s.client.responded + s.client.in_flight)
    × (s.client.in_flight ≤ 2 ^ 1)
run-ArePaired_example = run-ArePaired Asks Answers 1 ops (omega arith) ops-AreMeant

poll_completes_example :
    let s = run (start (2 ^ 1)) ops in
    let c = (Client.poll s.client).0 in
    (c.in_flight ≡ 0)
    × (length c.responded ≡ s.calls_sent)
    × ((Client.call c 30 130).1 ≡ (if c.server_alive then sent else fails server_disconnected))
unfolding run step start new_client new_block create_spsc Client.call call_turn Client.next_slot
    send_call raw_send store_data store_generation publish take_call try_recv load_generation
    load_data is_ready reply_block Client.poll drain after_drain turn take_response set_responses
    respond Client.after_poll
poll_completes_example =
    poll_completes Asks Answers 1 ops 30 130 (omega arith) ops-AreMeant refl refl

-- Requests of 100 bytes and responses of 20, in rings of 8.
abbrev sizes : Sizes
sizes = record { req_slot_size = 128; resp_slot_size = 64; ring_depth = 8; extra_buffer_size = 100 }

regions_disjoint_example :
    (64 ≤ block_base sizes 2)
    × (block_base sizes 2 + 64 ≤ req_slot sizes 2 5)
    × (req_slot sizes 2 5 + sizes.req_slot_size ≤ req_slot sizes 2 (5 + 1))
    × (req_slot sizes 2 (5 + 1) ≤ resp_slot sizes 2 0)
    × (resp_slot sizes 2 5 + sizes.resp_slot_size ≤ resp_slot sizes 2 (5 + 1))
    × (resp_slot sizes 2 (5 + 1) ≤ extra_ptr sizes 2)
    × (extra_ptr sizes 2 + sizes.extra_buffer_size ≤ block_base sizes (2 + 1))
    × (block_base sizes (2 + 1) ≤ total_shm_size sizes 4)
regions_disjoint_example = regions_disjoint sizes 4 2 5 (omega arith) (omega arith) (omega arith)

regions_aligned_example :
    (block_base sizes 2 % 64 ≡ 0)
    × (req_slot sizes 2 5 % 64 ≡ 0)
    × (resp_slot sizes 2 5 % 64 ≡ 0)
    × (extra_ptr sizes 2 % 64 ≡ 0)
regions_aligned_example = regions_aligned sizes 2 5 refl refl

-- A server for 2 clients, and a third client, after the first one has left.
abbrev is_two : ℕ → Bool
is_two n = n == 2

abbrev memory : SharedMemory ℕ ℕ
memory = record {
  header = record {
    magic = 0x5250_4353_4646_5721;
    version = 3;
    max_clients = 2;
    ring_depth = 2;
    req_slot_size = 64;
    resp_slot_size = 64;
    extra_buffer_size = 0;
    server_alive = true;
    next_client_id = 0;
  };
  blocks = new_block 2 ∷ new_block 2 ∷ [];
}

connect-nth_example :
    (connect (visit_all 64 64 memory (comes ∷ comes ∷ leaves 0 ∷ [])) 64 64).1
    ≡ (if ltb (2 % 2 ^ 32) 2 then connected (2 % 2 ^ 32) else refused server_full)
unfolding create
connect-nth_example = connect-nth 64 64 is_two 2 2 0 (comes ∷ comes ∷ leaves 0 ∷ []) memory refl

-- The second client has sent 42, and the first one has left with a request in its ring.
abbrev with_request : Bool → Block ℕ ℕ
with_request alive = record (new_block 2) {
  alive = alive;
  calls = (raw_send (create_spsc (2 ^ 1)) 42).0;
}

abbrev server : Server ℕ ℕ
server = record {
  blocks = with_request false ∷ with_request true ∷ [];
  max_clients = 2;
  ring_depth = 2;
  scan_pos = 1;
  recv_scan_pos = 0;
  req_avail = 0 ∷ 0 ∷ [];
  recv_start = 0;
}

with_request-Carries : Carries 1 (with_request true).calls 0 (42 ∷ [])
with_request-Carries =
    raw_send-Carries 1 (create_spsc (2 ^ 1)) 0 [] (create_spsc-Carries 1 (omega arith)) 42
      (omega arith)

poll_lem_example :
    (get_or (Server.poll server).0.req_avail 1 0 ≡ 1)
    × ((Server.poll server).1 ≡ total (λ j. get_or (Server.poll server).0.req_avail j 0) 2 % 2 ^ 32)
poll_lem_example =
    poll_lem 1 server 1 (with_request true) 0 (42 ∷ []) (omega arith) refl refl (omega arith) refl
      with_request-Carries

with_request-HasRequest : HasRequest 1 (with_request true)
unfolding HasRequest
with_request-HasRequest = (refl, (0, 42, [], with_request-Carries))

poll_with_skip-eq-poll_example :
    let (t, count) = Server.poll (hidden server (false ∷ true ∷ [])) in
    poll_with_skip server (false ∷ true ∷ []) ≡ (record t { blocks = server.blocks }, count)
poll_with_skip-eq-poll_example = poll_with_skip-eq-poll server (false ∷ true ∷ [])

recv-poll_example : is_some (recv (Server.poll server).0).1 ≡ true
recv-poll_example =
    recv-poll 1 server 1 (with_request true) (omega arith) refl (omega arith) (omega arith) refl
      with_request-HasRequest

-- A blocking call finds no response, then the server replies and drops, and the call fails. The
-- response is in the ring with no user data: a later poll panics.
abbrev waiting : Client ℕ ℕ ℕ
waiting = (blocking_recv (blocking_call_turn (new_client 2) 7).0).0

abbrev replied : Client ℕ ℕ ℕ
replied = record waiting {
  server_alive = false;
  block = reply_block (take_call waiting.block).0 0 14;
}

late_response :
    ((blocking_recv (blocking_call_turn (new_client {Q = ℕ} {R = ℕ} {U = ℕ} 2) 7).0).1 ≡ none)
    × (blocking_check replied ≡ fails server_disconnected)
    × ((Client.poll replied).1 ≡ panics)
unfolding blocking_recv blocking_call_turn blocking_check take_answer new_client new_block
    create_spsc raw_send store_data store_generation publish take_call try_recv load_generation
    load_data is_ready reply_block Client.poll drain after_drain turn take_response set_responses
    respond
late_response = (refl, refl, refl)
