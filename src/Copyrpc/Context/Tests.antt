-- ===== src/Copyrpc/Context/Tests.antt =====
-- A context with one endpoint that has a request to send, and instances of the theorems.
use locasta.Base.{ℕ, zero, suc, ◌≡◌, refl, arith, some, [], ◌∷◌, get_elem?, true, false}
use mathlib.Core.Path.{subst}
use mathlib.Core.Option.{some-injective}
use locasta.Copyrpc.Encoding.{padded_message_size}
use locasta.Copyrpc.Endpoint.{Endpoint, new, prepare_next_batch}
use locasta.Copyrpc.Endpoint.Sending.{has_pending_send}
use locasta.Copyrpc.Endpoint.Calls.{RemoteEndpointInfo, connect_ex, message_size, write_message}
use locasta.Copyrpc.Endpoint.Batches.{IsBatched}
use locasta.Copyrpc.Endpoint.Exchange.{write_message-IsBatched}
use locasta.Copyrpc.Endpoint.Connecting.{ring_of, connect_ex-HasCredit}
use locasta.Copyrpc.Context.{Context, finished, flush_dirty, repost}
use locasta.Copyrpc.Context.Flushing.{IsValid, IsQueued, flush_dirty-finished, flush_dirty-stranded}

abbrev remote : RemoteEndpointInfo
remote = record {
  recv_ring_addr = 0;
  recv_ring_rkey = 1;
  recv_ring_size = 128;
  initial_credit = 32;
}

abbrev connected : ℕ → Endpoint ℕ
connected room = connect_ex (new 0 128 128 32 room) remote

-- An endpoint that is marked dirty.
abbrev marked : Endpoint ℕ → Endpoint ℕ
marked e = record e { is_dirty = true }

marked-IsBatched :
    (e : Endpoint ℕ) → IsBatched 7 (ring_of remote) e → IsBatched 7 (ring_of remote) (marked e)
marked-IsBatched e v = ground (arith, v)

abbrev loaded : ℕ → Endpoint ℕ
loaded room = marked (write_message (connected room) 0 2 (5 ∷ []))

loaded-IsBatched : (room : ℕ) → IsBatched 7 (ring_of remote) (loaded room)
unfolding message_size padded_message_size connect_ex new prepare_next_batch
loaded-IsBatched room = marked-IsBatched (write_message (connected room) 0 2 (5 ∷ [])) (
    write_message-IsBatched 7 (ring_of remote) (connected room)
      (connect_ex-HasCredit 0 7 128 32 room remote refl (omega arith) (omega arith)).0 0 2 (5 ∷ [])
      (omega arith))

abbrev context : ℕ → Context ℕ
context room = record {
  endpoints = loaded room ∷ [];
  dirty_endpoints = 0 ∷ [];
  recv_stack = [];
  srq_posted = 8;
  srq_max_wr = 8;
}

context-IsValid : (room : ℕ) → IsValid (loaded room ∷ []) (0 ∷ [])
unfolding IsValid IsQueued write_message
context-IsValid room zero e at =
    subst (IsQueued (0 ∷ []) 0) (some-injective (loaded room) e at)
      (refl, (7, ring_of remote, loaded-IsBatched room))
context-IsValid room (suc j) e at = cc

flush_dirty-finished_example :
    (end : Context ℕ) × (flush_dirty 2 (context 4) ≡ finished end)
    × (end.dirty_endpoints ≡ [])
    × IsValid end.endpoints []
flush_dirty-finished_example = flush_dirty-finished (0 ∷ []) (context 4) refl (context-IsValid 4)

flush_dirty-stranded_example :
    (end : Context ℕ) × (d : Endpoint ℕ) × (flush_dirty 2 (context 0) ≡ finished end)
    × (end.dirty_endpoints ≡ [])
    × (get_elem? end.endpoints 0 ≡ some d)
    × (d.is_dirty ≡ false)
    × (has_pending_send d ≡ true)
unfolding write_message connect_ex new prepare_next_batch
flush_dirty-stranded_example =
    flush_dirty-stranded (context 0) 0 7 (ring_of remote) (loaded 0) refl refl (loaded-IsBatched 0)
      (omega arith) refl

-- Below two thirds, the receive buffers are filled up.
reposted : ((repost (context 0) 3).srq_posted ≡ 5) × ((repost (context 0) 4).srq_posted ≡ 8)
unfolding repost
reposted = (refl, refl)
