-- ===== src/Copyrpc/Context.antt =====
-- copyrpc/src/rc.rs: `Context` as far as it sends and receives: the endpoints that share it, the
-- queue of those with something to send, the requests that wait for `recv`, and the count of
-- receive buffers. An endpoint is named by its place in the list. The completion queues themselves
-- are not modelled, so polling them for room in a send queue is not either.
pub mod Flushing
mod Tests
use locasta.Base.{
  ℕ, zero, suc, ◌+◌, ◌-◌, ◌*◌, ◌/◌, ◌%◌, ◌^◌, Bool, true, false, Option, none, some, List, [], ◌∷◌,
  ◌++◌, ltb, ◌==◌, if◌then◌else◌, get_elem?, set,
}
use locasta.Copyrpc.Endpoint.{Endpoint, Error, Outcome, done, failed, panics}
use locasta.Copyrpc.Endpoint.Sending.{flush, has_pending_send}
use locasta.Copyrpc.Endpoint.Receiving.{RecvMessage}

pub record Context (S : Type 0) : Type 0 where
  pub endpoints : List (Endpoint S)
  pub dirty_endpoints : List ℕ
  pub recv_stack : List RecvMessage
  pub srq_posted : ℕ
  pub srq_max_wr : ℕ

-- How the loop of `flush_endpoints` stands when it stops: `unfinished` where its fuel is spent.
pub data Flushed (S : Type 0) : Type 0 where
  finished : Context S → Flushed S
  unfinished : Context S → Flushed S
  panicked : Flushed S

-- One turn of that loop.
pub data Turn (S : Type 0) : Type 0 where
  empty : Turn S
  turned : Context S → Turn S
  broken : Turn S

-- `Vec::pop`
pub pop_last {ℓ} : {A : Type ℓ} → List A → Option A × List A
pop_last [] = (none, [])
pop_last (x ∷ []) = (some x, [])
pop_last (x ∷ y ∷ xs) = let (last, rest) = pop_last (y ∷ xs) in (last, x ∷ rest)

module _ {S : Type 0} where
  pub set_dirty : Endpoint S → Bool → Endpoint S
  set_dirty e b = record e { is_dirty = b }

  pub set_endpoint : Context S → ℕ → Endpoint S → Context S
  set_endpoint ctx i e = record ctx { endpoints = set ctx.endpoints i e }

  push_dirty : Context S → ℕ → Context S
  push_dirty ctx i = record ctx { dirty_endpoints = ctx.dirty_endpoints ++ i ∷ [] }

  pub mark_endpoint_dirty : Context S → ℕ → Endpoint S → Context S
  mark_endpoint_dirty ctx i e =
      if e.is_dirty then ctx else push_dirty (set_endpoint ctx i (set_dirty e true)) i

  -- What is left to do for an endpoint that was taken from the queue and flushed.
  pub after_flush : Context S → ℕ → Endpoint S × Outcome Error Unit → Turn S
  after_flush ctx i (e, failed err) = turned (set_endpoint ctx i (set_dirty e false))
  after_flush ctx i (e, done u) = turned (
      if has_pending_send e
      then push_dirty (set_endpoint ctx i e) i
      else set_endpoint ctx i (set_dirty e false))
  after_flush ctx i (e, panics) = broken

  set_queue : Context S → List ℕ → Context S
  set_queue ctx queue = record ctx { dirty_endpoints = queue }

  -- A name that is not in use is skipped.
  pub turn_on : Context S → List ℕ → Turn S
  turn_on ctx [] = empty
  turn_on ctx (i ∷ queue) = elim (get_elem? ctx.endpoints i) [
    | none ↦ turned (set_queue ctx queue)
    | some e ↦ after_flush (set_queue ctx queue) i (flush e)
  ]

  -- The part of `flush_endpoints` that empties the queue.
  pub flush_dirty : ℕ → Context S → Flushed S
  flush_dirty zero ctx = unfinished ctx
  flush_dirty (suc fuel) ctx = elim (turn_on ctx ctx.dirty_endpoints) [
    | empty ↦ finished ctx
    | turned next ↦ flush_dirty fuel next
    | broken ↦ panicked
  ]

  pub recv : Context S → Option RecvMessage × Context S
  recv ctx = let (last, rest) = pop_last ctx.recv_stack in (last, record ctx { recv_stack = rest })

  -- The receive buffers that `poll` posts again after some completions.
  pub repost : Context S → ℕ → Context S
  repost ctx recv_count =
      let posted = ctx.srq_posted - recv_count in
      if recv_count == 0
      then ctx
      else if ltb posted (ctx.srq_max_wr * 2 % 2 ^ 32 / 3)
      then record ctx { srq_posted = ctx.srq_max_wr }
      else record ctx { srq_posted = posted }
