-- ===== src/Copyrpc/Context/Flushing.antt =====
-- copyrpc/src/rc.rs: the loop of `flush_endpoints` on endpoints with well-formed batches.
use locasta.Base.{
  ℕ, suc, ◌≡◌, ◌≢◌, inl, inr, refl, sym, ◌∙◌, arith, some, none, length, true, false, ap, Bool,
  Bool-cases, Option-cases, List, [], ◌∷◌, ◌||◌, ◌==◌, if◌then◌else◌, get_elem?, set,
  get_elem?-set_same, get_elem?-set_other, get_elem?-set_there, ◌<◌, ==_iff,
}
use mathlib.Core.Path.{subst}
use locasta.Copyrpc.Endpoint.{Endpoint, RemoteRingInfo, failed, io}
use locasta.Copyrpc.Endpoint.Sending.{flush, has_pending_send}
use locasta.Copyrpc.Endpoint.Batches.{IsBatched}
use locasta.Copyrpc.Endpoint.Failing.{flush-ends, flush-io}
use locasta.Copyrpc.Context.{
  Context, finished, panicked, Turn, empty, turned, broken, set_dirty, set_endpoint, set_queue,
  after_flush, turn_on, flush_dirty,
}

abbrev pub elem : ℕ → List ℕ → Bool
elem j [] = false
elem j (i ∷ queue) = (j == i) || elem j queue

weaken :
    (b c d : Bool)
    → c ≡ false
    → (if b then c || d else true) ≡ true
    → (if b then d else true) ≡ true
weaken false c d h k = refl
weaken true false d h k = k
weaken true true d h k = cc

ne : {b : Bool} → b ≡ false → b ≢ true
ne h k = cc

module _ {S : Type 0} where
  -- An endpoint that says it is queued is queued, and its batch is well formed.
  unfoldable pub IsQueued : List ℕ → ℕ → Endpoint S → Type 0
  IsQueued queue j e =
      ((if e.is_dirty then elem j queue else true) ≡ true)
      × ((k : ℕ) × (r : RemoteRingInfo) × IsBatched k r e)

  unfoldable pub IsValid : List (Endpoint S) → List ℕ → Type 0
  IsValid endpoints queue =
      (j : ℕ) (e : Endpoint S) → get_elem? endpoints j ≡ some e → IsQueued queue j e

  clean-IsBatched :
      (k : ℕ) (r : RemoteRingInfo) (e : Endpoint S)
      → IsBatched k r e
      → IsBatched k r (set_dirty e false)
  unfolding set_dirty
  clean-IsBatched k r e v = ground (arith, v)

  module _ (endpoints : List (Endpoint S)) (i : ℕ) (queue : List ℕ)
      (v : IsValid endpoints (i ∷ queue)) where
    behind :
        (j : ℕ) (e : Endpoint S) → (j == i) ≡ false → IsQueued (i ∷ queue) j e → IsQueued queue j e
    unfolding IsQueued
    behind j e other (queued, batch) =
        (weaken e.is_dirty (j == i) (elem j queue) other queued, batch)

    batch_of :
        (e : Endpoint S)
        → get_elem? endpoints i ≡ some e
        → (k : ℕ) × (r : RemoteRingInfo) × IsBatched k r e
    unfolding IsValid IsQueued
    batch_of e there = (v i e there).1

    unused-IsValid : get_elem? endpoints i ≡ none → IsValid endpoints queue
    unfolding IsValid IsQueued
    unused-IsValid gone j e at = elim (Bool-cases (j == i)) [
      | inl same ↦ let place : j ≡ i = (==_iff j i).0 same in cc
      | inr other ↦ behind j e other (v j e at)
    ]

    cleaned-IsValid :
        (k : ℕ) (r : RemoteRingInfo) (d : Endpoint S)
        → IsBatched k r d
        → IsValid (set endpoints i (set_dirty d false)) queue
    unfolding IsValid IsQueued set_dirty
    cleaned-IsValid k r d w j e at = elim (Bool-cases (j == i)) [
      | inl same ↦
          subst (λ x. IsQueued queue j x)
            (sym (
              get_elem?-set_same endpoints i (set_dirty d false) e (
                ap (get_elem? (set endpoints i (set_dirty d false))) (sym ((==_iff j i).0 same))
                ∙ at)))
            (refl, (k, r, clean-IsBatched k r d w))
      | inr other ↦ behind j e other (
          v j e (
            sym (
              get_elem?-set_other endpoints i j (set_dirty d false)
                (λ q. ne other ((==_iff j i).1 q)))
            ∙ at))
    ]

  turn_on-turned :
      (ctx : Context S) (i : ℕ) (queue : List ℕ)
      → IsValid ctx.endpoints (i ∷ queue)
      → (next : Context S) × (turn_on ctx (i ∷ queue) ≡ turned next)
        × IsValid next.endpoints queue
        × (next.dirty_endpoints ≡ queue)
  unfolding turn_on after_flush set_endpoint set_queue
  turn_on-turned ctx i queue v = elim (Option-cases (get_elem? ctx.endpoints i)) [
    | inl gone ↦ (
      set_queue ctx queue,
      rw (gone, turn_on) refl,
      unused-IsValid ctx.endpoints i queue v gone,
      refl,
    )
    | inr (e, there) ↦
        let (k, r, w) = batch_of ctx.endpoints i queue v e there in
        let (d, wd, ends) = flush-ends k r e w in
        (
          set_endpoint (set_queue ctx queue) i (set_dirty d false),
          rw (there, turn_on)
              (elim ends [
                | inl (flushed, pending) ↦ rw flushed (rw pending refl)
                | inr full ↦ rw full refl
              ]),
          cleaned-IsValid ctx.endpoints i queue v k r d wd,
          refl,
        )
  ]

  failed_turn :
      (ctx : Context S) (i : ℕ) (queue : List ℕ) (e d : Endpoint S)
      → get_elem? ctx.endpoints i ≡ some e
      → flush e ≡ (d, failed io)
      → turn_on ctx (i ∷ queue) ≡ turned (set_endpoint (set_queue ctx queue) i (set_dirty d false))
  unfolding after_flush turn_on set_endpoint
  failed_turn ctx i queue e d there full = rw (there, turn_on) (rw full refl)

  nothing_queued : (ctx : Context S) → turn_on ctx [] ≡ empty
  unfolding turn_on
  nothing_queued ctx = refl

  one_turn :
      (fuel : ℕ) (ctx : Context S) (turn : Turn S)
      → turn_on ctx ctx.dirty_endpoints ≡ turn
      → flush_dirty (suc fuel) ctx ≡ elim turn [
        | empty ↦ finished ctx
        | turned next ↦ flush_dirty fuel next
        | broken ↦ panicked
      ]
  unfolding flush_dirty
  one_turn fuel ctx turn h =
      ap
        (λ t. elim t [
          | empty ↦ finished ctx
          | turned next ↦ flush_dirty fuel next
          | broken ↦ panicked
        ])
        h

  -- Where every endpoint's batch is well formed and every endpoint that is marked dirty is queued,
  -- the loop of `flush_endpoints` ends after one turn for each entry of the queue and a last one
  -- that finds it empty, without a panic, whether or not the send queues have room. Then the queue
  -- is empty, no endpoint is marked dirty, and all batches are still well formed.
  pub flush_dirty-finished :
      (queue : List ℕ) (ctx : Context S)
      → ctx.dirty_endpoints ≡ queue
      → IsValid ctx.endpoints queue
      → (end : Context S) × (flush_dirty (suc (length queue)) ctx ≡ finished end)
        × (end.dirty_endpoints ≡ [])
        × IsValid end.endpoints []
  flush_dirty-finished [] ctx at v =
      (ctx, one_turn 0 ctx empty (ap (turn_on ctx) at ∙ nothing_queued ctx), at, v)
  flush_dirty-finished (i ∷ queue) ctx at v =
      let (next, turn, w, left) = turn_on-turned ctx i queue v in
      let rest = flush_dirty-finished queue next left w in
      (
        rest.0,
        one_turn (suc (length queue)) ctx (turned next) (ap (turn_on ctx) at ∙ turn) ∙ rest.1,
        rest.2,
        rest.3,
      )

  -- An endpoint with messages and a full send queue, alone in the queue of dirty endpoints, is
  -- dropped from it by `flush_endpoints`: it still has something to send afterwards, but neither is
  -- it queued nor marked.
  pub flush_dirty-stranded :
      (ctx : Context S) (i k : ℕ) (r : RemoteRingInfo) (e : Endpoint S)
      → ctx.dirty_endpoints ≡ i ∷ []
      → get_elem? ctx.endpoints i ≡ some e
      → IsBatched k r e
      → 0 < e.batch_message_count
      → e.sq_room ≡ 0
      → (end : Context S) × (d : Endpoint S) × (flush_dirty 2 ctx ≡ finished end)
        × (end.dirty_endpoints ≡ [])
        × (get_elem? end.endpoints i ≡ some d)
        × (d.is_dirty ≡ false)
        × (has_pending_send d ≡ true)
  unfolding has_pending_send set_dirty set_endpoint set_queue
  flush_dirty-stranded ctx i k r e at there v some_messages full =
      let failing = flush-io k r e v some_messages full in
      let d = set_dirty failing.0 false in
      let next = set_endpoint (set_queue ctx []) i d in
      (
        next,
        d,
        one_turn 1 ctx (turned next)
              (ap (turn_on ctx) at ∙ failed_turn ctx i [] e failing.0 there failing.1)
            ∙ one_turn 0 next empty (nothing_queued next),
        refl,
        get_elem?-set_there ctx.endpoints i d e there,
        refl,
        ground (arith, failing.4),
      )
