-- ===== src/Ipc/Server/Receiving.antt =====
-- `recv` of the server of ipc/src/lib.rs misses no request that `poll` noted.
use native.Mathlib.Nat.{mod-eq_of_lt, mod-eq-sub-mod}
use locasta.Base.{
  ℕ, zero, suc, ◌+◌, ◌-◌, ◌%◌, ◌^◌, ◌<◌, ◌≡◌, ◌≢◌, refl, sym, ap, ◌∙◌, true, false, Option, none,
  some, is_some, lt→ltb, Option-cases, Bool-cases, inl, inr, List, ◌∷◌, arith, leb, ltb,
  if◌then◌else◌, length, get_or, get_elem?, set, get_elem?-set_other, min,
}
use locasta.Base.Bits.{mod-ne_of_close}
use locasta.Mempc.Onesided.{Loaded, nothing, value, uninit, count_available}
use locasta.Mempc.Onesided.Contents.{Carries, count_available-min, try_recv-first}
use locasta.Ipc.{Block}
use locasta.Ipc.Server.{
  Server, RequestToken, client_avail, end_poll, poll, take_call, received, recv_at, recv_pos,
  recv_loop, recv,
}
use locasta.Ipc.Server.Polling.{poll-avail, poll-state}

-- A position is reached from another by that many turns.
reached :
    (scan j most : ℕ)
    → scan < most
    → j < most
    → j ≡ (scan + (0 + (if leb scan j then j - scan else j + most - scan))) % most
reached scan j most h k = elim (Bool-cases (leb scan j)) [
  | inl up ↦ sym (ap (λ n. n % most) {y = j} (ground arith) ∙ mod-eq_of_lt k)
  | inr around ↦ sym (
      ap (λ n. n % most) {y = j + most} (ground arith)
      ∙ mod-eq-sub-mod {n = j + most} {m = most} (omega arith)
      ∙ ap (λ n. n % most) {x = j + most - most} {y = j} (omega arith)
      ∙ mod-eq_of_lt k)
]

module _ {Q R : Type 0} where
  -- A request waits in the ring of a client that is there.
  unfoldable pub HasRequest : ℕ → Block Q R → Type 0
  HasRequest k b =
      (b.alive ≡ true)
      × ((tails : ℕ) × (q : Q) × (queue : List Q) × Carries k b.calls tails (q ∷ queue))

  received-none :
      (s : Server Q R) (i : ℕ) (p : Block Q R × Loaded Q)
      → (received s i p).1 ≡ none
      → (received s i p).0 ≡ record s { blocks = set s.blocks i p.0 }
  unfolding received
  received-none s i (b, value slot_idx q) h = cc
  received-none s i (b, nothing) h = refl
  received-none s i (b, uninit) h = refl

  -- The three ways of a turn.
  recv_at-there :
      (s : Server Q R) (i : ℕ) (b : Block Q R)
      → ltb 0 (get_or s.req_avail i 0) ≡ true
      → get_elem? s.blocks i ≡ some b
      → recv_at s i ≡ received s i (take_call b)
  unfolding recv_at
  recv_at-there s i b t at = rw t (
      ap
        (λ o.
          let p : Server Q R × Option (RequestToken × Q) = elim o [
            | none ↦ (s, none)
            | some b ↦ received s i (take_call b)
          ] in
          p)
        at)

  recv_at-gone :
      (s : Server Q R) (i : ℕ)
      → ltb 0 (get_or s.req_avail i 0) ≡ true
      → get_elem? s.blocks i ≡ none
      → recv_at s i ≡ (s, none)
  unfolding recv_at
  recv_at-gone s i t at = rw t (
      ap
        (λ o.
          let p : Server Q R × Option (RequestToken × Q) = elim o [
            | none ↦ (s, none)
            | some b ↦ received s i (take_call b)
          ] in
          p)
        at)

  recv_at-idle :
      (s : Server Q R) (i : ℕ) → ltb 0 (get_or s.req_avail i 0) ≡ false → recv_at s i ≡ (s, none)
  unfolding recv_at
  recv_at-idle s i t = rw t refl

  -- A turn that finds nothing leaves the other clients as they are.
  recv_at-none :
      (s : Server Q R) (i : ℕ)
      → (recv_at s i).1 ≡ none
      → (blocks : List (Block Q R)) × ((recv_at s i).0 ≡ record s { blocks = blocks })
        × ((j : ℕ) → j ≢ i → get_elem? blocks j ≡ get_elem? s.blocks j)
  recv_at-none s i h = elim (Bool-cases (ltb 0 (get_or s.req_avail i 0))) [
    | inr idle ↦ (s.blocks, ap (λ p. p.0) (recv_at-idle s i idle), λ j ne. refl)
    | inl there ↦ elim (Option-cases (get_elem? s.blocks i)) [
      | inl gone ↦ (s.blocks, ap (λ p. p.0) (recv_at-gone s i there gone), λ j ne. refl)
      | inr (b, at) ↦
          let e = recv_at-there s i b there at in
          let b' = (take_call b).0 in
          (
            set s.blocks i b',
            ap (λ p. p.0) e ∙ received-none s i (take_call b) (sym (ap (λ p. p.1) e) ∙ h),
            λ j ne. get_elem?-set_other s.blocks i j b' ne,
          )
    ]
  ]

  recv_at-found :
      (s : Server Q R) (i : ℕ) (b : Block Q R) (q : Q) (n : ℕ)
      → get_elem? s.blocks i ≡ some b
      → 0 < get_or s.req_avail i 0
      → (take_call b).1 ≡ value n q
      → (recv_at s i).1 ≡ some (record { client_id = i; slot_idx = n }, q)
  unfolding received
  recv_at-found s i b q n at avail found =
      ap (λ p. p.1) (recv_at-there s i b (lt→ltb 0 (get_or s.req_avail i 0) avail) at)
      ∙ ap (λ o. (received s i ((take_call b).0, o)).1) found

  recv_loop-none :
      (turns : ℕ) (s : Server Q R)
      → (recv_at s (recv_pos s)).1 ≡ none
      → let s1 = (recv_at s (recv_pos s)).0 in
        recv_loop (suc turns) s
        ≡ recv_loop turns (record s1 { recv_scan_pos = s1.recv_scan_pos + 1 })
  unfolding recv_loop
  recv_loop-none turns s h =
      let s1 = (recv_at s (recv_pos s)).0 in
      ap
        (λ o.
          let p : Server Q R × Option (RequestToken × Q) = elim o [
            | none ↦ recv_loop turns (record s1 { recv_scan_pos = s1.recv_scan_pos + 1 })
            | some request ↦ (s1, some request)
          ] in
          p)
        h

  recv_loop-some :
      (turns : ℕ) (s : Server Q R) (request : RequestToken × Q)
      → (recv_at s (recv_pos s)).1 ≡ some request
      → (recv_loop (suc turns) s).1 ≡ some request
  unfolding recv_loop
  recv_loop-some turns s request h =
      let s1 = (recv_at s (recv_pos s)).0 in
      ap
        (λ o.
          let p : Server Q R × Option (RequestToken × Q) = elim o [
            | none ↦ recv_loop turns (record s1 { recv_scan_pos = s1.recv_scan_pos + 1 })
            | some request ↦ (s1, some request)
          ] in
          p.1)
        h

  -- The client is reached after `d` more turns.
  recv_loop-found :
      (turns : ℕ) (s : Server Q R) (d j : ℕ) (b : Block Q R) (q : Q) (n : ℕ)
      → d < turns
      → d < s.max_clients
      → j ≡ (s.recv_start + (s.recv_scan_pos + d)) % s.max_clients
      → get_elem? s.blocks j ≡ some b
      → 0 < get_or s.req_avail j 0
      → (take_call b).1 ≡ value n q
      → is_some (recv_loop turns s).1 ≡ true
  unfolding recv_pos
  recv_loop-found zero s d j b q n h k e at avail found = absurd (omega arith)
  recv_loop-found (suc turns) s zero j b q n h k e at avail found =
      let here : j ≡ (s.recv_start + s.recv_scan_pos) % s.max_clients =
        e
        ∙ ap (λ t. (s.recv_start + t) % s.max_clients) {x = s.recv_scan_pos + 0}
            {y = s.recv_scan_pos} (omega arith) in
      ap is_some (
        recv_loop-some turns s (record { client_id = j; slot_idx = n }, q)
          (ap (λ i. (recv_at s i).1) (sym here) ∙ recv_at-found s j b q n at avail found))
  recv_loop-found (suc turns) s (suc d) j b q n h k e at avail found =
      elim (Option-cases (recv_at s (recv_pos s)).1) [
        | inr (request, there) ↦ ap is_some (recv_loop-some turns s request there)
        | inl missed ↦
            let (blocks, left, others) = recv_at-none s (recv_pos s) missed in
            let next = record s { blocks = blocks; recv_scan_pos = s.recv_scan_pos + 1 } in
            let other : j ≢ recv_pos s = λ q.
              mod-ne_of_close (s.recv_start + s.recv_scan_pos)
                (s.recv_start + (s.recv_scan_pos + suc d)) s.max_clients (omega arith) (omega arith)
                (sym q ∙ e) in
            ap (λ p. is_some p.1) (recv_loop-none turns s missed)
            ∙ ap
                (λ t.
                  is_some (recv_loop turns (record t { recv_scan_pos = t.recv_scan_pos + 1 })).1)
                left
            ∙ recv_loop-found turns next d j b q n (omega arith) (omega arith)
                (e
                  ∙ ap (λ t. (s.recv_start + t) % s.max_clients) {x = s.recv_scan_pos + suc d}
                      {y = s.recv_scan_pos + 1 + d} (omega arith))
                (others j other ∙ at) avail found
      ]

  client_avail-there :
      (s : Server Q R) (j : ℕ) (b : Block Q R)
      → get_elem? s.blocks j ≡ some b
      → b.alive ≡ true
      → client_avail s j ≡ count_available b.calls s.ring_depth
  unfolding client_avail
  client_avail-there s j b at alive =
      ap
        (λ (o : Option (Block Q R)).
          let n : ℕ = elim o [
            | none ↦ 0
            | some b ↦ if b.alive then count_available b.calls s.ring_depth else 0
          ] in
          n)
        at
      ∙ ap (λ c. if c then count_available b.calls s.ring_depth else 0) alive

  module _ (k : ℕ) where
    take_call-first :
        (b : Block Q R) (tails : ℕ) (q : Q) (queue : List Q)
        → Carries k b.calls tails (q ∷ queue)
        → (take_call b).1 ≡ value (tails % 2 ^ k) q
    unfolding take_call
    take_call-first b tails q queue ring = (try_recv-first k b.calls tails q queue ring).0

  -- For a server whose scan position is that of a client: where a request waits in the ring of a
  -- client that is there, whatever the rings of the other clients have, `recv` after `poll` returns
  -- a request.
  pub recv-poll :
      (k : ℕ) (s : Server Q R) (j : ℕ) (b : Block Q R)
      → s.scan_pos < s.max_clients
      → length s.req_avail ≡ s.max_clients
      → 0 < s.ring_depth
      → j < s.max_clients
      → get_elem? s.blocks j ≡ some b
      → HasRequest k b
      → is_some (recv (poll s).0).1 ≡ true
  unfolding HasRequest recv end_poll
  recv-poll k s j b h l depth in_range at (alive, (tails, q, queue, ring)) =
      let (avail, scan, in_scan, len, e) = poll-state s h l in
      let t = end_poll (record s { req_avail = avail }) scan in
      let d = if leb scan j then j - scan else j + s.max_clients - scan in
      let counted : client_avail s j ≡ min s.ring_depth (suc (length queue)) =
        client_avail-there s j b at alive
        ∙ count_available-min k b.calls tails (q ∷ queue) ring s.ring_depth in
      let noted : get_or t.req_avail j 0 ≡ client_avail s j =
        ap (λ (t : Server Q R). get_or t.req_avail j 0) (sym e) ∙ (poll-avail s h l).0 j in_range in
      ap (λ t. is_some (recv t).1) e
      ∙ ap (λ turns. is_some (recv_loop turns t).1) {x = s.max_clients - 0} {y = s.max_clients}
          (omega arith)
      ∙ recv_loop-found s.max_clients t d j b q (tails % 2 ^ k) (ground arith) (ground arith)
          (reached scan j s.max_clients in_scan in_range) at (omega (arith, noted, counted))
          (take_call-first k b tails q queue ring)
