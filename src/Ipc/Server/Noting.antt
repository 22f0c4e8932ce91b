-- ===== src/Ipc/Server/Noting.antt =====
-- The numbers of waiting requests that the server of ipc/src/lib.rs notes.
use locasta.Base.{
  ℕ, zero, suc, ◌+◌, ◌%◌, ◌^◌, ◌<◌, ◌≡◌, refl, sym, ap, ◌∙◌, Bool, false, none, some, List, [], ◌∷◌,
  arith, if◌then◌else◌, length, get_elem?, get_or,
}
use locasta.Mempc.Onesided.{count_available}
use locasta.Mempc.Onesided.Contents.{Carries, count_available-min, length-le}
use locasta.Ipc.{Block}
use locasta.Ipc.Server.{
  Server, client_avail, note_avail, end_poll, poll_loop, poll, skip_loop, poll_with_skip,
}
use locasta.Ipc.Server.Polling.{total, total_same, poll-avail}

module _ {Q R : Type 0} where
  client_avail-at :
      (s : Server Q R) (i : ℕ) (b : Block Q R)
      → get_elem? s.blocks i ≡ some b
      → client_avail s i ≡ (if b.alive then count_available b.calls s.ring_depth else 0)
  unfolding client_avail
  client_avail-at s i b at =
      ap
        (λ o.
          let n : ℕ = elim o [
            | none ↦ 0
            | some b ↦ if b.alive then count_available b.calls s.ring_depth else 0
          ] in
          n)
        at

  -- For a server whose scan position is that of a client, wherever that is, and that has a note for
  -- each client: where some requests wait in a client's ring of 2 ^ k slots, `poll` notes their
  -- number for the client, or nothing if the client is gone; and it returns the sum of what it noted
  -- for the clients, modulo 2 ^ 32.
  pub poll_lem :
      (k : ℕ) (s : Server Q R) (i : ℕ) (b : Block Q R) (tails : ℕ) (queue : List Q)
      → s.scan_pos < s.max_clients
      → length s.req_avail ≡ s.max_clients
      → s.ring_depth ≡ 2 ^ k
      → i < s.max_clients
      → get_elem? s.blocks i ≡ some b
      → Carries k b.calls tails queue
      → (get_or (poll s).0.req_avail i 0 ≡ (if b.alive then length queue else 0))
        × ((poll s).1 ≡ total (λ j. get_or (poll s).0.req_avail j 0) s.max_clients % 2 ^ 32)
  poll_lem k s i b tails queue h l depth in_range at ring =
      let (noted, sum) = poll-avail s h l in
      let waiting : count_available b.calls s.ring_depth ≡ length queue =
        count_available-min k b.calls tails queue ring s.ring_depth
        ∙ ground (arith, depth, length-le k b.calls tails queue ring) in
      (
        noted i in_range ∙ client_avail-at s i b at ∙ ap (λ n. if b.alive then n else 0) waiting,
        sum
            ∙ ap (λ n. n % 2 ^ 32)
                (total_same (client_avail s) (λ j. get_or (poll s).0.req_avail j 0) s.max_clients
                  (λ j k. sym (noted j k))),
      )

  -- The blocks with the marked clients gone.
  abbrev pub hide : List (Block Q R) → List Bool → List (Block Q R)
  hide [] skip = []
  hide (b ∷ blocks) [] = b ∷ blocks
  hide (b ∷ blocks) (marked ∷ skip) =
      (if marked then record b { alive = false } else b) ∷ hide blocks skip

  abbrev pub hidden : Server Q R → List Bool → Server Q R
  hidden s skip = record s { blocks = hide s.blocks skip }

  abbrev avail_in : List (Block Q R) → ℕ → ℕ → ℕ
  avail_in blocks depth i = elim (get_elem? blocks i) [
    | none ↦ 0
    | some b ↦ if b.alive then count_available b.calls depth else 0
  ]

  avail_in-hide :
      (blocks : List (Block Q R)) (skip : List Bool) (depth i : ℕ)
      → avail_in (hide blocks skip) depth i
        ≡ (if get_or skip i false then 0 else avail_in blocks depth i)
  avail_in-hide [] skip depth i = ground arith
  avail_in-hide (b ∷ blocks) [] depth i = ground arith
  avail_in-hide (b ∷ blocks) (marked ∷ skip) depth zero = ground arith
  avail_in-hide (b ∷ blocks) (marked ∷ skip) depth (suc i) = avail_in-hide blocks skip depth i

  client_avail-hidden :
      (s : Server Q R) (skip : List Bool) (i : ℕ)
      → client_avail (hidden s skip) i ≡ (if get_or skip i false then 0 else client_avail s i)
  unfolding client_avail
  client_avail-hidden s skip i = avail_in-hide s.blocks skip s.ring_depth i

  abbrev with_blocks : List (Block Q R) → Server Q R × ℕ → Server Q R × ℕ
  with_blocks blocks (s, n) = (record s { blocks = blocks }, n)

  skip_loop-eq :
      (turns : ℕ) (skip : List Bool) (s : Server Q R) (scan count : ℕ)
      → skip_loop turns skip s scan count
        ≡ with_blocks s.blocks (poll_loop turns (hidden s skip) scan count)
  unfolding skip_loop poll_loop note_avail end_poll
  skip_loop-eq zero skip s scan count = refl
  skip_loop-eq (suc turns) skip s scan count =
      let avail = if get_or skip scan false then 0 else client_avail s scan in
      skip_loop-eq turns skip (note_avail s scan avail) ((scan + 1) % s.max_clients)
        ((count + avail) % 2 ^ 32)
      ∙ ap
          (λ n. with_blocks s.blocks (
            poll_loop turns (note_avail (hidden s skip) scan n) ((scan + 1) % s.max_clients)
              ((count + n) % 2 ^ 32)))
          (sym (client_avail-hidden s skip scan))

  -- Whatever clients are marked, and whatever the length of the marks, `poll_with_skip` leaves and
  -- returns what `poll` does if the marked clients were gone, and changes no client's block.
  pub poll_with_skip-eq-poll :
      (s : Server Q R) (skip : List Bool)
      → let (t, count) = poll (hidden s skip) in
        poll_with_skip s skip ≡ (record t { blocks = s.blocks }, count)
  unfolding poll_with_skip poll
  poll_with_skip-eq-poll s skip = skip_loop-eq s.max_clients skip s s.scan_pos 0
