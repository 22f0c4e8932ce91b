-- ===== src/Ipc/Server/Polling.antt =====
-- What the server of ipc/src/lib.rs notes when it polls the clients' rings.
use native.Mathlib.Nat.{mod-eq_of_lt, mod-lt, mod_self}
use locasta.Base.{
  ℕ, zero, suc, ◌+◌, ◌-◌, ◌%◌, ◌^◌, ◌≤◌, ◌<◌, ◌≡◌, refl, ap, ◌∙◌, List, arith, ◌==◌, leb, ltb,
  if◌then◌else◌, length, length-set, Bool-cases, inl, inr, ◌≢◌, get_or, get_or-set,
}
use locasta.Ipc.Server.{Server, client_avail, note_avail, end_poll, poll_loop, poll}

-- How many turns of the loop come before a client's.
abbrev pub turns_to : ℕ → ℕ → ℕ → ℕ
turns_to most scan i = if leb scan i then i - scan else i + most - scan

next_scan :
    (scan most : ℕ) → scan < most → (scan + 1) % most ≡ (if scan + 1 == most then 0 else scan + 1)
next_scan scan most h = elim (Bool-cases (scan + 1 == most)) [
  | inl last ↦
      let e : scan + 1 ≡ most = ground arith in ap (λ n. n % most) e ∙ mod_self most ∙ ground arith
  | inr before ↦ mod-eq_of_lt {n = scan + 1} {m = most} (ground arith) ∙ ground arith
]

-- The sum of the values below a bound.
unfoldable pub total : (ℕ → ℕ) → ℕ → ℕ
total f zero = 0
total f (suc n) = total f n + f n

pub total_same : (f g : ℕ → ℕ) (n : ℕ) → ((i : ℕ) → i < n → f i ≡ g i) → total f n ≡ total g n
unfolding total
total_same f g zero h = refl
total_same f g (suc n) h =
    omega (arith, h n (omega arith), total_same f g n (λ i k. h i (omega arith)))

total_none : (f : ℕ → ℕ) (n : ℕ) → ((i : ℕ) → i < n → f i ≡ 0) → total f n ≡ 0
unfolding total
total_none f zero h = refl
total_none f (suc n) h = omega (arith, h n (omega arith), total_none f n (λ i k. h i (omega arith)))

total_but_one :
    (f g : ℕ → ℕ) (n p : ℕ)
    → p < n
    → g p ≡ 0
    → ((i : ℕ) → i < n → i ≢ p → f i ≡ g i)
    → total f n ≡ f p + total g n
unfolding total
total_but_one f g zero p h z same = absurd (omega arith)
total_but_one f g (suc n) p h z same = elim (Bool-cases (n == p)) [
  | inl last ↦
      let e : n ≡ p = ground arith in
      omega (
        arith,
        ap f e,
        ap g e,
        z,
        total_same f g n (λ i k. same i (omega arith) (λ q. omega arith)),
      )
  | inr other ↦ omega (
    arith,
    same n (omega arith) (λ q. ground arith),
    total_but_one f g n p (ground arith) z (λ i k. same i (omega arith)),
  )
]

module _ {Q R : Type 0} where
  client_avail-note :
      (s : Server Q R) (p avail i : ℕ) → client_avail (note_avail s p avail) i ≡ client_avail s i
  unfolding client_avail note_avail
  client_avail-note s p avail i = refl

  -- The values that the loop still has to note.
  abbrev to_note : Server Q R → ℕ → ℕ → ℕ → ℕ
  to_note s scan turns i = if ltb (turns_to s.max_clients scan i) turns then client_avail s i else 0

  -- A client is noted in its turn.
  poll_loop-avail :
      (turns : ℕ) (s : Server Q R) (scan count i : ℕ)
      → scan < s.max_clients
      → i < s.max_clients
      → turns ≤ s.max_clients
      → length s.req_avail ≡ s.max_clients
      → get_or (poll_loop turns s scan count).0.req_avail i 0 ≡ (
          if ltb (turns_to s.max_clients scan i) turns
          then client_avail s i
          else get_or s.req_avail i 0)
  unfolding poll_loop note_avail end_poll
  poll_loop-avail zero s scan count i h k b l = ground arith
  poll_loop-avail (suc turns) s scan count i h k b l =
      let avail = client_avail s scan in
      let scan' = if scan + 1 == s.max_clients then 0 else scan + 1 in
      let rest =
        poll_loop-avail turns (note_avail s scan avail) scan' ((count + avail) % 2 ^ 32) i
          (ground arith) k (omega arith) (length-set s.req_avail scan avail ∙ l) in
      ap
        (λ n.
          get_or
            (poll_loop turns (note_avail s scan avail) n ((count + avail) % 2 ^ 32)).0.req_avail i
            0)
        (next_scan scan s.max_clients h)
      ∙ rest
      ∙ ground (
        arith,
        client_avail-note s scan avail i,
        get_or-set s.req_avail scan i avail 0,
        λ (e : scan ≡ i). ap (client_avail s) e,
      )

  -- The count is that of all the values noted.
  poll_loop-count :
      (turns : ℕ) (s : Server Q R) (scan count : ℕ)
      → scan < s.max_clients
      → turns ≤ s.max_clients
      → (poll_loop turns s scan count).1 % 2 ^ 32
        ≡ (count + total (to_note s scan turns) s.max_clients) % 2 ^ 32
  unfolding poll_loop note_avail
  poll_loop-count zero s scan count h b =
      omega (arith, total_none (to_note s scan 0) s.max_clients (λ i k. ground arith))
  poll_loop-count (suc turns) s scan count h b =
      let avail = client_avail s scan in
      let scan' = if scan + 1 == s.max_clients then 0 else scan + 1 in
      let next = note_avail s scan avail in
      let rest =
        poll_loop-count turns next scan' ((count + avail) % 2 ^ 32) (ground arith) (omega arith) in
      let split =
        total_but_one (to_note s scan (suc turns)) (to_note next scan' turns) s.max_clients scan h
          (ground arith) (λ i k ne. ground (arith, client_avail-note s scan avail i)) in
      let here : to_note s scan (suc turns) scan ≡ avail = ground arith in
      ap (λ n. (poll_loop turns next n ((count + avail) % 2 ^ 32)).1 % 2 ^ 32)
        (next_scan scan s.max_clients h)
      ∙ rest
      ∙ omega (arith, split, here)

  -- What else the loop leaves.
  poll_loop-state :
      (turns : ℕ) (s : Server Q R) (scan count : ℕ)
      → scan < s.max_clients
      → length s.req_avail ≡ s.max_clients
      → (avail : List ℕ) × (scan' : ℕ) × (scan' < s.max_clients)
        × (length avail ≡ s.max_clients)
        × ((poll_loop turns s scan count).0 ≡ end_poll (record s { req_avail = avail }) scan')
  unfolding poll_loop note_avail
  poll_loop-state zero s scan count h l = (s.req_avail, scan, h, l, refl)
  poll_loop-state (suc turns) s scan count h l =
      let avail = client_avail s scan in
      poll_loop-state turns (note_avail s scan avail) ((scan + 1) % s.max_clients)
        ((count + avail) % 2 ^ 32) (mod-lt (scan + 1) {m = s.max_clients} (omega arith))
        (length-set s.req_avail scan avail ∙ l)

  poll_loop-u32 :
      (turns : ℕ) (s : Server Q R) (scan count : ℕ)
      → count < 2 ^ 32
      → (poll_loop turns s scan count).1 < 2 ^ 32
  unfolding poll_loop
  poll_loop-u32 zero s scan count h = h
  poll_loop-u32 (suc turns) s scan count h =
      poll_loop-u32 turns (note_avail s scan (client_avail s scan)) ((scan + 1) % s.max_clients)
        ((count + client_avail s scan) % 2 ^ 32) (omega arith)

  -- The values that `poll` notes and their sum.
  pub poll-avail :
      (s : Server Q R)
      → s.scan_pos < s.max_clients
      → length s.req_avail ≡ s.max_clients
      → ((i : ℕ) → i < s.max_clients → get_or (poll s).0.req_avail i 0 ≡ client_avail s i)
        × ((poll s).1 ≡ total (client_avail s) s.max_clients % 2 ^ 32)
  unfolding poll
  poll-avail s h l = (
    λ i k. poll_loop-avail s.max_clients s s.scan_pos 0 i h k (omega arith) l ∙ ground arith,
    omega (
      arith,
      poll_loop-count s.max_clients s s.scan_pos 0 h (omega arith),
      poll_loop-u32 s.max_clients s s.scan_pos 0 (omega arith),
      total_same (to_note s s.scan_pos s.max_clients) (client_avail s) s.max_clients
          (λ i k. ground arith),
    ),
  )

  -- What `poll` leaves for `recv`.
  pub poll-state :
      (s : Server Q R)
      → s.scan_pos < s.max_clients
      → length s.req_avail ≡ s.max_clients
      → (avail : List ℕ) × (scan : ℕ) × (scan < s.max_clients)
        × (length avail ≡ s.max_clients)
        × ((poll s).0 ≡ end_poll (record s { req_avail = avail }) scan)
  unfolding poll
  poll-state s h l = poll_loop-state s.max_clients s s.scan_pos 0 h l
