-- ===== src/Mempc/Onesided/Scanning.antt =====
-- mempc/src/onesided.rs: what `try_recv` of the server finds.
use Prim.Native.Nat.{bit_and}
use mathlib.Core.Option.{some-injective}
use locasta.Base.{
  ℕ, zero, suc, ◌+◌, ◌-◌, ◌<◌, ◌≡◌, refl, ap, ◌∙◌, arith, Option, none, some, ◌≤◌, sym, true,
  length, get_elem?, get_or, set, length-set, get_elem?-set_other, get_elem?_in, ltb, leb,
  if◌then◌else◌, Option-cases, inl, inr,
}
use locasta.Mempc.Onesided.{
  Channel, Loaded, nothing, value, uninit, is_ready, try_recv, load_generation,
}
use locasta.Mempc.Onesided.Fifo.{load_value}
use locasta.Mempc.Onesided.Lanes.{
  Lane, Server, ReplyToken, advance_scan, set_calls, scanned, scan_lane, scan, server_try_recv,
}

module _ {Q R : Type 0} where
  -- A request of the caller waits in its ring.
  unfoldable pub HasRequest : Lane Q R → Type 0
  HasRequest l =
      (is_ready l.calls l.calls.tail ≡ true)
      × ((x : Q) × (get_or l.calls.cells (bit_and l.calls.tail l.calls.mask) none ≡ some x))

  scanned-set :
      (s : Server Q R) (i : ℕ) (l : Lane Q R) (c : Channel Q) (o : Loaded Q)
      → (scanned s i l (c, o)).0 ≡ set_calls s i l c
  unfolding scanned
  scanned-set s i l c nothing = refl
  scanned-set s i l c (value n x) = refl
  scanned-set s i l c uninit = refl

  scan_lane-at :
      (s : Server Q R) (l : Lane Q R)
      → get_elem? s.lanes s.scan_pos ≡ some l
      → scan_lane s ≡ scanned (advance_scan s) s.scan_pos l (try_recv l.calls)
  unfolding scan_lane
  scan_lane-at s l at =
      ap
        (λ o. elim o [
          | none ↦ (advance_scan s, none)
          | some l ↦ scanned (advance_scan s) s.scan_pos l (try_recv l.calls)
        ])
        at

  -- A turn leaves the other lanes alone and goes on to the next place.
  scan_lane-next :
      (s : Server Q R)
      → s.scan_pos < length s.lanes
      → (v : Lane Q R) × ((scan_lane s).0
          ≡ record (advance_scan s) { lanes = set s.lanes s.scan_pos v })
  unfolding set_calls advance_scan
  scan_lane-next s h =
      let (l, at) = get_elem?_in s.lanes s.scan_pos h in
      let (c, o) = try_recv l.calls in
      (
        record l { calls = c },
        ap (λ p. p.0) (scan_lane-at s l at) ∙ scanned-set (advance_scan s) s.scan_pos l c o,
      )

  -- What a turn returns is the request of its lane, under the lane's place.
  scanned-some :
      (s : Server Q R) (i : ℕ) (l : Lane Q R) (c : Channel Q) (o : Loaded Q) (q : ReplyToken × Q)
      → (scanned s i l (c, o)).1 ≡ some q
      → (n : ℕ) × (x : Q) × (o ≡ value n x) × (q ≡ (record { caller_id = i; slot_token = n }, x))
  unfolding scanned
  scanned-some s i l c nothing q e = absurd (cc)
  scanned-some s i l c uninit q e = absurd (cc)
  scanned-some s i l c (value n x) q e =
      (n, x, refl, sym (some-injective (record { caller_id = i; slot_token = n }, x) q e))

  missed-nothing :
      (s : Server Q R) (i : ℕ) (l : Lane Q R) (c : Channel Q) (o : Loaded Q) (n : ℕ) (x : Q)
      → o ≡ value n x
      → (scanned s i l (c, o)).1 ≡ none
      → ⊥
  unfolding scanned
  missed-nothing s i l c o n x e missed = let there = ap (λ o. (scanned s i l (c, o)).1) e in cc

  received : (l : Lane Q R) → HasRequest l → (n : ℕ) × (x : Q) × ((try_recv l.calls).1 ≡ value n x)
  unfolding HasRequest try_recv load_generation
  received l (ready, (x, cell)) = (
    bit_and l.calls.tail l.calls.mask,
    x,
    load_value (load_generation l.calls) x (bit_and l.calls.tail l.calls.mask) ready refl cell,
  )

  found_here :
      (s : Server Q R) (l : Lane Q R)
      → get_elem? s.lanes s.scan_pos ≡ some l
      → HasRequest l
      → (scan_lane s).1 ≡ none
      → ⊥
  found_here s l at waiting missed =
      let (n, x, e) = received l waiting in
      let (c, o) = try_recv l.calls in
      missed-nothing (advance_scan s) s.scan_pos l c o n x e
        (sym (ap (λ p. p.1) (scan_lane-at s l at)) ∙ missed)

  scan-none :
      (turns : ℕ) (s : Server Q R)
      → (scan_lane s).1 ≡ none
      → (scan (suc turns) s).1 ≡ (scan turns (scan_lane s).0).1
  unfolding scan
  scan-none turns s h =
      ap
        (λ o.
          let p : Server Q R × Option (ReplyToken × Q) = elim o [
            | none ↦ scan turns (scan_lane s).0
            | some request ↦ ((scan_lane s).0, some request)
          ] in
          p.1)
        h

  scan-some :
      (turns : ℕ) (s : Server Q R) (q : ReplyToken × Q)
      → (scan_lane s).1 ≡ some q
      → (scan (suc turns) s).1 ≡ some q
  unfolding scan
  scan-some turns s q h =
      ap
        (λ o.
          let p : Server Q R × Option (ReplyToken × Q) = elim o [
            | none ↦ scan turns (scan_lane s).0
            | some request ↦ ((scan_lane s).0, some request)
          ] in
          p.1)
        h

  -- The place that is reached after some turns.
  abbrev place : Server Q R → ℕ → ℕ
  place s d =
      if ltb (s.scan_pos + d) (length s.lanes)
      then s.scan_pos + d
      else s.scan_pos + d - length s.lanes

  -- The request is one of the lane that is reached after at most so many turns.
  abbrev Finds : Server Q R → ℕ → Option (ReplyToken × Q) → Type 0
  Finds s d o =
      (c : ℕ) × (l : Lane Q R) × (n : ℕ) × (x : Q) × (c ≤ d)
      × (get_elem? s.lanes (place s c) ≡ some l)
      × ((try_recv l.calls).1 ≡ value n x)
      × (o ≡ some (record { caller_id = place s c; slot_token = n }, x))

  found_first :
      (turns : ℕ) (s : Server Q R) (d : ℕ) (q : ReplyToken × Q)
      → s.scan_pos < length s.lanes
      → (scan_lane s).1 ≡ some q
      → Finds s d (scan (suc turns) s).1
  found_first turns s d q h there =
      let (l, at) = get_elem?_in s.lanes s.scan_pos h in
      let first : s.scan_pos ≡ place s 0 = ground arith in
      let (c, o) = try_recv l.calls in
      let (n, x, e, is) =
        scanned-some (advance_scan s) s.scan_pos l c o q
          (sym (ap (λ p. p.1) (scan_lane-at s l at)) ∙ there) in
      (
        0,
        l,
        n,
        x,
        omega arith,
        ap (get_elem? s.lanes) (sym first) ∙ at,
        e,
        scan-some turns s q there
            ∙ ap some is
            ∙ ap (λ i. some (record { caller_id = i; slot_token = n }, x)) first,
      )

  scan-found :
      (turns : ℕ) (s : Server Q R) (d : ℕ) (l : Lane Q R)
      → s.scan_pos < length s.lanes
      → d < turns
      → d < length s.lanes
      → get_elem? s.lanes (place s d) ≡ some l
      → HasRequest l
      → Finds s d (scan turns s).1
  unfolding advance_scan
  scan-found zero s d l h k b at waiting = absurd (omega arith)
  scan-found (suc turns) s zero l h k b at waiting = elim (Option-cases (scan_lane s).1) [
    | inr (q, there) ↦ found_first turns s 0 q h there
    | inl missed ↦
        let first : s.scan_pos ≡ place s 0 = ground arith in
        absurd (found_here s l (ap (get_elem? s.lanes) first ∙ at) waiting missed)
  ]
  scan-found (suc turns) s (suc d) l h k b at waiting = elim (Option-cases (scan_lane s).1) [
    | inr (q, there) ↦ found_first turns s (suc d) q h there
    | inl missed ↦
        let (v, e) = scan_lane-next s h in
        let lanes = set s.lanes s.scan_pos v in
        let next = record (advance_scan s) { lanes = lanes } in
        let same = length-set s.lanes s.scan_pos v in
        let (c, m, n, x, early, there, taken, is) =
          scan-found turns next d l (ground (arith, same)) (omega arith) (omega (arith, same))
            (ap (get_elem? lanes) {x = place next d} {y = place s (suc d)} (ground (arith, same))
              ∙ get_elem?-set_other s.lanes s.scan_pos (place s (suc d)) v (λ q. ground arith)
              ∙ at)
            waiting in
        let later : place next c ≡ place s (suc c) = ground (arith, same) in
        (
          suc c,
          m,
          n,
          x,
          omega arith,
          sym (get_elem?-set_other s.lanes s.scan_pos (place s (suc c)) v (λ q. ground arith))
              ∙ ap (get_elem? lanes) (sym later)
              ∙ there,
          taken,
          scan-none turns s missed
              ∙ ap (λ t. (scan turns t).1) e
              ∙ is
              ∙ ap (λ i. some (record { caller_id = i; slot_token = n }, x)) later,
        )
  ]

  -- How many turns of the scan come before a lane's.
  abbrev pub distance : Server Q R → ℕ → ℕ
  distance s j = if leb s.scan_pos j then j - s.scan_pos else j + length s.lanes - s.scan_pos

  -- Where a request waits in the lane at some place, `try_recv` of a server whose scan position is
  -- in bounds returns a request: with the id and the slot that the lane it was read from gives it,
  -- and of the lane at that place or of one that the scan reaches before it.
  pub server_try_recv_lem :
      (s : Server Q R) (j : ℕ) (l : Lane Q R)
      → s.scan_pos < length s.lanes
      → j < length s.lanes
      → get_elem? s.lanes j ≡ some l
      → HasRequest l
      → (t : ReplyToken) × (x : Q) × (m : Lane Q R) × ((server_try_recv s).1 ≡ some (t, x))
        × (get_elem? s.lanes t.caller_id ≡ some m)
        × ((try_recv m.calls).1 ≡ value t.slot_token x)
        × (distance s t.caller_id ≤ distance s j)
  unfolding server_try_recv
  server_try_recv_lem s j l h k at waiting =
      let d = distance s j in
      let (c, m, n, x, early, there, taken, is) =
        scan-found (length s.lanes) s d l h (ground arith) (ground arith)
          (ap (get_elem? s.lanes) {x = place s d} {y = j} (ground arith) ∙ at) waiting in
      (record { caller_id = place s c; slot_token = n }, x, m, is, there, taken, ground arith)
