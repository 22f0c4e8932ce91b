-- ===== src/Mempc/Onesided/Lanes.antt =====
-- The callers and the server of mempc/src/onesided.rs. A `Lane` joins an `OnesidedCaller` and the
-- server's `CallerState` for it: the two channels between them, and the caller's count of calls
-- without a response. Each method runs undisturbed.
use locasta.Base.{
  ℕ, zero, suc, ◌+◌, ◌-◌, Option, none, some, List, [], ◌∷◌, not, leb, if◌then◌else◌, get_elem?,
  set, length, replicate,
}
use locasta.Mempc.Onesided.{
  Channel, Loaded, nothing, value, uninit, create_spsc, try_send, try_recv, available, publish,
}

pub record Response (A : Type 0) : Type 0 where
  pub token : ℕ
  pub body : A

pub record Lane (Q R : Type 0) : Type 0 where
  pub calls : Channel Q
  pub responses : Channel (Response R)
  pub inflight : ℕ
  pub max_inflight : ℕ

pub data CallError (Q : Type 0) : Type 0 where
  full : Q → CallError Q
  inflight_exceeded : Q → CallError Q
  disconnected : Q → CallError Q

pub data CallResult (Q : Type 0) : Type 0 where
  ok : ℕ → CallResult Q
  err : CallError Q → CallResult Q

pub record ReplyToken : Type 0 where
  pub caller_id : ℕ
  pub slot_token : ℕ

pub record Server (Q R : Type 0) : Type 0 where
  pub lanes : List (Lane Q R)
  pub scan_pos : ℕ

module _ {Q R : Type 0} where
  unfoldable pub sent_call : Lane Q R → Q → Channel Q × Option ℕ → Lane Q R × CallResult Q
  sent_call l req (c, none) = (record l { calls = c }, err (full req))
  sent_call l req (c, some slot_idx) =
      (record l { calls = c; inflight = l.inflight + 1 }, ok slot_idx)

  unfoldable pub call : Lane Q R → Q → Lane Q R × CallResult Q
  call l req =
      if not l.calls.rx_alive
      then (l, err (disconnected req))
      else if leb l.max_inflight l.inflight
      then (l, err (inflight_exceeded req))
      else sent_call l req (try_send l.calls req)

  unfoldable pub sync : Lane Q R → Lane Q R
  sync l = record l { calls = publish l.calls }

  unfoldable pub got_response :
      Lane Q R → Channel (Response R) × Loaded (Response R) → Lane Q R × Option (ℕ × R)
  got_response l (c, value slot_idx r) =
      (record l { responses = c; inflight = l.inflight - 1 }, some (r.token, r.body))
  got_response l (c, nothing) = (record l { responses = c }, none)
  got_response l (c, uninit) = (record l { responses = c }, none)

  unfoldable pub try_recv_response : Lane Q R → Lane Q R × Option (ℕ × R)
  try_recv_response l = got_response l (try_recv l.responses)

  unfoldable pub create_lane : ℕ → ℕ → Lane Q R
  create_lane ring_depth max_inflight = record {
    calls = create_spsc ring_depth;
    responses = create_spsc ring_depth;
    inflight = 0;
    max_inflight = max_inflight;
  }

  -- `OnesidedMpsc::create` for a ring depth that is a power of two; for others it panics.
  pub create : ℕ → ℕ → ℕ → Server Q R
  create max_callers ring_depth max_inflight = record {
    lanes = replicate max_callers (create_lane ring_depth max_inflight);
    scan_pos = 0;
  }

  total_available : List (Lane Q R) → ℕ
  total_available [] = 0
  total_available (l ∷ ls) = available l.calls + total_available ls

  pub poll : Server Q R → ℕ
  poll s = total_available s.lanes

  -- The next lane of the round.
  unfoldable pub advance_scan : Server Q R → Server Q R
  advance_scan s = record s {
    scan_pos = if leb (length s.lanes) (s.scan_pos + 1) then 0 else s.scan_pos + 1;
  }

  unfoldable pub set_calls : Server Q R → ℕ → Lane Q R → Channel Q → Server Q R
  set_calls s i l c = record s { lanes = set s.lanes i (record l { calls = c }) }

  unfoldable pub scanned :
      Server Q R → ℕ → Lane Q R → Channel Q × Loaded Q → Server Q R × Option (ReplyToken × Q)
  scanned s i l (c, value slot_idx req) =
      (set_calls s i l c, some (record { caller_id = i; slot_token = slot_idx }, req))
  scanned s i l (c, nothing) = (set_calls s i l c, none)
  scanned s i l (c, uninit) = (set_calls s i l c, none)

  -- One turn of the loop of `try_recv`.
  unfoldable pub scan_lane : Server Q R → Server Q R × Option (ReplyToken × Q)
  scan_lane s = elim (get_elem? s.lanes s.scan_pos) [
    | none ↦ (advance_scan s, none)
    | some l ↦ scanned (advance_scan s) s.scan_pos l (try_recv l.calls)
  ]

  unfoldable pub scan : ℕ → Server Q R → Server Q R × Option (ReplyToken × Q)
  scan zero s = (s, none)
  scan (suc turns) s =
      let (s1, found) = scan_lane s in
      let later = scan turns s1 in elim found [ none ↦ later | some request ↦ (s1, some request) ]

  -- `OnesidedServer::try_recv`: the token is what `into_token` makes of the handle.
  unfoldable pub server_try_recv : Server Q R → Server Q R × Option (ReplyToken × Q)
  server_try_recv s = scan (length s.lanes) s

  unfoldable pub reply_lane : Lane Q R → ℕ → R → Lane Q R
  reply_lane l token resp = record l {
    responses = (try_send l.responses (record { token = token; body = resp })).0;
  }

  pub reply : Server Q R → ReplyToken → R → Server Q R
  reply s t resp = elim (get_elem? s.lanes t.caller_id) [
    | none ↦ s
    | some l ↦ record s { lanes = set s.lanes t.caller_id (reply_lane l t.slot_token resp) }
  ]
