-- ===== src/Mempc/UserData/Tokens.antt =====
-- mempc/src/user_data.rs: which user data goes with which response.
use locasta.Base.{
  ℕ, zero, suc, ◌%◌, ◌<◌, ◌≡◌, ◌≢◌, refl, sym, ap, ◌∙◌, arith, Bool-cases, inl, inr, if◌then◌else◌,
  Option, none, some, List, [], ◌∷◌, ◌++◌, length, get_or, set, get_or-set, length-set,
}
use native.Mathlib.Nat.{mod-lt}
use mathlib.Core.Path.{subst}
use mathlib.Core.List.{append_assoc, append-nil}
use locasta.Mempc.Onesided.Lanes.{CallResult, ok, err}
use locasta.Mempc.UserData.{
  WithUserData, slot_of, store, take_data, set_caller, called, call, called_back, respond, drain,
  poll,
}

-- What happens: a call, a turn of the loop in `poll`, or a move of the inner caller, such as `sync`
-- or what the server does.
pub data Op (C Q U : Type 0) : Type 0 where
  calls : Q → U → Op C Q U
  turns : Op C Q U
  moves : (C → C) → Op C Q U

-- A call that was taken, or a response, has another slot of a table of that size.
abbrev CallIsElsewhere : {C Q : Type 0} → ℕ → ℕ → C × CallResult Q → Type 0
CallIsElsewhere size slot (c, ok token) = (token % size) ≢ slot
CallIsElsewhere size slot (c, err e) = Unit

abbrev ResponseIsElsewhere : {C R : Type 0} → ℕ → ℕ → C × Option (ℕ × R) → Type 0
ResponseIsElsewhere size slot (c, none) = Unit
ResponseIsElsewhere size slot (c, some (token, resp)) = (token % size) ≢ slot

module _ {C Q R U : Type 0} (inner_call : C → Q → C × CallResult Q) (sync : C → C)
    (try_recv_response : C → C × Option (ℕ × R)) where
  unfoldable pub step : WithUserData C U → Op C Q U → WithUserData C U
  step w (calls q u) = (call inner_call w q u).0
  step w turns = (respond sync try_recv_response w [] (try_recv_response w.caller)).1
  step w (moves f) = set_caller w (f w.caller)

  unfoldable pub run : WithUserData C U → List (Op C Q U) → WithUserData C U
  run w [] = w
  run w (op ∷ ops) = run (step w op) ops

  abbrev IsElsewhere : ℕ → ℕ → WithUserData C U → Op C Q U → Type 0
  IsElsewhere size slot w (calls q u) = CallIsElsewhere size slot (inner_call w.caller q)
  IsElsewhere size slot w turns = ResponseIsElsewhere size slot (try_recv_response w.caller)
  IsElsewhere size slot w (moves f) = Unit

  unfoldable pub AreElsewhere : ℕ → ℕ → WithUserData C U → List (Op C Q U) → Type 0
  AreElsewhere size slot w [] = Unit
  AreElsewhere size slot w (op ∷ ops) =
      IsElsewhere size slot w op × AreElsewhere size slot (step w op) ops

  -- The slot holds these data, in a table of that size.
  pub record Holds (size slot : ℕ) (w : WithUserData C U) (u : Option U) : Type 0 where
    pub whole : length w.user_data ≡ size
    pub entry : get_or w.user_data slot none ≡ u

  module _ (size slot : ℕ) (some_slots : 0 < size) where
    set-Holds :
        (w : WithUserData C U) (c : C) (token : ℕ) (u v : Option U)
        → Holds size slot w u
        → (token % size) ≢ slot
        → Holds size slot
            (record w { caller = c; user_data = set w.user_data (token % length w.user_data) v })
            u
    set-Holds w c token u v h other = record {
      whole = length-set w.user_data (token % length w.user_data) v ∙ h.whole;
      entry = ground (
        arith,
        h.entry,
        ap (λ n. token % n) h.whole,
        get_or-set w.user_data (token % length w.user_data) slot v none,
        mod-lt token {m = size} some_slots,
        h.whole,
      );
    }

    moved :
        (w : WithUserData C U) (c : C) (u : Option U)
        → Holds size slot w u
        → Holds size slot (set_caller w c) u
    unfolding set_caller
    moved w c u h = record { whole = h.whole; entry = h.entry }

    called-Holds :
        (w : WithUserData C U) (u' : U) (u : Option U) (r : C × CallResult Q)
        → Holds size slot w u
        → CallIsElsewhere size slot r
        → Holds size slot (called inner_call w u' r).0 u
    unfolding called store slot_of set_caller
    called-Holds w u' u (c, ok token) h other = set-Holds w c token u (some u') h other
    called-Holds w u' u (c, err e) h other = moved w c u h

    back-Holds :
        (out : List (U × R)) (resp : R) (r : WithUserData C U × Option U) (u : Option U)
        → Holds size slot r.0 u
        → Holds size slot (called_back sync try_recv_response out resp r).0 u
    unfolding called_back
    back-Holds out resp (w, none) u h = h
    back-Holds out resp (w, some v) u h = h

    respond-Holds :
        (w : WithUserData C U) (u : Option U) (r : C × Option (ℕ × R))
        → Holds size slot w u
        → ResponseIsElsewhere size slot r
        → Holds size slot (respond sync try_recv_response w [] r).1 u
    unfolding respond take_data slot_of set_caller
    respond-Holds w u (c, none) h other = moved w c u h
    respond-Holds w u (c, some (token, resp)) h other =
        back-Holds [] resp (take_data (set_caller w c) token) u (set-Holds w c token u none h other)

    step-Holds :
        (w : WithUserData C U) (op : Op C Q U) (u : Option U)
        → Holds size slot w u
        → IsElsewhere size slot w op
        → Holds size slot (step w op) u
    unfolding step call
    step-Holds w (calls q u') u h other = called-Holds w u' u (inner_call w.caller q) h other
    step-Holds w turns u h other = respond-Holds w u (try_recv_response w.caller) h other
    step-Holds w (moves f) u h other = moved w (f w.caller) u h

    run-Holds :
        (w : WithUserData C U) (ops : List (Op C Q U)) (u : Option U)
        → Holds size slot w u
        → AreElsewhere size slot w ops
        → Holds size slot (run w ops) u
    unfolding run AreElsewhere
    run-Holds w [] u h other = h
    run-Holds w (op ∷ ops) u h (here, later) =
        run-Holds (step w op) ops u (step-Holds w op u h here) later

    -- A call that is taken has its data in its slot.
    call-Holds :
        (w : WithUserData C U) (q : Q) (u : U) (c : C) (token : ℕ)
        → length w.user_data ≡ size
        → token % size ≡ slot
        → inner_call w.caller q ≡ (c, ok token)
        → Holds size slot (call inner_call w q u).0 (some u)
    unfolding call called store slot_of set_caller
    call-Holds w q u c token whole own taken =
        let w' = store (set_caller w c) token u in
        let stored : Holds size slot w' (some u) = record {
          whole = length-set w.user_data (token % length w.user_data) (some u) ∙ whole;
          entry = ground (
            arith,
            own,
            ap (λ n. token % n) whole,
            get_or-set w.user_data (token % length w.user_data) slot (some u) none,
            mod-lt token {m = size} some_slots,
            whole,
          );
        } in
        subst (λ r. Holds size slot (called inner_call w u r).0 (some u)) (sym taken) stored

  -- What the loop adds to the calls of the callback stands behind what was there.
  back-out :
      (out : List (U × R)) (resp : R) (r : WithUserData C U × Option U)
      → (more : List (U × R)) × ((called_back sync try_recv_response out resp r).1 ≡ out ++ more)
  unfolding called_back
  back-out out resp (w, none) = ([], sym (append-nil out))
  back-out out resp (w, some u) = ((u, resp) ∷ [], refl)

  respond-out :
      (w : WithUserData C U) (out : List (U × R)) (r : C × Option (ℕ × R))
      → (more : List (U × R)) × ((respond sync try_recv_response w out r).2 ≡ out ++ more)
  unfolding respond
  respond-out w out (c, none) = ([], sym (append-nil out))
  respond-out w out (c, some (token, resp)) = back-out out resp (take_data (set_caller w c) token)

  drain-out :
      (fuel : ℕ) (w : WithUserData C U) (out : List (U × R))
      → (more : List (U × R)) × ((drain sync try_recv_response fuel w out).1 ≡ out ++ more)
  unfolding drain
  drain-out zero w out = ([], sym (append-nil out))
  drain-out (suc fuel) w out =
      let (next, e) = respond-out w out (try_recv_response w.caller) in
      let (go, w1, out1) = respond sync try_recv_response w out (try_recv_response w.caller) in
      let (later, l) = drain-out fuel w1 out1 in
      elim (Bool-cases go) [
        | inl b ↦ (
          next ++ later,
          ap (λ b. (if b then drain sync try_recv_response fuel w1 out1 else (w1, out1)).1) b
              ∙ l
              ∙ ap (λ o. o ++ later) e
              ∙ append_assoc out next later,
        )
        | inr b ↦ (
          next,
          ap (λ b. (if b then drain sync try_recv_response fuel w1 out1 else (w1, out1)).1) b ∙ e,
        )
      ]

  -- A response under a token of the slot.
  drain-Holds :
      (size : ℕ) (w : WithUserData C U) (token : ℕ) (u : U) (c : C) (resp : R) (fuel : ℕ)
      → Holds size (token % size) w (some u)
      → try_recv_response w.caller ≡ (c, some (token, resp))
      → (more : List (U × R)) × ((drain sync try_recv_response (suc fuel) w []).1
          ≡ (u, resp) ∷ more)
  unfolding drain respond called_back take_data slot_of set_caller
  drain-Holds size w token u c resp fuel h got =
      let table = set w.user_data (token % length w.user_data) none in
      let w1 : WithUserData C U = record { caller = c; user_data = table } in
      let turn = λ (r : C × Option (ℕ × R)).
        let (go, w1, out1) = respond sync try_recv_response w [] r in
        (if go then drain sync try_recv_response fuel w1 out1 else (w1, out1)).1 in
      let (more, l) = drain-out fuel w1 ((u, resp) ∷ []) in
      let own : get_or w.user_data (token % length w.user_data) none ≡ some u =
        ap (λ n. get_or w.user_data (token % n) none) h.whole ∙ h.entry in
      (
        more,
        ap turn got
            ∙ ap
                (λ o.
                  let (w1, out1) = called_back sync try_recv_response [] resp (w1, o) in
                  (drain sync try_recv_response fuel w1 out1).1)
                own
            ∙ l,
      )

  -- A call that the inner caller takes under a token, then any calls, turns of `poll` and moves of
  -- the inner caller whose tokens have other slots of the table, then a `poll` in which the first
  -- response has a token of the call's slot: the callback is first given that response with the
  -- call's user data. So the response to a call gets the call's data, and if a second call took its
  -- slot before it, it gets the second call's data instead.
  pub poll-call :
      (w : WithUserData C U) (q : Q) (u : U) (c : C) (token : ℕ) (ops : List (Op C Q U))
      (token' : ℕ) (c' : C) (resp : R) (fuel : ℕ)
      → 0 < length w.user_data
      → inner_call w.caller q ≡ (c, ok token)
      → AreElsewhere (length w.user_data) (slot_of w token) (call inner_call w q u).0 ops
      → slot_of w token' ≡ slot_of w token
      → try_recv_response (sync (run (call inner_call w q u).0 ops).caller)
        ≡ (c', some (token', resp))
      → let w' = run (call inner_call w q u).0 ops in
        (more : List (U × R)) × ((poll sync try_recv_response (suc fuel) w').1 ≡ (u, resp) ∷ more)
  unfolding poll slot_of set_caller
  poll-call w q u c token ops token' c' resp fuel h taken other same got =
      let size = length w.user_data in
      let w1 = (call inner_call w q u).0 in
      let w2 = run w1 ops in
      let held =
        run-Holds size (token % size) h w1 ops (some u)
          (call-Holds size (token % size) h w q u c token refl refl taken) other in
      drain-Holds size (record w2 { caller = sync w2.caller }) token' u c' resp fuel
        (subst (λ n. Holds size n (record w2 { caller = sync w2.caller }) (some u)) (sym same)
          (moved size (token % size) h w2 (sync w2.caller) (some u) held))
        got
