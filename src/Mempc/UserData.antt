-- ===== src/Mempc/UserData.antt =====
-- mempc/src/user_data.rs: `CallerWithUserData`. The caller that it wraps is a parameter, by the
-- results of its `call`, `sync` and `try_recv_response`. What the callback is given is kept in
-- order. The capacity is not 0, since the source divides by it.
pub mod Tokens
mod Tests
use locasta.Base.{
  ℕ, zero, suc, ◌+◌, ◌%◌, Bool, true, false, if◌then◌else◌, Option, none, some, List, [], ◌∷◌, ◌++◌,
  length, get_or, set, replicate,
}
use locasta.Mempc.Onesided.Lanes.{CallError, CallResult, ok, err}

pub record WithUserData (C U : Type 0) : Type 0 where
  pub caller : C
  pub user_data : List (Option U)

module _ {C U : Type 0} where
  pub new : C → ℕ → WithUserData C U
  new caller capacity = record { caller = caller; user_data = replicate capacity none }

  pub slot_of : WithUserData C U → ℕ → ℕ
  slot_of w token = token % length w.user_data

  -- The user data of a call that was taken under this token.
  pub store : WithUserData C U → ℕ → U → WithUserData C U
  store w token u = record w { user_data = set w.user_data (slot_of w token) (some u) }

  -- `Option::take` on the slot of a token
  pub take_data : WithUserData C U → ℕ → WithUserData C U × Option U
  take_data w token = (
    record w { user_data = set w.user_data (slot_of w token) none },
    get_or w.user_data (slot_of w token) none,
  )

  pub set_caller : WithUserData C U → C → WithUserData C U
  set_caller w c = record w { caller = c }

  module _ {Q : Type 0} (inner_call : C → Q → C × CallResult Q) where
    pub called : WithUserData C U → U → C × CallResult Q → WithUserData C U × Option (CallError Q)
    called w u (c, ok token) = (store (set_caller w c) token u, none)
    called w u (c, err e) = (set_caller w c, some e)

    -- The error, if there is one
    pub call : WithUserData C U → Q → U → WithUserData C U × Option (CallError Q)
    call w req u = called w u (inner_call w.caller req)

  module _ {R : Type 0} (sync : C → C) (try_recv_response : C → C × Option (ℕ × R)) where
    -- What one response adds to the calls of the callback.
    pub called_back :
        List (U × R) → R → WithUserData C U × Option U → WithUserData C U × List (U × R)
    called_back out resp (w, none) = (w, out)
    called_back out resp (w, some u) = (w, out ++ (u, resp) ∷ [])

    -- One turn of the loop of `poll`, and whether there was a response.
    pub respond :
        WithUserData C U
        → List (U × R)
        → C × Option (ℕ × R)
        → Bool × WithUserData C U × List (U × R)
    respond w out (c, none) = (false, set_caller w c, out)
    respond w out (c, some (token, resp)) =
        let (w1, out1) = called_back out resp (take_data (set_caller w c) token) in (true, w1, out1)

    -- The loop, for at most so many turns.
    pub drain : ℕ → WithUserData C U → List (U × R) → WithUserData C U × List (U × R)
    drain zero w out = (w, out)
    drain (suc fuel) w out =
        let (more, w1, out1) = respond w out (try_recv_response w.caller) in
        let rest = drain fuel w1 out1 in if more then rest else (w1, out1)

    pub poll : ℕ → WithUserData C U → WithUserData C U × List (U × R)
    poll fuel w = drain fuel (set_caller w (sync w.caller)) []
