-- ===== src/Scalerpc/Mapping/Steps.antt =====
-- Any sequence of the operations of scalerpc/src/mapping.rs.
use locasta.Base.{ℕ, ◌≡◌, ap, none, if◌then◌else◌, ◌==◌, is_some, Option-cases, inl, inr, arith}
use locasta.Scalerpc.Mapping.{
  VirtualMapping, new, register_connection, unregister_connection, bind_slot, unbind_slot,
  set_remote_slot, get_connection, get_slot_owner,
}
use locasta.Scalerpc.Mapping.Updates.{left, get_slot_owner-left, get_connection-left}
use locasta.Scalerpc.Mapping.Invariant.{
  is_owner, IsValid, new-IsValid, register_connection-IsValid, set_remote_slot-IsValid,
  bind_slot-IsValid, unbind_slot-IsValid, unregister_connection-IsValid,
}

-- A call of one operation.
pub data Op : Type 0 where
  registers : ℕ → Op
  unregisters : ℕ → Op
  binds : ℕ → ℕ → Op
  unbinds : ℕ → Op
  sets_remote : ℕ → ℕ → ℕ → Op

abbrev pub step : VirtualMapping → Op → VirtualMapping
step m (registers c) = register_connection m c
step m (unregisters c) = (unregister_connection m c).0
step m (binds c s) = (bind_slot m c s).0
step m (unbinds s) = (unbind_slot m s).0
step m (sets_remote c addr rkey) = (set_remote_slot m c addr rkey).0

-- A connection is registered only while it is not.
abbrev pub IsAllowed : VirtualMapping → Op → Type 0
IsAllowed m (registers c) = get_connection m c ≡ none
IsAllowed m (unregisters c) = Unit
IsAllowed m (binds c s) = Unit
IsAllowed m (unbinds s) = Unit
IsAllowed m (sets_remote c addr rkey) = Unit

-- The mappings that allowed calls make of the empty one.
pub data Reachable : VirtualMapping → Type 0 where
  starts : Reachable new
  steps : {m : VirtualMapping} (op : Op) → Reachable m → IsAllowed m op → Reachable (step m op)

step-IsValid : (m : VirtualMapping) (op : Op) → IsValid m → IsAllowed m op → IsValid (step m op)
step-IsValid m (registers c) v fresh = register_connection-IsValid m c v fresh
step-IsValid m (unregisters c) v h = unregister_connection-IsValid m c v
step-IsValid m (binds c s) v h = bind_slot-IsValid m c s v
step-IsValid m (unbinds s) v h = unbind_slot-IsValid m s v
step-IsValid m (sets_remote c addr rkey) v h = set_remote_slot-IsValid m c addr rkey v

-- In every mapping that calls make of the empty one, where no connection is registered a second
-- time, a slot is listed once by its owner and by no other connection, every owner is registered,
-- and the counters count the connections and the owned slots.
pub Reachable-IsValid : (m : VirtualMapping) → Reachable m → IsValid m
Reachable-IsValid m starts = new-IsValid
Reachable-IsValid m (steps {m = m'} op r h) = step-IsValid m' op (Reachable-IsValid m' r) h

-- On a valid mapping, after a connection is unregistered, it is gone, none of its slots has an
-- owner, and the other connections and their slots are as before.
pub unregister_connection_lem :
    (m : VirtualMapping) (c : ℕ)
    → IsValid m
    → ((s : ℕ)
        → get_slot_owner (unregister_connection m c).0 s
          ≡ (if is_owner (get_slot_owner m s) c then none else get_slot_owner m s))
      × ((d : ℕ)
          → get_connection (unregister_connection m c).0 d
            ≡ (if c == d then none else get_connection m d))
unfolding unregister_connection left
unregister_connection_lem m c v = elim (Option-cases (get_connection m c)) [
  | inl missing ↦
      rw (missing, unregister_connection)
        ((λ s. ground (arith, v.registered s c, missing)), λ d. ground (arith, missing))
  | inr (e, there) ↦
      rw (there, unregister_connection)
        (
          (λ s. ground (arith, get_slot_owner-left m c e s, v.listed c s e there)),
          λ d. get_connection-left m c e d (ap is_some there),
        )
]
