-- ===== src/Scalerpc/Mapping.antt =====
-- scalerpc/src/mapping.rs: which connection owns which message slot. Vectors of options are lists;
-- an index out of range reads `none`, as `get` and the flattening `and_then` do.
pub mod Table
pub mod Owners
mod Updates
pub mod Invariant
pub mod Steps
mod Tests
use locasta.Base.{
  ℕ, zero, suc, ◌+◌, ◌-◌, Bool, true, false, Option, none, some, List, [], ◌∷◌, ◌++◌, leb, ◌==◌,
  if◌then◌else◌, length, get_or, set, resize, is_some,
}

pub record MappingEntry : Type 0 where
  pub conn_id : ℕ
  pub slots : List ℕ
  pub remote_slot_addr : ℕ
  pub remote_slot_rkey : ℕ

-- `MappingEntry::new`
pub new_entry : ℕ → MappingEntry
new_entry conn_id = record {
  conn_id = conn_id;
  slots = [];
  remote_slot_addr = 0;
  remote_slot_rkey = 0;
}

pub set_remote : MappingEntry → ℕ → ℕ → MappingEntry
set_remote e addr rkey = record e { remote_slot_addr = addr; remote_slot_rkey = rkey }

pub add_slot : MappingEntry → ℕ → MappingEntry
add_slot e slot_index = record e { slots = e.slots ++ slot_index ∷ [] }

-- A list without the first entry that is `n`.
abbrev pub remove_one : List ℕ → ℕ → List ℕ
remove_one [] n = []
remove_one (m ∷ ms) n = let rest = remove_one ms n in if m == n then ms else m ∷ rest

abbrev pub contains : List ℕ → ℕ → Bool
contains [] n = false
contains (m ∷ ms) n = if m == n then true else contains ms n

pub remove_slot : MappingEntry → ℕ → MappingEntry × Bool
remove_slot e slot_index =
    (record e { slots = remove_one e.slots slot_index }, contains e.slots slot_index)

pub record VirtualMapping : Type 0 where
  pub entries : List (Option MappingEntry)
  pub slot_to_conn : List (Option ℕ)
  pub num_connections : ℕ
  pub num_bound_slots : ℕ

-- `VirtualMapping::new`
pub new : VirtualMapping
new = record { entries = []; slot_to_conn = []; num_connections = 0; num_bound_slots = 0 }

-- A vector made long enough for an index.
abbrev pub reach {ℓ} : {A : Type ℓ} → List (Option A) → ℕ → List (Option A)
reach xs i = if leb (length xs) i then resize xs (i + 1) none else xs

pub register_connection : VirtualMapping → ℕ → VirtualMapping
register_connection m conn_id = record m {
  entries = set (reach m.entries conn_id) conn_id (some (new_entry conn_id));
  num_connections = m.num_connections + 1;
}

pub get_connection : VirtualMapping → ℕ → Option MappingEntry
get_connection m conn_id = get_or m.entries conn_id none

pub get_slot_owner : VirtualMapping → ℕ → Option ℕ
get_slot_owner m slot_index = get_or m.slot_to_conn slot_index none

-- The slot taken from its owner; nothing happens for a slot without one.
pub release : VirtualMapping → ℕ → VirtualMapping
release m slot =
    if is_some (get_slot_owner m slot)
    then record m {
      slot_to_conn = set m.slot_to_conn slot none;
      num_bound_slots = m.num_bound_slots - 1;
    }
    else m

-- The loop over the slots of a connection.
pub release_all : VirtualMapping → List ℕ → VirtualMapping
release_all m [] = m
release_all m (slot ∷ slots) = release_all (release m slot) slots

pub take_entry : VirtualMapping → ℕ → VirtualMapping
take_entry m conn_id = record m { entries = set m.entries conn_id none }

pub leave : VirtualMapping → VirtualMapping
leave m = record m { num_connections = m.num_connections - 1 }

pub unregister_connection : VirtualMapping → ℕ → VirtualMapping × Option MappingEntry
unregister_connection m conn_id = elim (get_connection m conn_id) [
  | none ↦ (m, none)
  | some entry ↦ (leave (release_all (take_entry m conn_id) entry.slots), some entry)
]

pub data BindError : Type 0 where
  invalid_slot_index : ℕ → BindError
  connection_not_found : ℕ → BindError

-- The entry of a connection that is there, replaced.
pub put_entry : VirtualMapping → ℕ → MappingEntry → VirtualMapping
put_entry m conn_id entry = record m { entries = set m.entries conn_id (some entry) }

-- The slot table made long enough for a slot.
pub grow : VirtualMapping → ℕ → VirtualMapping
grow m slot_index = record m { slot_to_conn = reach m.slot_to_conn slot_index }

-- The binding of a slot without owner to a connection whose entry is at hand.
pub record_binding : VirtualMapping → ℕ → ℕ → MappingEntry → VirtualMapping
record_binding m conn_id slot_index entry = record m {
  entries = set m.entries conn_id (some (add_slot entry slot_index));
  slot_to_conn = set m.slot_to_conn slot_index (some conn_id);
  num_bound_slots = m.num_bound_slots + 1;
}

-- The error of a call, `none` where it succeeds.
pub bind_slot : VirtualMapping → ℕ → ℕ → VirtualMapping × Option BindError
bind_slot m conn_id slot_index =
    if is_some (get_slot_owner (grow m slot_index) slot_index)
    then (grow m slot_index, some (invalid_slot_index slot_index))
    else elim (get_connection m conn_id) [
      | none ↦ (grow m slot_index, some (connection_not_found conn_id))
      | some entry ↦ (record_binding (grow m slot_index) conn_id slot_index entry, none)
    ]

-- The slot taken off the entry of a connection, if that is there.
pub forget_slot : VirtualMapping → ℕ → ℕ → VirtualMapping
forget_slot m conn_id slot_index = elim (get_connection m conn_id) [
  | none ↦ m
  | some entry ↦ put_entry m conn_id (remove_slot entry slot_index).0
]

pub unbind_slot : VirtualMapping → ℕ → VirtualMapping × Option ℕ
unbind_slot m slot_index = elim (get_slot_owner m slot_index) [
  | none ↦ (m, none)
  | some conn_id ↦ (forget_slot (release m slot_index) conn_id slot_index, some conn_id)
]

-- The error of a call, `none` where it succeeds.
pub set_remote_slot : VirtualMapping → ℕ → ℕ → ℕ → VirtualMapping × Option BindError
set_remote_slot m conn_id addr rkey = elim (get_connection m conn_id) [
  | none ↦ (m, some (connection_not_found conn_id))
  | some entry ↦ (put_entry m conn_id (set_remote entry addr rkey), none)
]

-- The entries of the connections that are there.
pub connections : List (Option MappingEntry) → List MappingEntry
connections [] = []
connections (none ∷ es) = connections es
connections (some e ∷ es) = e ∷ connections es
