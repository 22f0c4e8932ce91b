-- ===== src/Scalerpc/Pool.antt =====
-- scalerpc/src/pool.rs: the slots of a message pool and its free list. A slot is its header: the
-- state byte and the owner. The free list is under a lock, so every operation runs alone. Payload
-- bytes, and the registration of the memory with the device, are left out. The free list holds
-- indices of the pool alone, as Slots shows; one out of range, where the source panics, counts as
-- a slot that is not free.
pub mod Vectors
pub mod Slots
mod Tests
use locasta.Base.{
  ℕ, zero, suc, ◌+◌, ◌-◌, ◌*◌, Bool, true, false, Option, none, some, List, [], ◌∷◌, ◌++◌, leb, ltb,
  ◌==◌, ◌&&◌, if◌then◌else◌, and_then, length, get_elem?, get_or, set, replicate,
}
use locasta.Scalerpc.Pool.Vectors.{pop, swap_remove}

pub data SlotState : Type 0 where
  free : SlotState
  reserved : SlotState
  request_pending : SlotState
  response_ready : SlotState

-- `state as u8`
abbrev pub as_u8 : SlotState → ℕ
as_u8 free = 0
as_u8 reserved = 1
as_u8 request_pending = 2
as_u8 response_ready = 3

pub from_u8 : ℕ → Option SlotState
from_u8 v =
    if v == 0
    then some free
    else if v == 1
    then some reserved
    else if v == 2
    then some request_pending
    else if v == 3
    then some response_ready
    else none

abbrev pub no_owner : ℕ
no_owner = 0xFFFF_FFFF

pub record SlotHeader : Type 0 where
  pub state_byte : ℕ
  pub owner_conn : ℕ

abbrev unwrap_or_free : Option SlotState → SlotState
unwrap_or_free none = free
unwrap_or_free (some s) = s

-- `MessageSlot::state`
pub state : SlotHeader → SlotState
state h = unwrap_or_free (from_u8 h.state_byte)

pub set_state : SlotHeader → SlotState → SlotHeader
set_state h s = record h { state_byte = as_u8 s }

pub owner : SlotHeader → Option ℕ
owner h = if h.owner_conn == no_owner then none else some h.owner_conn

abbrev unwrap_or_no_owner : Option ℕ → ℕ
unwrap_or_no_owner none = no_owner
unwrap_or_no_owner (some c) = c

pub set_owner : SlotHeader → Option ℕ → SlotHeader
set_owner h conn_id = record h { owner_conn = unwrap_or_no_owner conn_id }

pub record MessagePool : Type 0 where
  pub buffer : ℕ
  pub slots : List SlotHeader
  pub slot_data_size : ℕ
  pub free_list : List ℕ

abbrev pub slot_size : ℕ
slot_size = 4096

abbrev pub slot_header_size : ℕ
slot_header_size = 16

abbrev pub fresh_slot : SlotHeader
fresh_slot = record { state_byte = 0; owner_conn = no_owner }

-- The numbers `from`, …, `from + n - 1`.
pub range : ℕ → ℕ → List ℕ
range from zero = []
range from (suc n) = from ∷ range (suc from) n

-- The pool on a buffer that was allocated at an address.
pub new : ℕ → ℕ → ℕ → MessagePool
new buffer num_slots slot_data_size = record {
  buffer = buffer;
  slots = replicate num_slots fresh_slot;
  slot_data_size = slot_data_size;
  free_list = range 0 num_slots;
}

pub num_slots : MessagePool → ℕ
num_slots p = length p.slots

pub get_slot : MessagePool → ℕ → Option SlotHeader
get_slot p index = get_elem? p.slots index

pub slot_addr : MessagePool → ℕ → Option ℕ
slot_addr p index = if leb (num_slots p) index then none else some (p.buffer + index * slot_size)

pub slot_data_addr : MessagePool → ℕ → Option ℕ
slot_data_addr p index =
    if leb (num_slots p) index then none else some (p.buffer + index * slot_size + slot_header_size)

-- The state byte of a slot; 255 out of range.
pub byte_at : MessagePool → ℕ → ℕ
byte_at p index =
    (get_or p.slots index (record { state_byte = 255; owner_conn = no_owner })).state_byte

-- Whether a slot would go from free to reserved.
pub can_reserve : MessagePool → ℕ → Bool
can_reserve p index = byte_at p index == as_u8 free

-- The slot with a new state.
pub put_state : MessagePool → ℕ → SlotState → MessagePool
put_state p index s = record p {
  slots = set p.slots index (set_state (get_or p.slots index fresh_slot) s);
}

pub data AllocError : Type 0 where
  no_free_slots : AllocError
  invalid_slot_state : SlotState → AllocError

pub data Allocated : Type 0 where
  handle : ℕ → Allocated
  failed : AllocError → Allocated

-- A popped index that cannot be reserved is pushed back.
pub reserve : MessagePool → List ℕ → ℕ → MessagePool × Allocated
reserve p rest index =
    if can_reserve p index
    then (record (put_state p index reserved) { free_list = rest }, handle index)
    else (
      record p { free_list = rest ++ index ∷ [] },
      failed (invalid_slot_state (state (get_or p.slots index fresh_slot))),
    )

pub alloc : MessagePool → MessagePool × Allocated
alloc p = elim (pop p.free_list) [
  | none ↦ (p, failed no_free_slots)
  | some (rest, index) ↦ reserve p rest index
]

-- The loop over the free list: the position and index of the first slot in the range that can be
-- reserved.
pub find_slot : MessagePool → ℕ → ℕ → ℕ → List ℕ → Option (ℕ × ℕ)
find_slot p lo hi pos [] = none
find_slot p lo hi pos (i ∷ is) =
    let later = find_slot p lo hi (suc pos) is in
    if leb lo i && (leb i hi && can_reserve p i) then some (pos, i) else later

pub take_slot : MessagePool → Option (ℕ × ℕ) → MessagePool × Allocated
take_slot p none = (p, failed no_free_slots)
take_slot p (some (pos, index)) =
    (record (put_state p index reserved) { free_list = swap_remove p.free_list pos }, handle index)

pub last_or : ℕ → List ℕ → ℕ
last_or d [] = d
last_or d (x ∷ xs) = last_or x xs

-- From the first to the last of the given slots.
pub alloc_from_slots : MessagePool → List ℕ → MessagePool × Allocated
alloc_from_slots p [] = (p, failed no_free_slots)
alloc_from_slots p (first ∷ more) =
    take_slot p (find_slot p first (last_or first more) 0 p.free_list)

-- What freeing makes of a slot that is there.
pub put_free : MessagePool → ℕ → MessagePool
put_free p index = record p {
  slots = set p.slots index (set_owner (set_state (get_or p.slots index fresh_slot) free) none);
  free_list = p.free_list ++ index ∷ [];
}

pub free_slot_by_index : MessagePool → ℕ → MessagePool
free_slot_by_index p index = if leb (num_slots p) index then p else put_free p index

pub free_count : MessagePool → ℕ
free_count p = length p.free_list
