-- ===== src/Scalerpc/Mapping/Tests.antt =====
-- Runs of scalerpc/src/mapping.rs, and instances of the theorems.
use locasta.Base.{ℕ, ◌≡◌, refl, not, none, some, if◌then◌else◌, ◌==◌, ◌&&◌, is_some}
use locasta.Scalerpc.Mapping.{
  VirtualMapping, new, new_entry, register_connection, unregister_connection, bind_slot,
  unbind_slot, get_connection, get_slot_owner, grow, record_binding, add_slot, release, release_all,
  forget_slot, put_entry, remove_slot, leave, take_entry, invalid_slot_index, connection_not_found,
}
use locasta.Scalerpc.Mapping.Owners.{bind_slot_lem}
use locasta.Scalerpc.Mapping.Invariant.{IsValid}
use locasta.Scalerpc.Mapping.Steps.{
  Reachable, starts, steps, step, registers, binds, Reachable-IsValid,
}

-- Connection 2 with the slots 1 and 3.
abbrev two_slots : VirtualMapping
two_slots = step (step (step new (registers 2)) (binds 2 1)) (binds 2 3)

runs :
    (get_slot_owner two_slots 3 ≡ some 2)
    × (get_slot_owner two_slots 0 ≡ none)
    × (two_slots.num_bound_slots ≡ 2)
    × ((bind_slot two_slots 2 3).1 ≡ some (invalid_slot_index 3))
    × ((bind_slot two_slots 7 4).1 ≡ some (connection_not_found 7))
    × ((unbind_slot two_slots 1).1 ≡ some 2)
    × (get_slot_owner (unregister_connection two_slots 2).0 3 ≡ none)
unfolding register_connection bind_slot unbind_slot unregister_connection get_connection
    get_slot_owner grow record_binding add_slot new new_entry release release_all forget_slot
    put_entry remove_slot leave take_entry
runs = (refl, refl, refl, refl, refl, refl, refl)

two_slots-Reachable : Reachable two_slots
unfolding get_connection new
two_slots-Reachable = steps (binds 2 3) (steps (binds 2 1) (steps (registers 2) starts refl) tt) tt

Reachable-IsValid_example : IsValid two_slots
Reachable-IsValid_example = Reachable-IsValid two_slots two_slots-Reachable

bind_slot_lem_example :
    ((bind_slot two_slots 2 3).1 ≡ (
      if is_some (get_slot_owner two_slots 3)
      then some (invalid_slot_index 3)
      else if is_some (get_connection two_slots 2)
      then none
      else some (connection_not_found 2)))
    × ((t : ℕ)
        → get_slot_owner (bind_slot two_slots 2 3).0 t ≡ (
            if 3 == t
              && (not (is_some (get_slot_owner two_slots 3))
                  && is_some (get_connection two_slots 2))
            then some 2
            else get_slot_owner two_slots t))
bind_slot_lem_example = bind_slot_lem two_slots 2 3
