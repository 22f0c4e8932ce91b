-- ===== src/Scalerpc/Pool/Tests.antt =====
-- Runs of scalerpc/src/pool.rs, and instances of the theorems.
use locasta.Base.{ℕ, ◌≡◌, refl, some, none, [], ◌∷◌, ◌++◌, ◌==◌, false, ◌⊎◌}
use locasta.Scalerpc.Pool.{
  MessagePool, new, range, byte_at, put_state, set_state, set_owner, can_reserve, reserve, alloc,
  find_slot, take_slot, last_or, alloc_from_slots, put_free, free_slot_by_index, num_slots,
  get_slot, slot_addr, slot_data_addr, handle, failed, no_free_slots,
}
use locasta.Scalerpc.Pool.Vectors.{swap_remove}
use locasta.Scalerpc.Pool.Slots.{IsValid, Takes, new-IsValid, alloc_lem}

abbrev pool : MessagePool
pool = new 4096 4 100

runs :
    ((alloc pool).1 ≡ handle 3)
    × ((alloc_from_slots pool (1 ∷ 2 ∷ [])).1 ≡ handle 1)
    × ((alloc_from_slots pool (1 ∷ 2 ∷ [])).0.free_list ≡ 0 ∷ 3 ∷ 2 ∷ [])
    × ((alloc_from_slots pool (7 ∷ [])).1 ≡ failed no_free_slots)
    × ((free_slot_by_index (alloc pool).0 3).free_list ≡ 0 ∷ 1 ∷ 2 ∷ 3 ∷ [])
    × (slot_data_addr pool 2 ≡ some 12304)
    × (slot_addr pool 4 ≡ none)
unfolding new range alloc reserve can_reserve byte_at put_state set_state alloc_from_slots find_slot
    take_slot last_or free_slot_by_index put_free set_owner num_slots slot_addr slot_data_addr
    swap_remove
runs = (refl, refl, refl, refl, refl, refl, refl)

alloc_lem_example :
    IsValid (alloc pool).0
    × (((pool.free_list ≡ []) × (alloc pool ≡ (pool, failed no_free_slots)))
        ⊎ ((i : ℕ) × ((alloc pool).1 ≡ handle i)
            × Takes pool (alloc pool).0 i
            × (pool.free_list ≡ (alloc pool).0.free_list ++ i ∷ [])
            × ((j : ℕ) → (i == j) ≡ false → get_slot (alloc pool).0 j ≡ get_slot pool j)))
alloc_lem_example = alloc_lem pool (new-IsValid 4096 4 100)
