-- ===== src/Scalerpc/Pool/Slots.antt =====
-- The slots of scalerpc/src/pool.rs that are handed out and freed.
use locasta.Base.{
  ℕ, zero, suc, ◌+◌, ◌≤◌, ◌<◌, ◌≡◌, refl, ap, ◌∙◌, true, false, none, some, List, [], ◌∷◌, ◌++◌,
  get_elem?-set_other, ltb, leb, ◌==◌, ◌&&◌, if◌then◌else◌, length, get_or, replicate, get_or-set,
  get_or_past, Bool-cases, Option-cases, of_some, ◌⊎◌, inl, inr, arith,
}
use locasta.Base.Counts.{one_if, count, count-append_one}
use locasta.Scalerpc.Pool.{
  SlotState, free, reserved, SlotHeader, set_state, set_owner, MessagePool, fresh_slot, range, new,
  num_slots, get_slot, byte_at, can_reserve, put_state, handle, failed, no_free_slots, reserve,
  alloc, find_slot, take_slot, last_or, alloc_from_slots, put_free, free_slot_by_index, as_u8,
  no_owner,
}
use locasta.Scalerpc.Pool.Vectors.{
  pop, init_of, last_of, swap_remove, count-init_of, count-swap_remove,
}

-- The free list has no index twice, and none but those of slots that are free.
pub IsValid : MessagePool → Type 0
IsValid p = (i : ℕ) → count i p.free_list ≤ one_if (can_reserve p i)

-- The second pool is the first one with slot `i`, which was free, reserved and off the free list.
pub Takes : MessagePool → MessagePool → ℕ → Type 0
Takes p p' i =
    (count i p.free_list ≡ 1)
    × (count i p'.free_list ≡ 0)
    × (byte_at p' i ≡ as_u8 reserved)
    × ((j : ℕ)
        → (i == j) ≡ false
        → (count j p'.free_list ≡ count j p.free_list) × (byte_at p' j ≡ byte_at p j))

reserve_inside : (p : MessagePool) (i : ℕ) → can_reserve p i ≡ true → i < length p.slots
unfolding can_reserve byte_at
reserve_inside p i h = elim (Bool-cases (ltb i (length p.slots))) [
  | inl inside ↦ ground arith
  | inr past ↦ ground (
    arith,
    h,
    get_or_past p.slots i (record { state_byte = 255; owner_conn = no_owner }) (ground arith),
  )
]

byte_at-put_state :
    (p : MessagePool) (i j : ℕ) (s : SlotState)
    → i < length p.slots
    → byte_at (put_state p i s) j ≡ (if i == j then as_u8 s else byte_at p j)
unfolding byte_at put_state set_state
byte_at-put_state p i j s h = ground (
  arith,
  get_or-set p.slots i j (set_state (get_or p.slots i fresh_slot) s)
      (record { state_byte = 255; owner_conn = no_owner }) h,
)

-- The state bytes of a pool where a slot was reserved and the free list replaced.
byte_at-reserved :
    (p : MessagePool) (rest : List ℕ) (i j : ℕ)
    → i < length p.slots
    → byte_at (record (put_state p i reserved) { free_list = rest }) j
      ≡ (if i == j then 1 else byte_at p j)
unfolding byte_at put_state
byte_at-reserved p rest i j h = byte_at-put_state p i j reserved h

-- A slot whose index is taken off a valid free list.
take_off :
    (p : MessagePool) (rest : List ℕ) (i : ℕ)
    → IsValid p
    → ((n : ℕ) → count n rest + one_if (i == n) ≡ count n p.free_list)
    → let p' = record (put_state p i reserved) { free_list = rest } in
      (can_reserve p i ≡ true) × Takes p p' i × IsValid p'
unfolding IsValid Takes can_reserve
take_off p rest i v off =
    let can : (byte_at p i == 0) ≡ true = ground (arith, v i, off i) in
    let inside = reserve_inside p i can in
    (
      can,
      (
        ground (arith, v i, off i),
        ground (arith, v i, off i),
        ground (arith, byte_at-reserved p rest i i inside),
        λ j n. (ground (arith, off j), ground (arith, byte_at-reserved p rest i j inside)),
      ),
      λ j. ground (arith, byte_at-reserved p rest i j inside, off j, off i, v j, v i),
    )

pop-none : (xs : List ℕ) → pop xs ≡ none → xs ≡ []
pop-none [] e = refl
pop-none (x ∷ xs) e = cc

pop-some :
    (xs rest : List ℕ) (i n : ℕ)
    → pop xs ≡ some (rest, i)
    → count n rest + one_if (i == n) ≡ count n xs
pop-some [] rest i n e = cc
pop-some (x ∷ xs) rest i n e =
    of_some (λ (r : List ℕ × ℕ). count n r.0 + one_if (r.1 == n) ≡ count n (x ∷ xs)) e
      (count-init_of n x xs)

-- A pop takes the last entry off.
pop-append : (xs rest : List ℕ) (i : ℕ) → pop xs ≡ some (rest, i) → xs ≡ rest ++ i ∷ []
pop-append [] rest i e = cc
pop-append (x ∷ xs) rest i e = of_some (λ (r : List ℕ × ℕ). x ∷ xs ≡ r.0 ++ r.1 ∷ []) e (split x xs)
  where
    split : (x : ℕ) (xs : List ℕ) → x ∷ xs ≡ init_of x xs ++ last_of x xs ∷ []
    split x [] = refl
    split x (y ∷ ys) = ap (λ l. x ∷ l) (split y ys)

get_slot-reserved :
    (p : MessagePool) (rest : List ℕ) (i j : ℕ)
    → (i == j) ≡ false
    → get_slot (record (put_state p i reserved) { free_list = rest }) j ≡ get_slot p j
unfolding get_slot put_state
get_slot-reserved p rest i j h =
    get_elem?-set_other p.slots i j (set_state (get_or p.slots i fresh_slot) reserved)
      (λ e. ground (arith, h, e))

-- From a valid pool, `alloc` hands out a slot unless the free list is empty. The slot was free and
-- the last one of the free list; it is reserved now and off the list, whose rest keeps its order.
-- The state and the owner of every other slot are as before, and the pool stays valid.
pub alloc_lem :
    (p : MessagePool)
    → IsValid p
    → IsValid (alloc p).0
      × (((p.free_list ≡ []) × (alloc p ≡ (p, failed no_free_slots)))
          ⊎ ((i : ℕ) × ((alloc p).1 ≡ handle i)
              × Takes p (alloc p).0 i
              × (p.free_list ≡ (alloc p).0.free_list ++ i ∷ [])
              × ((j : ℕ) → (i == j) ≡ false → get_slot (alloc p).0 j ≡ get_slot p j)))
unfolding alloc reserve
alloc_lem p v = elim (Option-cases (pop p.free_list)) [
  | inl nothing ↦ rw (nothing, alloc) (v, inl (pop-none p.free_list nothing, refl))
  | inr ((rest, i), e) ↦
      let (can, takes, valid) = take_off p rest i v (λ n. pop-some p.free_list rest i n e) in
      rw (e, alloc)
        (rw (can, reserve)
          (
            valid,
            inr (
              i,
              refl,
              takes,
              pop-append p.free_list rest i e,
              λ j n. get_slot-reserved p rest i j n,
            ),
          ))
]

-- What the search of the free list finds.
find_slot_lem :
    (p : MessagePool) (lo hi pos : ℕ) (is : List ℕ) {r : ℕ × ℕ}
    → find_slot p lo hi pos is ≡ some r
    → (d : ℕ) × (r.0 ≡ pos + d) × (d < length is) × (get_or is d 0 ≡ r.1) × (lo ≤ r.1) × (r.1 ≤ hi)
unfolding find_slot
find_slot_lem p lo hi pos [] e = cc
find_slot_lem p lo hi pos (i ∷ is) {r} e =
    elim (Bool-cases (leb lo i && (leb i hi && can_reserve p i))) [
      | inl here ↦
          of_some
            (λ (r : ℕ × ℕ).
              (d : ℕ) × (r.0 ≡ pos + d)
              × (d < suc (length is))
              × (get_or (i ∷ is) d 0 ≡ r.1)
              × (lo ≤ r.1)
              × (r.1 ≤ hi))
            (rw here at e) (0, omega arith, omega arith, refl, ground arith, ground arith)
      | inr other ↦
          let (d, at, inside, same, above, below) =
            find_slot_lem p lo hi (suc pos) is (rw other at e) in
          (suc d, omega arith, omega arith, same, above, below)
    ]

-- Where the search finds nothing, no slot of the range that can be reserved is listed.
find_slot-none :
    (p : MessagePool) (lo hi pos : ℕ) (is : List ℕ) (i : ℕ)
    → find_slot p lo hi pos is ≡ none
    → lo ≤ i
    → i ≤ hi
    → can_reserve p i ≡ true
    → count i is ≡ 0
unfolding find_slot
find_slot-none p lo hi pos [] i e above below can = refl
find_slot-none p lo hi pos (j ∷ is) i e above below can =
    elim (Bool-cases (leb lo j && (leb j hi && can_reserve p j))) [
      | inl here ↦ cc (rw here at e)
      | inr other ↦
          let later = find_slot-none p lo hi (suc pos) is i (rw other at e) above below can in
          ground (arith, later, other)
    ]

-- From a valid pool, `alloc_from_slots` either hands out a slot from the first to the last of the
-- given ones that was free and is reserved now, while the other slots and their places in the
-- free list are as before, or changes nothing and reports that no slot is free, and then none of
-- these slots is in the free list. The pool stays valid.
pub alloc_from_slots_lem :
    (p : MessagePool) (first : ℕ) (more : List ℕ)
    → IsValid p
    → let r = alloc_from_slots p (first ∷ more) in
      IsValid r.0
      × (((r ≡ (p, failed no_free_slots))
            × ((i : ℕ) → first ≤ i → i ≤ last_or first more → count i p.free_list ≡ 0))
          ⊎ ((i : ℕ) × (r.1 ≡ handle i) × (first ≤ i) × (i ≤ last_or first more) × Takes p r.0 i))
unfolding alloc_from_slots take_slot IsValid
alloc_from_slots_lem p first more v =
    elim (Option-cases (find_slot p first (last_or first more) 0 p.free_list)) [
      | inl nothing ↦
          rw (nothing, take_slot)
            (
              v,
              inl (
                refl,
                λ i above below. ground (
                  arith,
                  v i,
                  find_slot-none p first (last_or first more) 0 p.free_list i nothing above below,
                ),
              ),
            )
      | inr ((pos, i), e) ↦
          let (d, at, inside, same, above, below) =
            find_slot_lem p first (last_or first more) 0 p.free_list e in
          let found : get_or p.free_list pos 0 ≡ i =
            ap (λ x. get_or p.free_list x 0) {x = pos} {y = d} (omega arith) ∙ same in
          let (can, takes, valid) =
            take_off p (swap_remove p.free_list pos) i v
              (λ n. ground (arith, count-swap_remove n p.free_list pos (omega arith), found)) in
          rw (e, take_slot) (valid, inr (i, refl, above, below, takes))
    ]

count-range : (i from n : ℕ) → count i (range from n) ≡ one_if (leb from i && ltb i (from + n))
unfolding range
count-range i from zero = ground arith
count-range i from (suc n) = ground (arith, count-range i (suc from) n)

get_or-replicate_in : (n i : ℕ) (a d : SlotHeader) → i < n → get_or (replicate n a) i d ≡ a
get_or-replicate_in zero i a d h = absurd (omega arith)
get_or-replicate_in (suc n) zero a d h = refl
get_or-replicate_in (suc n) (suc i) a d h = get_or-replicate_in n i a d (omega arith)

byte_at-put_free :
    (p : MessagePool) (i j : ℕ)
    → i < length p.slots
    → byte_at (put_free p i) j ≡ (if i == j then 0 else byte_at p j)
unfolding byte_at put_free set_owner set_state
byte_at-put_free p i j h = ground (
  arith,
  get_or-set p.slots i j (set_owner (set_state (get_or p.slots i fresh_slot) free) none)
      (record { state_byte = 255; owner_conn = no_owner }) h,
)

pub new-IsValid : (buffer n size : ℕ) → IsValid (new buffer n size)
unfolding IsValid new can_reserve byte_at
new-IsValid buffer n size i =
    let h =
      get_or-replicate_in n i fresh_slot (record { state_byte = 255; owner_conn = no_owner }) in
    ground (arith, count-range i 0 n, h)

-- A slot of a valid pool that is off the free list and is freed is free then and in the free list
-- once, while the other slots and their places are as before. The pool stays valid.
pub free_slot_by_index_lem :
    (p : MessagePool) (i : ℕ)
    → IsValid p
    → count i p.free_list ≡ 0
    → i < num_slots p
    → let p' = free_slot_by_index p i in
      IsValid p'
      × (byte_at p' i ≡ as_u8 free)
      × (count i p'.free_list ≡ 1)
      × ((j : ℕ)
          → (i == j) ≡ false
          → (count j p'.free_list ≡ count j p.free_list) × (byte_at p' j ≡ byte_at p j))
unfolding IsValid free_slot_by_index num_slots can_reserve put_free
free_slot_by_index_lem p i v off inside =
    let there : leb (length p.slots) i ≡ false = ground arith in
    rw (there, free_slot_by_index)
      (
        (λ j.
            ground
              (arith, byte_at-put_free p i j inside, count-append_one j i p.free_list, v j, off)),
        ground (arith, byte_at-put_free p i i inside),
        ground (arith, count-append_one i i p.free_list, off),
        λ j n. (
          ground (arith, count-append_one j i p.free_list),
          ground (arith, byte_at-put_free p i j inside),
        ),
      )
