-- ===== src/Scalerpc/Mapping/Updates.antt =====
-- How the steps of the operations of scalerpc/src/mapping.rs change the tables and the counters.
use locasta.Base.{
  ℕ, ◌+◌, ◌<◌, ◌≡◌, refl, ap, ◌∙◌, true, Option, none, some, List, ltb, ◌==◌, if◌then◌else◌, length,
  get_or, is_some, get_or-set, arith,
}
use locasta.Scalerpc.Mapping.{
  MappingEntry, VirtualMapping, new_entry, add_slot, remove_slot, reach, register_connection,
  get_connection, get_slot_owner, release, release_all, take_entry, leave, put_entry, grow,
  record_binding, forget_slot,
}
use locasta.Base.Counts.{count}
use locasta.Scalerpc.Mapping.Table.{count_some, count_some-set, reach_lem, get_or_inside}
use locasta.Scalerpc.Mapping.Owners.{
  get_connection-take_entry, get_slot_owner-release, get_slot_owner-release_all, entries-release,
  entries-release_all, IsCounted, release-IsCounted, release_all-IsCounted,
}

-- How the number of entries follows.
pub count_some-register_connection :
    (m : VirtualMapping) (d : ℕ)
    → get_connection m d ≡ none
    → count_some (register_connection m d).entries ≡ count_some m.entries + 1
unfolding register_connection get_connection
count_some-register_connection m d fresh =
    let (same, counted, inside) = reach_lem m.entries d in
    let there = count_some-set (reach m.entries d) d (some (new_entry d)) inside in
    ground (arith, there, same d, counted, fresh)

pub count_some-put_entry :
    (m : VirtualMapping) (d : ℕ) (e : MappingEntry)
    → is_some (get_connection m d) ≡ true
    → count_some (put_entry m d e).entries ≡ count_some m.entries
unfolding put_entry get_connection
count_some-put_entry m d e h =
    ground (arith, h, count_some-set m.entries d (some e) (get_or_inside m.entries d h))

pub count_some-take_entry :
    (m : VirtualMapping) (d : ℕ)
    → is_some (get_connection m d) ≡ true
    → count_some (take_entry m d).entries + 1 ≡ count_some m.entries
unfolding take_entry get_connection
count_some-take_entry m d h =
    ground (arith, h, count_some-set m.entries d none (get_or_inside m.entries d h))

-- The binding of a slot without owner.
pub record_binding_lem :
    (m : VirtualMapping) (c s : ℕ) (e : MappingEntry)
    → IsCounted m
    → get_slot_owner m s ≡ none
    → is_some (get_connection m c) ≡ true
    → ((t : ℕ)
        → get_slot_owner (record_binding (grow m s) c s e) t
          ≡ (if s == t then some c else get_slot_owner m t))
      × IsCounted (record_binding (grow m s) c s e)
unfolding get_slot_owner record_binding grow
record_binding_lem m c s e h free there =
    let (same, counted, inside) = reach_lem m.slot_to_conn s in
    let bound = count_some-set (reach m.slot_to_conn s) s (some c) inside in
    (
      (λ t. ground (arith, same t, get_or-set (reach m.slot_to_conn s) s t (some c) none inside)),
      ground (arith, h, bound, counted, same s, free),
    )

pub get_connection-record_binding :
    (m : VirtualMapping) (d s c : ℕ) (e : MappingEntry)
    → is_some (get_connection m d) ≡ true
    → (get_connection (record_binding (grow m s) d s e) c
        ≡ (if d == c then some (add_slot e s) else get_connection m c))
      × (count_some (record_binding (grow m s) d s e).entries ≡ count_some m.entries)
      × ((record_binding (grow m s) d s e).num_connections ≡ m.num_connections)
unfolding get_connection record_binding grow
get_connection-record_binding m d s c e h =
    let inside = get_or_inside m.entries d h in
    (
      get_or-set m.entries d c (some (add_slot e s)) none inside,
      ground (arith, h, count_some-set m.entries d (some (add_slot e s)) inside),
      refl,
    )

-- A slot taken off its owner, whose entry is at hand.
unfoldable pub unbound : VirtualMapping → ℕ → ℕ → MappingEntry → VirtualMapping
unbound m c s e = put_entry (release m s) c (remove_slot e s).0

pub forget_slot-release :
    (m : VirtualMapping) (c s : ℕ) (e : MappingEntry)
    → get_connection m c ≡ some e
    → forget_slot (release m s) c s ≡ unbound m c s e
unfolding forget_slot unbound get_connection
forget_slot-release m c s e h =
    rw
      (
        ap (λ (es : List (Option MappingEntry)). get_or es c none) (entries-release m s).0 ∙ h,
        forget_slot,
      )
      refl

pub unbound_lem :
    (m : VirtualMapping) (c s : ℕ) (e : MappingEntry)
    → IsCounted m
    → m.num_connections ≡ count_some m.entries
    → is_some (get_connection m c) ≡ true
    → ((t : ℕ) → get_slot_owner (unbound m c s e) t ≡ (if s == t then none else get_slot_owner m t))
      × ((d : ℕ)
          → get_connection (unbound m c s e) d
            ≡ (if c == d then some (remove_slot e s).0 else get_connection m d))
      × IsCounted (unbound m c s e)
      × ((unbound m c s e).num_connections ≡ count_some (unbound m c s e).entries)
unfolding unbound put_entry get_connection get_slot_owner
unbound_lem m c s e counted conns h =
    let (same, kept) = entries-release m s in
    let inside : c < length m.entries = get_or_inside m.entries c h in
    let e' = some (remove_slot e s).0 in
    (
      get_slot_owner-release m s,
      λ d. rw same (get_or-set m.entries c d e' none inside),
      release-IsCounted m s counted,
      rw (same, kept) (ground (arith, conns, h, count_some-set m.entries c e' inside)),
    )

-- What a connection with an entry leaves behind.
unfoldable pub left : VirtualMapping → ℕ → MappingEntry → VirtualMapping
left m d e = leave (release_all (take_entry m d) e.slots)

pub get_slot_owner-left :
    (m : VirtualMapping) (d : ℕ) (e : MappingEntry) (t : ℕ)
    → get_slot_owner (left m d e) t ≡ (if ltb 0 (count t e.slots) then none else get_slot_owner m t)
unfolding left leave get_slot_owner take_entry
get_slot_owner-left m d e t = get_slot_owner-release_all (take_entry m d) e.slots t

pub get_connection-left :
    (m : VirtualMapping) (d : ℕ) (e : MappingEntry) (c : ℕ)
    → is_some (get_connection m d) ≡ true
    → get_connection (left m d e) c ≡ (if d == c then none else get_connection m c)
unfolding left leave get_connection
get_connection-left m d e c h =
    ap (λ (es : List (Option MappingEntry)). get_or es c none)
      (entries-release_all (take_entry m d) e.slots).0
    ∙ get_connection-take_entry m d c h

pub counts-left :
    (m : VirtualMapping) (d : ℕ) (e : MappingEntry)
    → IsCounted m
    → m.num_connections ≡ count_some m.entries
    → is_some (get_connection m d) ≡ true
    → IsCounted (left m d e) × ((left m d e).num_connections ≡ count_some (left m d e).entries)
unfolding left leave take_entry
counts-left m d e bound conns h =
    let (same, kept) = entries-release_all (take_entry m d) e.slots in
    (
      release_all-IsCounted (take_entry m d) e.slots bound,
      omega (arith, kept, conns, ap count_some same, count_some-take_entry m d h),
    )
