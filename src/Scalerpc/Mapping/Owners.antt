-- ===== src/Scalerpc/Mapping/Owners.antt =====
-- What the operations of scalerpc/src/mapping.rs do to the owners of slots and to the entries.
use locasta.Base.{
  ℕ, ◌≡◌, refl, ap, true, not, none, some, List, [], ◌∷◌, ltb, ◌==◌, ◌&&◌, if◌then◌else◌, get_or,
  is_some, get_or-set, Bool-cases, Option-cases, inl, inr, arith,
}
use locasta.Scalerpc.Mapping.{
  MappingEntry, VirtualMapping, new_entry, reach, register_connection, get_connection,
  get_slot_owner, release, release_all, take_entry, put_entry, grow, record_binding, bind_slot,
  invalid_slot_index, connection_not_found,
}
use locasta.Base.Counts.{count}
use locasta.Scalerpc.Mapping.Table.{count_some, count_some-set, reach_lem, get_or_inside}

pub get_connection-register_connection :
    (m : VirtualMapping) (d c : ℕ)
    → get_connection (register_connection m d) c
      ≡ (if d == c then some (new_entry d) else get_connection m c)
unfolding get_connection register_connection
get_connection-register_connection m d c =
    let (same, counted, inside) = reach_lem m.entries d in
    ground (arith, get_or-set (reach m.entries d) d c (some (new_entry d)) none inside, same c)

-- An entry replaced, where there was one.
pub get_connection-put_entry :
    (m : VirtualMapping) (d c : ℕ) (e : MappingEntry)
    → is_some (get_connection m d) ≡ true
    → get_connection (put_entry m d e) c ≡ (if d == c then some e else get_connection m c)
unfolding get_connection put_entry
get_connection-put_entry m d c e h =
    get_or-set m.entries d c (some e) none (get_or_inside m.entries d h)

pub get_connection-take_entry :
    (m : VirtualMapping) (d c : ℕ)
    → is_some (get_connection m d) ≡ true
    → get_connection (take_entry m d) c ≡ (if d == c then none else get_connection m c)
unfolding get_connection take_entry
get_connection-take_entry m d c h = get_or-set m.entries d c none none (get_or_inside m.entries d h)

pub get_slot_owner-release :
    (m : VirtualMapping) (s t : ℕ)
    → get_slot_owner (release m s) t ≡ (if s == t then none else get_slot_owner m t)
unfolding get_slot_owner release
get_slot_owner-release m s t = elim (Option-cases (get_or m.slot_to_conn s none)) [
  | inl free ↦ rw free (ground (arith, free))
  | inr (c, owned) ↦
      rw owned (
        get_or-set m.slot_to_conn s t none none (get_or_inside m.slot_to_conn s (ap is_some owned)))
]

pub get_slot_owner-release_all :
    (m : VirtualMapping) (slots : List ℕ) (t : ℕ)
    → get_slot_owner (release_all m slots) t
      ≡ (if ltb 0 (count t slots) then none else get_slot_owner m t)
unfolding release_all
get_slot_owner-release_all m [] t = refl
get_slot_owner-release_all m (s ∷ slots) t =
    ground (arith, get_slot_owner-release_all (release m s) slots t, get_slot_owner-release m s t)

pub entries-release :
    (m : VirtualMapping) (s : ℕ)
    → ((release m s).entries ≡ m.entries) × ((release m s).num_connections ≡ m.num_connections)
unfolding release
entries-release m s = elim (Bool-cases (is_some (get_slot_owner m s))) [
  | inl owned ↦ rw owned (refl, refl)
  | inr free ↦ rw free (refl, refl)
]

pub entries-release_all :
    (m : VirtualMapping) (slots : List ℕ)
    → ((release_all m slots).entries ≡ m.entries)
      × ((release_all m slots).num_connections ≡ m.num_connections)
unfolding release_all release
entries-release_all m [] = (refl, refl)
entries-release_all m (s ∷ slots) =
    let (p, q) = entries-release_all (release m s) slots in ground (arith, p, q)

-- The owned slots are counted.
abbrev pub IsCounted : VirtualMapping → Type 0
IsCounted m = m.num_bound_slots ≡ count_some m.slot_to_conn

pub release-IsCounted : (m : VirtualMapping) (s : ℕ) → IsCounted m → IsCounted (release m s)
unfolding release get_slot_owner
release-IsCounted m s h = elim (Bool-cases (is_some (get_or m.slot_to_conn s none))) [
  | inl owned ↦ rw owned (
      ground (
        arith,
        h,
        owned,
        count_some-set m.slot_to_conn s none (get_or_inside m.slot_to_conn s owned),
      ))
  | inr free ↦ rw free h
]

pub release_all-IsCounted :
    (m : VirtualMapping) (slots : List ℕ) → IsCounted m → IsCounted (release_all m slots)
unfolding release_all
release_all-IsCounted m [] h = h
release_all-IsCounted m (s ∷ slots) h =
    release_all-IsCounted (release m s) slots (release-IsCounted m s h)

-- After a bind of a slot without an owner to a connection that is registered the slot belongs to
-- the connection; in every other case its owner, if it has one, is as before. Every other slot's
-- owner is as before as well; the error, if any, names a slot that
-- is owned already or else a connection that is not there.
pub bind_slot_lem :
    (m : VirtualMapping) (c s : ℕ)
    → ((bind_slot m c s).1 ≡ (
        if is_some (get_slot_owner m s)
        then some (invalid_slot_index s)
        else if is_some (get_connection m c)
        then none
        else some (connection_not_found c)))
      × ((t : ℕ)
          → get_slot_owner (bind_slot m c s).0 t ≡ (
              if s == t && (not (is_some (get_slot_owner m s)) && is_some (get_connection m c))
              then some c
              else get_slot_owner m t))
unfolding bind_slot get_slot_owner grow record_binding
bind_slot_lem m c s =
    let (same, counted, inside) = reach_lem m.slot_to_conn s in
    elim (Bool-cases (is_some (get_or m.slot_to_conn s none))) [
      | inl owned ↦ (ground (arith, same s, owned), λ t. ground (arith, same s, same t, owned))
      | inr free ↦ elim (Option-cases (get_connection m c)) [
        | inl missing ↦ (
          ground (arith, same s, free, missing),
          λ t. ground (arith, same s, same t, free, missing),
        )
        | inr (e, there) ↦ (
          ground (arith, same s, free, there),
          λ t. ground (
            arith,
            same s,
            same t,
            free,
            there,
            get_or-set (reach m.slot_to_conn s) s t (some c) none inside,
          ),
        )
      ]
    ]
