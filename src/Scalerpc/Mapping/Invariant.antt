-- ===== src/Scalerpc/Mapping/Invariant.antt =====
-- The invariant on the two tables and the counters of scalerpc/src/mapping.rs.
use locasta.Base.{
  ℕ, ◌≡◌, refl, ap, ◌∙◌, Bool, true, false, Option, none, some, ◌==◌, is_some, Option-cases, inl,
  inr, arith,
}
use locasta.Scalerpc.Mapping.{
  MappingEntry, VirtualMapping, new, new_entry, set_remote, add_slot, remove_slot,
  register_connection, get_connection, get_slot_owner, unregister_connection, put_entry, grow,
  record_binding, bind_slot, unbind_slot, set_remote_slot,
}
use locasta.Scalerpc.Mapping.Owners.{get_connection-register_connection, get_connection-put_entry}
use locasta.Scalerpc.Mapping.Updates.{
  get_connection-record_binding, forget_slot-release, unbound, unbound_lem, left,
  get_slot_owner-left, get_connection-left, counts-left, record_binding_lem,
  count_some-register_connection, count_some-put_entry,
}
use locasta.Base.Counts.{one_if, count, count-append_one}
use locasta.Scalerpc.Mapping.Table.{count_some, reach_lem, count-remove_one}

abbrev pub is_owner : Option ℕ → ℕ → Bool
is_owner none c = false
is_owner (some d) c = d == c

-- A connection's entry lists a slot once if the connection is the slot's owner, and else not at
-- all; every owner is registered; and the counters count the connections and the owned slots.
pub record IsValid (m : VirtualMapping) : Type 0 where
  pub listed :
      (c s : ℕ) (e : MappingEntry)
      → get_connection m c ≡ some e
      → count s e.slots ≡ one_if (is_owner (get_slot_owner m s) c)
  pub registered : (s c : ℕ) → get_slot_owner m s ≡ some c → is_some (get_connection m c) ≡ true
  pub bound : m.num_bound_slots ≡ count_some m.slot_to_conn
  pub conns : m.num_connections ≡ count_some m.entries

pub new-IsValid : IsValid new
unfolding new get_connection get_slot_owner
new-IsValid = record {
  listed = λ c s e h. cc;
  registered = λ s c h. cc;
  bound = refl;
  conns = refl;
}

pub register_connection-IsValid :
    (m : VirtualMapping) (conn_id : ℕ)
    → IsValid m
    → get_connection m conn_id ≡ none
    → IsValid (register_connection m conn_id)
unfolding register_connection get_slot_owner new_entry
register_connection-IsValid m d v fresh =
    let (same, counted, inside) = reach_lem m.entries d in
    record {
      listed = λ c s e h. ground (
        arith,
        get_connection-register_connection m d c,
        v.listed c s e,
        v.registered s c,
        fresh,
      );
      registered =
          λ s c h. ground (arith, get_connection-register_connection m d c, v.registered s c);
      bound = v.bound;
      conns = omega (arith, v.conns, count_some-register_connection m d fresh);
    }

-- Replacing an entry by one with the same slots.
put_entry-IsValid :
    (m : VirtualMapping) (d : ℕ) (e e' : MappingEntry)
    → IsValid m
    → get_connection m d ≡ some e
    → e'.slots ≡ e.slots
    → IsValid (put_entry m d e')
unfolding get_slot_owner put_entry
put_entry-IsValid m d e e' v there same =
    let there' : is_some (get_connection m d) ≡ true = ap is_some there in
    record {
      listed = λ c s e'' h. ground (
        arith,
        get_connection-put_entry m d c e' there',
        v.listed c s e,
        v.listed c s e'',
        there,
        same,
      );
      registered =
          λ s c h. ground (arith, get_connection-put_entry m d c e' there', v.registered s c);
      bound = v.bound;
      conns = omega (arith, v.conns, count_some-put_entry m d e' there');
    }

pub set_remote_slot-IsValid :
    (m : VirtualMapping) (conn_id addr rkey : ℕ)
    → IsValid m
    → IsValid (set_remote_slot m conn_id addr rkey).0
unfolding set_remote_slot set_remote
set_remote_slot-IsValid m d addr rkey v = elim (Option-cases (get_connection m d)) [
  | inl missing ↦ rw (missing, set_remote_slot) v
  | inr (e, there) ↦
      rw (there, set_remote_slot) (put_entry-IsValid m d e (set_remote e addr rkey) v there refl)
]

grow_lem :
    (m : VirtualMapping) (s : ℕ)
    → ((t : ℕ) → get_slot_owner (grow m s) t ≡ get_slot_owner m t)
      × (count_some (grow m s).slot_to_conn ≡ count_some m.slot_to_conn)
unfolding grow get_slot_owner
grow_lem m s = let (same, counted, inside) = reach_lem m.slot_to_conn s in (same, counted)

grow-IsValid : (m : VirtualMapping) (s : ℕ) → IsValid m → IsValid (grow m s)
unfolding grow get_connection
grow-IsValid m s v =
    let (same, counted) = grow_lem m s in
    record {
      listed = λ c t e h. ground (arith, v.listed c t e, same t);
      registered = λ t c h. ground (arith, v.registered t c, same t);
      bound = omega (arith, v.bound, counted);
      conns = v.conns;
    }

record_binding-IsValid :
    (m : VirtualMapping) (d s : ℕ) (e : MappingEntry)
    → IsValid m
    → get_slot_owner m s ≡ none
    → get_connection m d ≡ some e
    → IsValid (record_binding (grow m s) d s e)
unfolding add_slot
record_binding-IsValid m d s e v free there =
    let there' : is_some (get_connection m d) ≡ true = ap is_some there in
    let (owners, counted) = record_binding_lem m d s e v.bound free there' in
    record {
      listed = λ c t e' h. ground (
        arith,
        (get_connection-record_binding m d s c e there').0,
        owners t,
        v.listed c t e',
        v.listed d t e,
        count-append_one t s e.slots,
        there,
        free,
      );
      registered = λ t c h.
          ground
            (arith, (get_connection-record_binding m d s c e there').0, owners t, v.registered t c);
      bound = counted;
      conns = omega (
        arith,
        v.conns,
        (get_connection-record_binding m d s d e there').1,
        (get_connection-record_binding m d s d e there').2,
      );
    }

pub bind_slot-IsValid :
    (m : VirtualMapping) (conn_id slot_index : ℕ)
    → IsValid m
    → IsValid (bind_slot m conn_id slot_index).0
unfolding bind_slot
bind_slot-IsValid m d s v =
    let (same, counted) = grow_lem m s in
    elim (Option-cases (get_slot_owner m s)) [
      | inr (c, owned) ↦ rw (same s ∙ owned, bind_slot) (grow-IsValid m s v)
      | inl free ↦ elim (Option-cases (get_connection m d)) [
        | inl missing ↦ rw (same s ∙ free, missing, bind_slot) (grow-IsValid m s v)
        | inr (e, there) ↦
            rw (same s ∙ free, there, bind_slot) (record_binding-IsValid m d s e v free there)
      ]
    ]

unbound-IsValid :
    (m : VirtualMapping) (c s : ℕ) (e : MappingEntry)
    → IsValid m
    → get_slot_owner m s ≡ some c
    → get_connection m c ≡ some e
    → IsValid (unbound m c s e)
unfolding remove_slot
unbound-IsValid m c s e v owned there =
    let (owners, entries', counted, conns) =
      unbound_lem m c s e v.bound v.conns (ap is_some there) in
    record {
      listed = λ d t e' h. ground (
        arith,
        entries' d,
        owners t,
        v.listed d t e',
        v.listed c t e,
        count-remove_one t s e.slots,
        owned,
        there,
      );
      registered = λ t d h. ground (arith, entries' d, owners t, v.registered t d);
      bound = counted;
      conns = conns;
    }

pub unbind_slot-IsValid :
    (m : VirtualMapping) (slot_index : ℕ) → IsValid m → IsValid (unbind_slot m slot_index).0
unfolding unbind_slot
unbind_slot-IsValid m s v = elim (Option-cases (get_slot_owner m s)) [
  | inl free ↦ rw (free, unbind_slot) v
  | inr (c, owned) ↦
      rw (owned, unbind_slot)
        (elim (Option-cases (get_connection m c)) [
          | inl missing ↦ cc (ap is_some missing, v.registered s c owned)
          | inr (e, there) ↦
              rw (forget_slot-release m c s e there) (unbound-IsValid m c s e v owned there)
        ])
]

-- Every operation keeps the tables in agreement; a connection is left with its slots released.
left-IsValid :
    (m : VirtualMapping) (d : ℕ) (e : MappingEntry)
    → IsValid m
    → get_connection m d ≡ some e
    → IsValid (left m d e)
left-IsValid m d e v there =
    let there' : is_some (get_connection m d) ≡ true = ap is_some there in
    let (counted, conns) = counts-left m d e v.bound v.conns there' in
    record {
      listed = λ c s e' h. ground (
        arith,
        get_connection-left m d e c there',
        get_slot_owner-left m d e s,
        v.listed c s e',
        v.listed d s e,
      );
      registered = λ s c h. ground (
        arith,
        get_connection-left m d e c there',
        get_slot_owner-left m d e s,
        v.registered s c,
        v.listed d s e,
      );
      bound = counted;
      conns = conns;
    }

pub unregister_connection-IsValid :
    (m : VirtualMapping) (conn_id : ℕ) → IsValid m → IsValid (unregister_connection m conn_id).0
unfolding unregister_connection left
unregister_connection-IsValid m d v = elim (Option-cases (get_connection m d)) [
  | inl missing ↦ rw (missing, unregister_connection) v
  | inr (e, there) ↦ rw (there, unregister_connection) (left-IsValid m d e v there)
]
