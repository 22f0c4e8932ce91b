-- ===== src/Inproc/Flux/Wiring.antt =====
-- inproc/src/flux.rs: where a call to a peer arrives.
use locasta.Base.{
  ℕ, zero, suc, ◌+◌, ◌-◌, ◌<◌, ◌≡◌, ◌≢◌, refl, arith, none, some, ltb, if◌then◌else◌, get_elem?,
  ◌∙◌,
}
use locasta.Inproc.Flux.{Link, Node, place_of, links_from, links_of, peer_to_caller_index}

-- The peer of a caller, in the loop from `j` on.
abbrev peer_at : ℕ → ℕ → ℕ → ℕ
peer_at i j c = if ltb i j then j + c else if ltb (j + c) i then j + c else j + c + 1

get_elem?-links_from :
    (i j left c : ℕ)
    → get_elem? (links_from i j left) c ≡ (
        if ltb (peer_at i j c) (j + left)
        then some (record { peer = peer_at i j c; caller_idx = place_of i (peer_at i j c) })
        else none)
unfolding links_from
get_elem?-links_from i j zero c = ground arith
get_elem?-links_from i j (suc left) zero = ground (arith, get_elem?-links_from i (j + 1) left 0)
get_elem?-links_from i j (suc left) (suc c) =
    ground
      (arith, get_elem?-links_from i (j + 1) left c, get_elem?-links_from i (j + 1) left (suc c))

-- For two different nodes of a network of `n`: the first finds a caller for the second, that
-- caller calls the second one's server, and the second finds the first as the peer of the place
-- at which the call arrives.
pub peer_to_caller_index-links_of :
    {T : Type 0} (node : Node T) (to : ℕ)
    → node.id < node.num_nodes
    → to < node.num_nodes
    → to ≢ node.id
    → (c : ℕ) × (link : Link) × (back : Link) × (peer_to_caller_index node to ≡ some c)
      × (get_elem? (links_of node.num_nodes node.id) c ≡ some link)
      × (link.peer ≡ to)
      × (get_elem? (links_of node.num_nodes to) link.caller_idx ≡ some back)
      × (back.peer ≡ node.id)
unfolding peer_to_caller_index links_of place_of
peer_to_caller_index-links_of node to h k other =
    let i = node.id in
    let n = node.num_nodes in
    let c = if ltb to i then to else to - 1 in
    (
      c,
      record { peer = to; caller_idx = place_of i to },
      record { peer = i; caller_idx = place_of to i },
      ground arith,
      get_elem?-links_from i 0 n c ∙ ground arith,
      refl,
      get_elem?-links_from to 0 n (place_of i to) ∙ ground arith,
      refl,
    )
