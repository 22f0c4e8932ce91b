-- ===== src/Inproc/Flux/Tests.antt =====
-- Networks of a few nodes, and an instance of the theorem.
use locasta.Base.{ℕ, ◌≡◌, refl, arith, none, some, get_elem?}
use locasta.Copyrpc.Ring.{next_power_of_two, double_until}
use locasta.Mempc.Onesided.Lanes.{create}
use locasta.Inproc.Flux.{Link, Node, links_of, peer_to_caller_index, create_flux}
use locasta.Inproc.Flux.Wiring.{peer_to_caller_index-links_of}

abbrev node : Node ℕ
node = record { id = 2; num_nodes = 5; server = create 4 16 8; links = links_of 5 2 }

peer_to_caller_index-links_of_example :
    (c : ℕ) × (link : Link) × (back : Link) × (peer_to_caller_index node 4 ≡ some c)
    × (get_elem? (links_of 5 2) c ≡ some link)
    × (link.peer ≡ 4)
    × (get_elem? (links_of 5 4) link.caller_idx ≡ some back)
    × (back.peer ≡ 2)
peer_to_caller_index-links_of_example =
    peer_to_caller_index-links_of node 4 (omega arith) (omega arith) (λ e. absurd (omega arith))

-- A capacity that is no power of two is refused, though it is rounded up for the other checks.
unrounded : create_flux {T = ℕ} 3 10 4 ≡ none
unfolding create_flux next_power_of_two double_until
unrounded = refl
