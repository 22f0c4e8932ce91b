-- ===== src/Ipc/Connecting.antt =====
-- The ids that clients of ipc/src/lib.rs get, one connection after the other.
use locasta.Base.{
  ℕ, suc, ◌+◌, ◌%◌, ◌^◌, ◌≡◌, refl, ap, ◌∙◌, Bool, none, some, List, [], ◌∷◌, leb, ltb,
  if◌then◌else◌, arith, Bool-split,
}
use locasta.Ipc.{
  SharedMemory, Header, ConnectResult, connected, refused, server_full, create, check_header,
  connect, take_id, mark_alive, mark_gone,
}

-- The header with the next id.
with_id : Header → ℕ → Header
with_id h id = record h { next_client_id = id }

check_header-with_id :
    (h : Header) (id a b : ℕ) → check_header (with_id h id) a b ≡ check_header h a b
unfolding check_header with_id
check_header-with_id h id a b = refl

same_id : (h : Header) → h.next_client_id ≡ 0 → h ≡ with_id h (0 % 2 ^ 32)
unfolding with_id
same_id h e = λ i. record h { next_client_id = e i }

-- A client comes and tries to connect, or the client of an id leaves.
pub data Visit : Type 0 where
  comes : Visit
  leaves : ℕ → Visit

abbrev pub arrivals : List Visit → ℕ
arrivals [] = 0
arrivals (comes ∷ visits) = suc (arrivals visits)
arrivals (leaves i ∷ visits) = arrivals visits

module _ {Q R : Type 0} (req_slot_size resp_slot_size : ℕ) where
  unfoldable pub visit : SharedMemory Q R → Visit → SharedMemory Q R
  visit m comes = (connect m req_slot_size resp_slot_size).0
  visit m (leaves i) = mark_gone m i

  unfoldable pub visit_all : SharedMemory Q R → List Visit → SharedMemory Q R
  visit_all m [] = m
  visit_all m (v ∷ visits) = visit_all (visit m v) visits

  mark_gone-header : (m : SharedMemory Q R) (i : ℕ) → (mark_gone m i).header ≡ m.header
  unfolding mark_gone
  mark_gone-header m i = ground arith

  mark_alive-header : (m : SharedMemory Q R) (i : ℕ) → (mark_alive m i).header ≡ m.header
  unfolding mark_alive
  mark_alive-header m i = ground arith

  module _ (m : SharedMemory Q R)
      (fine : check_header m.header req_slot_size resp_slot_size ≡ none) where
    connect-eq : connect m req_slot_size resp_slot_size ≡ (
        let id = m.header.next_client_id in
        if leb m.header.max_clients id
        then (take_id m, refused server_full)
        else (mark_alive (take_id m) id, connected id))
    unfolding connect
    connect-eq =
        ap
          (λ o.
            let p : SharedMemory Q R × ConnectResult = elim o [
              | some e ↦ (m, refused e)
              | none ↦
                  let id = m.header.next_client_id in
                  if leb m.header.max_clients id
                  then (take_id m, refused server_full)
                  else (mark_alive (take_id m) id, connected id)
            ] in
            p)
          fine

    connect-header :
        (connect m req_slot_size resp_slot_size).0.header
        ≡ with_id m.header ((m.header.next_client_id + 1) % 2 ^ 32)
    unfolding take_id with_id
    connect-header =
        let id = m.header.next_client_id in
        ap (λ p. p.0.header) connect-eq
        ∙ Bool-split
            (λ b.
              let p : SharedMemory Q R × ConnectResult =
                if b
                then (take_id m, refused server_full)
                else (mark_alive (take_id m) id, connected id) in
              p.0.header ≡ with_id m.header ((id + 1) % 2 ^ 32))
            (leb m.header.max_clients id) (λ h. refl) (λ h. mark_alive-header (take_id m) id)

  next_id :
      (h : Header) (m : SharedMemory Q R) (t : ℕ)
      → m.header ≡ with_id h (t % 2 ^ 32)
      → with_id m.header ((m.header.next_client_id + 1) % 2 ^ 32) ≡ with_id h ((t + 1) % 2 ^ 32)
  unfolding with_id
  next_id h m t e =
      ap (λ (g : Header). with_id g ((g.next_client_id + 1) % 2 ^ 32)) e
      ∙ ap (with_id h) {x = (t % 2 ^ 32 + 1) % 2 ^ 32} {y = (t + 1) % 2 ^ 32} (omega arith)

  -- Each client that comes moves the next id on, and one that leaves does not move it back.
  visit_all-header :
      (h : Header) (visits : List Visit) (m : SharedMemory Q R) (t : ℕ)
      → check_header h req_slot_size resp_slot_size ≡ none
      → m.header ≡ with_id h (t % 2 ^ 32)
      → (visit_all m visits).header ≡ with_id h ((t + arrivals visits) % 2 ^ 32)
  unfolding visit_all visit
  visit_all-header h [] m t fine e =
      e ∙ ap (with_id h) {x = t % 2 ^ 32} {y = (t + 0) % 2 ^ 32} (omega arith)
  visit_all-header h (comes ∷ visits) m t fine e =
      let fine1 =
        ap (λ h. check_header h req_slot_size resp_slot_size) e
        ∙ check_header-with_id h (t % 2 ^ 32) req_slot_size resp_slot_size
        ∙ fine in
      visit_all-header h visits (connect m req_slot_size resp_slot_size).0 (t + 1) fine
        (connect-header m fine1 ∙ next_id h m t e)
      ∙ ap (λ n. with_id h (n % 2 ^ 32)) {x = t + 1 + arrivals visits}
          {y = t + suc (arrivals visits)} (omega arith)
  visit_all-header h (leaves i ∷ visits) m t fine e =
      visit_all-header h visits (mark_gone m i) t fine (mark_gone-header m i ∙ e)

  -- The header of a new server.
  created :
      (is_power_of_two : ℕ → Bool) (max_clients ring_depth extra_buffer_size : ℕ)
      (m : SharedMemory Q R)
      → create is_power_of_two max_clients ring_depth extra_buffer_size req_slot_size resp_slot_size
        ≡ some m
      → (check_header m.header req_slot_size resp_slot_size ≡ none)
        × (m.header.next_client_id ≡ 0)
        × (m.header.max_clients ≡ max_clients)
  unfolding create check_header
  created is_power_of_two max_clients ring_depth extra_buffer_size m made =
      (ground arith, ground arith, ground arith)

  -- On the memory of a new server, after any sequence of clients that try to connect and of clients
  -- that leave, the next one gets the number of attempts as its id, taken modulo 2 ^ 32, or finds
  -- the server full if that is not below the server's maximum. So a client that leaves makes no
  -- room, the first 2 ^ 32 clients share no id, and the one after them is given the id 0 again.
  pub connect-nth :
      (is_power_of_two : ℕ → Bool) (max_clients ring_depth extra_buffer_size : ℕ)
      (visits : List Visit) (m : SharedMemory Q R)
      → create is_power_of_two max_clients ring_depth extra_buffer_size req_slot_size resp_slot_size
        ≡ some m
      → let id = arrivals visits % 2 ^ 32 in
        (connect (visit_all m visits) req_slot_size resp_slot_size).1
        ≡ (if ltb id max_clients then connected id else refused server_full)
  unfolding with_id
  connect-nth is_power_of_two max_clients ring_depth extra_buffer_size visits m made =
      let (fine, first, most) =
        created is_power_of_two max_clients ring_depth extra_buffer_size m made in
      let m1 = visit_all m visits in
      let before = visit_all-header m.header visits m 0 fine (same_id m.header first) in
      let id = arrivals visits % 2 ^ 32 in
      let fine1 =
        ap (λ h. check_header h req_slot_size resp_slot_size) before
        ∙ check_header-with_id m.header ((0 + arrivals visits) % 2 ^ 32) req_slot_size
            resp_slot_size
        ∙ fine in
      let at : m1.header.next_client_id ≡ id =
        ap (λ (h : Header). h.next_client_id) before
        ∙ ap (λ n. n % 2 ^ 32) {x = 0 + arrivals visits} {y = arrivals visits} (omega arith) in
      ap (λ p. p.1) (connect-eq m1 fine1)
      ∙ ground (arith, most, at, ap (λ (h : Header). h.max_clients) before)
