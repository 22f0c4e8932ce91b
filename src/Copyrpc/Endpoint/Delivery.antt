-- ===== src/Copyrpc/Endpoint/Delivery.antt =====
-- copyrpc/src/rc.rs: the messages of a batch as a sequence, and `process_cqe_static` on a ring that
-- contains them.
use locasta.Base.{
  ℕ, ◌+◌, ◌*◌, ◌%◌, ◌^◌, ◌≤◌, ◌<◌, ◌≡◌, Option, some, none, arith, length, refl, ap, ◌∙◌, drop,
  take, if◌then◌else◌, sym, List, [], ◌∷◌, ◌++◌, true, Bool-cases, Option-cases, inl, inr, leb,
  drop-drop,
}
use native.Mathlib.Nat.{mod-eq_of_lt, mod-add-mod}
use mathlib.Core.Path.{subst}
use locasta.Base.Bytes.{Bytes, read_at}
use locasta.Copyrpc.Encoding.{decode_header, is_response, from_response_id, padded_message_size}
use locasta.Copyrpc.Encoding.Laws.{padded_message_size_lem}
use locasta.Copyrpc.Endpoint.{Endpoint, done, offset_in}
use locasta.Copyrpc.Endpoint.Calls.{message_size}
use locasta.Copyrpc.Endpoint.Receiving.{
  Received, receive_message, receive_messages, receive_response, receive_request, set_calls,
  advance_recv,
}
use locasta.Copyrpc.Endpoint.Batches.{offset_in-eq-mod}
use locasta.Copyrpc.Endpoint.Exchange.{message_size_lem}

pub record Message : Type 0 where
  pub call_id : ℕ
  pub piggyback : ℕ
  pub payload : Bytes

abbrev pub total_size : List Message → ℕ
total_size [] = 0
total_size (m ∷ ms) = message_size m.payload + total_size ms

-- The bytes start with the messages, one after the other.
unfoldable pub Contains : Bytes → List Message → Type 0
Contains bytes [] = Unit
Contains bytes (m ∷ ms) =
    (decode_header bytes ≡ (m.call_id, m.piggyback, length m.payload))
    × (read_at bytes 12 (length m.payload) ≡ m.payload)
    × (length m.payload < 2 ^ 32)
    × Contains (drop (message_size m.payload) bytes) ms

size_lem :
    (payload : Bytes)
    → length payload < 2 ^ 32
    → padded_message_size (length payload) ≡ message_size payload
unfolding message_size
size_lem payload small = ap padded_message_size (sym (mod-eq_of_lt small))

pub payload_fits :
    (payload : Bytes) → length payload < 2 ^ 32 → 12 + length payload ≤ message_size payload
payload_fits payload small =
    omega (arith, size_lem payload small, padded_message_size_lem (length payload) small)

next_offset : (k last o n : ℕ) → last % 2 ^ k ≡ o % 2 ^ k → (last + n) % 2 ^ k ≡ (o + n) % 2 ^ k
next_offset k last o n h =
    sym (mod-add-mod last (2 ^ k) n) ∙ ap (λ t. (t + n) % 2 ^ k) h ∙ mod-add-mod o (2 ^ k) n

module _ {S U : Type 0} (try_remove : S → ℕ → Option U × S) (qpn : ℕ) where
  -- What a message does to the table of pending calls and to the two outputs. `offset` is where it
  -- lies in the receive ring.
  pub deliver : S × Received U → ℕ → Message → S × Received U
  deliver (slab, out) offset m =
      if is_response m.call_id
      then (
        (try_remove slab (from_response_id m.call_id)).1,
        elim (try_remove slab (from_response_id m.call_id)).0 [
          | none ↦ out
          | some user_data ↦ record out { responses = out.responses ++ (user_data, m.payload) ∷ [] }
        ],
      )
      else (
        slab,
        record out {
          recv_stack =
              out.recv_stack
              ++ record {
                qpn = qpn;
                call_id = m.call_id;
                data_offset = offset + 12;
                data_len = length m.payload;
                response_allowance = m.piggyback * 32;
              }
                ∷ [];
        },
      )

  pub deliver_all : S × Received U → ℕ → List Message → S × Received U
  deliver_all st offset [] = st
  deliver_all st offset (m ∷ ms) =
      deliver_all (deliver st offset m) (offset + message_size m.payload) ms

  -- The endpoint with the given table, some bytes further in the receive ring.
  abbrev pub further : Endpoint S → S → ℕ → Endpoint S
  further e slab n = record e { pending_calls = slab; last_recv_pos = e.last_recv_pos + n }

  module _ (e : Endpoint S) (out : Received U) (o : ℕ) where
    receive_message-decoded :
        (call_id piggyback payload_len : ℕ)
        → offset_in (length e.recv_ring) e.last_recv_pos ≡ o
        → decode_header (drop o e.recv_ring) ≡ (call_id, piggyback, payload_len)
        → receive_message try_remove qpn (e, out) ≡ (
            let e1 = advance_recv e (padded_message_size payload_len) in
            if is_response call_id
            then receive_response try_remove qpn (e1, out) call_id o payload_len
            else (
              receive_request try_remove qpn (e1, out) call_id piggyback o payload_len,
              done tt,
            ))
    unfolding receive_message
    receive_message-decoded call_id piggyback payload_len at h = rw (at, h) refl

    receive_response-some :
        (call_id : ℕ) (payload : Bytes)
        → read_at e.recv_ring (o + 12) (length payload) ≡ payload
        → o + 12 + length payload ≤ length e.recv_ring
        → receive_response try_remove qpn (e, out) call_id o (length payload) ≡ (
          (
            set_calls e (try_remove e.pending_calls (from_response_id call_id)).1,
            elim (try_remove e.pending_calls (from_response_id call_id)).0 [
              | none ↦ out
              | some user_data ↦ record out {
                responses = out.responses ++ (user_data, payload) ∷ [];
              }
            ],
          ),
          done tt,
        )
    unfolding receive_response set_calls
    receive_response-some call_id payload bytes fits =
        elim (Option-cases (try_remove e.pending_calls (from_response_id call_id)).0) [
          | inl gone ↦ rw (gone, receive_response) refl
          | inr (user_data, there) ↦ rw (there, inside, bytes, receive_response) refl
        ]
      where
        inside : leb (o + 12 + length payload) (length e.recv_ring) ≡ true
        inside = ground arith

  module _ (e : Endpoint S) (out : Received U) (o : ℕ) (m : Message) where
    one_message :
        (n : ℕ)
        → read_at e.recv_ring (o + 12) (length m.payload) ≡ m.payload
        → o + 12 + length m.payload ≤ length e.recv_ring
        → let st = deliver (e.pending_calls, out) o m in
          (if is_response m.call_id
            then receive_response try_remove qpn
                (advance_recv e n, out)
                m.call_id
                o
                (length m.payload)
            else (
              receive_request try_remove qpn
                  (advance_recv e n, out)
                  m.call_id
                  m.piggyback
                  o
                  (length m.payload),
              done tt,
            ))
          ≡ ((further e st.0 n, st.1), done tt)
    unfolding deliver advance_recv set_calls receive_request
    one_message n bytes fits = elim (Bool-cases (is_response m.call_id)) [
      | inl response ↦
          rw response
            (receive_response-some (advance_recv e n) out o m.call_id m.payload bytes fits)
      | inr request ↦ rw request refl
    ]

    receive_message-deliver :
        offset_in (length e.recv_ring) e.last_recv_pos ≡ o
        → decode_header (drop o e.recv_ring) ≡ (m.call_id, m.piggyback, length m.payload)
        → read_at e.recv_ring (o + 12) (length m.payload) ≡ m.payload
        → length m.payload < 2 ^ 32
        → o + message_size m.payload ≤ length e.recv_ring
        → let st = deliver (e.pending_calls, out) o m in
          receive_message try_remove qpn (e, out)
          ≡ ((further e st.0 (message_size m.payload), st.1), done tt)
    receive_message-deliver at header bytes small fits =
        let st = deliver (e.pending_calls, out) o m in
        receive_message-decoded e out o m.call_id m.piggyback (length m.payload) at header
        ∙ one_message (padded_message_size (length m.payload)) bytes
            (omega (arith, payload_fits m.payload small))
        ∙ ap (λ n. ((further e st.0 n, st.1), done tt)) (size_lem m.payload small)

  further-further :
      (e : Endpoint S) (s t : S) (a b : ℕ) → further (further e s a) t b ≡ further e t (a + b)
  further-further e s t a b =
      ap (λ n. record e { pending_calls = t; last_recv_pos = n }) (omega arith)

  -- On a ring that contains messages from the receive position on, within one cycle, the loop
  -- delivers exactly these messages, in their order, and ends after the last of them.
  pub receive_messages-deliver_all :
      (k : ℕ) (ms : List Message) (e : Endpoint S) (out : Received U) (o : ℕ)
      → length e.recv_ring ≡ 2 ^ k
      → e.last_recv_pos % 2 ^ k ≡ o % 2 ^ k
      → o + total_size ms ≤ 2 ^ k
      → Contains (drop o e.recv_ring) ms
      → let st = deliver_all (e.pending_calls, out) o ms in
        receive_messages try_remove qpn (length ms) (e, out)
        ≡ ((further e st.0 (total_size ms), st.1), done tt)
  unfolding receive_messages deliver_all Contains
  receive_messages-deliver_all k [] e out o ring at fits c =
      ap (λ n. ((record e { last_recv_pos = n }, out), done tt)) {x = e.last_recv_pos}
        {y = e.last_recv_pos + 0} (omega arith)
  receive_messages-deliver_all k (m ∷ ms) e out o ring at fits (header, bytes, small, rest) =
      let n = message_size m.payload in
      let st = deliver (e.pending_calls, out) o m in
      let e1 = further e st.0 n in
      rw
        (receive_message-deliver e out o m here header
          (ap (take (length m.payload)) (sym (drop-drop o 12 e.recv_ring)) ∙ bytes) small
          (omega arith))
        (receive_messages-deliver_all k ms e1 st.1 (o + n) ring
            (next_offset k e.last_recv_pos o n at) (omega arith)
            (subst (λ b. Contains b ms) (drop-drop o n e.recv_ring) rest)
          ∙ ap (λ d. ((d, (deliver_all st (o + n) ms).1), done tt))
              (further-further e st.0 (deliver_all st (o + n) ms).0 n (total_size ms)))
    where
      here : offset_in (length e.recv_ring) e.last_recv_pos ≡ o
      here =
          ap (λ n. offset_in n e.last_recv_pos) ring
          ∙ offset_in-eq-mod k e.last_recv_pos
          ∙ at
          ∙ mod-eq_of_lt (omega (arith, message_size_lem m.payload))
