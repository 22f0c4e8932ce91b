-- ===== src/Copyrpc/Endpoint/Contents.antt =====
-- copyrpc/src/rc.rs: the bytes that `call` and `reply` leave in an open batch.
use locasta.Base.{
  ℕ, zero, suc, ◌+◌, ◌-◌, ◌%◌, ◌^◌, ◌≤◌, ◌<◌, ◌≡◌, arith, length, refl, ap, ◌∙◌, drop, take, sym,
  List, [], ◌∷◌, ◌++◌, length-drop, length-append,
}
use mathlib.Core.Path.{subst}
use native.Mathlib.Nat.{mod-add-mod, mod-eq_of_lt}
use locasta.Copyrpc.Endpoint.Exchange.{message_size_lem}
use locasta.Base.Bytes.{Bytes, from_le, read_at, write_at, read-write_before, read-write_self}
use locasta.Copyrpc.Encoding.{decode_header, encode_header}
use locasta.Copyrpc.Encoding.Laws.{decode_header-encode_header}
use locasta.Copyrpc.Endpoint.{Endpoint, at_ptr, offset_in}
use locasta.Copyrpc.Endpoint.Calls.{message_size, write_message}
use locasta.Copyrpc.Endpoint.Batches.{offset_in-eq-mod}
use locasta.Copyrpc.Endpoint.Delivery.{Message, Contains, total_size, payload_fits}

-- A write behind `n` bytes is a write to what follows them, and what lies before it stays.
pub drop-at_ptr :
    (n t : ℕ) (bytes : Bytes) (f : Bytes → Bytes)
    → n ≤ length bytes
    → drop n (at_ptr bytes (n + t) f) ≡ at_ptr (drop n bytes) t f
drop-at_ptr zero t bytes f h = ap (λ m. at_ptr bytes m f) {x = 0 + t} {y = t} (omega arith)
drop-at_ptr (suc n) t [] f h = absurd (omega arith)
drop-at_ptr (suc n) t (b ∷ bytes) f h =
    ap (λ m. drop (suc n) (at_ptr (b ∷ bytes) m f)) {x = suc n + t} {y = suc (n + t)} (omega arith)
    ∙ drop-at_ptr n t bytes f (omega arith)

take_before :
    (o at n : ℕ) (bytes rest : Bytes)
    → at + n ≤ o
    → o ≤ length bytes
    → read_at (take o bytes ++ rest) at n ≡ read_at bytes at n
take_before o zero zero bytes rest h k = refl
take_before zero zero (suc n) bytes rest h k = absurd (omega arith)
take_before (suc o) at n [] rest h k = absurd (omega arith)
take_before (suc o) zero (suc n) (b ∷ bytes) rest h k =
    ap (λ r. b ∷ r) (take_before o zero n bytes rest (omega arith) (omega arith))
take_before zero (suc at) n bytes rest h k = absurd (omega arith)
take_before (suc o) (suc at) n (b ∷ bytes) rest h k =
    take_before o at n bytes rest (omega arith) (omega arith)

pub triple :
    {a a' b b' c c' : ℕ} → a ≡ a' → b ≡ b' → c ≡ c' → ◌≡◌ {A = ℕ × ℕ × ℕ} (a, b, c) (a', b', c')
triple p q r = λ i. (p i, q i, r i)

pub same_header :
    (xs ys : Bytes)
    → read_at xs 0 4 ≡ read_at ys 0 4
    → read_at xs 4 4 ≡ read_at ys 4 4
    → read_at xs 8 4 ≡ read_at ys 8 4
    → decode_header xs ≡ decode_header ys
unfolding decode_header
same_header xs ys p q r = triple (ap from_le p) (ap from_le q) (ap from_le r)

-- A message as `call` and `reply` write it.
abbrev pub write_bytes : Message → Bytes → Bytes
write_bytes m buf =
    write_at (encode_header buf m.call_id m.piggyback (length m.payload % 2 ^ 32)) 12 m.payload

written_header :
    (m : Message) (buf : Bytes)
    → m.call_id < 2 ^ 32
    → m.piggyback < 2 ^ 32
    → length m.payload < 2 ^ 32
    → 12 + length m.payload ≤ length buf
    → (decode_header (write_bytes m buf) ≡ (m.call_id, m.piggyback, length m.payload))
      × (read_at (write_bytes m buf) 12 (length m.payload) ≡ m.payload)
written_header m buf small_id small_piggyback small fits =
    let head = encode_header buf m.call_id m.piggyback (length m.payload % 2 ^ 32) in
    let (decoded, same_length, after) =
      decode_header-encode_header buf m.call_id m.piggyback (length m.payload % 2 ^ 32)
        (omega arith) small_id (omega arith) in
    (
      same_header (write_at head 12 m.payload) head
            (read-write_before head 12 m.payload 0 4 (omega arith))
            (read-write_before head 12 m.payload 4 4 (omega arith))
            (read-write_before head 12 m.payload 8 4 (omega arith))
          ∙ decoded
          ∙ triple refl (omega arith) (omega arith),
      read-write_self head 12 m.payload (omega (arith, same_length)),
    )

-- A message that is written behind others is the last one then, and the others stay.
pub append-Contains :
    (ms : List Message) (m : Message) (bytes : Bytes)
    → Contains bytes ms
    → m.call_id < 2 ^ 32
    → m.piggyback < 2 ^ 32
    → length m.payload < 2 ^ 32
    → total_size ms + message_size m.payload ≤ length bytes
    → Contains (at_ptr bytes (total_size ms) (write_bytes m)) (ms ++ m ∷ [])
unfolding Contains
append-Contains [] m bytes c small_id small_piggyback small fits =
    let (header, payload) =
      written_header m bytes small_id small_piggyback small
        (omega (arith, payload_fits m.payload small)) in
    (header, payload, small, tt)
append-Contains (x ∷ ms) m bytes (header, payload, small_x, rest) small_id small_piggyback small
      fits =
    let n = message_size x.payload in
    let o = n + total_size ms in
    let out = at_ptr bytes o (write_bytes m) in
    let tail = write_bytes m (drop o bytes) in
    let l = payload_fits x.payload small_x in
    (
      same_header out bytes (take_before o 0 4 bytes tail (omega arith) (omega arith))
            (take_before o 4 4 bytes tail (omega arith) (omega arith))
            (take_before o 8 4 bytes tail (omega arith) (omega arith))
          ∙ header,
      take_before o 12 (length x.payload) bytes tail (omega arith) (omega arith) ∙ payload,
      small_x,
      subst (λ b. Contains b (ms ++ m ∷ []))
          (sym (drop-at_ptr n (total_size ms) bytes (write_bytes m) (omega arith)))
          (append-Contains ms m (drop n bytes) rest small_id small_piggyback small
            (omega (arith, length-drop n bytes))),
    )

-- The open batch holds these messages behind its metadata.
pub record HoldsBatch {S : Type 0} (k : ℕ) (e : Endpoint S) (ms : List Message) : Type 0 where
  pub count : e.batch_message_count ≡ length ms
  pub producer : e.send_ring_producer ≡ e.meta_pos + 32 + total_size ms
  pub contents : Contains (drop (e.meta_pos % 2 ^ k + 32) e.send_ring) ms

total_size-append : (ms ns : List Message) → total_size (ms ++ ns) ≡ total_size ms + total_size ns
total_size-append [] ns = omega arith
total_size-append (m ∷ ms) ns = omega (arith, total_size-append ms ns)

module _ {S : Type 0} (k : ℕ) (e : Endpoint S) (ms : List Message) (m : Message) where
  end_of_batch :
      HoldsBatch k e ms
      → length e.send_ring ≡ 2 ^ k
      → e.meta_pos % 2 ^ k + (e.send_ring_producer - e.meta_pos) < 2 ^ k
      → offset_in (length e.send_ring) e.send_ring_producer
        ≡ e.meta_pos % 2 ^ k + 32 + total_size ms
  end_of_batch h ring below =
      ap (λ n. offset_in n e.send_ring_producer) ring
      ∙ offset_in-eq-mod k e.send_ring_producer
      ∙ ap (λ n. n % 2 ^ k) {y = e.meta_pos + (32 + total_size ms)} (omega (arith, h))
      ∙ sym (mod-add-mod e.meta_pos (2 ^ k) (32 + total_size ms))
      ∙ mod-eq_of_lt (omega (arith, h))
      ∙ omega arith

  -- `write_message`, which `call` and `reply` end with, adds its message at the end of the batch
  -- and leaves the bytes of the others, if the message still fits the cycle.
  pub write_message-HoldsBatch :
      HoldsBatch k e ms
      → length e.send_ring ≡ 2 ^ k
      → e.meta_pos % 2 ^ k + (e.send_ring_producer - e.meta_pos) + message_size m.payload ≤ 2 ^ k
      → m.call_id < 2 ^ 32
      → m.piggyback < 2 ^ 32
      → length m.payload < 2 ^ 32
      → HoldsBatch k (write_message e m.call_id m.piggyback m.payload) (ms ++ m ∷ [])
  unfolding write_message
  write_message-HoldsBatch h ring fits small_id small_piggyback small =
      let o = e.meta_pos % 2 ^ k + 32 in
      record {
        count = omega (arith, h, length-append ms (m ∷ []));
        producer = omega (arith, h, total_size-append ms (m ∷ []));
        contents =
            subst (λ n. Contains (drop o (at_ptr e.send_ring n (write_bytes m))) (ms ++ m ∷ []))
              (sym (end_of_batch h ring (omega (arith, message_size_lem m.payload))))
              (subst (λ b. Contains b (ms ++ m ∷ []))
                (sym (drop-at_ptr o (total_size ms) e.send_ring (write_bytes m) (omega (arith, h))))
                (append-Contains ms m (drop o e.send_ring) h.contents small_id small_piggyback small
                  (omega (arith, h, length-drop o e.send_ring))));
      }

-- Where a message is written it can be read.
pub write_message-Contains :
    {S : Type 0} (k : ℕ) (e : Endpoint S) (m : Message)
    → length e.send_ring ≡ 2 ^ k
    → length (write_message e m.call_id m.piggyback m.payload).send_ring ≡ 2 ^ k
    → e.meta_pos ≤ e.send_ring_producer
    → e.meta_pos % 2 ^ k + (e.send_ring_producer - e.meta_pos) + message_size m.payload ≤ 2 ^ k
    → m.call_id < 2 ^ 32
    → m.piggyback < 2 ^ 32
    → length m.payload < 2 ^ 32
    → let d = write_message e m.call_id m.piggyback m.payload in
      Contains
        (drop
          (offset_in (length d.send_ring) (d.send_ring_producer - message_size m.payload))
          d.send_ring)
        (m ∷ [])
unfolding write_message Contains
write_message-Contains k e m ring ring' order fits small_id small_piggyback small =
    let o = e.meta_pos % 2 ^ k + (e.send_ring_producer - e.meta_pos) in
    let n = message_size m.payload in
    let some_bytes = message_size_lem m.payload in
    let at : offset_in (2 ^ k) e.send_ring_producer ≡ o =
      offset_in-eq-mod k e.send_ring_producer
      ∙ ap (λ n. n % 2 ^ k) {y = e.meta_pos + (e.send_ring_producer - e.meta_pos)} (omega arith)
      ∙ sym (mod-add-mod e.meta_pos (2 ^ k) (e.send_ring_producer - e.meta_pos))
      ∙ mod-eq_of_lt (omega (arith, some_bytes)) in
    let written = at_ptr e.send_ring (offset_in (length e.send_ring) e.send_ring_producer) in
    let from : offset_in (length (written (write_bytes m))) (e.send_ring_producer + n - n) ≡ o =
      ap (λ l. offset_in l (e.send_ring_producer + n - n)) ring'
      ∙ ap (offset_in (2 ^ k)) {x = e.send_ring_producer + n - n} {y = e.send_ring_producer}
          (omega arith)
      ∙ at in
    let to : offset_in (length e.send_ring) e.send_ring_producer ≡ o + 0 =
      ap (λ l. offset_in l e.send_ring_producer) ring ∙ at ∙ omega arith in
    subst (λ i. Contains (drop i (written (write_bytes m))) (m ∷ [])) (sym from)
      (subst (λ i. Contains (drop o (at_ptr e.send_ring i (write_bytes m))) (m ∷ [])) (sym to)
        (subst (λ b. Contains b (m ∷ []))
          (sym (drop-at_ptr o 0 e.send_ring (write_bytes m) (omega (arith, some_bytes))))
          (append-Contains [] m (drop o e.send_ring) tt small_id small_piggyback small
            (omega (arith, length-drop o e.send_ring)))))
