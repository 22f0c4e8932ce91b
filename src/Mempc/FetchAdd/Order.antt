-- ===== src/Mempc/FetchAdd/Order.antt =====
-- Requests go through the ring of mempc/src/fetch_add.rs in the order in which their callers claimed
-- positions, and get the token that the call returns.
use native.Mathlib.Nat.{mod-eq_of_lt}
use mathlib.Core.Path.{subst}
use mathlib.Core.Option.{some-injective}
use locasta.Base.{
  ℕ, zero, suc, ◌+◌, ◌^◌, ◌≤◌, ◌<◌, ◌≡◌, inl, refl, sym, ap, ◌∙◌, false, Option, none, some, List,
  [], ◌∷◌, arith, length, length-replicate, get_elem?, get_or, get_or-replicate, replicate, take,
}
use locasta.Mempc.FetchAdd.{
  Caller, System, Op, idle, nobody, caller_at, step, run, create, new_ring, seqs_from,
}
use locasta.Mempc.FetchAdd.Claims.{count_of, claim_unique}
use locasta.Mempc.FetchAdd.Invariant.{StageIsValid}
use locasta.Mempc.FetchAdd.Soundness.{IsSound, AreHanded, AreReturned}
use locasta.Mempc.FetchAdd.Serving.{step-IsSound}

get_or-seqs_from : (i n p : ℕ) → p < n → get_or (seqs_from i n) p 0 ≡ i + p
get_or-seqs_from i zero p h = absurd (omega arith)
get_or-seqs_from i (suc n) zero h = omega arith
get_or-seqs_from i (suc n) (suc p) h = omega (arith, get_or-seqs_from (i + 1) n p (omega arith))

length-seqs_from : (i n : ℕ) → length (seqs_from i n) ≡ n
length-seqs_from i zero = refl
length-seqs_from i (suc n) = ap suc (length-seqs_from (i + 1) n)

get_elem?-in : {B : Type 0} (xs : List B) (i : ℕ) (x : B) → get_elem? xs i ≡ some x → i < length xs
get_elem?-in [] i x h = cc
get_elem?-in (y ∷ xs) zero x h = omega arith
get_elem?-in (y ∷ xs) (suc i) x h = omega (arith, get_elem?-in xs i x h)

module _ {A : Type 0} (k : ℕ) where
  pub fresh :
      (n most c : ℕ)
      → let x : Caller A = get_or (replicate n (record nobody { max_inflight = most })) c nobody in
        (x.stage ≡ idle) × (x.send_count ≡ 0)
  fresh zero most c = (refl, refl)
  fresh (suc n) most zero = (refl, refl)
  fresh (suc n) most (suc c) = fresh n most c

  pub create-IsSound : (callers most : ℕ) → 1 ≤ k → IsSound k (create {A = A} callers (2 ^ k) most)
  unfolding create new_ring caller_at AreHanded AreReturned
  create-IsSound callers most h = record {
    ring = record {
      some_slots = h;
      power = refl;
      full = refl;
      seq_slots = length-seqs_from 0 (2 ^ k);
      id_slots = length-replicate {A = ℕ} (2 ^ k) 0;
      value_slots = length-replicate {A = Option A} (2 ^ k) none;
      at_head = refl;
      order = omega arith;
      slots = λ p lo hi. inl (
          ap (λ i. get_or (seqs_from 0 (2 ^ k)) i 0)
            (mod-eq_of_lt {n = p} {m = 2 ^ k} (omega arith))
          ∙ get_or-seqs_from 0 (2 ^ k) p (omega arith)
          ∙ omega arith);
    };
    stages = λ c.
        let (stage, count) = fresh callers most c in
        let x : Caller A =
          get_or (replicate callers (record nobody { max_inflight = most })) c nobody in
        subst (λ t. StageIsValid k (new_ring {A = A} (2 ^ k) callers) [] x.send_count c t)
          (sym stage) count;
    known = λ p c w e. cc;
    same_callers =
        length-replicate {A = ℕ} callers 0
        ∙ sym (length-replicate {A = Caller A} callers (record nobody { max_inflight = most }));
    seen = λ e. cc;
    at_tail = refl;
    counts = λ c. get_or-replicate {A = ℕ} callers c 0;
    handed = λ j lt. absurd (omega arith);
    returned = λ i c t w e. cc;
    loaded = λ c o e. cc;
    read = refl;
  }

  pub run-IsSound : (ops : List (Op A)) (s : System A) → IsSound k s → IsSound k (run s ops)
  unfolding run
  run-IsSound [] s v = v
  run-IsSound (op ∷ ops) s v = run-IsSound ops (step s op) (step-IsSound k s op v)

  -- For a ring of 2 ^ k slots, k not 0, after any interleaving of the steps of any number of callers
  -- and of the server: the server got the claimed requests in the order of their claims, without a
  -- gap, each as it was sent and with its caller's id, and with the number of its caller's claims
  -- before it as its token; and no slot was read that was not written.
  pub run-AreHanded :
      (callers most : ℕ) (ops : List (Op A))
      → 1 ≤ k
      → let s = run (create callers (2 ^ k) most) ops in
        AreHanded s.claims s.handed × (length s.handed ≡ s.ring.tail) × (s.misread ≡ false)
  run-AreHanded callers most ops h =
      let v = run-IsSound ops (create callers (2 ^ k) most) (create-IsSound callers most h) in
      (v.handed, v.at_tail, v.read)

  -- After such a run, where a call returned a token and the server got a request of the same caller
  -- with the same token, that request is the call's.
  pub tokens_agree :
      (callers most : ℕ) (ops : List (Op A)) (i j c t : ℕ) (x y : A)
      → 1 ≤ k
      → get_elem? (run (create callers (2 ^ k) most) ops).returned i ≡ some (c, t, x)
      → get_elem? (run (create callers (2 ^ k) most) ops).handed j ≡ some (c, t, y)
      → x ≡ y
  unfolding AreHanded AreReturned
  tokens_agree callers most ops i j c t x y h at_i at_j =
      let s = run (create {A = A} callers (2 ^ k) most) ops in
      let v = run-IsSound ops (create callers (2 ^ k) most) (create-IsSound callers most h) in
      let (p, claimed, count) = v.returned i c t x at_i in
      let (d, w, claimed', there) = v.handed j (get_elem?-in s.handed j (c, t, y) at_j) in
      let same : (d, count_of d (take j s.claims), w) ≡ (c, t, y) =
        some-injective (d, count_of d (take j s.claims), w) (c, t, y) (sym there ∙ at_j) in
      let caller : d ≡ c = ap (λ o. o.0) same in
      let value : w ≡ y = ap (λ o. o.2) same in
      claim_unique c p j x y s.claims claimed
        (claimed' ∙ ap (λ e. some (e, w)) caller ∙ ap (λ z. some (c, z)) value)
        (count ∙ sym (ap (λ e. count_of e (take j s.claims)) (sym caller) ∙ ap (λ o. o.1) same))
