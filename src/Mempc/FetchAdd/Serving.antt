-- ===== src/Mempc/FetchAdd/Serving.antt =====
-- The server's steps of mempc/src/fetch_add.rs.
use mathlib.Core.Path.{subst}
use mathlib.Core.Option.{some-injective}
use locasta.Base.{
  ℕ, suc, ◌+◌, ◌-◌, ◌≡◌, refl, sym, ap, ◌∙◌, true, not, ◌||◌, Option, none, some, [], ◌∷◌, ◌++◌,
  arith, ==_iff, if◌then◌else◌, Bool-split, length, length-append, length-set, get_elem?,
  get_elem?-append_left, get_elem?-append_end, get_or, get_or-set, set_past, take,
}
use native.Mathlib.Decide.{dec_lt}
use locasta.Mempc.FetchAdd.{
  Stage, System, Op, begins, claims_slot, looks, writes, publishes, responds, finds, reads, takes,
  server_drops, idle, spinning, writing, written, failed, caller_at, is_ready, read_slot, free_slot,
  slot_at, disconnect_rx, step,
}
use locasta.Mempc.FetchAdd
use locasta.Mempc.FetchAdd.Claims.{count_of, count_of-take-suc}
use locasta.Mempc.FetchAdd.Invariant.{IsClaimed, StageIsValid, slot_at-mod}
use locasta.Mempc.FetchAdd.Popping.{next_claim, free_slot-IsValid, free_slot-StageIsValid}
use locasta.Mempc.FetchAdd.Soundness.{IsSound, AreHanded}
use locasta.Mempc.FetchAdd.Calling.{
  caller-IsSound, begin-IsSound, claim_slot-IsSound, look-IsSound, write-IsSound, publish-IsSound,
}

module _ {A : Type 0} (k : ℕ) where
  module _ (s : System A) (v : IsSound k s) where
    responds-IsSound : (c : ℕ) → IsSound k (step s (responds c))
    unfolding step
    responds-IsSound c =
        let x = record (caller_at s c) { inflight = (caller_at s c).inflight - 1 } in
        elim (dec_lt c (length s.callers)) [
          | yes lt ↦ caller-IsSound k s v c x lt (v.stages c)
          | no ge ↦
              subst (λ l. IsSound k (record s { callers = l }))
                (sym (set_past s.callers c x (omega arith))) v
        ]

    finds-IsSound : IsSound k (step s finds)
    unfolding step is_ready caller_at
    finds-IsSound =
        Bool-split (λ b. IsSound k (if b then s else record s { found = is_ready s.ring }))
          (s.found || not s.ring.rx_alive) (λ b. v)
          (λ b. record {
            ring = v.ring;
            stages = v.stages;
            known = v.known;
            same_callers = v.same_callers;
            seen = λ e.
                ap (λ i. get_or s.ring.seqs i 0)
                  (sym (slot_at-mod k s.ring s.claims v.ring s.ring.tail))
                ∙ (==_iff (get_or s.ring.seqs (slot_at s.ring s.ring.tail) 0) (s.ring.tail + 1)).0
                    e;
            at_tail = v.at_tail;
            counts = v.counts;
            handed = v.handed;
            returned = v.returned;
            loaded = λ c o e. ground (arith, b, (v.loaded c o e).0);
            read = v.read;
          })

    taken :
        (c : ℕ) (x : A)
        → s.found ≡ true
        → get_elem? s.claims s.ring.tail ≡ some (c, x)
        → IsSound k (FetchAdd.take s (c, some x))
    unfolding FetchAdd.take free_slot AreHanded caller_at
    taken c x found at =
        let ready = v.seen found in
        let r = s.ring in
        let entry : ℕ × ℕ × A = (c, get_or s.recv_counts c 0, x) in
        record {
          ring = free_slot-IsValid k r s.claims v.ring ready;
          stages = λ d.
              free_slot-StageIsValid k r s.claims v.ring ready (caller_at s d).send_count d
                (caller_at s d).stage (v.stages d);
          known = λ p d w e.
              omega
                (arith, v.known p d w e, length-set s.recv_counts c (get_or s.recv_counts c 0 + 1));
          same_callers = length-set s.recv_counts c (get_or s.recv_counts c 0 + 1) ∙ v.same_callers;
          seen = λ e. cc;
          at_tail = omega (arith, v.at_tail, length-append s.handed (entry ∷ []));
          counts = λ d.
              get_or-set s.recv_counts c d (get_or s.recv_counts c 0 + 1) 0 (v.known r.tail c x at)
              ∙ ground (
                arith,
                v.counts c,
                v.counts d,
                count_of-take-suc d c x r.tail s.claims at,
                ap (λ n. count_of d (take n s.claims)) {x = r.tail + 1} {y = suc r.tail}
                    (omega arith),
              );
          handed = λ j lt. elim (dec_lt j (length s.handed)) [
            | yes before ↦
                let (d, w, claimed, there) = v.handed j before in
                (d, w, claimed, get_elem?-append_left s.handed (entry ∷ []) j before ∙ there)
            | no after ↦
                let e : j ≡ length s.handed = omega (arith, length-append s.handed (entry ∷ [])) in
                (
                  c,
                  x,
                  ap (get_elem? s.claims) (e ∙ v.at_tail) ∙ at,
                  ap (get_elem? (s.handed ++ entry ∷ [])) e
                      ∙ get_elem?-append_end s.handed entry
                      ∙ ap (λ n. some (c, n, x)) (v.counts c)
                      ∙ ap (λ n. some (c, count_of c (take n s.claims), x)) (sym (e ∙ v.at_tail)),
                )
          ];
          returned = v.returned;
          loaded = λ d o e. cc;
          read = v.read;
        }

    reads-IsSound : IsSound k (step s reads)
    unfolding step caller_at
    reads-IsSound =
        Bool-split (λ b. IsSound k (if b then record s { loaded = some (read_slot s.ring) } else s))
          s.found
          (λ found. record {
            ring = v.ring;
            stages = v.stages;
            known = v.known;
            same_callers = v.same_callers;
            seen = v.seen;
            at_tail = v.at_tail;
            counts = v.counts;
            handed = v.handed;
            returned = v.returned;
            loaded = λ d o e.
                let (c, x, at, there) = next_claim k s.ring s.claims v.ring (v.seen found) in
                let same : (c, some x) ≡ (d, o) =
                  sym there ∙ some-injective (read_slot s.ring) (d, o) e in
                (
                  found,
                  x,
                  sym (ap (λ w. w.1) same),
                  at ∙ ap (λ w. some (w, x)) (ap (λ w. w.0) same),
                );
            read = v.read;
          })
          (λ unseen. v)

    takes-IsSound :
        (claimed : Option (ℕ × Option A))
        → s.loaded ≡ claimed
        → IsSound k (elim claimed [ none ↦ s | some w ↦ FetchAdd.take s w ])
    takes-IsSound none e = v
    takes-IsSound (some (c, o)) e =
        let (found, x, is, at) = v.loaded c o e in
        subst (λ o. IsSound k (FetchAdd.take s (c, o))) (sym is) (taken c x found at)

    drop-IsClaimed :
        (n c p : ℕ) (x : A)
        → IsClaimed k s.ring s.claims n c p x
        → IsClaimed k (disconnect_rx s.ring) s.claims n c p x
    unfolding disconnect_rx
    drop-IsClaimed n c p x w = record {
      after_tail = w.after_tail;
      claimed = w.claimed;
      unpublished = w.unpublished;
      number = w.number;
      last = w.last;
    }

    drop-StageIsValid :
        (n c : ℕ) (stage : Stage A)
        → StageIsValid k s.ring s.claims n c stage
        → StageIsValid k (disconnect_rx s.ring) s.claims n c stage
    unfolding disconnect_rx
    drop-StageIsValid n c idle w = w
    drop-StageIsValid n c (spinning busy p x) w = drop-IsClaimed n c p x w
    drop-StageIsValid n c (writing p x) (w, hi) = (drop-IsClaimed n c p x w, hi)
    drop-StageIsValid n c (written p x) (w, hi, held) = (drop-IsClaimed n c p x w, hi, held)
    drop-StageIsValid n c failed w = refl

    dropped-IsSound : IsSound k (record s { ring = disconnect_rx s.ring })
    unfolding disconnect_rx caller_at
    dropped-IsSound = record {
      ring = record {
        some_slots = v.ring.some_slots;
        power = v.ring.power;
        full = v.ring.full;
        seq_slots = v.ring.seq_slots;
        id_slots = v.ring.id_slots;
        value_slots = v.ring.value_slots;
        at_head = v.ring.at_head;
        order = v.ring.order;
        slots = v.ring.slots;
      };
      stages =
          λ c. drop-StageIsValid (caller_at s c).send_count c (caller_at s c).stage (v.stages c);
      known = v.known;
      same_callers = v.same_callers;
      seen = v.seen;
      at_tail = v.at_tail;
      counts = v.counts;
      handed = v.handed;
      returned = v.returned;
      loaded = v.loaded;
      read = v.read;
    }

    server_drops-IsSound : IsSound k (step s server_drops)
    unfolding step
    server_drops-IsSound =
        Bool-split (λ b. IsSound k (if b then s else record s { ring = disconnect_rx s.ring }))
          s.found (λ b. v) (λ b. dropped-IsSound)

  pub step-IsSound : (s : System A) (op : Op A) → IsSound k s → IsSound k (step s op)
  unfolding step
  step-IsSound s (begins c x) v = begin-IsSound k s v c x (caller_at s c).stage refl
  step-IsSound s (claims_slot c) v =
      claim_slot-IsSound k s v c (caller_at s c).entered (caller_at s c).stage refl refl
  step-IsSound s (looks c) v = look-IsSound k s v c (caller_at s c).stage refl
  step-IsSound s (writes c) v = write-IsSound k s v c (caller_at s c).stage refl
  step-IsSound s (publishes c) v = publish-IsSound k s v c (caller_at s c).stage refl
  step-IsSound s (responds c) v = responds-IsSound s v c
  step-IsSound s finds v = finds-IsSound s v
  step-IsSound s reads v = reads-IsSound s v
  step-IsSound s takes v = takes-IsSound s v s.loaded refl
  step-IsSound s server_drops v = server_drops-IsSound s v
