-- ===== src/Mempc/FetchAdd/Calling.antt =====
-- The callers' steps of mempc/src/fetch_add.rs.
use mathlib.Core.Path.{subst}
use locasta.Base.{
  false, true, is_some, none, Option, ℕ, ◌+◌, ◌<◌, ◌≡◌, inl, inr, sym, ap, ◌∙◌, not, ◌||◌, some, [],
  ◌∷◌, ◌++◌, arith, ltb, leb, ==_iff, if◌then◌else◌, Bool-split, length, length-set, get_elem?,
  get_elem?-more, get_or, set, take,
}
use locasta.Mempc.FetchAdd.{
  Caller, Stage, System, idle, spinning, writing, written, failed, caller_at, set_stage, begin,
  claim_slot, look, write, publish, claim, is_free, write_slot, mark_ready, slot_at,
}
use locasta.Mempc.FetchAdd.Claims.{claimed_still, count_of, count_still}
use locasta.Mempc.FetchAdd.Invariant.{StageIsValid, slot_at-mod, free_in_round}
use locasta.Mempc.FetchAdd.Pushing.{
  claim-IsValid, claim-IsClaimed, claim-StageIsValid, write_slot-IsValid, write_slot-StageIsValid,
  write_slot-own,
}
use locasta.Mempc.FetchAdd.Popping.{mark_ready-IsValid, mark_ready-StageIsValid, mark_ready-tail}
use locasta.Mempc.FetchAdd.Soundness.{
  IsSound, AreReturned, in_range, entered_in_range, stages-set, claim-AreHanded, claim-AreReturned,
}

module _ {A : Type 0} (k : ℕ) (s : System A) (v : IsSound k s) (c : ℕ) where
  -- A caller may be replaced by one whose stage goes with the ring.
  pub caller-IsSound :
      (x : Caller A)
      → c < length s.callers
      → StageIsValid k s.ring s.claims x.send_count c x.stage
      → IsSound k (record s { callers = set s.callers c x })
  unfolding caller_at
  caller-IsSound x h own = record {
    ring = v.ring;
    stages = stages-set k s.ring s.claims s.callers c x h own (λ d ne. v.stages d);
    known = v.known;
    same_callers = v.same_callers ∙ sym (length-set s.callers c x);
    seen = v.seen;
    at_tail = v.at_tail;
    counts = v.counts;
    handed = v.handed;
    returned = v.returned;
    loaded = v.loaded;
    read = v.read;
  }

  -- What is known of the caller, at its stage.
  pub own_stage :
      (stage : Stage A)
      → (caller_at s c).stage ≡ stage
      → StageIsValid k s.ring s.claims (caller_at s c).send_count c stage
  own_stage stage e =
      subst (λ t. StageIsValid k s.ring s.claims (caller_at s c).send_count c t) e (v.stages c)

  begun :
      (x : A)
      → c < length s.callers
      → (caller_at s c).stage ≡ idle
      → IsSound k (record (set_stage s c (spinning false s.ring.head x)) {
        ring = claim s.ring;
        claims = s.claims ++ (c, x) ∷ [];
      })
  unfolding caller_at set_stage claim
  begun x h e = record {
    ring = claim-IsValid k s.ring s.claims v.ring c x;
    stages =
        stages-set k (claim s.ring) (s.claims ++ (c, x) ∷ []) s.callers c
          (record (caller_at s c) { stage = spinning false s.ring.head x; entered = none }) h
          (claim-IsClaimed k s.ring s.claims v.ring c x (caller_at s c).send_count
            (own_stage idle e))
          (λ d ne.
            claim-StageIsValid k s.ring s.claims v.ring c x (caller_at s d).send_count d
              (caller_at s d).stage ne (v.stages d));
    known = λ p d w at. elim (get_elem?-more s.claims (c, x) (d, w) p at) [
      | inl old ↦ v.known p d w old
      | inr new ↦ ground (arith, h, v.same_callers, ap (λ o. o.0) new)
    ];
    same_callers =
        v.same_callers
        ∙ sym (
            length-set s.callers c
              (record (caller_at s c) { stage = spinning false s.ring.head x; entered = none }));
    seen = v.seen;
    at_tail = v.at_tail;
    counts = λ d.
        v.counts d
        ∙ sym (
            count_still d s.claims ((c, x) ∷ []) s.ring.tail
              (omega (arith, v.ring.order, v.ring.at_head)));
    handed =
        claim-AreHanded s.claims ((c, x) ∷ []) s.handed
          (omega (arith, v.at_tail, v.ring.order, v.ring.at_head)) v.handed;
    returned = claim-AreReturned s.claims ((c, x) ∷ []) s.returned v.returned;
    loaded = λ d o e.
        let (found, y, some_y, at) = v.loaded d o e in
        (found, y, some_y, claimed_still s.claims ((c, x) ∷ []) s.ring.tail (d, y) at);
    read = v.read;
  }

  pub begin-IsSound :
      (x : A) (stage : Stage A) → (caller_at s c).stage ≡ stage → IsSound k (begin s c x stage)
  unfolding begin
  begin-IsSound x idle e =
      Bool-split
        (λ b. IsSound k (
          if b then s else record s {
            callers = set s.callers c (record (caller_at s c) { entered = some x });
          }))
        (not (ltb c (length s.callers))
          || (is_some (caller_at s c).entered
              || (leb (caller_at s c).max_inflight (caller_at s c).inflight
                  || not s.ring.rx_alive)))
        (λ b. v)
        (λ b.
          caller-IsSound (record (caller_at s c) { entered = some x }) (ground (arith, b))
            (v.stages c))
  begin-IsSound x (spinning busy pos w) e = v
  begin-IsSound x (writing pos w) e = v
  begin-IsSound x (written pos w) e = v
  begin-IsSound x failed e = v

  pub claim_slot-IsSound :
      (o : Option A) (stage : Stage A)
      → (caller_at s c).entered ≡ o
      → (caller_at s c).stage ≡ stage
      → IsSound k (claim_slot s c o stage)
  unfolding claim_slot
  claim_slot-IsSound none stage at e = v
  claim_slot-IsSound (some x) idle at e = begun x (entered_in_range s c x at) e
  claim_slot-IsSound (some x) (spinning busy pos w) at e = v
  claim_slot-IsSound (some x) (writing pos w) at e = v
  claim_slot-IsSound (some x) (written pos w) at e = v
  claim_slot-IsSound (some x) failed at e = v

  pub look-IsSound : (stage : Stage A) → (caller_at s c).stage ≡ stage → IsSound k (look s c stage)
  unfolding look set_stage is_free
  look-IsSound (spinning false pos x) e =
      let own = own_stage (spinning false pos x) e in
      let h = in_range s c (spinning false pos x) e (λ q. cc) in
      let caller = caller_at s c in
      Bool-split (λ b. IsSound k (set_stage s c (if b then writing pos x else spinning true pos x)))
        (is_free s.ring pos)
        (λ free.
          let at =
            ap (λ i. get_or s.ring.seqs i 0) (sym (slot_at-mod k s.ring s.claims v.ring pos))
            ∙ (==_iff (get_or s.ring.seqs (slot_at s.ring pos) 0) pos).0 free in
          caller-IsSound (record caller { stage = writing pos x; entered = none }) h
            (own, free_in_round k s.ring s.claims v.ring pos own.after_tail at))
        (λ full.
          caller-IsSound (record caller { stage = spinning true pos x; entered = none }) h own)
  look-IsSound (spinning true pos x) e =
      let own = own_stage (spinning true pos x) e in
      let h = in_range s c (spinning true pos x) e (λ q. cc) in
      let caller = caller_at s c in
      Bool-split (λ b. IsSound k (set_stage s c (if b then spinning false pos x else failed)))
        s.ring.rx_alive
        (λ alive.
          caller-IsSound (record caller { stage = spinning false pos x; entered = none }) h own)
        (λ dead. caller-IsSound (record caller { stage = failed; entered = none }) h dead)
  look-IsSound idle e = v
  look-IsSound (writing pos w) e = v
  look-IsSound (written pos w) e = v
  look-IsSound failed e = v

  pub write-IsSound :
      (stage : Stage A) → (caller_at s c).stage ≡ stage → IsSound k (write s c stage)
  unfolding write set_stage caller_at write_slot
  write-IsSound (writing pos x) e =
      let (own, hi) = own_stage (writing pos x) e in
      let n = (caller_at s c).send_count in
      let caller = record (caller_at s c) { stage = written pos x; entered = none } in
      record {
        ring = write_slot-IsValid k s.ring s.claims v.ring n c pos x own hi;
        stages =
            stages-set k (write_slot s.ring pos c x) s.claims s.callers c caller
              (in_range s c (writing pos x) e (λ q. cc))
              (write_slot-own k s.ring s.claims v.ring n c pos x own hi)
              (λ d ne.
                write_slot-StageIsValid k s.ring s.claims v.ring n c pos x own hi
                  (caller_at s d).send_count d (caller_at s d).stage ne (v.stages d));
        known = v.known;
        same_callers = v.same_callers ∙ sym (length-set s.callers c caller);
        seen = v.seen;
        at_tail = v.at_tail;
        counts = v.counts;
        handed = v.handed;
        returned = v.returned;
        loaded = v.loaded;
        read = v.read;
      }
  write-IsSound idle e = v
  write-IsSound (spinning busy pos w) e = v
  write-IsSound (written pos w) e = v
  write-IsSound failed e = v

  pub publish-IsSound :
      (stage : Stage A) → (caller_at s c).stage ≡ stage → IsSound k (publish s c stage)
  unfolding publish caller_at mark_ready AreReturned
  publish-IsSound (written pos x) e =
      let (own, hi, held) = own_stage (written pos x) e in
      let n = (caller_at s c).send_count in
      let caller = record (caller_at s c) {
        stage = idle;
        send_count = n + 1;
        inflight = (caller_at s c).inflight + 1;
      } in
      record {
        ring = mark_ready-IsValid k s.ring s.claims v.ring n c pos x own hi held;
        stages =
            stages-set k (mark_ready s.ring pos) s.claims s.callers c caller
              (in_range s c (written pos x) e (λ q. cc)) (omega (arith, own.last))
              (λ d ne.
                mark_ready-StageIsValid k s.ring s.claims v.ring n c pos x own hi
                  (caller_at s d).send_count d (caller_at s d).stage ne (v.stages d));
        known = v.known;
        same_callers = v.same_callers ∙ sym (length-set s.callers c caller);
        seen = λ found. mark_ready-tail k s.ring s.claims v.ring n c pos x own hi (v.seen found);
        at_tail = v.at_tail;
        counts = v.counts;
        handed = v.handed;
        returned = λ i d t y at. elim (get_elem?-more s.returned (c, n, x) (d, t, y) i at) [
          | inl old ↦ v.returned i d t y old
          | inr new ↦
              subst
                (λ o.
                  (j : ℕ) × (get_elem? s.claims j ≡ some (o.0, o.2))
                  × (count_of o.0 (take j s.claims) ≡ o.1))
                new (pos, own.claimed, sym own.number)
        ];
        loaded = v.loaded;
        read = v.read;
      }
  publish-IsSound idle e = v
  publish-IsSound (spinning busy pos w) e = v
  publish-IsSound (writing pos w) e = v
  publish-IsSound failed e = v
