-- ===== src/Mempc/Lamport/Invariant.antt =====
-- The invariant of mempc/src/lamport.rs: the six positions are ordered, and the cells between the
-- two ends hold what was sent.
use locasta.Base.{ℕ, suc, ◌+◌, ◌-◌, ◌%◌, ◌^◌, ◌≤◌, ◌<◌, ◌≡◌, false, arith, ltb, ◌==◌, if◌then◌else◌}
use locasta.Mempc.Lamport.{Channel, is_full, refresh_tail, push, refresh_head, pop}

-- The positions without the wrap: how many values were published and are known to the other end.
pub record Marks : Type 0 where
  pub shared_head : ℕ
  pub shared_tail : ℕ
  pub cached_tail : ℕ
  pub cached_head : ℕ

-- `heads` values were taken and `tails` given out.
module _ {A : Type 0} where
  pub record AreOrdered (c : Channel A) (heads tails : ℕ) (m : Marks) : Type 0 where
    pub at_local_head : c.local_head ≡ heads % 2 ^ 64
    pub at_local_tail : c.local_tail ≡ tails % 2 ^ 64
    pub at_shared_head : c.shared_head ≡ m.shared_head % 2 ^ 64
    pub at_shared_tail : c.shared_tail ≡ m.shared_tail % 2 ^ 64
    pub at_cached_tail : c.cached_tail ≡ m.cached_tail % 2 ^ 64
    pub at_cached_head : c.cached_head ≡ m.cached_head % 2 ^ 64
    pub tail_known : m.cached_tail ≤ m.shared_tail
    pub tail_published : m.shared_tail ≤ tails
    pub tail_behind : tails ≤ m.cached_head
    pub head_known : m.cached_head ≤ m.shared_head
    pub head_published : m.shared_head ≤ heads
    pub room : heads ≤ m.cached_tail + c.mask
    pub small : c.mask < 2 ^ 63

  -- The marks after each operation.
  abbrev pub sent_marks : Channel A → Marks → Marks
  sent_marks c m = if is_full c then record m { cached_tail = m.shared_tail } else m

  abbrev pub read_marks : Channel A → Marks → Marks
  read_marks c m =
      if c.local_tail == c.cached_head then record m { cached_head = m.shared_head } else m

  module _ (c : Channel A) (heads tails : ℕ) (m : Marks) (v : AreOrdered c heads tails m) where
    pub is_full_lem : is_full c ≡ ltb c.mask (suc heads - m.cached_tail)
    unfolding is_full
    is_full_lem = ground arith

    pub refresh_tail-AreOrdered : AreOrdered (refresh_tail c) heads tails (sent_marks c m)
    unfolding refresh_tail
    refresh_tail-AreOrdered = ground arith

    pub push-AreOrdered : (x : A) → is_full c ≡ false → AreOrdered (push c x) (suc heads) tails m
    unfolding push
    push-AreOrdered x h = ground (arith, is_full_lem)

    pub is_empty_lem : (c.local_tail == c.cached_head) ≡ (tails == m.cached_head)
    is_empty_lem = ground arith

    pub refresh_head-AreOrdered : AreOrdered (refresh_head c) heads tails (read_marks c m)
    unfolding refresh_head
    refresh_head-AreOrdered = ground arith

    pub pop-AreOrdered :
        (c.local_tail == c.cached_head) ≡ false → AreOrdered (pop c).0 heads (suc tails) m
    unfolding pop
    pop-AreOrdered h = ground (arith, is_empty_lem)
