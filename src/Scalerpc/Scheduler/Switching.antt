-- ===== src/Scalerpc/Scheduler/Switching.antt =====
-- Which group the switch of scalerpc/src/server.rs picks, and when a group comes up.
use native.Mathlib.Nat.{mod-lt, mod_self, mod-eq_of_lt}
use locasta.Base.{
  ℕ, zero, suc, ◌+◌, ◌-◌, ◌%◌, ◌≤◌, ◌<◌, ◌≡◌, refl, sym, ap, ◌≢◌, ◌==◌, ◌∙◌, true, false, Option,
  some, List, [], ◌∷◌, ◌++◌, leb, ltb, if◌then◌else◌, and_then, length, take, get_or-set,
  Bool-cases, inl, inr, arith,
}
use locasta.Scalerpc.Scheduler.{
  GroupScheduler, processing, num_groups, connections_at, is_empty, skip_empty, pick,
  do_context_switch, add_connection, put_connection, join, group_at, new_group,
}

-- How many steps lead from one group to another, round the groups.
abbrev pub ahead : ℕ → ℕ → ℕ → ℕ
ahead n from to = if leb from to then to - from else (to + n) - from

suc-mod : (n i : ℕ) → i < n → suc i % n ≡ (if leb n (suc i) then 0 else suc i)
suc-mod n i h = elim (Bool-cases (leb n (suc i))) [
  | inl over ↦ rw over (ap (λ x. x % n) {x = suc i} {y = n} (ground arith) ∙ mod_self n)
  | inr under ↦ rw under (mod-eq_of_lt (ground arith))
]

true≢false : true ≡ false → ⊥
true≢false e = cc

ahead-suc :
    (n i g : ℕ) → i < n → g < n → 0 < ahead n i g → suc (ahead n (suc i % n) g) ≡ ahead n i g
ahead-suc n i g hi hg pos = ground (arith, suc-mod n i hi)

ahead_pos :
    (s : GroupScheduler) (g next : ℕ)
    → next < num_groups s
    → is_empty (connections_at s g) ≡ false
    → is_empty (connections_at s next) ≡ true
    → 0 < ahead (num_groups s) next g
ahead_pos s g next hn ne e = elim (Bool-cases (ltb 0 (ahead (num_groups s) next g))) [
  | inl pos ↦ ground arith
  | inr zero_ahead ↦
      let same : next ≡ g = ground arith in
      absurd (true≢false (sym e ∙ ap (λ i. is_empty (connections_at s i)) same ∙ ne))
]

-- The skipping loop stops at the latest at a group that has connections.
skip_empty_lem :
    (s : GroupScheduler) (g rounds next : ℕ)
    → g < num_groups s
    → is_empty (connections_at s g) ≡ false
    → next < num_groups s
    → ahead (num_groups s) next g < rounds
    → (skip_empty rounds s next < num_groups s)
      × (is_empty (connections_at s (skip_empty rounds s next)) ≡ false)
      × (ahead (num_groups s) (skip_empty rounds s next) g ≤ ahead (num_groups s) next g)
unfolding skip_empty
skip_empty_lem s g zero next hg ne hn lt = absurd (omega arith)
skip_empty_lem s g (suc rounds) next hg ne hn lt =
    elim (Bool-cases (is_empty (connections_at s next))) [
      | inl empty ↦
          let pos : 0 < ahead (num_groups s) next g = ahead_pos s g next hn ne empty in
          let nearer = ahead-suc (num_groups s) next g hn hg pos in
          let (p, q, r) =
            skip_empty_lem s g rounds (suc next % num_groups s) hg ne
              (mod-lt (suc next) (omega arith)) (omega (arith, nearer)) in
          rw empty (p, q, omega (arith, nearer))
      | inr served ↦ rw served (hn, served, omega arith)
    ]

-- How many switches at most until a group comes up: from 1 to the number of groups.
abbrev pub turns : ℕ → ℕ → ℕ → ℕ
turns n from to = if leb to from then (to + n) - from else to - from

turns_lem : (n c g : ℕ) → c < n → g < n → suc (ahead n (suc c % n) g) ≡ turns n c g
turns_lem n c g hc hg = ground (arith, suc-mod n c hc)

turns_bound : (n c g : ℕ) → c < n → g < n → turns n c g ≤ n
turns_bound n c g hc hg = ground arith

turns-ahead : (n c g d : ℕ) → c < n → g < n → c ≢ g → ahead n c g ≤ d → turns n c g ≤ d
turns-ahead n c g d hc hg ne le = ground arith

-- While some group has connections, a switch picks a group that has some; and for every group
-- that has, the one picked is that group or stands before it on the way round.
pub pick_lem :
    (s : GroupScheduler) (g : ℕ)
    → s.current_group < num_groups s
    → g < num_groups s
    → is_empty (connections_at s g) ≡ false
    → (pick s < num_groups s)
      × (is_empty (connections_at s (pick s)) ≡ false)
      × (suc (ahead (num_groups s) (pick s) g) ≤ turns (num_groups s) s.current_group g)
unfolding pick
pick_lem s g hc hg ne =
    let n = num_groups s in
    let first = turns_lem n s.current_group g hc hg in
    let bound = turns_bound n s.current_group g hc hg in
    let (p, q, r) =
      skip_empty_lem s g n (suc s.current_group % n) hg ne
        (mod-lt (suc s.current_group) (omega arith)) (omega (arith, first, bound)) in
    (p, q, omega (arith, first, r))

-- The scheduler after a switch at each of the given times.
pub switch_all : GroupScheduler → List ℕ → Option GroupScheduler
switch_all s [] = some s
switch_all s (now ∷ nows) = and_then (do_context_switch s now) λ r. switch_all r.0 nows

-- What a group is owed: at some number of the switches, at most `limit`, it is the one served.
pub ComesUp : GroupScheduler → List ℕ → ℕ → ℕ → Type 0
ComesUp s nows g limit =
    (k : ℕ) × (1 ≤ k)
    × (k ≤ limit)
    × ((s' : GroupScheduler) × (switch_all s (take k nows) ≡ some s') × (s'.current_group ≡ g))

-- The scheduler that a switch makes.
abbrev after : GroupScheduler → ℕ → GroupScheduler
after s now = record s {
  current_group = pick s;
  next_group = suc (pick s) % num_groups s;
  context_switch_seq = suc s.context_switch_seq;
  last_switch = now;
  state = processing;
}

do_context_switch_lem :
    (s : GroupScheduler) (now : ℕ)
    → 0 < num_groups s
    → do_context_switch s now ≡ some (after s now, suc s.context_switch_seq)
unfolding do_context_switch
do_context_switch_lem s now pos = ground arith

switch_by :
    (limit : ℕ) (s : GroupScheduler) (g : ℕ) (nows : List ℕ)
    → s.current_group < num_groups s
    → g < num_groups s
    → is_empty (connections_at s g) ≡ false
    → turns (num_groups s) s.current_group g ≤ limit
    → limit ≤ length nows
    → ComesUp s nows g limit
unfolding ComesUp switch_all num_groups connections_at locasta.Scalerpc.Scheduler.group_at
switch_by limit s g [] hc hg ne near long =
    absurd (omega (arith, turns_lem (num_groups s) s.current_group g hc hg))
switch_by zero s g (now ∷ nows) hc hg ne near long =
    absurd (omega (arith, turns_lem (num_groups s) s.current_group g hc hg))
switch_by (suc limit) s g (now ∷ nows) hc hg ne near long =
    let (p, q, r) = pick_lem s g hc hg ne in
    let here = do_context_switch_lem s now (omega arith) in
    elim (Bool-cases (pick s == g)) [
      | inl same ↦ (1, omega arith, omega arith, (after s now, rw here refl, ground arith))
      | inr other ↦
          let (k, one, le, (s', e, served)) =
            switch_by limit (after s now) g nows p hg ne
              (turns-ahead (num_groups s) (pick s) g limit p hg (ground arith) (omega arith))
              (omega arith) in
          (suc k, omega arith, omega arith, (s', rw here e, served))
    ]

-- No group starves: on a scheduler whose current group is one of its groups, at any times given,
-- as many switches as there are groups serve every group that has connections at some point.
pub switch_all-ComesUp :
    (s : GroupScheduler) (g : ℕ) (nows : List ℕ)
    → s.current_group < num_groups s
    → g < num_groups s
    → is_empty (connections_at s g) ≡ false
    → num_groups s ≤ length nows
    → ComesUp s nows g (num_groups s)
switch_all-ComesUp s g nows hc hg ne long =
    switch_by (num_groups s) s g nows hc hg ne (turns_bound (num_groups s) s.current_group g hc hg)
      long

-- On a scheduler with groups a connection joins the group of its number modulo the count of
-- groups, behind the connections there, and the other groups stay as they are.
pub add_connection_lem :
    (s : GroupScheduler) (conn_id : ℕ)
    → 0 < num_groups s
    → (s' : GroupScheduler) × (add_connection s conn_id ≡ some (s', conn_id % num_groups s))
      × ((g : ℕ)
          → connections_at s' g ≡ (
              if conn_id % num_groups s == g
              then connections_at s g ++ conn_id ∷ []
              else connections_at s g))
unfolding add_connection num_groups connections_at locasta.Scalerpc.Scheduler.group_at
    put_connection join
add_connection_lem s conn_id pos =
    let n = length s.groups in
    (
      put_connection s conn_id (conn_id % n),
      ground arith,
      λ g. ground (
        arith,
        get_or-set s.groups (conn_id % n) g (join (group_at s (conn_id % n)) conn_id) (new_group g)
            (mod-lt conn_id pos),
      ),
    )
