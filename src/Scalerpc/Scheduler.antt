-- ===== src/Scalerpc/Scheduler.antt =====
-- scalerpc/src/server.rs: `GroupContext` and `GroupScheduler`, which share the time among groups
-- of connections. The clock is an argument: `now` in microseconds, for `Instant::now()`.
mod Switching
mod Tests
use locasta.Base.{
  ℕ, zero, suc, ◌+◌, ◌-◌, ◌%◌, Bool, true, false, Option, none, some, List, [], ◌∷◌, ◌++◌, leb,
  if◌then◌else◌, length, get_or, set,
}

pub data SchedulerState : Type 0 where
  processing : SchedulerState
  context_switching : SchedulerState

pub record GroupContext : Type 0 where
  pub group_id : ℕ
  pub connections : List ℕ
  pub context_switch_seq : ℕ

-- `GroupContext::new`
pub new_group : ℕ → GroupContext
new_group group_id = record { group_id = group_id; connections = []; context_switch_seq = 0 }

-- `GroupContext::add_connection`
pub join : GroupContext → ℕ → GroupContext
join g conn_id = record g { connections = g.connections ++ conn_id ∷ [] }

pub record GroupScheduler : Type 0 where
  pub groups : List GroupContext
  pub current_group : ℕ
  pub next_group : ℕ
  pub time_slice_us : ℕ
  pub last_switch : ℕ
  pub state : SchedulerState
  pub context_switch_seq : ℕ

-- The contexts of `count` groups from the identifier `first` on.
pub group_range : ℕ → ℕ → List GroupContext
group_range first zero = []
group_range first (suc count) = new_group first ∷ group_range (suc first) count

pub new : ℕ → ℕ → ℕ → GroupScheduler
new now num_groups time_slice_us = record {
  groups = group_range 0 num_groups;
  current_group = 0;
  next_group = if leb num_groups 1 then 0 else 1;
  time_slice_us = time_slice_us;
  last_switch = now;
  state = processing;
  context_switch_seq = 0;
}

pub num_groups : GroupScheduler → ℕ
num_groups s = length s.groups

pub should_switch : GroupScheduler → ℕ → Bool
should_switch s now =
    if leb (num_groups s) 1 then false else leb s.time_slice_us (now - s.last_switch)

-- The group at an index; one out of range is never asked for.
pub group_at : GroupScheduler → ℕ → GroupContext
group_at s i = get_or s.groups i (new_group i)

pub connections_at : GroupScheduler → ℕ → List ℕ
connections_at s i = (group_at s i).connections

pub current_group_connections : GroupScheduler → List ℕ
current_group_connections s = connections_at s s.current_group

pub next_group_connections : GroupScheduler → List ℕ
next_group_connections s = connections_at s s.next_group

pub put_connection : GroupScheduler → ℕ → ℕ → GroupScheduler
put_connection s conn_id group_id = record s {
  groups = set s.groups group_id (join (group_at s group_id) conn_id);
}

-- Round-robin; a scheduler without groups panics, `none`.
pub add_connection : GroupScheduler → ℕ → Option (GroupScheduler × ℕ)
add_connection s conn_id =
    if leb (num_groups s) 0
    then none
    else some (put_connection s conn_id (conn_id % num_groups s), conn_id % num_groups s)

-- `none` is `GroupNotFound`, which leaves the scheduler as it is.
pub add_connection_to_group : GroupScheduler → ℕ → ℕ → Option GroupScheduler
add_connection_to_group s conn_id group_id =
    if leb (num_groups s) group_id then none else some (put_connection s conn_id group_id)

abbrev pub is_empty : List ℕ → Bool
is_empty [] = true
is_empty (c ∷ cs) = false

-- The loop that skips empty groups, with the rounds that are left.
pub skip_empty : ℕ → GroupScheduler → ℕ → ℕ
skip_empty zero s next = next
skip_empty (suc rounds) s next =
    let rest = skip_empty rounds s (suc next % num_groups s) in
    if is_empty (connections_at s next) then rest else next

-- The group that is served after the switch.
pub pick : GroupScheduler → ℕ
pick s = skip_empty (num_groups s) s (suc s.current_group % num_groups s)

-- The switch through shared cells: no group's own number changes. A scheduler without groups
-- panics, `none`.
pub do_context_switch : GroupScheduler → ℕ → Option (GroupScheduler × ℕ)
do_context_switch s now =
    if leb (num_groups s) 0
    then none
    else some (
      record s {
        current_group = pick s;
        next_group = suc (pick s) % num_groups s;
        context_switch_seq = suc s.context_switch_seq;
        last_switch = now;
        state = processing;
      },
      suc s.context_switch_seq,
    )

pub stamp : GroupContext → ℕ → GroupContext
stamp g n = record g { context_switch_seq = n }

-- The switch on a scheduler of one's own, which also stamps the group that comes next.
pub context_switch : GroupScheduler → ℕ → Option (GroupScheduler × ℕ)
context_switch s now =
    if leb (num_groups s) 0
    then none
    else some (
      record s {
        groups = set s.groups (pick s) (stamp (group_at s (pick s)) (suc s.context_switch_seq));
        current_group = pick s;
        next_group = suc (pick s) % num_groups s;
        context_switch_seq = suc s.context_switch_seq;
        last_switch = now;
        state = processing;
      },
      suc s.context_switch_seq,
    )
