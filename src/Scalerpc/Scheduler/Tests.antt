-- ===== src/Scalerpc/Scheduler/Tests.antt =====
-- Runs of the scheduler of scalerpc/src/server.rs, and instances of the theorems.
use locasta.Base.{◌≡◌, refl, true, false, some, [], ◌∷◌, and_then, arith}
use locasta.Scalerpc.Scheduler.{
  GroupScheduler, new, new_group, group_range, num_groups, should_switch, group_at, connections_at,
  pick, skip_empty, add_connection_to_group, put_connection, join, processing,
}
use locasta.Scalerpc.Scheduler.Switching.{ComesUp, switch_all-ComesUp}

-- Three groups, of which the groups 0 and 2 have connections.
abbrev three : GroupScheduler
three = record {
  groups =
      record { group_id = 0; connections = 3 ∷ []; context_switch_seq = 0 }
      ∷ record { group_id = 1; connections = []; context_switch_seq = 0 }
      ∷ record { group_id = 2; connections = 5 ∷ []; context_switch_seq = 0 }
      ∷ [];
  current_group = 0;
  next_group = 1;
  time_slice_us = 100;
  last_switch = 0;
  state = processing;
  context_switch_seq = 0;
}

skips : (pick three ≡ 2) × (should_switch three 99 ≡ false) × (should_switch three 100 ≡ true)
unfolding pick skip_empty num_groups connections_at group_at should_switch
skips = (refl, refl, refl)

built :
    and_then (add_connection_to_group (new 0 3 100) 3 0) (λ s. add_connection_to_group s 5 2)
    ≡ some three
unfolding new group_range new_group add_connection_to_group put_connection join num_groups group_at
built = refl

switch_all-ComesUp_example : ComesUp three (7 ∷ 8 ∷ 9 ∷ []) 2 (num_groups three)
unfolding num_groups connections_at group_at
switch_all-ComesUp_example =
    switch_all-ComesUp three 2 (7 ∷ 8 ∷ 9 ∷ []) (omega arith) (omega arith) refl (omega arith)
