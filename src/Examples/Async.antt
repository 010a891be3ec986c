-- ===== src/Examples/Async.antt =====
-- Tests and instances for asynchronous computations: one group of size 1, two works of one node.
use reactive_graph_experimen.Base.{
  ℕ, ◌≤◌, ◌≡◌, ◌⊎◌, refl, none, some, [], ◌∷◌, length, lookup, insert, arith, nat_eq,
}
use reactive_graph_experimen.NodeRef.{id_eq, id_beq}
use reactive_graph_experimen.Graph.{AsyncPolicy, Future}
use reactive_graph_experimen.AsyncCompute.{
  AsyncManager, new, create_group, spawn, ConcurrencyGroupState, try_spawn_after, find_group,
  group_of, enqueue, admit, spawn_after, spawn_by, state_entry, cancel, try_spawn, spawn_debounced,
  complete, drain_results, process_completion, pop_pending, leave_group, spawn_next, release_group,
  try_spawn_from_group_queue, drain_group, queue_length, abort, group_in_flight,
}
use reactive_graph_experimen.AsyncCompute.Reachable.{
  Reachable, start, step, created, spawned, Reachable-Fits,
}
use reactive_graph_experimen.AsyncCompute.Waiting.{IsHeld, with_work, spawn-spawn_held}
use reactive_graph_experimen.Examples.{a, b}

abbrev future : ℕ → Future
future n = record { output = record { type_id = 7; contents = n } }

abbrev policy : AsyncPolicy
policy = AsyncPolicy.queue

abbrev with_group : AsyncManager
with_group = (create_group new 1).0

-- The node `b` runs, and fills the group.
abbrev busy : AsyncManager
busy = spawn with_group b (future 1) policy (some 0)

-- The node `a` was asked for: its work waits.
abbrev waiting : AsyncManager
waiting = spawn busy a (future 2) policy (some 0)

busy-Reachable : Reachable busy
busy-Reachable =
    step with_group busy (step new with_group start (created 1))
      (spawned b (future 1) policy (some 0))

waiting-Reachable : Reachable waiting
waiting-Reachable = step busy waiting busy-Reachable (spawned a (future 2) policy (some 0))

program : Unit {0}
unfolding lookup insert id_beq create_group spawn try_spawn_after find_group group_of enqueue admit
    spawn_after spawn_by state_entry cancel try_spawn spawn_debounced
program = tt

abbrev one_waits : ConcurrencyGroupState
one_waits = record {
  max_concurrent = 1;
  in_flight = 1;
  queue = record { node_id = a; future = future 2 } ∷ [];
}

Reachable-Fits_example :
    (one_waits.in_flight ≤ one_waits.max_concurrent)
    × ((length one_waits.queue ≡ 0) ⊎ (one_waits.in_flight ≡ one_waits.max_concurrent))
unfolding program
Reachable-Fits_example = Reachable-Fits waiting waiting-Reachable 0 one_waits refl

held : IsHeld waiting a 0
unfolding program
held = record {
  state = record { policy = policy; in_flight = none; group_id = some 0; pending = [] };
  group = one_waits;
  known = refl;
  idle = refl;
  in_group = refl;
  found = refl;
  full = omega arith;
}

spawn-spawn_held_example :
    lookup 0 (spawn (spawn waiting a (future 3) policy none) a (future 4) policy none).groups
    ≡ some (with_work held.group a (future 3 ∷ future 4 ∷ []))
spawn-spawn_held_example = spawn-spawn_held waiting a 0 held (future 3) (future 4) policy none

-- The node `a` alone in the group; its task has ended and its result is not yet drained.
abbrev ended : AsyncManager
unfolding program complete
ended =
    let m = spawn with_group a (future 1) AsyncPolicy.latest_wins (some 0) in
    complete m (record { handle = 0; node_id = a; delay = 0; future = future 1 })

-- The node is asked for again, and then the old result is drained.
abbrev drained : AsyncManager
unfolding drain_results
drained = (drain_results (spawn ended a (future 2) AsyncPolicy.latest_wins (some 0))).0

-- A task runs, and the counter of its group is 0.
running : length drained.runtime.tasks ≡ 1
unfolding program drained ended drain_results process_completion pop_pending leave_group spawn_next
    release_group try_spawn_from_group_queue drain_group queue_length abort
running = refl

uncounted : group_in_flight drained (record { id = 0 }) ≡ 0
unfolding program drained ended drain_results process_completion pop_pending leave_group spawn_next
    release_group try_spawn_from_group_queue drain_group queue_length abort group_in_flight
uncounted = refl
