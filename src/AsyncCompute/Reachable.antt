-- ===== src/AsyncCompute/Reachable.antt =====
-- The manager of asynchronous computations as a state machine.
use reactive_graph_experimen.Base.{
  ℕ, ◌≤◌, ◌≡◌, ◌⊎◌, refl, Option, none, some, List, [], ◌∷◌, length, map, foldl, lookup, insert,
  lookup-insert, arith, eq_refl, nat_eq,
}
use reactive_graph_experimen.NodeRef.{NodeId, id_eq}
use reactive_graph_experimen.Graph.{AsyncPolicy, Future}
use reactive_graph_experimen.AsyncCompute.{
  AsyncManager, AsyncNodeState, ConcurrencyGroupState, try_spawn, spawn_debounced, group_of,
  find_group, cancel, abort, release_group, spawn_by, spawn, state_entry, spawn_next,
  process_completion, drain_results, create_group, complete, Task, new,
}
use reactive_graph_experimen.AsyncCompute.Capacity.{
  Every, Fits, Near, Fits-Near, Every-insert, try_spawn_after-Fits, release_group-Near,
  leave_group-Fits,
}

group_of-of_lookup :
    (m : AsyncManager) (id : NodeId) (state : AsyncNodeState)
    → lookup id m.node_states ≡ some state
    → group_of m id ≡ state.group_id
unfolding group_of
group_of-of_lookup m id state found = rw (found, group_of) refl

node_states-release_group :
    (m : AsyncManager) (group_id : Option ℕ)
    → (release_group m group_id).node_states ≡ m.node_states
unfolding release_group
node_states-release_group m group_id = by_group (find_group m group_id) refl
  where
    by_group :
        (o : Option (ℕ × ConcurrencyGroupState))
        → find_group m group_id ≡ o
        → (release_group m group_id).node_states ≡ m.node_states
    by_group none q = rw (q, release_group) refl
    by_group (some r) q = rw (q, release_group) refl

-- The manager in which `cancel` frees the place.
abbrev aborted : AsyncManager → NodeId → AsyncNodeState → ℕ → AsyncManager
aborted m id state handle = record m {
  runtime = abort m.runtime handle;
  node_states = insert id (record state { in_flight = none }) m.node_states;
}

group_of-aborted :
    (m : AsyncManager) (id : NodeId) (state : AsyncNodeState) (handle : ℕ)
    → group_of (release_group (aborted m id state handle) state.group_id) id ≡ state.group_id
group_of-aborted m id state handle =
    group_of-of_lookup (release_group (aborted m id state handle) state.group_id) id
      (record state { in_flight = none })
      (rw (node_states-release_group (aborted m id state handle) state.group_id) (
        ground (
          arith,
          eq_refl id,
          lookup-insert id id (record state { in_flight = none }) m.node_states,
        )))

-- Cancelling a node's task frees at most one place, in the group of the node.
cancel-Near :
    (m : AsyncManager) (id : NodeId) (state : AsyncNodeState)
    → Every Fits m.groups
    → Every (Near (group_of (cancel m id state) id)) (cancel m id state).groups
unfolding cancel
cancel-Near m id state fits = by_handle state.in_flight refl
  where
    by_handle :
        (in_flight : Option ℕ)
        → state.in_flight ≡ in_flight
        → Every (Near (group_of (cancel m id state) id)) (cancel m id state).groups
    by_handle none q = rw (q, cancel) (Fits-Near (group_of m id) m.groups fits)
    by_handle (some handle) q =
        rw (q, cancel, group_of-aborted m id state handle)
          (release_group-Near (aborted m id state handle) state.group_id fits)

try_spawn-Fits :
    (m : AsyncManager) (id : NodeId) (f : Future)
    → Every Fits m.groups
    → Every Fits (try_spawn m id f).groups
unfolding try_spawn
try_spawn-Fits m id f fits = try_spawn_after-Fits m id f 0 (Fits-Near (group_of m id) m.groups fits)

spawn_by-Fits :
    (policy : AsyncPolicy) (m : AsyncManager) (id : NodeId) (state : AsyncNodeState) (f : Future)
    → Every Fits m.groups
    → Every Fits (spawn_by policy m id state f).groups
unfolding spawn_by try_spawn spawn_debounced
spawn_by-Fits AsyncPolicy.latest_wins m id state f fits =
    try_spawn_after-Fits (cancel m id state) id f 0 (cancel-Near m id state fits)
spawn_by-Fits AsyncPolicy.queue m id state f fits = by_handle state.in_flight refl
  where
    by_handle :
        (in_flight : Option ℕ)
        → state.in_flight ≡ in_flight
        → Every Fits (spawn_by AsyncPolicy.queue m id state f).groups
    by_handle none q = rw (q, spawn_by) (try_spawn-Fits m id f fits)
    by_handle (some handle) q = rw (q, spawn_by) fits
spawn_by-Fits (AsyncPolicy.debounce duration) m id state f fits =
    try_spawn_after-Fits (cancel m id state) id f duration (cancel-Near m id state fits)

groups-state_entry :
    (m : AsyncManager) (id : NodeId) (policy : AsyncPolicy) (group_id : Option ℕ)
    → (state_entry m id policy group_id).1.groups ≡ m.groups
unfolding state_entry
groups-state_entry m id policy group_id = by_state (lookup id m.node_states) refl
  where
    by_state :
        (o : Option AsyncNodeState)
        → lookup id m.node_states ≡ o
        → (state_entry m id policy group_id).1.groups ≡ m.groups
    by_state none q = rw (q, state_entry) refl
    by_state (some state) q = rw (q, state_entry) refl

spawn-Fits :
    (m : AsyncManager) (id : NodeId) (f : Future) (policy : AsyncPolicy) (group_id : Option ℕ)
    → Every Fits m.groups
    → Every Fits (spawn m id f policy group_id).groups
unfolding spawn
spawn-Fits m id f policy group_id fits =
    let (state, m') = state_entry m id policy group_id in
    spawn_by-Fits state.policy m' id state f (rw (groups-state_entry m id policy group_id) fits)

spawn_next-Fits :
    (m : AsyncManager) (id : NodeId) (f : Option Future)
    → Every Fits m.groups
    → Every Fits (spawn_next m id f).groups
unfolding spawn_next
spawn_next-Fits m id none fits = fits
spawn_next-Fits m id (some f) fits = try_spawn-Fits m id f fits

process_completion-Fits :
    (m : AsyncManager) (id : NodeId)
    → Every Fits m.groups
    → Every Fits (process_completion m id).groups
unfolding process_completion
process_completion-Fits m id fits = by_state (lookup id m.node_states) refl
  where
    by_state :
        (o : Option AsyncNodeState)
        → lookup id m.node_states ≡ o
        → Every Fits (process_completion m id).groups
    by_state none q = rw (q, process_completion) fits
    by_state (some state) q =
        rw (q, process_completion) (spawn_next-Fits _ id _ (leave_group-Fits _ state.group_id fits))

completions-Fits :
    (ids : List NodeId) (m : AsyncManager)
    → Every Fits m.groups
    → Every Fits (foldl process_completion m ids).groups
completions-Fits [] m fits = fits
completions-Fits (id ∷ ids) m fits =
    completions-Fits ids (process_completion m id) (process_completion-Fits m id fits)

create_group-Fits :
    (m : AsyncManager) (max_concurrent : ℕ)
    → Every Fits m.groups
    → Every Fits (create_group m max_concurrent).0.groups
unfolding create_group
create_group-Fits m max_concurrent fits =
    Every-insert Fits m.groups m.next_group_id _ (λ j g at_j differ. fits j g at_j) (ground arith)

-- What happens to a manager: calls of its methods, and ends of tasks.
pub data Step (m : AsyncManager) : AsyncManager → Type 0 where
  created : (max_concurrent : ℕ) → Step m (create_group m max_concurrent).0
  spawned :
      (id : NodeId) (f : Future) (policy : AsyncPolicy) (group_id : Option ℕ)
      → Step m (spawn m id f policy group_id)
  ended : (task : Task) → Step m (complete m task)
  drained : Step m (drain_results m).0

-- The managers that a new one may become.
pub data Reachable : AsyncManager → Type 0 where
  start : Reachable new
  step : (m m' : AsyncManager) → Reachable m → Step m m' → Reachable m'

Step-Fits : (m m' : AsyncManager) → Step m m' → Every Fits m.groups → Every Fits m'.groups
unfolding complete drain_results
Step-Fits m _ (created max_concurrent) fits = create_group-Fits m max_concurrent fits
Step-Fits m _ (spawned id f policy group_id) fits = spawn-Fits m id f policy group_id fits
Step-Fits m _ (ended task) fits = fits
Step-Fits m _ drained fits =
    completions-Fits (map (λ r. r.0) m.result_rx) (record m { result_rx = [] }) fits

-- In every manager that a new one may become, the counter of each concurrency group is at most its
-- maximum, and work waits in the queue of a group only while its counter is at the maximum.
pub Reachable-Fits :
    (m : AsyncManager)
    → Reachable m
    → (gid : ℕ) (group : ConcurrencyGroupState) → lookup gid m.groups ≡ some group
    → (group.in_flight ≤ group.max_concurrent)
      × ((length group.queue ≡ 0) ⊎ (group.in_flight ≡ group.max_concurrent))
unfolding lookup
Reachable-Fits _ start gid group found = ground (arith, found)
Reachable-Fits _ (step m m' before now) gid group found =
    Step-Fits m m' now (Reachable-Fits m before) gid group found
