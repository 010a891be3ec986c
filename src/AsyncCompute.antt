-- ===== src/AsyncCompute.antt =====
-- src/async_compute.rs: the manager of asynchronous computations. The tokio runtime is the list of
-- the tasks that it runs; that a task ends is a step of the environment, `complete`. A handle of a
-- task is a number, and `abort` of a task that has ended does nothing. The optional notifier is
-- whether there is one: each completed task then sends one `AsyncComplete`.

pub mod Capacity
pub mod Reachable
pub mod Received
pub mod Waiting
use reactive_graph_experimen.Base.{
  ℕ, zero, suc, ◌+◌, ◌-◌, Bool, true, false, not, if◌then◌else◌, Option, none, some, List, [], ◌∷◌,
  ◌++◌, foldl, map, length, retain, leb, ltb, nat_beq, Map, lookup, insert, nat_eq,
}
use reactive_graph_experimen.NodeRef.{NodeId, id_eq}
use reactive_graph_experimen.ValueStore.{AnyBox}
use reactive_graph_experimen.Graph.{AsyncPolicy, Future}

-- `ConcurrencyGroupHandle`
pub record ConcurrencyGroupHandle : Type 0 where
  pub id : ℕ

pub record AsyncNodeState : Type 0 where
  pub policy : AsyncPolicy
  pub in_flight : Option ℕ
  pub group_id : Option ℕ
  pub pending : List Future

pub record QueuedWork : Type 0 where
  pub node_id : NodeId
  pub future : Future

pub record ConcurrencyGroupState : Type 0 where
  pub max_concurrent : ℕ
  pub in_flight : ℕ
  pub queue : List QueuedWork

-- A spawned task: it sleeps for `delay`, awaits the future and sends the result.
pub record Task : Type 0 where
  pub handle : ℕ
  pub node_id : NodeId
  pub delay : ℕ
  pub future : Future

pub record Runtime : Type 0 where
  pub tasks : List Task
  pub next_handle : ℕ

pub record AsyncManager : Type 0 where
  pub runtime : Runtime
  pub result_rx : List (NodeId × AnyBox)
  pub node_states : Map NodeId AsyncNodeState
  pub groups : Map ℕ ConcurrencyGroupState
  pub next_group_id : ℕ
  pub notifier : Bool

-- `AsyncManager::new`
abbrev pub new : AsyncManager
new = record {
  runtime = record { tasks = []; next_handle = 0 };
  result_rx = [];
  node_states = [];
  groups = [];
  next_group_id = 0;
  notifier = false;
}

unfoldable pub set_notifier : AsyncManager → AsyncManager
set_notifier m = record m { notifier = true }

unfoldable pub create_group : AsyncManager → ℕ → AsyncManager × ConcurrencyGroupHandle
create_group m max_concurrent = (
  record m {
    next_group_id = m.next_group_id + 1;
    groups =
        insert m.next_group_id
          (record { max_concurrent = max_concurrent; in_flight = 0; queue = [] }) m.groups;
  },
  record { id = m.next_group_id },
)

-- `handle.abort()`
unfoldable pub abort : Runtime → ℕ → Runtime
abort r handle = record r { tasks = retain (λ t. not (nat_beq t.handle handle)) r.tasks }

-- `self.runtime.spawn(async move { sleep(duration).await; .. })`, and `state.in_flight = Some(handle)`.
unfoldable pub spawn_after : AsyncManager → NodeId → Future → ℕ → AsyncManager
spawn_after m node_id future delay = record m {
  runtime = record {
    tasks =
        m.runtime.tasks
        ++ record {
          handle = m.runtime.next_handle;
          node_id = node_id;
          delay = delay;
          future = future;
        }
          ∷ [];
    next_handle = m.runtime.next_handle + 1;
  };
  node_states = elim (lookup node_id m.node_states) [
    | none ↦ m.node_states
    | some state ↦
        insert node_id (record state { in_flight = some m.runtime.next_handle }) m.node_states
  ];
}

unfoldable pub spawn_raw : AsyncManager → NodeId → Future → AsyncManager
unfolding spawn_after
spawn_raw m node_id future = spawn_after m node_id future 0

-- `self.node_states.get(&node_id).and_then(|s| s.group_id)`
unfoldable pub group_of : AsyncManager → NodeId → Option ℕ
group_of m node_id = elim (lookup node_id m.node_states) [ none ↦ none | some s ↦ s.group_id ]

-- The group of a node, if the node is in one and the group exists.
unfoldable pub find_group : AsyncManager → Option ℕ → Option (ℕ × ConcurrencyGroupState)
find_group m none = none
find_group m (some gid) = elim (lookup gid m.groups) [ none ↦ none | some g ↦ some (gid, g) ]

-- `group.queue.push_back(QueuedWork { .. })`
unfoldable pub enqueue : AsyncManager → ℕ → ConcurrencyGroupState → NodeId → Future → AsyncManager
enqueue m gid group node_id future = record m {
  groups =
      insert gid
        (record group { queue = group.queue ++ record { node_id = node_id; future = future } ∷ [] })
        m.groups;
}

-- `group.in_flight += 1`
unfoldable pub admit : AsyncManager → ℕ → ConcurrencyGroupState → AsyncManager
admit m gid group = record m {
  groups = insert gid (record group { in_flight = group.in_flight + 1 }) m.groups;
}

-- `try_spawn` and `spawn_debounced`: they differ in the delay of the task alone.
unfoldable pub try_spawn_after : AsyncManager → NodeId → Future → ℕ → AsyncManager
unfolding group_of find_group enqueue admit spawn_after
try_spawn_after m node_id future delay = elim (find_group m (group_of m node_id)) [
  | none ↦ spawn_after m node_id future delay
  | some (gid, group) ↦
      if leb group.max_concurrent group.in_flight
      then enqueue m gid group node_id future
      else spawn_after (admit m gid group) node_id future delay
]

unfoldable pub try_spawn : AsyncManager → NodeId → Future → AsyncManager
unfolding try_spawn_after
try_spawn m node_id future = try_spawn_after m node_id future 0

unfoldable pub spawn_debounced : AsyncManager → NodeId → Future → ℕ → AsyncManager
unfolding try_spawn_after
spawn_debounced m node_id future duration = try_spawn_after m node_id future duration

-- `group.in_flight = group.in_flight.saturating_sub(1)`, for the group of a node if there is one.
unfoldable pub release_group : AsyncManager → Option ℕ → AsyncManager
unfolding find_group
release_group m group_id = elim (find_group m group_id) [
  | none ↦ m
  | some (gid, group) ↦ record m {
    groups = insert gid (record group { in_flight = group.in_flight - 1 }) m.groups;
  }
]

-- `if let Some(handle) = state.in_flight.take() { handle.abort(); .. }`
unfoldable pub cancel : AsyncManager → NodeId → AsyncNodeState → AsyncManager
unfolding abort release_group
cancel m node_id state = elim state.in_flight [
  | none ↦ m
  | some handle ↦
      release_group
        (record m {
          runtime = abort m.runtime handle;
          node_states = insert node_id (record state { in_flight = none }) m.node_states;
        })
        state.group_id
]

-- `self.node_states.entry(node_id).or_insert_with(..)`: the state, and the manager that holds it.
unfoldable pub state_entry :
    AsyncManager → NodeId → AsyncPolicy → Option ℕ → AsyncNodeState × AsyncManager
state_entry m node_id policy group_id = elim (lookup node_id m.node_states) [
  | some state ↦ (state, m)
  | none ↦
      let fresh : AsyncNodeState = record {
        policy = policy;
        in_flight = none;
        group_id = group_id;
        pending = [];
      } in
      (fresh, record m { node_states = insert node_id fresh m.node_states })
]

-- `match &state.policy { .. }`
unfoldable pub spawn_by :
    AsyncPolicy → AsyncManager → NodeId → AsyncNodeState → Future → AsyncManager
unfolding cancel try_spawn spawn_debounced
spawn_by AsyncPolicy.latest_wins m node_id state future =
    try_spawn (cancel m node_id state) node_id future
spawn_by AsyncPolicy.queue m node_id state future = elim state.in_flight [
  | some _ ↦ record m {
    node_states =
        insert node_id (record state { pending = state.pending ++ future ∷ [] }) m.node_states;
  }
  | none ↦ try_spawn m node_id future
]
spawn_by (AsyncPolicy.debounce duration) m node_id state future =
    spawn_debounced (cancel m node_id state) node_id future duration

unfoldable pub spawn : AsyncManager → NodeId → Future → AsyncPolicy → Option ℕ → AsyncManager
unfolding state_entry spawn_by
spawn m node_id future policy group_id =
    let (state, m') = state_entry m node_id policy group_id in
    spawn_by state.policy m' node_id state future

-- `let work = group.queue.pop_front(); group.in_flight += 1`, for the rest of the queue.
unfoldable pub take_work : AsyncManager → ℕ → ConcurrencyGroupState → List QueuedWork → AsyncManager
take_work m gid group rest = record m {
  groups = insert gid (record group { in_flight = group.in_flight + 1; queue = rest }) m.groups;
}

-- The loop of `try_spawn_from_group_queue`, on fuel: each round takes one entry off the queue.
unfoldable pub drain_group : ℕ → AsyncManager → ℕ → AsyncManager
unfolding take_work spawn_raw
drain_group zero m gid = m
drain_group (suc fuel) m gid = elim (lookup gid m.groups) [
  | none ↦ m
  | some group ↦ elim group.queue [
    | [] ↦ m
    | work ∷ rest ↦ elim (ltb group.in_flight group.max_concurrent) [
      | false ↦ m
      | true ↦
          drain_group fuel (spawn_raw (take_work m gid group rest) work.node_id work.future) gid
    ]
  ]
]

-- The number of entries of a group's queue.
unfoldable pub queue_length : AsyncManager → ℕ → ℕ
queue_length m gid = elim (lookup gid m.groups) [ none ↦ 0 | some group ↦ length group.queue ]

unfoldable pub try_spawn_from_group_queue : AsyncManager → ℕ → AsyncManager
unfolding drain_group queue_length
try_spawn_from_group_queue m gid = drain_group (queue_length m gid) m gid

-- `state.pending.pop_front()` under the `Queue` policy: the next future, and those that stay.
unfoldable pub pop_pending : AsyncNodeState → Option Future × List Future
pop_pending state = elim state.policy [
  | AsyncPolicy.queue ↦ elim state.pending [ [] ↦ (none, []) | f ∷ rest ↦ (some f, rest) ]
  | _ ↦ (none, state.pending)
]

-- `if let Some(gid) = group_id { .. }` of `process_completion`.
unfoldable pub leave_group : AsyncManager → Option ℕ → AsyncManager
unfolding release_group try_spawn_from_group_queue
leave_group m none = m
leave_group m (some gid) = try_spawn_from_group_queue (release_group m (some gid)) gid

-- `if let Some(future) = pending_future { .. }` of `process_completion`.
unfoldable pub spawn_next : AsyncManager → NodeId → Option Future → AsyncManager
unfolding try_spawn
spawn_next m id none = m
spawn_next m id (some future) = try_spawn m id future

unfoldable pub process_completion : AsyncManager → NodeId → AsyncManager
unfolding pop_pending leave_group spawn_next
process_completion m completed_id = elim (lookup completed_id m.node_states) [
  | none ↦ m
  | some state ↦
      let (next, rest) = pop_pending state in
      let m' : AsyncManager = record m {
        node_states =
            insert completed_id (record state { in_flight = none; pending = rest }) m.node_states;
      } in
      spawn_next (leave_group m' state.group_id) completed_id next
]

unfoldable pub drain_results : AsyncManager → AsyncManager × List (NodeId × AnyBox)
unfolding process_completion
drain_results m = (
  foldl process_completion (record m { result_rx = [] }) (map (λ r. r.0) m.result_rx),
  m.result_rx,
)

unfoldable pub group_in_flight : AsyncManager → ConcurrencyGroupHandle → ℕ
group_in_flight m handle = elim (lookup handle.id m.groups) [ none ↦ 0 | some g ↦ g.in_flight ]

-- A task of the runtime ends: its result is sent.
unfoldable pub complete : AsyncManager → Task → AsyncManager
unfolding abort
complete m task = record m {
  runtime = abort m.runtime task.handle;
  result_rx = m.result_rx ++ (task.node_id, task.future.output) ∷ [];
}
