-- ===== src/AsyncCompute/Waiting.antt =====
-- Work that waits in the queue of a full concurrency group.
use reactive_graph_experimen.Base.{
  ℕ, ◌≤◌, ◌≡◌, refl, ◌∙◌, ap, true, Option, none, some, List, [], ◌∷◌, ◌++◌, append_assoc, map, leb,
  lookup, lookup-insert, arith, eq_refl, nat_eq,
}
use reactive_graph_experimen.NodeRef.{NodeId, id_eq}
use reactive_graph_experimen.Graph.{AsyncPolicy, Future}
use reactive_graph_experimen.AsyncCompute.{
  AsyncManager, AsyncNodeState, ConcurrencyGroupState, try_spawn_after, try_spawn, spawn_debounced,
  group_of, find_group, enqueue, cancel, spawn_by, spawn, state_entry,
}

-- A node that the manager knows, without a running task, in a group that is full.
pub record IsHeld (m : AsyncManager) (id : NodeId) (gid : ℕ) : Type 0 where
  pub state : AsyncNodeState
  pub group : ConcurrencyGroupState
  pub known : lookup id m.node_states ≡ some state
  pub idle : state.in_flight ≡ none
  pub in_group : state.group_id ≡ some gid
  pub found : lookup gid m.groups ≡ some group
  pub full : group.max_concurrent ≤ group.in_flight

-- The group with more work behind its queue.
abbrev pub with_work : ConcurrencyGroupState → NodeId → List Future → ConcurrencyGroupState
with_work group id fs = record group {
  queue = group.queue ++ map (λ f. record { node_id = id; future = f }) fs;
}

module _ (m : AsyncManager) (id : NodeId) (gid : ℕ) (held : IsHeld m id gid) (f : Future) where
  open held use {state, group, known, idle, in_group, found, full}

  try_spawn_after-held : (delay : ℕ) → try_spawn_after m id f delay ≡ enqueue m gid group id f
  unfolding try_spawn_after
  try_spawn_after-held delay = rw (group_of_lem, found_lem, try_spawn_after, full_lem) refl
    where
      full_lem : leb group.max_concurrent group.in_flight ≡ true
      full_lem = ground (arith, full)

      group_of_lem : group_of m id ≡ some gid
      group_of_lem = rw (known, group_of) in_group

      found_lem : find_group m (some gid) ≡ some (gid, group)
      found_lem = rw (found, find_group) refl

  spawn_by-held : (policy : AsyncPolicy) → spawn_by policy m id state f ≡ enqueue m gid group id f
  unfolding spawn_by try_spawn spawn_debounced
  spawn_by-held AsyncPolicy.latest_wins = rw (idle, cancel) (try_spawn_after-held 0)
  spawn_by-held AsyncPolicy.queue = rw (idle, spawn_by) (try_spawn_after-held 0)
  spawn_by-held (AsyncPolicy.debounce duration) = rw (idle, cancel) (try_spawn_after-held duration)

  spawn-held :
      (policy : AsyncPolicy) (group_id : Option ℕ)
      → spawn m id f policy group_id ≡ enqueue m gid group id f
  unfolding spawn
  spawn-held policy group_id = rw (known, state_entry, spawn) (spawn_by-held state.policy)

  known_again : lookup id (enqueue m gid group id f).node_states ≡ some state
  unfolding enqueue
  known_again = known

  found_again : lookup gid (enqueue m gid group id f).groups ≡ some (with_work group id (f ∷ []))
  unfolding enqueue
  found_again =
      ground (arith, eq_refl gid, lookup-insert gid gid (with_work group id (f ∷ [])) m.groups)

  -- The group stays full, so the node is held again.
  abbrev held_again : IsHeld (enqueue m gid group id f) id gid
  held_again = record {
    state = state;
    group = with_work group id (f ∷ []);
    known = known_again;
    idle = idle;
    in_group = in_group;
    found = found_again;
    full = full;
  }

-- A node that the manager knows, that has no running task and belongs to a group that is full, is asked
-- for twice: under every policy both works wait behind the queue of the group, the older one first, and
-- the second call neither replaces nor holds back the first.
pub spawn-spawn_held :
    (m : AsyncManager) (id : NodeId) (gid : ℕ) (held : IsHeld m id gid) (f f' : Future)
    (policy : AsyncPolicy) (group_id : Option ℕ)
    → lookup gid (spawn (spawn m id f policy group_id) id f' policy group_id).groups
      ≡ some (with_work held.group id (f ∷ f' ∷ []))
spawn-spawn_held m id gid held f f' policy group_id =
    rw (spawn-held m id gid held f policy group_id) (
      rw (spawn-held _ id gid (held_again m id gid held f) f' policy group_id) (
        found_again _ id gid (held_again m id gid held f) f'
        ∙ ap (λ queue. some (record held.group { queue = queue }))
            (append_assoc held.group.queue (record { node_id = id; future = f } ∷ [])
              (record { node_id = id; future = f' } ∷ []))))
