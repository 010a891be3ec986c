-- ===== src/AsyncCompute/Received.antt =====
-- The channel of results: only `complete` adds to it, only `drain_results` takes from it.
use reactive_graph_experimen.Base.{
  ℕ, zero, suc, ◌≡◌, refl, ◌∙◌, true, false, Option, none, some, List, [], ◌∷◌, foldl, map, lookup,
  insert, nat_eq, arith, ltb,
}
use reactive_graph_experimen.NodeRef.{NodeId, id_eq}
use reactive_graph_experimen.ValueStore.{AnyBox}
use reactive_graph_experimen.Graph.{AsyncPolicy, Future}
use reactive_graph_experimen.AsyncCompute.{
  AsyncManager, AsyncNodeState, ConcurrencyGroupState, QueuedWork, try_spawn_after, try_spawn,
  spawn_debounced, spawn_after, spawn_raw, admit, enqueue, cancel, abort, release_group, spawn_by,
  spawn, state_entry, spawn_next, take_work, drain_group, queue_length, try_spawn_from_group_queue,
  leave_group, pop_pending, process_completion, drain_results,
}

abbrev pub received : AsyncManager → List (NodeId × AnyBox)
received m = m.result_rx

received-try_spawn_after :
    (m : AsyncManager) (id : NodeId) (future : Future) (delay : ℕ)
    → received (try_spawn_after m id future delay) ≡ received m
unfolding try_spawn_after spawn_after enqueue admit
received-try_spawn_after m id future delay = ground arith

received-release_group :
    (m : AsyncManager) (group_id : Option ℕ) → received (release_group m group_id) ≡ received m
unfolding release_group
received-release_group m group_id = ground arith

received-cancel :
    (m : AsyncManager) (id : NodeId) (state : AsyncNodeState)
    → received (cancel m id state) ≡ received m
unfolding cancel
received-cancel m id state = by_handle state.in_flight refl
  where
    by_handle : (o : Option ℕ) → state.in_flight ≡ o → received (cancel m id state) ≡ received m
    by_handle none q = rw (q, cancel) refl
    by_handle (some handle) q =
        rw (q, cancel)
          (received-release_group
            (record m {
              runtime = abort m.runtime handle;
              node_states = insert id (record state { in_flight = none }) m.node_states;
            })
            state.group_id)

received-spawn_by :
    (policy : AsyncPolicy) (m : AsyncManager) (id : NodeId) (state : AsyncNodeState)
    (future : Future)
    → received (spawn_by policy m id state future) ≡ received m
unfolding spawn_by try_spawn spawn_debounced
received-spawn_by AsyncPolicy.latest_wins m id state future =
    received-try_spawn_after (cancel m id state) id future 0 ∙ received-cancel m id state
received-spawn_by AsyncPolicy.queue m id state future =
    let k = received-try_spawn_after m id future 0 in ground (arith, k)
received-spawn_by (AsyncPolicy.debounce duration) m id state future =
    received-try_spawn_after (cancel m id state) id future duration ∙ received-cancel m id state

pub received-spawn :
    (m : AsyncManager) (id : NodeId) (future : Future) (policy : AsyncPolicy) (group_id : Option ℕ)
    → received (spawn m id future policy group_id) ≡ received m
unfolding spawn state_entry
received-spawn m id future policy group_id =
    let (state, m') = state_entry m id policy group_id in
    received-spawn_by state.policy m' id state future ∙ ground arith

received-drain_group :
    (fuel : ℕ) (m : AsyncManager) (gid : ℕ) → received (drain_group fuel m gid) ≡ received m
unfolding drain_group spawn_raw spawn_after take_work
received-drain_group zero m gid = refl
received-drain_group (suc fuel) m gid =
    by_group (lookup gid m.groups) refl (λ m'. received-drain_group fuel m' gid)
  where
    by_group :
        (o : Option ConcurrencyGroupState)
        → lookup gid m.groups ≡ o
        → ((m' : AsyncManager) → received (drain_group fuel m' gid) ≡ received m')
        → received (drain_group (suc fuel) m gid) ≡ received m
    by_group none q later = rw (q, drain_group) refl
    by_group (some group) q later = rw (q, drain_group) (by_queue group.queue)
      where
        by_queue :
            (works : List QueuedWork)
            → received (elim works [
              | [] ↦ m
              | work ∷ rest ↦ elim (ltb group.in_flight group.max_concurrent) [
                | false ↦ m
                | true ↦
                    drain_group fuel
                      (spawn_raw (take_work m gid group rest) work.node_id work.future)
                      gid
              ]
            ])
              ≡ received m
        by_queue [] = refl
        by_queue (work ∷ rest) =
            let k = later (spawn_raw (take_work m gid group rest) work.node_id work.future) in
            ground (arith, k)

received-leave_group :
    (m : AsyncManager) (group_id : Option ℕ) → received (leave_group m group_id) ≡ received m
unfolding leave_group try_spawn_from_group_queue
received-leave_group m none = refl
received-leave_group m (some gid) =
    received-drain_group (queue_length (release_group m (some gid)) gid)
      (release_group m (some gid)) gid
    ∙ received-release_group m (some gid)

received-spawn_next :
    (m : AsyncManager) (id : NodeId) (next : Option Future)
    → received (spawn_next m id next) ≡ received m
unfolding spawn_next try_spawn
received-spawn_next m id none = refl
received-spawn_next m id (some future) = received-try_spawn_after m id future 0

received-process_completion :
    (m : AsyncManager) (id : NodeId) → received (process_completion m id) ≡ received m
unfolding process_completion
received-process_completion m id = by_state (lookup id m.node_states) refl
  where
    by_state :
        (o : Option AsyncNodeState)
        → lookup id m.node_states ≡ o
        → received (process_completion m id) ≡ received m
    by_state none q = rw (q, process_completion) refl
    by_state (some state) q =
        let m' : AsyncManager = record m {
          node_states =
              insert id (record state { in_flight = none; pending = (pop_pending state).1 })
                m.node_states;
        } in
        rw (q, process_completion)
          (received-spawn_next (leave_group m' state.group_id) id (pop_pending state).0
            ∙ received-leave_group m' state.group_id)

received-process_completions :
    (ids : List NodeId) (m : AsyncManager) → received (foldl process_completion m ids) ≡ received m
received-process_completions [] m = refl
received-process_completions (id ∷ ids) m =
    received-process_completions ids (process_completion m id) ∙ received-process_completion m id

-- After `drain_results` the channel of results is empty.
pub received-drain_results : (m : AsyncManager) → received (drain_results m).0 ≡ []
unfolding drain_results
received-drain_results m =
    received-process_completions (map (λ r. r.0) m.result_rx) (record m { result_rx = [] })
