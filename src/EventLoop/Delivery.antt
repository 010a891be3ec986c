-- ===== src/EventLoop/Delivery.antt =====
-- src/event_loop.rs: how the loop works off a batch, and the way of a value from bridge to cycle.
use reactive_graph_experimen.Base.{
  ℕ, zero, suc, ◌≡◌, refl, sym, ap, ◌∙◌, subst, Bool, false, ◌||◌, inl, inr, List, [], ◌∷◌, ◌++◌,
  arith, Bool-cases,
}
use reactive_graph_experimen.NodeRef.{NodeId}
use reactive_graph_experimen.ValueStore.{AnyBox}
use reactive_graph_experimen.EventLoop.{
  Command, async_complete, LoopState, handle_command, begin_batch, end_batch,
}
use reactive_graph_experimen.EventLoop.System.{
  Phase, receiving, handling, System, send_command, notify_complete, loop_in, loop_step,
  notifies_complete, loops, Runs, stay, then_step, Reachable,
}
use reactive_graph_experimen.EventLoop.Commands.{
  wakes, any_wakes, any_wakes-append, sources, results, has_updates-handle_command,
  queues-handle_command, end_batch-queues,
}
use reactive_graph_experimen.EventLoop.Bridge.{Runs-trans, Runs-Reachable, relay_all, call}
use reactive_graph_experimen.EventLoop.Awake.{IsAwake, Covered, carry, Reachable-IsAwake}

module _ (order : List NodeId → List NodeId) where
  loop-Runs : (p : Phase) (s : System) → s.phase ≡ p → Runs order s (loop_in order p s)
  unfolding loop_step
  loop-Runs p s at = subst (λ q. Runs order s (loop_in order q s)) at (then_step (stay s) (loops s))

  -- The loop has run to the end of its batch and left nothing behind.
  record Worked (s t : System) : Type 0 where
    runs : Runs order s t
    source_values : sources t.state ≡ []
    async_results : results t.state ≡ []

  nothing_left :
      {queue : List (NodeId × AnyBox)} {b : Bool} → b ≡ false → Covered queue b → queue ≡ []
  nothing_left asleep (inl empty) = empty
  nothing_left asleep (inr awake) = absurd (ground (arith, asleep, awake))

  work_off_end :
      (s : System)
      → s.phase ≡ handling []
      → Covered (sources s.state) (s.state.has_updates || false)
      → Covered (results s.state) (s.state.has_updates || false)
      → Worked s (loop_in order (handling []) s)
  unfolding loop_in end_batch
  work_off_end s at cover cover' = elim (Bool-cases s.state.has_updates) [
    | inl u ↦
        let queues = end_batch-queues order s.state u in
        record {
          runs = loop-Runs (handling []) s at;
          source_values = queues.0;
          async_results = queues.1;
        }
    | inr u ↦ record {
      runs = loop-Runs (handling []) s at;
      source_values = rw (u, end_batch) (nothing_left (ground (arith, u)) cover);
      async_results = rw (u, end_batch) (nothing_left (ground (arith, u)) cover');
    }
  ]

  -- What waits after a command is still followed by a cycle.
  handled :
      (s : LoopState) (command : Command) (later : Bool)
      → Covered (sources s) (s.has_updates || (wakes command || later))
      → Covered (results s) (s.has_updates || (wakes command || later))
      → Covered
          (sources (handle_command s command))
          ((handle_command s command).has_updates || later)
        × Covered
            (results (handle_command s command))
            ((handle_command s command).has_updates || later)
  handled s command later cover cover' =
      let flag = has_updates-handle_command s command in
      elim (Bool-cases (wakes command)) [
        | inl w ↦ (inr (ground (arith, flag, w)), inr (ground (arith, flag, w)))
        | inr w ↦
            let same = queues-handle_command s command w in
            (
              carry same.0 (ground (arith, flag, w)) cover,
              carry same.1 (ground (arith, flag, w)) cover',
            )
      ]

  work_off :
      (commands : List Command) (s : System)
      → s.phase ≡ handling commands
      → Covered (sources s.state) (s.state.has_updates || any_wakes commands)
      → Covered (results s.state) (s.state.has_updates || any_wakes commands)
      → (t : System) × Worked s t
  unfolding loop_in
  work_off [] s at cover cover' = (loop_in order (handling []) s, work_off_end s at cover cover')
  work_off (command ∷ commands) s at cover cover' =
      let (sources_after, results_after) =
        handled s.state command (any_wakes commands) cover cover' in
      let (t, later) =
        work_off commands (loop_in order (handling (command ∷ commands)) s) refl sources_after
          results_after in
      (
        t,
        record {
          runs = Runs-trans order (loop-Runs (handling (command ∷ commands)) s at) later.runs;
          source_values = later.source_values;
          async_results = later.async_results;
        },
      )

  -- The loop takes a batch, if there is one, and works it off.
  take_batch :
      (s : System)
      → s.phase ≡ receiving
      → Covered (sources s.state) (any_wakes s.cmd_rx)
      → Covered (results s.state) (any_wakes s.cmd_rx)
      → (t : System) × Worked s t
  unfolding loop_in
  take_batch s at cover cover' = by_queue s.cmd_rx refl
    where
      by_queue : (commands : List Command) → s.cmd_rx ≡ commands → (t : System) × Worked s t
      by_queue [] q = (
        s,
        record {
          runs = stay s;
          source_values = nothing_left (ap any_wakes q) cover;
          async_results = nothing_left (ap any_wakes q) cover';
        },
      )
      by_queue (command ∷ commands) q =
          let s' : System = record s {
            state = begin_batch s.state;
            cmd_rx = [];
            phase = handling (command ∷ commands);
          } in
          let (t, later) =
            work_off (command ∷ commands) s' refl (carry refl (ap any_wakes (sym q)) cover)
              (carry refl (ap any_wakes (sym q)) cover') in
          (
            t,
            record {
              runs =
                  Runs-trans order
                    (subst (Runs order s) (rw (q, loop_in) refl) (loop-Runs receiving s at))
                    later.runs;
              source_values = later.source_values;
              async_results = later.async_results;
            },
          )

  -- A task sends the command that it owes.
  call_complete :
      (s : System)
      → s.phase ≡ receiving
      → s.forwarded ≡ false
      → IsAwake receiving s
      → (notify_complete s).phase ≡ receiving
        × (sources (notify_complete s).state ≡ sources s.state)
        × Covered (sources (notify_complete s).state) (any_wakes (notify_complete s).cmd_rx)
        × Covered (results (notify_complete s).state) (any_wakes (notify_complete s).cmd_rx)
  unfolding notify_complete send_command
  call_complete s at idle awake = by_count s.completing refl
    where
      Goal : Type 0
      Goal =
          (notify_complete s).phase ≡ receiving
          × (sources (notify_complete s).state ≡ sources s.state)
          × Covered (sources (notify_complete s).state) (any_wakes (notify_complete s).cmd_rx)
          × Covered (results (notify_complete s).state) (any_wakes (notify_complete s).cmd_rx)

      by_count : (n : ℕ) → s.completing ≡ n → Goal
      by_count zero q =
          rw (q, notify_complete)
            (
              at,
              refl,
              carry refl (ground (arith, idle)) awake.source_values,
              carry refl (ground (arith, q)) awake.async_results,
            )
      by_count (suc left) q =
          let added = any_wakes-append s.cmd_rx async_complete in
          rw (q, notify_complete)
            (at, refl, inr (ground (arith, added)), inr (ground (arith, added)))

  -- The values of the bridge's queue arrive in order behind those that arrived before, and then the
  -- queues of the values and of the results are emptied.
  pub record IsDelivered (s : System) : Type 0 where
    pub arrived : System
    pub processed : System
    pub runs : Runs order s arrived
    pub bridge_rx : arrived.state.bridge_rx ≡ []
    pub in_order : sources arrived.state ≡ sources s.state ++ s.state.bridge_rx
    pub runs_on : Runs order arrived processed
    pub source_values : sources processed.state ≡ []
    pub async_results : results processed.state ≡ []

  -- From every reachable state in which the loop waits for commands, the threads can go on, without
  -- help from outside, so that all values that were sent arrive in order and the loop then empties
  -- the queues of source values and of asynchronous results.
  pub Reachable-IsDelivered : (s : System) → Reachable order s → s.phase ≡ receiving → IsDelivered s
  Reachable-IsDelivered s reachable at =
      let (s1, called) = call order s in
      let (s2, relayed) = relay_all order s1.state.bridge_rx s1 called.idle refl in
      let runs = Runs-trans order called.runs relayed.runs in
      let at2 = relayed.waits ∙ called.waits ∙ at in
      let awake =
        subst (λ p. IsAwake p s2) at2 (Reachable-IsAwake (Runs-Reachable order reachable runs)) in
      let (at3, same, cover, cover') = call_complete s2 at2 relayed.idle awake in
      let (s4, worked) = take_batch (notify_complete s2) at3 cover cover' in
      record {
        arrived = s2;
        processed = s4;
        runs = runs;
        bridge_rx = relayed.emptied;
        in_order =
            relayed.arrived
            ∙ ap (λ q. q ++ s1.state.bridge_rx) called.same
            ∙ ap (λ q. sources s.state ++ q) called.bridge_rx;
        runs_on = Runs-trans order (then_step (stay s2) (notifies_complete s2)) worked.runs;
        source_values = worked.source_values;
        async_results = worked.async_results;
      }
