-- ===== src/EventLoop/System.antt =====
-- The threads of src/event_loop.rs and the channels between them, as a step relation: the loop, the
-- bridge, the tasks of the runtime, the sources, and the holders of handles. A step is one send, one
-- receive or the work of the loop on one command. The cycle at the end of a batch is one step: it
-- takes from the channels before it does anything else, so what arrives during it is as good as
-- what arrives after it. Nobody reads the channels after the loop has ended.
use reactive_graph_experimen.Base.{
  ℕ, zero, suc, ◌+◌, Bool, true, false, if◌then◌else◌, List, [], ◌∷◌, ◌++◌,
}
use reactive_graph_experimen.NodeRef.{NodeId}
use reactive_graph_experimen.ValueStore.{AnyBox}
use reactive_graph_experimen.AsyncCompute.{Task, complete}
use reactive_graph_experimen.EventLoop.{
  Command, source_ready, async_complete, LoopState, loop_start, handle_command, begin_batch,
  end_batch,
}

-- Where the loop stands: at `cmd_rx.recv()`, in the `for` loop with the rest of the batch, or after
-- its `break`.
pub data Phase : Type 0 where
  receiving : Phase
  handling : (rest : List Command) → Phase
  ended : Phase

-- `forwarded`: the bridge has made the first of its two sends for a value, and not the second.
-- `completing`: how many tasks have sent their result and not yet `AsyncComplete`.
pub record System : Type 0 where
  pub state : LoopState
  pub forwarded : Bool
  pub completing : ℕ
  pub cmd_rx : List Command
  pub phase : Phase

-- `start_engine`
abbrev pub start : System
start = record {
  state = loop_start;
  forwarded = false;
  completing = 0;
  cmd_rx = [];
  phase = receiving;
}

-- `Sender::send` of a source: the graph's sender is the bridge's.
unfoldable pub send_source : System → NodeId → AnyBox → System
send_source s id value = record s {
  state = record s.state { bridge_rx = s.state.bridge_rx ++ (id, value) ∷ [] };
}

-- `self.tx.send(..)` of an `EngineHandle`.
unfoldable pub send_command : System → Command → System
send_command s command = record s { cmd_rx = s.cmd_rx ++ command ∷ [] }

-- `bridge_rx.recv()` and `fwd.send(msg)`
unfoldable pub forward : System → System
forward s = elim s.forwarded [
  | true ↦ s
  | false ↦ elim s.state.bridge_rx [
    | [] ↦ s
    | message ∷ rest ↦ record s {
      state = record s.state {
        engine = record s.state.engine {
          graph = record s.state.engine.graph {
            source_rx = s.state.engine.graph.source_rx ++ message ∷ [];
          };
        };
        bridge_rx = rest;
      };
      forwarded = true;
    }
  ]
]

-- `notify.send(Command::SourceReady)`
unfoldable pub notify : System → System
unfolding send_command
notify s = elim s.forwarded [
  | false ↦ s
  | true ↦ send_command (record s { forwarded = false }) source_ready
]

-- A task ends and sends its result. Every task was spawned after `set_notifier`, so it has one.
unfoldable pub finish_task : System → Task → System
unfolding complete
finish_task s task = record s {
  state = record s.state {
    engine = record s.state.engine { async_manager = complete s.state.engine.async_manager task };
  };
  completing = s.completing + 1;
}

-- `n.send(Command::AsyncComplete)`
unfoldable pub notify_complete : System → System
unfolding send_command
notify_complete s = elim s.completing [
  | zero ↦ s
  | suc left ↦ send_command (record s { completing = left }) async_complete
]

-- The loop, by where it stands: `recv` and the `try_recv` loop take all commands that are there; the
-- body of the `for` loop; the end of the batch.
unfoldable pub loop_in : (List NodeId → List NodeId) → Phase → System → System
unfolding handle_command end_batch
loop_in order receiving s = elim s.cmd_rx [
  | [] ↦ s
  | command ∷ commands ↦ record s {
    state = begin_batch s.state;
    cmd_rx = [];
    phase = handling (command ∷ commands);
  }
]
loop_in order (handling (command ∷ rest)) s = record s {
  state = handle_command s.state command;
  phase = handling rest;
}
loop_in order (handling []) s = record s {
  state = end_batch order s.state;
  phase = if s.state.should_shutdown then ended else receiving;
}
loop_in order ended s = s

unfoldable pub loop_step : (List NodeId → List NodeId) → System → System
unfolding loop_in
loop_step order s = loop_in order s.phase s

-- The steps that need nobody outside: those of the loop, the bridge, and tasks that have ended.
pub data Internal (order : List NodeId → List NodeId) : System → System → Type 0 where
  forwards : (s : System) → Internal order s (forward s)
  notifies : (s : System) → Internal order s (notify s)
  notifies_complete : (s : System) → Internal order s (notify_complete s)
  loops : (s : System) → Internal order s (loop_step order s)

pub data Runs (order : List NodeId → List NodeId) : System → System → Type 0 where
  stay : (s : System) → Runs order s s
  then_step : {s t u : System} → Runs order s t → Internal order t u → Runs order s u

-- The states that the threads can reach, in any interleaving.
pub data Reachable (order : List NodeId → List NodeId) : System → Type 0 where
  starts : Reachable order start
  internal : {s t : System} → Reachable order s → Internal order s t → Reachable order t
  sends_source :
      {s : System}
      → Reachable order s
      → (id : NodeId) (value : AnyBox) → Reachable order (send_source s id value)
  sends_command :
      {s : System}
      → Reachable order s
      → (command : Command) → Reachable order (send_command s command)
  finishes_task :
      {s : System} → Reachable order s → (task : Task) → Reachable order (finish_task s task)
