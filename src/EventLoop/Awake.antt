-- ===== src/EventLoop/Awake.antt =====
-- src/event_loop.rs: the invariant that ties the values that wait to the commands that wake the loop.
use reactive_graph_experimen.Base.{
  ℕ, zero, suc, ◌≡◌, refl, sym, ◌∙◌, subst, Bool, true, false, ◌||◌, ◌⊎◌, inl, inr, List, [], ◌∷◌,
  arith, Bool-cases,
}
use reactive_graph_experimen.NodeRef.{NodeId, id_eq}
use reactive_graph_experimen.ValueStore.{AnyBox}
use reactive_graph_experimen.AsyncCompute.{Task, complete}
use reactive_graph_experimen.EventLoop.{
  Command, source_ready, async_complete, loop_start, end_batch,
}
use reactive_graph_experimen.EventLoop.Commands.{
  wakes, any_wakes, any_wakes-append, sources, results, has_updates-handle_command,
  queues-handle_command, end_batch-queues,
}
use reactive_graph_experimen.EventLoop.System.{
  Phase, receiving, handling, ended, System, start, send_source, send_command, forward, notify,
  finish_task, notify_complete, loop_in, loop_step, Internal, forwards, notifies, notifies_complete,
  loops, Reachable, starts, internal, sends_source, sends_command, finishes_task,
}

-- The current batch ends in a cycle. A loop that has ended owes nothing.
abbrev pub in_hand : Phase → (has_updates : Bool) → Bool
in_hand receiving has_updates = false
in_hand (handling rest) has_updates = has_updates || any_wakes rest
in_hand ended has_updates = true

-- A queue is empty, or the loop will look at it.
abbrev pub Covered : List (NodeId × AnyBox) → Bool → Type 0
Covered queue awake = (queue ≡ []) ⊎ (awake ≡ true)

abbrev pub is_positive : ℕ → Bool
is_positive zero = false
is_positive (suc _) = true

-- A source value that waits has its `SourceReady`, and a result its `AsyncComplete`: sent by the
-- next step of the bridge or the task, in the channel, or in the current batch.
pub record IsAwake (p : Phase) (s : System) : Type 0 where
  pub source_values :
      Covered
        (sources s.state)
        (s.forwarded || (in_hand p s.state.has_updates || any_wakes s.cmd_rx))
  pub async_results :
      Covered
        (results s.state)
        (is_positive s.completing || (in_hand p s.state.has_updates || any_wakes s.cmd_rx))

start-IsAwake : IsAwake receiving start
unfolding loop_start
start-IsAwake = record { source_values = inl refl; async_results = inl refl }

send_command-IsAwake :
    (p : Phase) (s : System) (command : Command) → IsAwake p s → IsAwake p (send_command s command)
unfolding send_command
send_command-IsAwake p s command awake =
    let added = any_wakes-append s.cmd_rx command in
    let sources_before = awake.source_values in
    let results_before = awake.async_results in
    record {
      source_values = ground (arith, added, sources_before);
      async_results = ground (arith, added, results_before);
    }

-- A command that wakes the loop covers both queues.
send_waking-IsAwake :
    (p : Phase) (s : System) (command : Command)
    → wakes command ≡ true
    → IsAwake p (send_command s command)
unfolding send_command
send_waking-IsAwake p s command wakes_it =
    let added = any_wakes-append s.cmd_rx command in
    record {
      source_values = ground (arith, added, wakes_it);
      async_results = ground (arith, added, wakes_it);
    }

forward-IsAwake : (p : Phase) (s : System) → IsAwake p s → IsAwake p (forward s)
unfolding forward
forward-IsAwake p s awake = by_flag s.forwarded s.state.bridge_rx refl refl
  where
    by_flag :
        (b : Bool) (queue : List (NodeId × AnyBox))
        → s.forwarded ≡ b
        → s.state.bridge_rx ≡ queue
        → IsAwake p (forward s)
    by_flag true queue q r = rw (q, forward) awake
    by_flag false [] q r = rw (q, r, forward) awake
    by_flag false (message ∷ rest) q r =
        rw (q, r, forward)
          (record { source_values = inr refl; async_results = awake.async_results })

notify-IsAwake : (p : Phase) (s : System) → IsAwake p s → IsAwake p (notify s)
unfolding notify
notify-IsAwake p s awake = elim (Bool-cases s.forwarded) [
  | inl q ↦
      rw (q, notify) (send_waking-IsAwake p (record s { forwarded = false }) source_ready refl)
  | inr q ↦ rw (q, notify) awake
]

finish_task-IsAwake :
    (p : Phase) (s : System) (task : Task) → IsAwake p s → IsAwake p (finish_task s task)
unfolding finish_task complete
finish_task-IsAwake p s task awake = record {
  source_values = awake.source_values;
  async_results = ground arith;
}

notify_complete-IsAwake : (p : Phase) (s : System) → IsAwake p s → IsAwake p (notify_complete s)
unfolding notify_complete
notify_complete-IsAwake p s awake = by_count s.completing refl
  where
    by_count : (n : ℕ) → s.completing ≡ n → IsAwake p (notify_complete s)
    by_count zero q = rw (q, notify_complete) awake
    by_count (suc left) q =
        rw (q, notify_complete)
          (send_waking-IsAwake p (record s { completing = left }) async_complete refl)

send_source-IsAwake :
    (p : Phase) (s : System) (id : NodeId) (value : AnyBox)
    → IsAwake p s
    → IsAwake p (send_source s id value)
unfolding send_source
send_source-IsAwake p s id value awake = record {
  source_values = awake.source_values;
  async_results = awake.async_results;
}

pub carry :
    {queue queue' : List (NodeId × AnyBox)} {b b' : Bool}
    → queue' ≡ queue
    → b' ≡ b
    → Covered queue b
    → Covered queue' b'
carry same flag (inl empty) = inl (same ∙ empty)
carry same flag (inr awake) = inr (flag ∙ awake)

widen :
    {queue : List (NodeId × AnyBox)} {b b' : Bool}
    → (b ≡ true → b' ≡ true)
    → Covered queue b
    → Covered queue b'
widen more (inl empty) = inl empty
widen more (inr awake) = inr (more awake)

receive-IsAwake :
    (order : List NodeId → List NodeId) (s : System)
    → s.phase ≡ receiving
    → IsAwake receiving s
    → IsAwake (loop_in order receiving s).phase (loop_in order receiving s)
unfolding loop_in
receive-IsAwake order s at awake = by_queue s.cmd_rx refl
  where
    by_queue :
        (commands : List Command)
        → s.cmd_rx ≡ commands
        → IsAwake (loop_in order receiving s).phase (loop_in order receiving s)
    by_queue [] q = rw (q, loop_in) (subst (λ p. IsAwake p s) (sym at) awake)
    by_queue (command ∷ commands) q =
        rw (q, loop_in)
          (record {
            source_values = carry refl (ground (arith, q)) awake.source_values;
            async_results = carry refl (ground (arith, q)) awake.async_results;
          })

handle-IsAwake :
    (order : List NodeId → List NodeId) (command : Command) (rest : List Command) (s : System)
    → IsAwake (handling (command ∷ rest)) s
    → IsAwake (handling rest) (loop_in order (handling (command ∷ rest)) s)
unfolding loop_in
handle-IsAwake order command rest s awake =
    let flag = has_updates-handle_command s.state command in
    elim (Bool-cases (wakes command)) [
      | inl w ↦ record {
        source_values = ground (arith, flag, w);
        async_results = ground (arith, flag, w);
      }
      | inr w ↦
          let same = queues-handle_command s.state command w in
          record {
            source_values = carry same.0 (ground (arith, flag, w)) awake.source_values;
            async_results = carry same.1 (ground (arith, flag, w)) awake.async_results;
          }
    ]

end_batch-IsAwake :
    (order : List NodeId → List NodeId) (p : Phase) (s : System)
    → IsAwake (handling []) s
    → IsAwake p (loop_in order (handling []) s)
unfolding loop_in end_batch
end_batch-IsAwake order p s awake = elim (Bool-cases s.state.has_updates) [
  | inl u ↦
      let queues = end_batch-queues order s.state u in
      record { source_values = inl queues.0; async_results = inl queues.1 }
  | inr u ↦
      rw (u, end_batch)
        (record {
          source_values = widen (λ k. ground (arith, k, u)) awake.source_values;
          async_results = widen (λ k. ground (arith, k, u)) awake.async_results;
        })
]

-- A step of the loop, by where it stands.
loop_in-IsAwake :
    (order : List NodeId → List NodeId) (p : Phase) (s : System)
    → s.phase ≡ p
    → IsAwake p s
    → IsAwake (loop_in order p s).phase (loop_in order p s)
unfolding loop_in
loop_in-IsAwake order receiving s at awake = receive-IsAwake order s at awake
loop_in-IsAwake order (handling (command ∷ rest)) s at awake =
    handle-IsAwake order command rest s awake
loop_in-IsAwake order (handling []) s at awake = end_batch-IsAwake order _ s awake
loop_in-IsAwake order ended s at awake = subst (λ p. IsAwake p s) (sym at) awake

-- Only the loop moves from one place to another.
phase-forward : (s : System) → (forward s).phase ≡ s.phase
unfolding forward
phase-forward s = ground arith

phase-notify : (s : System) → (notify s).phase ≡ s.phase
unfolding notify send_command
phase-notify s = ground arith

phase-notify_complete : (s : System) → (notify_complete s).phase ≡ s.phase
unfolding notify_complete send_command
phase-notify_complete s = ground arith

Internal-IsAwake :
    {order : List NodeId → List NodeId} {s t : System}
    → Internal order s t
    → IsAwake s.phase s
    → IsAwake t.phase t
unfolding loop_step
Internal-IsAwake (forwards s) awake =
    subst (λ p. IsAwake p (forward s)) (sym (phase-forward s)) (forward-IsAwake s.phase s awake)
Internal-IsAwake (notifies s) awake =
    subst (λ p. IsAwake p (notify s)) (sym (phase-notify s)) (notify-IsAwake s.phase s awake)
Internal-IsAwake (notifies_complete s) awake =
    subst (λ p. IsAwake p (notify_complete s)) (sym (phase-notify_complete s))
      (notify_complete-IsAwake s.phase s awake)
Internal-IsAwake {order = order} (loops s) awake = loop_in-IsAwake order s.phase s refl awake

-- In every state that the threads can reach, in any interleaving, in which the loop has not ended: a
-- source value that has arrived is followed by a command that makes the loop run a cycle, or by the
-- bridge that is about to send one; and so is an asynchronous result by its task.
pub Reachable-IsAwake :
    {order : List NodeId → List NodeId} {s : System} → Reachable order s → IsAwake s.phase s
unfolding send_source send_command finish_task
Reachable-IsAwake starts = start-IsAwake
Reachable-IsAwake (internal r step) = Internal-IsAwake step (Reachable-IsAwake r)
Reachable-IsAwake (sends_source {s = s} r id value) =
    send_source-IsAwake s.phase s id value (Reachable-IsAwake r)
Reachable-IsAwake (sends_command {s = s} r command) =
    send_command-IsAwake s.phase s command (Reachable-IsAwake r)
Reachable-IsAwake (finishes_task {s = s} r task) =
    finish_task-IsAwake s.phase s task (Reachable-IsAwake r)
