-- ===== src/EventLoop/Sound.antt =====
-- src/event_loop.rs: the engine of a loop that has removed nothing so far.
use reactive_graph_experimen.Base.{
  ℕ, zero, suc, ◌≡◌, refl, sym, ap, subst, Bool, true, false, if◌then◌else◌, ◌∙◌, inl, inr, List,
  [], ◌∷◌, arith, Bool-cases,
}
use reactive_graph_experimen.NodeRef.{NodeId, id_eq}
use reactive_graph_experimen.ValueStore.{AnyBox}
use reactive_graph_experimen.AsyncCompute.{Task}
use reactive_graph_experimen.Engine.Sound.{IsSound, new-IsSound, kept-IsSound, kept-IsSound}
use reactive_graph_experimen.EventLoop.{Command, async_complete, source_ready, loop_start}
use reactive_graph_experimen.EventLoop.System.{
  Phase, receiving, handling, ended, System, start, send_source, send_command, forward, notify,
  finish_task, notify_complete, loop_in, loop_step, Internal, forwards, notifies, notifies_complete,
  loops,
}
use reactive_graph_experimen.EventLoop.Additive.{
  is_additive, all_additive, all_additive-snoc, handle_command-IsSound, end_batch-IsSound,
}

-- The states that the threads can reach, in any interleaving, if all commands that are sent are additive.
pub data Fed (order : List NodeId → List NodeId) : System → Type 0 where
  fed_start : Fed order start
  fed_internal : {s t : System} → Fed order s → Internal order s t → Fed order t
  fed_source :
      {s : System}
      → Fed order s
      → (id : NodeId) (value : AnyBox) → Fed order (send_source s id value)
  fed_command :
      {s : System}
      → Fed order s
      → (command : Command) → is_additive command ≡ true
      → Fed order (send_command s command)
  fed_task : {s : System} → Fed order s → (task : Task) → Fed order (finish_task s task)

-- What is left of the batch.
abbrev batch : Phase → List Command
batch receiving = []
batch (handling rest) = rest
batch ended = []

record IsFed (p : Phase) (s : System) : Type 0 where
  sound : IsSound s.state.engine
  queued : all_additive s.cmd_rx ≡ true
  in_batch : all_additive (batch p) ≡ true

-- Other queues of the engine make no difference.
send_command-IsFed :
    (p : Phase) (s : System) (command : Command)
    → is_additive command ≡ true
    → IsFed p s
    → IsFed p (send_command s command)
unfolding send_command
send_command-IsFed p s command h fed = record {
  sound = fed.sound;
  queued = all_additive-snoc s.cmd_rx command fed.queued h;
  in_batch = fed.in_batch;
}

forward-IsFed : (s : System) → IsFed s.phase s → IsFed (forward s).phase (forward s)
unfolding forward
forward-IsFed s fed = by_flag s.forwarded s.state.bridge_rx refl refl
  where
    by_flag :
        (b : Bool) (queue : List (NodeId × AnyBox))
        → s.forwarded ≡ b
        → s.state.bridge_rx ≡ queue
        → IsFed (forward s).phase (forward s)
    by_flag true queue q r = rw (q, forward) fed
    by_flag false [] q r = rw (q, r, forward) fed
    by_flag false (message ∷ rest) q r =
        rw (q, r, forward)
          (record {
            sound = kept-IsSound refl refl refl refl fed.sound;
            queued = fed.queued;
            in_batch = fed.in_batch;
          })

notify-IsFed : (s : System) → IsFed s.phase s → IsFed (notify s).phase (notify s)
unfolding notify is_additive
notify-IsFed s fed = elim (Bool-cases s.forwarded) [
  | inl q ↦
      rw (q, notify)
        (send_command-IsFed s.phase (record s { forwarded = false }) source_ready refl
          (record { sound = fed.sound; queued = fed.queued; in_batch = fed.in_batch }))
  | inr q ↦ rw (q, notify) fed
]

notify_complete-IsFed :
    (s : System) → IsFed s.phase s → IsFed (notify_complete s).phase (notify_complete s)
unfolding notify_complete is_additive
notify_complete-IsFed s fed = by_count s.completing refl
  where
    by_count : (n : ℕ) → s.completing ≡ n → IsFed (notify_complete s).phase (notify_complete s)
    by_count zero q = rw (q, notify_complete) fed
    by_count (suc left) q =
        rw (q, notify_complete)
          (send_command-IsFed s.phase (record s { completing = left }) async_complete refl
            (record { sound = fed.sound; queued = fed.queued; in_batch = fed.in_batch }))

-- A step of the loop, by where it stands.
loop_in-IsFed :
    (order : List NodeId → List NodeId) (p : Phase) (s : System)
    → s.phase ≡ p
    → IsFed p s
    → IsFed (loop_in order p s).phase (loop_in order p s)
unfolding loop_in all_additive
loop_in-IsFed order receiving s at fed = by_queue s.cmd_rx refl
  where
    by_queue :
        (commands : List Command)
        → s.cmd_rx ≡ commands
        → IsFed (loop_in order receiving s).phase (loop_in order receiving s)
    by_queue [] q = rw (q, loop_in) (subst (λ p. IsFed p s) (sym at) fed)
    by_queue (command ∷ commands) q =
        rw (q, loop_in)
          (record {
            sound = fed.sound;
            queued = refl;
            in_batch = ap all_additive (sym q) ∙ fed.queued;
          })
loop_in-IsFed order (handling (command ∷ rest)) s at fed =
    let both : (is_additive command ≡ true) × (all_additive rest ≡ true) =
      ground (arith, fed.in_batch) in
    record {
      sound = handle_command-IsSound s.state command both.0 fed.sound;
      queued = fed.queued;
      in_batch = both.1;
    }
loop_in-IsFed order (handling []) s at fed = record {
  sound = end_batch-IsSound order s.state fed.sound;
  queued = fed.queued;
  in_batch = by_end s.state.should_shutdown;
}
  where
    by_end : (b : Bool) → all_additive (batch (if b then ended else receiving)) ≡ true
    by_end true = refl
    by_end false = refl
loop_in-IsFed order ended s at fed = subst (λ p. IsFed p s) (sym at) fed

Internal-IsFed :
    {order : List NodeId → List NodeId} {s t : System}
    → Internal order s t
    → IsFed s.phase s
    → IsFed t.phase t
unfolding loop_step
Internal-IsFed (forwards s) fed = forward-IsFed s fed
Internal-IsFed (notifies s) fed = notify-IsFed s fed
Internal-IsFed (notifies_complete s) fed = notify_complete-IsFed s fed
Internal-IsFed {order} (loops s) fed = loop_in-IsFed order s.phase s refl fed

Fed-IsFed : {order : List NodeId → List NodeId} {s : System} → Fed order s → IsFed s.phase s
unfolding all_additive loop_start send_source send_command finish_task
Fed-IsFed fed_start = record {
  sound = kept-IsSound refl refl refl refl new-IsSound;
  queued = refl;
  in_batch = refl;
}
Fed-IsFed (fed_internal g step) = Internal-IsFed step (Fed-IsFed g)
Fed-IsFed (fed_source g id value) =
    let fed = Fed-IsFed g in
    record { sound = fed.sound; queued = fed.queued; in_batch = fed.in_batch }
Fed-IsFed (fed_command {s} g command h) = send_command-IsFed s.phase s command h (Fed-IsFed g)
Fed-IsFed (fed_task g task) =
    let fed = Fed-IsFed g in
    record {
      sound = kept-IsSound refl refl refl refl fed.sound;
      queued = fed.queued;
      in_batch = fed.in_batch;
    }

-- In every state that the threads can reach in any interleaving, while no command removes anything and
-- every subgraph that is merged has all dependencies of its nodes before them, the engine of the loop has a
-- mirrored acyclic topology of exactly the declared dependencies of its active nodes, all registered.
pub Fed-IsSound :
    {order : List NodeId → List NodeId} {s : System} → Fed order s → IsSound s.state.engine
Fed-IsSound fed = (Fed-IsFed fed).sound
