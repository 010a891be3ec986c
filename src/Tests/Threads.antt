-- ===== src/Tests/Threads.antt =====
-- The tests of src/lib.rs, phase 4: the loop on its own thread. Each test is run under one schedule: after
-- each send of the main thread the bridge and the loop go on until they wait.
use reactive_graph_experimen.Base.{
  ℕ, zero, suc, ◌+◌, ◌*◌, ◌≡◌, refl, Bool, true, false, none, List, [], ◌∷◌, foldl, map, ◌==◌,
  text_eq, nat_eq,
}
use reactive_graph_experimen.NodeRef.{NodeRef, from_key}
use reactive_graph_experimen.Subgraph.{Subgraph, build}
use reactive_graph_experimen.Subgraph
use reactive_graph_experimen.AsyncCompute.{set_notifier}
use reactive_graph_experimen.EventLoop.{
  loop_start, push_source, handle_merge, handle_command, end_batch,
}
use reactive_graph_experimen.EventLoop.System.{
  System, Phase, start, send_command, forward, notify, notify_complete, loop_in, loop_step,
}
use reactive_graph_experimen.EventLoop.Handle.{update_source, merge, shutdown}
use reactive_graph_experimen.Tests.{
  run, run_merge, platform, f64, unit, in_order, all_pass, unary, sub_source, sub_compute, sub_sink,
  sink_values, below, last_is,
}

-- One step of each thread.
unfoldable turn : System → System
turn s = notify_complete (loop_step in_order (notify (forward s)))

unfoldable turns : ℕ → System → System
turns zero s = s
turns (suc n) s = turns n (turn s)

-- A wait of the main thread: enough turns for the commands of a test, of which each takes one.
unfoldable settle : System → System
settle s = turns 16 s

-- `handle.update_source(..)`, which does not wait.
unfoldable update : NodeRef → System → ℕ → System
update node_ref s value = send_command s (update_source node_ref value)

-- `handle.merge(sb.build())`, which waits for the answer.
unfoldable merge_and_wait : System → Subgraph → System
merge_and_wait s subgraph = settle (send_command s (merge subgraph none).0)

-- `handle.shutdown(); join.join().unwrap();`
unfoldable shut_down : System → System
shut_down s = settle (send_command s shutdown)

unfoldable has_ended : Phase → Bool
has_ended Phase.ended = true
has_ended _ = false

unfoldable threads : Unit {0}
unfolding run run_merge turn turns settle update merge_and_wait shut_down has_ended set_notifier
    loop_start push_source handle_merge handle_command end_batch send_command forward notify
    notify_complete loop_in loop_step update_source merge shutdown
threads = tt

unfoldable test_cross_thread_source_update : Bool
test_cross_thread_source_update =
    let (sb, src) = sub_source "src" Subgraph.new in
    let (sb, double) = sub_compute "double" (src ∷ []) (unary (λ v. v * 2)) sb in
    let (sb, sink_ref) = sub_sink "sink" (double ∷ []) sb in
    let s = shut_down (settle (update src (merge_and_wait start (build sb)) 21)) in
    all_pass (has_ended s.phase ∷ (sink_values s.state.engine sink_ref == 42 ∷ []) ∷ [])

test_cross_thread_source_update_passes : test_cross_thread_source_update ≡ true
unfolding test_cross_thread_source_update threads
test_cross_thread_source_update_passes = refl

unfoldable test_merge_via_handle : Bool
test_merge_via_handle =
    let (sb, src) = sub_source "src" Subgraph.new in
    let (sb, sink_ref) = sub_sink "sink" (src ∷ []) sb in
    let s = shut_down (settle (update src (merge_and_wait start (build sb)) 99)) in
    all_pass (has_ended s.phase ∷ (sink_values s.state.engine sink_ref == 99 ∷ []) ∷ [])

test_merge_via_handle_passes : test_merge_via_handle ≡ true
unfolding test_merge_via_handle threads
test_merge_via_handle_passes = refl

-- `!values.is_empty()`
unfoldable has_some : List ℕ → Bool
has_some [] = false
has_some (v ∷ vs) = true

-- The ten updates are sent before the loop takes any of them.
unfoldable test_batching_multiple_updates : Bool
test_batching_multiple_updates =
    let (sb, src) = sub_source "src" Subgraph.new in
    let (sb, sink_ref) = sub_sink "sink" (src ∷ []) sb in
    let s = foldl (update src) (merge_and_wait start (build sb)) (below 10) in
    let s = shut_down (settle s) in
    let values = sink_values s.state.engine sink_ref in
    all_pass (has_ended s.phase ∷ has_some values ∷ last_is values 9 ∷ [])

test_batching_multiple_updates_passes : test_batching_multiple_updates ≡ true
unfolding test_batching_multiple_updates threads has_some last_is below
test_batching_multiple_updates_passes = refl

-- The update after the end of the loop changes nothing but the queue that nobody reads.
unfoldable test_shutdown : Bool
test_shutdown =
    let x : NodeRef = record { id = from_key platform.hash unit "x"; output = f64 } in
    let s = shut_down start in
    let after = settle (update x s 1) in all_pass (has_ended s.phase ∷ has_ended after.phase ∷ [])

test_shutdown_passes : test_shutdown ≡ true
unfolding test_shutdown threads
test_shutdown_passes = refl

-- What the thread `i` of five sends: in this schedule the threads take turns, and the loop goes on after
-- each of them.
unfoldable send_ten : NodeRef → System → ℕ → System
send_ten node_ref s i = turns 4 (foldl (update node_ref) s (map (λ j. i * 10 + j) (below 10)))

unfoldable test_concurrent_updates : Bool
test_concurrent_updates =
    let (sb, src) = sub_source "src" Subgraph.new in
    let (sb, sink_ref) = sub_sink "sink" (src ∷ []) sb in
    let s = foldl (send_ten src) (merge_and_wait start (build sb)) (below 5) in
    let s = shut_down (turns 64 s) in
    all_pass (has_ended s.phase ∷ has_some (sink_values s.state.engine sink_ref) ∷ [])

test_concurrent_updates_passes : test_concurrent_updates ≡ true
unfolding test_concurrent_updates threads has_some send_ten below
test_concurrent_updates_passes = refl
