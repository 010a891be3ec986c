-- ===== src/Metrics.antt =====
-- src/metrics.rs, src/error.rs and src/introspection.rs. The durations are readings of a clock and
-- are left out: of `per_node_durations` the keys stay. `total_cycles` is a 64-bit counter that does
-- not wrap in any run that can be made.
use reactive_graph_experimen.Base.{ℕ, ◌+◌, Option, none, some, List}
use reactive_graph_experimen.NodeRef.{NodeId}
use reactive_graph_experimen.Graph.{NodeKind}

pub data ErrorStrategy : Type 0 where
  propagate_stale propagate_error : ErrorStrategy
  retry : (max_attempts backoff_ms : ℕ) → ErrorStrategy

-- `ErrorStrategy::default`
abbrev pub default_strategy : ErrorStrategy
default_strategy = propagate_stale

pub record CycleMetrics : Type 0 where
  pub cycle_id : ℕ
  pub nodes_computed : ℕ
  pub per_node_durations : List NodeId

pub record MetricsCollector : Type 0 where
  pub total_cycles : ℕ
  pub last_cycle : Option CycleMetrics

pub record EngineMetrics : Type 0 where
  pub total_cycles : ℕ
  pub active_sources : ℕ
  pub active_computes : ℕ
  pub active_sinks : ℕ
  pub active_async_computes : ℕ
  pub pending_async : ℕ
  pub last_cycle : Option CycleMetrics

-- `MetricsCollector::new`
abbrev pub new : MetricsCollector
new = record { total_cycles = 0; last_cycle = none }

unfoldable pub record_cycle : MetricsCollector → CycleMetrics → MetricsCollector
record_cycle m metrics = record { total_cycles = m.total_cycles + 1; last_cycle = some metrics }

pub record NodeInfo : Type 0 where
  pub id : NodeId
  pub kind : NodeKind
  pub deps : List NodeId
  pub ref_count : ℕ

pub record GraphSnapshot : Type 0 where
  pub nodes : List NodeInfo
  pub edges : List (NodeId × NodeId)
