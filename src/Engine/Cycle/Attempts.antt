-- ===== src/Engine/Cycle/Attempts.antt =====
-- `execute_compute_with_error_handling`: how often a compute node is attempted in one cycle, and what
-- becomes of its value.
use reactive_graph_experimen.Base.{
  ℕ, zero, suc, ◌+◌, ◌-◌, ◌≤◌, ◌<◌, ◌≡◌, refl, ap, ◌∙◌, Option, none, some, arith, if◌then◌else◌,
  nat_beq, eq_refl,
}
use reactive_graph_experimen.NodeRef.{NodeId, id_eq}
use reactive_graph_experimen.ValueStore.{AnyBox}
use reactive_graph_experimen.ValueStore.Typed.{get_by_id-remove}
use reactive_graph_experimen.Graph.{NodeEntry}
use reactive_graph_experimen.Metrics.{ErrorStrategy, propagate_stale, propagate_error, retry}
use reactive_graph_experimen.Engine.{Engine, store_result}
use reactive_graph_experimen.Engine.Cycle.{
  attempt, retry_loop, forget_value, execute_compute_with_error_handling,
}
use reactive_graph_experimen.Engine.Cycle.Touch.{value_in, value_in-store_result}

-- The attempts that the code makes at a node that has no result. Its loop for `Retry` tests the counter
-- after an attempt, so it makes one also where `max_attempts` is 0.
abbrev pub attempts_made : ErrorStrategy → ℕ
attempts_made propagate_stale = 1
attempts_made propagate_error = 1
attempts_made (retry max_attempts backoff_ms) = if nat_beq max_attempts 0 then 1 else max_attempts

-- Attempt `k + 1` at a node: the calls of node code before it are counted, and the store is as it is.
abbrev pub attempt_after : ℕ → Engine → NodeEntry → Option AnyBox
attempt_after k e entry = entry.node_impl.compute (e.calls + k) entry.deps e.graph.value_store

-- What a node's value becomes if no attempt gives a result: it is removed under `PropagateError`, and
-- is kept under the other strategies.
abbrev pub value_after_failure : ErrorStrategy → Option AnyBox → Option AnyBox
value_after_failure propagate_stale old = old
value_after_failure propagate_error old = none
value_after_failure (retry max_attempts backoff_ms) old = old

calls-store_result :
    (e : Engine) (id : NodeId) (r : Option AnyBox) → (store_result e id r).calls ≡ e.calls + 1
unfolding store_result
calls-store_result e id none = refl
calls-store_result e id (some v) = refl

calls-forget_value :
    (e : Engine) (id : NodeId) (r : Option AnyBox) → (forget_value e id r).calls ≡ e.calls
unfolding forget_value
calls-forget_value e id none = refl
calls-forget_value e id (some v) = refl

module _ (id : NodeId) (entry : NodeEntry) where
  first_attempt :
      (e : Engine) (r : Option AnyBox) → attempt_after 0 e entry ≡ r → attempt e entry ≡ r
  first_attempt e r h =
      ap (λ n. entry.node_impl.compute n entry.deps e.graph.value_store) (omega arith) ∙ h

  -- After a failed attempt, the next attempt is the first one.
  next_attempt :
      (e : Engine) (k : ℕ)
      → attempt_after k (store_result e id none) entry ≡ attempt_after (suc k) e entry
  unfolding store_result
  next_attempt e k =
      ap (λ n. entry.node_impl.compute n entry.deps e.graph.value_store) (omega arith)

  -- The number of calls and the value of the node after the strategy was carried out.
  abbrev IsAfter : Engine → Engine → ℕ → Option AnyBox → Type 0
  IsAfter e e' made value = (e'.calls ≡ e.calls + made) × (value_in e' id ≡ value)

  IsAfter-failure :
      (e e' : Engine) (made : ℕ) (value : Option AnyBox)
      → IsAfter (store_result e id none) e' made value
      → IsAfter e e' (suc made) value
  unfolding store_result
  IsAfter-failure e e' made value (n, v) = (omega (arith, n), v)

  IsAfter-success : (e : Engine) (v : AnyBox) → IsAfter e (store_result e id (some v)) 1 (some v)
  IsAfter-success e v = (calls-store_result e id (some v), value_in-store_result e id v)

  retry_loop_succeeding :
      (left : ℕ) (e : Engine) (k : ℕ) (v : AnyBox)
      → k ≤ left
      → ((j : ℕ) → j < k → attempt_after j e entry ≡ none)
      → attempt_after k e entry ≡ some v
      → IsAfter e (retry_loop left e id entry) (suc k) (some v)
  unfolding retry_loop
  retry_loop_succeeding zero e zero v h fails gives =
      rw (first_attempt e (some v) gives) (IsAfter-success e v)
  retry_loop_succeeding zero e (suc k) v h fails gives = absurd (omega arith)
  retry_loop_succeeding (suc left) e zero v h fails gives =
      rw (first_attempt e (some v) gives, retry_loop) (IsAfter-success e v)
  retry_loop_succeeding (suc left) e (suc k) v h fails gives =
      rw (first_attempt e none (fails 0 (omega arith)), retry_loop)
        (IsAfter-failure e (retry_loop left (store_result e id none) id entry) (suc k) (some v) (
          retry_loop_succeeding left (store_result e id none) k v (omega arith)
            (λ j below. next_attempt e j ∙ fails (suc j) (omega (arith, below)))
            (next_attempt e k ∙ gives)))

  retry_loop_failing :
      (left : ℕ) (e : Engine)
      → ((j : ℕ) → j < suc left → attempt_after j e entry ≡ none)
      → IsAfter e (retry_loop left e id entry) (suc left) (value_in e id)
  unfolding retry_loop store_result
  retry_loop_failing zero e fails = rw (first_attempt e none (fails 0 (omega arith))) (refl, refl)
  retry_loop_failing (suc left) e fails =
      rw (first_attempt e none (fails 0 (omega arith)), retry_loop)
        (IsAfter-failure e (retry_loop left (store_result e id none) id entry) (suc left)
          (value_in e id)
          (retry_loop_failing left (store_result e id none)
            (λ j below. next_attempt e j ∙ fails (suc j) (omega (arith, below)))))

  attempts_made-retry : (n ms : ℕ) → attempts_made (retry n ms) ≡ suc (n - 1)
  attempts_made-retry n ms = ground arith

-- Under every strategy a node is attempted until its first result, if that is among its first
-- `attempts_made` attempts: the attempts before it have none, no attempt is made after it, each of the
-- attempts made is counted, and the result is the value of the node.
pub execute_compute_succeeding :
    (e : Engine) (id : NodeId) (entry : NodeEntry) (strategy : ErrorStrategy) (k : ℕ) (v : AnyBox)
    → k < attempts_made strategy
    → ((j : ℕ) → j < k → attempt_after j e entry ≡ none)
    → attempt_after k e entry ≡ some v
    → ((execute_compute_with_error_handling e id entry strategy).calls ≡ e.calls + suc k)
      × (value_in (execute_compute_with_error_handling e id entry strategy) id ≡ some v)
unfolding execute_compute_with_error_handling forget_value
execute_compute_succeeding e id entry propagate_stale zero v h fails gives =
    rw (first_attempt id entry e (some v) gives) (IsAfter-success id entry e v)
execute_compute_succeeding e id entry propagate_stale (suc k) v h fails gives = absurd (omega arith)
execute_compute_succeeding e id entry propagate_error zero v h fails gives =
    rw (first_attempt id entry e (some v) gives) (IsAfter-success id entry e v)
execute_compute_succeeding e id entry propagate_error (suc k) v h fails gives = absurd (omega arith)
execute_compute_succeeding e id entry (retry n ms) k v h fails gives =
    retry_loop_succeeding id entry (n - 1) e k v
      (omega (arith, h, attempts_made-retry id entry n ms)) fails gives

-- A node without a result in its first `attempts_made` attempts is attempted exactly so often; it loses
-- its value under `PropagateError` and keeps it under `PropagateStale` and `Retry`.
pub execute_compute_failing :
    (e : Engine) (id : NodeId) (entry : NodeEntry) (strategy : ErrorStrategy)
    → ((j : ℕ) → j < attempts_made strategy → attempt_after j e entry ≡ none)
    → ((execute_compute_with_error_handling e id entry strategy).calls
        ≡ e.calls + attempts_made strategy)
      × (value_in (execute_compute_with_error_handling e id entry strategy) id
          ≡ value_after_failure strategy (value_in e id))
unfolding execute_compute_with_error_handling forget_value store_result
execute_compute_failing e id entry propagate_stale fails =
    rw (first_attempt id entry e none (fails 0 (omega arith))) (refl, refl)
execute_compute_failing e id entry propagate_error fails =
    rw (first_attempt id entry e none (fails 0 (omega arith))) (
      refl,
      get_by_id-remove (store_result e id none).graph.value_store id id ∙ rw (eq_refl id) refl,
    )
execute_compute_failing e id entry (retry n ms) fails = rw (attempts_made-retry id entry n ms) (
    retry_loop_failing id entry (n - 1) e
      (λ j below. fails j (omega (arith, below, attempts_made-retry id entry n ms))))
