-- ===== src/Examples/Versions.antt =====
-- Both versions of the cycle over the diamond.
use reactive_graph_experimen.Base.{
  ◌≡◌, refl, sym, ap, ◌∙◌, true, false, some, List, [], ◌∷◌, ℕ, ◌⊎◌, inl, inr, eq_cases, contains,
  arith, lookup,
}
use reactive_graph_experimen.NodeRef.{NodeId, id_eq}
use reactive_graph_experimen.Graph.{NodeEntry}
use reactive_graph_experimen.Topology.{dirty_set, list_at}
use reactive_graph_experimen.Metrics.{propagate_stale}
use reactive_graph_experimen.Builder.Pure.{closure_compute_node-IsPure}
use reactive_graph_experimen.Scheduler.{execute_parallel}
use reactive_graph_experimen.Engine.Cycle.{propagate, is_sync, strategy_of}
use reactive_graph_experimen.Engine.Cycle.Touch.{value_in}
use reactive_graph_experimen.Engine.Cycle.Consistent.{IsPure}
use reactive_graph_experimen.Engine.Cycle.Solution.{IsWired, IsSolution}
use reactive_graph_experimen.Engine.Cycle.Sequential.{propagate-IsSolution}
use reactive_graph_experimen.Engine.Cycle.Parallel.{execute_parallel-IsSolution}
use reactive_graph_experimen.Engine.Cycle.Versions.{value_in-propagate_parallel}
use reactive_graph_experimen.Examples.{s, a, b, c, in_order, diamond, rank}
use reactive_graph_experimen.Examples.Graphs.{diamond-IsMirror, diamond-ranked}
use reactive_graph_experimen.Examples.Cycles.{engine, entries, sum_of, total, program}

abbrev changed : List NodeId
changed = dirty_set in_order diamond (s ∷ [])

sum_at :
    (x id : NodeId) (types : List ℕ) (deps : List NodeId)
    → x ≡ id
    → lookup id entries ≡ some (sum_of id types deps)
    → list_at id diamond.deps ≡ deps
    → (entry : NodeEntry) → lookup x entries ≡ some entry
    → IsPure entry × (list_at x diamond.deps ≡ entry.deps)
sum_at x id types deps same listed linked entry found =
    let made : entry ≡ sum_of id types deps = cc in
    (
      closure_compute_node-IsPure entry types 7 total (ap (λ e. e.node_impl) made),
      ap (λ y. list_at y diamond.deps) same ∙ linked ∙ ap (λ e. e.deps) (sym made),
    )

among : (x : NodeId) → contains changed x ≡ true → (x ≡ a) ⊎ ((x ≡ b) ⊎ (x ≡ c))
unfolding program
among x m = elim (eq_cases x a) [
  | inl p ↦ inl p.1
  | inr p ↦ elim (eq_cases x b) [
    | inl q ↦ inr (inl q.1)
    | inr q ↦ elim (eq_cases x c) [
      | inl r ↦ inr (inr r.1)
      | inr r ↦ absurd (let k = p.0 in let l = q.0 in let n = r.0 in ground (arith, k, l, n, m))
    ]
  ]
]

wired : IsWired entries diamond changed
unfolding program
wired x entry m found kind = elim (among x m) [
  | inl p ↦ sum_at x a (7 ∷ []) (s ∷ []) p refl refl entry found
  | inr (inl p) ↦ sum_at x b (7 ∷ []) (s ∷ []) p refl refl entry found
  | inr (inr p) ↦ sum_at x c (7 ∷ 7 ∷ []) (a ∷ b ∷ []) p refl refl entry found
]

stale : (x : NodeId) → contains changed x ≡ true → strategy_of engine x ≡ propagate_stale
unfolding program
stale x m = refl

sync : (x : NodeId) → contains changed x ≡ true → is_sync engine x ≡ true
unfolding program is_sync
sync x m = elim (among x m) [
  | inl p ↦ ap (is_sync engine) p
  | inr (inl p) ↦ ap (is_sync engine) p
  | inr (inr p) ↦ ap (is_sync engine) p
]

value_in-propagate_parallel_example :
    value_in (propagate in_order true engine (s ∷ [])) c
    ≡ value_in (propagate in_order false engine (s ∷ [])) c
value_in-propagate_parallel_example =
    value_in-propagate_parallel in_order (λ xs x. refl) engine diamond-IsMirror (s ∷ []) wired rank
      diamond-ranked sync stale c

propagate-IsSolution_example :
    IsSolution entries changed engine.graph.value_store
      (propagate in_order false engine (s ∷ [])).graph.value_store
propagate-IsSolution_example =
    propagate-IsSolution in_order (λ xs x. refl) engine diamond-IsMirror (s ∷ []) wired rank
      diamond-ranked stale

execute_parallel-IsSolution_example :
    IsSolution entries changed engine.graph.value_store
      (execute_parallel in_order entries engine.graph.value_store diamond 0 [] changed
        changed).value_store
execute_parallel-IsSolution_example =
    execute_parallel-IsSolution in_order (λ xs x. refl) entries diamond diamond-IsMirror changed
      wired engine.graph.value_store changed (λ x. refl) 0 [] rank diamond-ranked
