-- ===== src/FxPricing/Merging.antt =====
-- examples/fx_pricing/nodes.rs with src/subgraph.rs: the subgraph of a trade in an engine.
use reactive_graph_experimen.Base.{ℕ, ◌≡◌, true, some, [], contains, arith, eq_refl, Text}
use reactive_graph_experimen.NodeRef.{id_eq}
use reactive_graph_experimen.Subgraph.{Subgraph, merge}
use reactive_graph_experimen.Engine.{Engine, drain_pending_removals}
use reactive_graph_experimen.Engine.Sound.{IsSound}
use reactive_graph_experimen.Engine.Sound.Registering.{
  is_contained, is_contained-IsComplete, all_in,
}
use reactive_graph_experimen.Engine.Sound.Histories.{merge-IsSound}
use reactive_graph_experimen.FxPricing.Types.{bid, ask}
use reactive_graph_experimen.FxPricing.Nodes.{Runtime, ClientSpread, build_trade_subgraph}
use reactive_graph_experimen.FxPricing.Diagram.{
  IsApart, rate_id, mid_id, spread_id, trade, build_trade_subgraph-some,
}

-- Each node of a trade stands behind its dependencies.
trade_contained :
    (r : Runtime) (bid_guard ask_guard : ℕ) (spread : ClientSpread) (redis_url : Text)
    → is_contained [] (trade r bid_guard ask_guard spread redis_url) ≡ true
unfolding is_contained all_in contains
trade_contained r bid_guard ask_guard spread redis_url =
    let b = eq_refl (rate_id r spread.pair bid) in
    let a = eq_refl (rate_id r spread.pair ask) in
    let m = eq_refl (mid_id r spread.pair) in
    let q = eq_refl (spread_id r spread.trade_id) in ground (arith, b, a, m, q)

-- The subgraph of a trade type-checks, and merging it into a sound engine, whatever trades the engine has
-- before, leaves the engine sound. The types of the nodes and the hashes of the two sides differ.
pub merge_trade-IsSound :
    (r : Runtime) (bid_guard ask_guard : ℕ) (spread : ClientSpread) (redis_url : Text) (e : Engine)
    → IsApart r spread.pair
    → IsSound e
    → (g : Subgraph) × (build_trade_subgraph r bid_guard ask_guard spread redis_url ≡ some g)
      × IsSound (merge e g).0
unfolding contains
merge_trade-IsSound r bid_guard ask_guard spread redis_url e apart sound =
    let ds = trade r bid_guard ask_guard spread redis_url in
    (
      _,
      build_trade_subgraph-some r bid_guard ask_guard spread redis_url apart,
      merge-IsSound e _
          (is_contained-IsComplete ds [] (drain_pending_removals e)
            (λ x m. absurd (ground (arith, m)))
            (trade_contained r bid_guard ask_guard spread redis_url))
          sound,
    )
