-- ===== src/Tests/Pricing.antt =====
-- The test of src/lib.rs that prices for two clients. Its numbers are no whole numbers: the arithmetic of
-- its closures, the prices that it sends and its comparison of results are parameters.
use reactive_graph_experimen.Base.{ℕ, ◌≡◌, ap, Bool, true, false, ◌&&◌, List, [], ◌∷◌}
use Prim.Native.String.{String, ◌++◌ as concat}
use reactive_graph_experimen.NodeRef.{NodeRef, id_beq}
use reactive_graph_experimen.Subgraph.{SubgraphBuilder, merge, build}
use reactive_graph_experimen.Subgraph
use reactive_graph_experimen.Engine.{new}
use reactive_graph_experimen.Engine.Cycle.{run_cycle}
use reactive_graph_experimen.Tests.{
  run, run_merge, in_order, all_pass, unary, binary, sub_source, sub_compute, sub_sink, send_value,
  sink_values,
}

-- What `build_client_pricing` returns, with the builder that it changes; the sink stands for the list to
-- which its closure pushes.
record ClientPricing : Type 0 where
  sb : SubgraphBuilder
  bid : NodeRef
  ask : NodeRef
  sink_ref : NodeRef

-- `c[0]` passes a test.
unfoldable first_passes : (ℕ → Bool) → List ℕ → Bool
first_passes test [] = false
first_passes test (v ∷ vs) = test v

module _ (mid_of : ℕ → ℕ → ℕ) (spread_of : ℕ → ℕ) (bid_price ask_price : ℕ)
    (is_close : ℕ → Bool) where
  unfoldable build_client_pricing : SubgraphBuilder → String → ClientPricing
  build_client_pricing sb client =
      let (sb, bid) = sub_source "spot.bid" sb in
      let (sb, ask) = sub_source "spot.ask" sb in
      let (sb, mid) = sub_compute "mid_rate" (bid ∷ ask ∷ []) (binary mid_of) sb in
      let (sb, spread) = sub_compute (concat "spread." client) (mid ∷ []) (unary spread_of) sb in
      let (sb, sink_ref) = sub_sink (concat "pub." client) (spread ∷ []) sb in
      record { sb = sb; bid = bid; ask = ask; sink_ref = sink_ref }

  unfoldable test_fx_pricing_example : Bool
  unfolding build_client_pricing
  test_fx_pricing_example =
      let c1 = build_client_pricing Subgraph.new "client1" in
      let c2 = build_client_pricing Subgraph.new "client2" in
      let (engine, h1) = merge new (build c1.sb) in
      let (engine, h2) = merge engine (build c2.sb) in
      let sent = send_value c1.ask ask_price (send_value c1.bid bid_price engine) in
      let cycled = run_cycle in_order sent in
      all_pass (
        id_beq c1.bid.id c2.bid.id
        ∷ first_passes is_close (sink_values cycled c1.sink_ref)
        ∷ first_passes is_close (sink_values cycled c2.sink_ref)
        ∷ [])

  -- The test passes for every arithmetic that takes the prices to a result that is close enough.
  test_fx_pricing_example_passes :
      is_close (spread_of (mid_of bid_price ask_price)) ≡ true → test_fx_pricing_example ≡ true
  unfolding test_fx_pricing_example run run_merge first_passes
  test_fx_pricing_example_passes close = ap (λ b. b && (b && true)) close
