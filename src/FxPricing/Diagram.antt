-- ===== src/FxPricing/Diagram.antt =====
-- The subgraph of a trade: two rates, their mean, the quote of the client, and its publisher.
use reactive_graph_experimen.Base.{
  ℕ, ◌≡◌, ◌≢◌, refl, ap, ap₂, ◌∙◌, false, Option, some, List, [], ◌∷◌, foldl, ◌++◌, map, contains,
  set_insert, arith, ◌==◌, Text, length, ◌<◌,
}
use reactive_graph_experimen.NodeRef.{NodeId, NodeRef, from_key, id_eq, id_beq}
use reactive_graph_experimen.Graph.{source, compute, sink}
use reactive_graph_experimen.Subgraph.{
  NodeDescriptor, Subgraph, SubgraphBuilder, register_node, build, new,
}
use reactive_graph_experimen.Subgraph.Fresh.{
  IsFresh, fresh_in, node_ids-registered, descriptors-registered,
}
use reactive_graph_experimen.Builder.{make_ref}
use reactive_graph_experimen.Builder.Trait.{ComputeNode, peel, when_wired, subgraph_arity}
use reactive_graph_experimen.Builder.Trait.Compute.{make_node_impl}
use reactive_graph_experimen.Builder.Trait.Source.{make_source_impl}
use reactive_graph_experimen.Builder.Trait.Sink.{make_node_impl as make_sink_impl}
use reactive_graph_experimen.Builder.Sub.{
  add_source, add_compute, add_sink, compute_dep, sink_dep, build_compute, build_sink,
}
use reactive_graph_experimen.FxPricing.Types.{CurrencyPair, Side, bid, ask}
use reactive_graph_experimen.FxPricing.Nodes.{
  Runtime, ClientSpread, mid_rate, client_spread, price_publisher, spot_rate, build_mid,
  build_spread, build_publisher, build_trade_subgraph, and_then,
}

module _ (r : Runtime) where
  -- The identities of the nodes of a trade.
  abbrev pub rate_id : CurrencyPair → Side → NodeId
  rate_id pair side = record { type_id = r.spot_rate_scope; key_hash = r.hash_rate (pair, side) }

  abbrev pub mid_id : CurrencyPair → NodeId
  mid_id pair = record { type_id = r.mid_rate_scope; key_hash = r.hash_pair pair }

  abbrev pub spread_id : Text → NodeId
  spread_id trade_id = record { type_id = r.client_spread_scope; key_hash = r.hash_text trade_id }

  abbrev pub publisher_id : Text → NodeId
  publisher_id trade_id = record {
    type_id = r.price_publisher_scope;
    key_hash = r.hash_text trade_id;
  }

  -- A dependency of the type that is asked for is accepted.
  peel_same :
      (id : NodeId) (type : ℕ) (types : List ℕ)
      → length types < subgraph_arity
      → peel subgraph_arity (type ∷ types) (record { id = id; output = type }) ≡ some types
  unfolding peel
  peel_same id type types few = ground (arith, few)

  abbrev mid_descriptor : CurrencyPair → NodeId → NodeId → NodeDescriptor
  mid_descriptor pair b a = record {
    id = mid_id pair;
    kind = compute;
    deps = b ∷ a ∷ [];
    node_impl = make_node_impl (mid_rate r pair);
  }

  compute_dep_same :
      {Key : Type 0} (node : ComputeNode Key) (ids : List NodeId) (id : NodeId) (type : ℕ)
      (types : List ℕ)
      → length types < subgraph_arity
      → compute_dep
          (record { compute = node; dep_ids = ids; remaining = type ∷ types })
          (record { id = id; output = type })
        ≡ some (record { compute = node; dep_ids = ids ++ id ∷ []; remaining = types })
  unfolding compute_dep
  compute_dep_same node ids id type types few = rw (peel_same id type types few, compute_dep) refl

  build_mid_step :
      (pair : CurrencyPair) (b a : NodeId) (sb : SubgraphBuilder)
      → build_mid r pair
          (record { id = b; output = r.f64_type })
          (record { id = a; output = r.f64_type })
          sb
        ≡ some (
          (register_node sb (mid_descriptor pair b a)).0,
          record { id = mid_id pair; output = r.f64_type },
        )
  unfolding build_mid add_compute mid_rate build_compute when_wired make_ref from_key
  build_mid_step pair b a sb =
      ap
        (λ o. and_then o (λ b'.
          and_then (compute_dep b' (record { id = a; output = r.f64_type }))
            (λ b''. build_compute r.hash_pair b'' sb)))
        (compute_dep_same (mid_rate r pair) [] b r.f64_type (r.f64_type ∷ []) (omega arith))
      ∙ ap (λ o. and_then o (λ b''. build_compute r.hash_pair b'' sb))
          (compute_dep_same (mid_rate r pair) (b ∷ []) a r.f64_type [] (omega arith))

  abbrev spread_descriptor : ClientSpread → NodeId → NodeDescriptor
  spread_descriptor spread m = record {
    id = spread_id spread.trade_id;
    kind = compute;
    deps = m ∷ [];
    node_impl = make_node_impl (client_spread r spread);
  }

  build_spread_step :
      (spread : ClientSpread) (m : NodeId) (sb : SubgraphBuilder)
      → build_spread r spread (record { id = m; output = r.f64_type }) sb
        ≡ some (
          (register_node sb (spread_descriptor spread m)).0,
          record { id = spread_id spread.trade_id; output = r.quote_type },
        )
  unfolding build_spread add_compute client_spread build_compute when_wired make_ref from_key
  build_spread_step spread m sb =
      ap (λ o. and_then o (λ b. build_compute r.hash_text b sb))
        (compute_dep_same (client_spread r spread) [] m r.f64_type [] (omega arith))

  abbrev publisher_descriptor : Text → NodeId → NodeDescriptor
  publisher_descriptor trade_id q = record {
    id = publisher_id trade_id;
    kind = sink;
    deps = q ∷ [];
    node_impl = make_sink_impl (price_publisher r trade_id);
  }

  build_publisher_step :
      (trade_id : Text) (q : NodeId) (sb : SubgraphBuilder)
      → build_publisher r trade_id (record { id = q; output = r.quote_type }) sb
        ≡ some (
          (register_node sb (publisher_descriptor trade_id q)).0,
          record { id = publisher_id trade_id; output = r.unit_type },
        )
  unfolding build_publisher add_sink price_publisher sink_dep build_sink when_wired make_ref
      from_key
  build_publisher_step trade_id q sb =
      rw (peel_same q r.quote_type [] (omega arith), build_publisher, sink_dep) refl

  -- The descriptors of the five nodes, in the order of their registration.
  abbrev pub rate_descriptor : ℕ → CurrencyPair → Side → Text → NodeDescriptor
  rate_descriptor guard pair side redis_url = record {
    id = rate_id pair side;
    kind = source;
    deps = [];
    node_impl =
        make_source_impl
          (spot_rate r guard (record { pair = pair; side = side; redis_url = redis_url }));
  }

  abbrev pub trade : ℕ → ℕ → ClientSpread → Text → List NodeDescriptor
  trade bid_guard ask_guard spread redis_url =
      rate_descriptor bid_guard spread.pair bid redis_url
      ∷ rate_descriptor ask_guard spread.pair ask redis_url
      ∷ mid_descriptor spread.pair (rate_id spread.pair bid) (rate_id spread.pair ask)
      ∷ spread_descriptor spread (mid_id spread.pair)
      ∷ publisher_descriptor spread.trade_id (spread_id spread.trade_id)
      ∷ []

  abbrev registered_all : List NodeDescriptor → SubgraphBuilder
  registered_all ds = foldl (λ sb d. (register_node sb d).0) new ds

  trade_step :
      (bid_guard ask_guard : ℕ) (spread : ClientSpread) (redis_url : Text)
      → build_trade_subgraph r bid_guard ask_guard spread redis_url
        ≡ some (build (registered_all (trade bid_guard ask_guard spread redis_url)))
  unfolding build_trade_subgraph add_source spot_rate make_ref from_key
  trade_step bid_guard ask_guard spread redis_url =
      let sb2 = registered_all (
        rate_descriptor bid_guard spread.pair bid redis_url
        ∷ rate_descriptor ask_guard spread.pair ask redis_url
        ∷ []) in
      let sb3 =
        (register_node sb2
          (mid_descriptor spread.pair (rate_id spread.pair bid) (rate_id spread.pair ask))).0 in
      let sb4 = (register_node sb3 (spread_descriptor spread (mid_id spread.pair))).0 in
      let finish : Option (SubgraphBuilder × NodeRef) → Option Subgraph =
        λ o. and_then o (λ k. some (build k.0)) in
      let publish : Option (SubgraphBuilder × NodeRef) → Option Subgraph =
        λ o. and_then o (λ q. finish (build_publisher r spread.trade_id q.1 q.0)) in
      ap (λ o. and_then o (λ m. publish (build_spread r spread m.1 m.0)))
        (build_mid_step spread.pair (rate_id spread.pair bid) (rate_id spread.pair ask) sb2)
      ∙ ap publish (build_spread_step spread (mid_id spread.pair) sb3)
      ∙ ap finish (build_publisher_step spread.trade_id (spread_id spread.trade_id) sb4)

-- The `TypeId`s of the four types of nodes differ, and the two sides of a pair have different hashes.
pub record IsApart (r : Runtime) (pair : CurrencyPair) : Type 0 where
  pub sides : r.hash_rate (pair, bid) ≢ r.hash_rate (pair, ask)
  pub spot_mid : r.spot_rate_scope ≢ r.mid_rate_scope
  pub spot_spread : r.spot_rate_scope ≢ r.client_spread_scope
  pub spot_publisher : r.spot_rate_scope ≢ r.price_publisher_scope
  pub mid_spread : r.mid_rate_scope ≢ r.client_spread_scope
  pub mid_publisher : r.mid_rate_scope ≢ r.price_publisher_scope
  pub spread_publisher : r.client_spread_scope ≢ r.price_publisher_scope

types_differ : (y x : NodeId) → y.type_id ≢ x.type_id → (y == x) ≡ false
unfolding id_beq
types_differ y x differ = ground (arith, differ)

hashes_differ : (y x : NodeId) → y.key_hash ≢ x.key_hash → (y == x) ≡ false
unfolding id_beq
hashes_differ y x differ = ground (arith, differ)

trade-IsFresh :
    (r : Runtime) (bid_guard ask_guard : ℕ) (spread : ClientSpread) (redis_url : Text)
    → IsApart r spread.pair
    → IsFresh [] (trade r bid_guard ask_guard spread redis_url)
unfolding contains
trade-IsFresh r bid_guard ask_guard spread redis_url apart =
    let b = rate_id r spread.pair bid in
    let a = rate_id r spread.pair ask in
    let m = mid_id r spread.pair in
    let q = spread_id r spread.trade_id in
    let k = publisher_id r spread.trade_id in
    let rates = set_insert [] b in
    let both = set_insert rates a in
    let three = set_insert both m in
    let after_rates : (x : NodeId) → b.type_id ≢ x.type_id → contains both x ≡ false = λ x differ.
      fresh_in rates a x (fresh_in [] b x refl (types_differ b x differ))
        (types_differ a x differ) in
    let after_mid : (x : NodeId)
        → b.type_id ≢ x.type_id
        → m.type_id ≢ x.type_id
        → contains three x ≡ false =
      λ x differ differ'. fresh_in both m x (after_rates x differ) (types_differ m x differ') in
    (
      refl,
      (
        fresh_in [] b a refl (hashes_differ b a apart.sides),
        (
          after_rates m apart.spot_mid,
          (
            after_mid q apart.spot_spread apart.mid_spread,
            (
              fresh_in three q k (after_mid k apart.spot_publisher apart.mid_publisher)
                  (types_differ q k apart.spread_publisher),
              tt,
            ),
          ),
        ),
      ),
    )

-- The subgraph of a trade always type-checks, and has the five nodes of the diagram, each with the
-- nodes above it as dependencies: two rates without dependencies, their mean, the quote, which reads
-- the mean alone, and the publisher, which reads the quote. The `TypeId`s of the nodes' types and the
-- hashes of the two sides differ.
pub build_trade_subgraph-some :
    (r : Runtime) (bid_guard ask_guard : ℕ) (spread : ClientSpread) (redis_url : Text)
    → IsApart r spread.pair
    → build_trade_subgraph r bid_guard ask_guard spread redis_url
      ≡ some (record {
        descriptors = trade r bid_guard ask_guard spread redis_url;
        node_ids = map (λ d. d.id) (trade r bid_guard ask_guard spread redis_url);
      })
unfolding build
build_trade_subgraph-some r bid_guard ask_guard spread redis_url apart =
    let ds = trade r bid_guard ask_guard spread redis_url in
    trade_step r bid_guard ask_guard spread redis_url
    ∙ ap₂ (λ descriptors node_ids. some (record { descriptors = descriptors; node_ids = node_ids }))
        (descriptors-registered ds new (trade-IsFresh r bid_guard ask_guard spread redis_url apart))
        (node_ids-registered ds new)
