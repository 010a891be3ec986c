-- ===== src/FxPricing/Nodes.antt =====
-- examples/fx_pricing/nodes.rs. A number `f64` is its 64 bits, and a `SpreadQuote` in a box is the
-- number by which the box is known.
use reactive_graph_experimen.Base.{
  ℕ, Bool, true, false, if◌then◌else◌, Option, none, some, List, [], ◌∷◌, ◌++◌, Text,
}
use reactive_graph_experimen.NodeRef.{NodeRef}
use reactive_graph_experimen.Subgraph.{Subgraph, SubgraphBuilder, build, new}
use reactive_graph_experimen.Builder.Trait.{SourceNode, ComputeNode, SinkNode}
use reactive_graph_experimen.Builder.Sub.{
  add_source, add_compute, add_sink, compute_dep, sink_dep, build_compute, build_sink,
}
use reactive_graph_experimen.FxPricing.Types.{
  CurrencyPair, Side, bid, ask, display, display_side, SpreadQuote,
}

-- What the compiler, the standard library and the processor give.
pub record Runtime : Type 0 where
  pub add : ℕ → ℕ → ℕ
  pub sub : ℕ → ℕ → ℕ
  pub mul : ℕ → ℕ → ℕ
  pub div : ℕ → ℕ → ℕ
  pub two : ℕ
  pub ten_thousand : ℕ
  pub parse : Text → Option ℕ
  pub box_quote : SpreadQuote → ℕ
  pub hash_rate : CurrencyPair × Side → ℕ
  pub hash_pair : CurrencyPair → ℕ
  pub hash_text : Text → ℕ
  pub f64_type : ℕ
  pub quote_type : ℕ
  pub unit_type : ℕ
  pub spot_rate_scope : ℕ
  pub mid_rate_scope : ℕ
  pub client_spread_scope : ℕ
  pub price_publisher_scope : ℕ

pub record SpotRate : Type 0 where
  pub pair : CurrencyPair
  pub side : Side
  pub redis_url : Text

-- `joined`: the handle of the thread was taken and waited for.
pub record SpotRateGuard : Type 0 where
  pub shutdown : Bool
  pub joined : Bool

-- `Drop for SpotRateGuard`
unfoldable pub drop_guard : SpotRateGuard → SpotRateGuard
drop_guard guard = record { shutdown = true; joined = true }

-- `format!("fx:{}:{}", self.pair, self.side)`
unfoldable pub channel : SpotRate → Text
unfolding display display_side
channel rate = 102 ∷ 120 ∷ 58 ∷ (display rate.pair ++ 58 ∷ display_side rate.side)

-- One round of the subscriber's loop: what the flag holds, and the payload of the message, if one
-- came before the timeout and has a text as payload.
pub record Poll : Type 0 where
  pub shutdown : Bool
  pub payload : Option Text

-- `if let Ok(rate) = payload.parse::<f64>() { tx.send(rate) }`
unfoldable pub rate_of : Runtime → Option Text → List ℕ
rate_of r none = []
rate_of r (some payload) = elim (r.parse payload) [ none ↦ [] | some rate ↦ rate ∷ [] ]

-- The `while` loop of the subscriber, over the rounds as they come: the rates that it sends.
unfoldable pub listen : Runtime → List Poll → List ℕ
unfolding rate_of
listen r [] = []
listen r (poll ∷ polls) =
    let rest = listen r polls in if poll.shutdown then [] else rate_of r poll.payload ++ rest

-- The thread of `SpotRate::activate`, which ends at once if the client, the connection or the
-- subscription fails.
unfoldable pub subscriber : Runtime → (opened connected subscribed : Bool) → List Poll → List ℕ
unfolding listen
subscriber r true true true polls = listen r polls
subscriber r true true false polls = []
subscriber r true false subscribed polls = []
subscriber r false connected subscribed polls = []

-- `SpotRate` as a source. Before `activate` returns, nothing is sent.
unfoldable pub spot_rate : Runtime → ℕ → SpotRate → SourceNode (CurrencyPair × Side)
spot_rate r guard rate = record {
  node = record { scope = r.spot_rate_scope; output = r.f64_type; key = (rate.pair, rate.side) };
  guard = guard;
  values = [];
}

-- `MidRate::compute`. There are always two inputs.
unfoldable pub mid : Runtime → List ℕ → ℕ
mid r (bid_rate ∷ ask_rate ∷ []) = r.div (r.add bid_rate ask_rate) r.two
mid r _ = 0

-- `MidRate` as a compute node.
unfoldable pub mid_rate : Runtime → CurrencyPair → ComputeNode CurrencyPair
unfolding mid
mid_rate r pair = record {
  node = record { scope = r.mid_rate_scope; output = r.f64_type; key = pair };
  inputs = r.f64_type ∷ r.f64_type ∷ [];
  compute = λ calls. mid r;
}

pub record ClientSpread : Type 0 where
  pub trade_id : Text
  pub pair : CurrencyPair
  pub client : Text
  pub spread_bps : ℕ

-- `ClientSpread::compute`
unfoldable pub quote : Runtime → ClientSpread → ℕ → SpreadQuote
quote r spread mid_value =
    let half_spread = r.div (r.div (r.mul mid_value spread.spread_bps) r.ten_thousand) r.two in
    record {
      pair = spread.pair;
      client = spread.client;
      trade_id = spread.trade_id;
      bid = r.sub mid_value half_spread;
      ask = r.add mid_value half_spread;
      mid = mid_value;
      spread_bps = spread.spread_bps;
    }

-- `ClientSpread::compute` on the list of its inputs, of which there is always one.
unfoldable pub boxed_quote : Runtime → ClientSpread → List ℕ → ℕ
unfolding quote
boxed_quote r spread (mid_value ∷ []) = r.box_quote (quote r spread mid_value)
boxed_quote r spread _ = 0

-- `ClientSpread` as a compute node.
unfoldable pub client_spread : Runtime → ClientSpread → ComputeNode Text
unfolding boxed_quote
client_spread r spread = record {
  node = record { scope = r.client_spread_scope; output = r.quote_type; key = spread.trade_id };
  inputs = r.f64_type ∷ [];
  compute = λ calls. boxed_quote r spread;
}

-- `PricePublisher` as a sink. What `emit` prints is left out.
unfoldable pub price_publisher : Runtime → Text → SinkNode Text
price_publisher r trade_id = record {
  node = record { scope = r.price_publisher_scope; output = r.unit_type; key = trade_id };
  inputs = r.quote_type ∷ [];
}

-- `?`-free chains of calls: a call that does not type-check ends them.
abbrev pub and_then : {A B : Type 0} → Option A → (A → Option B) → Option B
and_then none f = none
and_then (some a) f = f a

-- `sb.add_compute(MidRate { pair }).dep(bid).dep(ask).build()`
unfoldable pub build_mid :
    Runtime
    → CurrencyPair
    → (bid_ref ask_ref : NodeRef) → SubgraphBuilder
    → Option (SubgraphBuilder × NodeRef)
unfolding mid_rate add_compute compute_dep build_compute
build_mid r pair bid_ref ask_ref sb =
    and_then (compute_dep (add_compute (mid_rate r pair)) bid_ref)
      (λ b. and_then (compute_dep b ask_ref) (λ b'. build_compute r.hash_pair b' sb))

-- `sb.add_compute(ClientSpread { .. }).dep(mid).build()`
unfoldable pub build_spread :
    Runtime → ClientSpread → NodeRef → SubgraphBuilder → Option (SubgraphBuilder × NodeRef)
unfolding client_spread add_compute compute_dep build_compute
build_spread r spread mid_ref sb =
    and_then (compute_dep (add_compute (client_spread r spread)) mid_ref)
      (λ b. build_compute r.hash_text b sb)

-- `sb.add_sink(PricePublisher { trade_id }).dep(spread).build()`
unfoldable pub build_publisher :
    Runtime → Text → NodeRef → SubgraphBuilder → Option (SubgraphBuilder × NodeRef)
unfolding price_publisher add_sink sink_dep build_sink
build_publisher r trade_id spread_ref sb =
    and_then (sink_dep (add_sink (price_publisher r trade_id)) spread_ref)
      (λ b. build_sink r.hash_text b sb)

-- `build_trade_subgraph`, for the guards that the two sources will return.
unfoldable pub build_trade_subgraph :
    Runtime → (bid_guard ask_guard : ℕ) → ClientSpread → (redis_url : Text) → Option Subgraph
unfolding spot_rate add_source build_mid build_spread build_publisher build
build_trade_subgraph r bid_guard ask_guard spread redis_url =
    let pair = spread.pair in
    let (sb1, bid_ref) =
      add_source r.hash_rate new
        (spot_rate r bid_guard (record { pair = pair; side = bid; redis_url = redis_url })) in
    let (sb2, ask_ref) =
      add_source r.hash_rate sb1
        (spot_rate r ask_guard (record { pair = pair; side = ask; redis_url = redis_url })) in
    and_then (build_mid r pair bid_ref ask_ref sb2) (λ m.
      and_then (build_spread r spread m.1 m.0)
        (λ q. and_then (build_publisher r spread.trade_id q.1 q.0) (λ k. some (build k.0))))
