-- ===== src/Examples/Trades.antt =====
-- Trades on EUR/USD. Numbers stand for floating point numbers, and the hash of a text is its length.
use reactive_graph_experimen.Base.{
  ℕ, ◌+◌, ◌-◌, ◌*◌, ◌≡◌, ◌≢◌, ◌↔◌, refl, ◌&&◌, if◌then◌else◌, none, some, [], ◌∷◌, ◌++◌, map,
  length, leb, arith, Text, lookup, text_eq,
}
use reactive_graph_experimen.NodeRef.{id_eq}
use reactive_graph_experimen.FxPricing.Types.{
  CurrencyPair, eurusd, gbpusd, usdjpy, audusd, Side, bid, ask, display, ok, from_str, to_uppercase,
  IsUpper, lower, from_str_iff, from_str-display, TradeRequest, unknown_currency_pair,
}
use reactive_graph_experimen.FxPricing.Nodes.{Runtime, build_trade_subgraph}
use reactive_graph_experimen.Subgraph.{Subgraph, merge}
use reactive_graph_experimen.Engine.{new as new_engine}
use reactive_graph_experimen.Engine.Sound.{IsSound, new-IsSound}
use reactive_graph_experimen.FxPricing.Merging.{merge_trade-IsSound}
use reactive_graph_experimen.FxPricing.Diagram.{IsApart, trade, build_trade_subgraph-some}
use reactive_graph_experimen.FxPricing.Api.{AppState, new, Outside, bad_request, spread_of}
use reactive_graph_experimen.FxPricing.Trades.{
  trade_nodes, IsUndone, create_trade-remove_trade, create_trade_refused, Reason,
  create_trade_failed,
}

-- `char::to_uppercase` on ASCII.
abbrev upper : ℕ → Text
upper c = (if leb 97 c && leb c 122 then c - 32 else c) ∷ []

upper-IsUpper : IsUpper upper
upper-IsUpper = record {
  letter = λ c above below. ground (arith, above, below);
  other = λ c below. ground (arith, below);
}

abbrev number_of : CurrencyPair → ℕ
number_of eurusd = 0
number_of gbpusd = 1
number_of usdjpy = 2
number_of audusd = 3

abbrev number_of_side : Side → ℕ
number_of_side bid = 0
number_of_side ask = 1

abbrev pub runtime : Runtime
runtime = record {
  add = λ x y. x + y;
  sub = λ x y. x - y;
  mul = λ x y. x * y;
  div = λ x y. x;
  two = 2;
  ten_thousand = 10000;
  parse = λ s. none;
  box_quote = λ q. q.mid;
  hash_rate = λ k. number_of k.0 * 2 + number_of_side k.1;
  hash_pair = number_of;
  hash_text = length;
  f64_type = 7;
  quote_type = 8;
  unit_type = 9;
  spot_rate_scope = 1;
  mid_rate_scope = 2;
  client_spread_scope = 3;
  price_publisher_scope = 4;
}

apart : (pair : CurrencyPair) → IsApart runtime pair
apart pair = record {
  sides = λ h. ground (arith, h);
  spot_mid = λ h. ground (arith, h);
  spot_spread = λ h. ground (arith, h);
  spot_publisher = λ h. ground (arith, h);
  mid_spread = λ h. ground (arith, h);
  mid_publisher = λ h. ground (arith, h);
  spread_publisher = λ h. ground (arith, h);
}

-- The text eurusd.
abbrev small_letters : Text
small_letters = 101 ∷ 117 ∷ 114 ∷ 117 ∷ 115 ∷ 100 ∷ []

abbrev request : TradeRequest
request = record { pair = small_letters; spread_bps = 20; client = 65 ∷ [] }

named : to_uppercase upper small_letters ≡ display eurusd
unfolding to_uppercase display
named = refl

abbrev state : AppState
unfolding new
state = new []

abbrev outside : Outside
outside = record {
  uuid = 49 ∷ [];
  bid_guard = 1;
  ask_guard = 2;
  reply = some (
      trade_nodes runtime
        (record { uuid = 49 ∷ []; bid_guard = 1; ask_guard = 2; reply = none; join_error = none })
        request eurusd []);
  join_error = none;
}

from_str_iff_example :
    (from_str upper small_letters ≡ ok eurusd) ↔ (to_uppercase upper small_letters ≡ display eurusd)
from_str_iff_example = from_str_iff upper small_letters eurusd

from_str-display_example :
    (from_str upper (display usdjpy) ≡ ok usdjpy)
    × (from_str upper (lower (display usdjpy)) ≡ ok usdjpy)
from_str-display_example = from_str-display upper upper-IsUpper usdjpy

build_trade_subgraph-some_example :
    build_trade_subgraph runtime 1 2 (spread_of outside request eurusd) []
    ≡ some (record {
      descriptors = trade runtime 1 2 (spread_of outside request eurusd) [];
      node_ids = map (λ d. d.id) (trade runtime 1 2 (spread_of outside request eurusd) []);
    })
build_trade_subgraph-some_example =
    build_trade_subgraph-some runtime 1 2 (spread_of outside request eurusd) [] (apart eurusd)

create_trade-remove_trade_example :
    IsUndone upper runtime outside state request eurusd named refl (apart eurusd)
unfolding state lookup
create_trade-remove_trade_example =
    create_trade-remove_trade upper runtime outside state request eurusd named refl (apart eurusd)
      refl refl

-- A request for a pair with the name A.
abbrev unknown_request : TradeRequest
unknown_request = record { pair = 65 ∷ []; spread_bps = 20; client = 65 ∷ [] }

no_pair : (pair : CurrencyPair) → to_uppercase upper (65 ∷ []) ≢ display pair
unfolding to_uppercase display
no_pair eurusd h = ground (arith, h)
no_pair gbpusd h = ground (arith, h)
no_pair usdjpy h = ground (arith, h)
no_pair audusd h = ground (arith, h)

create_trade_failed_example :
    (state ≡ state)
    × Reason upper outside unknown_request bad_request (unknown_currency_pair ++ 65 ∷ [])
create_trade_failed_example =
    create_trade_failed upper runtime outside state unknown_request state bad_request
      (unknown_currency_pair ++ 65 ∷ [])
      (create_trade_refused upper runtime outside state unknown_request no_pair)

merge_trade-IsSound_example :
    (g : Subgraph) × (build_trade_subgraph runtime 1 2 (spread_of outside request eurusd) []
      ≡ some g)
    × IsSound (merge new_engine g).0
merge_trade-IsSound_example =
    merge_trade-IsSound runtime 1 2 (spread_of outside request eurusd) [] new_engine (apart eurusd)
      new-IsSound
