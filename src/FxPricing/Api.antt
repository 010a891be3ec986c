-- ===== src/FxPricing/Api.antt =====
-- examples/fx_pricing/api.rs. `AppState` is kept with the commands that its engine handle has sent.
-- The library that routes requests is not modelled; a handler gets what its extractors give.
use reactive_graph_experimen.Base.{
  ℕ, Option, none, some, List, [], ◌∷◌, ◌++◌, map, Map, lookup, insert, remove as map_remove, Text,
  text_eq,
}
use reactive_graph_experimen.NodeRef.{NodeId}
use reactive_graph_experimen.Subgraph.{Subgraph}
use reactive_graph_experimen.EventLoop.{Command}
use reactive_graph_experimen.EventLoop.Handle.{RemoteSubgraphHandle, drop_remote, merge}
use reactive_graph_experimen.FxPricing.Types.{
  CurrencyPair, display, ok, err, from_str, TradeRequest, TradeResponse, TradeInfo,
}
use reactive_graph_experimen.FxPricing.Nodes.{Runtime, ClientSpread, build_trade_subgraph}

pub data StatusCode : Type 0 where
  created bad_request internal_server_error no_content not_found : StatusCode

pub record TradeRecord : Type 0 where
  pub info : TradeInfo
  pub handle : RemoteSubgraphHandle

pub record AppState : Type 0 where
  pub trades : Map Text TradeRecord
  pub redis_url : Text
  pub sent : List Command

-- `AppState::new`
unfoldable pub new : Text → AppState
new redis_url = record { trades = []; redis_url = redis_url; sent = [] }

-- What happens outside during `create_trade`: the identifier that is drawn, the guards that the
-- sources will return, the answer of the loop, and whether `spawn_blocking` fails, with which text.
pub record Outside : Type 0 where
  pub uuid : Text
  pub bid_guard : ℕ
  pub ask_guard : ℕ
  pub reply : Option (List NodeId)
  pub join_error : Option Text

-- `Result<(StatusCode, Json<TradeResponse>), (StatusCode, String)>`
pub data Created : Type 0 where
  success : (status : StatusCode) (response : TradeResponse) → Created
  failure : (status : StatusCode) (message : Text) → Created

-- A value that leaves the map is dropped, and its handle with it.
unfoldable pub drop_record : Option TradeRecord → List Command
unfolding drop_remote
drop_record none = []
drop_record (some r) = drop_remote r.handle

-- `state.trades.lock().unwrap().insert(..)`
unfoldable pub insert_trade : AppState → Text → TradeRecord → AppState
unfolding drop_record
insert_trade state trade_id r = record state {
  trades = insert trade_id r state.trades;
  sent = state.sent ++ drop_record (lookup trade_id state.trades);
}

-- `create_trade` after the pair was read, for the subgraph that was built.
unfoldable pub create_with :
    Outside → AppState → TradeRequest → CurrencyPair → Subgraph → AppState × Created
unfolding merge insert_trade display
create_with outside state req pair subgraph =
    let (command, handle) = merge subgraph outside.reply in
    let info : TradeInfo = record {
      trade_id = outside.uuid;
      pair = display pair;
      client = req.client;
      spread_bps = req.spread_bps;
    } in
    let response : TradeResponse = record {
      trade_id = outside.uuid;
      pair = display pair;
      client = req.client;
      spread_bps = req.spread_bps;
    } in
    (
      insert_trade (record state { sent = state.sent ++ command ∷ [] }) outside.uuid
          (record { info = info; handle = handle }),
      success created response,
    )

-- The node `ClientSpread` of a request.
abbrev pub spread_of : Outside → TradeRequest → CurrencyPair → ClientSpread
spread_of outside req pair = record {
  trade_id = outside.uuid;
  pair = pair;
  client = req.client;
  spread_bps = req.spread_bps;
}

-- `create_trade`. A task that cannot be joined has not run. It is `none` where `build_trade_subgraph`
-- does not type-check.
unfoldable pub create_trade :
    (ℕ → Text) → Runtime → Outside → AppState → TradeRequest → Option (AppState × Created)
unfolding from_str build_trade_subgraph create_with
create_trade upper r outside state req = elim (from_str upper req.pair) [
  | err message ↦ some (state, failure bad_request message)
  | ok pair ↦ elim outside.join_error [
    | some message ↦ some (state, failure internal_server_error message)
    | none ↦
        elim (build_trade_subgraph r outside.bid_guard outside.ask_guard
          (spread_of outside req pair) state.redis_url) [
            | none ↦ none
            | some subgraph ↦ some (create_with outside state req pair subgraph)
          ]
  ]
]

-- `list_trades`
unfoldable pub list_trades : AppState → List TradeInfo
list_trades state = map (λ entry. entry.1.info) state.trades

-- `remove_trade`
unfoldable pub remove_trade : AppState → Text → AppState × StatusCode
unfolding drop_record
remove_trade state id = elim (lookup id state.trades) [
  | none ↦ (state, not_found)
  | some r ↦ (
    record state { trades = map_remove id state.trades; sent = state.sent ++ drop_record (some r) },
    no_content,
  )
]
