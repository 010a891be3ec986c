-- ===== src/FxPricing/Trades.antt =====
-- The life of a trade.
use reactive_graph_experimen.Base.{
  ℕ, ◌≡◌, ◌≢◌, arith, refl, Option, sym, ap, ap₂, ◌∙◌, none, some, List, [], ◌∷◌, ◌++◌,
  append_assoc, append-nil, map, lookup, insert, remove as map_remove, lookup-insert, lookup-remove,
  Text, text_eq, eq_refl, eq_cases, ◌⊎◌, inl, inr,
}
use reactive_graph_experimen.NodeRef.{NodeId}
use reactive_graph_experimen.Subgraph.{Subgraph}
use reactive_graph_experimen.EventLoop.{Command}
use reactive_graph_experimen.EventLoop.Handle.{RemoteSubgraphHandle, drop_remote, merge}
use reactive_graph_experimen.FxPricing.Types.{
  CurrencyPair, display, to_uppercase, from_str_iff, from_str_unknown, from_str-err,
  unknown_currency_pair, TradeRequest, TradeResponse, Parsed, ok, err, from_str,
}
use reactive_graph_experimen.FxPricing.Nodes.{Runtime, build_trade_subgraph}
use reactive_graph_experimen.FxPricing.Diagram.{IsApart, trade, build_trade_subgraph-some}
use reactive_graph_experimen.FxPricing.Api.{
  StatusCode, Created, created, bad_request, internal_server_error, no_content, TradeRecord,
  AppState, Outside, success, failure, drop_record, insert_trade, create_with, spread_of,
  create_trade, remove_trade,
}

-- The nodes of a trade's subgraph.
abbrev pub trade_nodes : Runtime → Outside → TradeRequest → CurrencyPair → Text → List NodeId
trade_nodes r outside req pair redis_url =
    map (λ d. d.id)
      (trade r outside.bid_guard outside.ask_guard (spread_of outside req pair) redis_url)

abbrev pub trade_subgraph : Runtime → Outside → TradeRequest → CurrencyPair → Text → Subgraph
trade_subgraph r outside req pair redis_url = record {
  descriptors = trade r outside.bid_guard outside.ask_guard (spread_of outside req pair) redis_url;
  node_ids = trade_nodes r outside req pair redis_url;
}

module _ (upper : ℕ → Text) (r : Runtime) (outside : Outside) (state : AppState)
    (req : TradeRequest) (pair : CurrencyPair) (named : to_uppercase upper req.pair ≡ display pair)
    (joined : outside.join_error ≡ none) (apart : IsApart r pair) where
  create_step :
      create_trade upper r outside state req
      ≡ some
          (create_with outside state req pair (trade_subgraph r outside req pair state.redis_url))
  unfolding create_trade
  create_step =
      rw
        (
          (from_str_iff upper req.pair pair).1 named,
          joined,
          build_trade_subgraph-some r outside.bid_guard outside.ask_guard
              (spread_of outside req pair) state.redis_url apart,
          create_trade,
        )
        refl

  -- A trade that is created and then removed.
  pub record IsUndone : Type 0 where
    pub after_create : AppState
    pub response : TradeResponse
    pub creates :
        create_trade upper r outside state req ≡ some (after_create, success created response)
    pub removes : (remove_trade after_create outside.uuid).1 ≡ no_content
    pub trades :
        (id : Text)
        → lookup id (remove_trade after_create outside.uuid).0.trades ≡ lookup id state.trades
    pub sent :
        (remove_trade after_create outside.uuid).0.sent
        ≡ state.sent
          ++ Command.merge (trade_subgraph r outside req pair state.redis_url)
            ∷ Command.remove (trade_nodes r outside req pair state.redis_url)
            ∷ []

  abbrev handle : RemoteSubgraphHandle
  handle = (merge (trade_subgraph r outside req pair state.redis_url) outside.reply).1

  abbrev after : AppState
  after = (create_with outside state req pair (trade_subgraph r outside req pair state.redis_url)).0

  abbrev stored : TradeRecord
  stored = record {
    info = record {
      trade_id = outside.uuid;
      pair = display pair;
      client = req.client;
      spread_bps = req.spread_bps;
    };
    handle = handle;
  }

  trades-after : after.trades ≡ insert outside.uuid stored state.trades
  unfolding create_with insert_trade
  trades-after = refl

  lookup-after : lookup outside.uuid after.trades ≡ some stored
  lookup-after =
      ap (lookup outside.uuid) trades-after
      ∙ lookup-insert outside.uuid outside.uuid stored state.trades
      ∙ rw (eq_refl outside.uuid) refl

  removed : remove_trade after outside.uuid ≡ (
    record after {
      trades = map_remove outside.uuid after.trades;
      sent = after.sent ++ drop_record (some stored);
    },
    no_content,
  )
  unfolding remove_trade
  removed = rw (lookup-after, remove_trade) refl

  -- Removal takes the new entry out again, if there was none before.
  restored :
      lookup outside.uuid state.trades ≡ none
      → (id : Text) → lookup id (map_remove outside.uuid after.trades) ≡ lookup id state.trades
  restored fresh id = lookup-remove outside.uuid id after.trades ∙ elim (eq_cases outside.uuid id) [
    | inl same ↦ rw same.0 (sym fresh ∙ ap (λ k. lookup k state.trades) same.1)
    | inr other ↦ rw other.0 (
        ap (lookup id) trades-after
        ∙ lookup-insert outside.uuid id stored state.trades
        ∙ rw other.0 refl)
  ]

  sent-after :
      lookup outside.uuid state.trades ≡ none
      → after.sent
        ≡ state.sent ++ Command.merge (trade_subgraph r outside req pair state.redis_url) ∷ []
  unfolding create_with insert_trade drop_record merge
  sent-after fresh = rw (fresh, create_with, insert_trade) (append-nil _)

  drop-stored :
      outside.reply ≡ some (trade_nodes r outside req pair state.redis_url)
      → drop_record (some stored)
        ≡ Command.remove (trade_nodes r outside req pair state.redis_url) ∷ []
  unfolding drop_record drop_remote merge
  drop-stored answered = rw (answered, merge) refl

  -- A request for a known pair, in any case of letters, creates a trade with the drawn identifier;
  -- removing it leaves the trades as they were, and the engine has been sent the trade's subgraph
  -- and then the removal of exactly its nodes. The identifier is new, the loop answers with the
  -- nodes of the subgraph, the task is joined, and the types and hashes of the nodes differ.
  pub create_trade-remove_trade :
      lookup outside.uuid state.trades ≡ none
      → outside.reply ≡ some (trade_nodes r outside req pair state.redis_url)
      → IsUndone
  unfolding create_with insert_trade
  create_trade-remove_trade fresh answered = record {
    after_create = after;
    response = record {
      trade_id = outside.uuid;
      pair = display pair;
      client = req.client;
      spread_bps = req.spread_bps;
    };
    creates = create_step;
    removes = ap (λ p. p.1) removed;
    trades = λ id. ap (λ p. lookup id p.0.trades) removed ∙ restored fresh id;
    sent =
        ap (λ p. p.0.sent) removed
        ∙ ap₂ (λ xs ys. xs ++ ys) (sent-after fresh) (drop-stored answered)
        ∙ append_assoc state.sent _ _;
  }

pub create_trade_refused :
    (upper : ℕ → Text) (r : Runtime) (outside : Outside) (state : AppState) (req : TradeRequest)
    → ((pair : CurrencyPair) → to_uppercase upper req.pair ≢ display pair)
    → create_trade upper r outside state req
      ≡ some (state, failure bad_request (unknown_currency_pair ++ req.pair))
unfolding create_trade
create_trade_refused upper r outside state req no_pair =
    rw (from_str_unknown upper req.pair no_pair, create_trade) refl

-- Why a request fails with a status and a message.
abbrev pub Reason : (ℕ → Text) → Outside → TradeRequest → StatusCode → Text → Type 0
Reason upper outside req status message =
    ((status ≡ bad_request)
      × (message ≡ unknown_currency_pair ++ req.pair)
      × ¬ ((pair : CurrencyPair) × (to_uppercase upper req.pair ≡ display pair)))
    ⊎ ((status ≡ internal_server_error)
        × (outside.join_error ≡ some message)
        × ((pair : CurrencyPair) × (to_uppercase upper req.pair ≡ display pair)))

module _ (upper : ℕ → Text) (r : Runtime) (outside : Outside) (state : AppState)
    (req : TradeRequest) (after : AppState) (status : StatusCode) (message : Text) where
  abbrev Failed : Option (AppState × Created) → Type 0
  Failed result = result ≡ some (after, failure status message)

  Failed-state :
      (s : AppState) (code : StatusCode) (m : Text)
      → Failed (some (s, failure code m))
      → (after ≡ s) × (status ≡ code) × (message ≡ m)
  Failed-state s code m h = (cc, cc, cc)

  built_not-Failed :
      (pair : CurrencyPair) (subgraph : Option Subgraph)
      → Failed
          (elim subgraph [ none ↦ none | some g ↦ some (create_with outside state req pair g) ])
      → ⊥
  unfolding create_with
  built_not-Failed pair none h = ground (arith, h)
  built_not-Failed pair (some g) h = ground (arith, h)

  -- A request fails only with the state as it was: as a bad request, where no pair has the name, and
  -- with the message that quotes it; or as an internal error, with the message of the task that could
  -- not be joined, where a pair has the name.
  pub create_trade_failed :
      create_trade upper r outside state req ≡ some (after, failure status message)
      → (after ≡ state) × Reason upper outside req status message
  unfolding create_trade
  create_trade_failed h = by_result (from_str upper req.pair) refl h
    where
      by_join :
          (pair : CurrencyPair) (joined : Option Text)
          → from_str upper req.pair ≡ ok pair
          → outside.join_error ≡ joined
          → Failed (elim joined [
            | some m ↦ some (state, failure internal_server_error m)
            | none ↦
                elim (build_trade_subgraph r outside.bid_guard outside.ask_guard
                  (spread_of outside req pair)
                  state.redis_url) [
                    | none ↦ none
                    | some g ↦ some (create_with outside state req pair g)
                  ]
          ])
          → (after ≡ state) × Reason upper outside req status message
      by_join pair none read joined f = absurd (built_not-Failed pair _ f)
      by_join pair (some m) read joined f =
          let (same, code, text) = Failed-state state internal_server_error m f in
          (
            same,
            inr (
              code,
              joined ∙ ap some (sym text),
              (pair, (from_str_iff upper req.pair pair).0 read),
            ),
          )

      by_result :
          (p : Parsed)
          → from_str upper req.pair ≡ p
          → Failed (elim p [
            | err m ↦ some (state, failure bad_request m)
            | ok pair ↦ elim outside.join_error [
              | some m ↦ some (state, failure internal_server_error m)
              | none ↦
                  elim (build_trade_subgraph r outside.bid_guard outside.ask_guard
                    (spread_of outside req pair)
                    state.redis_url) [
                      | none ↦ none
                      | some g ↦ some (create_with outside state req pair g)
                    ]
            ]
          ])
          → (after ≡ state) × Reason upper outside req status message
      by_result (err m) read f =
          let (same, code, text) = Failed-state state bad_request m f in
          let (says, no_pair) = from_str-err upper req.pair m read in
          (same, inl (code, text ∙ says, no_pair))
      by_result (ok pair) read f = by_join pair outside.join_error read refl f
