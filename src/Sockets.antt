-- ===== src/Sockets.antt =====
-- api/routes/websocket.py: the connections by key, and the sessions that stream ticks to them. A
-- number stands for a web socket, and for the closure of a session that is the tick callback; whether
-- a socket takes a text is a parameter, and a broadcast is one step. Authentication and the texts
-- themselves are left out.
pub mod Manager
pub mod Copies
pub mod Cutoff
use nexa_trade.Prelude.{
  ℕ, Bool, true, false, Option, none, some, List, [], ◌∷◌, ◌++◌, length, get_or, keep_if, not,
  if◌then◌else◌,
}
use nexa_trade.Text.{Text, codes, text_eq, upper}
use nexa_trade.Dict.{Dict, lookup, insert, erase}
use nexa_trade.Outcome.{Outcome, ok, raised}
use nexa_trade.Callbacks.{unregister}
use nexa_trade.Models.Market.{TickData}
use nexa_trade.FeedService.{FeedService, Sources, Subscription, symbol_key, subscribe, unsubscribe}

-- `WebSocketManager._connections`
abbrev pub Connections : Type 0
Connections = Dict (List ℕ)

-- `self._connections.get(key, [])`
abbrev pub sockets_of : Text → Connections → List ℕ
sockets_of key connections = get_or (lookup key connections) []

-- `WebSocketManager.connect`
unfoldable pub connect : ℕ → Text → Connections → Connections
connect ws key connections = insert key (sockets_of key connections ++ ws ∷ []) connections

-- The list of a key after a socket was taken out: a key without sockets goes.
unfoldable pub store : Text → List ℕ → Connections → Connections
store key [] connections = erase key connections
store key (ws ∷ rest) connections = insert key (ws ∷ rest) connections

-- `WebSocketManager.disconnect`
unfoldable pub disconnect : ℕ → Text → Connections → Connections
disconnect ws key connections = store key (unregister ws (sockets_of key connections)) connections

unfoldable pub disconnect_all : List ℕ → Text → Connections → Connections
disconnect_all [] key connections = connections
disconnect_all (ws ∷ dead) key connections = disconnect_all dead key (disconnect ws key connections)

-- `WebSocketManager.broadcast`: the sockets that take the text, and then the others disconnected
unfoldable pub broadcast : (ℕ → Bool) → Text → Connections → List ℕ × Connections
broadcast takes key connections =
    let sockets = sockets_of key connections in
    (keep_if takes sockets, disconnect_all (keep_if (λ ws. not (takes ws)) sockets) key connections)

abbrev pub connection_count : Text → Connections → ℕ
connection_count key connections = length (sockets_of key connections)

-- What the closure `on_tick` of a session has: its key and its symbol.
pub record Closure : Type 0 where
  pub sym_key : Text
  pub symbol : Text

-- The closure, called with a tick of a symbol: whom it reaches
unfoldable pub call_on_tick : (ℕ → Bool) → Closure → Text → Connections → List ℕ × Connections
call_on_tick takes session tick_symbol connections =
    if text_eq (upper tick_symbol) (upper session.symbol)
    then broadcast takes session.sym_key connections
    else ([], connections)

-- A callback that belongs to no session, as of a strategy, reaches nobody.
unfoldable pub call_callback :
    (ℕ → Bool) → Option Closure → Text → Connections → List ℕ × Connections
call_callback takes none tick_symbol connections = ([], connections)
call_callback takes (some session) tick_symbol connections =
    call_on_tick takes session tick_symbol connections

-- The tick callbacks that the feed calls for one tick, one after the other: all that are reached
unfoldable pub deliver :
    (ℕ → Bool) → (ℕ → Option Closure) → List ℕ → Text → Connections → List ℕ × Connections
deliver takes closures [] tick_symbol connections = ([], connections)
deliver takes closures (callback ∷ callbacks) tick_symbol connections =
    let (reached, connections') = call_callback takes (closures callback) tick_symbol connections in
    let (more, last) = deliver takes closures callbacks tick_symbol connections' in
    (reached ++ more, last)

-- `f"ws_tick:{user['user_id']}:{sym_key}"`
unfoldable pub tick_consumer : Text → Text → Text
tick_consumer user_id sym_key = codes "ws_tick:" ++ (user_id ++ (codes ":" ++ sym_key))

-- What a session asks of the feed.
unfoldable pub tick_subscription : Text → Text → Text → ℕ → Subscription
tick_subscription symbol exchange user_id ws = record {
  symbol = upper symbol;
  exchange = upper exchange;
  interval = none;
  consumer_id = tick_consumer user_id (symbol_key symbol exchange);
  tick_callback = some ws;
  candle_callback = none;
  seed_history = true;
}

module _ {B F : Type 0} (w : Sources B F) where
  -- `ws_ticks` up to its loop. What `subscribe` raises leaves the socket connected.
  unfoldable pub open_ticks :
      Text
      → Text
      → Text
      → ℕ
      → Connections × FeedService F × B
      → Outcome Text × (Connections × FeedService F × B)
  open_ticks symbol exchange user_id ws (connections, s, b) =
      let (answer, s', b') = subscribe w (tick_subscription symbol exchange user_id ws) s b in
      (answer, (connect ws (symbol_key symbol exchange) connections, s', b'))

  -- Its `finally`, when the socket has disconnected
  unfoldable pub close_ticks :
      Text
      → Text
      → Text
      → ℕ
      → Connections × FeedService F × B
      → Outcome (Unit {0}) × (Connections × FeedService F × B)
  close_ticks symbol exchange user_id ws (connections, s, b) =
      let key = symbol_key symbol exchange in
      let (answer, s', b') =
        unsubscribe w (upper symbol) (upper exchange) (tick_consumer user_id key) none s b in
      (answer, (disconnect ws key connections, s', b'))
