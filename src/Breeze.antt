-- ===== src/Breeze.antt =====
-- brokers/brokers/breeze/breeze_adapter.py, class BreezeAdapter. The vendor's client is a parameter:
-- each call of it may raise, and gives a reply, or None. So are the conversions of the values in a
-- reply. The free texts of the responses are left out.
pub mod Orders
pub mod Status
pub mod Feed
pub mod Reconnect
pub mod Candles
pub mod History
pub mod Rows
pub mod Reports
use nexa_trade.Prelude.{
  ℕ, Bool, true, false, Option, none, some, List, [], ◌∷◌, ◌++◌, if◌then◌else◌,
}
use nexa_trade.Prelude.Int.{ℤ}
use nexa_trade.Text.{Text, codes, text_eq, upper}
use nexa_trade.Dict.{Dict}
use nexa_trade.Outcome.{Error, Outcome, ok, raised, connection_error, runtime_error}
use nexa_trade.Models.Enums.{ConnectionState}
use nexa_trade.Brokers.{BrokerConfig, get_exchange_code}

-- `has_client` says that `_client` is not None, and `subscribed` is `_subscribed_symbols`.
pub record Breeze : Type 0 where
  pub has_client : Bool
  pub connection_state : ConnectionState
  pub subscribed : Text → Bool

-- What `.get("Success")` of a reply can be: nothing, one row, or rows.
pub data Success (J : Type 0) : Type 0 where
  nothing : Success J
  one : Dict J → Success J
  many : List (Dict J) → Success J

-- A reply: whether its status is 200, its rows, and its error.
pub record Reply (J : Type 0) : Type 0 where
  pub is_ok : Bool
  pub success : Success J
  pub error : Option Text

-- What `place_order` hands over, with its constant arguments left out.
pub record OrderArgs : Type 0 where
  pub stock_code : Text
  pub exchange_code : Text
  pub product : Text
  pub action : Text
  pub order_type : Text
  pub quantity : Text
  pub price : Text
  pub stoploss : Text

pub record ModifyArgs : Type 0 where
  pub order_id : Text
  pub quantity : Text
  pub price : Text
  pub stoploss : Text

-- The client, as the adapter calls it. `credentials` says whether all three are there, `open_session`
-- makes a client and its session, and `customer_details` whether the answer has status 200.
pub record Vendor (B J : Type 0) : Type 0 where
  pub credentials : Outcome Bool
  pub open_session : B → Outcome (Unit {0}) × B
  pub ws_disconnect : B → Outcome (Unit {0}) × B
  pub customer_details : B → Outcome Bool × B
  pub place_order : OrderArgs → B → Outcome (Option (Reply J)) × B
  pub modify_order : ModifyArgs → B → Outcome (Option (Reply J)) × B
  pub cancel_order : Text → B → Outcome (Option (Reply J)) × B
  pub get_order_detail : Text → B → Outcome (Option (Reply J)) × B
  pub get_order_list : Text → Text → B → Outcome (Option (Reply J)) × B
  pub append_on_ticks : B → Outcome (Unit {0}) × B
  pub subscribe_feeds : Text → Text → B → Outcome (Unit {0}) × B
  pub unsubscribe_feeds : Text → Text → B → Outcome (Unit {0}) × B

-- `BreezeAdapter()`
unfoldable pub new_breeze : Breeze
new_breeze = record {
  has_client = false;
  connection_state = ConnectionState.disconnected;
  subscribed = λ key. false;
}

-- An element of `symbols`.
pub record Instrument : Type 0 where
  pub symbol : Text
  pub exchange : Option Text

abbrev pub exchange_or : Option Text → Text
exchange_or none = codes "NSE"
exchange_or (some exchange) = exchange

-- `f"{symbol}:{exchange_code}"`
unfoldable pub feed_key : Text → Text → Text
feed_key symbol exchange_code = symbol ++ (codes ":" ++ exchange_code)

abbrev pub key_of : BrokerConfig → Instrument → Text
key_of cfg inst = feed_key (upper inst.symbol) (get_exchange_code cfg (exchange_or inst.exchange))

module _ {B J : Type 0} (w : Vendor B J) where
  abbrev pub set_state : ConnectionState → Breeze → Breeze
  set_state state s = record s { connection_state = state }

  -- What raises on the way, whatever it is, is raised as a ConnectionError. The client stays.
  abbrev pub session_by : Breeze → Outcome (Unit {0}) × B → Outcome Bool × (Breeze × B)
  session_by s (raised e, b) = (raised connection_error, (set_state ConnectionState.error s, b))
  session_by s (ok _, b) =
      (ok true, (record s { has_client = true; connection_state = ConnectionState.connected }, b))

  abbrev pub connect_by : Breeze × B → Outcome Bool → Outcome Bool × (Breeze × B)
  connect_by (s, b) (ok true) = session_by s (w.open_session b)
  connect_by (s, b) _ = (raised connection_error, (set_state ConnectionState.error s, b))

  unfoldable pub connect : Breeze × B → Outcome Bool × (Breeze × B)
  connect (s, b) = connect_by (set_state ConnectionState.connecting s, b) w.credentials

  unfoldable pub disconnect : Breeze × B → Breeze × B
  disconnect (s, b) =
      if s.has_client
      then (new_breeze, (w.ws_disconnect b).1)
      else (set_state ConnectionState.disconnected s, b)

  -- `is_connected`, an exception being False
  abbrev pub alive_by : Outcome Bool → Bool
  alive_by (ok alive) = alive
  alive_by (raised e) = false

  unfoldable pub is_connected : Breeze × B → Bool × B
  is_connected (s, b) =
      let (answer, b') = w.customer_details b in
      if s.has_client then (alive_by answer, b') else (false, b)

  -- One symbol of `subscribe_ticks`
  abbrev pub feed_by :
      Text → Bool → Breeze → Outcome (Unit {0}) × B → Outcome (Unit {0}) × (Breeze × B)
  feed_by key is_on s (raised e, b) = (raised e, (s, b))
  feed_by key is_on s (ok _, b) =
      (ok tt, (record s { subscribed = λ j. if text_eq key j then is_on else s.subscribed j }, b))

  unfoldable pub subscribe_one :
      BrokerConfig → Instrument → Breeze × B → Outcome (Unit {0}) × (Breeze × B)
  subscribe_one cfg inst (s, b) =
      let code = get_exchange_code cfg (exchange_or inst.exchange) in
      if s.subscribed (key_of cfg inst)
      then (ok tt, (s, b))
      else feed_by (key_of cfg inst) true s (w.subscribe_feeds code (upper inst.symbol) b)

  unfoldable pub unsubscribe_one :
      BrokerConfig → Instrument → Breeze × B → Outcome (Unit {0}) × (Breeze × B)
  unsubscribe_one cfg inst (s, b) =
      let code = get_exchange_code cfg (exchange_or inst.exchange) in
      if s.subscribed (key_of cfg inst)
      then feed_by (key_of cfg inst) false s (w.unsubscribe_feeds code (upper inst.symbol) b)
      else (ok tt, (s, b))

  -- The rest of a loop, which the first exception ends.
  abbrev pub then_on :
      Outcome (Unit {0}) × (Breeze × B)
      → (Breeze × B → Outcome (Unit {0}) × (Breeze × B))
      → Outcome (Unit {0}) × (Breeze × B)
  then_on (raised e, x) next = (raised e, x)
  then_on (ok _, x) next = next x

  unfoldable pub each :
      (Instrument → Breeze × B → Outcome (Unit {0}) × (Breeze × B))
      → List Instrument
      → Breeze × B
      → Outcome (Unit {0}) × (Breeze × B)
  each step [] x = (ok tt, x)
  each step (inst ∷ symbols) x = then_on (step inst x) (each step symbols)

  abbrev pub handled : Breeze → Outcome (Unit {0}) × B → Outcome (Unit {0}) × (Breeze × B)
  handled s (answer, b) = (answer, (s, b))

  unfoldable pub subscribe_ticks :
      BrokerConfig → List Instrument → Breeze × B → Outcome (Unit {0}) × (Breeze × B)
  subscribe_ticks cfg symbols (s, b) =
      if s.has_client
      then then_on (handled s (w.append_on_ticks b)) (each (subscribe_one cfg) symbols)
      else (raised runtime_error, (s, b))

  unfoldable pub unsubscribe_ticks :
      BrokerConfig → List Instrument → Breeze × B → Outcome (Unit {0}) × (Breeze × B)
  unsubscribe_ticks cfg symbols (s, b) =
      if s.has_client
      then each (unsubscribe_one cfg) symbols (s, b)
      else (raised runtime_error, (s, b))
