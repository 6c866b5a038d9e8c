-- ===== src/Tests/Breeze.antt =====
-- The Breeze adapter with a client that keeps which symbols it streams, and whose values are numbers.
use nexa_trade.Prelude.{
  ℕ, suc, get_or, arith, ◌≡◌, refl, Bool, true, false, none, some, [], ◌∷◌, if◌then◌else◌, ◌==◌,
  not,
}
use nexa_trade.Prelude.Int.{pos}
use nexa_trade.Text.{Text, codes, text_eq, upper}
use nexa_trade.Dict.{lookup}
use nexa_trade.Float.Fixed.{Fixed, fixed_float}
use nexa_trade.Outcome.{ok, raised, backend_error, Returns}
use nexa_trade.Models.Enums.{
  TransactionType, OrderType, OrderStatus, ProductType, Exchange, Segment, TradingMode, given,
}
use nexa_trade.Models.Order.{OrderRequest, OrderResponse}
use nexa_trade.Brokers.{BrokerConfig, get_exchange_code}
use nexa_trade.Breeze.{
  Breeze, Reply, one, many, Vendor, Instrument, new_breeze, feed_key, connect, subscribe_ticks,
  key_of,
}
use nexa_trade.Breeze.Feed.{IsStream, at_first, by_connect, by_subscribe, InStep, Reached-InStep}
use nexa_trade.Breeze.Reconnect.{subscribe_ticks-connect}
use nexa_trade.Breeze.Orders.{Values, order_args, placed, call, place_order}
use nexa_trade.Breeze.Candles.{Request, History, get_historical_data}
use nexa_trade.Breeze.History.{Collected, get_historical_data_lem}
use nexa_trade.Breeze.Status.{Behind, place_order-Behind}

abbrev config : BrokerConfig
config = record {
  exchange_map = [];
  order_type_map = [];
  transaction_type_map = [];
  interval_map = [];
}

abbrev accepted : Reply ℕ
accepted = record { is_ok = true; success = one ((codes "order_id", 7) ∷ []); error = none }

abbrev vendor : Vendor (Text → Bool) ℕ
vendor = record {
  credentials = ok true;
  open_session = λ live. (ok tt, λ j. false);
  ws_disconnect = λ live. (ok tt, live);
  customer_details = λ live. (ok true, live);
  place_order = λ args live. (ok (some accepted), live);
  modify_order = λ args live. (raised backend_error, live);
  cancel_order = λ id live. (ok none, live);
  get_order_detail = λ id live. (ok none, live);
  get_order_list = λ from_date to_date live. (ok none, live);
  append_on_ticks = λ live. (ok tt, live);
  subscribe_feeds =
      λ code symbol live. (ok tt, λ j. if text_eq (feed_key symbol code) j then true else live j);
  unsubscribe_feeds =
      λ code symbol live. (ok tt, λ j. if text_eq (feed_key symbol code) j then false else live j);
}

unfoldable stream : IsStream vendor config
stream = record {
  live = λ live j. live j;
  live-open_session = λ live j. refl;
  live-append_on_ticks = λ live j. refl;
  live-subscribe_feeds = λ inst live j. refl;
  live-unsubscribe_feeds = λ inst live j. refl;
}

abbrev infy : Instrument
infy = record { symbol = codes "infy"; exchange = some (codes "NSE") }

abbrev opened : Breeze × (Text → Bool)
opened = (connect vendor (new_breeze, λ j. false)).1

Reached-InStep_example :
    InStep vendor config stream (subscribe_ticks vendor config (infy ∷ []) opened).1
unfolding new_breeze
Reached-InStep_example =
    Reached-InStep vendor config stream (subscribe_ticks vendor config (infy ∷ []) opened).1 (
      by_subscribe (infy ∷ []) opened.0 opened.1
        (by_connect new_breeze (λ j. false) refl (at_first (λ j. false))))

-- Connected, with one symbol counted as subscribed.
abbrev streaming : Breeze
streaming = record new_breeze { has_client = true; subscribed = text_eq (codes "INFY:NSE") }

subscribe_ticks-connect_example :
    let x = (connect vendor (streaming, λ j. true)).1 in
    stream.live (subscribe_ticks vendor config (infy ∷ []) x).1.1 (key_of config infy) ≡ false
unfolding new_breeze feed_key get_exchange_code upper lookup text_eq
subscribe_ticks-connect_example =
    subscribe_ticks-connect vendor config stream infy streaming (λ j. true) refl refl refl

abbrev values : Values ℕ Fixed
values = record {
  is_truthy = λ n. not (n == 0);
  int_of = λ n. ok (pos n);
  float_of = λ n. ok (pos n);
  str_of = λ n. n ∷ [];
  as_text = λ n. none;
  str_of_int = λ n. codes "1";
  str_of_float = λ x. codes "1";
}

abbrev order : OrderRequest Fixed
order = record {
  order_id = codes "a1";
  symbol = codes "INFY";
  exchange = Exchange.nse;
  segment = given Segment.eq;
  transaction_type = TransactionType.buy;
  order_type = OrderType.market;
  product_type = ProductType.intraday;
  quantity = pos 1;
  price = none;
  trigger_price = none;
  strategy_name = none;
  trading_mode = TradingMode.live;
}

abbrev opened_response : OrderResponse Fixed
opened_response = record {
  order_id = codes "a1";
  broker_order_id = some (7 ∷ []);
  status = OrderStatus.open_;
  rejection_reason = none;
  filled_quantity = pos 0;
  average_price = none;
  placed_at = some 5;
  updated_at = none;
  broker_name = codes "breeze";
  trading_mode = TradingMode.live;
}

place_order-Behind_example :
    (streaming.has_client ≡ true)
    × Behind vendor values order opened_response
        (vendor.place_order (order_args vendor values config order) (λ j. true)).0
unfolding new_breeze place_order call placed lookup text_eq
place_order-Behind_example =
    place_order-Behind vendor values config 5 order streaming (λ j. true) opened_response refl

-- A history of one candle for each request, at its start; the second request raises.
abbrev history : History ℕ ℕ
history = record {
  get_historical_data_v2 = λ start end b. (
    if b == 1
        then raised backend_error
        else ok (
            some record {
              is_ok = true;
              success = many (((codes "open", start) ∷ []) ∷ []);
              error = none;
            }),
    suc b,
  );
  datetime_of = λ row. ok (get_or (lookup (codes "open") row) 0);
}

abbrev asked : Request
asked = record { symbol = codes "infy"; exchange = codes "nse"; interval = codes "1day" }

get_historical_data_lem_example :
    Returns
      (Collected history values asked 10 20 1 0)
      (get_historical_data history values 10 asked 10 20 1 (streaming, 0)).0
unfolding new_breeze
get_historical_data_lem_example =
    get_historical_data_lem history values 10 asked 10 20 1 streaming 0 (omega arith) (omega arith)
      refl
