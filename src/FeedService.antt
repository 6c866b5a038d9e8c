-- ===== src/FeedService.antt =====
-- services/feed_service.py, class FeedService: who wants the feed of which symbol. The broker's
-- `subscribe_ticks` and `unsubscribe_ticks`, and the sources of past candles, are parameters. Writing
-- quotes to Redis and ticks to InfluxDB and publishing, whose exceptions are dropped, are left out.
pub mod Ticks
pub mod Refs
pub mod Leaks
use nexa_trade.Prelude.{
  ℕ, zero, suc, ◌+◌, ◌-◌, ◌*◌, Bool, true, false, ◌&&◌, Option, none, some, List, [], ◌∷◌, ◌++◌,
  map, get_or, length, ltb, ◌==◌, if◌then◌else◌,
}
use nexa_trade.Prelude.Int.{ℤ, pos}
use nexa_trade.Text.{Text, codes, text_eq, upper}
use nexa_trade.Dict.{Dict, lookup, contains, insert, erase}
use nexa_trade.Float.{Float}
use nexa_trade.Outcome.{Outcome, ok, raised}
use nexa_trade.Models.Market.{Ohlcv, TickData}
use nexa_trade.Aggregator.{
  Running, Aggregator, new_aggregator, on_candle_close, seed_from_history, force_close_current,
  process_tick, get_candles, latest_candle, candle_count,
}

-- `INTERVAL_MINUTES`
abbrev pub interval_table : Dict ℤ
interval_table =
    (codes "1second", pos 0)
    ∷ (codes "1minute", pos 1)
    ∷ (codes "5minute", pos 5)
    ∷ (codes "15minute", pos 15)
    ∷ (codes "30minute", pos 30)
    ∷ (codes "1hour", pos 60)
    ∷ (codes "1day", pos 1440)
    ∷ []

unfoldable pub interval_minutes : Text → ℤ
interval_minutes interval = get_or (lookup interval interval_table) (pos 1)

pub record FeedService (F : Type 0) : Type 0 where
  pub subscription_refs : Dict ℕ
  pub consumers : Dict (Dict ℕ)
  pub aggregators : Dict (Aggregator F)
  pub default_interval : Text
  pub is_running : Bool

-- What the service reaches outside: the name of the active broker, its feed, and past candles by
-- symbol, exchange and interval, from InfluxDB and from the broker.
pub record Sources (B F : Type 0) : Type 0 where
  pub active_broker_name : Text
  pub subscribe_ticks : Text → Text → B → Outcome (Unit {0}) × B
  pub unsubscribe_ticks : Text → Text → B → Outcome (Unit {0}) × B
  pub influx_candles : Text → Text → Text → Outcome (List (Ohlcv F))
  pub broker_candles : Text → Text → Text → Outcome (List (Ohlcv F))

-- The arguments of `subscribe`, its `consumer_id` given or generated.
pub record Subscription : Type 0 where
  pub symbol : Text
  pub exchange : Text
  pub interval : Option Text
  pub consumer_id : Text
  pub tick_callback : Option ℕ
  pub candle_callback : Option ℕ
  pub seed_history : Bool

-- `f"{symbol}:{exchange}"` of texts in upper case
unfoldable pub symbol_key : Text → Text → Text
symbol_key symbol exchange = upper symbol ++ (codes ":" ++ upper exchange)

abbrev pub aggregator_key : Text → Text → Text
aggregator_key sym_key interval = sym_key ++ (codes ":" ++ interval)

-- `interval or self._default_interval`
abbrev pub interval_or : Option Text → Text → Text
interval_or none default_interval = default_interval
interval_or (some []) default_interval = default_interval
interval_or (some (c ∷ t)) default_interval = c ∷ t

-- The count of a key in a `defaultdict(int)`.
abbrev pub refs_of : Text → Dict ℕ → ℕ
refs_of key refs = get_or (lookup key refs) 0

-- The callbacks of a consumer without one symbol; the consumer goes with its last symbol.
unfoldable pub drop_callback : Text → Text → Dict (Dict ℕ) → Dict (Dict ℕ)
drop_callback consumer_id sym_key consumers = elim (lookup consumer_id consumers) [
  | none ↦ consumers
  | some callbacks ↦ elim (erase sym_key callbacks) [
    | [] ↦ erase consumer_id consumers
    | e ∷ rest ↦ insert consumer_id (e ∷ rest) consumers
  ]
]

abbrev pub set_callback : Option ℕ → Text → Dict ℕ → Dict ℕ
set_callback none sym_key callbacks = callbacks
set_callback (some callback) sym_key callbacks = insert sym_key callback callbacks

abbrev pub add_listener : {F : Type 0} → Option ℕ → Aggregator F → Aggregator F
add_listener none a = a
add_listener (some callback) a = on_candle_close callback a

-- `sym_key.split(":", 1)`
unfoldable pub split_key : Text → Text × Text
split_key [] = ([], [])
split_key (c ∷ t) =
    let (symbol, exchange) = split_key t in if c == b':' then ([], t) else (c ∷ symbol, exchange)

module _ {B F : Type 0} (w : Sources B F) where
  -- `_seed_aggregator`: InfluxDB's candles if there are any, else the broker's; what raises is dropped.
  unfoldable pub seed_by :
      Outcome (List (Ohlcv F)) → Outcome (List (Ohlcv F)) → Aggregator F → Aggregator F
  seed_by (ok (c ∷ cs)) broker a = seed_from_history (c ∷ cs) a
  seed_by (ok []) (ok candles) a = seed_from_history candles a
  seed_by (raised e) (ok candles) a = seed_from_history candles a
  seed_by _ (raised e) a = a

  unfoldable pub fresh_aggregator : Text → Text → Text → Bool → Aggregator F
  fresh_aggregator symbol exchange interval seed_history =
      let a =
        new_aggregator symbol exchange interval (interval_minutes interval) w.active_broker_name
          500 in
      if seed_history
      then seed_by (w.influx_candles (upper symbol) (upper exchange) interval)
          (w.broker_candles (upper symbol) (upper exchange) interval) a
      else a

  -- The aggregator of a subscription, with its candle callback.
  unfoldable pub with_aggregator : Subscription → Text → Dict (Aggregator F) → Dict (Aggregator F)
  with_aggregator p interval aggregators =
      let key = aggregator_key (symbol_key p.symbol p.exchange) interval in
      elim (lookup key aggregators) [
        | none ↦
            insert key
              (add_listener p.candle_callback
                (fresh_aggregator p.symbol p.exchange interval p.seed_history))
              aggregators
        | some a ↦ insert key (add_listener p.candle_callback a) aggregators
      ]

  -- `subscribe` up to the broker: aggregator, callbacks, and the count.
  unfoldable pub register_subscription : Subscription → FeedService F → FeedService F
  register_subscription p s =
      let sym_key = symbol_key p.symbol p.exchange in
      record s {
        aggregators = with_aggregator p (interval_or p.interval s.default_interval) s.aggregators;
        consumers =
            insert p.consumer_id
              (set_callback p.tick_callback sym_key (get_or (lookup p.consumer_id s.consumers) []))
              s.consumers;
        subscription_refs =
            insert sym_key (refs_of sym_key s.subscription_refs + 1) s.subscription_refs;
      }

  -- The broker is asked for the first subscription only. What it raises goes to the caller; the count
  -- stays.
  unfoldable pub subscribe : Subscription → FeedService F → B → Outcome Text × FeedService F × B
  subscribe p s b =
      let s' = register_subscription p s in
      if refs_of (symbol_key p.symbol p.exchange) s'.subscription_refs == 1
      then elim (w.subscribe_ticks (upper p.symbol) (upper p.exchange) b).0 [
        | ok _ ↦ (ok p.consumer_id, s', (w.subscribe_ticks (upper p.symbol) (upper p.exchange) b).1)
        | raised e ↦ (raised e, s', (w.subscribe_ticks (upper p.symbol) (upper p.exchange) b).1)
      ]
      else (ok p.consumer_id, s', b)

  -- `subscribe_many`: one call for each instrument, NSE where it names no exchange, until one raises.
  unfoldable pub subscribe_many :
      List (Text × Option Text)
      → Subscription
      → FeedService F
      → B
      → Outcome (Unit {0}) × FeedService F × B
  subscribe_many [] p s b = (ok tt, s, b)
  subscribe_many ((symbol, exchange) ∷ instruments) p s b =
      let q : Subscription = record p {
        symbol = symbol;
        exchange = get_or exchange (codes "NSE");
      } in
      let (answer, s', b') = subscribe q s b in
      elim answer [ raised e ↦ (raised e, s', b') | ok _ ↦ subscribe_many instruments p s' b' ]

  -- `unsubscribe`: the callback goes, the count falls, and with a count of zero the broker's feed and
  -- the aggregator of the interval go too.
  unfoldable pub unsubscribe :
      Text → Text → Text → Option Text → FeedService F → B → Outcome (Unit {0}) × FeedService F × B
  unsubscribe symbol exchange consumer_id interval s b =
      let sym_key = symbol_key symbol exchange in
      let consumers = drop_callback consumer_id sym_key s.consumers in
      let refs = refs_of sym_key s.subscription_refs - 1 in
      if refs == 0
      then (let s' : FeedService F = record s {
        consumers = consumers;
        subscription_refs = erase sym_key s.subscription_refs;
      } in
          let s'' : FeedService F = record s' {
            aggregators =
                erase (aggregator_key sym_key (interval_or interval s.default_interval))
                  s.aggregators;
          } in
          elim (w.unsubscribe_ticks (upper symbol) (upper exchange) b).0 [
            | ok _ ↦ (ok tt, s'', (w.unsubscribe_ticks (upper symbol) (upper exchange) b).1)
            | raised e ↦ (raised e, s', (w.unsubscribe_ticks (upper symbol) (upper exchange) b).1)
          ])
      else (
        ok tt,
        record s {
          consumers = consumers;
          subscription_refs = insert sym_key refs s.subscription_refs;
        },
        b,
      )

  -- `unsubscribe_all`: one call for each symbol of the consumer, until one raises.
  unfoldable pub unsubscribe_keys :
      List Text → Text → FeedService F → B → Outcome (Unit {0}) × FeedService F × B
  unsubscribe_keys [] consumer_id s b = (ok tt, s, b)
  unsubscribe_keys (key ∷ keys) consumer_id s b =
      let (symbol, exchange) = split_key key in
      elim (unsubscribe symbol exchange consumer_id none s b).0 [
        | raised e ↦ unsubscribe symbol exchange consumer_id none s b
        | ok _ ↦
            (let (_, s', b') = unsubscribe symbol exchange consumer_id none s b in
              unsubscribe_keys keys consumer_id s' b')
      ]

  unfoldable pub unsubscribe_all : Text → FeedService F → B → Outcome (Unit {0}) × FeedService F × B
  unsubscribe_all consumer_id s b =
      unsubscribe_keys (map (λ (e : Text × ℕ). e.0) (get_or (lookup consumer_id s.consumers) []))
        consumer_id s b

module _ {F : Type 0} where
  -- `stop`: everything is cleared; the partial candles that are closed go with their aggregators.
  unfoldable pub stop : FeedService F → FeedService F
  stop s = record s { is_running = false; aggregators = []; subscription_refs = []; consumers = [] }

  abbrev pub subscribed_symbols : FeedService F → List Text
  subscribed_symbols s = map (λ (e : Text × ℕ). e.0) s.subscription_refs

  abbrev pub active_consumers : FeedService F → List Text
  active_consumers s = map (λ (e : Text × Dict ℕ). e.0) s.consumers

  -- The counts of `get_feed_stats`
  unfoldable pub get_feed_stats : FeedService F → Bool × ℕ × ℕ × ℕ × Dict ℕ
  get_feed_stats s = (
    s.is_running,
    length s.subscription_refs,
    length s.consumers,
    length s.aggregators,
    map (λ (e : Text × Aggregator F). (e.0, candle_count e.1)) s.aggregators,
  )
