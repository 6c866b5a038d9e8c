-- ===== src/Tests/Feed.antt =====
-- Ticks, candles and subscriptions on concrete values.
use nexa_trade.Prelude.{
  ℕ, ◌+◌, ◌*◌, ◌≡◌, refl, Bool, true, false, Option, none, some, List, [], ◌∷◌, ◌++◌, All, arith,
  if◌then◌else◌,
}
use nexa_trade.Prelude.Int.{ℤ, pos}
use nexa_trade.Text.{Text, codes, text_eq, upper}
use nexa_trade.Dict.{lookup}
use nexa_trade.Outcome.{ok, raised, connection_error}
use nexa_trade.Float.Fixed.{Fixed, fixed_float, Fixed-IsOrdered}
use nexa_trade.Models.Market.{TickData}
use nexa_trade.Timing.{floor_to_minute}
use nexa_trade.Timing.Instant.{floor_instant, instant_of, time_of}
use nexa_trade.Aggregator.{
  Running, Aggregator, boundary_of, start_new_candle, ingest, update_candle, process_tick,
  process_ticks, candle_of,
}
use nexa_trade.Aggregator.Bars.{Bars, process_ticks-Bars}
use nexa_trade.Aggregator.Range.{CandleInRange, CurrentInRange, process_ticks-InRange}
use nexa_trade.Aggregator.Race.{begin_tick, finish_tick, overlapping_ticks}
use nexa_trade.Ring.{push_bounded}
use nexa_trade.FeedService.{
  FeedService, Sources, Subscription, symbol_key, refs_of, subscribe, unsubscribe, unsubscribe_all,
}
use nexa_trade.FeedService.Refs.{
  FeedCall, sub, unsub, left_after, IsFeed, IsCounted, run_calls, run_calls-IsCounted,
}
use nexa_trade.FeedService.Leaks.{unsubscribe_stranger, unsubscribe_all_leaks}

-- A tick of INFY at a second of a day.
abbrev tick : ℕ → ℤ → TickData Fixed
tick second price = record {
  symbol = codes "INFY";
  exchange = codes "NSE";
  broker_name = codes "paper";
  last_price = price;
  volume = pos 10;
  timestamp = second * 1000000;
}

abbrev running : Running Fixed
running = record {
  datetime = 0;
  open_ = pos 1000;
  high = pos 1200;
  low = pos 900;
  close = pos 900;
  volume = pos 300000;
}

-- The aggregator of a minute, with or without a candle in progress.
abbrev minutes : Option (Running Fixed) → Aggregator Fixed
minutes current = record {
  symbol = codes "INFY";
  exchange = codes "NSE";
  interval = codes "1minute";
  interval_minutes = pos 1;
  broker_name = codes "paper";
  buffer_size = 500;
  buffer = [];
  current = current;
  listeners = [];
}

abbrev ticks : List (TickData Fixed)
ticks = tick 20 (pos 1200) ∷ tick 59 (pos 900) ∷ tick 60 (pos 950) ∷ []

ticks_close_one :
    (process_ticks (tick 10 (pos 1000) ∷ ticks) (minutes none)).0
    ≡ candle_of (minutes none) running ∷ []
unfolding process_ticks process_tick ingest start_new_candle floor_instant instant_of
    floor_to_minute time_of update_candle fixed_float
ticks_close_one = refl

process_ticks-Bars_example :
    Bars
      (minutes none)
      (tick 10 (pos 1000) ∷ ticks)
      (process_ticks (tick 10 (pos 1000) ∷ ticks) (minutes none))
process_ticks-Bars_example = process_ticks-Bars (tick 10 (pos 1000)) ticks (minutes none) refl

process_ticks-InRange_example :
    All CandleInRange (process_ticks ticks (minutes none)).0
    × CurrentInRange (process_ticks ticks (minutes none)).1.current
unfolding fixed_float
process_ticks-InRange_example =
    process_ticks-InRange Fixed-IsOrdered ticks (minutes none) (refl, (refl, (refl, tt))) tt

ticks_overlap :
    let a = minutes (some running) in
    let (closed, more, a1) = begin_tick (tick 60 (pos 950)) a in
    let (again, more', a2) = begin_tick (tick 61 (pos 960)) a1 in
    let last = finish_tick (tick 61 (pos 960)) more' (finish_tick (tick 60 (pos 950)) more a2) in
    (closed ≡ candle_of a running ∷ [])
    × (again ≡ candle_of a running ∷ [])
    × (last.buffer
        ≡ push_bounded 500 (candle_of a running) (push_bounded 500 (candle_of a running) []))
    × (last.current
        ≡ some (start_new_candle (tick 61 (pos 960)) (boundary_of (pos 1) (tick 61 (pos 960)))))
unfolding floor_instant instant_of floor_to_minute time_of
ticks_overlap =
    overlapping_ticks (tick 60 (pos 950)) (tick 61 (pos 960)) (minutes (some running)) running refl
      (ground arith) (ground arith)

-- A broker that keeps which symbols it feeds.
abbrev pub sources : Sources (Text → Bool) Fixed
sources = record {
  active_broker_name = codes "paper";
  subscribe_ticks = λ symbol exchange live.
      (ok tt, λ j. if text_eq (symbol ++ (codes ":" ++ exchange)) j then true else live j);
  unsubscribe_ticks = λ symbol exchange live.
      (ok tt, λ j. if text_eq (symbol ++ (codes ":" ++ exchange)) j then false else live j);
  influx_candles = λ symbol exchange interval. raised connection_error;
  broker_candles = λ symbol exchange interval. ok [];
}

unfoldable sources-IsFeed : IsFeed sources
unfolding symbol_key
sources-IsFeed = record {
  live = λ live j. live j;
  subscribe_ok = λ symbol exchange b. refl;
  live-subscribe = λ symbol exchange b j. refl;
  unsubscribe_ok = λ symbol exchange b. refl;
  live-unsubscribe = λ symbol exchange b j. refl;
}

abbrev chart : Subscription
chart = record {
  symbol = codes "INFY";
  exchange = codes "NSE";
  interval = none;
  consumer_id = codes "chart";
  tick_callback = some 7;
  candle_callback = none;
  seed_history = false;
}

abbrev infy : Text
infy = codes "INFY:NSE"

abbrev pub fed : List (Text × ℕ) → FeedService Fixed
fed refs = record {
  subscription_refs = refs;
  consumers = [];
  aggregators = [];
  default_interval = codes "1minute";
  is_running = true;
}

abbrev calls : List FeedCall
calls = sub chart ∷ sub chart ∷ unsub (codes "infy") (codes "nse") (codes "chart") none ∷ []

run_calls-IsCounted_example :
    IsCounted sources sources-IsFeed infy
      (left_after infy calls 0)
      (run_calls sources calls (fed []) (λ j. false))
unfolding lookup sources-IsFeed
run_calls-IsCounted_example =
    run_calls-IsCounted sources sources-IsFeed calls infy 0 (fed []) (λ j. false) refl refl

stranger_ends_feed :
    let (_, s', b') =
      unsubscribe sources
        (codes "INFY")
        (codes "NSE")
        (codes "other")
        none
        (fed ((infy, 1) ∷ []))
        (λ j. true) in
    (s'.consumers ≡ [])
    × (lookup (symbol_key (codes "INFY") (codes "NSE")) s'.subscription_refs ≡ none)
    × (sources-IsFeed.live b' (symbol_key (codes "INFY") (codes "NSE")) ≡ false)
unfolding symbol_key lookup text_eq upper
stranger_ends_feed =
    unsubscribe_stranger sources sources-IsFeed (codes "INFY") (codes "NSE") (codes "other") none
      (fed ((infy, 1) ∷ [])) (λ j. true) refl refl

subscriptions_leak :
    let (_, s', b') = subscribe sources chart (fed []) (λ j. false) in
    let (_, s'', b'') =
      subscribe sources (record chart { interval = some (codes "5minute") }) s' b' in
    refs_of
      (symbol_key (codes "INFY") (codes "NSE"))
      (unsubscribe_all sources (codes "chart") s'' b'').1.subscription_refs
    ≡ refs_of (symbol_key (codes "INFY") (codes "NSE")) [] + 1
unfolding lookup
subscriptions_leak =
    unsubscribe_all_leaks sources chart (some (codes "5minute")) 7 (fed []) (λ j. false) refl
      (ground arith) refl
