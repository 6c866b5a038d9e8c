-- ===== src/FeedService/Ticks.antt =====
-- services/feed_service.py, class FeedService: `_on_tick` and what can be read of the service.
use nexa_trade.Prelude.{
  ℕ, Bool, true, false, ◌&&◌, Option, none, some, List, [], ◌∷◌, ◌++◌, map, ◌==◌, if◌then◌else◌,
}
use nexa_trade.Text.{Text, codes}
use nexa_trade.Dict.{Dict, lookup}
use nexa_trade.Float.{Float}
use nexa_trade.Models.Market.{Ohlcv, TickData}
use nexa_trade.Aggregator.{Running, Aggregator, process_tick, get_candles, latest_candle}
use nexa_trade.FeedService.{FeedService, symbol_key, aggregator_key}

-- `text.startswith(prefix)`
unfoldable pub starts_with : Text → Text → Bool
starts_with [] t = true
starts_with (c ∷ p) [] = false
starts_with (c ∷ p) (d ∷ t) = c == d && starts_with p t

abbrev pub with_callback : Option ℕ → List ℕ → List ℕ
with_callback none callbacks = callbacks
with_callback (some callback) callbacks = callback ∷ callbacks

-- `_on_tick`, step 4: the callbacks of the tick, in the order of the consumers.
unfoldable pub callbacks_for : Text → Dict (Dict ℕ) → List ℕ
callbacks_for sym_key [] = []
callbacks_for sym_key ((_, callbacks) ∷ rest) =
    with_callback (lookup sym_key callbacks) (callbacks_for sym_key rest)

module _ {F : Type 0} where
  unfoldable pub get_aggregator : Text → Text → Text → FeedService F → Option (Aggregator F)
  get_aggregator symbol exchange interval s =
      lookup (aggregator_key (symbol_key symbol exchange) interval) s.aggregators

  unfoldable pub candles_from : Option ℕ → Option (Aggregator F) → List (Ohlcv F)
  candles_from n none = []
  candles_from n (some a) = get_candles n a

  -- `get_last_price`: of the first aggregator of the symbol with a candle, its last closed candle, or
  -- else the one in progress.
  abbrev pub price_of : Option (Ohlcv F) → Option (Running F) → Option F
  price_of (some c) current = some c.close
  price_of none (some r) = some r.close
  price_of none none = none

  unfoldable pub last_price_in : Text → Dict (Aggregator F) → Option F
  last_price_in sym_key [] = none
  last_price_in sym_key ((key, a) ∷ rest) =
      elim (if starts_with sym_key key then price_of (latest_candle a) a.current else none) [
        | none ↦ last_price_in sym_key rest
        | some p ↦ some p
      ]

  unfoldable pub get_last_price : Text → Text → FeedService F → Option F
  get_last_price symbol exchange s = last_price_in (symbol_key symbol exchange) s.aggregators

module _ {F : Type 0} ⦃f : Float F⦄ where
  -- Step 3: every aggregator of the symbol takes the tick. With each candle that is closed, the
  -- callbacks that get it.
  unfoldable pub feed_aggregators :
      Text → TickData F → Dict (Aggregator F) → List (List ℕ × Ohlcv F) × Dict (Aggregator F)
  feed_aggregators sym_key t [] = ([], [])
  feed_aggregators sym_key t ((key, a) ∷ rest) =
      let (closed, others) = feed_aggregators sym_key t rest in
      if starts_with sym_key key
      then (
        map (λ c. (a.listeners, c)) (process_tick t a).0 ++ closed,
        (key, (process_tick t a).1) ∷ others,
      )
      else (closed, (key, a) ∷ others)

  -- `_on_tick`: the closed candles with their callbacks, then the callbacks of the tick.
  unfoldable pub on_tick :
      TickData F → FeedService F → List (List ℕ × Ohlcv F) × List ℕ × FeedService F
  on_tick t s =
      let sym_key = t.symbol ++ (codes ":" ++ t.exchange) in
      let (closed, aggregators) = feed_aggregators sym_key t s.aggregators in
      (closed, callbacks_for sym_key s.consumers, record s { aggregators = aggregators })
