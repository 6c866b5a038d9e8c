-- ===== src/Breeze/Candles.antt =====
-- `get_historical_data`: the chunks of days, one request for each, and the candles in the order of time.
use nexa_trade.Prelude.{ℕ, Option, none, some, List, [], ◌∷◌, ◌++◌, ltb, if◌then◌else◌}
use nexa_trade.Text.{Text, codes, upper}
use nexa_trade.Dict.{Dict, lookup}
use nexa_trade.Float.{Float, nought}
use nexa_trade.Outcome.{Outcome, ok, raised, runtime_error, ◌>>=◌}
use nexa_trade.Models.Market.{Ohlcv}
use nexa_trade.Timing.Chunks.{date_range_chunks}
use nexa_trade.Breeze.{Breeze, Reply}
use nexa_trade.Breeze.Orders.{Values, reply_of, rows_of}

-- What the call is for.
pub record Request : Type 0 where
  pub symbol : Text
  pub exchange : Text
  pub interval : Text

-- The client's history of the request between two points in time, and the time of a row.
pub record History (B J : Type 0) : Type 0 where
  pub get_historical_data_v2 : ℕ → ℕ → B → Outcome (Option (Reply J)) × B
  pub datetime_of : Dict J → Outcome ℕ

-- What a loop keeps that logs an exception and goes on.
abbrev pub kept : {A : Type 0} → Outcome A → List A → List A
kept (ok a) rest = a ∷ rest
kept (raised e) rest = rest

abbrev pub rows_or_none : {A : Type 0} → Outcome (List A) → List A
rows_or_none (ok rows) = rows
rows_or_none (raised e) = []

-- `all_candles.sort(key=lambda c: c.datetime)`, which keeps the order of candles of one time
unfoldable pub insert_candle : {F : Type 0} → Ohlcv F → List (Ohlcv F) → List (Ohlcv F)
insert_candle c [] = c ∷ []
insert_candle c (d ∷ ds) = if ltb d.datetime c.datetime then d ∷ insert_candle c ds else c ∷ d ∷ ds

unfoldable pub sort_candles : {F : Type 0} → List (Ohlcv F) → List (Ohlcv F)
sort_candles [] = []
sort_candles (c ∷ cs) = insert_candle c (sort_candles cs)

module _ {B J F : Type 0} ⦃f : Float F⦄ (w : History B J) (v : Values J F) where
  -- `float(row.get(key, 0))`
  abbrev pub number_by : Option J → Outcome F
  number_by none = ok nought
  number_by (some x) = v.float_of x

  unfoldable pub row_candle : Request → Dict J → Outcome (Ohlcv F)
  row_candle request row = w.datetime_of row >>= λ time.
      number_by (lookup (codes "open") row) >>= λ open_.
      number_by (lookup (codes "high") row) >>= λ high.
      number_by (lookup (codes "low") row) >>= λ low.
      number_by (lookup (codes "close") row) >>= λ close.
      number_by (lookup (codes "volume") row) >>= λ volume. ok record {
        datetime = time;
        open_ = open_;
        high = high;
        low = low;
        close = close;
        volume = volume;
        symbol = upper request.symbol;
        exchange = upper request.exchange;
        interval = request.interval;
        broker_name = codes "breeze";
      }

  unfoldable pub readable : Request → List (Dict J) → List (Ohlcv F)
  readable request [] = []
  readable request (row ∷ rows) = kept (row_candle request row) (readable request rows)

  -- The candles of a chunk: none of a request that raises.
  unfoldable pub chunk_candles : Request → Outcome (Option (Reply J)) → List (Ohlcv F)
  chunk_candles request answer =
      readable request
        (rows_or_none (answer >>= λ reply. reply_of reply >>= λ r. rows_of r.success))

  unfoldable pub collect : Request → List (ℕ × ℕ) → B → List (Ohlcv F) × B
  collect request [] b = ([], b)
  collect request ((start, end) ∷ chunks) b =
      let (answer, b') = w.get_historical_data_v2 start end b in
      let (rest, b'') = collect request chunks b' in (chunk_candles request answer ++ rest, b'')

  abbrev pub gathered_by :
      Request → Breeze × B → Outcome (List (ℕ × ℕ)) → Outcome (List (Ohlcv F)) × (Breeze × B)
  gathered_by request x (raised e) = (raised e, x)
  gathered_by request (s, b) (ok chunks) =
      let (candles, b') = collect request chunks b in
      if s.has_client then (ok (sort_candles candles), (s, b')) else (raised runtime_error, (s, b))

  unfoldable pub get_historical_data :
      ℕ → Request → ℕ → ℕ → ℕ → Breeze × B → Outcome (List (Ohlcv F)) × (Breeze × B)
  get_historical_data fuel request start end max_days x =
      gathered_by request x (date_range_chunks fuel start end max_days)
