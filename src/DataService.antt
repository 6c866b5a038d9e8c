-- ===== src/DataService.antt =====
-- services/data_service.py, class DataService: candles from the memory cache, from InfluxDB or from the
-- broker. A table of pandas is an element of a type with the operations that the code uses, and what
-- InfluxDB and the broker answer is a parameter; an exception of theirs is an empty table.
pub mod Cache
use nexa_trade.Prelude.{
  ℕ, ◌+◌, ◌*◌, ◌/◌, Bool, true, false, not, ◌&&◌, Option, none, some, List, [], ◌∷◌, length, ltb,
  leb, if◌then◌else◌,
}
use nexa_trade.Prelude.Int.{ℤ, pos, pos_part}
use nexa_trade.Text.{Text, text_eq, upper}
use nexa_trade.Float.{Float, ◌⊘◌}
use nexa_trade.FeedService.{interval_minutes}
use nexa_trade.Brokers.{name_or}

pub record CacheKey : Type 0 where
  pub symbol : Text
  pub exchange : Text
  pub interval : Text
  pub from_date : Text
  pub to_date : Text

unfoldable pub key_eq : CacheKey → CacheKey → Bool
key_eq a b =
    text_eq a.symbol b.symbol
    && text_eq a.exchange b.exchange
    && text_eq a.interval b.interval
    && text_eq a.from_date b.from_date
    && text_eq a.to_date b.to_date

-- `_mem_cache_maxsize`
abbrev pub maxsize : ℕ
maxsize = 50

abbrev pub Cache : Type 0 → Type 0
Cache D = List (CacheKey × D)

-- A part of a key that is not given, or is empty, matches all.
abbrev pub matches : Option Text → Text → Bool
matches none value = true
matches (some []) value = true
matches (some (x ∷ t)) value = text_eq value (x ∷ t)

abbrev pub upper? : Option Text → Option Text
upper? none = none
upper? (some t) = some (upper t)

module _ {D : Type 0} where
  unfoldable pub cached : CacheKey → Cache D → Option D
  cached k [] = none
  cached k ((j, d) ∷ c) = if key_eq j k then some d else cached k c

  -- `self._mem_cache[key] = df`
  unfoldable pub put : CacheKey → D → Cache D → Cache D
  put k d [] = (k, d) ∷ []
  put k d ((j, e) ∷ c) = if key_eq j k then (j, d) ∷ c else (j, e) ∷ put k d c

  abbrev pub drop_oldest : Cache D → Cache D
  drop_oldest [] = []
  drop_oldest (e ∷ c) = c

  -- `_cache_set`
  unfoldable pub cache_set : CacheKey → D → Cache D → Cache D
  cache_set k d c = put k d (if leb maxsize (length c) then drop_oldest c else c)

  -- `invalidate_cache`: the number of keys that go, and what stays
  unfoldable pub invalidate_cache : Option Text → Option Text → Option Text → Cache D → ℕ × Cache D
  invalidate_cache symbol exchange interval [] = (0, [])
  invalidate_cache symbol exchange interval ((k, d) ∷ c) =
      let (n, rest) = invalidate_cache symbol exchange interval c in
      if matches (upper? symbol) k.symbol
        && matches (upper? exchange) k.exchange
        && matches interval k.interval
      then (n + 1, rest)
      else (n, (k, d) ∷ rest)

-- The operations of tables of numbers, and where they come from. The broker that is asked is the active one.
pub record Tables (R D F : Type 0) : Type 0 where
  pub is_empty : D → Bool
  pub rows : D → ℕ
  pub merge : D → D → D
  pub validate_and_clean : D → D
  pub requested_days : Text → Text → ℤ
  pub today : R → Text
  pub active_broker_name : R → Text
  pub fetch_from_influx : CacheKey → Text → R → D × R
  pub fetch_from_broker : CacheKey → R → D × R
  pub write_to_influx : CacheKey → Text → D → R → R

-- The bars that are expected of so many days; of no day or fewer there are none, which is as good as
-- a negative number below the maximum with 1.
abbrev pub expected_bars : ℤ → ℤ → ℕ
expected_bars days interval_mins =
    let m = pos_part interval_mins in
    pos_part days * (if ltb m 1440 then 375 else 1) / (if leb 1 m then m else 1)

module _ {R D F : Type 0} ⦃f : Float F⦄ (w : Tables R D F) where
  unfoldable pub is_covered : CacheKey → D → Bool
  is_covered k d =
      let n =
        expected_bars (w.requested_days k.from_date k.to_date) (interval_minutes k.interval) in
      f.le (f.decimal 80 2) (f.of_ℤ (pos (w.rows d)) ⊘ f.of_ℤ (pos (if leb 1 n then n else 1)))

  -- `_fill_gaps`
  unfoldable pub fill_gaps : CacheKey → Text → D → R → D × R
  fill_gaps k broker d r =
      let (more, r') = w.fetch_from_broker k r in
      if leb (pos_part (interval_minutes k.interval)) 0
      then (d, r)
      else (if is_covered k d
          then (d, r)
          else (if w.is_empty more
              then (d, r')
              else (w.merge d more, w.write_to_influx k broker more r')))

  -- `get_ohlcv` past the cache: the table to clean, of InfluxDB or of the broker
  unfoldable pub from_broker : CacheKey → Text → R → D × R
  from_broker k broker r =
      let (d, r') = w.fetch_from_broker k r in
      (d, if w.is_empty d then r' else w.write_to_influx k broker d r')

  unfoldable pub fetch : CacheKey → Text → Bool → R → D × R
  fetch k broker force_refresh r =
      let (d, r') = w.fetch_from_influx k broker r in
      if force_refresh
      then from_broker k broker r
      else (if w.is_empty d then from_broker k broker r' else fill_gaps k broker d r')

  unfoldable pub answer_with : CacheKey → D × R → Cache D → D × Cache D × R
  answer_with k (d, r) c = let result = w.validate_and_clean d in (result, cache_set k result c, r)

  unfoldable pub look_up : Option D → CacheKey → Text → Cache D → R → D × Cache D × R
  look_up (some d) k broker c r = (d, c, r)
  look_up none k broker c r = answer_with k (fetch k broker false r) c

  abbrev pub key_of : Text → Text → Text → Text → Option Text → R → CacheKey
  key_of symbol exchange interval from_date to_date r = record {
    symbol = upper symbol;
    exchange = upper exchange;
    interval = interval;
    from_date = from_date;
    to_date = name_or to_date (w.today r);
  }

  unfoldable pub get_by_key : CacheKey → Text → Bool → Cache D → R → D × Cache D × R
  get_by_key k broker force_refresh c r =
      if force_refresh
      then answer_with k (fetch k broker true r) c
      else look_up (cached k c) k broker c r

  -- `get_ohlcv(symbol, exchange, interval, from_date, to_date, broker_name, force_refresh)`
  unfoldable pub get_ohlcv :
      Text → Text → Text → Text → Option Text → Option Text → Bool → Cache D → R → D × Cache D × R
  get_ohlcv symbol exchange interval from_date to_date broker_name force_refresh c r =
      get_by_key (key_of symbol exchange interval from_date to_date r)
        (name_or broker_name (w.active_broker_name r)) force_refresh c r

  -- `get_intraday`: one day, never from the cache
  unfoldable pub get_intraday :
      Text → Text → Text → Option Text → Option Text → Cache D → R → D × Cache D × R
  get_intraday symbol exchange interval date broker_name c r =
      let day = name_or date (w.today r) in
      get_ohlcv symbol exchange interval day (some day) broker_name true c r
