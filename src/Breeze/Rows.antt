-- ===== src/Breeze/Rows.antt =====
-- What the candles of a history are, told of the replies and their rows alone.
use nexa_trade.Prelude.{ℕ, ◌≡◌, refl, sym, ap, ◌++◌, arith, Option, none, some, List, [], ◌∷◌}
use mathlib.Core.Path.{subst}
use nexa_trade.Text.{codes, upper}
use nexa_trade.Dict.{Dict, lookup}
use nexa_trade.Float.{Float, nought}
use nexa_trade.Outcome.{May, May->>=, Outcome, Error, ok, raised}
use nexa_trade.Models.Market.{Ohlcv}
use nexa_trade.Breeze.{Success, nothing, one, many, Reply}
use nexa_trade.Breeze.Orders.{Values, rows_of}
use nexa_trade.Breeze.Candles.{
  Request, History, kept, number_by, rows_or_none, row_candle, readable, chunk_candles, collect,
}

-- A list that came back; of anything else no row can be read.
abbrev pub listed : {J : Type 0} → Success J → List (Dict J)
listed (many rows) = rows
listed _ = []

-- The rows of an answer: none of a request that raised, of a reply that is missing, and of one that
-- is no list.
abbrev pub HasRows : {J : Type 0} → Outcome (Option (Reply J)) → List (Dict J) → Type 0
HasRows (raised e) rows = rows ≡ []
HasRows (ok none) rows = rows ≡ []
HasRows (ok (some r)) rows = rows ≡ listed r.success

module _ {B J F : Type 0} ⦃f : Float F⦄ (w : History B J) (v : Values J F) where
  -- A number of a row, which is zero where it is missing.
  abbrev pub Gives : Option J → F → Type 0
  Gives none x = x ≡ nought
  Gives (some a) x = v.float_of a ≡ ok x

  -- A candle has what its row gives, and the names that the request has.
  pub record IsOf (request : Request) (row : Dict J) (c : Ohlcv F) : Type 0 where
    pub time : w.datetime_of row ≡ ok c.datetime
    pub open_ : Gives (lookup (codes "open") row) c.open_
    pub high : Gives (lookup (codes "high") row) c.high
    pub low : Gives (lookup (codes "low") row) c.low
    pub close : Gives (lookup (codes "close") row) c.close
    pub volume : Gives (lookup (codes "volume") row) c.volume
    pub symbol : c.symbol ≡ upper request.symbol
    pub exchange : c.exchange ≡ upper request.exchange
    pub interval : c.interval ≡ request.interval

  -- Rows and their candles, in one order: a row is passed over only if no candle is of it.
  pub data AreRead (request : Request) : List (Dict J) → List (Ohlcv F) → Type 0 where
    no_rows : AreRead request [] []
    row_read :
        (row : Dict J) (c : Ohlcv F) (rows : List (Dict J)) (cs : List (Ohlcv F))
        → IsOf request row c
        → AreRead request rows cs
        → AreRead request (row ∷ rows) (c ∷ cs)
    row_skipped :
        (row : Dict J) (rows : List (Dict J)) (cs : List (Ohlcv F))
        → ((c : Ohlcv F) → ¬ IsOf request row c)
        → AreRead request rows cs
        → AreRead request (row ∷ rows) cs

  -- The chunks are asked for one after the other, and the candles are those of the answers.
  pub data Fetched (request : Request) : List (ℕ × ℕ) → B → List (Ohlcv F) → Type 0 where
    no_chunks : (b : B) → Fetched request [] b []
    chunk_fetched :
        (start end : ℕ) (chunks : List (ℕ × ℕ)) (b : B) (rows : List (Dict J))
        (cs rest : List (Ohlcv F))
        → HasRows (w.get_historical_data_v2 start end b).0 rows
        → AreRead request rows cs
        → Fetched request chunks (w.get_historical_data_v2 start end b).1 rest
        → Fetched request ((start, end) ∷ chunks) b (cs ++ rest)

  number_by-Gives : (m : Option J) (x : F) → number_by w v m ≡ ok x → Gives m x
  number_by-Gives none x h = ground (arith, h)
  number_by-Gives (some a) x h = h

  Gives-number_by : (m : Option J) (x : F) → Gives m x → number_by w v m ≡ ok x
  Gives-number_by none x h = ap ok (sym h)
  Gives-number_by (some a) x h = h

  row_candle-IsOf :
      (request : Request) (row : Dict J) → May (IsOf request row) (row_candle w v request row)
  unfolding row_candle
  row_candle-IsOf request row = May->>= _ (w.datetime_of row) _ (λ time is_time.
      May->>= _ (number_by w v (lookup (codes "open") row)) _ (λ open_ is_open.
        May->>= _ (number_by w v (lookup (codes "high") row)) _ (λ high is_high.
          May->>= _ (number_by w v (lookup (codes "low") row)) _ (λ low is_low.
            May->>= _ (number_by w v (lookup (codes "close") row)) _ (λ close is_close.
              May->>= _ (number_by w v (lookup (codes "volume") row)) _ (λ volume is_volume.
                record {
                  time = is_time;
                  open_ = number_by-Gives _ open_ is_open;
                  high = number_by-Gives _ high is_high;
                  low = number_by-Gives _ low is_low;
                  close = number_by-Gives _ close is_close;
                  volume = number_by-Gives _ volume is_volume;
                  symbol = refl;
                  exchange = refl;
                  interval = refl;
                }))))))

  IsOf-row_candle :
      (request : Request) (row : Dict J) (c : Ohlcv F) (e : Error)
      → row_candle w v request row ≡ raised e
      → ¬ IsOf request row c
  unfolding row_candle
  IsOf-row_candle request row c e h of = ground (
    arith,
    h,
    of.time,
    Gives-number_by (lookup (codes "open") row) c.open_ of.open_,
    Gives-number_by (lookup (codes "high") row) c.high of.high,
    Gives-number_by (lookup (codes "low") row) c.low of.low,
    Gives-number_by (lookup (codes "close") row) c.close of.close,
    Gives-number_by (lookup (codes "volume") row) c.volume of.volume,
  )

  one_read :
      (request : Request) (row : Dict J) (rows : List (Dict J)) (cs : List (Ohlcv F))
      (m : Outcome (Ohlcv F))
      → row_candle w v request row ≡ m
      → AreRead request rows cs
      → AreRead request (row ∷ rows) (kept m cs)
  one_read request row rows cs (ok c) h rest =
      row_read row c rows cs (subst (May (IsOf request row)) h (row_candle-IsOf request row)) rest
  one_read request row rows cs (raised e) h rest =
      row_skipped row rows cs (λ c. IsOf-row_candle request row c e h) rest

  readable-AreRead :
      (request : Request) (rows : List (Dict J)) → AreRead request rows (readable w v request rows)
  unfolding readable
  readable-AreRead request [] = no_rows
  readable-AreRead request (row ∷ rows) =
      one_read request row rows (readable w v request rows) (row_candle w v request row) refl
        (readable-AreRead request rows)

  success_rows :
      (request : Request) (x : Success J)
      → readable w v request (rows_or_none (rows_of x)) ≡ readable w v request (listed x)
  unfolding readable
  success_rows request nothing = refl
  success_rows request (one []) = refl
  success_rows request (one (x ∷ d)) = refl
  success_rows request (many rows) = refl

  chunk_candles-HasRows :
      (request : Request) (m : Outcome (Option (Reply J)))
      → (rows : List (Dict J)) × (HasRows m rows
          × (chunk_candles w v request m ≡ readable w v request rows))
  unfolding chunk_candles
  chunk_candles-HasRows request (raised e) = ([], (refl, refl))
  chunk_candles-HasRows request (ok none) = ([], (refl, refl))
  chunk_candles-HasRows request (ok (some r)) =
      (listed r.success, (refl, success_rows request r.success))

  pub collect-Fetched :
      (request : Request) (chunks : List (ℕ × ℕ)) (b : B)
      → Fetched request chunks b (collect w v request chunks b).0
  unfolding collect
  collect-Fetched request [] b = no_chunks b
  collect-Fetched request ((start, end) ∷ chunks) b =
      let m = w.get_historical_data_v2 start end b in
      let (rows, (has, same)) = chunk_candles-HasRows request m.0 in
      chunk_fetched start end chunks b rows (chunk_candles w v request m.0)
        (collect w v request chunks m.1).0 has (rw same (readable-AreRead request rows))
        (collect-Fetched request chunks m.1)
