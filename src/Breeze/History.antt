-- ===== src/Breeze/History.antt =====
-- The candles that come back, and their order.
use nexa_trade.Prelude.{
  ℕ, ◌-◌, ◌≤◌, ◌<◌, ◌≡◌, true, List, [], ◌∷◌, All, All-weaken, ltb, le_of_not_ltb, if-holds,
  if-split, arith,
}
use mathlib.Core.List.Perm
use mathlib.Core.List.{Perm}
use nexa_trade.Float.{Float}
use nexa_trade.Outcome.{Outcome, ok, raised, runtime_error, Returns}
use nexa_trade.Models.Market.{Ohlcv}
use nexa_trade.Timing.Chunks.{Covers, date_range_chunks, date_range_chunks_lem}
use nexa_trade.Breeze.{Breeze}
use nexa_trade.Breeze.Orders.{Values}
use nexa_trade.Breeze.Rows.{Fetched, collect-Fetched}
use nexa_trade.Breeze.Candles.{
  Request, History, insert_candle, sort_candles, collect, gathered_by, get_historical_data,
}

-- No candle is of an earlier time than one before it.
abbrev pub InOrder : {F : Type 0} → List (Ohlcv F) → Type 0
InOrder [] = Unit
InOrder (c ∷ cs) = All (λ d. c.datetime ≤ d.datetime) cs × InOrder cs

module _ {F : Type 0} where
  All-insert_candle :
      (P : Ohlcv F → Type 0) (c : Ohlcv F) (cs : List (Ohlcv F))
      → P c
      → All P cs
      → All P (insert_candle c cs)
  unfolding insert_candle
  All-insert_candle P c [] h hs = (h, tt)
  All-insert_candle P c (d ∷ ds) h (k, ks) =
      if-holds (All P) (ltb d.datetime c.datetime) (d ∷ insert_candle c ds) (c ∷ d ∷ ds)
        (k, All-insert_candle P c ds h ks) (h, (k, ks))

  insert_candle-InOrder :
      (c : Ohlcv F) (cs : List (Ohlcv F)) → InOrder cs → InOrder (insert_candle c cs)
  unfolding insert_candle
  insert_candle-InOrder c [] h = (tt, tt)
  insert_candle-InOrder c (d ∷ ds) (first, h) =
      if-split InOrder (ltb d.datetime c.datetime) (d ∷ insert_candle c ds) (c ∷ d ∷ ds)
        (λ later. (
          All-insert_candle (λ x. d.datetime ≤ x.datetime) c ds (ground (arith, later)) first,
          insert_candle-InOrder c ds h,
        ))
        λ not_later.
          let before = le_of_not_ltb d.datetime c.datetime not_later in
          (
            (
              before,
              All-weaken (λ x. d.datetime ≤ x.datetime) (λ x. c.datetime ≤ x.datetime) ds
                  (λ x k. omega (arith, before, k)) first,
            ),
            (first, h),
          )

  insert_candle-Perm : (c : Ohlcv F) (cs : List (Ohlcv F)) → Perm (c ∷ cs) (insert_candle c cs)
  unfolding insert_candle
  insert_candle-Perm c [] = Perm.rfl
  insert_candle-Perm c (d ∷ ds) =
      if-holds (Perm (c ∷ d ∷ ds)) (ltb d.datetime c.datetime) (d ∷ insert_candle c ds) (c ∷ d ∷ ds)
        (Perm.trans (Perm.swap d c ds) (Perm.cons d (insert_candle-Perm c ds))) Perm.rfl

  sort_candles-InOrder : (cs : List (Ohlcv F)) → InOrder (sort_candles cs)
  unfolding sort_candles
  sort_candles-InOrder [] = tt
  sort_candles-InOrder (c ∷ cs) =
      insert_candle-InOrder c (sort_candles cs) (sort_candles-InOrder cs)

  sort_candles-Perm : (cs : List (Ohlcv F)) → Perm cs (sort_candles cs)
  unfolding sort_candles
  sort_candles-Perm [] = Perm.rfl
  sort_candles-Perm (c ∷ cs) =
      Perm.trans (Perm.cons c (sort_candles-Perm cs)) (insert_candle-Perm c (sort_candles cs))

module _ {B J F : Type 0} ⦃f : Float F⦄ (w : History B J) (v : Values J F) where
  -- A list of chunks that cover the days, and the candles that were fetched of them, in order.
  abbrev pub Collected : Request → ℕ → ℕ → ℕ → B → List (Ohlcv F) → Type 0
  Collected request start end max_days b candles =
      (chunks : List (ℕ × ℕ)) × (Covers start end max_days chunks
        × ((fetched : List (Ohlcv F)) × (Fetched w v request chunks b fetched
              × (Perm fetched candles × InOrder candles))))

  gathered_by-Returns :
      (request : Request) (start end max_days : ℕ) (s : Breeze) (b : B)
      → (m : Outcome (List (ℕ × ℕ))) → s.has_client ≡ true
      → Returns (Covers start end max_days) m
      → Returns (Collected request start end max_days b) (gathered_by w v request (s, b) m).0
  gathered_by-Returns request start end max_days s b (raised e) on h = absurd h
  gathered_by-Returns request start end max_days s b (ok chunks) on h =
      let (candles, b') = collect w v request chunks b in
      if-split
        (λ (m : Outcome (List (Ohlcv F)) × (Breeze × B)).
          Returns (Collected request start end max_days b) m.0)
        s.has_client (ok (sort_candles candles), (s, b')) (raised runtime_error, (s, b))
        (λ is_on. (
          chunks,
          (
            h,
            (
              candles,
              (
                collect-Fetched w v request chunks b,
                (sort_candles-Perm candles, sort_candles-InOrder candles),
              ),
            ),
          ),
        ))
        λ off. ground (arith, on, off)

  -- With a client, a positive number of days for a request, and as much fuel as the range has
  -- microseconds, the history is returned whatever the requests raise: the chunks cover the range from its
  -- start to its end, each was asked for in turn, and the candles are one for each row of the lists that came
  -- back, with the time and the numbers of the row, but for the rows of which no candle can be read,
  -- in the order of time.
  pub get_historical_data_lem :
      (fuel : ℕ) (request : Request) (start end max_days : ℕ) (s : Breeze) (b : B)
      → 0 < max_days
      → end - start ≤ fuel
      → s.has_client ≡ true
      → Returns
          (Collected request start end max_days b)
          (get_historical_data w v fuel request start end max_days (s, b)).0
  unfolding get_historical_data
  get_historical_data_lem fuel request start end max_days s b positive enough on =
      gathered_by-Returns request start end max_days s b (date_range_chunks fuel start end max_days)
        on (date_range_chunks_lem fuel start end max_days positive (omega (arith, enough)))
